-- ===== src/Linker/Select/Kept.antt =====
-- What `select_needed_objects` leaves of the input set: it marks objects, and moves none.
use n.Prelude.{
  ℕ, zero, suc, ◌≡◌, refl, sym, ap, ◌∙◌, inl, inr, Bool, true, false, some, List, [], ◌∷◌, map,
  get_elem?, set, if_true, if_false, Bool-cases, Option-cases,
}
use mathlib.Core.Path.{subst}
use n.O65.{ObjectFile}
use n.Linker.Select.{
  Candidate, Member, InputSet, Provider, in_objects, in_archive, include_cmd_object, include_member,
  include_object, select_round, select_needed_objects, collect_needed_symbols,
  selected_objects_export_symbol, find_best_provider,
}
use n.Linker.Select.Closed.{round_exported, round_missing, round_provided}

abbrev pub command_files : InputSet → List ObjectFile
command_files inputs = map (λ c. c.file) inputs.cmd_objects

abbrev pub archive_files : InputSet → List (List ObjectFile)
archive_files inputs = map (map (λ m. m.obj.file)) inputs.archives

-- The same objects of the command line and in the archives, and the same order.
abbrev pub SameFiles : InputSet → InputSet → Type 0
SameFiles inputs out =
    (command_files out ≡ command_files inputs)
    × (archive_files out ≡ archive_files inputs)
    × (out.order ≡ inputs.order)

SameFiles-refl : (inputs : InputSet) → SameFiles inputs inputs
SameFiles-refl inputs = (refl, refl, refl)

SameFiles-trans : (a b c : InputSet) → SameFiles a b → SameFiles b c → SameFiles a c
SameFiles-trans a b c h g = (g.0 ∙ h.0, g.1 ∙ h.1, g.2 ∙ h.2)

map-set :
    {A B : Type 0} (f : A → B) (xs : List A) (i : ℕ) (x v : A)
    → get_elem? xs i ≡ some x
    → f v ≡ f x
    → map f (set xs i v) ≡ map f xs
map-set f [] i x v e h = refl
map-set f (y ∷ xs) zero x v e h =
    let same : y ≡ x = cc in ap (λ z. z ∷ map f xs) (h ∙ ap f (sym same))
map-set f (y ∷ xs) (suc i) x v e h = ap (λ z. f y ∷ z) (map-set f xs i x v e h)

include_cmd_object-SameFiles :
    (inputs : InputSet) (i : ℕ) (c : Candidate)
    → get_elem? inputs.cmd_objects i ≡ some c
    → SameFiles inputs (include_cmd_object inputs i c)
unfolding include_cmd_object
include_cmd_object-SameFiles inputs i c e = elim (Bool-cases c.selected) [
  | inl s ↦ rw s (SameFiles-refl inputs)
  | inr s ↦ rw s (
    map-set (λ x. x.file) inputs.cmd_objects i c (record { file = c.file; selected = true }) e refl,
    refl,
    refl,
  )
]

include_member-SameFiles :
    (inputs : InputSet) (i m : ℕ) (mems : List Member) (mem : Member)
    → get_elem? inputs.archives i ≡ some mems
    → get_elem? mems m ≡ some mem
    → SameFiles inputs (include_member inputs i mems m mem)
unfolding include_member
include_member-SameFiles inputs i m mems mem e k = elim (Bool-cases mem.obj.selected) [
  | inl s ↦ rw s (SameFiles-refl inputs)
  | inr s ↦
      let marked : Member = record {
        obj = record { file = mem.obj.file; selected = true };
        selected = true;
      } in
      rw s (
        refl,
        map-set (map (λ x. x.obj.file)) inputs.archives i mems (set mems m marked) e
            (map-set (λ x. x.obj.file) mems m mem marked k refl),
        refl,
      )
]

include_object-SameFiles :
    (inputs : InputSet) (p : Provider) → SameFiles inputs (include_object inputs p)
unfolding include_object
include_object-SameFiles inputs (in_objects i) =
    elim (Option-cases (get_elem? inputs.cmd_objects i)) [
      | inl e ↦ rw (e, include_object) (SameFiles-refl inputs)
      | inr (c, e) ↦ rw (e, include_object) (include_cmd_object-SameFiles inputs i c e)
    ]
include_object-SameFiles inputs (in_archive i m) =
    elim (Option-cases (get_elem? inputs.archives i)) [
      | inl e ↦ rw (e, include_object) (SameFiles-refl inputs)
      | inr (mems, e) ↦ elim (Option-cases (get_elem? mems m)) [
        | inl k ↦ rw (e, k, include_object) (SameFiles-refl inputs)
        | inr (mem, k) ↦
            rw (e, k, include_object) (include_member-SameFiles inputs i m mems mem e k)
      ]
    ]

select_round-SameFiles :
    (inputs : InputSet) (names : List (List ℕ)) (progress : Bool)
    → SameFiles inputs (select_round inputs names progress).0
unfolding select_round
select_round-SameFiles inputs [] progress = SameFiles-refl inputs
select_round-SameFiles inputs (name ∷ names) progress =
    elim (Bool-cases (selected_objects_export_symbol inputs name)) [
      | inl e ↦
          subst (λ (r : InputSet × Bool). SameFiles inputs r.0)
            (sym (round_exported inputs name names progress e))
            (select_round-SameFiles inputs names progress)
      | inr e ↦ elim (Option-cases (find_best_provider inputs name)) [
        | inl n ↦
            subst (λ (r : InputSet × Bool). SameFiles inputs r.0)
              (sym (round_missing inputs name names progress e n))
              (select_round-SameFiles inputs names progress)
        | inr (p, n) ↦
            subst (λ (r : InputSet × Bool). SameFiles inputs r.0)
              (sym (round_provided inputs name names progress p e n))
              (SameFiles-trans inputs (include_object inputs p)
                (select_round (include_object inputs p) names true).0
                (include_object-SameFiles inputs p)
                (select_round-SameFiles (include_object inputs p) names true))
      ]
    ]

-- The selection keeps the inputs.
pub select_needed_objects-SameFiles :
    (fuel : ℕ) (inputs out : InputSet)
    → select_needed_objects fuel inputs ≡ some out
    → SameFiles inputs out
unfolding select_needed_objects
select_needed_objects-SameFiles zero inputs out e = cc
select_needed_objects-SameFiles (suc fuel) inputs out e =
    let names = collect_needed_symbols inputs in
    let r = select_round inputs names false in
    let rest = select_needed_objects fuel r.0 in
    let first = select_round-SameFiles inputs names false in
    elim (Bool-cases (select_round inputs (collect_needed_symbols inputs) false).1) [
      | inl on ↦ SameFiles-trans inputs r.0 out first (
          select_needed_objects-SameFiles fuel
            (select_round inputs (collect_needed_symbols inputs) false).0 out
            (sym (if_true r.1 rest (some r.0) on) ∙ e))
      | inr off ↦
          let same : some r.0 ≡ some out = sym (if_false r.1 rest (some r.0) off) ∙ e in
          let end : r.0 ≡ out = cc in subst (SameFiles inputs) end first
    ]
