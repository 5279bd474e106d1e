-- ===== src/Linker/Select/Progress.antt =====
-- `include_object` of linker/n65ld_input.c, and the number of objects that are not linked.
use n.Prelude.{
  ℕ, zero, suc, ◌+◌, ◌≡◌, refl, sym, ap, ◌∙◌, true, false, none, some, List, [], ◌∷◌, ◌++◌, length,
  get_elem?, set, All, arith, if◌then◌else◌, if_false, length-append,
}
use mathlib.Core.Path.{subst}
use n.Linker.Select.{
  Candidate, Member, InputSet, Provider, in_objects, in_archive, include_cmd_object, include_member,
  include_object,
}

-- The candidates that are not linked.
abbrev pub unselected_objects : List Candidate → ℕ
unselected_objects [] = 0
unselected_objects (c ∷ cs) = (if c.selected then 0 else 1) + unselected_objects cs

abbrev pub unselected_members : List Member → ℕ
unselected_members [] = 0
unselected_members (m ∷ ms) = (if m.obj.selected then 0 else 1) + unselected_members ms

abbrev pub unselected_archives : List (List Member) → ℕ
unselected_archives [] = 0
unselected_archives (a ∷ arcs) = unselected_members a + unselected_archives arcs

abbrev pub unselected : InputSet → ℕ
unselected inputs = unselected_objects inputs.cmd_objects + unselected_archives inputs.archives

-- The two marks of a member agree, as `load_archive` leaves them.
abbrev pub IsInSync : InputSet → Type 0
IsInSync inputs = All (λ mems. All (λ m. m.selected ≡ m.obj.selected) mems) inputs.archives

-- A provider that stands for an object not yet linked.
abbrev pub IsFresh : InputSet → Provider → Type 0
IsFresh inputs (in_objects i) =
    (c : Candidate) × (get_elem? inputs.cmd_objects i ≡ some c) × (c.selected ≡ false)
IsFresh inputs (in_archive i m) =
    (mems : List Member) × (mem : Member) × (get_elem? inputs.archives i ≡ some mems)
    × (get_elem? mems m ≡ some mem)
    × (mem.obj.selected ≡ false)

unselected_objects-set :
    (cs : List Candidate) (i : ℕ) (c d : Candidate)
    → get_elem? cs i ≡ some c
    → c.selected ≡ false
    → d.selected ≡ true
    → unselected_objects cs ≡ suc (unselected_objects (set cs i d))
unselected_objects-set [] i c d e f t = cc
unselected_objects-set (x ∷ cs) zero c d e f t =
    let same : x ≡ c = cc in
    let off : x.selected ≡ false = ap (λ y. y.selected) same ∙ f in rw (off, t) (omega arith)
unselected_objects-set (x ∷ cs) (suc i) c d e f t =
    omega (arith, unselected_objects-set cs i c d e f t)

unselected_members-set :
    (ms : List Member) (i : ℕ) (c d : Member)
    → get_elem? ms i ≡ some c
    → c.obj.selected ≡ false
    → d.obj.selected ≡ true
    → unselected_members ms ≡ suc (unselected_members (set ms i d))
unselected_members-set [] i c d e f t = cc
unselected_members-set (x ∷ cs) zero c d e f t =
    let same : x ≡ c = cc in
    let off : x.obj.selected ≡ false = ap (λ y. y.obj.selected) same ∙ f in
    rw (off, t) (omega arith)
unselected_members-set (x ∷ cs) (suc i) c d e f t =
    omega (arith, unselected_members-set cs i c d e f t)

unselected_archives-set :
    (arcs : List (List Member)) (i : ℕ) (a b : List Member)
    → get_elem? arcs i ≡ some a
    → unselected_members a ≡ suc (unselected_members b)
    → unselected_archives arcs ≡ suc (unselected_archives (set arcs i b))
unselected_archives-set [] i a b e f = cc
unselected_archives-set (x ∷ arcs) zero a b e f =
    let same : x ≡ a = cc in
    let count : unselected_members x ≡ suc (unselected_members b) =
      ap unselected_members same ∙ f in
    omega (arith, count)
unselected_archives-set (x ∷ arcs) (suc i) a b e f =
    omega (arith, unselected_archives-set arcs i a b e f)

abbrev with_object : InputSet → ℕ → Candidate → InputSet
with_object inputs i c = record {
  objects = inputs.objects ++ c.file ∷ [];
  cmd_objects = set inputs.cmd_objects i (record { file = c.file; selected = true });
  archives = inputs.archives;
  order = inputs.order;
}

abbrev with_member : InputSet → ℕ → List Member → ℕ → Member → InputSet
with_member inputs i mems m mem = record {
  objects = inputs.objects ++ mem.obj.file ∷ [];
  cmd_objects = inputs.cmd_objects;
  archives = set inputs.archives i (
      set mems m
        (record { obj = record { file = mem.obj.file; selected = true }; selected = true }));
  order = inputs.order;
}

include_fresh_object :
    (inputs : InputSet) (i : ℕ) (c : Candidate)
    → get_elem? inputs.cmd_objects i ≡ some c
    → c.selected ≡ false
    → include_object inputs (in_objects i) ≡ with_object inputs i c
unfolding include_object include_cmd_object
include_fresh_object inputs i c e f =
    subst
      (λ o.
        elim o [ none ↦ inputs | some obj ↦ include_cmd_object inputs i obj ]
        ≡ with_object inputs i c)
      (sym e) (if_false c.selected inputs (with_object inputs i c) f)

include_fresh_member :
    (inputs : InputSet) (i m : ℕ) (mems : List Member) (mem : Member)
    → get_elem? inputs.archives i ≡ some mems
    → get_elem? mems m ≡ some mem
    → mem.obj.selected ≡ false
    → include_object inputs (in_archive i m) ≡ with_member inputs i mems m mem
unfolding include_object include_member
include_fresh_member inputs i m mems mem e em f =
    subst
      (λ o.
        elim o [
          | none ↦ inputs
          | some ms ↦ elim (get_elem? ms m) [
            | none ↦ inputs
            | some x ↦ include_member inputs i ms m x
          ]
        ]
        ≡ with_member inputs i mems m mem)
      (sym e)
      (subst
        (λ o.
          elim o [ none ↦ inputs | some x ↦ include_member inputs i mems m x ]
          ≡ with_member inputs i mems m mem)
        (sym em) (if_false mem.obj.selected inputs (with_member inputs i mems m mem) f))

-- What it takes in was not linked, and it is counted once.
pub include_object_lem :
    (inputs : InputSet) (p : Provider)
    → IsFresh inputs p
    → (unselected inputs ≡ suc (unselected (include_object inputs p)))
      × (length (include_object inputs p).objects ≡ suc (length inputs.objects))
include_object_lem inputs (in_objects i) (c, e, f) =
    subst
      (λ y.
        (unselected inputs ≡ suc (unselected y)) × (length y.objects ≡ suc (length inputs.objects)))
      (sym (include_fresh_object inputs i c e f))
      (
        omega (
          arith,
          unselected_objects-set inputs.cmd_objects i c (record { file = c.file; selected = true })
              e f refl,
        ),
        omega (arith, length-append inputs.objects (c.file ∷ [])),
      )
include_object_lem inputs (in_archive i m) (mems, mem, e, em, f) =
    let one =
      unselected_members-set mems m mem
        (record { obj = record { file = mem.obj.file; selected = true }; selected = true }) em f
        refl in
    subst
      (λ y.
        (unselected inputs ≡ suc (unselected y)) × (length y.objects ≡ suc (length inputs.objects)))
      (sym (include_fresh_member inputs i m mems mem e em f))
      (
        omega (
          arith,
          unselected_archives-set inputs.archives i mems
              (set mems m
                (record { obj = record { file = mem.obj.file; selected = true }; selected = true }))
              e one,
        ),
        omega (arith, length-append inputs.objects (mem.obj.file ∷ [])),
      )

All-set :
    {A : Type 0} (P : A → Type 0) (xs : List A) (i : ℕ) (v : A)
    → P v
    → All P xs
    → All P (set xs i v)
All-set P [] i v h k = tt
All-set P (x ∷ xs) zero v h k = (h, k.1)
All-set P (x ∷ xs) (suc i) v h k = (k.0, All-set P xs i v h k.1)

pub All-get :
    {A : Type 0} (P : A → Type 0) (xs : List A) (i : ℕ) (v : A)
    → All P xs
    → get_elem? xs i ≡ some v
    → P v
All-get P [] i v k e = cc
All-get P (x ∷ xs) zero v k e = let same : x ≡ v = cc in subst P same k.0
All-get P (x ∷ xs) (suc i) v k e = All-get P xs i v k.1 e

pub include_object-IsInSync :
    (inputs : InputSet) (p : Provider)
    → IsFresh inputs p
    → IsInSync inputs
    → IsInSync (include_object inputs p)
include_object-IsInSync inputs (in_objects i) (c, e, f) h =
    subst IsInSync (sym (include_fresh_object inputs i c e f)) h
include_object-IsInSync inputs (in_archive i m) (mems, mem, e, em, f) h =
    subst IsInSync (sym (include_fresh_member inputs i m mems mem e em f)) (
      All-set (λ ms. All (λ x. x.selected ≡ x.obj.selected) ms) inputs.archives i
        (set mems m
          (record { obj = record { file = mem.obj.file; selected = true }; selected = true }))
        (All-set (λ x. x.selected ≡ x.obj.selected) mems m
          (record { obj = record { file = mem.obj.file; selected = true }; selected = true }) refl
          (All-get (λ ms. All (λ x. x.selected ≡ x.obj.selected) ms) inputs.archives i mems h e))
        h)
