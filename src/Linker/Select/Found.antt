-- ===== src/Linker/Select/Found.antt =====
-- The searches of linker/n65ld_input.c where they find a provider.
use n.Prelude.{
  ℕ, zero, suc, ◌+◌, ◌≡◌, refl, sym, ap, ◌∙◌, inl, inr, true, false, none, some, List, [], ◌∷◌,
  get_elem?, All, arith, Bool-cases, Option-cases, if◌then◌else◌, if_true, if_false,
}
use mathlib.Core.Path.{subst}
use n.Linker.Select.{
  Candidate, Member, InputRef, input_object, input_archive, InputSet, Provider, in_objects,
  in_archive, find_member, find_provider_in_archive, find_provider_in_object, find_in_ref,
  find_in_order, object_exports_symbol,
}
use n.Linker.Select.Progress.{IsFresh, IsInSync, All-get}

-- A provider that is not linked and exports the name.
abbrev pub Provides : InputSet → List ℕ → Provider → Type 0
Provides inputs name (in_objects i) =
    (c : Candidate) × (get_elem? inputs.cmd_objects i ≡ some c)
    × (c.selected ≡ false)
    × (object_exports_symbol c.file name ≡ true)
Provides inputs name (in_archive i m) =
    (mems : List Member) × (mem : Member) × (get_elem? inputs.archives i ≡ some mems)
    × (get_elem? mems m ≡ some mem)
    × (mem.obj.selected ≡ false)
    × (object_exports_symbol mem.obj.file name ≡ true)

pub Provides-IsFresh :
    (inputs : InputSet) (name : List ℕ) (p : Provider) → Provides inputs name p → IsFresh inputs p
Provides-IsFresh inputs name (in_objects i) (c, e, f, x) = (c, e, f)
Provides-IsFresh inputs name (in_archive i m) (mems, mem, e, em, f, x) = (mems, mem, e, em, f)

-- A found member: where it stands, and that it is not marked.
find_member_lem :
    (mems : List Member) (name : List ℕ) (start m : ℕ)
    → find_member mems name start ≡ some m
    → (k : ℕ) × (mem : Member) × (m ≡ start + k)
      × (get_elem? mems k ≡ some mem)
      × (mem.selected ≡ false)
      × (object_exports_symbol mem.obj.file name ≡ true)
unfolding find_member
find_member_lem [] name start m e = cc
find_member_lem (x ∷ mems) name start m e =
    let rest = find_member mems name (suc start) in
    let inner = if object_exports_symbol x.obj.file name then some start else rest in
    let later : find_member mems name (suc start) ≡ some m
        → (k : ℕ) × (mem : Member) × (m ≡ start + k)
          × (get_elem? (x ∷ mems) k ≡ some mem)
          × (mem.selected ≡ false)
          × (object_exports_symbol mem.obj.file name ≡ true) =
      λ e'.
        let (k, mem, p, g, s, o) = find_member_lem mems name (suc start) m e' in
        (suc k, mem, omega (arith, p), g, s, o) in
    elim (Bool-cases x.selected) [
      | inl on ↦ later (sym (if_true x.selected rest inner on) ∙ e)
      | inr off ↦
          let e1 = sym (if_false x.selected rest inner off) ∙ e in
          elim (Bool-cases (object_exports_symbol x.obj.file name)) [
            | inl has ↦
                let e2 =
                  sym (if_true (object_exports_symbol x.obj.file name) (some start) rest has)
                  ∙ e1 in
                let same : start ≡ m = cc in (zero, x, omega (arith, same), refl, off, has)
            | inr lacks ↦ later (
                sym (if_false (object_exports_symbol x.obj.file name) (some start) rest lacks) ∙ e1)
          ]
    ]

find_in_object_lem :
    (inputs : InputSet) (i : ℕ) (c : Candidate) (name : List ℕ) (p : Provider)
    → get_elem? inputs.cmd_objects i ≡ some c
    → find_provider_in_object i c name ≡ some p
    → Provides inputs name p
unfolding find_provider_in_object
find_in_object_lem inputs i c name p g e =
    let inner = if object_exports_symbol c.file name then some (in_objects i) else none in
    elim (Bool-cases c.selected) [
      | inl on ↦ let e' = sym (if_true c.selected none inner on) ∙ e in cc
      | inr off ↦
          let e' = sym (if_false c.selected none inner off) ∙ e in
          elim (Bool-cases (object_exports_symbol c.file name)) [
            | inl has ↦
                let e2 =
                  sym (if_true (object_exports_symbol c.file name) (some (in_objects i)) none has)
                  ∙ e' in
                let same : in_objects i ≡ p = cc in
                subst (Provides inputs name) same (c, g, off, has)
            | inr lacks ↦
                let e2 =
                  sym
                    (if_false (object_exports_symbol c.file name) (some (in_objects i)) none lacks)
                  ∙ e' in
                cc
          ]
    ]

find_in_archive_lem :
    (inputs : InputSet) (i : ℕ) (mems : List Member) (name : List ℕ) (p : Provider)
    → IsInSync inputs
    → get_elem? inputs.archives i ≡ some mems
    → find_provider_in_archive i mems name ≡ some p
    → Provides inputs name p
unfolding find_provider_in_archive
find_in_archive_lem inputs i mems name p h g e = elim (Option-cases (find_member mems name 0)) [
  | inl n ↦
      let e' = subst (λ o. elim o [ none ↦ none | some m ↦ some (in_archive i m) ] ≡ some p) n e in
      cc
  | inr q ↦
      let e' =
        subst (λ o. elim o [ none ↦ none | some m ↦ some (in_archive i m) ] ≡ some p) q.1 e in
      let same : in_archive i q.0 ≡ p = cc in
      let (k, mem, at, gm, off, has) = find_member_lem mems name 0 q.0 q.1 in
      let sync =
        All-get (λ x. x.selected ≡ x.obj.selected) mems k mem
          (All-get (λ ms. All (λ x. x.selected ≡ x.obj.selected) ms) inputs.archives i mems h g)
          gm in
      let place : k ≡ q.0 = omega (arith, at) in
      subst (Provides inputs name) same
        (mems, mem, g, subst (λ j. get_elem? mems j ≡ some mem) place gm, sym sync ∙ off, has)
]

find_in_ref_lem :
    (inputs : InputSet) (name : List ℕ) (ref : InputRef) (p : Provider)
    → IsInSync inputs
    → find_in_ref inputs name ref ≡ some p
    → Provides inputs name p
unfolding find_in_ref
find_in_ref_lem inputs name (input_object i) p h e =
    elim (Option-cases (get_elem? inputs.cmd_objects i)) [
      | inl n ↦
          let e' =
            subst (λ o. elim o [ none ↦ none | some c ↦ find_provider_in_object i c name ] ≡ some p)
              n e in
          cc
      | inr q ↦ find_in_object_lem inputs i q.0 name p q.1 (
          subst (λ o. elim o [ none ↦ none | some c ↦ find_provider_in_object i c name ] ≡ some p)
            q.1 e)
    ]
find_in_ref_lem inputs name (input_archive i) p h e =
    elim (Option-cases (get_elem? inputs.archives i)) [
      | inl n ↦
          let e' =
            subst
              (λ o. elim o [ none ↦ none | some c ↦ find_provider_in_archive i c name ] ≡ some p) n
              e in
          cc
      | inr q ↦ find_in_archive_lem inputs i q.0 name p h q.1 (
          subst (λ o. elim o [ none ↦ none | some c ↦ find_provider_in_archive i c name ] ≡ some p)
            q.1 e)
    ]

pub find_in_order_lem :
    (inputs : InputSet) (name : List ℕ) (refs : List InputRef) (p : Provider)
    → IsInSync inputs
    → find_in_order inputs name refs ≡ some p
    → Provides inputs name p
unfolding find_in_order
find_in_order_lem inputs name [] p h e = cc
find_in_order_lem inputs name (ref ∷ refs) p h e =
    elim (Option-cases (find_in_ref inputs name ref)) [
      | inl n ↦ find_in_order_lem inputs name refs p h (
          subst (λ o. elim o [ some q ↦ some q | none ↦ find_in_order inputs name refs ] ≡ some p) n
            e)
      | inr q ↦
          let e' =
            subst (λ o. elim o [ some r ↦ some r | none ↦ find_in_order inputs name refs ] ≡ some p)
              q.1 e in
          let same : q.0 ≡ p = cc in find_in_ref_lem inputs name ref p h (q.1 ∙ ap some same)
    ]
