-- ===== src/Linker/Select/Missing.antt =====
-- The searches of linker/n65ld_input.c where they find no provider, and the choice among providers.
use n.Prelude.{
  ℕ, suc, ◌≡◌, sym, ap, ◌∙◌, inl, inr, ◌⊎◌, Bool, true, false, none, some, List, [], ◌∷◌, get_elem?,
  All, Bool-cases, Option-cases, if◌then◌else◌, if_true, if_false,
}
use mathlib.Core.Path.{subst}
use n.O65.{ObjectFile}
use n.Linker.Symbols.{make_weak_name}
use n.Linker.Select.{
  Candidate, Member, InputRef, input_object, input_archive, InputSet, Provider, in_objects,
  in_archive, find_member, find_provider_in_archive, find_provider_in_object, find_in_ref,
  find_in_order, find_best_provider, object_exports_symbol, selected_objects_export_symbol,
}
use n.Linker.Select.Progress.{IsFresh, IsInSync}
use n.Linker.Select.Found.{Provides, Provides-IsFresh, find_in_order_lem}

-- A candidate that is linked already, or that does not export the name.
abbrev pub Lacks : Bool → ObjectFile → List ℕ → Type 0
Lacks selected file name = (selected ≡ true) ⊎ (object_exports_symbol file name ≡ false)

abbrev pub RefLacks : InputSet → List ℕ → InputRef → Type 0
RefLacks inputs name (input_object i) =
    (get_elem? inputs.cmd_objects i ≡ none)
    ⊎ ((c : Candidate) × (get_elem? inputs.cmd_objects i ≡ some c) × Lacks c.selected c.file name)
RefLacks inputs name (input_archive i) =
    (get_elem? inputs.archives i ≡ none)
    ⊎ ((mems : List Member) × (get_elem? inputs.archives i ≡ some mems)
        × All (λ m. Lacks m.selected m.obj.file name) mems)

-- A linked object exports the name or its weak form, or no object left in the inputs does.
abbrev pub IsSettled : InputSet → List ℕ → Type 0
IsSettled inputs name =
    (selected_objects_export_symbol inputs name ≡ true)
    ⊎ (All (RefLacks inputs name) inputs.order
        × All (RefLacks inputs (make_weak_name name)) inputs.order)

find_member-none :
    (mems : List Member) (name : List ℕ) (start : ℕ)
    → find_member mems name start ≡ none
    → All (λ m. Lacks m.selected m.obj.file name) mems
unfolding find_member
find_member-none [] name start e = tt
find_member-none (x ∷ mems) name start e =
    let rest = find_member mems name (suc start) in
    let has = object_exports_symbol x.obj.file name in
    let inner = if object_exports_symbol x.obj.file name then some start else rest in
    elim (Bool-cases x.selected) [
      | inl on ↦ (
        inl on,
        find_member-none mems name (suc start) (sym (if_true x.selected rest inner on) ∙ e),
      )
      | inr off ↦
          let e' = sym (if_false x.selected rest inner off) ∙ e in
          elim (Bool-cases (object_exports_symbol x.obj.file name)) [
            | inl y ↦ let e2 = sym (if_true has (some start) rest y) ∙ e' in cc
            | inr n ↦ (
              inr n,
              find_member-none mems name (suc start) (sym (if_false has (some start) rest n) ∙ e'),
            )
          ]
    ]

find_in_object-none :
    (i : ℕ) (c : Candidate) (name : List ℕ)
    → find_provider_in_object i c name ≡ none
    → Lacks c.selected c.file name
unfolding find_provider_in_object
find_in_object-none i c name e =
    let inner = if object_exports_symbol c.file name then some (in_objects i) else none in
    elim (Bool-cases c.selected) [
      | inl on ↦ inl on
      | inr off ↦
          let e' = sym (if_false c.selected none inner off) ∙ e in
          elim (Bool-cases (object_exports_symbol c.file name)) [
            | inl has ↦
                let e2 =
                  sym (if_true (object_exports_symbol c.file name) (some (in_objects i)) none has)
                  ∙ e' in
                cc
            | inr lacks ↦ inr lacks
          ]
    ]

find_in_archive-none :
    (i : ℕ) (mems : List Member) (name : List ℕ)
    → find_provider_in_archive i mems name ≡ none
    → All (λ m. Lacks m.selected m.obj.file name) mems
unfolding find_provider_in_archive
find_in_archive-none i mems name e = elim (Option-cases (find_member mems name 0)) [
  | inl n ↦ find_member-none mems name 0 n
  | inr q ↦
      let e' = subst (λ o. elim o [ none ↦ none | some m ↦ some (in_archive i m) ] ≡ none) q.1 e in
      cc
]

find_in_ref-none :
    (inputs : InputSet) (name : List ℕ) (ref : InputRef)
    → find_in_ref inputs name ref ≡ none
    → RefLacks inputs name ref
unfolding find_in_ref
find_in_ref-none inputs name (input_object i) e =
    elim (Option-cases (get_elem? inputs.cmd_objects i)) [
      | inl n ↦ inl n
      | inr q ↦ inr (
        q.0,
        q.1,
        find_in_object-none i q.0 name (
            subst (λ o. elim o [ none ↦ none | some c ↦ find_provider_in_object i c name ] ≡ none)
              q.1 e),
      )
    ]
find_in_ref-none inputs name (input_archive i) e =
    elim (Option-cases (get_elem? inputs.archives i)) [
      | inl n ↦ inl n
      | inr q ↦ inr (
        q.0,
        q.1,
        find_in_archive-none i q.0 name (
            subst (λ o. elim o [ none ↦ none | some c ↦ find_provider_in_archive i c name ] ≡ none)
              q.1 e),
      )
    ]

pub find_in_order-none :
    (inputs : InputSet) (name : List ℕ) (refs : List InputRef)
    → find_in_order inputs name refs ≡ none
    → All (RefLacks inputs name) refs
unfolding find_in_order
find_in_order-none inputs name [] e = tt
find_in_order-none inputs name (ref ∷ refs) e = elim (Option-cases (find_in_ref inputs name ref)) [
  | inl n ↦ (
    find_in_ref-none inputs name ref n,
    find_in_order-none inputs name refs (
        subst (λ o. elim o [ some q ↦ some q | none ↦ find_in_order inputs name refs ] ≡ none) n e),
  )
  | inr q ↦
      let e' =
        subst (λ o. elim o [ some r ↦ some r | none ↦ find_in_order inputs name refs ] ≡ none) q.1
          e in
      cc
]

pub none-IsSettled :
    (inputs : InputSet) (name : List ℕ)
    → find_best_provider inputs name ≡ none
    → IsSettled inputs name
unfolding find_best_provider
none-IsSettled inputs name e = elim (Option-cases (find_in_order inputs name inputs.order)) [
  | inl n ↦ inr (
    find_in_order-none inputs name inputs.order n,
    find_in_order-none inputs (make_weak_name name) inputs.order (
        subst
          (λ o.
            elim o [
              | some q ↦ some q
              | none ↦ find_in_order inputs (make_weak_name name) inputs.order
            ]
            ≡ none)
          n e),
  )
  | inr q ↦
      let e' =
        subst
          (λ o.
            elim o [
              | some r ↦ some r
              | none ↦ find_in_order inputs (make_weak_name name) inputs.order
            ]
            ≡ none)
          q.1 e in
      cc
]

-- If the marks of each archive member and of its object agree, an object that is found for a
-- symbol is not linked yet and exports the symbol, or it exports the weak form and no object left
-- in the inputs exports the symbol itself.
pub find_best_provider_lem :
    (inputs : InputSet) (name : List ℕ) (p : Provider)
    → IsInSync inputs
    → find_best_provider inputs name ≡ some p
    → Provides inputs name p
      ⊎ (All (RefLacks inputs name) inputs.order × Provides inputs (make_weak_name name) p)
unfolding find_best_provider
find_best_provider_lem inputs name p h e =
    let weak = find_in_order inputs (make_weak_name name) inputs.order in
    elim (Option-cases (find_in_order inputs name inputs.order)) [
      | inl n ↦
          let e' =
            ap
              (λ o. elim o [
                | some q ↦ some q
                | none ↦ find_in_order inputs (make_weak_name name) inputs.order
              ])
              (sym n)
            ∙ e in
          inr (
            find_in_order-none inputs name inputs.order n,
            find_in_order_lem inputs (make_weak_name name) inputs.order p h e',
          )
      | inr q ↦
          let e' =
            ap
              (λ o. elim o [
                | some r ↦ some r
                | none ↦ find_in_order inputs (make_weak_name name) inputs.order
              ])
              (sym q.1)
            ∙ e in
          let same : q.0 ≡ p = cc in
          inl (find_in_order_lem inputs name inputs.order p h (q.1 ∙ ap some same))
    ]

pub find_best_provider-IsFresh :
    (inputs : InputSet) (name : List ℕ) (p : Provider)
    → IsInSync inputs
    → find_best_provider inputs name ≡ some p
    → IsFresh inputs p
find_best_provider-IsFresh inputs name p h e = elim (find_best_provider_lem inputs name p h e) [
  | inl q ↦ Provides-IsFresh inputs name p q
  | inr q ↦ Provides-IsFresh inputs (make_weak_name name) p q.1
]
