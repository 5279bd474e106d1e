-- ===== src/Assembler/Symtab/Laws.antt =====
-- What a lookup finds after a value is set.
use n.Prelude.{
  ℕ, ◌≡◌, inl, inr, false, Option, none, some, List, [], ◌∷◌, str_eq, str_eq_iff, str_eq_refl,
  if◌then◌else◌, arith, Bool-cases,
}
use n.Prelude.Int.{ℤ}
use n.Assembler.Symtab.{Symbol, Symtab, symtab_find, symtab_set_value_segment_named}

-- What the assembler reads of a symbol: its value, if it is defined.
unfoldable pub value_of : Option Symbol → Option ℤ
value_of none = none
value_of (some sym) = if sym.defined then some sym.value else none

-- Setting the value of a symbol changes what its name stands for, and nothing else.
pub find-set :
    (tab : Symtab) (name key : List ℕ) (v : ℤ) (segid : ℕ) (segname : Option (List ℕ))
    (sym : Symbol)
    → symtab_find tab name ≡ some sym
    → value_of (symtab_find (symtab_set_value_segment_named tab name v segid segname) key)
      ≡ (if str_eq name key then some v else value_of (symtab_find tab key))
unfolding symtab_find symtab_set_value_segment_named value_of
find-set [] name key v segid segname sym h = absurd (ground arith)
find-set (s ∷ tab) name key v segid segname sym h = elim (Bool-cases (str_eq s.name name)) [
  | inl e ↦
      let same = (str_eq_iff s.name name).0 e in
      elim (Bool-cases (str_eq name key)) [
        | inl k ↦ simp (same, str_eq_refl, k)
        | inr k ↦ simp (same, str_eq_refl, k)
      ]
  | inr e ↦
      let ih = find-set tab name key v segid segname sym in
      elim (Bool-cases (str_eq s.name key)) [
        | inl k ↦
            let other : str_eq name key ≡ false = elim (Bool-cases (str_eq name key)) [
              | inr q ↦ q
              | inl q ↦ absurd (
                  ground
                    (arith, str_eq_iff s.name key, str_eq_iff name key, str_eq_iff s.name name))
            ] in
            simp (e, k, other)
        | inr k ↦ simp (e, k) (ih (rw e at h))
      ]
]
