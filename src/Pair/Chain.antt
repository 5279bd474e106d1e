-- ===== src/Pair/Chain.antt =====
-- One chain of compiler/pair.c as a map.
use n.Prelude.{
  ℕ, ◌≡◌, refl, ◌∙◌, inl, inr, Bool, true, false, Option, none, some, List, [], ◌∷◌, if◌then◌else◌,
  str_eq, str_eq→eq, str_eq_sym, not_both, Bool-cases, Option-cases, arith,
}
use mathlib.Core.Path.{subst}
use n.Pair.{Entry, update_chain, insert_chain, exists_chain, get_chain, delete_chain}

-- The value of a key, if the chain has the key.
unfoldable pub find_chain : List Entry → List ℕ → Option ℕ
find_chain [] key = none
find_chain (e ∷ nodes) key = if str_eq e.key key then some e.value else find_chain nodes key

-- No key is twice in the chain.
abbrev pub Distinct : List Entry → Type 0
Distinct [] = Unit
Distinct (e ∷ nodes) = (find_chain nodes e.key ≡ none) × Distinct nodes

abbrev pub is_some : Option ℕ → Bool
is_some none = false
is_some (some v) = true

abbrev pub or_null : Option ℕ → ℕ
or_null none = 0
or_null (some v) = v

pub exists-find :
    (nodes : List Entry) (key : List ℕ) → exists_chain nodes key ≡ is_some (find_chain nodes key)
unfolding exists_chain find_chain
exists-find [] key = refl
exists-find (e ∷ nodes) key = ground (arith, exists-find nodes key)

pub get-find :
    (nodes : List Entry) (key : List ℕ) → get_chain nodes key ≡ or_null (find_chain nodes key)
unfolding get_chain find_chain
get-find [] key = refl
get-find (e ∷ nodes) key = ground (arith, get-find nodes key)

-- Two keys equal to the same one.
str_eq_same : (a b c : List ℕ) → str_eq a b ≡ true → str_eq a c ≡ str_eq b c
str_eq_same a b c h = rw (str_eq→eq a b h) refl

find-update :
    (nodes nodes' : List Entry) (key k : List ℕ) (v : ℕ)
    → update_chain nodes key v ≡ some nodes'
    → find_chain nodes' k ≡ (if str_eq key k then some v else find_chain nodes k)
unfolding update_chain find_chain
find-update [] nodes' key k v h = cc
find-update (e ∷ nodes) nodes' key k v h = elim (Bool-cases (str_eq e.key key)) [
  | inl q ↦
      let same : record e { value = v } ∷ nodes ≡ nodes' = ground arith in
      subst (λ x. find_chain x k ≡ (if str_eq key k then some v else find_chain (e ∷ nodes) k)) same
        (ground (arith, str_eq_same e.key key k q))
  | inr q ↦ elim (Option-cases (update_chain nodes key v)) [
    | inl r ↦ absurd (ground arith)
    | inr (rest, r) ↦
        let same : e ∷ rest ≡ nodes' = ground arith in
        subst (λ x. find_chain x k ≡ (if str_eq key k then some v else find_chain (e ∷ nodes) k))
          same (ground (arith, find-update nodes rest key k v r, not_both e.key key k q))
  ]
]

update-none :
    (nodes : List Entry) (key : List ℕ) (v : ℕ)
    → update_chain nodes key v ≡ none
    → find_chain nodes key ≡ none
unfolding update_chain find_chain
update-none [] key v h = refl
update-none (e ∷ nodes) key v h = elim (Bool-cases (str_eq e.key key)) [
  | inl q ↦ absurd (ground arith)
  | inr q ↦ elim (Option-cases (update_chain nodes key v)) [
    | inl r ↦ ground (arith, update-none nodes key v r)
    | inr (x, r) ↦ absurd (ground arith)
  ]
]

pub find-insert :
    (nodes : List Entry) (key k : List ℕ) (v : ℕ)
    → find_chain (insert_chain nodes key v) k
      ≡ (if str_eq key k then some v else find_chain nodes k)
unfolding insert_chain find_chain
find-insert nodes key k v = elim (Option-cases (update_chain nodes key v)) [
  | inl q ↦ ground arith
  | inr (nodes', q) ↦ ground (arith, find-update nodes nodes' key k v q)
]

update-Distinct :
    (nodes nodes' : List Entry) (key : List ℕ) (v : ℕ)
    → Distinct nodes
    → update_chain nodes key v ≡ some nodes'
    → Distinct nodes'
unfolding update_chain
update-Distinct [] nodes' key v d h = absurd (cc)
update-Distinct (e ∷ nodes) nodes' key v d h = elim (Bool-cases (str_eq e.key key)) [
  | inl q ↦
      let same : record e { value = v } ∷ nodes ≡ nodes' = ground arith in
      subst Distinct same (d.0, d.1)
  | inr q ↦ elim (Option-cases (update_chain nodes key v)) [
    | inl r ↦ absurd (ground arith)
    | inr (rest, r) ↦
        let same : e ∷ rest ≡ nodes' = ground arith in
        let other : str_eq key e.key ≡ false = str_eq_sym key e.key ∙ q in
        let fresh : find_chain rest e.key ≡ none =
          ground (arith, find-update nodes rest key e.key v r, d.0) in
        subst Distinct same (fresh, update-Distinct nodes rest key v d.1 r)
  ]
]

pub insert-Distinct :
    (nodes : List Entry) (key : List ℕ) (v : ℕ)
    → Distinct nodes
    → Distinct (insert_chain nodes key v)
unfolding insert_chain
insert-Distinct nodes key v d = elim (Option-cases (update_chain nodes key v)) [
  | inl q ↦
      let same : record { key = key; value = v } ∷ nodes ≡ insert_chain nodes key v =
        ground arith in
      subst Distinct same (update-none nodes key v q, d)
  | inr (nodes', q) ↦
      let same : nodes' ≡ insert_chain nodes key v = ground arith in
      subst Distinct same (update-Distinct nodes nodes' key v d q)
]

pub find-delete :
    (nodes : List Entry) (key k : List ℕ)
    → Distinct nodes
    → find_chain (delete_chain nodes key) k ≡ (if str_eq key k then none else find_chain nodes k)
unfolding delete_chain find_chain
find-delete [] key k d = ground arith
find-delete (e ∷ nodes) key k d = elim (Bool-cases (str_eq e.key key)) [
  | inr q ↦ ground (arith, find-delete nodes key k d.1, not_both e.key key k q)
  | inl q ↦ elim (Bool-cases (str_eq key k)) [
    | inl t ↦
        let at : find_chain nodes k ≡ none =
          subst (λ x. find_chain nodes x ≡ none) (str_eq→eq e.key key q ∙ str_eq→eq key k t) d.0 in
        ground arith
    | inr t ↦ ground (arith, str_eq_same e.key key k q)
  ]
]

pub delete-Distinct :
    (nodes : List Entry) (key : List ℕ) → Distinct nodes → Distinct (delete_chain nodes key)
unfolding delete_chain
delete-Distinct [] key d = d
delete-Distinct (e ∷ nodes) key d = elim (Bool-cases (str_eq e.key key)) [
  | inl q ↦ simp q d.1
  | inr q ↦
      simp q (ground (arith, find-delete nodes key e.key d.1, d.0), delete-Distinct nodes key d.1)
]
