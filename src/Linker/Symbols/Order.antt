-- ===== src/Linker/Symbols/Order.antt =====
-- What the table of globals answers after an addition, and in which order additions stand.
use n.Prelude.{
  ℕ, ◌≡◌, refl, sym, ◌∙◌, inl, inr, Bool, true, false, ◌&&◌, ◌||◌, Option, none, some, List, [],
  ◌∷◌, ◌++◌, str_eq, str_eq→eq, str_eq_refl, if◌then◌else◌, Bool-cases, Option-cases, arith,
}
use n.Linker.{ok}
use n.Linker.Symbols.{GlobalSymbol, make_weak_name, find_global, add_global, lookup_global_addr}

pub find_global-append :
    (gs : List GlobalSymbol) (g : GlobalSymbol) (name : List ℕ)
    → find_global gs g.name ≡ none
    → find_global (gs ++ g ∷ []) name ≡ (if str_eq g.name name then some g else find_global gs name)
unfolding find_global
find_global-append [] g name fresh = refl
find_global-append (x ∷ gs) g name fresh = elim (Bool-cases (str_eq x.name name)) [
  | inl e ↦ elim (Bool-cases (str_eq g.name name)) [
    | inl q ↦
        let same : x.name ≡ g.name = str_eq→eq x.name name e ∙ sym (str_eq→eq g.name name q) in
        let found : str_eq x.name g.name ≡ true = rw same (str_eq_refl g.name) in
        absurd (ground arith)
    | inr q ↦ ground arith
  ]
  | inr e ↦ ground (arith, find_global-append gs g name)
]

add_global_inv :
    (gs gs' : List GlobalSymbol) (g : GlobalSymbol)
    → add_global gs g ≡ ok gs'
    → (find_global gs g.name ≡ none) × (gs ++ g ∷ [] ≡ gs')
unfolding add_global
add_global_inv gs gs' g e = elim (Option-cases (find_global gs g.name)) [
  | inl q ↦ (q, ground arith)
  | inr (x, q) ↦ absurd (ground arith)
]

pub find_global-add_global :
    (gs gs' : List GlobalSymbol) (g : GlobalSymbol) (name : List ℕ)
    → add_global gs g ≡ ok gs'
    → find_global gs' name ≡ (if str_eq g.name name then some g else find_global gs name)
find_global-add_global gs gs' g name e =
    let (fresh, same) = add_global_inv gs gs' g e in
    rw (← same) (find_global-append gs g name fresh)

abbrev pub is_none : Option GlobalSymbol → Bool
is_none none = true
is_none (some g) = false

-- After a symbol was added without an error, a name has the symbol's address if it is the
-- symbol's name, or if nothing defined it before and its weak name is the symbol's name; every
-- other lookup gives what it gave before.
pub lookup-add_global :
    (gs gs' : List GlobalSymbol) (g : GlobalSymbol) (name : List ℕ)
    → add_global gs g ≡ ok gs'
    → lookup_global_addr gs' name ≡ (
        if str_eq g.name name
          || (is_none (find_global gs name) && str_eq g.name (make_weak_name name))
        then ok g.addr
        else lookup_global_addr gs name)
unfolding lookup_global_addr
lookup-add_global gs gs' g name e = ground (
  arith,
  find_global-add_global gs gs' g name e,
  find_global-add_global gs gs' g (make_weak_name name) e,
)
