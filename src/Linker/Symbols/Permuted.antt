-- ===== src/Linker/Symbols/Permuted.antt =====
-- The order in which symbols reach the table does not matter.
use n.Prelude.{
  ℕ, ◌≡◌, refl, sym, ◌∙◌, inl, inr, true, false, none, some, List, [], ◌∷◌, ◌++◌, str_eq,
  str_eq_sym, not_both, if◌then◌else◌, Bool-cases, Option-cases, arith,
}
use mathlib.Core.List.{Permᴰ}
use mathlib.Core.Path.{subst}
use n.Linker.{Result, ok, err, ◌>>=◌, duplicate_global}
use n.Linker.Symbols.{
  GlobalSymbol, make_weak_name, find_global, add_global, lookup_global_addr, add_globals,
}
use n.Linker.Symbols.Order.{find_global-append}

-- Two results that no search tells apart.
data Same : Result (List GlobalSymbol) → Result (List GlobalSymbol) → Type 0 where
  both_err : Same (err duplicate_global) (err duplicate_global)
  both_ok :
      {gs hs : List GlobalSymbol}
      → ((name : List ℕ) → find_global gs name ≡ find_global hs name)
      → Same (ok gs) (ok hs)

Same-trans : {a b c : Result (List GlobalSymbol)} → Same a b → Same b c → Same a c
Same-trans both_err k = k
Same-trans (both_ok f) (both_ok g) = both_ok (λ name. f name ∙ g name)

add_globals-found :
    (gs ds : List GlobalSymbol) (g x : GlobalSymbol)
    → find_global gs g.name ≡ some x
    → add_globals gs (g ∷ ds) ≡ err duplicate_global
unfolding add_globals add_global
add_globals-found gs ds g x q = ground arith

add_globals-fresh :
    (gs ds : List GlobalSymbol) (g : GlobalSymbol)
    → find_global gs g.name ≡ none
    → add_globals gs (g ∷ ds) ≡ add_globals (gs ++ g ∷ []) ds
unfolding add_globals add_global
add_globals-fresh gs ds g q = ground arith

add_globals-Same :
    (gs hs ds : List GlobalSymbol)
    → ((name : List ℕ) → find_global gs name ≡ find_global hs name)
    → Same (add_globals gs ds) (add_globals hs ds)
unfolding add_globals
add_globals-Same gs hs [] h = both_ok h
add_globals-Same gs hs (g ∷ ds) h = elim (Option-cases (find_global gs g.name)) [
  | inr (x, q) ↦
      rw (add_globals-found gs ds g x q, add_globals-found hs ds g x (sym (h g.name) ∙ q)) both_err
  | inl q ↦
      let r : find_global hs g.name ≡ none = sym (h g.name) ∙ q in
      rw (add_globals-fresh gs ds g q, add_globals-fresh hs ds g r)
        (add_globals-Same (gs ++ g ∷ []) (hs ++ g ∷ []) ds (λ name.
          ground (arith, find_global-append gs g name q, find_global-append hs g name r, h name)))
]

-- A duplicate is found after another addition too.
add_globals-found_later :
    (gs ds : List GlobalSymbol) (a b x : GlobalSymbol)
    → find_global gs a.name ≡ some x
    → add_globals gs (b ∷ a ∷ ds) ≡ err duplicate_global
add_globals-found_later gs ds a b x q = elim (Option-cases (find_global gs b.name)) [
  | inr (y, r) ↦ add_globals-found gs (a ∷ ds) b y r
  | inl r ↦ elim (Bool-cases (str_eq b.name a.name)) [
    | inl t ↦
        add_globals-fresh gs (a ∷ ds) b r
        ∙ add_globals-found (gs ++ b ∷ []) ds a b (ground (arith, find_global-append gs b a.name r))
    | inr t ↦
        add_globals-fresh gs (a ∷ ds) b r
        ∙ add_globals-found (gs ++ b ∷ []) ds a x (ground (arith, find_global-append gs b a.name r))
  ]
]

-- Two fresh symbols of one name are duplicates in either order.
add_globals-twice :
    (gs ds : List GlobalSymbol) (a b : GlobalSymbol)
    → find_global gs a.name ≡ none
    → str_eq a.name b.name ≡ true
    → add_globals gs (a ∷ b ∷ ds) ≡ err duplicate_global
add_globals-twice gs ds a b q t =
    add_globals-fresh gs (b ∷ ds) a q
    ∙ add_globals-found (gs ++ a ∷ []) ds b a (ground (arith, find_global-append gs a b.name q))

-- Two fresh symbols of different names are both added.
add_globals-both :
    (gs ds : List GlobalSymbol) (a b : GlobalSymbol)
    → find_global gs a.name ≡ none
    → find_global gs b.name ≡ none
    → str_eq a.name b.name ≡ false
    → (add_globals gs (a ∷ b ∷ ds) ≡ add_globals ((gs ++ a ∷ []) ++ b ∷ []) ds)
      × ((name : List ℕ)
          → find_global ((gs ++ a ∷ []) ++ b ∷ []) name ≡ (
              if str_eq a.name name
              then some a
              else (if str_eq b.name name then some b else find_global gs name)))
add_globals-both gs ds a b q r t =
    let fresh : find_global (gs ++ a ∷ []) b.name ≡ none =
      ground (arith, find_global-append gs a b.name q) in
    (
      add_globals-fresh gs (b ∷ ds) a q ∙ add_globals-fresh (gs ++ a ∷ []) ds b fresh,
      λ name. ground (
        arith,
        find_global-append (gs ++ a ∷ []) b name fresh,
        find_global-append gs a name q,
        not_both a.name b.name name t,
      ),
    )

add_globals-swap :
    (gs ds : List GlobalSymbol) (a b : GlobalSymbol)
    → Same (add_globals gs (a ∷ b ∷ ds)) (add_globals gs (b ∷ a ∷ ds))
add_globals-swap gs ds a b = elim (Option-cases (find_global gs a.name)) [
  | inr (x, q) ↦
      rw (add_globals-found gs (b ∷ ds) a x q, add_globals-found_later gs ds a b x q) both_err
  | inl q ↦ elim (Option-cases (find_global gs b.name)) [
    | inr (x, r) ↦
        rw (add_globals-found gs (a ∷ ds) b x r, add_globals-found_later gs ds b a x r) both_err
    | inl r ↦ elim (Bool-cases (str_eq a.name b.name)) [
      | inl t ↦
          rw
            (
              add_globals-twice gs ds a b q t,
              add_globals-twice gs ds b a r (str_eq_sym b.name a.name ∙ t),
            )
            both_err
      | inr t ↦
          let (left, found) = add_globals-both gs ds a b q r t in
          let (right, found') = add_globals-both gs ds b a r q (str_eq_sym b.name a.name ∙ t) in
          rw (left, right)
            (add_globals-Same ((gs ++ a ∷ []) ++ b ∷ []) ((gs ++ b ∷ []) ++ a ∷ []) ds
              (λ name. ground (arith, found name, found' name, not_both a.name b.name name t)))
    ]
  ]
]

lookup-Same :
    {r r' : Result (List GlobalSymbol)} (name : List ℕ)
    → Same r r'
    → (r >>= λ gs. lookup_global_addr gs name) ≡ (r' >>= λ gs. lookup_global_addr gs name)
unfolding lookup_global_addr
lookup-Same name both_err = refl
lookup-Same name (both_ok h) = ground (arith, h name, h (make_weak_name name))

add_globals_permuted :
    {ds es : List GlobalSymbol} (gs : List GlobalSymbol)
    → Permᴰ ds es
    → Same (add_globals gs ds) (add_globals gs es)
add_globals_permuted gs Permᴰ.nil = add_globals-Same gs gs [] (λ name. refl)
add_globals_permuted gs (Permᴰ.trans p q) =
    Same-trans (add_globals_permuted gs p) (add_globals_permuted gs q)
add_globals_permuted gs (Permᴰ.swap {a} {b} {b' = b'} {l = l} e f) =
    subst (λ x. Same (add_globals gs (a ∷ b ∷ l)) (add_globals gs (x ∷ b' ∷ l))) f
      (subst (λ y. Same (add_globals gs (a ∷ b ∷ l)) (add_globals gs (b ∷ y ∷ l))) e
        (add_globals-swap gs l a b))
add_globals_permuted gs (Permᴰ.cons {a} {l₁ = l} {l₂ = m} e p) =
    subst (λ y. Same (add_globals gs (a ∷ l)) (add_globals gs (y ∷ m))) e
      (elim (Option-cases (find_global gs a.name)) [
        | inr (x, q) ↦ rw (add_globals-found gs l a x q, add_globals-found gs m a x q) both_err
        | inl q ↦
            rw (add_globals-fresh gs l a q, add_globals-fresh gs m a q)
              (add_globals_permuted (gs ++ a ∷ []) p)
      ])

-- Adding the same symbols in another order, and then looking a name up, has the same outcome:
-- the same address, or the same error.
pub lookup-add_globals_permuted :
    {ds es : List GlobalSymbol} (gs : List GlobalSymbol) (name : List ℕ)
    → Permᴰ ds es
    → (add_globals gs ds >>= λ globals. lookup_global_addr globals name)
      ≡ (add_globals gs es >>= λ globals. lookup_global_addr globals name)
lookup-add_globals_permuted gs name p = lookup-Same name (add_globals_permuted gs p)
