-- ===== src/Archiver/Requests.antt =====
-- The members that the commands x and t of archiver/n65ar.c are asked for, described apart from
-- `is_requested`.
use n.Prelude.{
  ℕ, suc, ◌+◌, ◌≡◌, ◌≤◌, ◌<◌, refl, sym, ap, ◌∙◌, ◌⊎◌, inl, inr, Bool, true, false, ◌||◌, Option,
  none, some, List, [], ◌∷◌, ◌==◌, drop, lt→ltb, le→ltb, if_true, if◌then◌else◌, arith, str_eq,
  str_eq_iff, Bool-cases, Option-cases,
}
use native.Mathlib.Decide.{dec_lt}
use n.Archiver.{strrchr, base_from, base_name, member_name_index}
use n.Archiver.Commands.{is_requested}
use n.Archiver.Records.{Entry}

abbrev is_separator : ℕ → Bool
is_separator c = (c == b'/') || (c == 92)

unfoldable has_separator : List ℕ → Bool
has_separator [] = false
has_separator (c ∷ path) = is_separator c || has_separator path

-- The path from behind its last separator on.
unfoldable pub last_part : List ℕ → List ℕ
unfolding has_separator
last_part [] = []
last_part (c ∷ path) =
    let rest = last_part path in
    if has_separator path then rest else if is_separator c then path else c ∷ path

-- One of the paths leads to the name.
abbrev pub IsNamed : List ℕ → List (List ℕ) → Type 0
IsNamed name [] = ⊥
IsNamed name (path ∷ paths) = (name ≡ last_part path) ⊎ IsNamed name paths

-- Without paths every member is asked for.
abbrev pub IsAsked : List ℕ → List (List ℕ) → Type 0
IsAsked name requested = (requested ≡ []) ⊎ IsNamed name requested

-- The members that are asked for, and only they, in their order.
abbrev pub AreAsked : List (List ℕ) → List Entry → List Entry → Type 0
AreAsked requested [] out = out ≡ []
AreAsked requested (e ∷ es) out =
    (IsAsked e.0 requested × ((more : List Entry) × (out ≡ e ∷ more) × AreAsked requested es more))
    ⊎ ((IsAsked e.0 requested → ⊥) × AreAsked requested es out)

abbrev found : Option ℕ → Bool
found none = false
found (some i) = true

found-strrchr :
    (c b : ℕ) (path : List ℕ) → found (strrchr c (b ∷ path)) ≡ (b == c) || found (strrchr c path)
unfolding strrchr
found-strrchr c b path = elim (Option-cases (strrchr c path)) [
  | inl e ↦ rw e (ground arith)
  | inr (i, e) ↦ rw e (ground arith)
]

or_swap : (a b x y : Bool) → (a || b) || (x || y) ≡ (a || x) || (b || y)
or_swap true b x y = refl
or_swap false true true y = refl
or_swap false true false y = refl
or_swap false false x y = refl

has_separator-found :
    (path : List ℕ) → has_separator path ≡ found (strrchr 47 path) || found (strrchr 92 path)
unfolding has_separator
has_separator-found [] = unfold strrchr in refl
has_separator-found (c ∷ path) =
    ap (λ b. is_separator c || b) (has_separator-found path)
    ∙ or_swap (c == 47) (c == 92) (found (strrchr 47 path)) (found (strrchr 92 path))
    ∙ rw (← found-strrchr 47 c path, ← found-strrchr 92 c path) refl

-- Where the base name begins, by the places of the last slash and backslash.
abbrev base_of : Option ℕ → Option ℕ → ℕ
base_of x y = base_from (base_from 0 x) y

abbrev end_of : Option ℕ → ℕ
end_of none = 0
end_of (some i) = suc i

base_of_first : (x y : Option ℕ) → end_of y ≤ end_of x → base_of x y ≡ end_of x
unfolding base_from
base_of_first none none h = refl
base_of_first none (some j) h = absurd (omega arith)
base_of_first (some i) none h = rw (lt→ltb 0 (i + 1) (omega arith)) (omega arith)
base_of_first (some i) (some j) h =
    rw (lt→ltb 0 (i + 1) (omega arith), le→ltb (i + 1) (j + 1) (omega arith)) (omega arith)

base_of_second : (x y : Option ℕ) → end_of x < end_of y → base_of x y ≡ end_of y
unfolding base_from
base_of_second x none h = absurd (omega arith)
base_of_second none (some j) h = rw (lt→ltb 0 (j + 1) (omega arith)) (omega arith)
base_of_second (some i) (some j) h =
    rw (lt→ltb 0 (i + 1) (omega arith), lt→ltb (i + 1) (j + 1) (omega arith)) (omega arith)

-- The place of the last byte of a kind in a path that is one byte longer.
abbrev next : Bool → Option ℕ → Option ℕ
next b none = if b then some 0 else none
next b (some i) = some (suc i)

strrchr-next : (c b : ℕ) (path : List ℕ) → strrchr c (b ∷ path) ≡ next (b == c) (strrchr c path)
unfolding strrchr
strrchr-next c b path = elim (Option-cases (strrchr c path)) [
  | inl e ↦ rw e refl
  | inr (i, e) ↦ rw e refl
]

end-next : (b : Bool) (x : Option ℕ) → end_of (next b x) ≤ suc (end_of x)
end-next true none = omega arith
end-next false none = omega arith
end-next b (some i) = omega arith

base-next :
    (a b : Bool) (x y : Option ℕ)
    → found x || found y ≡ true
    → base_of (next a x) (next b y) ≡ suc (base_of x y)
base-next a b none none h = absurd (cc)
base-next a b (some i) none h =
    base_of_first (some (suc i)) (next b none) (omega (arith, end-next b none))
    ∙ ap suc (sym (base_of_first (some i) none (omega arith)))
base-next a b none (some j) h =
    base_of_second (next a none) (some (suc j)) (omega (arith, end-next a none))
    ∙ ap suc (sym (base_of_second none (some j) (omega arith)))
base-next a b (some i) (some j) h = elim (dec_lt i j) [
  | yes less ↦
      base_of_second (some (suc i)) (some (suc j)) (omega (arith, less))
      ∙ ap suc (sym (base_of_second (some i) (some j) (omega (arith, less))))
  | no more ↦
      base_of_first (some (suc i)) (some (suc j)) (omega (arith, more))
      ∙ ap suc (sym (base_of_first (some i) (some j) (omega (arith, more))))
]

base-first : (a b : Bool) → base_of (next a none) (next b none) ≡ (if a || b then 1 else 0)
unfolding base_from
base-first true true = refl
base-first true false = refl
base-first false true = refl
base-first false false = refl

base_name-step :
    (c : ℕ) (path : List ℕ)
    → base_name (c ∷ path)
      ≡ drop
          (base_of (next (c == 47) (strrchr 47 path)) (next (c == 92) (strrchr 92 path)))
          (c ∷ path)
unfolding base_name
base_name-step c path = rw (strrchr-next 47 c path, strrchr-next 92 c path) refl

drop_if :
    (b : Bool) (c : ℕ) (path : List ℕ)
    → drop (if b then 1 else 0) (c ∷ path) ≡ (if b then path else c ∷ path)
drop_if true c path = refl
drop_if false c path = refl

not_found : (x : Option ℕ) → found x ≡ false → x ≡ none
not_found none h = refl
not_found (some i) h = cc

or_none : (a b : Bool) → a || b ≡ false → (a ≡ false) × (b ≡ false)
or_none true b h = cc
or_none false b h = (refl, h)

base_name-eq :
    (path : List ℕ) → drop (base_of (strrchr 47 path) (strrchr 92 path)) path ≡ base_name path
unfolding base_name
base_name-eq path = refl

last_part-behind :
    (c : ℕ) (path : List ℕ) → has_separator path ≡ true → last_part path ≡ last_part (c ∷ path)
last_part-behind c path e =
    sym
      (if_true (has_separator path) (last_part path) (if is_separator c then path else c ∷ path) e)
    ∙ unfold last_part in refl

base_name-last_part : (path : List ℕ) → base_name path ≡ last_part path
base_name-last_part [] = unfold base_name strrchr base_from last_part in refl
base_name-last_part (c ∷ path) =
    let x = strrchr 47 path in
    let y = strrchr 92 path in
    elim (Bool-cases (has_separator path)) [
      | inl e ↦
          let some_found = sym (has_separator-found path) ∙ e in
          base_name-step c path
          ∙ ap (λ (k : ℕ). drop k (c ∷ path)) (base-next (c == 47) (c == 92) x y some_found)
          ∙ base_name-eq path
          ∙ base_name-last_part path
          ∙ last_part-behind c path e
      | inr e ↦
          let (n, m) = or_none (found x) (found y) (sym (has_separator-found path) ∙ e) in
          base_name-step c path
          ∙ rw (not_found x n, not_found y m) refl
          ∙ ap (λ (k : ℕ). drop k (c ∷ path)) (base-first (c == 47) (c == 92))
          ∙ drop_if (is_separator c) c path
          ∙ unfold last_part in rw e refl
    ]

names_eq :
    (name : List ℕ) (paths : List (List ℕ))
    → ((member_name_index name paths ≡ none) × (IsNamed name paths → ⊥))
      ⊎ ((i : ℕ) × (member_name_index name paths ≡ some i) × IsNamed name paths)
unfolding member_name_index
names_eq name [] = inl (refl, λ h. h)
names_eq name (path ∷ paths) = elim (Bool-cases (str_eq name (base_name path))) [
  | inl e ↦
      inr (0, rw e refl, inl ((str_eq_iff name (base_name path)).0 e ∙ base_name-last_part path))
  | inr e ↦ elim (names_eq name paths) [
    | inl (n, not_named) ↦ inl (
      rw (e, n) refl,
      λ h. elim h [
        | inl q ↦
            let hit = (str_eq_iff name (base_name path)).1 (q ∙ sym (base_name-last_part path)) in
            cc
        | inr k ↦ not_named k
      ],
    )
    | inr (i, n, k) ↦ inr (suc i, rw (e, n) refl, inr k)
  ]
]

-- The test of the code tells whether a member is asked for.
pub is_requested-IsAsked :
    (name : List ℕ) (requested : List (List ℕ))
    → ((is_requested name requested ≡ true) × IsAsked name requested)
      ⊎ ((is_requested name requested ≡ false) × (IsAsked name requested → ⊥))
unfolding is_requested
is_requested-IsAsked name [] = inl (refl, inl refl)
is_requested-IsAsked name (r ∷ requested) = elim (names_eq name (r ∷ requested)) [
  | inl (n, not_named) ↦
      inr (rw (n, is_requested) refl, λ h. elim h [ inl e ↦ absurd (cc) | inr k ↦ not_named k ])
  | inr (i, n, k) ↦ inl (rw (n, is_requested) refl, inr k)
]
