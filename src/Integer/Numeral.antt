-- ===== src/Integer/Numeral.antt =====
-- The numbers that the literals of compiler/integer.c denote, described apart from its code.
use n.Prelude.{
  ℕ, zero, suc, ◌+◌, ◌-◌, ◌*◌, ◌<◌, ◌≡◌, refl, ap, ◌∙◌, sym, Bool, true, false, ◌&&◌, ◌||◌, Option,
  none, some, List, [], ◌∷◌, leb, ◌==◌, if◌then◌else◌, map, drop, codes, str_eq, arith, All,
  all_below, all_below_sound,
}
use native.Mathlib.Decide.{dec_lt}
use n.Integer.{c2n, has_prefix, skip, first}

-- A letter as a small letter.
abbrev pub small : ℕ → ℕ
small c = if leb b'A' c && leb c b'Z' then c - b'A' + b'a' else c

-- The place of a character in a text.
abbrev pub place_in : ℕ → List ℕ → Option ℕ
place_in c [] = none
place_in c (d ∷ text) =
    if c == d then some 0 else (elim (place_in c text) [ none ↦ none | some i ↦ some (suc i) ])

-- The digits, in the order of their values.
unfoldable pub digit_of : ℕ → Option ℕ
digit_of c = place_in (small c) (codes "0123456789abcdef")

-- The number that the digits `p` stand for behind digits that stand for `acc`; `none` where a
-- character is no digit of the radix.
unfoldable pub numeral : ℕ → List ℕ → ℕ → Option ℕ
numeral radix [] acc = some acc
numeral radix (c ∷ p) acc = elim (digit_of c) [
  | none ↦ none
  | some d ↦ if leb radix d then none else numeral radix p (acc * radix + d)
]

abbrev pub starts : List ℕ → List ℕ → Bool
starts [] text = true
starts (c ∷ prefix) [] = false
starts (c ∷ prefix) (d ∷ text) = (c == d) && starts prefix text

-- The number that a literal denotes: `0`, `false`, `true`, a numeral in base 2 behind 0b or 0B, in
-- base 16 behind 0x or 0X, in base 8 behind 0, and else in base 10.
unfoldable pub literal : List ℕ → Option ℕ
literal p =
    if str_eq p (codes "0") || str_eq p (codes "false")
    then some 0
    else if str_eq p (codes "true")
    then some 1
    else if starts (codes "0b") (map small p)
    then numeral 2 (drop 2 p) 0
    else if starts (codes "0x") (map small p)
    then numeral 16 (drop 2 p) 0
    else if starts (codes "0") p
    then numeral 8 (drop 1 p) 0
    else numeral 10 p 0

abbrev same : Option ℕ → Option ℕ → Bool
same none none = true
same none (some y) = false
same (some x) none = false
same (some x) (some y) = x == y

same-eq : (x y : Option ℕ) → same x y ≡ true → x ≡ y
same-eq none none h = refl
same-eq none (some y) h = cc
same-eq (some x) none h = cc
same-eq (some x) (some y) h = ap some (ground arith)

digit_table : all_below 128 (λ c. same (c2n c) (digit_of c)) ≡ true
unfolding all_below c2n digit_of
digit_table = refl

place_in-none : (c : ℕ) (text : List ℕ) → All (λ d. d < c) text → place_in c text ≡ none
place_in-none c [] h = refl
place_in-none c (d ∷ text) h =
    let differs : (c == d) ≡ false = (let less = h.0 in ground (arith, less)) in
    rw (differs, place_in-none c text h.1) refl

-- The digits of the code are those of the list.
pub c2n-digit_of : (c : ℕ) → c2n c ≡ digit_of c
unfolding digit_of
c2n-digit_of c = elim (dec_lt c 128) [
  | yes low ↦ same-eq _ _ (all_below_sound 128 (λ c. same (c2n c) (digit_of c)) c digit_table low)
  | no high ↦
      let kept : small c ≡ c = ground arith in
      let none_of : c2n c ≡ none = unfold c2n in ground arith in
      none_of ∙ sym (rw kept (place_in-none c (codes "0123456789abcdef") (omega arith)))
]

has_prefix-b : (p : List ℕ) → has_prefix b'b' b'B' p ≡ starts (codes "0b") (map small p)
unfolding has_prefix
has_prefix-b [] = refl
has_prefix-b (a ∷ []) = ground arith
has_prefix-b (a ∷ x ∷ p) = ground arith

has_prefix-x : (p : List ℕ) → has_prefix b'x' b'X' p ≡ starts (codes "0x") (map small p)
unfolding has_prefix
has_prefix-x [] = refl
has_prefix-x (a ∷ []) = ground arith
has_prefix-x (a ∷ x ∷ p) = ground arith

skip-drop : (n : ℕ) (p : List ℕ) → skip n p ≡ drop n p
unfolding skip
skip-drop zero p = refl
skip-drop (suc n) [] = refl
skip-drop (suc n) (c ∷ p) = skip-drop n p

first-starts : (p : List ℕ) → (first p == b'0') ≡ starts (codes "0") p
unfolding first
first-starts [] = refl
first-starts (c ∷ p) = ground arith

-- The same as the tests and the cuts of `make_le_int` tell it.
abbrev pub by_tests : List ℕ → Option ℕ
by_tests p =
    if str_eq p (codes "0") || str_eq p (codes "false")
    then some 0
    else if str_eq p (codes "true")
    then some 1
    else if has_prefix b'b' b'B' p
    then numeral 2 (skip 2 p) 0
    else if has_prefix b'x' b'X' p
    then numeral 16 (skip 2 p) 0
    else if first p == b'0'
    then numeral 8 (skip 1 p) 0
    else numeral 10 p 0

pub by_tests-literal : (p : List ℕ) → by_tests p ≡ literal p
unfolding literal
by_tests-literal p =
    rw (has_prefix-b p, has_prefix-x p, first-starts p, skip-drop 2 p, skip-drop 1 p) refl
