-- ===== src/Prelude/Bytes.antt =====
-- Bytes and C strings. A C string is the list of its bytes, without the terminating NUL.
use Prim.Native.Nat.{ℕ, ◌<◌}
use Prim.Native.Char.{code}
use Prim.Native.String.{String}
use mathlib.Core.Path.{◌≡◌, refl, sym, ◌∙◌}
use mathlib.Core.Logic.{◌↔◌, inl, inr}
use mathlib.Core.Bool.{Bool, true, false, ◌&&◌}
use mathlib.Core.List.{List, [], ◌∷◌}
use native.Mathlib.Omega.{arith}
use n.Prelude.Tests.{◌==◌, ==_iff, Bool-cases}

abbrev pub IsByte : ℕ → Type 0
IsByte b = b < 256

-- The bytes of an ASCII text, for literals.
abbrev pub codes : String → List ℕ
codes String.[] = []
codes (String.◌∷◌ c s) = code c ∷ codes s

-- `strcmp(a, b) == 0`
unfoldable pub str_eq : List ℕ → List ℕ → Bool
str_eq [] [] = true
str_eq [] (y ∷ ys) = false
str_eq (x ∷ xs) [] = false
str_eq (x ∷ xs) (y ∷ ys) = x == y && str_eq xs ys

pub str_eq→eq : (a b : List ℕ) → str_eq a b ≡ true → a ≡ b
unfolding str_eq
str_eq→eq [] [] h = refl
str_eq→eq [] (y ∷ ys) h = cc
str_eq→eq (x ∷ xs) [] h = cc
str_eq→eq (x ∷ xs) (y ∷ ys) h = ground (arith, str_eq→eq xs ys, ==_iff x y)

pub str_eq_refl : (a : List ℕ) → str_eq a a ≡ true
unfolding str_eq
str_eq_refl [] = refl
str_eq_refl (x ∷ xs) = ground (arith, str_eq_refl xs)

pub str_eq_iff : (a b : List ℕ) → (str_eq a b ≡ true) ↔ (a ≡ b)
str_eq_iff a b = (str_eq→eq a b, λ e. rw e (str_eq_refl b))

pub str_eq_sym : (a b : List ℕ) → str_eq a b ≡ str_eq b a
str_eq_sym a b = elim (Bool-cases (str_eq a b)) [
  | inl e ↦ rw (str_eq→eq a b e) refl
  | inr e ↦ elim (Bool-cases (str_eq b a)) [ inl q ↦ rw (str_eq→eq b a q) refl | inr q ↦ e ∙ sym q ]
]

pub not_both :
    (a b name : List ℕ) → str_eq a b ≡ false → str_eq a name ≡ true → str_eq b name ≡ false
not_both a b name t e = elim (Bool-cases (str_eq b name)) [
  | inr q ↦ q
  | inl q ↦
      let found : str_eq a b ≡ true =
        rw (str_eq→eq a name e, str_eq→eq b name q) (str_eq_refl name) in
      absurd (ground arith)
]
