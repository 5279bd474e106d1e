-- ===== src/Integer/Literal.antt =====
-- What `make_le_int` of compiler/integer.c makes of a literal.
use n.Prelude.{
  ℕ, zero, suc, ◌^◌, ◌<◌, ◌≤◌, ◌≡◌, refl, inl, inr, ◌||◌, Option, none, some, List, ◌==◌, set, drop,
  replicate, length-replicate, All-replicate, codes, str_eq, arith, Bool-cases,
}
use n.Digits.{value, value-replicate_zero}
use n.Integer.{
  bad_digit, too_big, Result, ok, err, make_le_helper, make_le_decimal, has_prefix, skip, first,
  make_le_int,
}
use n.Integer.Numeral.{numeral, literal, by_tests, by_tests-literal}
use n.Integer.Value.{Holds, Outcome, digit_loop-Outcome}
use mathlib.Core.Path.{subst}

-- The three outcomes of `make_le_int` at a `size`, with what each says of the literal.
abbrev pub Makes : ℕ → Option ℕ → Result (ℕ × List ℕ) → Type 0
Makes size o (ok s) = (n : ℕ) × (o ≡ some n) × Holds size n s
Makes size o (err (bad_digit c)) = o ≡ none
Makes size o (err too_big) = (n : ℕ) → o ≡ some n → 256 ^ size ≤ n

drop-replicate_zero : (k size : ℕ) → value 256 (drop k (replicate size 0)) ≡ 0
drop-replicate_zero zero size = value-replicate_zero 256 size
drop-replicate_zero (suc k) zero = refl
drop-replicate_zero (suc k) (suc size) = drop-replicate_zero k size

blank-Holds : (size : ℕ) → 1 ≤ size → Holds size 0 (1, replicate size 0)
blank-Holds size h = record {
  some_byte = omega arith;
  within = rw (length-replicate size) h;
  width = length-replicate size 0;
  bytes = All-replicate (λ d. d < 256) size 0 (omega arith);
  zeros = drop-replicate_zero 1 size;
  meaning = value-replicate_zero 256 size;
  tight = inl refl;
}

one-Holds : (size : ℕ) → 1 ≤ size → Holds size 1 (1, set (replicate size 0) 0 1)
one-Holds zero h = elim h [ ]
one-Holds (suc size) h = record {
  some_byte = omega arith;
  within = omega arith;
  width = rw length-replicate refl;
  bytes = (omega arith, All-replicate (λ d. d < 256) size 0 (omega arith));
  zeros = value-replicate_zero 256 size;
  meaning = omega (arith, value-replicate_zero 256 size);
  tight = inl refl;
}

Outcome-Makes :
    (size radix : ℕ) (p : List ℕ) (r : Result (ℕ × List ℕ))
    → Outcome size radix p 0 r
    → Makes size (numeral radix p 0) r
Outcome-Makes size radix p (ok s) o = o
Outcome-Makes size radix p (err (bad_digit c)) o = o
Outcome-Makes size radix p (err too_big) o = o

module _ (size : ℕ) (roomy : 1 ≤ size) where
  loop-Makes :
      (bpc : ℕ) (p : List ℕ)
      → 1 ≤ 2 ^ bpc
      → 2 ^ bpc ≤ 256
      → Makes size (numeral (2 ^ bpc) p 0) (make_le_helper bpc p (replicate size 0))
  unfolding make_le_helper
  loop-Makes bpc p lo hi =
      Outcome-Makes size (2 ^ bpc) p _
        (digit_loop-Outcome size (2 ^ bpc) p 0 _ lo hi (blank-Holds size roomy))

  decimal-Makes : (p : List ℕ) → Makes size (numeral 10 p 0) (make_le_decimal p (replicate size 0))
  unfolding make_le_decimal
  decimal-Makes p =
      Outcome-Makes size 10 p _
        (digit_loop-Outcome size 10 p 0 _ (omega arith) (omega arith) (blank-Holds size roomy))

  make_le_int-by_tests : (p : List ℕ) → Makes size (by_tests p) (make_le_int p size)
  unfolding make_le_int
  make_le_int-by_tests p = elim (Bool-cases (str_eq p (codes "0") || str_eq p (codes "false"))) [
    | inl e ↦ rw e (0, refl, blank-Holds size roomy)
    | inr e ↦ rw e (elim (Bool-cases (str_eq p (codes "true"))) [
      | inl f ↦ rw f (1, refl, one-Holds size roomy)
      | inr f ↦ rw f (elim (Bool-cases (has_prefix b'b' b'B' p)) [
        | inl g ↦ rw g (loop-Makes 1 (skip 2 p) (omega arith) (omega arith))
        | inr g ↦ rw g (elim (Bool-cases (has_prefix b'x' b'X' p)) [
          | inl k ↦ rw k (loop-Makes 4 (skip 2 p) (omega arith) (omega arith))
          | inr k ↦ rw k (elim (Bool-cases (first p == b'0')) [
            | inl l ↦ rw l (loop-Makes 3 (skip 1 p) (omega arith) (omega arith))
            | inr l ↦ rw l (decimal-Makes p)
          ])
        ])
      ])
    ])
  ]

  -- With a target of one byte at least: `make_le_int` returns the bytes of the number that the
  -- literal denotes, with the count of bytes that it needs, and refuses the literal exactly when
  -- it holds a character that is no digit or denotes a number that the bytes cannot hold.
  pub make_le_int-Makes : (p : List ℕ) → Makes size (literal p) (make_le_int p size)
  make_le_int-Makes p =
      subst (λ (o : Option ℕ). Makes size o (make_le_int p size)) (by_tests-literal p)
        (make_le_int-by_tests p)
