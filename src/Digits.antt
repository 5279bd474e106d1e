-- ===== src/Digits.antt =====
-- Little-endian numbers in a base: the byte arrays of compiler/integer.c (base 256) and the word
-- arrays of compiler/float_bignat.c (base 2 ^ 32).
use n.Prelude.{
  ℕ, zero, suc, ◌+◌, ◌*◌, ◌^◌, ◌<◌, ◌≡◌, refl, sym, List, [], ◌∷◌, ◌++◌, length, replicate, All,
  drop, set, arith,
}
use mathlib.Core.Path.{subst}
use native.Mathlib.Nat.{pow-zero, pow-succ', mul_assoc, mul-le-mul_left}

-- The number that the digits stand for, the lowest digit first.
abbrev pub value : ℕ → List ℕ → ℕ
value base [] = 0
value base (d ∷ ds) = d + base * value base ds

abbrev pub AreDigits : ℕ → List ℕ → Type 0
AreDigits base ds = All (λ d. d < base) ds

pub pow_mul_suc : (base k x : ℕ) → base ^ suc k * x ≡ base * (base ^ k * x)
pow_mul_suc base k x = rw (pow-succ', mul_assoc)

pub pow_add : (base a b : ℕ) → base ^ (a + b) ≡ base ^ a * base ^ b
pow_add base zero b =
    rw (pow-zero base) (subst (λ k. base ^ k ≡ 1 * base ^ b) {x = b} (omega arith) (omega arith))
pow_add base (suc a) b = rw (pow-succ' base a) (
    subst (λ k. base ^ k ≡ base * base ^ a * base ^ b) {x = suc (a + b)} (omega arith)
      (rw (pow-succ' base (a + b), pow_add base a b) (sym (mul_assoc base (base ^ a) (base ^ b)))))

pub value-lt-pow : (base : ℕ) (ds : List ℕ) → AreDigits base ds → value base ds < base ^ length ds
value-lt-pow base [] h = omega (arith, pow-zero base)
value-lt-pow base (d ∷ ds) h =
    rw pow-succ' (omega (arith, h.0, mul-le-mul_left base (value-lt-pow base ds h.1)))

pub value-append :
    (base : ℕ) (xs ys : List ℕ)
    → value base (xs ++ ys) ≡ value base xs + base ^ length xs * value base ys
value-append base [] ys = rw pow-zero (omega arith)
value-append base (x ∷ xs) ys =
    rw (value-append base xs ys, pow_mul_suc base (length xs) (value base ys)) (omega arith)

pub value-replicate_zero : (base k : ℕ) → value base (replicate k 0) ≡ 0
value-replicate_zero base zero = refl
value-replicate_zero base (suc k) = rw (value-replicate_zero base k) (omega arith)

-- A write to the first digit that is zero with all above it.
pub value-set :
    (base k x : ℕ) (ds : List ℕ)
    → 0 < base
    → k < length ds
    → value base (drop k ds) ≡ 0
    → value base (set ds k x) ≡ value base ds + base ^ k * x
value-set base k x [] pos h z = elim h [ ]
value-set base zero x (d ∷ ds) pos h z = rw pow-zero (omega arith)
value-set base (suc k) x (d ∷ ds) pos h z =
    rw (value-set base k x ds pos (omega arith) z, pow_mul_suc base k x) (omega arith)
