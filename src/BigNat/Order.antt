-- ===== src/BigNat/Order.antt =====
-- `bn_cmp` and `bn_bit_length` of compiler/float_bignat.c, and the value of a number.
use Prim.Native.Nat.{compare, Ordering}
use n.Prelude.{
  ℕ, zero, suc, ◌+◌, ◌*◌, ◌/◌, ◌^◌, ◌<◌, ◌≤◌, ◌≡◌, ◌≢◌, refl, sym, inl, inr, ◌⊎◌, List, [], ◌∷◌,
  ◌==◌, ltb, ltb→lt, ltb→le, length, arith, Bool-cases,
}
use mathlib.Core.Path.{subst}
use native.Mathlib.Nat.{mul-le-mul_right, pow-le-pow_right, pow-succ', one-le-pow}
use n.Digits.{value, AreDigits, value-lt-pow, pow_add}
use n.BigNat.{word, cmp_loop, bn_cmp, top_bits, bn_bit_length}
use n.BigNat.Normal.{IsNumber, pow-le-value}

compare-lt : (a b : ℕ) → a < b → compare a b ≡ Ordering.lt
compare-lt a b h = ground arith

compare-gt : (a b : ℕ) → b < a → compare a b ≡ Ordering.gt
compare-gt a b h = ground arith

compare-eq : (a b : ℕ) → a ≡ b → compare a b ≡ Ordering.eq
compare-eq a b h = ground arith

pub compare-cases :
    (a b : ℕ)
    → ((compare a b ≡ Ordering.lt) × (a < b))
      ⊎ (((compare a b ≡ Ordering.eq) × (a ≡ b)) ⊎ ((compare a b ≡ Ordering.gt) × (b < a)))
compare-cases a b = ground arith

-- A comparison in two stages, as another comparison.
two_stages :
    (i j u v : ℕ) (inner : Ordering)
    → (i < j → u < v)
    → (i ≡ j → inner ≡ compare u v)
    → (j < i → v < u)
    → elim (compare i j) [
      | Ordering.lt ↦ Ordering.lt
      | Ordering.eq ↦ inner
      | Ordering.gt ↦ Ordering.gt
    ]
      ≡ compare u v
two_stages i j u v inner less same more = elim (compare-cases i j) [
  | inl p ↦ rw p.0 (sym (compare-lt u v (less p.1)))
  | inr (inl p) ↦ rw p.0 (same p.1)
  | inr (inr p) ↦ rw p.0 (sym (compare-gt u v (more p.1)))
]

compare-add : (x y k : ℕ) → compare x y ≡ compare (x + k) (y + k)
compare-add x y k = ground arith

cmp_loop_lem :
    (a b : List ℕ)
    → length a ≡ length b
    → AreDigits word a
    → AreDigits word b
    → cmp_loop a b ≡ compare (value word a) (value word b)
unfolding cmp_loop
cmp_loop_lem [] [] e h k = refl
cmp_loop_lem [] (y ∷ b) e h k = absurd (omega (arith, e))
cmp_loop_lem (x ∷ a) [] e h k = absurd (omega (arith, e))
cmp_loop_lem (x ∷ a) (y ∷ b) e h k =
    let hx = h.0 in
    let hy = k.0 in
    let u = value word a in
    let v = value word b in
    subst
      (λ o.
        elim o [ Ordering.lt ↦ Ordering.lt | Ordering.eq ↦ compare x y | Ordering.gt ↦ Ordering.gt ]
        ≡ compare (x + word * value word a) (y + word * value word b))
      (sym (cmp_loop_lem a b (omega (arith, e)) h.1 k.1))
      (two_stages (value word a) (value word b) (x + word * value word a) (y + word * value word b)
        (compare x y) (λ l. omega (arith, l, hx, hy))
        (λ q. rw q (compare-add x y (word * value word b))) (λ l. omega (arith, l, hx, hy)))

shorter :
    (a b : List ℕ) → length a < length b → IsNumber a → IsNumber b → value word a < value word b
shorter a [] h n m = elim h [ ]
shorter a (y ∷ b) h n m =
    let low = value-lt-pow word a n.0 in
    let high = pow-le-value y b m.1 in
    let steps =
      pow-le-pow_right {n = word} (omega arith) {i = length a} {j = length b} (omega arith) in
    omega (arith, low, high, steps)

-- On normalised numbers bn_cmp is the comparison of their values.
pub bn_cmp_lem :
    (a b : List ℕ) → IsNumber a → IsNumber b → bn_cmp a b ≡ compare (value word a) (value word b)
unfolding bn_cmp
bn_cmp_lem a b n m =
    two_stages (length a) (length b) (value word a) (value word b) (cmp_loop a b)
      (λ l. shorter a b l n m) (λ e. cmp_loop_lem a b e n.0 m.0) (λ l. shorter b a l m n)

-- A test of `bn_cmp(a, b) < 0`.
module _ {A : Type 0} (a b : List ℕ) (x y : A) (n : IsNumber a) (m : IsNumber b) where
  pub bn_cmp-not_less :
      value word b ≤ value word a
      → elim (bn_cmp a b) [ Ordering.lt ↦ x | Ordering.eq ↦ y | Ordering.gt ↦ y ] ≡ y
  bn_cmp-not_less h =
      let go : elim (compare (value word a) (value word b)) [
        | Ordering.lt ↦ x
        | Ordering.eq ↦ y
        | Ordering.gt ↦ y
      ]
          ≡ y =
        ground arith in
      subst (λ o. elim o [ Ordering.lt ↦ x | Ordering.eq ↦ y | Ordering.gt ↦ y ] ≡ y)
        (sym (bn_cmp_lem a b n m)) go

  pub bn_cmp-less :
      value word a < value word b
      → elim (bn_cmp a b) [ Ordering.lt ↦ x | Ordering.eq ↦ y | Ordering.gt ↦ y ] ≡ x
  bn_cmp-less h =
      let go : elim (compare (value word a) (value word b)) [
        | Ordering.lt ↦ x
        | Ordering.eq ↦ y
        | Ordering.gt ↦ y
      ]
          ≡ x =
        ground arith in
      subst (λ o. elim o [ Ordering.lt ↦ x | Ordering.eq ↦ y | Ordering.gt ↦ y ] ≡ x)
        (sym (bn_cmp_lem a b n m)) go

-- A number that is at least another has at least its length.
pub length-le_of_value :
    (a b : List ℕ) → IsNumber a → IsNumber b → value word b ≤ value word a → length b ≤ length a
length-le_of_value a b n m h = elim (compare-cases (length a) (length b)) [
  | inl p ↦ let less = shorter a b p.1 n m in omega (arith, less)
  | inr (inl p) ↦ let e = p.1 in omega (arith, e)
  | inr (inr p) ↦ let l = p.1 in omega (arith, l)
]

top_bits_zero : (fuel : ℕ) → top_bits fuel 0 ≡ 0
unfolding top_bits
top_bits_zero zero = refl
top_bits_zero (suc fuel) = refl

top_bits_lem :
    (fuel top : ℕ)
    → top < 2 ^ fuel
    → (top < 2 ^ top_bits fuel top) × (top ≢ 0 → 2 ^ top_bits fuel top ≤ 2 * top)
unfolding top_bits
top_bits_lem zero top h = (h, λ pos. ground (arith, pos))
top_bits_lem (suc fuel) top h =
    let double = pow-succ' 2 fuel in
    let (low, high) = top_bits_lem fuel (top / 2) (omega (arith, double, h)) in
    let more : 2 ^ (top_bits fuel (top / 2) + 1) ≡ 2 ^ top_bits fuel (top / 2) * 2 =
      pow_add 2 (top_bits fuel (top / 2)) 1 in
    elim (Bool-cases (top == 0)) [
      | inl e ↦ let z : top ≡ 0 = ground arith in rw e (omega (arith, z), λ pos. absurd (pos z))
      | inr e ↦ rw e (
        omega (arith, more, low),
        λ pos. elim (compare-cases (top / 2) 0) [
          | inl p ↦ elim p.1 [ ]
          | inr (inl p) ↦
              let none_left = subst (λ t. top_bits fuel t ≡ 0) (sym p.1) (top_bits_zero fuel) in
              rw none_left (ground (arith, pos))
          | inr (inr p) ↦
              let big = p.1 in
              let twice = high (λ z. omega (arith, z, big)) in omega (arith, more, twice)
        ],
      )
    ]

cons-ne-nil : {x : ℕ} {xs : List ℕ} → x ∷ xs ≢ []
cons-ne-nil e = cc

pub bn_bit_length_lem :
    (bn : List ℕ)
    → IsNumber bn
    → (value word bn < 2 ^ bn_bit_length bn) × (bn ≢ [] → 2 ^ bn_bit_length bn ≤ 2 * value word bn)
unfolding bn_bit_length
bn_bit_length_lem [] h = (omega arith, λ e. absurd (e refl))
bn_bit_length_lem (w ∷ []) h =
    let (low, high) = top_bits_lem 32 w h.0.0 in
    let bound = high h.1 in (omega (arith, low), λ e. omega (arith, bound))
bn_bit_length_lem (w ∷ x ∷ ws) h =
    let (low, high) = bn_bit_length_lem (x ∷ ws) (h.0.1, h.1) in
    let bound = high cons-ne-nil in
    let split = pow_add 2 32 (bn_bit_length (x ∷ ws)) in
    let hw = h.0.0 in (omega (arith, low, split, hw), λ e. omega (arith, bound, split, hw))

-- A factor 2 ^ `k` makes a number longer by at most `k` bits.
pub bit_length-scaled :
    (a b : List ℕ) (k : ℕ)
    → IsNumber a
    → IsNumber b
    → value word b ≡ value word a * 2 ^ k
    → bn_bit_length b ≤ bn_bit_length a + k
unfolding bn_bit_length
bit_length-scaled a [] k n m e = omega arith
bit_length-scaled a (w ∷ ws) k n m e =
    elim (Bool-cases (ltb (bn_bit_length a + k) (bn_bit_length (w ∷ ws)))) [
      | inr ge ↦ ltb→le (bn_bit_length a + k) (bn_bit_length (w ∷ ws)) ge
      | inl lt ↦
          let less = ltb→lt (bn_bit_length a + k) (bn_bit_length (w ∷ ws)) lt in
          let low = (bn_bit_length_lem a n).0 in
          let high = (bn_bit_length_lem (w ∷ ws) m).1 cons-ne-nil in
          let up : 2 ^ suc (bn_bit_length a + k) ≤ 2 ^ bn_bit_length (w ∷ ws) =
            pow-le-pow_right (omega arith) less in
          let two = pow-succ' 2 (bn_bit_length a + k) in
          let split = pow_add 2 (bn_bit_length a) k in
          let pos : 0 < 2 ^ k = one-le-pow k 2 (omega arith) in
          let scaled : suc (value word a) * 2 ^ k ≤ 2 ^ bn_bit_length a * 2 ^ k =
            mul-le-mul_right (2 ^ k) low in
          absurd (omega (arith, high, up, two, split, scaled, e, pos))
    ]
