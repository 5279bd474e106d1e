-- ===== src/BigNat/Round.antt =====
-- `bn_round_ratio_shift` of compiler/float_bignat.c.
use Prim.Native.Nat.{Ordering}
use n.Prelude.{
  ℕ, ◌+◌, ◌*◌, ◌/◌, ◌%◌, ◌^◌, ◌<◌, ◌≤◌, ◌≡◌, ◌≢◌, refl, sym, ap, ◌∙◌, inl, inr, ◌⊎◌, false, some,
  List, [], ◌∷◌, ◌==◌, ==_iff, if◌then◌else◌, length, arith, Bool-cases,
}
use mathlib.Core.Path.{subst}
use native.Mathlib.Nat.{mul-le-mul_right, one-le-pow}
use n.Digits.{value}
use n.BigNat.{
  word, int_max, bn_cmp, bn_bit_length, bn_is_odd, bn_add_small, round_up_tie, bn_round_ratio_shift,
}
use n.BigNat.Normal.{IsNumber, pow-le-value}
use n.BigNat.Order.{bn_cmp_lem, bit_length-scaled, compare-cases}
use n.BigNat.Shift.{bn_shift_left_bits_lem}
use n.BigNat.Carry.{bn_add_small_lem}
use n.BigNat.Divide.{bn_divmod_lem}

-- `m` is a nearest number to `num / den`: strictly, or `m` is even.
abbrev pub IsRoundedRatio : ℕ → ℕ → ℕ → Type 0
IsRoundedRatio num den m =
    (2 * num ≤ 2 * (m * den) + den)
    × (2 * (m * den) ≤ 2 * num + den)
    × (((2 * num < 2 * (m * den) + den) × (2 * (m * den) < 2 * num + den)) ⊎ (m % 2 ≡ 0))

bn_is_odd-value : (bn : List ℕ) → bn_is_odd bn ≡ (value word bn % 2 == 1)
unfolding bn_is_odd
bn_is_odd-value [] = refl
bn_is_odd-value (w ∷ ws) = ap (λ x. x == 1) (omega arith)

module _ (num den q r : ℕ) (e : num ≡ q * den + r) (lt : r < den) where
  rounded_down : 2 * r < den → IsRoundedRatio num den q
  rounded_down h =
      (omega (arith, e), omega (arith, e), inl (omega (arith, e, h), omega (arith, e, lt)))

  rounded_up : den < 2 * r → IsRoundedRatio num den (q + 1)
  rounded_up h =
      (omega (arith, e, lt), omega (arith, e, h), inl (omega (arith, e, lt), omega (arith, e, h)))

  tie_even : 2 * r ≡ den → q % 2 ≡ 0 → IsRoundedRatio num den q
  tie_even h even = (omega (arith, e, h), omega (arith, e, h), inr even)

  tie_odd : 2 * r ≡ den → q % 2 ≡ 1 → IsRoundedRatio num den (q + 1)
  tie_odd h odd = (omega (arith, e, h), omega (arith, e, h), inr (omega (arith, odd)))

round_up_tie_lem :
    (num : ℕ) (den out rem : List ℕ)
    → IsNumber den
    → IsNumber out
    → IsNumber rem
    → num ≡ value word out * value word den + value word rem
    → value word rem < value word den
    → (r : List ℕ) × (round_up_tie den out rem ≡ some r)
      × IsNumber r
      × IsRoundedRatio num (value word den) (value word r)
unfolding round_up_tie
round_up_tie_lem num den out rem nd ho nr e lt =
    let (t, et, nt, vt) = bn_shift_left_bits_lem rem 1 nr (omega arith) in
    let (na, va) = bn_add_small_lem out 1 ho (omega arith) in
    let cmp = bn_cmp_lem t den nt nd in
    let step : round_up_tie den out rem ≡ elim (bn_cmp t den) [
      | Ordering.lt ↦ some out
      | Ordering.eq ↦ some (if bn_is_odd out then bn_add_small out 1 else out)
      | Ordering.gt ↦ some (bn_add_small out 1)
    ] =
      rw et refl in
    let d = value word den in
    let q = value word out in
    let r = value word rem in
    elim (compare-cases (value word t) (value word den)) [
      | inl p ↦
          let l = p.1 in
          (out, step ∙ rw (cmp ∙ p.0) refl, ho, rounded_down num d q r e lt (omega (arith, vt, l)))
      | inr (inl p) ↦
          let l = p.1 in
          let tie : 2 * value word rem ≡ value word den = omega (arith, vt, l) in
          elim (Bool-cases (bn_is_odd out)) [
            | inl odd ↦
                let bit : value word out % 2 ≡ 1 =
                  (==_iff (value word out % 2) 1).0 (sym (bn_is_odd-value out) ∙ odd) in
                (
                  bn_add_small out 1,
                  step ∙ rw (cmp ∙ p.0, odd) refl,
                  na,
                  subst (IsRoundedRatio num (value word den)) (sym va)
                      (tie_odd num d q r e lt tie bit),
                )
            | inr even ↦
                let bit : (value word out % 2 == 1) ≡ false = sym (bn_is_odd-value out) ∙ even in
                (
                  out,
                  step ∙ rw (cmp ∙ p.0, even) refl,
                  ho,
                  tie_even num d q r e lt tie (ground (arith, bit)),
                )
          ]
      | inr (inr p) ↦
          let l = p.1 in
          (
            bn_add_small out 1,
            step ∙ rw (cmp ∙ p.0) refl,
            na,
            subst (IsRoundedRatio num (value word den)) (sym va)
                (rounded_up num d q r e lt (omega (arith, vt, l))),
          )
    ]

shifted-ne-nil :
    (b den : List ℕ) (k : ℕ)
    → IsNumber den
    → den ≢ []
    → value word b ≡ value word den * 2 ^ k
    → b ≢ []
shifted-ne-nil b [] k n pos e z = pos refl
shifted-ne-nil b (w ∷ ws) k n pos e z =
    let high = pow-le-value w ws n.1 in
    let one : 0 < word ^ length ws = one-le-pow (length ws) word (omega arith) in
    let two : 0 < 2 ^ k = one-le-pow k 2 (omega arith) in
    let scaled : 1 * 2 ^ k ≤ value word (w ∷ ws) * 2 ^ k =
      mul-le-mul_right (2 ^ k) (omega (arith, high, one)) in
    let nil : value word b ≡ 0 = ap (value word) z in omega (arith, scaled, two, e, nil)

-- For two normalised numbers, the second not 0, and shifts within INT_MAX / 2 also with the
-- length of the first, the function returns a normalised number that is nearest to the ratio of
-- the shifted numbers: it is at most one half away, and where it is just one half away it is
-- even.
pub bn_round_ratio_shift_lem :
    (num den : List ℕ) (left right : ℕ)
    → IsNumber num
    → IsNumber den
    → den ≢ []
    → right ≤ int_max / 2
    → bn_bit_length num + left ≤ int_max / 2
    → (r : List ℕ) × (bn_round_ratio_shift num den left right ≡ some r)
      × IsNumber r
      × IsRoundedRatio (value word num * 2 ^ left) (value word den * 2 ^ right) (value word r)
unfolding bn_round_ratio_shift
bn_round_ratio_shift_lem num den left right n m pos hr hb =
    let (a, ea, na, va) = bn_shift_left_bits_lem num left n (omega (arith, hb)) in
    let (b, eb, nb, vb) = bn_shift_left_bits_lem den right m hr in
    let long = bit_length-scaled num a left n na va in
    let (q, r, eq, nq, nr, total, lt) =
      bn_divmod_lem a b na nb (shifted-ne-nil b den right m pos vb) (omega (arith, long, hb)) in
    let (m', em, nm, rounded) = round_up_tie_lem (value word a) b q r nb nq nr total lt in
    (
      m',
      rw (ea, eb, eq) em,
      nm,
      subst (λ x. IsRoundedRatio (value word num * 2 ^ left) x (value word m')) vb
          (subst (λ x. IsRoundedRatio x (value word b) (value word m')) va rounded),
    )
