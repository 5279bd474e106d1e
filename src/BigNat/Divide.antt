-- ===== src/BigNat/Divide.antt =====
-- The long division `bn_divmod` of compiler/float_bignat.c.
use n.Prelude.{
  ℕ, zero, suc, ◌+◌, ◌-◌, ◌*◌, ◌/◌, ◌^◌, ◌<◌, ◌≤◌, ◌≡◌, ◌≢◌, refl, sym, ap, ◌∙◌, inl, inr, Option,
  some, List, [], ◌∷◌, ltb, arith, Bool-cases, ltb→lt, ltb→le,
}
use mathlib.Core.Path.{subst}
use native.Mathlib.Nat.{mul-le-mul_right, pow-succ', pow-le-pow_right}
use n.Digits.{value, pow_add}
use n.BigNat.{
  word, int_max, ◌>>=◌, bn_sub_inplace, bn_set_bit, bn_shift_right_one, bn_shift_left_bits,
  bn_bit_length, bn_is_zero, divmod_loop, bn_divmod,
}
use n.BigNat.Normal.{IsNumber}
use n.BigNat.Order.{bn_cmp-less, bn_cmp-not_less, bn_bit_length_lem}
use n.BigNat.Subtract.{bn_sub_inplace_lem}
use n.BigNat.Shift.{bn_shift_left_bits_lem, bn_shift_right_one_lem}
use n.BigNat.Bits.{bn_set_bit_lem}

-- What the loop has before its last `i` rounds: the shifted denominator, the bits of the quotient
-- that are still clear, and the bound of the remainder.
abbrev BeforeRounds : ℕ → ℕ → List ℕ → List ℕ → List ℕ → Type 0
BeforeRounds den i shifted quotient remainder =
    IsNumber shifted
    × IsNumber quotient
    × IsNumber remainder
    × ((j : ℕ) → i ≡ suc j → value word shifted ≡ den * 2 ^ j)
    × ((q : ℕ) × (value word quotient ≡ q * 2 ^ i))
    × (value word remainder < den * 2 ^ i)

-- The result keeps `quotient * den + remainder`.
abbrev pub Divides : ℕ → ℕ → Option (List ℕ × List ℕ) → Type 0
Divides den total result =
    (q : List ℕ) × (r : List ℕ) × (result ≡ some (q, r))
    × IsNumber q
    × IsNumber r
    × (total ≡ value word q * den + value word r)
    × (value word r < den)

half_shifted :
    (den i : ℕ) (shifted : List ℕ)
    → IsNumber shifted
    → value word shifted ≡ den * 2 ^ i
    → (j : ℕ) → i ≡ suc j
    → value word (bn_shift_right_one shifted) ≡ den * 2 ^ j
half_shifted den i shifted n e j ij =
    let (n', v) = bn_shift_right_one_lem shifted n in
    let p : den * 2 ^ i ≡ 2 * (den * 2 ^ j) = rw (ij, pow-succ' 2 j) (omega arith) in
    omega (arith, v, e, p)

divmod_loop_lem :
    (den i : ℕ) (shifted quotient remainder : List ℕ)
    → i ≤ int_max / 2 + 1
    → BeforeRounds den i shifted quotient remainder
    → Divides den
        (value word quotient * den + value word remainder)
        (divmod_loop i shifted quotient remainder)
unfolding divmod_loop
divmod_loop_lem den zero shifted quotient remainder hi (ns, nq, nr, sh, (q, eq), bound) =
    (quotient, remainder, refl, nq, nr, refl, omega (arith, bound))
divmod_loop_lem den (suc i) shifted quotient remainder hi (ns, nq, nr, sh, (q, eq), bound) =
    let s = sh i refl in
    let ns' = (bn_shift_right_one_lem shifted ns).0 in
    let half = half_shifted den i shifted ns s in
    let two = pow-succ' 2 i in
    let bound' : value word remainder < 2 * (den * 2 ^ i) =
      subst (λ y. value word remainder < y) (rw two (omega arith)) bound in
    let eq' : value word quotient ≡ q * 2 * 2 ^ i = eq ∙ rw two (omega arith) in
    elim (Bool-cases (ltb (value word remainder) (value word shifted))) [
      | inl lt ↦
          let less = ltb→lt (value word remainder) (value word shifted) lt in
          let step =
            bn_cmp-less remainder shifted
              (divmod_loop i (bn_shift_right_one shifted) quotient remainder)
              (bn_sub_inplace remainder shifted >>= λ remainder'.
                bn_set_bit quotient i >>= λ quotient'.
                divmod_loop i (bn_shift_right_one shifted) quotient' remainder')
              nr ns less in
          subst (Divides den (value word quotient * den + value word remainder)) (sym step) (
            divmod_loop_lem den i (bn_shift_right_one shifted) quotient remainder
              (omega (arith, hi)) (ns', nq, nr, half, (q * 2, eq'), omega (arith, less, s)))
      | inr ge ↦
          let le = ltb→le (value word remainder) (value word shifted) ge in
          let step =
            bn_cmp-not_less remainder shifted
              (divmod_loop i (bn_shift_right_one shifted) quotient remainder)
              (bn_sub_inplace remainder shifted >>= λ remainder'.
                bn_set_bit quotient i >>= λ quotient'.
                divmod_loop i (bn_shift_right_one shifted) quotient' remainder')
              nr ns le in
          let (d, ed, nd, vd) = bn_sub_inplace_lem remainder shifted nr ns le in
          let (b, eb, nb, vb) = bn_set_bit_lem quotient i q nq eq (omega (arith, hi)) in
          let total : value word b * den + value word d
              ≡ value word quotient * den + value word remainder =
            rw vb (omega (arith, vd, s)) in
          subst (λ y. Divides den (value word quotient * den + value word remainder) y)
            (sym (step ∙ rw (ed, eb) refl))
            (subst (λ t. Divides den t (divmod_loop i (bn_shift_right_one shifted) b d)) total
              (divmod_loop_lem den i (bn_shift_right_one shifted) b d (omega (arith, hi)) (
                ns',
                nb,
                nd,
                half,
                (q * 2 + 1, omega (arith, vb, eq')),
                omega (arith, vd, s, bound'),
              )))
    ]

-- The first bound: the numerator is below the denominator at the next shift.
first_bound :
    (num den : List ℕ)
    → IsNumber num
    → IsNumber den
    → den ≢ []
    → value word num < value word den * 2 ^ suc (bn_bit_length num - bn_bit_length den)
first_bound num den n m pos =
    let low = (bn_bit_length_lem num n).0 in
    let high = (bn_bit_length_lem den m).1 pos in
    let up : 2 ^ bn_bit_length num
        ≤ 2 ^ (bn_bit_length den + (bn_bit_length num - bn_bit_length den)) =
      pow-le-pow_right (omega arith) (omega arith) in
    let split = pow_add 2 (bn_bit_length den) (bn_bit_length num - bn_bit_length den) in
    let scaled = mul-le-mul_right (2 ^ (bn_bit_length num - bn_bit_length den)) high in
    let two = pow-succ' 2 (bn_bit_length num - bn_bit_length den) in
    rw two (omega (arith, low, up, split, scaled))

-- For two normalised numbers, the second not empty and the first at most INT_MAX / 2 bits long,
-- the long division returns a normalised quotient q and remainder r with numerator = q *
-- denominator + r and r below the denominator.
pub bn_divmod_lem :
    (num den : List ℕ)
    → IsNumber num
    → IsNumber den
    → den ≢ []
    → bn_bit_length num ≤ int_max / 2
    → Divides (value word den) (value word num) (bn_divmod num den)
unfolding bn_divmod bn_is_zero
bn_divmod_lem num [] n m pos h = absurd (pos refl)
bn_divmod_lem num (w ∷ ws) n m pos h =
    let (sh, es, ns, vs) =
      bn_shift_left_bits_lem (w ∷ ws) (bn_bit_length num - bn_bit_length (w ∷ ws)) m
        (omega (arith, h)) in
    let long =
      bn_shift_left_bits (w ∷ ws) (bn_bit_length num - bn_bit_length (w ∷ ws)) >>= λ shifted.
      divmod_loop (bn_bit_length num - bn_bit_length (w ∷ ws) + 1) shifted [] num in
    elim (Bool-cases (ltb (value word num) (value word (w ∷ ws)))) [
      | inl lt ↦
          let less = ltb→lt (value word num) (value word (w ∷ ws)) lt in
          (
            [],
            num,
            bn_cmp-less num (w ∷ ws) (some ([], num)) long n m less,
            (tt, tt),
            n,
            omega arith,
            less,
          )
      | inr ge ↦
          let le = ltb→le (value word num) (value word (w ∷ ws)) ge in
          let step = bn_cmp-not_less num (w ∷ ws) (some ([], num)) long n m le in
          let shift = bn_bit_length num - bn_bit_length (w ∷ ws) in
          let next : suc shift ≡ shift + 1 = omega arith in
          let before =
            subst (λ i. value word num < value word (w ∷ ws) * 2 ^ i) next
              (first_bound num (w ∷ ws) n m pos) in
          let same : (j : ℕ) → shift + 1 ≡ suc j → value word sh ≡ value word (w ∷ ws) * 2 ^ j =
            λ j e. vs ∙ ap (λ i. value word (w ∷ ws) * 2 ^ i) (omega (arith, e)) in
          let rounds =
            divmod_loop_lem (value word (w ∷ ws)) (shift + 1) sh [] num (omega (arith, h))
              (ns, (tt, tt), n, same, (0, omega arith), before) in
          subst (λ y. Divides (value word (w ∷ ws)) (value word num) y) (sym (step ∙ rw es refl))
            (subst (λ t. Divides (value word (w ∷ ws)) t (divmod_loop (shift + 1) sh [] num))
              (omega arith) rounds)
    ]
