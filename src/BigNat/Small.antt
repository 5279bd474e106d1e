-- ===== src/BigNat/Small.antt =====
-- The divisions by one word of compiler/float_bignat.c.
use n.Prelude.{
  ℕ, ◌+◌, ◌*◌, ◌/◌, ◌%◌, ◌<◌, ◌≡◌, ◌≢◌, refl, sym, false, some, List, [], ◌∷◌, ◌==◌, arith,
}
use native.Mathlib.Nat.{mul_assoc, add-mul, mul_comm, div-add-mod, mod-lt, lt_of_mul-lt-mul_left}
use n.Digits.{value, AreDigits}
use n.BigNat.{word, join, mod_loop, bn_mod_small, div_loop, bn_div_small, bn_normalize}
use n.BigNat.Normal.{IsNumber, value-normalize, normalize-IsNumber}

-- A remainder in front of a word fits 64 bits.
join-eq : (rem w : ℕ) → rem < word → join rem w ≡ rem * word + w
unfolding join
join-eq rem w h = omega (arith, h)

-- One step of a long division, for a divisor `d`.
step :
    (d rem w : ℕ)
    → d < word
    → rem < d
    → w < word
    → (join rem w / d * d + join rem w % d ≡ rem * word + w)
      × (join rem w / d < word)
      × (join rem w % d < d)
step d rem w hd hr hw =
    let j = join-eq rem w (omega arith) in
    let split = div-add-mod (rem * word + w) d in
    let low : (rem * word + w) % d < d = mod-lt (rem * word + w) (omega arith) in
    let small : d * ((rem * word + w) / d) < d * word = omega arith in
    rw j (omega (arith, mul_comm d ((rem * word + w) / d)), lt_of_mul-lt-mul_left d small, low)

div_loop_lem :
    (d : ℕ) (ws : List ℕ)
    → 0 < d
    → d < word
    → AreDigits word ws
    → (value word (div_loop d ws).0 * d + (div_loop d ws).1 ≡ value word ws)
      × ((div_loop d ws).1 < d)
      × AreDigits word (div_loop d ws).0
unfolding div_loop
div_loop_lem d [] hp hd h = (omega arith, hp, tt)
div_loop_lem d (w ∷ ws) hp hd h =
    let (v, small, digits) = div_loop_lem d ws hp hd h.1 in
    let rem = (div_loop d ws).1 in
    let (s, q, r) = step d rem w hd small h.0 in
    let q' : join rem w / d % word ≡ join rem w / d = omega (arith, q) in
    rw q' (
      omega (
        arith,
        s,
        v,
        add-mul (join rem w / d) (word * value word (div_loop d ws).0) d,
        mul_assoc word (value word (div_loop d ws).0) d,
      ),
      r,
      (q, digits),
    )

mod_loop-div_loop : (d : ℕ) (ws : List ℕ) → mod_loop d ws ≡ (div_loop d ws).1
unfolding mod_loop div_loop
mod_loop-div_loop d [] = refl
mod_loop-div_loop d (w ∷ ws) = rw (mod_loop-div_loop d ws) refl

-- For a divisor that is a word and not 0, bn_div_small leaves a normalised quotient and returns
-- the remainder, which is below the divisor and is also what bn_mod_small returns.
pub bn_div_small_lem :
    (bn : List ℕ) (d : ℕ)
    → d ≢ 0
    → d < word
    → AreDigits word bn
    → (q : List ℕ) × (r : ℕ) × (bn_div_small bn d ≡ some (q, r))
      × (bn_mod_small bn d ≡ some r)
      × IsNumber q
      × (value word bn ≡ value word q * d + r)
      × (r < d)
unfolding bn_div_small bn_mod_small
bn_div_small_lem bn d pos hd h =
    let (v, small, digits) = div_loop_lem d bn (ground (arith, pos)) hd h in
    let rest : (div_loop d bn).1 % word ≡ (div_loop d bn).1 = omega (arith, small) in
    let test : (d == 0) ≡ false = ground (arith, pos) in
    (
      bn_normalize (div_loop d bn).0,
      (div_loop d bn).1,
      rw (test, rest) refl,
      rw (test, mod_loop-div_loop d bn, rest) refl,
      normalize-IsNumber (div_loop d bn).0 digits,
      rw value-normalize (sym v),
      small,
    )
