-- ===== src/BigNat/Shift.antt =====
-- The shifts of compiler/float_bignat.c.
use n.Prelude.{
  ℕ, zero, suc, ◌+◌, ◌-◌, ◌*◌, ◌/◌, ◌%◌, ◌^◌, ◌<◌, ◌≤◌, ◌≡◌, refl, sym, ◌∙◌, inl, inr, false, some,
  List, [], ◌∷◌, ◌++◌, ◌==◌, ltb, if◌then◌else◌, length, replicate, arith, Bool-cases, All-append,
  All-replicate, length-replicate, length-append,
}
use mathlib.Core.Path.{subst}
use native.Mathlib.Nat.{
  mul_assoc, add-mul, mul-le-mul_right, pow-le-pow_right, pow-succ', pow-zero, one-le-pow,
}
use n.Digits.{pow_add, value, AreDigits, value-append, value-replicate_zero}
use n.BigNat.{
  word, int_max, shift_loop, bn_shift_left_bits, right_loop, bn_shift_right_one, bn_is_zero,
}
use n.BigNat.Normal.{IsNormal-behind, IsNormal, IsNumber, value-normalize, normalize-IsNumber}
use n.BigNat.Carry.{value-push_carry, push_carry-AreDigits, push_carry-IsNormal, carry-IsNormal}

pow_bits : (bits : ℕ) → bits < 32 → 2 ^ bits ≤ 2 ^ 31
pow_bits bits h = pow-le-pow_right {n = 2} (omega arith) {j = 31} (omega arith)

-- The steps below are about any factor `p` up to 2 ^ 31.
shifted_word :
    (p w carry : ℕ) → p ≤ 2 ^ 31 → w < word → carry < p → w * p % 2 ^ 64 + carry ≡ w * p + carry
shifted_word p w carry hp hw hc =
    let b : w * p ≤ (word - 1) * p = mul-le-mul_right p (omega arith) in omega (arith, b)

shift_carry : (p w carry : ℕ) → p ≤ 2 ^ 31 → w < word → carry < p → (w * p + carry) / word < p
shift_carry p w carry hp hw hc =
    let b : w * p ≤ (word - 1) * p = mul-le-mul_right p (omega arith) in omega (arith, b)

shift_loop_step :
    (bits carry w : ℕ) (ws : List ℕ)
    → bits < 32
    → carry < 2 ^ bits
    → w < word
    → shift_loop bits carry (w ∷ ws)
      ≡ (w * 2 ^ bits + carry) % word ∷ shift_loop bits ((w * 2 ^ bits + carry) / word) ws
unfolding shift_loop
shift_loop_step bits carry w ws hb hc hw =
    let hp = pow_bits bits hb in
    let out : (w * 2 ^ bits + carry) / word % word ≡ (w * 2 ^ bits + carry) / word =
      omega (arith, hp, shift_carry (2 ^ bits) w carry hp hw hc) in
    rw (shifted_word (2 ^ bits) w carry hp hw hc, out) refl

value-shift_loop :
    (bits carry : ℕ) (ws : List ℕ)
    → bits < 32
    → carry < 2 ^ bits
    → AreDigits word ws
    → value word (shift_loop bits carry ws) ≡ value word ws * 2 ^ bits + carry
unfolding shift_loop
value-shift_loop bits carry [] hb hc h =
    omega (arith, value-push_carry carry (omega (arith, pow_bits bits hb)))
value-shift_loop bits carry (w ∷ ws) hb hc h =
    let out = shift_carry (2 ^ bits) w carry (pow_bits bits hb) h.0 hc in
    let ih = value-shift_loop bits ((w * 2 ^ bits + carry) / word) ws hb out h.1 in
    subst (λ y. value word y ≡ (w + word * value word ws) * 2 ^ bits + carry)
      (sym (shift_loop_step bits carry w ws hb hc h.0))
      (omega (
        arith,
        ih,
        add-mul w (word * value word ws) (2 ^ bits),
        mul_assoc word (value word ws) (2 ^ bits),
      ))

shift_loop-AreDigits : (bits carry : ℕ) (ws : List ℕ) → AreDigits word (shift_loop bits carry ws)
unfolding shift_loop
shift_loop-AreDigits bits carry [] = push_carry-AreDigits carry
shift_loop-AreDigits bits carry (w ∷ ws) =
    (omega arith, shift_loop-AreDigits bits ((w * 2 ^ bits % 2 ^ 64 + carry) / word % word) ws)

shift_loop-IsNormal :
    (bits carry : ℕ) (ws : List ℕ)
    → bits < 32
    → carry < 2 ^ bits
    → IsNumber ws
    → IsNormal (shift_loop bits carry ws)
unfolding shift_loop
shift_loop-IsNormal bits carry [] hb hc h =
    push_carry-IsNormal carry (omega (arith, pow_bits bits hb))
shift_loop-IsNormal bits carry (w ∷ []) hb hc h =
    let out = shift_carry (2 ^ bits) w carry (pow_bits bits hb) h.0.0 hc in
    let pos : 1 * 2 ^ bits ≤ w * 2 ^ bits = mul-le-mul_right (2 ^ bits) (ground (arith, h.1)) in
    subst IsNormal (sym (shift_loop_step bits carry w [] hb hc h.0.0)) (
      carry-IsNormal ((w * 2 ^ bits + carry) % word) ((w * 2 ^ bits + carry) / word)
        (omega (arith, out, pow_bits bits hb)) (λ z e. ground (arith, z, e, pos, hc)))
shift_loop-IsNormal bits carry (w ∷ x ∷ ws) hb hc h =
    let out = shift_carry (2 ^ bits) w carry (pow_bits bits hb) h.0.0 hc in
    let ih =
      shift_loop-IsNormal bits ((w * 2 ^ bits + carry) / word) (x ∷ ws) hb out (h.0.1, h.1) in
    let next = shift_loop_step bits ((w * 2 ^ bits + carry) / word) x ws hb out h.0.1.0 in
    subst IsNormal (sym (shift_loop_step bits carry w (x ∷ ws) hb hc h.0.0)) (
      subst (λ y. IsNormal ((w * 2 ^ bits + carry) % word ∷ y)) (sym next) (subst IsNormal next ih))

-- The words that are moved up by whole words.
replicate-IsNormal :
    (k : ℕ) (ws : List ℕ) → 0 < length ws → IsNormal ws → IsNormal (replicate k 0 ++ ws)
replicate-IsNormal zero ws h n = n
replicate-IsNormal (suc k) ws h n =
    IsNormal-behind 0 (replicate k 0 ++ ws) (omega (arith, length-append (replicate k 0) ws))
      (replicate-IsNormal k ws h n)

pub pow_word : (k : ℕ) → word ^ k ≡ 2 ^ (k * 32)
pow_word zero = refl
pow_word (suc k) =
    rw (pow-succ' word k, pow_word k)
      (subst (λ j. word * 2 ^ (k * 32) ≡ 2 ^ j) {x = 32 + k * 32} (omega arith)
        (sym (pow_add 2 32 (k * 32))))

right_loop_lem :
    (ws : List ℕ)
    → AreDigits word ws
    → (value word (right_loop ws).0 ≡ value word ws / 2)
      × ((right_loop ws).1 ≡ value word ws % 2 * 2 ^ 31)
      × AreDigits word (right_loop ws).0
unfolding right_loop
right_loop_lem [] h = (refl, refl, tt)
right_loop_lem (w ∷ ws) h =
    let (v, c, d) = right_loop_lem ws h.1 in
    let hw = h.0 in (omega (arith, v, c, hw), omega arith, (omega (arith, c, hw), d))

-- Half of the number, without the last bit.
pub bn_shift_right_one_lem :
    (bn : List ℕ)
    → IsNumber bn
    → IsNumber (bn_shift_right_one bn) × (value word (bn_shift_right_one bn) ≡ value word bn / 2)
unfolding bn_shift_right_one bn_is_zero
bn_shift_right_one_lem [] h = (h, refl)
bn_shift_right_one_lem (w ∷ ws) h =
    let (v, c, d) = right_loop_lem (w ∷ ws) h.0 in
    (normalize-IsNumber (right_loop (w ∷ ws)).0 d, value-normalize (right_loop (w ∷ ws)).0 ∙ v)

length-shift_loop_pos :
    (bits carry w : ℕ) (ws : List ℕ) → 0 < length (shift_loop bits carry (w ∷ ws))
unfolding shift_loop
length-shift_loop_pos bits carry w ws = omega arith

-- The words of a shift by `k` words and `b` bits.
abbrev shifted_words : (k b : ℕ) → List ℕ → List ℕ
shifted_words k b bn = replicate k 0 ++ (if b == 0 then bn else shift_loop b 0 bn)

bits_lem :
    (b w : ℕ) (ws : List ℕ)
    → b < 32
    → IsNumber (w ∷ ws)
    → (r : List ℕ) × ((if b == 0 then w ∷ ws else shift_loop b 0 (w ∷ ws)) ≡ r)
      × IsNumber r
      × (0 < length r)
      × (value word r ≡ value word (w ∷ ws) * 2 ^ b)
bits_lem b w ws hb h = elim (Bool-cases (b == 0)) [
  | inl e ↦
      let z : b ≡ 0 = ground arith in
      (w ∷ ws, rw e refl, h, omega arith, rw (z, pow-zero) (omega arith))
  | inr e ↦
      let one : 0 < 2 ^ b = one-le-pow b 2 (omega arith) in
      (
        shift_loop b 0 (w ∷ ws),
        rw e refl,
        (shift_loop-AreDigits b 0 (w ∷ ws), shift_loop-IsNormal b 0 (w ∷ ws) hb one h),
        length-shift_loop_pos b 0 w ws,
        omega (arith, value-shift_loop b 0 (w ∷ ws) hb one h.0),
      )
]

words_lem :
    (k b w : ℕ) (ws : List ℕ)
    → b < 32
    → IsNumber (w ∷ ws)
    → IsNumber (shifted_words k b (w ∷ ws))
      × (value word (shifted_words k b (w ∷ ws)) ≡ value word (w ∷ ws) * 2 ^ (k * 32 + b))
words_lem k b w ws hb h =
    let (r, e, n, p, v) = bits_lem b w ws hb h in
    let digits =
      All-append (λ d. d < word) (replicate k 0) r (All-replicate (λ d. d < word) k 0 (omega arith))
        n.0 in
    let normal = replicate-IsNormal k r p n.1 in
    let total : value word (replicate k 0 ++ r) ≡ value word (w ∷ ws) * 2 ^ (k * 32 + b) =
      rw
        (
          value-append word (replicate k 0) r,
          value-replicate_zero word k,
          length-replicate {A = ℕ} k 0,
          v,
          pow_word k,
          pow_add 2 (k * 32) b,
        )
        (omega arith) in
    subst
      (λ y.
        IsNumber (replicate k 0 ++ y)
        × (value word (replicate k 0 ++ y) ≡ value word (w ∷ ws) * 2 ^ (k * 32 + b)))
      (sym e) ((digits, normal), total)

-- A shift to the left is exact, for a distance up to `INT_MAX / 2`.
pub bn_shift_left_bits_lem :
    (bn : List ℕ) (shift : ℕ)
    → IsNumber bn
    → shift ≤ int_max / 2
    → (r : List ℕ) × (bn_shift_left_bits bn shift ≡ some r)
      × IsNumber r
      × (value word r ≡ value word bn * 2 ^ shift)
unfolding bn_shift_left_bits bn_is_zero
bn_shift_left_bits_lem [] shift h hs = elim (Bool-cases (shift == 0)) [
  | inl e ↦ ([], rw e refl, h, omega arith)
  | inr e ↦ ([], rw e refl, h, omega arith)
]
bn_shift_left_bits_lem (w ∷ ws) shift h hs =
    let high : ltb (int_max / 2) shift ≡ false = ground arith in
    let (n, v) = words_lem (shift / 32) (shift % 32) w ws (omega arith) h in
    let parts : shift / 32 * 32 + shift % 32 ≡ shift = omega arith in
    elim (Bool-cases (shift == 0)) [
      | inl e ↦
          let z : shift ≡ 0 = ground arith in (w ∷ ws, rw e refl, h, rw (z, pow-zero) (omega arith))
      | inr e ↦ (
        shifted_words (shift / 32) (shift % 32) (w ∷ ws),
        rw (e, high) refl,
        n,
        subst
            (λ j.
              value word (shifted_words (shift / 32) (shift % 32) (w ∷ ws))
              ≡ value word (w ∷ ws) * 2 ^ j)
            parts v,
      )
    ]
