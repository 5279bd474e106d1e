-- ===== src/BigNat/Carry.antt =====
-- The operations of compiler/float_bignat.c that multiply by a word or add one.
use n.Prelude.{
  ℕ, zero, suc, ◌+◌, ◌-◌, ◌*◌, ◌/◌, ◌%◌, ◌^◌, ◌<◌, ◌≤◌, ◌≡◌, ◌≢◌, refl, sym, ◌∙◌, inl, inr, true,
  List, [], ◌∷◌, ◌==◌, length, arith, Bool-cases,
}
use mathlib.Core.Path.{subst}
use native.Mathlib.Nat.{mul_assoc, add-mul, mul-le-mul, mul-le-mul_right, pow-succ', pow-zero}
use n.Digits.{value, AreDigits}
use n.BigNat.{
  word, bn_from_u32, bn_is_zero, push_carry, mul_loop, bn_mul_small, add_loop, bn_add_small,
  bn_mul_pow5,
}
use n.BigNat.Normal.{IsNormal-behind, IsNormal, IsNumber}

pub value-push_carry : (c : ℕ) → c < word → value word (push_carry c) ≡ c
unfolding push_carry
value-push_carry c h = ground arith

pub push_carry-AreDigits : (c : ℕ) → AreDigits word (push_carry c)
unfolding push_carry
push_carry-AreDigits c = elim (Bool-cases (c == 0)) [
  | inl e ↦ rw e tt
  | inr e ↦ rw e (omega arith, tt)
]

-- A carry leaves a word of a product, and the product fits 64 bits.
mul_carry :
    (w mul carry : ℕ)
    → w < word
    → mul < word
    → carry < word
    → (w * mul + carry) % 2 ^ 64 ≡ w * mul + carry
mul_carry w mul carry hw hm hc =
    let b : w * mul ≤ (word - 1) * (word - 1) =
      mul-le-mul {n₂ = word - 1} {m₂ = word - 1} (omega arith) (omega arith) in
    omega (arith, b)

carry_out :
    (w mul carry : ℕ) → w < word → mul < word → carry < word → (w * mul + carry) / word < word
carry_out w mul carry hw hm hc =
    let b : w * mul ≤ (word - 1) * (word - 1) =
      mul-le-mul {n₂ = word - 1} {m₂ = word - 1} (omega arith) (omega arith) in
    omega (arith, b)

value-mul_loop :
    (mul carry : ℕ) (ws : List ℕ)
    → mul < word
    → carry < word
    → AreDigits word ws
    → value word (mul_loop mul carry ws) ≡ value word ws * mul + carry
unfolding mul_loop
value-mul_loop mul carry [] hm hc h = omega (arith, value-push_carry carry hc)
value-mul_loop mul carry (w ∷ ws) hm hc h =
    let cur = mul_carry w mul carry h.0 hm hc in
    let ih =
      value-mul_loop mul ((w * mul + carry) / word) ws hm (carry_out w mul carry h.0 hm hc) h.1 in
    rw cur
      (omega (arith, ih, add-mul w (word * value word ws) mul, mul_assoc word (value word ws) mul))

mul_loop-AreDigits : (mul carry : ℕ) (ws : List ℕ) → AreDigits word (mul_loop mul carry ws)
unfolding mul_loop
mul_loop-AreDigits mul carry [] = push_carry-AreDigits carry
mul_loop-AreDigits mul carry (w ∷ ws) =
    (omega arith, mul_loop-AreDigits mul ((w * mul + carry) % 2 ^ 64 / word) ws)

value-add_loop :
    (carry : ℕ) (ws : List ℕ)
    → carry < word
    → AreDigits word ws
    → value word (add_loop carry ws) ≡ value word ws + carry
unfolding add_loop
value-add_loop carry [] hc h = omega (arith, value-push_carry carry hc)
value-add_loop carry (w ∷ ws) hc h =
    let w<word = h.0 in
    let ih = value-add_loop ((w + carry) / word) ws (omega (arith, w<word)) h.1 in
    elim (Bool-cases (carry == 0)) [
      | inl e ↦ let z : carry ≡ 0 = ground arith in rw e (omega (arith, z))
      | inr e ↦ rw e (omega (arith, ih))
    ]

add_loop-AreDigits :
    (carry : ℕ) (ws : List ℕ) → AreDigits word ws → AreDigits word (add_loop carry ws)
unfolding add_loop
add_loop-AreDigits carry [] h = push_carry-AreDigits carry
add_loop-AreDigits carry (w ∷ ws) h = elim (Bool-cases (carry == 0)) [
  | inl e ↦ rw e h
  | inr e ↦ rw e (omega arith, add_loop-AreDigits ((w + carry) / word) ws h.1)
]

-- The word in front of a last carry.
pub carry-IsNormal : (d c : ℕ) → c < word → (c ≡ 0 → d ≢ 0) → IsNormal (d ∷ push_carry c)
unfolding push_carry
carry-IsNormal d c hc h = elim (Bool-cases (c == 0)) [
  | inl e ↦ rw e (h (ground arith))
  | inr e ↦ rw e (λ z. ground arith)
]

pub push_carry-IsNormal : (c : ℕ) → c < word → IsNormal (push_carry c)
unfolding push_carry
push_carry-IsNormal c hc = elim (Bool-cases (c == 0)) [
  | inl e ↦ rw e tt
  | inr e ↦ rw e (λ z. ground arith)
]

product_pos : (w mul : ℕ) → w ≢ 0 → mul ≢ 0 → w * mul ≢ 0
product_pos w mul hw pos =
    let b : 1 * mul ≤ w * mul = mul-le-mul_right mul (ground (arith, hw)) in omega (arith, b, pos)

mul_loop-IsNormal :
    (mul carry : ℕ) (ws : List ℕ)
    → mul < word
    → carry < word
    → mul ≢ 0
    → IsNumber ws
    → IsNormal (mul_loop mul carry ws)
unfolding mul_loop
mul_loop-IsNormal mul carry [] hm hc pos h = push_carry-IsNormal carry hc
mul_loop-IsNormal mul carry (w ∷ []) hm hc pos h =
    let cur = mul_carry w mul carry h.0.0 hm hc in
    let some_digit : w * mul ≢ 0 = product_pos w mul h.1 pos in
    rw cur (
      carry-IsNormal ((w * mul + carry) % word) ((w * mul + carry) / word)
        (carry_out w mul carry h.0.0 hm hc) (λ z. ground (arith, z, some_digit)))
mul_loop-IsNormal mul carry (w ∷ x ∷ ws) hm hc pos h =
    let cur = mul_carry w mul carry h.0.0 hm hc in
    let out = carry_out w mul carry h.0.0 hm hc in
    let ih = mul_loop-IsNormal mul ((w * mul + carry) / word) (x ∷ ws) hm out pos (h.0.1, h.1) in
    subst (λ y. IsNormal (mul_loop mul (y / word) (x ∷ ws))) (sym cur) ih

length-add_loop_pos : (carry x : ℕ) (xs : List ℕ) → 0 < length (add_loop carry (x ∷ xs))
unfolding add_loop
length-add_loop_pos carry x xs = elim (Bool-cases (carry == 0)) [
  | inl e ↦ rw e (omega arith)
  | inr e ↦ rw e (omega arith)
]

add_loop-IsNormal :
    (carry : ℕ) (ws : List ℕ) → carry < word → IsNumber ws → IsNormal (add_loop carry ws)
unfolding add_loop
add_loop-IsNormal carry [] hc h = push_carry-IsNormal carry hc
add_loop-IsNormal carry (w ∷ []) hc h =
    let hw = h.0.0 in
    let pos = h.1 in
    elim (Bool-cases (carry == 0)) [
      | inl e ↦ rw e pos
      | inr e ↦ rw e (
          carry-IsNormal ((w + carry) % word) ((w + carry) / word) (omega (arith, hw))
            (λ z. ground (arith, z, hw, pos)))
    ]
add_loop-IsNormal carry (w ∷ x ∷ ws) hc h =
    let hw = h.0.0 in
    let ih = add_loop-IsNormal ((w + carry) / word) (x ∷ ws) (omega (arith, hw)) (h.0.1, h.1) in
    let behind = length-add_loop_pos ((w + carry) / word) x ws in
    elim (Bool-cases (carry == 0)) [
      | inl e ↦ rw e h.1
      | inr e ↦
          rw e (
            IsNormal-behind ((w + carry) % word) (add_loop ((w + carry) / word) (x ∷ ws)) behind ih)
    ]

pub bn_is_zero-eq : (ws : List ℕ) → bn_is_zero ws ≡ true → ws ≡ []
unfolding bn_is_zero
bn_is_zero-eq [] h = refl
bn_is_zero-eq (w ∷ ws) h = cc

from_u32-IsNumber : (v : ℕ) → v < word → IsNumber (bn_from_u32 v) × (value word (bn_from_u32 v) ≡ v)
unfolding bn_from_u32
from_u32-IsNumber v h = elim (Bool-cases (v == 0)) [
  | inl e ↦ rw e ((tt, tt), ground arith)
  | inr e ↦ rw e (((h, tt), λ z. ground arith), omega arith)
]

-- A product by a word is exact, and normalised again.
pub bn_mul_small_lem :
    (bn : List ℕ) (mul : ℕ)
    → IsNumber bn
    → mul < word
    → IsNumber (bn_mul_small bn mul) × (value word (bn_mul_small bn mul) ≡ value word bn * mul)
unfolding bn_mul_small bn_is_zero
bn_mul_small_lem [] mul h hm = elim (Bool-cases (mul == 1)) [
  | inl e ↦ rw e (h, omega arith)
  | inr e ↦ rw e (h, omega arith)
]
bn_mul_small_lem (w ∷ ws) mul h hm = elim (Bool-cases (mul == 1)) [
  | inl e ↦ let one : mul ≡ 1 = ground arith in rw e (h, rw one (omega arith))
  | inr e ↦ elim (Bool-cases (mul == 0)) [
    | inl q ↦ let z : mul ≡ 0 = ground arith in rw (e, q) ((tt, tt), rw z (omega arith))
    | inr q ↦
        let n = mul_loop-IsNormal mul 0 (w ∷ ws) hm (omega arith) (λ z. ground arith) h in
        let v = value-mul_loop mul 0 (w ∷ ws) hm (omega arith) h.0 in
        rw (e, q) ((mul_loop-AreDigits mul 0 (w ∷ ws), n), omega (arith, v))
  ]
]

-- A sum with a word is exact, and normalised again.
pub bn_add_small_lem :
    (bn : List ℕ) (add : ℕ)
    → IsNumber bn
    → add < word
    → IsNumber (bn_add_small bn add) × (value word (bn_add_small bn add) ≡ value word bn + add)
unfolding bn_add_small bn_is_zero
bn_add_small_lem [] add h ha = elim (Bool-cases (add == 0)) [
  | inl e ↦ let z : add ≡ 0 = ground arith in rw e (h, omega (arith, z))
  | inr e ↦ let (n, v) = from_u32-IsNumber add ha in rw e (n, omega (arith, v))
]
bn_add_small_lem (w ∷ ws) add h ha = elim (Bool-cases (add == 0)) [
  | inl e ↦ let z : add ≡ 0 = ground arith in rw e (h, omega (arith, z))
  | inr e ↦ rw e (
    (add_loop-AreDigits add (w ∷ ws) h.0, add_loop-IsNormal add (w ∷ ws) ha h),
    value-add_loop add (w ∷ ws) ha h.0,
  )
]

-- bn_mul_pow5 multiplies a normalised number by a power of 5 and leaves it normalised.
pub bn_mul_pow5_lem :
    (bn : List ℕ) (exp : ℕ)
    → IsNumber bn
    → IsNumber (bn_mul_pow5 bn exp) × (value word (bn_mul_pow5 bn exp) ≡ value word bn * 5 ^ exp)
unfolding bn_mul_pow5
bn_mul_pow5_lem bn zero h = (h, rw pow-zero (omega arith))
bn_mul_pow5_lem bn (suc exp) h =
    let (n, v) = bn_mul_small_lem bn 5 h (omega arith) in
    let (n', v') = bn_mul_pow5_lem (bn_mul_small bn 5) exp n in
    (n', v' ∙ rw (v, pow-succ' 5 exp) (mul_assoc (value word bn) 5 (5 ^ exp)))
