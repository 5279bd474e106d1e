-- ===== src/BigNat/Bits.antt =====
-- `bn_set_bit`, `bn_test_bit` and `bn_is_odd` of compiler/float_bignat.c.
use Prim.Native.Nat.{bit_or, max, digits, bit_or-bitwise}
use n.Prelude.{
  ℕ, zero, suc, ◌+◌, ◌-◌, ◌*◌, ◌/◌, ◌%◌, ◌^◌, ◌<◌, ◌≤◌, ◌≡◌, ◌≢◌, refl, sym, ap, ◌∙◌, inl, inr, ◌⊎◌,
  false, some, List, [], ◌∷◌, ◌++◌, ltb, length, replicate, get_or, set, arith, Bool-cases, ltb→lt,
  ltb→le, All-append, All-replicate, length-append, length-replicate,
}
use mathlib.Core.Path.{subst}
use native.Mathlib.Nat.{
  mul-le-mul_right, pow-succ', pow-zero, le_refl, div-add-mod', add-mul-mod_self_left, mul-mod_left,
  lt_of_mul-lt-mul_right, one-le-pow,
}
use n.Digits.{value, AreDigits, pow_mul_suc, pow_add, value-append, value-replicate_zero}
use n.BigNat.{word, int_max, extend, bn_set_bit}
use n.BigNat.Shift.{pow_word}
use n.BigNat.Normal.{IsNormal, IsNumber, IsNormal-behind}

or_zero : (n a : ℕ) → a ≤ n → digits (λ b. b) max n a 0 ≡ a
or_zero zero a h = omega arith
or_zero (suc n) zero h = refl
or_zero (suc n) (suc a) h = rw (or_zero n (suc a / 2) (omega arith)) (omega arith)

or_clear : (n k a m : ℕ) → a ≡ m * 2 ^ suc k → a ≤ n → digits (λ b. b) max n a (2 ^ k) ≡ a + 2 ^ k
or_clear zero k a m e h = omega arith
or_clear (suc n) k zero m e h = omega arith
or_clear (suc n) zero (suc a) m e h = rw (or_zero n (suc a / 2) (omega arith)) (omega (arith, e))
or_clear (suc n) (suc k) (suc a) m e h =
    let p = pow-succ' 2 k in
    let pp = pow-succ' 2 (suc k) in
    let half : 2 ^ suc k / 2 ≡ 2 ^ k = omega (arith, p) in
    let even : 2 ^ suc k % 2 ≡ 0 = omega (arith, p) in
    let e' : suc a ≡ 2 * (m * 2 ^ suc k) = e ∙ rw pp (omega arith) in
    rw (half, even, or_clear n k (suc a / 2) m (omega (arith, e')) (omega arith))
      (omega (arith, e', p))

-- A bit that is clear, with all below it, is added.
bit_or-clear : (k m : ℕ) → bit_or (m * 2 ^ suc k) (2 ^ k) ≡ m * 2 ^ suc k + 2 ^ k
bit_or-clear k m =
    simp bit_or-bitwise
      (or_clear (m * 2 ^ suc k) k (m * 2 ^ suc k) m refl (le_refl (m * 2 ^ suc k)))

-- A write to one word changes the value by the difference at its place.
value-set-word :
    (ws : List ℕ) (i x : ℕ)
    → i < length ws
    → value word (set ws i x) + word ^ i * get_or ws i 0 ≡ value word ws + word ^ i * x
value-set-word [] i x h = elim h [ ]
value-set-word (w ∷ ws) zero x h = rw (pow-zero word) (omega arith)
value-set-word (w ∷ ws) (suc i) x h =
    rw (pow_mul_suc word i (get_or ws i 0), pow_mul_suc word i x)
      (let ih = value-set-word ws i x (omega arith) in omega (arith, ih))

set-AreDigits : (ws : List ℕ) (i x : ℕ) → x < word → AreDigits word ws → AreDigits word (set ws i x)
set-AreDigits [] i x h k = tt
set-AreDigits (w ∷ ws) zero x h k = (h, k.1)
set-AreDigits (w ∷ ws) (suc i) x h k = (k.0, set-AreDigits ws i x h k.1)

set-IsNormal :
    (ws : List ℕ) (i x : ℕ) → x ≢ 0 → (length ws ≡ suc i) ⊎ IsNormal ws → IsNormal (set ws i x)
set-IsNormal [] i x h p = tt
set-IsNormal (w ∷ []) zero x h p = h
set-IsNormal (w ∷ []) (suc i) x h p = elim p [ inl e ↦ absurd (omega (arith, e)) | inr n ↦ n ]
set-IsNormal (w ∷ v ∷ ws) zero x h p = elim p [ inl e ↦ absurd (omega (arith, e)) | inr n ↦ n ]
set-IsNormal (w ∷ v ∷ ws) (suc zero) x h p =
    set-IsNormal (v ∷ ws) zero x h (elim p [ inl e ↦ inl (omega (arith, e)) | inr n ↦ inr n ])
set-IsNormal (w ∷ v ∷ ws) (suc (suc i)) x h p =
    IsNormal-behind w (v ∷ set ws i x) (omega arith) (
      set-IsNormal (v ∷ ws) (suc i) x h (elim p [ inl e ↦ inl (omega (arith, e)) | inr n ↦ inr n ]))

word_split : (k : ℕ) → k < 32 → 2 ^ (31 - k) * 2 ^ suc k ≡ word
word_split k h =
    let e : 31 - k + suc k ≡ 32 = ground arith in
    sym (pow_add 2 (31 - k) (suc k)) ∙ ap (λ j. 2 ^ j) e

small_word : (m k : ℕ) → k < 32 → m * 2 ^ suc k < word → m * 2 ^ suc k + 2 ^ k < word
small_word m k hk h =
    let c = word_split k hk in
    let p = pow-succ' 2 k in
    let pos : 0 < 2 ^ k = one-le-pow k 2 (omega arith) in
    let less : m < 2 ^ (31 - k) =
      lt_of_mul-lt-mul_right (2 ^ suc k) (subst (λ y. m * 2 ^ suc k < y) (sym c) h) in
    let next : suc m * 2 ^ suc k ≤ 2 ^ (31 - k) * 2 ^ suc k = mul-le-mul_right (2 ^ suc k) less in
    omega (arith, next, c, p, pos)

low_word : (w v q c p : ℕ) → c * p ≡ word → w + word * v ≡ q * p → w ≡ w / p * p
low_word w v q c p hc e =
    let split = div-add-mod' w p in
    let same : (w + p * (c * v)) % p ≡ w % p = add-mul-mod_self_left w p (c * v) in
    let parts : w + p * (c * v) ≡ w + c * p * v = omega arith in
    let shape : w + p * (c * v) ≡ q * p = parts ∙ rw hc e in
    let none_left : w % p ≡ 0 = sym same ∙ ap (λ x. x % p) shape ∙ mul-mod_left q p in
    omega (arith, split, none_left)

-- A multiple of 2 ^ (i + 1) has bit `i` clear in its word, with all below it.
clear_bit :
    (ws : List ℕ) (i q : ℕ)
    → AreDigits word ws
    → value word ws ≡ q * 2 ^ suc i
    → (m : ℕ) × (get_or ws (i / 32) 0 ≡ m * 2 ^ suc (i % 32))
clear_bit [] i q h e = (0, omega arith)
clear_bit (w ∷ ws) i q h e = elim (Bool-cases (ltb i 32)) [
  | inl lt ↦
      let first : i / 32 ≡ 0 = ground arith in
      let all : i % 32 ≡ i = ground arith in
      let c = word_split i (ltb→lt i 32 lt) in
      (w / 2 ^ suc i, rw (first, all) (low_word w (value word ws) q (2 ^ (31 - i)) (2 ^ suc i) c e))
  | inr ge ↦
      let high : suc i ≡ 32 + suc (i - 32) = ground arith in
      let next : i / 32 ≡ suc ((i - 32) / 32) = ground arith in
      let same : i % 32 ≡ (i - 32) % 32 = ground arith in
      let split : 2 ^ suc i ≡ word * 2 ^ suc (i - 32) =
        ap (λ k. 2 ^ k) high ∙ pow_add 2 32 (suc (i - 32)) in
      let e' : w + word * value word ws ≡ word * (q * 2 ^ suc (i - 32)) =
        e ∙ rw split (omega arith) in
      let (m, em) = clear_bit ws (i - 32) q h.1 (let hw = h.0 in omega (arith, e', hw)) in
      (m, rw (next, same) em)
]

get_or-digit : (ws : List ℕ) (i : ℕ) → AreDigits word ws → get_or ws i 0 < word
get_or-digit [] i h = omega arith
get_or-digit (w ∷ ws) zero h = h.0
get_or-digit (w ∷ ws) (suc i) h = get_or-digit ws i h.1

append_nil : (ws : List ℕ) → ws ++ [] ≡ ws
append_nil [] = refl
append_nil (w ∷ ws) = ap (λ y. w ∷ y) (append_nil ws)

-- The words that `bn_set_bit` works on.
extend_lem :
    (bn : List ℕ) (count : ℕ)
    → IsNumber bn
    → 0 < count
    → (value word (extend bn count) ≡ value word bn)
      × AreDigits word (extend bn count)
      × (count ≤ length (extend bn count))
      × ((length (extend bn count) ≡ count) ⊎ IsNormal (extend bn count))
unfolding extend
extend_lem bn count h pos =
    let zeros = replicate {A = ℕ} (count - length bn) 0 in
    let v = value-append word bn (replicate (count - length bn) 0) in
    let l = length-append bn (replicate (count - length bn) 0) in
    let k = length-replicate {A = ℕ} (count - length bn) 0 in
    (
      v ∙ rw (value-replicate_zero word (count - length bn)) (omega arith),
      All-append (λ d. d < word) bn (replicate (count - length bn) 0) h.0
          (All-replicate (λ d. d < word) (count - length bn) 0 (omega arith)),
      omega (arith, l, k),
      elim (Bool-cases (ltb (length bn) count)) [
        | inl lt ↦ inl (let le = ltb→lt (length bn) count lt in omega (arith, l, k, le))
        | inr ge ↦ inr (
            let le = ltb→le (length bn) count ge in
            let z : count - length bn ≡ 0 = omega (arith, le) in rw (z, append_nil bn) h.1)
      ],
    )

-- Below a bit whose place is clear: the bit is added, and the number stays normalised.
pub bn_set_bit_lem :
    (bn : List ℕ) (i q : ℕ)
    → IsNumber bn
    → value word bn ≡ q * 2 ^ suc i
    → i ≤ int_max / 2
    → (r : List ℕ) × (bn_set_bit bn i ≡ some r)
      × IsNumber r
      × (value word r ≡ value word bn + 2 ^ i)
unfolding bn_set_bit
bn_set_bit_lem bn i q h e le =
    let (v, digits, long, shape) = extend_lem bn (i / 32 + 1) h (omega arith) in
    let (m, em) = clear_bit (extend bn (i / 32 + 1)) i q digits (v ∙ e) in
    let low = get_or-digit (extend bn (i / 32 + 1)) (i / 32) digits in
    let small = small_word m (i % 32) (omega arith) (omega (arith, low, em)) in
    let write =
      subst
        (λ y.
          value word (set (extend bn (i / 32 + 1)) (i / 32) (m * 2 ^ suc (i % 32) + 2 ^ (i % 32)))
            + word ^ (i / 32) * y
          ≡ value word (extend bn (i / 32 + 1))
            + word ^ (i / 32) * (m * 2 ^ suc (i % 32) + 2 ^ (i % 32)))
        em
        (value-set-word (extend bn (i / 32 + 1)) (i / 32) (m * 2 ^ suc (i % 32) + 2 ^ (i % 32))
          (omega (arith, long))) in
    let place : 2 ^ i ≡ word ^ (i / 32) * 2 ^ (i % 32) =
      ap (λ k. 2 ^ k) (omega arith)
      ∙ pow_add 2 (i / 32 * 32) (i % 32)
      ∙ ap (λ y. y * 2 ^ (i % 32)) (sym (pow_word (i / 32))) in
    let test : ltb (int_max / 2) i ≡ false = ground arith in
    let pos : 0 < 2 ^ (i % 32) = one-le-pow (i % 32) 2 (omega arith) in
    (
      set (extend bn (i / 32 + 1)) (i / 32) (m * 2 ^ suc (i % 32) + 2 ^ (i % 32)),
      rw (test, em, bit_or-clear (i % 32) m) refl,
      (
        set-AreDigits (extend bn (i / 32 + 1)) (i / 32) (m * 2 ^ suc (i % 32) + 2 ^ (i % 32)) small
            digits,
        set-IsNormal (extend bn (i / 32 + 1)) (i / 32) (m * 2 ^ suc (i % 32) + 2 ^ (i % 32))
            (λ z. omega (arith, z, pos))
            (elim shape [ inl l ↦ inl (omega (arith, l)) | inr n ↦ inr n ]),
      ),
      omega (arith, write, v, place),
    )
