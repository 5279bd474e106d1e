-- ===== src/BigNat/Subtract.antt =====
-- `bn_sub_inplace` of compiler/float_bignat.c.
use n.Prelude.{
  ℕ, zero, suc, ◌+◌, ◌*◌, ◌^◌, ◌<◌, ◌≤◌, ◌≡◌, refl, ap, ◌∙◌, true, none, some, List, [], ◌∷◌, ◌==◌,
  if◌then◌else◌, length, arith,
}
use mathlib.Core.Path.{subst}
use native.Mathlib.Nat.{mul-le-mul_left, pow-zero}
use n.Digits.{value, AreDigits, value-lt-pow, pow_mul_suc}
use n.BigNat.{word, sub_word, sub_loop, bn_sub_inplace, bn_normalize}
use n.BigNat.Normal.{IsNumber, value-normalize, normalize-IsNumber}
use n.BigNat.Order.{bn_cmp-not_less, length-le_of_value}

sub_word_lem :
    (av sub : ℕ)
    → av < word
    → sub ≤ word
    → ((sub_word av sub).0 + sub ≡ av + word * (sub_word av sub).1)
      × ((sub_word av sub).0 < word)
      × ((sub_word av sub).1 ≤ 1)
unfolding sub_word
sub_word_lem av sub h k = ground arith

sub_loop_lem :
    (borrow : ℕ) (a b : List ℕ)
    → borrow ≤ 1
    → length b ≤ length a
    → AreDigits word a
    → AreDigits word b
    → (value word (sub_loop borrow a b).0 + value word b + borrow
        ≡ value word a + word ^ length a * (sub_loop borrow a b).1)
      × AreDigits word (sub_loop borrow a b).0
      × (length (sub_loop borrow a b).0 ≡ length a)
unfolding sub_loop
sub_loop_lem borrow [] [] hb le h k = (rw (pow-zero word) (omega arith), tt, refl)
sub_loop_lem borrow [] (y ∷ b) hb le h k = elim le [ ]
sub_loop_lem borrow (x ∷ a) [] hb le h k =
    let (s, d, l) = sub_word_lem x borrow h.0 (omega arith) in
    let (v, ds, ls) = sub_loop_lem (sub_word x borrow).1 a [] l (omega arith) h.1 tt in
    (
      rw (pow_mul_suc word (length a) (sub_loop (sub_word x borrow).1 a []).1)
          (omega (arith, s, v)),
      (d, ds),
      ap suc ls,
    )
sub_loop_lem borrow (x ∷ a) (y ∷ b) hb le h k =
    let hy = k.0 in
    let (s, d, l) = sub_word_lem x (y + borrow) h.0 (omega (arith, hy)) in
    let (v, ds, ls) = sub_loop_lem (sub_word x (y + borrow)).1 a b l (omega (arith, le)) h.1 k.1 in
    (
      rw (pow_mul_suc word (length a) (sub_loop (sub_word x (y + borrow)).1 a b).1)
          (omega (arith, s, v)),
      (d, ds),
      ap suc ls,
    )

no_borrow : (p s a b last : ℕ) → s < p → b ≤ a → s + b ≡ a + p * last → last ≡ 0
no_borrow p s a b zero hs le e = refl
no_borrow p s a b (suc last) hs le e =
    let q : p * 1 ≤ p * suc last = mul-le-mul_left p (omega arith) in absurd (omega (arith, q))

exact_difference : (s b a p last : ℕ) → last ≡ 0 → s + b ≡ a + p * last → s + b ≡ a
exact_difference s b a p zero z e = omega (arith, e)
exact_difference s b a p (suc last) z e = absurd (omega (arith, z))

-- For normalised numbers, the second at most the first, the subtraction ends without an error in
-- the normalised difference.
pub bn_sub_inplace_lem :
    (a b : List ℕ)
    → IsNumber a
    → IsNumber b
    → value word b ≤ value word a
    → (d : List ℕ) × (bn_sub_inplace a b ≡ some d)
      × IsNumber d
      × (value word d + value word b ≡ value word a)
unfolding bn_sub_inplace
bn_sub_inplace_lem a b n m h =
    let (v, ds, ls) = sub_loop_lem 0 a b (omega arith) (length-le_of_value a b n m h) n.0 m.0 in
    let low = value-lt-pow word (sub_loop 0 a b).0 ds in
    let last =
      no_borrow (word ^ length a) (value word (sub_loop 0 a b).0) (value word a) (value word b)
        (sub_loop 0 a b).1 (subst (λ k. value word (sub_loop 0 a b).0 < word ^ k) ls low) h
        (omega (arith, v)) in
    let test : ((sub_loop 0 a b).1 == 0) ≡ true = ground (arith, last) in
    let ok =
      bn_cmp-not_less a b none
        (if (sub_loop 0 a b).1 == 0 then some (bn_normalize (sub_loop 0 a b).0) else none) n m h in
    (
      bn_normalize (sub_loop 0 a b).0,
      ok ∙ rw test refl,
      normalize-IsNumber (sub_loop 0 a b).0 ds,
      rw (value-normalize (sub_loop 0 a b).0) (
          exact_difference (value word (sub_loop 0 a b).0) (value word b) (value word a)
            (word ^ length a) (sub_loop 0 a b).1 last (omega (arith, v))),
    )
