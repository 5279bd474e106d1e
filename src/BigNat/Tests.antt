-- ===== src/BigNat/Tests.antt =====
-- Runs of the routines of compiler/float_bignat.c, and instances of the theorems about them.
use n.Prelude.{ℕ, ◌≡◌, ◌≢◌, refl, ◌+◌, ◌*◌, ◌/◌, ◌≤◌, ◌^◌, some, List, [], ◌∷◌, arith}
use Prim.Native.Nat.{compare}
use n.Digits.{value}
use n.BigNat.{
  word, int_max, bn_cmp, bn_normalize, cmp_loop, bn_bit_length, top_bits, bn_divmod, bn_sub_inplace,
  bn_round_ratio_shift, bn_shift_left_bits, bn_is_zero, bn_shift_right_one, right_loop, sub_loop,
  sub_word, bn_set_bit, extend, push_carry, shift_loop, divmod_loop,
}
use n.BigNat.Normal.{IsNumber}
use n.BigNat.Divide.{bn_divmod_lem, Divides}
use n.BigNat.Round.{bn_round_ratio_shift_lem, IsRoundedRatio}
use n.BigNat.Order.{bn_cmp_lem}
use n.BigNat.Subtract.{bn_sub_inplace_lem}

-- 7 * 2 ^ 32 + 5
abbrev large : List ℕ
large = 5 ∷ 7 ∷ []

abbrev three : List ℕ
three = 3 ∷ []

large-IsNumber : IsNumber large
large-IsNumber = ((omega arith, (omega arith, tt)), omega arith)

three-IsNumber : IsNumber three
three-IsNumber = ((omega arith, tt), omega arith)

three-ne-nil : three ≢ []
three-ne-nil e = cc

large-bits : bn_bit_length large ≤ int_max / 2
unfolding bn_bit_length top_bits
large-bits = omega arith

divides_large : bn_divmod large three ≡ some (1431655767 ∷ 2 ∷ [], [])
unfolding bn_divmod bn_is_zero bn_cmp cmp_loop bn_bit_length top_bits bn_shift_left_bits shift_loop
    push_carry divmod_loop bn_sub_inplace sub_loop sub_word bn_normalize bn_set_bit extend
    bn_shift_right_one right_loop
divides_large = refl

bn_divmod_lem_example : Divides (value word three) (value word large) (bn_divmod large three)
bn_divmod_lem_example =
    bn_divmod_lem large three large-IsNumber three-IsNumber three-ne-nil large-bits

bn_round_ratio_shift_lem_example :
    (r : List ℕ) × (bn_round_ratio_shift large three 4 1 ≡ some r)
    × IsNumber r
    × IsRoundedRatio (value word large * 2 ^ 4) (value word three * 2 ^ 1) (value word r)
unfolding bn_bit_length top_bits
bn_round_ratio_shift_lem_example =
    bn_round_ratio_shift_lem large three 4 1 large-IsNumber three-IsNumber three-ne-nil
      (omega arith) (omega arith)

bn_cmp_lem_example : bn_cmp large three ≡ compare (value word large) (value word three)
bn_cmp_lem_example = bn_cmp_lem large three large-IsNumber three-IsNumber

bn_sub_inplace_lem_example :
    (d : List ℕ) × (bn_sub_inplace large three ≡ some d)
    × IsNumber d
    × (value word d + value word three ≡ value word large)
bn_sub_inplace_lem_example =
    bn_sub_inplace_lem large three large-IsNumber three-IsNumber (omega arith)
