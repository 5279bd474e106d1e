-- ===== src/Integer/Tests.antt =====
-- Literals that compiler/integer.c converts, and the theorems about it applied to some of them.
use n.Prelude.{◌≡◌, refl, List, [], ◌∷◌, codes, replicate, arith, ℕ, str_eq}
use n.Integer.{
  negate_be_loop, negate_be_int, bad_digit, too_big, ok, err, c2n, scale_add, store_carry,
  digit_round, digit_loop, make_le_helper, make_le_decimal, has_prefix, skip, first, make_le_int,
  negate_loop, negate_le_int, swap_loop, make_be_int, parse_int,
}
use n.Integer.Numeral.{literal}
use n.Integer.Literal.{Makes, make_le_int-Makes}
use n.Integer.Sign.{Reads, parse_int-Reads}

program : Unit {0}
unfolding str_eq c2n scale_add store_carry digit_round digit_loop make_le_helper make_le_decimal
    has_prefix skip first make_le_int negate_loop negate_le_int swap_loop make_be_int parse_int
    negate_be_loop negate_be_int
program = tt

decimal : make_le_int (codes "300") 4 ≡ ok (2, 44 ∷ 1 ∷ 0 ∷ 0 ∷ [])
unfolding program
decimal = refl

hexadecimal : make_le_int (codes "0xBEEF") 2 ≡ ok (2, 0xef ∷ 0xbe ∷ [])
unfolding program
hexadecimal = refl

big_endian : make_be_int (codes "0x12345") 4 ≡ ok (3, 0 ∷ 1 ∷ 0x23 ∷ 0x45 ∷ [])
unfolding program
big_endian = refl

octal_digit : make_le_int (codes "089") 2 ≡ err (bad_digit b'8')
unfolding program
octal_digit = refl

overflow : make_le_int (codes "65536") 2 ≡ err too_big
unfolding program
overflow = refl

minus_two : parse_int (codes "-2") ≡ ok (0xfe ∷ replicate 7 0xff)
unfolding program
minus_two = refl

big_endian_minus : negate_be_int (1 ∷ 0 ∷ 0 ∷ []) ≡ 0xff ∷ 0 ∷ 0 ∷ []
unfolding program
big_endian_minus = refl

make_le_int-Makes_example : Makes 2 (literal (codes "0x1F4")) (make_le_int (codes "0x1F4") 2)
make_le_int-Makes_example = make_le_int-Makes 2 (omega arith) (codes "0x1F4")

abbrev three_bytes : List ℕ
three_bytes = 0 ∷ 1 ∷ 7 ∷ []

parse_int-Reads_example : Reads (codes "-300") (parse_int (codes "-300"))
parse_int-Reads_example = parse_int-Reads (codes "-300")
