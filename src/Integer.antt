-- ===== src/Integer.antt =====
-- compiler/integer.c: the bytes of an integer literal. `target` is the list of its `size` bytes,
-- and a call of `error_user`, which does not return, is `err`.
pub mod Numeral
pub mod Value
pub mod Literal
pub mod Sign
mod Tests
use n.Prelude.{
  ℕ, zero, suc, ◌+◌, ◌-◌, ◌*◌, ◌/◌, ◌%◌, ◌^◌, Bool, true, false, ◌&&◌, ◌||◌, Option, none, some,
  List, [], ◌∷◌, ltb, leb, ◌==◌, if◌then◌else◌, length, set, get_or, replicate, codes, str_eq,
}
use Prim.Native.Nat.{bit_xor}

pub data Error : Type 0 where
  bad_digit : ℕ → Error
  too_big : Error

pub data Result {ℓ} (A : Type ℓ) : Type ℓ where
  ok : A → Result A
  err : Error → Result A

infixl 5 ◌>>=◌
abbrev pub ◌>>=◌ {ℓ κ} : {A : Type ℓ} {B : Type κ} → Result A → (A → Result B) → Result B
ok a >>= f = f a
err e >>= f = err e

-- `none` is the -1 that `c2n` returns for what is no digit.
pub c2n : ℕ → Option ℕ
c2n c =
    if leb b'0' c && leb c b'9'
    then some (c - b'0')
    else if leb b'A' c && leb c b'F'
    then some (c - b'A' + 10)
    else if leb b'a' c && leb c b'f'
    then some (c - b'a' + 10)
    else none

-- The inner `for` loop over the first `max` bytes: the bytes that it writes, and the last carry.
pub scale_add : ℕ → ℕ → ℕ → List ℕ → List ℕ × ℕ
scale_add zero radix carry target = (target, carry)
scale_add (suc max) radix carry [] = ([], carry)
scale_add (suc max) radix carry (b ∷ target) =
    let r = scale_add max radix ((b * radix + carry) / 256) target in
    ((b * radix + carry) % 256 ∷ r.0, r.1)

-- `if (carry) { … target[max++] = carry; }`
pub store_carry : ℕ → List ℕ × ℕ → Result (ℕ × List ℕ)
store_carry max (target, carry) =
    if carry == 0
    then ok (max, target)
    else if leb (length target) max
    then err too_big
    else ok (max + 1, set target max (carry % 256))

-- One round of the `while` loop, on the digit character `c`. `make_le_helper` multiplies by a
-- shift of `bpc` bits, which is the radix `2 ^ bpc`; `make_le_decimal` by ten.
pub digit_round : ℕ → ℕ → ℕ × List ℕ → Result (ℕ × List ℕ)
digit_round radix c (max, target) = elim (c2n c) [
  | none ↦ err (bad_digit c)
  | some d ↦
      if leb radix d then err (bad_digit c) else store_carry max (scale_add max radix d target)
]

pub digit_loop : ℕ → List ℕ → ℕ × List ℕ → Result (ℕ × List ℕ)
digit_loop radix [] s = ok s
digit_loop radix (c ∷ p) s = digit_round radix c s >>= digit_loop radix p

-- The result is `max`, with the bytes that `target` then holds.
pub make_le_helper : ℕ → List ℕ → List ℕ → Result (ℕ × List ℕ)
make_le_helper bpc p target = digit_loop (2 ^ bpc) p (1, target)

abbrev pub make_le_binary : List ℕ → List ℕ → Result (ℕ × List ℕ)
make_le_binary p target = make_le_helper 1 p target

abbrev pub make_le_hex : List ℕ → List ℕ → Result (ℕ × List ℕ)
make_le_hex p target = make_le_helper 4 p target

abbrev pub make_le_octal : List ℕ → List ℕ → Result (ℕ × List ℕ)
make_le_octal p target = make_le_helper 3 p target

pub make_le_decimal : List ℕ → List ℕ → Result (ℕ × List ℕ)
make_le_decimal p target = digit_loop 10 p (1, target)

-- `strncasecmp(p, "0x", 2) == 0` and its like, for a prefix `0` and the letter `x`; and the
-- string behind the prefix.
pub has_prefix : ℕ → ℕ → List ℕ → Bool
has_prefix lower upper [] = false
has_prefix lower upper (a ∷ []) = false
has_prefix lower upper (a ∷ x ∷ p) = (a == b'0') && ((x == lower) || (x == upper))

pub skip : ℕ → List ℕ → List ℕ
skip zero p = p
skip (suc n) [] = []
skip (suc n) (c ∷ p) = skip n p

-- The byte that `*p` reads: the NUL at the end.
pub first : List ℕ → ℕ
first [] = 0
first (c ∷ p) = c

pub make_le_int : List ℕ → ℕ → Result (ℕ × List ℕ)
make_le_int p size =
    let target = replicate size 0 in
    if str_eq p (codes "0") || str_eq p (codes "false")
    then ok (1, target)
    else if str_eq p (codes "true")
    then ok (1, set target 0 1)
    else if has_prefix b'b' b'B' p
    then make_le_binary (skip 2 p) target
    else if has_prefix b'x' b'X' p
    then make_le_hex (skip 2 p) target
    else if first p == b'0'
    then make_le_octal (skip 1 p) target
    else make_le_decimal p target

-- `carry = (target[i] ^ 0xFF) + carry; target[i] = carry; carry >>= 8;` from the low byte on.
pub negate_loop : ℕ → List ℕ → List ℕ
negate_loop carry [] = []
negate_loop carry (b ∷ target) =
    let sum = bit_xor b 0xff + carry in sum % 256 ∷ negate_loop (sum / 256) target

pub negate_le_int : List ℕ → List ℕ
negate_le_int target = negate_loop 1 target

-- The same from the high end: the bytes, and the carry out of them.
pub negate_be_loop : List ℕ → List ℕ × ℕ
negate_be_loop [] = ([], 1)
negate_be_loop (b ∷ target) =
    let r = negate_be_loop target in let sum = bit_xor b 0xff + r.1 in (sum % 256 ∷ r.0, sum / 256)

pub negate_be_int : List ℕ → List ℕ
negate_be_int target = (negate_be_loop target).0

-- The exchange of `target[i]` and `target[size - 1 - i]` for `rounds` values of `i` from `i` on.
pub swap_loop : ℕ → ℕ → List ℕ → List ℕ
swap_loop zero i target = target
swap_loop (suc rounds) i target =
    let j = length target - 1 - i in
    swap_loop rounds (i + 1) (set (set target i (get_or target j 0)) j (get_or target i 0))

pub make_be_int : List ℕ → ℕ → Result (ℕ × List ℕ)
make_be_int p size = make_le_int p size >>= λ r. ok (r.0, swap_loop (size / 2) 0 r.1)

-- `parse_int` on a little-endian host: the eight bytes of the `long long`.
pub parse_int : List ℕ → Result (List ℕ)
parse_int p =
    if first p == b'-'
    then make_le_int (skip 1 p) 8 >>= (λ r. ok (negate_le_int r.1))
    else make_le_int p 8 >>= (λ r. ok r.1)
