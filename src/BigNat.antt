-- ===== src/BigNat.antt =====
-- compiler/float_bignat.c: natural numbers as lists of 32-bit words, the lowest first. The list is
-- `words` up to `len`; what lies between `len` and `cap` is never read. `error_user` and
-- `error_unreachable` do not return: `none`. The limits of memory, which `bn_reserve` reports as
-- errors, are not modelled.
pub mod Normal
pub mod Carry
pub mod Small
pub mod Shift
pub mod Order
pub mod Subtract
pub mod Bits
pub mod Divide
pub mod Round
mod Tests
use Prim.Native.Nat.{bit_or, compare, Ordering}
use n.Prelude.{
  ℕ, zero, suc, ◌+◌, ◌-◌, ◌*◌, ◌/◌, ◌%◌, ◌^◌, Bool, true, false, ◌&&◌, ◌||◌, Option, none, some,
  List, [], ◌∷◌, ◌++◌, ltb, leb, ◌==◌, if◌then◌else◌, length, get_or, set, replicate,
}

-- FLOAT_BIGNAT_WORD_BITS
abbrev pub word_bits : ℕ
word_bits = 32

-- The number of values of a word.
abbrev pub word : ℕ
word = 2 ^ word_bits

-- INT_MAX
abbrev pub int_max : ℕ
int_max = 2 ^ 31 - 1

infixl 5 ◌>>=◌
abbrev pub ◌>>=◌ {ℓ κ} : {A : Type ℓ} {B : Type κ} → Option A → (A → Option B) → Option B
none >>= f = none
some a >>= f = f a

-- The loop that drops zeros from the high end.
unfoldable pub bn_normalize : List ℕ → List ℕ
bn_normalize [] = []
bn_normalize (w ∷ ws) = elim (bn_normalize ws) [
  | [] ↦ if w == 0 then [] else w ∷ []
  | x ∷ xs ↦ w ∷ x ∷ xs
]

unfoldable pub bn_from_u32 : ℕ → List ℕ
bn_from_u32 value = if value == 0 then [] else value ∷ []

unfoldable pub bn_is_zero : List ℕ → Bool
bn_is_zero [] = true
bn_is_zero (w ∷ ws) = false

-- `if (carry) words[len++] = (uint32_t) carry;`
unfoldable pub push_carry : ℕ → List ℕ
push_carry carry = if carry == 0 then [] else (carry % word) ∷ []

-- The loop of `bn_mul_small`, on a `uint64_t cur`.
unfoldable pub mul_loop : ℕ → ℕ → List ℕ → List ℕ
mul_loop mul carry [] = push_carry carry
mul_loop mul carry (w ∷ ws) =
    let cur = (w * mul + carry) % 2 ^ 64 in cur % word ∷ mul_loop mul (cur / word) ws

unfoldable pub bn_mul_small : List ℕ → ℕ → List ℕ
bn_mul_small bn mul =
    if mul == 1 || bn_is_zero bn then bn else if mul == 0 then [] else mul_loop mul 0 bn

-- The loop of `bn_add_small`, which ends when there is no carry.
unfoldable pub add_loop : ℕ → List ℕ → List ℕ
add_loop carry [] = push_carry carry
add_loop carry (w ∷ ws) =
    let rest = add_loop ((w + carry) / word) ws in
    if carry == 0 then w ∷ ws else (w + carry) % word ∷ rest

unfoldable pub bn_add_small : List ℕ → ℕ → List ℕ
bn_add_small bn add =
    if add == 0 then bn else if bn_is_zero bn then bn_from_u32 add else add_loop add bn

-- `(rem << 32) | w`, on a `uint64_t rem`. Here and below the parts that `|` joins do not overlap, and
-- it is written as a sum.
unfoldable pub join : ℕ → ℕ → ℕ
join rem w = rem * word % 2 ^ 64 + w

-- The loop of `bn_mod_small`, from the high end.
unfoldable pub mod_loop : ℕ → List ℕ → ℕ
mod_loop div [] = 0
mod_loop div (w ∷ ws) = join (mod_loop div ws) w % div

unfoldable pub bn_mod_small : List ℕ → ℕ → Option ℕ
bn_mod_small bn div = if div == 0 then none else some (mod_loop div bn % word)

-- The loop of `bn_div_small`: the words that it writes, and `rem`.
unfoldable pub div_loop : ℕ → List ℕ → List ℕ × ℕ
div_loop div [] = ([], 0)
div_loop div (w ∷ ws) =
    let (qs, rem) = div_loop div ws in (join rem w / div % word ∷ qs, join rem w % div)

unfoldable pub bn_div_small : List ℕ → ℕ → Option (List ℕ × ℕ)
bn_div_small bn div =
    if div == 0 then none else some (bn_normalize (div_loop div bn).0, (div_loop div bn).1 % word)

unfoldable pub bn_mul_pow5 : List ℕ → ℕ → List ℕ
bn_mul_pow5 bn zero = bn
bn_mul_pow5 bn (suc exp) = bn_mul_pow5 (bn_mul_small bn 5) exp

-- The loop of `bn_shift_left_bits` over the words that were there, by less than 32 bits.
unfoldable pub shift_loop : ℕ → ℕ → List ℕ → List ℕ
shift_loop bits carry [] = push_carry carry
shift_loop bits carry (w ∷ ws) =
    let cur = w * 2 ^ bits % 2 ^ 64 + carry in cur % word ∷ shift_loop bits (cur / word % word) ws

-- For a shift that is not negative; a negative one does nothing.
unfoldable pub bn_shift_left_bits : List ℕ → ℕ → Option (List ℕ)
bn_shift_left_bits bn shift =
    if shift == 0 || bn_is_zero bn
    then some bn
    else if ltb (int_max / 2) shift
    then none
    else some (
        replicate (shift / word_bits) 0
        ++ (if shift % word_bits == 0 then bn else shift_loop (shift % word_bits) 0 bn))

-- The loop of `bn_shift_right_one`, from the high end: the words and the last carry.
unfoldable pub right_loop : List ℕ → List ℕ × ℕ
right_loop [] = ([], 0)
right_loop (w ∷ ws) = let (qs, carry) = right_loop ws in ((w / 2 + carry) ∷ qs, w % 2 * 2 ^ 31)

unfoldable pub bn_shift_right_one : List ℕ → List ℕ
bn_shift_right_one bn = if bn_is_zero bn then bn else bn_normalize (right_loop bn).0

-- `while (top) { bits++; top >>= 1; }`: 32 rounds are enough for a word.
unfoldable pub top_bits : ℕ → ℕ → ℕ
top_bits zero top = 0
top_bits (suc fuel) top = let more = top_bits fuel (top / 2) + 1 in if top == 0 then 0 else more

unfoldable pub bn_bit_length : List ℕ → ℕ
bn_bit_length [] = 0
bn_bit_length (w ∷ []) = top_bits 32 w
bn_bit_length (w ∷ x ∷ ws) = word_bits + bn_bit_length (x ∷ ws)

-- The loop of `bn_cmp`, from the high end, on two numbers of one length.
unfoldable pub cmp_loop : List ℕ → List ℕ → Ordering
cmp_loop [] b = Ordering.eq
cmp_loop (x ∷ a) [] = Ordering.eq
cmp_loop (x ∷ a) (y ∷ b) = elim (cmp_loop a b) [
  | Ordering.lt ↦ Ordering.lt
  | Ordering.eq ↦ compare x y
  | Ordering.gt ↦ Ordering.gt
]

unfoldable pub bn_cmp : List ℕ → List ℕ → Ordering
bn_cmp a b = elim (compare (length a) (length b)) [
  | Ordering.lt ↦ Ordering.lt
  | Ordering.eq ↦ cmp_loop a b
  | Ordering.gt ↦ Ordering.gt
]

unfoldable pub bn_cmp_shifted : List ℕ → List ℕ → ℕ → Option Ordering
bn_cmp_shifted a b shift_bits = bn_shift_left_bits b shift_bits >>= λ tmp. some (bn_cmp a tmp)

-- One word of a subtraction: what is written, and the borrow.
unfoldable pub sub_word : ℕ → ℕ → ℕ × ℕ
sub_word av sub = if ltb av sub then (word + av - sub, 1) else (av - sub, 0)

-- The loop of `bn_sub_inplace`: the words and the last borrow.
unfoldable pub sub_loop : ℕ → List ℕ → List ℕ → List ℕ × ℕ
sub_loop borrow [] b = ([], borrow)
sub_loop borrow (x ∷ a) [] =
    let (low, next) = sub_word x borrow in
    let (rest, last) = sub_loop next a [] in (low ∷ rest, last)
sub_loop borrow (x ∷ a) (y ∷ b) =
    let (low, next) = sub_word x (y + borrow) in
    let (rest, last) = sub_loop next a b in (low ∷ rest, last)

unfoldable pub bn_sub_inplace : List ℕ → List ℕ → Option (List ℕ)
bn_sub_inplace a b = elim (bn_cmp a b) [
  | Ordering.lt ↦ none
  | _ ↦ if (sub_loop 0 a b).1 == 0 then some (bn_normalize (sub_loop 0 a b).0) else none
]

-- The words with zeros behind them up to `count` of them.
unfoldable pub extend : List ℕ → ℕ → List ℕ
extend bn count = bn ++ replicate (count - length bn) 0

-- For an index that is not negative.
unfoldable pub bn_set_bit : List ℕ → ℕ → Option (List ℕ)
bn_set_bit bn bit_index =
    let index = bit_index / word_bits in
    let words = extend bn (index + 1) in
    if ltb (int_max / 2) bit_index
    then none
    else some (set words index (bit_or (get_or words index 0) (2 ^ (bit_index % word_bits))))

unfoldable pub bn_test_bit : List ℕ → ℕ → ℕ
bn_test_bit bn bit_index =
    if leb (length bn) (bit_index / word_bits)
    then 0
    else get_or bn (bit_index / word_bits) 0 / 2 ^ (bit_index % word_bits) % 2

unfoldable pub bn_is_odd : List ℕ → Bool
bn_is_odd [] = false
bn_is_odd (w ∷ ws) = w % 2 == 1

-- The loop of `bn_divmod` for `i` from `rounds - 1` down to 0: the quotient and the remainder.
unfoldable pub divmod_loop : ℕ → List ℕ → List ℕ → List ℕ → Option (List ℕ × List ℕ)
divmod_loop zero shifted quotient remainder = some (quotient, remainder)
divmod_loop (suc i) shifted quotient remainder = elim (bn_cmp remainder shifted) [
  | Ordering.lt ↦ divmod_loop i (bn_shift_right_one shifted) quotient remainder
  | _ ↦ bn_sub_inplace remainder shifted >>= λ remainder'. bn_set_bit quotient i >>= λ quotient'.
      divmod_loop i (bn_shift_right_one shifted) quotient' remainder'
]

unfoldable pub bn_divmod : List ℕ → List ℕ → Option (List ℕ × List ℕ)
bn_divmod numerator denominator =
    let shift = bn_bit_length numerator - bn_bit_length denominator in
    let long = bn_shift_left_bits denominator shift >>= λ shifted.
    divmod_loop (shift + 1) shifted [] numerator in
    if bn_is_zero denominator
    then none
    else elim (bn_cmp numerator denominator) [ Ordering.lt ↦ some ([], numerator) | _ ↦ long ]

-- The end of `bn_round_ratio_shift`, behind the division.
unfoldable pub round_up_tie : List ℕ → List ℕ → List ℕ → Option (List ℕ)
round_up_tie den out rem = bn_shift_left_bits rem 1 >>= λ twice. elim (bn_cmp twice den) [
  | Ordering.lt ↦ some out
  | Ordering.eq ↦ some (if bn_is_odd out then bn_add_small out 1 else out)
  | Ordering.gt ↦ some (bn_add_small out 1)
]

-- The shift is `left - right`: one of the two is 0.
unfoldable pub bn_round_ratio_shift : List ℕ → List ℕ → ℕ → ℕ → Option (List ℕ)
bn_round_ratio_shift numerator denominator left right = bn_shift_left_bits numerator left >>= λ num.
    bn_shift_left_bits denominator right >>= λ den.
    bn_divmod num den >>= λ qr. round_up_tie den qr.0 qr.1
