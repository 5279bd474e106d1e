-- ===== src/Prelude/Int.antt =====
-- Signed integers over the native numbers, and a C `long` of 64 bits.
use Prim.Native.Nat.{ℕ, suc, ◌+◌, ◌-◌, ◌*◌, ◌/◌, ◌%◌, ◌^◌, ◌<◌}
use mathlib.Core.Path.{◌≡◌}
use mathlib.Core.Bool.{Bool, ◌&&◌}
use native.Mathlib.Omega.{arith}
use n.Prelude.Tests.{ltb, leb, if◌then◌else◌}

-- `negsuc n` is -(n + 1).
pub data ℤ : Type 0 where
  pos : ℕ → ℤ
  negsuc : ℕ → ℤ

abbrev pub pos_part : ℤ → ℕ
pos_part (pos n) = n
pos_part (negsuc n) = 0

abbrev pub neg_part : ℤ → ℕ
neg_part (pos n) = 0
neg_part (negsuc n) = suc n

-- a - b, as an integer.
abbrev pub sub_ℕ : ℕ → ℕ → ℤ
sub_ℕ a b = if leb b a then pos (a - b) else negsuc (b - a - 1)

infixl 65 ◌+ℤ◌ ◌-ℤ◌
infixl 70 ◌*ℤ◌
unfoldable pub ◌+ℤ◌ : ℤ → ℤ → ℤ
a +ℤ b = sub_ℕ (pos_part a + pos_part b) (neg_part a + neg_part b)

unfoldable pub ◌-ℤ◌ : ℤ → ℤ → ℤ
a -ℤ b = sub_ℕ (pos_part a + neg_part b) (neg_part a + pos_part b)

unfoldable pub ◌*ℤ◌ : ℤ → ℤ → ℤ
a *ℤ b =
    sub_ℕ (pos_part a * pos_part b + neg_part a * neg_part b)
      (pos_part a * neg_part b + neg_part a * pos_part b)

-- The quotient rounds towards 0, as in C.
unfoldable pub quot_ℤ : ℤ → ℤ → ℤ
quot_ℤ (pos a) (pos b) = pos (a / b)
quot_ℤ (pos a) (negsuc b) = sub_ℕ 0 (a / suc b)
quot_ℤ (negsuc a) (pos b) = sub_ℕ 0 (suc a / b)
quot_ℤ (negsuc a) (negsuc b) = pos (suc a / suc b)

abbrev pub leb_ℤ : ℤ → ℤ → Bool
leb_ℤ a b = leb (pos_part a + neg_part b) (pos_part b + neg_part a)

-- The values of a `long`.
unfoldable pub in_long : ℤ → Bool
in_long z = ltb (pos_part z) (2 ^ 63) && leb (neg_part z) (2 ^ 63)

-- `v & 0xFF` and `v & 0xFFFF` in two's complement.
unfoldable pub low_byte : ℤ → ℕ
low_byte (pos m) = m % 256
low_byte (negsuc m) = 255 - m % 256

unfoldable pub low_word : ℤ → ℕ
low_word (pos m) = m % 65536
low_word (negsuc m) = 65535 - m % 65536

-- `v >> 8`, which keeps the sign.
unfoldable pub shr8 : ℤ → ℤ
shr8 (pos m) = pos (m / 256)
shr8 (negsuc m) = negsuc (m / 256)

-- The two bytes make the word.
pub low_word_bytes : (v : ℤ) → low_byte v + 256 * low_byte (shr8 v) ≡ low_word v
unfolding low_byte low_word shr8
low_word_bytes (pos m) = omega arith
low_word_bytes (negsuc m) = omega arith

pub low_byte-lt : (v : ℤ) → low_byte v < 256
unfolding low_byte
low_byte-lt (pos m) = omega arith
low_byte-lt (negsuc m) = omega arith

pub low_word-mod : (v : ℤ) → low_word v % 256 ≡ low_byte v
unfolding low_byte low_word
low_word-mod (pos m) = omega arith
low_word-mod (negsuc m) = omega arith

pub low_word-div : (v : ℤ) → low_word v / 256 ≡ low_byte (shr8 v)
unfolding low_byte low_word shr8
low_word-div (pos m) = omega arith
low_word-div (negsuc m) = omega arith

pub low_byte_byte : (b : ℕ) → b < 256 → low_byte (pos b) ≡ b
unfolding low_byte
low_byte_byte b h = omega arith

pub low_byte-word : (v : ℤ) → low_byte (pos (low_byte v)) ≡ low_byte v
unfolding low_byte
low_byte-word (pos m) = omega arith
low_byte-word (negsuc m) = omega arith
