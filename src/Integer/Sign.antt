-- ===== src/Integer/Sign.antt =====
-- Negation and byte order in compiler/integer.c.
use Prim.Native.Nat.{bit_xor}
use n.Prelude.{
  ℕ, zero, suc, ◌+◌, ◌-◌, ◌/◌, ◌%◌, ◌^◌, ◌<◌, ◌≤◌, ◌≡◌, refl, ap, ◌⊎◌, inl, inr, true, false, none,
  some, List, [], ◌∷◌, ◌==◌, ==_iff, if◌then◌else◌, length, arith, all_below, all_below_sound,
  Bool-cases, ◌∙◌,
}
use n.Digits.{value, AreDigits, value-lt-pow}
use n.Integer.{
  bad_digit, too_big, Result, ok, err, ◌>>=◌, negate_loop, negate_le_int, first, skip, parse_int,
}
use n.Integer.Value.{Holds}
use n.Integer.Numeral.{literal}
use n.Integer.Literal.{make_le_int-Makes, Makes}
use native.Mathlib.Nat.{pow-succ', mod-eq_of_lt, mod_self, sub-zero}

flip_table : all_below 256 (λ b. bit_xor b 0xff == 255 - b) ≡ true
unfolding all_below
flip_table = refl

bit_xor-ff : (b : ℕ) → b < 256 → bit_xor b 0xff ≡ 255 - b
bit_xor-ff b h = (==_iff _ _).0 (all_below_sound 256 _ b flip_table h)

-- Two's complement, with the carry that goes in.
negate_loop_sum :
    (c : ℕ) (t : List ℕ)
    → c ≤ 1
    → AreDigits 256 t
    → (value 256 t + value 256 (negate_loop c t) + 1 ≡ 256 ^ length t + c)
      ⊎ ((c ≡ 1) × (value 256 t ≡ 0) × (value 256 (negate_loop c t) ≡ 0))
unfolding negate_loop
negate_loop_sum zero [] hc h = inl refl
negate_loop_sum (suc c) [] hc h = inr (omega arith)
negate_loop_sum c (b ∷ t) hc h = rw (bit_xor-ff b h.0) (
    ground (
      arith,
      h.0,
      pow-succ' 256 (length t),
      negate_loop_sum ((255 - b + c) / 256) t (omega (arith, h.0)) h.1,
    ))

length-negate_loop : (c : ℕ) (t : List ℕ) → length (negate_loop c t) ≡ length t
unfolding negate_loop
length-negate_loop c [] = refl
length-negate_loop c (b ∷ t) = ap suc (length-negate_loop ((bit_xor b 0xff + c) / 256) t)

negate_loop-AreDigits : (c : ℕ) (t : List ℕ) → AreDigits 256 (negate_loop c t)
unfolding negate_loop
negate_loop-AreDigits c [] = tt
negate_loop-AreDigits c (b ∷ t) =
    (omega arith, negate_loop-AreDigits ((bit_xor b 0xff + c) / 256) t)

opposite : (p v w : ℕ) → v < p → w < p → (v + w + 1 ≡ p + 1) ⊎ ((v ≡ 0) × (w ≡ 0)) → w ≡ (p - v) % p
opposite p v w hv hw (inl e) = omega (arith, mod-eq_of_lt {n = p - v} {m = p} (omega arith))
opposite p v w hv hw (inr (e, f)) = rw (e, f, sub-zero, mod_self)

-- `negate_le_int` forms the two's complement: the bytes of minus the number, modulo 256 ^ size.
pub value-negate_le_int :
    (t : List ℕ)
    → AreDigits 256 t
    → value 256 (negate_le_int t) ≡ (256 ^ length t - value 256 t) % 256 ^ length t
unfolding negate_le_int
value-negate_le_int t h =
    opposite (256 ^ length t) (value 256 t) _ (value-lt-pow 256 t h)
      (rw (length-negate_loop 1 t) at
        (value-lt-pow 256 (negate_loop 1 t) (negate_loop-AreDigits 1 t)))
      (sides (negate_loop_sum 1 t (omega arith) h))
  where
    sides :
        (value 256 t + value 256 (negate_loop 1 t) + 1 ≡ 256 ^ length t + 1)
          ⊎ ((◌≡◌ {A = ℕ} 1 1) × (value 256 t ≡ 0) × (value 256 (negate_loop 1 t) ≡ 0))
        → (value 256 t + value 256 (negate_loop 1 t) + 1 ≡ 256 ^ length t + 1)
          ⊎ ((value 256 t ≡ 0) × (value 256 (negate_loop 1 t) ≡ 0))
    sides (inl e) = inl e
    sides (inr e) = inr (e.1, e.2)

-- The text behind a minus sign, and the sign's effect on a 64-bit number.
abbrev pub unsigned : List ℕ → List ℕ
unsigned p = if first p == b'-' then skip 1 p else p

abbrev pub signed_64 : List ℕ → ℕ → ℕ
signed_64 p m = if first p == b'-' then (2 ^ 64 - m) % 2 ^ 64 else m

abbrev pub Reads : List ℕ → Result (List ℕ) → Type 0
Reads p (ok t) =
    (m : ℕ) × (literal (unsigned p) ≡ some m)
    × (m < 2 ^ 64)
    × (length t ≡ 8)
    × (value 256 t ≡ signed_64 p m)
Reads p (err (bad_digit c)) = literal (unsigned p) ≡ none
Reads p (err too_big) = (m : ℕ) → literal (unsigned p) ≡ some m → 2 ^ 64 ≤ m

Holds-bound : {m : ℕ} (s : ℕ × List ℕ) → Holds 8 m s → m < 2 ^ 64
Holds-bound (max, t) h = rw (h.meaning, h.width) at (value-lt-pow 256 t h.bytes)

module _ (p : List ℕ) where
  negated :
      (r : Result (ℕ × List ℕ))
      → (first p == b'-') ≡ true
      → Makes 8 (literal (skip 1 p)) r
      → Reads p (r >>= λ s. ok (negate_le_int s.1))
  negated (ok s) e (m, l, h) =
      rw e (m, l, Holds-bound s h, width, rw (value-negate_le_int s.1 h.bytes, h.meaning, h.width))
    where
      width : length (negate_le_int s.1) ≡ 8
      width = unfold negate_le_int in (length-negate_loop 1 s.1 ∙ h.width)
  negated (err (bad_digit c)) e o = rw e o
  negated (err too_big) e o = rw e o

  plain :
      (r : Result (ℕ × List ℕ))
      → (first p == b'-') ≡ false
      → Makes 8 (literal p) r
      → Reads p (r >>= λ s. ok s.1)
  plain (ok s) e (m, l, h) = rw e (m, l, Holds-bound s h, h.width, h.meaning)
  plain (err (bad_digit c)) e o = rw e o
  plain (err too_big) e o = rw e o

-- `parse_int` returns the 64-bit two's complement of the number that the literal denotes, minus
-- sign included, and refuses the text exactly when the literal behind the sign is malformed or
-- denotes 2 ^ 64 or more.
pub parse_int-Reads : (p : List ℕ) → Reads p (parse_int p)
unfolding parse_int
parse_int-Reads p = elim (Bool-cases (first p == b'-')) [
  | inl e ↦ rw e (negated p _ e (make_le_int-Makes 8 (omega arith) (skip 1 p)))
  | inr e ↦ rw e (plain p _ e (make_le_int-Makes 8 (omega arith) p))
]
