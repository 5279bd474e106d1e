-- ===== src/Integer/Value.antt =====
-- What the digit loops of compiler/integer.c compute.
use n.Prelude.{
  ℕ, zero, suc, ◌+◌, ◌-◌, ◌*◌, ◌/◌, ◌%◌, ◌^◌, ◌<◌, ◌≤◌, ◌≡◌, refl, sym, ap, ◌∙◌, ◌⊎◌, inl, inr,
  none, some, List, [], ◌∷◌, length, set, drop, length-set, arith, Option-cases,
}
use n.Digits.{value, AreDigits, pow_mul_suc, value-set}
use n.Integer.{
  bad_digit, too_big, Result, ok, err, ◌>>=◌, c2n, scale_add, store_carry, digit_round, digit_loop,
}
use n.Integer.Numeral.{digit_of, numeral, c2n-digit_of}
use native.Mathlib.Nat.{
  eq-zero-or-pos, pow-zero, div-lt_iff_lt-mul, pow-le-pow_right, le-mul_of_pos_right,
  add-sub_cancel, mod-eq_of_lt,
}
use native.Mathlib.Decide.{dec_lt}
use native.Mathlib.Numerals.{add-one}

pub length-scale_add :
    (k radix carry : ℕ) (t : List ℕ) → length (scale_add k radix carry t).0 ≡ length t
unfolding scale_add
length-scale_add zero radix carry t = refl
length-scale_add (suc k) radix carry [] = refl
length-scale_add (suc k) radix carry (b ∷ t) = ap suc (length-scale_add k radix _ t)

pub drop-scale_add :
    (k radix carry : ℕ) (t : List ℕ) → drop k (scale_add k radix carry t).0 ≡ drop k t
unfolding scale_add
drop-scale_add zero radix carry t = refl
drop-scale_add (suc k) radix carry [] = refl
drop-scale_add (suc k) radix carry (b ∷ t) = drop-scale_add k radix _ t

pub scale_add-AreDigits :
    (k radix carry : ℕ) (t : List ℕ) → AreDigits 256 t → AreDigits 256 (scale_add k radix carry t).0
unfolding scale_add
scale_add-AreDigits zero radix carry t h = h
scale_add-AreDigits (suc k) radix carry [] h = h
scale_add-AreDigits (suc k) radix carry (b ∷ t) h =
    (omega arith, scale_add-AreDigits k radix _ t h.1)

-- The loop multiplies by the radix and adds the digit, with the carry out of byte `k`.
pub value-scale_add :
    (k radix carry : ℕ) (t : List ℕ)
    → k ≤ length t
    → value 256 (drop k t) ≡ 0
    → value 256 (scale_add k radix carry t).0 + 256 ^ k * (scale_add k radix carry t).1
      ≡ radix * value 256 t + carry
unfolding scale_add
value-scale_add zero radix carry t h z = rw (z, pow-zero) (omega arith)
value-scale_add (suc k) radix carry [] h z = elim h [ ]
value-scale_add (suc k) radix carry (b ∷ t) h z =
    rw (pow_mul_suc 256 k)
      (omega (arith, value-scale_add k radix ((b * radix + carry) / 256) t (omega arith) z))

-- The carry out of the loop is below the radix, as the digit that goes in is.
pub scale_add-carry-lt :
    (k radix carry : ℕ) (t : List ℕ)
    → AreDigits 256 t
    → carry < radix
    → (scale_add k radix carry t).1 < radix
unfolding scale_add
scale_add-carry-lt zero radix carry t h c = c
scale_add-carry-lt (suc k) radix carry [] h c = c
scale_add-carry-lt (suc k) radix carry (b ∷ t) h c =
    scale_add-carry-lt k radix _ t h.1
      ((div-lt_iff_lt-mul (omega arith)).1 (byte_step b radix carry h.0 c))
  where
    byte_step : (b r c : ℕ) → b < 256 → c < r → b * r + c < r * 256
    byte_step b r c hb hc = grind arith

drop-suc-set : (k x : ℕ) (t : List ℕ) → drop (suc k) (set t k x) ≡ drop (suc k) t
drop-suc-set k x [] = refl
drop-suc-set zero x (b ∷ t) = refl
drop-suc-set (suc k) x (b ∷ t) = drop-suc-set k x t

value-drop-suc : (k : ℕ) (t : List ℕ) → value 256 (drop k t) ≡ 0 → value 256 (drop (suc k) t) ≡ 0
value-drop-suc zero [] h = refl
value-drop-suc (suc k) [] h = refl
value-drop-suc zero (b ∷ t) h = omega arith
value-drop-suc (suc k) (b ∷ t) h = value-drop-suc k t h

set-AreDigits : (k x : ℕ) (t : List ℕ) → AreDigits 256 t → x < 256 → AreDigits 256 (set t k x)
set-AreDigits k x [] h hx = h
set-AreDigits zero x (b ∷ t) h hx = (hx, h.1)
set-AreDigits (suc k) x (b ∷ t) h hx = (h.0, set-AreDigits k x t h.1 hx)

-- The state of the `while` loop after digits that stand for `v`: the bytes from `max` on are zero,
-- and the last of the first `max` is not, unless it is the only one.
pub record Holds (size v : ℕ) (s : ℕ × List ℕ) : Type 0 where
  pub some_byte : 1 ≤ s.0
  pub within : s.0 ≤ length s.1
  pub width : length s.1 ≡ size
  pub bytes : AreDigits 256 s.1
  pub zeros : value 256 (drop s.0 s.1) ≡ 0
  pub meaning : value 256 s.1 ≡ v
  pub tight : (s.0 ≡ 1) ⊎ (256 ^ (s.0 - 1) ≤ v)

-- What one round may do with the number `v` that the digits then stand for.
abbrev Fate : ℕ → ℕ → Result (ℕ × List ℕ) → Type 0
Fate size v (ok s) = Holds size v s
Fate size v (err e) = (e ≡ too_big) × (256 ^ size ≤ v)

module _ (size v max carry : ℕ) (t : List ℕ) (low : 1 ≤ max) (within : max ≤ length t)
    (width : length t ≡ size) (bytes : AreDigits 256 t) (zeros : value 256 (drop max t) ≡ 0)
    (total : value 256 t + 256 ^ max * carry ≡ v) (small : carry < 256) where
  store_none : (max ≡ 1) ⊎ (256 ^ (max - 1) ≤ v) → carry ≡ 0 → Holds size v (max, t)
  store_none tight e = record {
    some_byte = low;
    within = within;
    width = width;
    bytes = bytes;
    zeros = zeros;
    meaning = total_low;
    tight = tight;
  }
    where
      total_low : value 256 t ≡ v
      total_low = omega (arith, ap (λ (c : ℕ). 256 ^ max * c) e)

  store_full : 0 < carry → size ≤ max → 256 ^ size ≤ v
  store_full pos full =
      omega
        (arith, pow-le-pow_right {n = 256} (omega arith) full, le-mul_of_pos_right (256 ^ max) pos)

  store_more : 0 < carry → max < size → Holds size v (max + 1, set t max (carry % 256))
  store_more pos room = record {
    some_byte = omega arith;
    within = rw length-set (omega arith);
    width = length-set t max _ ∙ width;
    bytes = set-AreDigits max _ t bytes (omega arith);
    zeros = rw (add-one, drop-suc-set) (value-drop-suc max t zeros);
    meaning = written;
    tight = inr (rw add-sub_cancel (omega (arith, le-mul_of_pos_right (256 ^ max) pos)));
  }
    where
      written : value 256 (set t max (carry % 256)) ≡ v
      written =
          rw (mod-eq_of_lt small, value-set 256 max carry t (omega arith) (omega arith) zeros) total

  store_carry_none : carry ≡ 0 → store_carry max (t, carry) ≡ ok (max, t)
  unfolding store_carry
  store_carry_none e = ground arith

  store_carry_full : 0 < carry → size ≤ max → store_carry max (t, carry) ≡ err too_big
  unfolding store_carry
  store_carry_full pos full = ground arith

  store_carry_more :
      0 < carry → max < size → store_carry max (t, carry) ≡ ok (max + 1, set t max (carry % 256))
  unfolding store_carry
  store_carry_more pos room = ground arith

  pub store-Fate : (max ≡ 1) ⊎ (256 ^ (max - 1) ≤ v) → Fate size v (store_carry max (t, carry))
  store-Fate tight = elim (eq-zero-or-pos carry) [
    | inl e ↦ rw (store_carry_none e) (store_none tight e)
    | inr pos ↦ elim (dec_lt max size) [
      | yes room ↦ rw (store_carry_more pos room) (store_more pos room)
      | no full ↦
          let full' : size ≤ max = omega arith in
          rw (store_carry_full pos full') (refl, store_full pos full')
    ]
  ]

-- The three outcomes of the loop, with what each says of the text.
abbrev pub Outcome : ℕ → ℕ → List ℕ → ℕ → Result (ℕ × List ℕ) → Type 0
Outcome size radix p v (ok s) = (n : ℕ) × (numeral radix p v ≡ some n) × Holds size n s
Outcome size radix p v (err (bad_digit c)) = numeral radix p v ≡ none
Outcome size radix p v (err too_big) = (n : ℕ) → numeral radix p v ≡ some n → 256 ^ size ≤ n

v-le-scaled : (v radix d : ℕ) → 1 ≤ radix → v ≤ v * radix + d
v-le-scaled v radix d pos = grind arith

numeral-le : (radix : ℕ) (p : List ℕ) (v n : ℕ) → 1 ≤ radix → numeral radix p v ≡ some n → v ≤ n
unfolding numeral
numeral-le radix [] v n pos e = ground arith
numeral-le radix (c ∷ p) v n pos e = elim (Option-cases (digit_of c)) [
  | inl q ↦ ground arith
  | inr (d, q) ↦ ground (arith, numeral-le radix p (v * radix + d) n, v-le-scaled v radix d pos)
]

store_carry-Fate :
    (size radix d v max : ℕ) (t : List ℕ)
    → Holds size v (max, t)
    → d < radix
    → radix ≤ 256
    → Fate size (v * radix + d) (store_carry max (scale_add max radix d t))
unfolding store_carry
store_carry-Fate size radix d v max t h hd hr =
    let t' : List ℕ = (scale_add max radix d t).0 in
    let carry : ℕ = (scale_add max radix d t).1 in
    let low = h.some_byte in
    let within : max ≤ length t' = rw length-scale_add h.within in
    let width : length t' ≡ size = length-scale_add max radix d t ∙ h.width in
    let bytes = scale_add-AreDigits max radix d t h.bytes in
    let zeros : value 256 (drop max t') ≡ 0 = rw drop-scale_add h.zeros in
    let total : value 256 t' + 256 ^ max * carry ≡ v * radix + d =
      value-scale_add max radix d t h.within h.zeros ∙ rw h.meaning (omega arith) in
    let small : carry < 256 = omega (arith, scale_add-carry-lt max radix d t h.bytes hd) in
    store-Fate size (v * radix + d) max carry t' low within width bytes zeros total small
      (tight h.tight)
  where
    tight : (max ≡ 1) ⊎ (256 ^ (max - 1) ≤ v) → (max ≡ 1) ⊎ (256 ^ (max - 1) ≤ v * radix + d)
    tight (inl e) = inl e
    tight (inr e) = inr (omega (arith, e, v-le-scaled v radix d (omega arith)))

module _ (radix c max : ℕ) (t : List ℕ) where
  digit_round_bad : c2n c ≡ none → digit_round radix c (max, t) ≡ err (bad_digit c)
  unfolding digit_round
  digit_round_bad q = ground arith

  digit_round_big :
      (d : ℕ) → c2n c ≡ some d → radix ≤ d → digit_round radix c (max, t) ≡ err (bad_digit c)
  unfolding digit_round
  digit_round_big d q big = ground arith

  digit_round_digit :
      (d : ℕ)
      → c2n c ≡ some d
      → d < radix
      → digit_round radix c (max, t) ≡ store_carry max (scale_add max radix d t)
  unfolding digit_round
  digit_round_digit d q small = ground arith

module _ (radix c : ℕ) (p : List ℕ) (v : ℕ) where
  numeral_bad : c2n c ≡ none → numeral radix (c ∷ p) v ≡ none
  unfolding numeral
  numeral_bad q = let none_of = sym (c2n-digit_of c) ∙ q in ground arith

  numeral_big : (d : ℕ) → c2n c ≡ some d → radix ≤ d → numeral radix (c ∷ p) v ≡ none
  unfolding numeral
  numeral_big d q big = let some_of = sym (c2n-digit_of c) ∙ q in ground arith

  numeral_digit :
      (d : ℕ)
      → c2n c ≡ some d
      → d < radix
      → numeral radix (c ∷ p) v ≡ numeral radix p (v * radix + d)
  unfolding numeral
  numeral_digit d q small = let some_of = sym (c2n-digit_of c) ∙ q in ground arith

-- The outcome of the loop passes through a round that reads a digit.
Outcome-digit :
    (size radix c d : ℕ) (p : List ℕ) (v : ℕ) (r : Result (ℕ × List ℕ))
    → c2n c ≡ some d
    → d < radix
    → Outcome size radix p (v * radix + d) r
    → Outcome size radix (c ∷ p) v r
Outcome-digit size radix c d p v (ok s) q small o = rw (numeral_digit radix c p v d q small) o
Outcome-digit size radix c d p v (err (bad_digit x)) q small o =
    rw (numeral_digit radix c p v d q small) o
Outcome-digit size radix c d p v (err too_big) q small o =
    rw (numeral_digit radix c p v d q small) o

Outcome-bind :
    (size radix : ℕ) (p : List ℕ) (w : ℕ) (r : Result (ℕ × List ℕ))
    → 1 ≤ radix
    → Fate size w r
    → ((s : ℕ × List ℕ) → Holds size w s → Outcome size radix p w (digit_loop radix p s))
    → Outcome size radix p w (r >>= digit_loop radix p)
Outcome-bind size radix p w (ok s) pos f ih = ih s f
Outcome-bind size radix p w (err (bad_digit x)) pos f ih = cc (f.0)
Outcome-bind size radix p w (err too_big) pos f ih =
    λ n e. omega (arith, f.1, numeral-le radix p w n pos e)

pub digit_loop-Outcome :
    (size radix : ℕ) (p : List ℕ) (v : ℕ) (s : ℕ × List ℕ)
    → 1 ≤ radix
    → radix ≤ 256
    → Holds size v s
    → Outcome size radix p v (digit_loop radix p s)
unfolding digit_loop
digit_loop-Outcome size radix [] v s pos hr h = unfold numeral in (v, refl, h)
digit_loop-Outcome size radix (c ∷ p) v (max, t) pos hr h = elim (Option-cases (c2n c)) [
  | inl q ↦ rw (digit_round_bad radix c max t q) (numeral_bad radix c p v q)
  | inr (d, q) ↦ elim (dec_lt d radix) [
    | no big ↦
        let big' : radix ≤ d = omega arith in
        rw (digit_round_big radix c max t d q big') (numeral_big radix c p v d q big')
    | yes small ↦ rw (digit_round_digit radix c max t d q small) (
        Outcome-digit size radix c d p v _ q small (
          Outcome-bind size radix p (v * radix + d) _ pos
            (store_carry-Fate size radix d v max t h small hr)
            (λ s' h'. digit_loop-Outcome size radix p (v * radix + d) s' pos hr h')))
  ]
]
