-- ===== src/Linker/Image/Checksum.antt =====
-- The text of one Intel HEX record.
use n.Prelude.{
  ℕ, ◌+◌, ◌-◌, ◌/◌, ◌%◌, ◌^◌, ◌≡◌, ◌<◌, refl, ap, List, [], ◌∷◌, ◌++◌, length, codes, arith,
}
use mathlib.Core.List.{append_assoc}
use n.Linker.Image.{
  sum_bytes, hex_checksum, subtract_all, hex_digit, hex2, hex4, hex_text, emit_hex_record,
}

unfoldable pub total : List ℕ → ℕ
total [] = 0
total (b ∷ bytes) = b + total bytes

-- The line of a record with these bytes, the checksum among them.
unfoldable pub line_of : List ℕ → List ℕ
line_of bytes = codes ":" ++ hex_text bytes ++ 10 ∷ []

subtract_all-total :
    (c : ℕ) (bytes : List ℕ)
    → c < 256
    → (subtract_all c bytes < 256) × ((subtract_all c bytes + total bytes) % 256 ≡ c)
unfolding subtract_all total
subtract_all-total c [] h = (h, omega arith)
subtract_all-total c (b ∷ bytes) h =
    let (low, sum) = subtract_all-total ((c + (256 - b % 256)) % 256) bytes (omega arith) in
    (low, omega (arith, low, sum))

hex_checksum-total :
    (a b c d : ℕ)
    → a < 256
    → b < 256
    → c < 256
    → d < 256
    → (hex_checksum (a ∷ b ∷ c ∷ d ∷ []) < 256)
      × ((hex_checksum (a ∷ b ∷ c ∷ d ∷ []) + (a + b + c + d)) % 256 ≡ 0)
unfolding hex_checksum sum_bytes
hex_checksum-total a b c d ha hb hc hd = omega arith

hex_text-append : (xs ys : List ℕ) → hex_text (xs ++ ys) ≡ hex_text xs ++ hex_text ys
unfolding hex_text hex2
hex_text-append [] ys = refl
hex_text-append (x ∷ xs) ys =
    ap (λ zs. hex_digit (x / 16) ∷ hex_digit (x % 16) ∷ zs) (hex_text-append xs ys)

total-append : (xs ys : List ℕ) → total (xs ++ ys) ≡ total xs + total ys
unfolding total
total-append [] ys = omega arith
total-append (x ∷ xs) ys = omega (arith, total-append xs ys)

hex4_bytes : (w : ℕ) → w < 2 ^ 16 → hex4 w ≡ hex2 (w / 256 % 256) ++ hex2 (w % 256)
unfolding hex4 hex2
hex4_bytes w h =
    let first : w / 4096 % 16 ≡ w / 256 % 256 / 16 = omega arith in
    let second : w / 256 % 16 ≡ w / 256 % 256 % 16 = omega arith in
    let third : w / 16 % 16 ≡ w % 256 / 16 = omega arith in
    let fourth : w % 16 ≡ w % 256 % 16 = omega arith in rw (first, second, third, fourth) refl

-- The digits of the bytes with the checksum behind them.
record_line :
    (addr : ℕ) (bytes : List ℕ) (type csum : ℕ)
    → addr < 2 ^ 16
    → codes ":"
        ++ hex2 (length bytes)
        ++ hex4 addr
        ++ hex2 type
        ++ hex_text bytes
        ++ hex2 csum
        ++ 10 ∷ []
      ≡ line_of ((length bytes ∷ addr / 256 % 256 ∷ addr % 256 ∷ type ∷ bytes) ++ csum ∷ [])
unfolding line_of hex_text hex2
record_line addr bytes type csum h =
    rw
      (
        hex4_bytes addr h,
        hex_text-append bytes (csum ∷ []),
        append_assoc (hex_text bytes) (hex_text (csum ∷ [])) (10 ∷ []),
      )
      refl

-- The line of a record is written byte by byte, and its bytes, the checksum at the end, sum to 0
-- modulo 256.
pub emit_hex_record-total :
    (addr : ℕ) (bytes : List ℕ) (type : ℕ)
    → addr < 2 ^ 16
    → length bytes < 256
    → type < 256
    → (csum : ℕ) × (csum < 256)
      × (emit_hex_record addr bytes type
          ≡ line_of ((length bytes ∷ addr / 256 % 256 ∷ addr % 256 ∷ type ∷ bytes) ++ csum ∷ []))
      × (total ((length bytes ∷ addr / 256 % 256 ∷ addr % 256 ∷ type ∷ bytes) ++ csum ∷ []) % 256
          ≡ 0)
unfolding total emit_hex_record
emit_hex_record-total addr bytes type ha hl ht =
    let (low, head) =
      hex_checksum-total (length bytes) (addr / 256 % 256) (addr % 256) type hl (omega arith)
        (omega arith) ht in
    let hdr = length bytes ∷ addr / 256 % 256 ∷ addr % 256 ∷ type ∷ [] in
    let (small, sum) = subtract_all-total (hex_checksum hdr) bytes low in
    let csum = subtract_all (hex_checksum hdr) bytes in
    (
      csum,
      small,
      record_line addr bytes type csum ha,
      omega (arith, sum, head, total-append bytes (csum ∷ [])),
    )
