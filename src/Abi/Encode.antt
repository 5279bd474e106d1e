-- ===== src/Abi/Encode.antt =====
-- The escapes of compiler/abi_meta.c and of linker/n65ld_abi.c.
use n.Prelude.{
  ℕ, ◌+◌, ◌*◌, ◌/◌, ◌%◌, ◌<◌, ◌≡◌, ◌≢◌, refl, sym, ap, ◌∙◌, inl, inr, Bool, true, false, not, ◌&&◌,
  Option, none, some, List, [], ◌∷◌, ◌++◌, ◌==◌, ltb, ==_iff, if_true, if_false, All, All-map,
  all_below, all_below_sound, Bool-cases, Option-cases, arith,
}
use mathlib.Core.Path.{subst}
use n.Archiver.{c_string}
use n.Archiver.Format.{c_string-eq}
use n.Linker.Image.{hex2, hex_digit}
use n.Abi.{meta_safe_char, meta_encode, hexval, escaped, decode_loop, meta_decode}

abbrev is_escape_of : ℕ → Bool
is_escape_of c = elim (escaped 81 (hex_digit (c / 16)) (hex_digit (c % 16))) [
  | none ↦ false
  | some b ↦ b == c
]

all_escapes : all_below 256 is_escape_of ≡ true
unfolding all_below escaped hexval hex_digit
all_escapes = refl

escape-eq : (c : ℕ) → c < 256 → escaped 81 (hex_digit (c / 16)) (hex_digit (c % 16)) ≡ some c
escape-eq c h =
    let test = all_below_sound 256 is_escape_of c all_escapes h in
    elim (Option-cases (escaped 81 (hex_digit (c / 16)) (hex_digit (c % 16)))) [
      | inl e ↦
          let no_byte =
            sym test ∙ ap (λ o. elim o as (λ x. Bool) [ none ↦ false | some b ↦ b == c ]) e in
          cc
      | inr q ↦
          let same =
            sym (ap (λ o. elim o as (λ x. Bool) [ none ↦ false | some b ↦ b == c ]) q.1) ∙ test in
          q.1 ∙ ap some ((==_iff q.0 c).0 same)
    ]

plain : (c h l : ℕ) → (c == 81) ≡ false → escaped c h l ≡ none
unfolding escaped
plain c h l e =
    if_false (c == 81)
      (elim (hexval h) as (λ x. Option ℕ) [
        | none ↦ none
        | some hi ↦ elim (hexval l) as (λ x. Option ℕ) [
          | none ↦ none
          | some lo ↦ some (hi * 16 + lo)
        ]
      ])
      none e

decode-plain :
    (c : ℕ) (text : List ℕ) → (c == 81) ≡ false → decode_loop (c ∷ text) ≡ c ∷ decode_loop text
unfolding decode_loop
decode-plain c [] e = refl
decode-plain c (d ∷ []) e = refl
decode-plain c (h ∷ l ∷ text) e =
    ap
      (λ o. elim o as (λ x. List ℕ) [
        | none ↦ c ∷ decode_loop (h ∷ l ∷ text)
        | some b ↦ b ∷ decode_loop text
      ])
      (plain c h l e)

decode-escape :
    (c : ℕ) (text : List ℕ) → c < 256 → decode_loop (81 ∷ (hex2 c ++ text)) ≡ c ∷ decode_loop text
unfolding decode_loop hex2
decode-escape c text h =
    ap
      (λ o. elim o as (λ x. List ℕ) [
        | none ↦ 81 ∷ decode_loop (hex_digit (c / 16) ∷ hex_digit (c % 16) ∷ text)
        | some b ↦ b ∷ decode_loop text
      ])
      (escape-eq c h)

decode_loop-meta_encode :
    (text : List ℕ) → All (λ c. c < 256) text → decode_loop (meta_encode text) ≡ text
unfolding meta_encode decode_loop
decode_loop-meta_encode [] h = refl
decode_loop-meta_encode (c ∷ text) h =
    let ih = decode_loop-meta_encode text h.1 in
    elim (Bool-cases (meta_safe_char c && not (c == 81))) [
      | inl safe ↦
          ap decode_loop (
            if_true (meta_safe_char c && not (c == 81)) (c ∷ meta_encode text)
              (81 ∷ (hex2 c ++ meta_encode text)) safe)
          ∙ decode-plain c (meta_encode text) (ground (arith, safe))
          ∙ ap (λ y. c ∷ y) ih
      | inr unsafe ↦
          ap decode_loop (
            if_false (meta_safe_char c && not (c == 81)) (c ∷ meta_encode text)
              (81 ∷ (hex2 c ++ meta_encode text)) unsafe)
          ∙ decode-escape c (meta_encode text) h.0
          ∙ ap (λ y. c ∷ y) ih
    ]

-- The bytes of a C string.
abbrev pub IsString : List ℕ → Type 0
IsString text = All (λ c. (c < 256) × (c ≢ 0)) text

-- Decoding gives the text back.
pub meta_decode-meta_encode :
    (text : List ℕ) → IsString text → meta_decode (meta_encode text) ≡ text
unfolding meta_decode
meta_decode-meta_encode text h =
    let bytes = All-map (λ c. (c < 256) × (c ≢ 0)) (λ c. c < 256) text (λ c b. b.0) h in
    let chars = All-map (λ c. (c < 256) × (c ≢ 0)) (λ c. c ≢ 0) text (λ c b. b.1) h in
    ap c_string (decode_loop-meta_encode text bytes) ∙ c_string-eq text chars

abbrev pub HasNoDollar : List ℕ → Type 0
HasNoDollar text = All (λ c. c ≢ 36) text

hex_digit-ne : (d : ℕ) → hex_digit d ≢ 36
unfolding hex_digit
hex_digit-ne d = elim (Bool-cases (ltb d 10)) [
  | inl lt ↦ rw lt (λ z. omega (arith, z))
  | inr ge ↦ rw ge (λ z. omega (arith, z))
]

safe-ne : (c : ℕ) → meta_safe_char c && not (c == 81) ≡ true → c ≢ 36
unfolding meta_safe_char
safe-ne c h z = ground arith

-- An encoded text has no dollar sign, which separates the fields.
pub meta_encode-HasNoDollar : (text : List ℕ) → HasNoDollar (meta_encode text)
unfolding meta_encode hex2
meta_encode-HasNoDollar [] = tt
meta_encode-HasNoDollar (c ∷ text) = elim (Bool-cases (meta_safe_char c && not (c == 81))) [
  | inl safe ↦
      subst HasNoDollar
        (sym (
          if_true (meta_safe_char c && not (c == 81)) (c ∷ meta_encode text)
            (81 ∷ (hex2 c ++ meta_encode text)) safe))
        (safe-ne c safe, meta_encode-HasNoDollar text)
  | inr unsafe ↦
      subst HasNoDollar
        (sym (
          if_false (meta_safe_char c && not (c == 81)) (c ∷ meta_encode text)
            (81 ∷ (hex2 c ++ meta_encode text)) unsafe))
        (
          omega arith,
          (hex_digit-ne (c / 16), (hex_digit-ne (c % 16), meta_encode-HasNoDollar text)),
        )
]
