-- ===== src/Abi/Emitted.antt =====
-- The fields of an ABI record, in compiler/abi_meta.c and in linker/n65ld_abi.c.
use n.Prelude.{
  ℕ, suc, ◌≡◌, refl, ap, ◌∙◌, Bool, true, false, Option, none, some, List, [], ◌∷◌, ◌++◌, ◌==◌,
  if◌then◌else◌, arith, drop-append_length,
}
use n.Linker.Rom.{starts_with}
use n.Abi.{
  abi_meta_prefix, meta_encode, AbiRecord, metadata_name, abi_metadata_has_prefix, until_dollar,
  split_fields, split_metadata_fields, ParsedAbi, no_metadata, malformed, parsed, record_of_fields,
  parse_abi_record,
}
use n.Abi.Encode.{HasNoDollar, IsString, meta_decode-meta_encode, meta_encode-HasNoDollar}

until_dollar-field :
    (field rest : List ℕ)
    → HasNoDollar field
    → until_dollar (field ++ (36 ∷ rest)) ≡ some (field, rest)
unfolding until_dollar
until_dollar-field [] rest h = refl
until_dollar-field (c ∷ field) rest h =
    let test : (c == 36) ≡ false = (let ne = h.0 in ground (arith, ne)) in
    ap
      (λ b. elim b as (λ x. Option (List ℕ × List ℕ)) [
        | true ↦ some ([], field ++ (36 ∷ rest))
        | false ↦ elim (until_dollar (field ++ (36 ∷ rest))) as (λ x. Option (List ℕ × List ℕ)) [
          | none ↦ none
          | some x ↦ some (c ∷ x.0, x.1)
        ]
      ])
      test
    ∙ ap
        (λ o. elim o as (λ x. Option (List ℕ × List ℕ)) [
          | none ↦ none
          | some x ↦ some (c ∷ x.0, x.1)
        ])
        (until_dollar-field field rest h.1)

until_dollar-none : (field : List ℕ) → HasNoDollar field → until_dollar field ≡ none
unfolding until_dollar
until_dollar-none [] h = refl
until_dollar-none (c ∷ field) h =
    let test : (c == 36) ≡ false = (let ne = h.0 in ground (arith, ne)) in
    ap
      (λ b. elim b as (λ x. Option (List ℕ × List ℕ)) [
        | true ↦ some ([], field)
        | false ↦ elim (until_dollar field) as (λ x. Option (List ℕ × List ℕ)) [
          | none ↦ none
          | some x ↦ some (c ∷ x.0, x.1)
        ]
      ])
      test
    ∙ ap
        (λ o. elim o as (λ x. Option (List ℕ × List ℕ)) [
          | none ↦ none
          | some x ↦ some (c ∷ x.0, x.1)
        ])
        (until_dollar-none field h.1)

abbrev more_fields : List ℕ → Option (List (List ℕ)) → Option (List (List ℕ))
more_fields field more = elim more [ none ↦ none | some fields ↦ some (field ∷ fields) ]

abbrev at_field : ℕ → List ℕ → Option (List ℕ × List ℕ) → Option (List (List ℕ))
at_field left p found = elim found [
  | none ↦ if left == 0 then some (p ∷ []) else none
  | some x ↦ more_fields x.0 (split_fields left x.1)
]

split-field :
    (left : ℕ) (field rest : List ℕ) (fields : List (List ℕ))
    → HasNoDollar field
    → split_fields left rest ≡ some fields
    → split_fields (suc left) (field ++ (36 ∷ rest)) ≡ some (field ∷ fields)
unfolding split_fields
split-field left field rest fields h e =
    ap (at_field left (field ++ (36 ∷ rest))) (until_dollar-field field rest h)
    ∙ ap (more_fields field) e

split-last : (field : List ℕ) → HasNoDollar field → split_fields 1 field ≡ some (field ∷ [])
unfolding split_fields
split-last field h = ap (at_field 0 field) (until_dollar-none field h)

prefix-starts_with : (prefix rest : List ℕ) → starts_with (prefix ++ rest) prefix ≡ true
unfolding starts_with
prefix-starts_with [] rest = refl
prefix-starts_with (c ∷ prefix) rest = ground (arith, prefix-starts_with prefix rest)

-- The fields that are not encoded have no dollar sign, the others are C strings.
abbrev pub IsEmitted : AbiRecord → Type 0
IsEmitted rec =
    HasNoDollar rec.kind
    × HasNoDollar rec.state
    × HasNoDollar rec.role
    × IsString rec.symbol
    × IsString rec.fingerprint
    × IsString rec.detail

abbrev fields_of : AbiRecord → List (List ℕ)
fields_of rec =
    rec.kind
    ∷ rec.state
    ∷ meta_encode rec.symbol
    ∷ rec.role
    ∷ meta_encode rec.fingerprint
    ∷ meta_encode rec.detail
    ∷ []

abbrev text_of : AbiRecord → List ℕ
text_of rec =
    rec.kind
    ++ (36
        ∷ (rec.state
            ++ (36
                ∷ (meta_encode rec.symbol
                    ++ (36
                        ∷ (rec.role
                            ++ (36
                                ∷ (meta_encode rec.fingerprint
                                    ++ (36 ∷ meta_encode rec.detail)))))))))

split-text : (rec : AbiRecord) → IsEmitted rec → split_fields 6 (text_of rec) ≡ some (fields_of rec)
split-text rec (kind, state, role, _, _, _) = split-field 5 rec.kind _ _ kind (
    split-field 4 rec.state _ _ state (
      split-field 3 (meta_encode rec.symbol) _ _ (meta_encode-HasNoDollar rec.symbol) (
        split-field 2 rec.role _ _ role (
          split-field 1 (meta_encode rec.fingerprint) _ _ (meta_encode-HasNoDollar rec.fingerprint)
            (split-last (meta_encode rec.detail) (meta_encode-HasNoDollar rec.detail))))))

abbrev after_split : Option (List (List ℕ)) → ParsedAbi
after_split split = elim split [ none ↦ malformed | some fields ↦ record_of_fields fields ]

abbrev after_prefix : List ℕ → Bool → ParsedAbi
after_prefix name has = elim has [
  | false ↦ no_metadata
  | true ↦ after_split (split_metadata_fields name 6)
]

record-eq : (rec : AbiRecord) → IsEmitted rec → record_of_fields (fields_of rec) ≡ parsed rec
unfolding record_of_fields
record-eq rec (_, _, _, symbol, fingerprint, detail) =
    rw
      (
        meta_decode-meta_encode rec.symbol symbol,
        meta_decode-meta_encode rec.fingerprint fingerprint,
        meta_decode-meta_encode rec.detail detail,
      )
      refl

-- The linker reads from the name of an export that the compiler makes of an ABI record the same
-- record, if its kind, state and role hold no dollar sign and its other fields are C strings.
pub parse_abi_record-metadata_name :
    (rec : AbiRecord) → IsEmitted rec → parse_abi_record (metadata_name rec) ≡ parsed rec
unfolding parse_abi_record metadata_name abi_metadata_has_prefix split_metadata_fields
parse_abi_record-metadata_name rec h =
    ap (after_prefix (abi_meta_prefix ++ text_of rec))
      (prefix-starts_with abi_meta_prefix (text_of rec))
    ∙ ap (λ p. after_split (split_fields 6 p)) (drop-append_length abi_meta_prefix (text_of rec))
    ∙ ap after_split (split-text rec h)
    ∙ record-eq rec h
