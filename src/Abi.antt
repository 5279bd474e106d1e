-- ===== src/Abi.antt =====
-- The ABI metadata: compiler/abi_meta.c writes it into the names of exports, and linker/n65ld_abi.c
-- reads it and compares the records of the linked objects. The origin of a record, which is only
-- printed, is left out, and so is what computes the fields in the compiler.
pub mod Encode
pub mod Emitted
pub mod Agreement
mod Tests
use n.Prelude.{
  ℕ, zero, suc, ◌+◌, ◌-◌, ◌*◌, Bool, true, false, not, ◌&&◌, ◌||◌, Option, none, some, List, [],
  ◌∷◌, ◌++◌, leb, ◌==◌, if◌then◌else◌, length, drop, codes, str_eq,
}
use n.O65.{Symbol, ObjectFile}
use n.Archiver.{c_string}
use n.Linker.Image.{hex2}
use n.Linker.Rom.{starts_with}

-- ABI_META_PREFIX
unfoldable pub abi_meta_prefix : List ℕ
abi_meta_prefix = codes "__abimeta$V1$"

-- `isalnum(ch) || ch == '_'`, in the C locale.
unfoldable pub meta_safe_char : ℕ → Bool
meta_safe_char ch =
    (leb 48 ch && leb ch 57) || (leb 65 ch && leb ch 90) || (leb 97 ch && leb ch 122) || (ch == 95)

unfoldable pub meta_encode : List ℕ → List ℕ
meta_encode [] = []
meta_encode (p ∷ text) =
    if meta_safe_char p && not (p == 81)
    then p ∷ meta_encode text
    else 81 ∷ (hex2 p ++ meta_encode text)

-- `abi_record_t`
pub record AbiRecord : Type 0 where
  pub kind : List ℕ
  pub state : List ℕ
  pub symbol : List ℕ
  pub role : List ℕ
  pub fingerprint : List ℕ
  pub detail : List ℕ

-- The name of the export that `emit_metadata_symbol` makes, of fields that are not null.
unfoldable pub metadata_name : AbiRecord → List ℕ
metadata_name rec =
    abi_meta_prefix
    ++ (rec.kind
        ++ (36
            ∷ (rec.state
                ++ (36
                    ∷ (meta_encode rec.symbol
                        ++ (36
                            ∷ (rec.role
                                ++ (36
                                    ∷ (meta_encode rec.fingerprint
                                        ++ (36 ∷ meta_encode rec.detail))))))))))

-- `abi_metadata_has_prefix`, for a name that is not null.
unfoldable pub abi_metadata_has_prefix : List ℕ → Bool
abi_metadata_has_prefix name = starts_with name abi_meta_prefix

-- `none` is -1.
unfoldable pub hexval : ℕ → Option ℕ
hexval ch =
    if leb 48 ch && leb ch 57
    then some (ch - 48)
    else if leb 97 ch && leb ch 102
    then some (ch - 97 + 10)
    else if leb 65 ch && leb ch 70
    then some (ch - 65 + 10)
    else none

-- The byte of an escape, if there is one at this place.
unfoldable pub escaped : ℕ → ℕ → ℕ → Option ℕ
escaped c h l =
    if c == 81
    then elim (hexval h) [
      | none ↦ none
      | some hi ↦ elim (hexval l) [ none ↦ none | some lo ↦ some (hi * 16 + lo) ]
    ]
    else none

-- The loop of `meta_decode`: the bytes that it puts into `out`.
unfoldable pub decode_loop : List ℕ → List ℕ
decode_loop [] = []
decode_loop (c ∷ []) = c ∷ []
decode_loop (c ∷ d ∷ []) = c ∷ decode_loop (d ∷ [])
decode_loop (c ∷ h ∷ l ∷ text) = elim (escaped c h l) [
  | none ↦ c ∷ decode_loop (h ∷ l ∷ text)
  | some b ↦ b ∷ decode_loop text
]

-- The C string in `out`, which an escaped NUL ends.
unfoldable pub meta_decode : List ℕ → List ℕ
meta_decode text = c_string (decode_loop text)

-- `strchr(p, '$')`: what stands before it and behind it.
unfoldable pub until_dollar : List ℕ → Option (List ℕ × List ℕ)
until_dollar [] = none
until_dollar (c ∷ p) = elim (c == 36) [
  | true ↦ some ([], p)
  | false ↦ elim (until_dollar p) [ none ↦ none | some x ↦ some (c ∷ x.0, x.1) ]
]

-- The loop of `split_metadata_fields`, with `want - count` fields to go.
unfoldable pub split_fields : ℕ → List ℕ → Option (List (List ℕ))
split_fields zero p = some []
split_fields (suc left) p = elim (until_dollar p) [
  | none ↦ if left == 0 then some (p ∷ []) else none
  | some x ↦ elim (split_fields left x.1) [ none ↦ none | some fields ↦ some (x.0 ∷ fields) ]
]

unfoldable pub split_metadata_fields : List ℕ → ℕ → Option (List (List ℕ))
split_metadata_fields name want = split_fields want (drop (length abi_meta_prefix) name)

-- What `parse_abi_record` does: it returns 0, ends the linker, or fills a record.
pub data ParsedAbi : Type 0 where
  no_metadata malformed : ParsedAbi
  parsed : AbiRecord → ParsedAbi

unfoldable pub record_of_fields : List (List ℕ) → ParsedAbi
record_of_fields (kind ∷ state ∷ symbol ∷ role ∷ fingerprint ∷ detail ∷ []) = parsed (record {
  kind = kind;
  state = state;
  symbol = meta_decode symbol;
  role = role;
  fingerprint = meta_decode fingerprint;
  detail = meta_decode detail;
})
record_of_fields fields = malformed

unfoldable pub parse_abi_record : List ℕ → ParsedAbi
parse_abi_record name = elim (abi_metadata_has_prefix name) [
  | false ↦ no_metadata
  | true ↦ elim (split_metadata_fields name 6) [
    | none ↦ malformed
    | some fields ↦ record_of_fields fields
  ]
]

-- The messages that end the linker here.
pub data AbiFault : Type 0 where
  malformed_metadata fingerprint_mismatch : AbiFault

-- `none` where a record is malformed.
unfoldable pub collect_object_records : List Symbol → List AbiRecord → Option (List AbiRecord)
collect_object_records [] records = some records
collect_object_records (sym ∷ exports) records = elim (parse_abi_record sym.name) [
  | no_metadata ↦ collect_object_records exports records
  | malformed ↦ none
  | parsed rec ↦ collect_object_records exports (records ++ rec ∷ [])
]

unfoldable pub collect_records : List ObjectFile → List AbiRecord → Option (List AbiRecord)
collect_records [] records = some records
collect_records (obj ∷ objects) records = elim (collect_object_records obj.exports records) [
  | none ↦ none
  | some more ↦ collect_records objects more
]

unfoldable pub same_group : AbiRecord → AbiRecord → Bool
same_group a b = str_eq a.kind b.kind && str_eq a.symbol b.symbol && str_eq a.role b.role

-- The inner loop of `validate_abi_metadata`: a record that does not agree.
unfoldable pub mismatch_with : AbiRecord → List AbiRecord → Bool
mismatch_with rec [] = false
mismatch_with rec (other ∷ records) =
    (same_group rec other && not (str_eq rec.fingerprint other.fingerprint))
    || mismatch_with rec records

unfoldable pub has_mismatch : List AbiRecord → Bool
has_mismatch [] = false
has_mismatch (rec ∷ records) = mismatch_with rec records || has_mismatch records

-- The fault with which it ends the linker, if any.
unfoldable pub validate_abi_metadata : List ObjectFile → Option AbiFault
validate_abi_metadata objects = elim (collect_records objects []) [
  | none ↦ some malformed_metadata
  | some records ↦ if has_mismatch records then some fingerprint_mismatch else none
]
