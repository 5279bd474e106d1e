-- ===== src/Abi/Tests.antt =====
-- Runs of compiler/abi_meta.c and linker/n65ld_abi.c, and instances of the theorems about them.
use n.Prelude.{ℕ, ◌≡◌, refl, some, List, [], ◌∷◌, codes, arith, str_eq}
use n.O65.{ObjectFile, seg_abs}
use n.Archiver.{c_string}
use n.Linker.Image.{hex2, hex_digit}
use n.Linker.Rom.{starts_with}
use n.Abi.{
  AbiRecord, abi_meta_prefix, metadata_name, meta_encode, meta_safe_char, parsed, parse_abi_record,
  split_metadata_fields, split_fields, until_dollar, record_of_fields, meta_decode, decode_loop,
  escaped, hexval, abi_metadata_has_prefix, collect_records, collect_object_records,
  validate_abi_metadata, fingerprint_mismatch, has_mismatch, mismatch_with, same_group,
}
use n.Abi.Emitted.{IsEmitted, parse_abi_record-metadata_name}

abbrev record_with : List ℕ → AbiRecord
record_with fingerprint = record {
  kind = codes "f";
  state = codes "d";
  symbol = codes "g$";
  role = codes "r";
  fingerprint = fingerprint;
  detail = [];
}

abbrev object_with : List ℕ → ObjectFile
object_with fingerprint = record {
  mode = 0;
  tbase = 0;
  dbase = 0;
  bbase = 0;
  zbase = 0;
  stack = 0;
  blen = 0;
  zlen = 0;
  text = record { bytes = []; relocs = [] };
  data_segment = record { bytes = []; relocs = [] };
  undefs = [];
  exports =
      record { name = metadata_name (record_with fingerprint); segid = seg_abs; value = 0 } ∷ [];
  layouts = [];
}

abbrev objects : List ObjectFile
objects = object_with (codes "a=") ∷ object_with (codes "b") ∷ []

abbrev records : List AbiRecord
records = record_with (codes "a=") ∷ record_with (codes "b") ∷ []

refused : validate_abi_metadata objects ≡ some fingerprint_mismatch
unfolding validate_abi_metadata has_mismatch mismatch_with same_group str_eq collect_records
    collect_object_records metadata_name abi_meta_prefix meta_encode meta_safe_char hex2 hex_digit
    parse_abi_record split_metadata_fields split_fields until_dollar record_of_fields meta_decode
    decode_loop c_string escaped hexval abi_metadata_has_prefix starts_with
refused = refl

-- An escaped NUL ends the field.
nul_field : meta_decode (codes "aQ00b") ≡ codes "a"
unfolding meta_decode decode_loop escaped hexval c_string
nul_field = refl

emitted : IsEmitted (record_with (codes "a="))
emitted = (
  (omega arith, tt),
  (omega arith, tt),
  (omega arith, tt),
  ((omega arith, omega arith), ((omega arith, omega arith), tt)),
  ((omega arith, omega arith), ((omega arith, omega arith), tt)),
  tt,
)

parse_abi_record-metadata_name_example :
    parse_abi_record (metadata_name (record_with (codes "a="))) ≡ parsed (record_with (codes "a="))
parse_abi_record-metadata_name_example =
    parse_abi_record-metadata_name (record_with (codes "a=")) emitted
