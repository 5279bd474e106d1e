-- ===== src/O65/Object.antt =====
-- A whole object file: what the linker reads of the file that the assembler wrote.
use n.Prelude.{
  Option-cases, inl, inr, ℕ, suc, ◌%◌, ◌^◌, ◌≡◌, ◌≢◌, refl, ap, some, List, [], ◌∷◌, ◌++◌, map,
  length, All, codes, str_eq_refl, take-append_length, drop-append_length, length-append, arith,
}
use n.O65.{ObjectFile, ok}
use n.O65.Reader.{
  Header, rd_header, rd_u8, rd_bytes, parse_tables, try_parse_tail, Tail, skip_options,
  synthesize_default_layouts, parse_o65_object_from_memory,
}
use n.O65.Writer.{
  Writer, write_u8, write_u16, write_undefs, write_reloc_table, write_exports, write_layouts,
  write_header, o65_write_object_file,
}
use n.O65.Tables.{
  IsU16, IsCString, IsExport, IsLayout, read_export, read_layout, read_reloc, Ascending,
  rd_u8-write_u8, rd_u16-write_u16, parse_undefs-write_undefs, parse_exports-write_exports,
  layouts_at_end-write_layouts, parse_reloc_table_old-write,
}
use mathlib.Core.List.{append_assoc}
use native.Mathlib.Nat.{mod-eq_of_lt}

-- What the assembler guarantees of the parts that it writes: each number fits its field, a name
-- holds no NUL, relocations stand at growing offsets, and there is a layout. (A file with no
-- layout gets default ones from the linker.)
pub record IsWritable (wr : Writer) : Type 0 where
  pub text_length : IsU16 (length wr.text)
  pub data_length : IsU16 (length wr.bytes)
  pub bss_len : IsU16 wr.bss_len
  pub zp_len : IsU16 wr.zp_len
  pub undef_count : IsU16 (length wr.undefs)
  pub undefs : All IsCString wr.undefs
  pub text_relocs : Ascending 0 wr.text_relocs
  pub data_relocs : Ascending 0 wr.data_relocs
  pub exports : All IsExport wr.exports
  pub layouts : All IsLayout wr.layouts
  pub some_layout : wr.layouts ≢ []

-- The object file that the parts stand for.
pub object_of : Writer → ObjectFile
object_of wr = record {
  mode = 0x1000;
  tbase = 0;
  dbase = 0;
  bbase = 0;
  zbase = 0;
  stack = 0;
  blen = wr.bss_len;
  zlen = wr.zp_len;
  text = record { bytes = wr.text; relocs = map read_reloc wr.text_relocs };
  data_segment = record { bytes = wr.bytes; relocs = map read_reloc wr.data_relocs };
  undefs = wr.undefs;
  exports = map read_export wr.exports;
  layouts = map read_layout wr.layouts;
}

module _ (wr : Writer) (h : IsWritable wr) (exports layouts : List ℕ)
    (he : write_exports wr.exports ≡ some exports)
    (hl : write_layouts wr.layouts ≡ some layouts) where
  tail_of : Tail
  tail_of = record {
    tail_undefs = wr.undefs;
    first_relocs = map read_reloc wr.text_relocs;
    second_relocs = map read_reloc wr.data_relocs;
    tail_exports = map read_export wr.exports;
    tail_layouts = map read_layout wr.layouts;
  }

  tables-back :
      parse_tables wr.undefs (
        write_reloc_table wr.text_relocs
        ++ (write_reloc_table wr.data_relocs ++ (exports ++ layouts)))
      ≡ ok (some tail_of)
  unfolding parse_tables tail_of
  tables-back = rw (
    parse_reloc_table_old-write wr.text_relocs _ h.text_relocs,
    parse_reloc_table_old-write wr.data_relocs _ h.data_relocs,
    parse_exports-write_exports wr.exports layouts exports h.exports he,
    layouts_at_end-write_layouts wr.layouts layouts h.layouts hl,
  )

  try_parse_tail-back :
      try_parse_tail (
        write_undefs wr.undefs
        ++ (write_reloc_table wr.text_relocs
            ++ (write_reloc_table wr.data_relocs ++ (exports ++ layouts))))
      ≡ ok (some tail_of)
  unfolding try_parse_tail
  try_parse_tail-back =
      rw (parse_undefs-write_undefs wr.undefs _ h.undef_count h.undefs, tables-back)

rd_bytes-append : (xs rest : List ℕ) → rd_bytes (length xs) (xs ++ rest) ≡ ok (xs, rest)
unfolding rd_bytes
rd_bytes-append xs rest =
    rw (take-append_length xs rest, drop-append_length xs rest)
      (ground (arith, length-append xs rest))

-- The first field of the header is the version, which the linker skips.
header_of : Writer → Header
header_of wr = record {
  mode = 0x1000;
  tbase = 0;
  tlen = length wr.text;
  dbase = 0;
  dlen = length wr.bytes;
  bbase = 0;
  blen = wr.bss_len;
  zbase = 0;
  zlen = wr.zp_len;
  stack = 0;
}

-- The bytes of the header behind the version, up to the end of the options.
fields : Writer → List ℕ
fields wr =
    write_u16 0x1000
    ++ (write_u16 0
        ++ (write_u16 (length wr.text % 2 ^ 16)
            ++ (write_u16 0
                ++ (write_u16 (length wr.bytes % 2 ^ 16)
                    ++ (write_u16 0
                        ++ (write_u16 wr.bss_len
                            ++ (write_u16 0 ++ (write_u16 wr.zp_len ++ write_u16 0))))))))

header-append :
    (wr : Writer) (rest : List ℕ)
    → write_header wr ++ rest ≡ write_u8 1 ++ (fields wr ++ (write_u8 0 ++ rest))
unfolding write_header fields
header-append wr rest = simp append_assoc

rd_header-back :
    (wr : Writer) (rest : List ℕ)
    → IsWritable wr
    → rd_header (fields wr ++ rest) ≡ ok (header_of wr, rest)
unfolding rd_header fields header_of
rd_header-back wr rest h =
    let text : length wr.text % 2 ^ 16 ≡ length wr.text = mod-eq_of_lt h.text_length in
    let bytes : length wr.bytes % 2 ^ 16 ≡ length wr.bytes = mod-eq_of_lt h.data_length in
    simp (text, bytes, append_assoc)
      (rw (
        rd_u16-write_u16 0x1000 _ (omega arith),
        rd_u16-write_u16 0 _ (omega arith),
        rd_u16-write_u16 (length wr.text) _ h.text_length,
        rd_u16-write_u16 0 _ (omega arith),
        rd_u16-write_u16 (length wr.bytes) _ h.data_length,
        rd_u16-write_u16 0 _ (omega arith),
        rd_u16-write_u16 wr.bss_len _ h.bss_len,
        rd_u16-write_u16 0 _ (omega arith),
        rd_u16-write_u16 wr.zp_len _ h.zp_len,
        rd_u16-write_u16 0 _ (omega arith),
      ))

skip_options-none :
    (fuel : ℕ) (rest : List ℕ) → skip_options (suc fuel) (write_u8 0 ++ rest) ≡ ok rest
unfolding skip_options rd_u8 write_u8
skip_options-none fuel rest = refl

synthesize-object_of :
    (wr : Writer) → wr.layouts ≢ [] → synthesize_default_layouts (object_of wr) ≡ object_of wr
unfolding synthesize_default_layouts object_of
synthesize-object_of wr h = ground arith

write-eq :
    (wr : Writer) (file : List ℕ)
    → o65_write_object_file wr ≡ some file
    → (exports : List ℕ) × (layouts : List ℕ) × (write_exports wr.exports ≡ some exports)
      × (write_layouts wr.layouts ≡ some layouts)
      × (file
          ≡ (1 ∷ 0 ∷ codes "o65")
            ++ (write_header wr
                ++ (wr.text
                    ++ (wr.bytes
                        ++ (write_undefs wr.undefs
                            ++ (write_reloc_table wr.text_relocs
                                ++ (write_reloc_table wr.data_relocs ++ (exports ++ layouts))))))))
unfolding o65_write_object_file
write-eq wr file e = elim (Option-cases (write_exports wr.exports)) [
  | inl q ↦ absurd (ground arith)
  | inr (x, q) ↦ elim (Option-cases (write_layouts wr.layouts)) [
    | inl q' ↦ absurd (ground arith)
    | inr (y, q') ↦ (x, y, q, q', ground arith)
  ]
]

-- If the parts of an object file fit their fields, no name holds a NUL, the relocations of each
-- segment stand at growing offsets and there is a layout, then the linker reads the file that the
-- assembler writes of them, and gets the same segments, undefined names, relocations, exports
-- and layouts.
pub parse-write :
    (wr : Writer) (file : List ℕ)
    → IsWritable wr
    → o65_write_object_file wr ≡ some file
    → parse_o65_object_from_memory file ≡ ok (object_of wr)
unfolding parse_o65_object_from_memory object_of header_of tail_of
parse-write wr file h e =
    let (exports, layouts, he, hl, whole) = write-eq wr file e in
    let M : List ℕ = 1 ∷ 0 ∷ codes "o65" in
    rw
      (
        whole,
        rd_bytes-append M _,
        str_eq_refl M,
        header-append wr _,
        rd_u8-write_u8 1 _ (omega arith),
        rd_header-back wr _ h,
        skip_options-none _ _,
        rd_bytes-append wr.text _,
        rd_bytes-append wr.bytes _,
        try_parse_tail-back wr h exports layouts he hl,
      )
      (ap ok (synthesize-object_of wr h.some_layout))
