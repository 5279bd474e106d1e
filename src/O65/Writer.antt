-- ===== src/O65/Writer.antt =====
-- assembler/o65.c: the writer of object files. What it writes is the list of the bytes; an error
-- of the output stream is not modelled.
use Prim.Native.Nat.{bit_or}
use n.Prelude.{
  ℕ, zero, suc, ◌+◌, ◌-◌, ◌*◌, ◌/◌, ◌%◌, ◌^◌, Bool, true, false, Option, none, some, List, [], ◌∷◌,
  ◌++◌, ltb, ◌==◌, if◌then◌else◌, length, codes,
}
use n.O65.{seg_undef, rtype_aux}

-- `o65_reloc_t`, `o65_export_t` and `o65_segment_layout_t`, less the links of the lists.
pub record WriterReloc : Type 0 where
  pub offset : ℕ
  pub type : ℕ
  pub segid : ℕ
  pub undef_index : ℕ
  pub aux_low : ℕ
  pub has_aux_low : Bool

pub record WriterExport : Type 0 where
  pub name : List ℕ
  pub value : ℕ
  pub segid : ℕ

pub record WriterLayout : Type 0 where
  pub name : List ℕ
  pub segid : ℕ
  pub image_segid : ℕ
  pub source_base : ℕ
  pub packed_base : ℕ
  pub image_base : ℕ
  pub used_size : ℕ

-- The parts of `o65_writer_t` that the file is written from. The undefined names stand in the
-- order of their index.
pub record Writer : Type 0 where
  pub text : List ℕ
  pub text_relocs : List WriterReloc
  pub bytes : List ℕ
  pub data_relocs : List WriterReloc
  pub bss_len : ℕ
  pub zp_len : ℕ
  pub undefs : List (List ℕ)
  pub exports : List WriterExport
  pub layouts : List WriterLayout

-- An argument is an `unsigned char` or an `unsigned short`, hence the remainders.
unfoldable pub write_u8 : ℕ → List ℕ
write_u8 v = v % 256 ∷ []

unfoldable pub write_u16 : ℕ → List ℕ
unfolding write_u8
write_u16 v = write_u8 (v % 256) ++ write_u8 (v / 256 % 256)

-- The bytes of the string and its NUL.
unfoldable pub write_cstr : List ℕ → List ℕ
write_cstr s = s ++ 0 ∷ []

-- `while (delta > 254) { write 255; delta -= 254; prev += 254; }` and the byte `delta`. A delta
-- that is not above 254 takes no round, and `delta` rounds are enough.
unfoldable pub write_delta : ℕ → ℕ → List ℕ
unfolding write_u8
write_delta zero delta = write_u8 delta
write_delta (suc fuel) delta = elim (ltb 254 delta) [
  | true ↦ write_u8 255 ++ write_delta fuel (delta - 254)
  | false ↦ write_u8 delta
]

-- One relocation, where `next` is `prev + 1`. If the offset is not above `prev` the difference is
-- zero or negative, and only its low byte is written.
unfoldable pub write_reloc : ℕ → WriterReloc → List ℕ
write_reloc next r =
    (if ltb r.offset next
      then write_u8 (r.offset + 1 + 255 * next)
      else write_delta (r.offset + 1 - next) (r.offset + 1 - next))
    ++ (write_u8 r.type
        ++ (write_u8 r.segid
            ++ ((if r.segid == seg_undef then write_u16 r.undef_index else [])
                ++ (if r.has_aux_low then write_u8 r.aux_low else []))))

unfoldable pub write_relocs : ℕ → List WriterReloc → List ℕ
write_relocs next [] = write_u8 0
write_relocs next (r ∷ rs) = write_reloc next r ++ write_relocs (r.offset + 1) rs

unfoldable pub write_reloc_table : List WriterReloc → List ℕ
write_reloc_table rs = write_relocs 0 rs

-- `for (; p; p = p->next) …`
unfoldable pub write_items {ℓ} : {A : Type ℓ} → (A → List ℕ) → List A → List ℕ
write_items item [] = []
write_items item (x ∷ xs) = item x ++ write_items item xs

-- The count is an `unsigned short`.
unfoldable pub write_undefs : List (List ℕ) → List ℕ
unfolding write_u16 write_items write_cstr
write_undefs us = write_u16 (length us % 2 ^ 16) ++ write_items write_cstr us

unfoldable pub write_export : WriterExport → List ℕ
unfolding write_cstr write_u8 write_u16
write_export e = write_cstr e.name ++ (write_u8 e.segid ++ write_u16 e.value)

-- `none` is the refusal of more than 255 exports.
unfoldable pub write_exports : List WriterExport → Option (List ℕ)
unfolding write_u16 write_items write_export
write_exports es =
    if ltb 255 (length es)
    then none
    else some (write_u16 (length es % 2 ^ 16) ++ write_items write_export es)

unfoldable pub write_layout : WriterLayout → List ℕ
unfolding write_cstr write_u8 write_u16
write_layout l =
    write_cstr l.name
    ++ (write_u8 l.segid
        ++ (write_u16 l.packed_base
            ++ (write_u16 l.used_size ++ (write_u8 l.image_segid ++ write_u16 l.image_base))))

unfoldable pub write_layouts : List WriterLayout → Option (List ℕ)
unfolding write_u16 write_items write_layout
write_layouts ls =
    if ltb 0xffff (length ls)
    then none
    else some (write_u16 (length ls % 2 ^ 16) ++ write_items write_layout ls)

-- The header behind the magic number: the version, the mode O65_MODE_OBJECT, and the base and
-- length of each part, every base 0; then the stack size and the end of the options.
unfoldable pub write_header : Writer → List ℕ
write_header wr =
    write_u8 1
    ++ (write_u16 0x1000
        ++ (write_u16 0
            ++ (write_u16 (length wr.text % 2 ^ 16)
                ++ (write_u16 0
                    ++ (write_u16 (length wr.bytes % 2 ^ 16)
                        ++ (write_u16 0
                            ++ (write_u16 wr.bss_len
                                ++ (write_u16 0
                                    ++ (write_u16 wr.zp_len ++ (write_u16 0 ++ write_u8 0))))))))))

-- The part of `o65_write_object_file` that writes, once the parts are built; `none` is `goto fail`.
unfoldable pub o65_write_object_file : Writer → Option (List ℕ)
o65_write_object_file wr = elim (write_exports wr.exports) [
  | none ↦ none
  | some exports ↦ elim (write_layouts wr.layouts) [
    | none ↦ none
    | some layouts ↦ some (
        (1 ∷ 0 ∷ codes "o65")
        ++ (write_header wr
            ++ (wr.text
                ++ (wr.bytes
                    ++ (write_undefs wr.undefs
                        ++ (write_reloc_table wr.text_relocs
                            ++ (write_reloc_table wr.data_relocs ++ (exports ++ layouts))))))))
  ]
]

-- The segment buffer of `o65_segment_buf_t`: bytes and relocations.
pub record SegmentBuf : Type 0 where
  pub buf : List ℕ
  pub buf_relocs : List WriterReloc

-- `add_reloc`: a new relocation goes to the end of the list.
unfoldable pub add_reloc : SegmentBuf → WriterReloc → SegmentBuf
add_reloc b r = record b { buf_relocs = b.buf_relocs ++ r ∷ [] }

-- RELOC_PART_NONE, RELOC_PART_LOW, RELOC_PART_HIGH and RELOC_PART_WORD.
pub data Part : Type 0 where
  none_part low high word : Part

-- `reloc_expr_info_t`; its two `long` values are taken modulo 2 ^ 64, as the code reads bytes of
-- `reloc_value` only.
pub record RelocExprInfo : Type 0 where
  pub is_reloc : Bool
  pub segid : ℕ
  pub undef_index : ℕ
  pub reloc_value : ℕ
  pub part : Part

-- The two defaults of `maybe_add_expr_reloc`.
unfoldable pub effective_part : Part → ℕ → Part
effective_part none_part width = if width == 2 then word else if width == 1 then low else none_part
effective_part p width = p

-- O65_RTYPE_LOW, O65_RTYPE_HIGH and O65_RTYPE_WORD; `none` for a part that has no type.
unfoldable pub part_type : Part → Option ℕ
part_type low = some 0x20
part_type high = some 0x40
part_type word = some 0x80
part_type none_part = none

-- The byte of the value that the relocated byte does not hold.
unfoldable pub other_byte : Part → ℕ → ℕ
other_byte low v = v / 256 % 256
other_byte p v = v % 256

-- `none` is the error of an unsupported combination.
unfoldable pub maybe_add_expr_reloc : SegmentBuf → ℕ → RelocExprInfo → ℕ → Option SegmentBuf
unfolding effective_part part_type other_byte add_reloc
maybe_add_expr_reloc b offset info width =
    if info.is_reloc
    then (elim (part_type (effective_part info.part width)) [
      | none ↦ none
      | some type ↦
          let aux : Bool =
            if width == 1 then (if info.segid == seg_undef then false else true) else false in
          some (
            add_reloc b (record {
              offset = offset;
              type = if aux then bit_or type rtype_aux else type;
              segid = info.segid % 256;
              undef_index = info.undef_index;
              aux_low =
                  if aux then other_byte (effective_part info.part width) info.reloc_value else 0;
              has_aux_low = aux;
            }))
    ])
    else some b
