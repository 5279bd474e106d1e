-- ===== src/O65/Reader.antt =====
-- linker/n65ld_input.c: the reader of object files. A `reader_t` is the list of the bytes from its
-- `pos` on, so `r.pos == r.size` is the test for the empty list, and restoring `pos` is keeping
-- the list. `exit(1)` with a message is `err`.
use Prim.Native.Nat.{bit_and}
use n.Prelude.{
  ℕ, zero, suc, ◌+◌, ◌-◌, ◌*◌, ◌%◌, ◌^◌, Bool, true, false, Option, none, some, List, [], ◌∷◌, ◌++◌,
  ltb, leb, ◌==◌, if◌then◌else◌, length, take, drop, codes, str_eq,
}
use n.O65.{
  seg_undef, seg_text, seg_data, seg_bss, seg_zp, rtype_aux, Symbol, ObjectLayout, Reloc,
  ObjectFile, unexpected_eof, unterminated_string, bad_options_block, not_o65, failed_tail, stuck,
  Result, ok, err, ◌>>=◌,
}

abbrev pub Reader : Type 0
Reader = List ℕ

unfoldable pub rd_u8 : Reader → Result (ℕ × Reader)
rd_u8 [] = err unexpected_eof
rd_u8 (b ∷ r) = ok (b, r)

-- `lo | (hi << 8)`, for a byte `lo`.
unfoldable pub rd_u16 : Reader → Result (ℕ × Reader)
unfolding rd_u8
rd_u16 r = do (lo, r) ← rd_u8 r; (hi, r) ← rd_u8 r; ok (lo + hi * 256, r)

unfoldable pub rd_bytes : ℕ → Reader → Result (List ℕ × Reader)
rd_bytes count r =
    if leb count (length r) then ok (take count r, drop count r) else err unexpected_eof

-- The string up to the first NUL, and what follows the NUL: `scan_cstr_bytes`.
unfoldable pub scan_cstr : Reader → Option (List ℕ × Reader)
scan_cstr [] = none
scan_cstr (b ∷ r) = elim (b == 0) [
  | true ↦ some ([], r)
  | false ↦ elim (scan_cstr r) [ none ↦ none | some (s, r') ↦ some (b ∷ s, r') ]
]

unfoldable pub rd_cstr : Reader → Result (List ℕ × Reader)
unfolding scan_cstr
rd_cstr r = elim (scan_cstr r) [ none ↦ err unterminated_string | some x ↦ ok x ]

-- The auxiliary byte, with `has_aux_low`: it is there if the type has the bit O65_RTYPE_AUX.
unfoldable pub rd_aux : ℕ → Reader → Result ((ℕ × Bool) × Reader)
unfolding rd_u8
rd_aux type r =
    if bit_and type rtype_aux == 0
    then ok ((0, false), r)
    else (rd_u8 r >>= λ x. ok ((x.0, true), x.1))

-- The body of the loop of `parse_reloc_table_old` behind the offset.
unfoldable pub rd_reloc : ℕ → Reader → Result (Reloc × Reader)
rd_reloc offset r = do
  (type, r) ← rd_u8 r
  (segid, r) ← rd_u8 r
  (undef_index, r) ← if segid == seg_undef then rd_u16 r else ok (0, r)
  (aux, r) ← rd_aux type r
  ok (
    record {
      offset = offset % 2 ^ 32;
      type = type;
      segid = segid;
      undef_index = undef_index;
      aux_low = aux.0;
      has_aux_low = aux.1;
    },
    r,
  )

-- The loop of `parse_reloc_table_old`, where `next` is `prev + 1`. Each round reads a byte at
-- least, so the length of the input is fuel enough.
unfoldable pub reloc_loop : ℕ → ℕ → Reader → Result (List Reloc × Reader)
reloc_loop zero next r = err stuck
reloc_loop (suc fuel) next r = rd_u8 r >>= λ x. elim (x.0 == 0) [
  | true ↦ ok ([], x.1)
  | false ↦ elim (x.0 == 255) [
    | true ↦ reloc_loop fuel (next + 254) x.1
    | false ↦ rd_reloc (next + x.0 - 1) x.1 >>= λ y.
        reloc_loop fuel (next + x.0) y.1 >>= λ z. ok (y.0 ∷ z.0, z.1)
  ]
]

unfoldable pub parse_reloc_table_old : Reader → Result (List Reloc × Reader)
parse_reloc_table_old r = reloc_loop (suc (length r)) 0 r

unfoldable pub rd_export : Reader → Result (Symbol × Reader)
unfolding rd_cstr rd_u8 rd_u16
rd_export r = do
  (name, r) ← rd_cstr r
  (segid, r) ← rd_u8 r
  (value, r) ← rd_u16 r
  ok (record { name = name; segid = segid; value = value }, r)

-- `for (i = 0; i < count; ++i) items[i] = …`
unfoldable pub rd_items {ℓ} :
    {A : Type ℓ} → (Reader → Result (A × Reader)) → ℕ → Reader → Result (List A × Reader)
rd_items item zero r = ok ([], r)
rd_items item (suc count) r =
    item r >>= λ x. rd_items item count x.1 >>= λ xs. ok (x.0 ∷ xs.0, xs.1)

unfoldable pub parse_exports : Reader → Result (List Symbol × Reader)
unfolding rd_u16 rd_items rd_export
parse_exports r = do (count, r) ← rd_u16 r; rd_items rd_export count r

unfoldable pub parse_undefs : Reader → Result (List (List ℕ) × Reader)
unfolding rd_u16 rd_items rd_cstr
parse_undefs r = do (count, r) ← rd_u16 r; rd_items rd_cstr count r

-- `parse_layouts_with_mode` returns 0 where the input is too short: `none`.
infixl 5 ◌>>=?◌
abbrev pub ◌>>=?◌ {ℓ κ} : {A : Type ℓ} {B : Type κ} → Option A → (A → Option B) → Option B
none >>=? f = none
some a >>=? f = f a

unfoldable pub scan_u8 : Reader → Option (ℕ × Reader)
scan_u8 [] = none
scan_u8 (b ∷ r) = some (b, r)

unfoldable pub scan_u16 : Reader → Option (ℕ × Reader)
scan_u16 [] = none
scan_u16 (lo ∷ []) = none
scan_u16 (lo ∷ hi ∷ r) = some (lo + hi * 256, r)

-- One layout: the image fields are in the file only in version 2.
unfoldable pub scan_layout : Bool → Reader → Option (ObjectLayout × Reader)
unfolding scan_cstr scan_u8 scan_u16
scan_layout v2 r = scan_cstr r >>=? λ name. scan_u8 name.1 >>=? λ segid.
    scan_u16 segid.1 >>=? λ base. scan_u16 base.1 >>=? λ size.
    (if v2 then scan_u8 size.1 else some (segid.0, size.1)) >>=? λ image_segid.
    (if v2 then scan_u16 image_segid.1 else some (base.0, image_segid.1)) >>=? λ image_base. some (
      record {
        name = name.0;
        segid = segid.0;
        image_segid = image_segid.0;
        packed_base = base.0;
        image_base = image_base.0;
        size = size.0;
        load_addr = 0;
        run_addr = 0;
      },
      image_base.1,
    )

unfoldable pub scan_layouts : Bool → ℕ → Reader → Option (List ObjectLayout × Reader)
unfolding scan_layout
scan_layouts v2 zero r = some ([], r)
scan_layouts v2 (suc count) r =
    scan_layout v2 r >>=? λ x. scan_layouts v2 count x.1 >>=? λ xs. some (x.0 ∷ xs.0, xs.1)

unfoldable pub parse_layouts_with_mode : Bool → Reader → Option (List ObjectLayout × Reader)
unfolding scan_u16 scan_layouts
parse_layouts_with_mode v2 r = scan_u16 r >>=? λ count. scan_layouts v2 count.0 count.1

-- A parse that ends at the end of the input.
unfoldable pub at_end {ℓ} : {A : Type ℓ} → Option (A × Reader) → Option A
at_end none = none
at_end (some (a, [])) = some a
at_end (some (a, b ∷ r)) = none

-- Version 2 first, then version 1; both must reach the end of the file.
unfoldable pub parse_layouts_any : Reader → Option (List ObjectLayout)
unfolding parse_layouts_with_mode at_end
parse_layouts_any r = elim (at_end (parse_layouts_with_mode true r)) [
  | some layouts ↦ some layouts
  | none ↦ at_end (parse_layouts_with_mode false r)
]

-- `r.pos == r.size` is a file without layouts.
unfoldable pub layouts_at_end : Reader → Option (List ObjectLayout)
layouts_at_end [] = some []
layouts_at_end (b ∷ r) = parse_layouts_any (b ∷ r)

-- What the tail of the file holds.
pub record Tail : Type 0 where
  pub tail_undefs : List (List ℕ)
  pub first_relocs : List Reloc
  pub second_relocs : List Reloc
  pub tail_exports : List Symbol
  pub tail_layouts : List ObjectLayout

-- One attempt of `try_parse_tail`, behind the undefined names: two relocation tables, the exports,
-- and layouts that are absent or fill the rest. `none` where something is left.
unfoldable pub parse_tables : List (List ℕ) → Reader → Result (Option Tail)
parse_tables undefs r = do
  (first, r) ← parse_reloc_table_old r
  (second, r) ← parse_reloc_table_old r
  (exports, r) ← parse_exports r
  let found : List ObjectLayout → Tail = λ layouts. record {
    tail_undefs = undefs;
    first_relocs = first;
    second_relocs = second;
    tail_exports = exports;
    tail_layouts = layouts;
  }
  ok (elim (layouts_at_end r) [ none ↦ none | some ls ↦ some (found ls) ])

-- The second attempt reads the same tables, with the two relocation tables in the other order.
unfoldable pub swap_relocs : Tail → Tail
swap_relocs t = record t { first_relocs = t.second_relocs; second_relocs = t.first_relocs }

unfoldable pub try_parse_tail : Reader → Result (Option Tail)
try_parse_tail tail = do
  (undefs, r) ← parse_undefs tail
  parse_tables undefs r >>= λ attempt. elim attempt [
    | some t ↦ ok (some t)
    | none ↦ parse_tables undefs r >>= λ again. elim again [
      | some t ↦ ok (some (swap_relocs t))
      | none ↦ ok none
    ]
  ]

-- `synthesize_default_layouts`: one layout for each part that is not empty, if the file has none.
unfoldable pub default_layout : List ℕ → ℕ → ℕ → List ObjectLayout
default_layout name segid size =
    if size == 0
    then []
    else record {
      name = name;
      segid = segid;
      image_segid = segid;
      packed_base = 0;
      image_base = 0;
      size = size % 2 ^ 16;
      load_addr = 0;
      run_addr = 0;
    }
      ∷ []

unfoldable pub synthesize_default_layouts : ObjectFile → ObjectFile
synthesize_default_layouts obj = elim (obj.layouts) [
  | l ∷ ls ↦ obj
  | [] ↦ record obj {
    layouts =
        default_layout (codes "CODE") seg_text (length obj.text.bytes)
        ++ (default_layout (codes "DATA") seg_data (length obj.data_segment.bytes)
            ++ (default_layout (codes "BSS") seg_bss obj.blen
                ++ default_layout (codes "ZEROPAGE") seg_zp obj.zlen));
  }
]

-- The loop over the header's options: a length byte, which counts itself, and its bytes. Each
-- round reads a byte at least.
unfoldable pub skip_options : ℕ → Reader → Result Reader
unfolding rd_u8
skip_options zero r = err stuck
skip_options (suc fuel) r = rd_u8 r >>= λ x. elim (x.0 == 0) [
  | true ↦ ok x.1
  | false ↦ elim (ltb (length x.1) (x.0 - 1)) [
    | true ↦ err bad_options_block
    | false ↦ skip_options fuel (drop (x.0 - 1) x.1)
  ]
]

-- The fields of the header behind the magic number and the version, in the order of the file.
pub record Header : Type 0 where
  pub mode : ℕ
  pub tbase : ℕ
  pub tlen : ℕ
  pub dbase : ℕ
  pub dlen : ℕ
  pub bbase : ℕ
  pub blen : ℕ
  pub zbase : ℕ
  pub zlen : ℕ
  pub stack : ℕ

unfoldable pub rd_header : Reader → Result (Header × Reader)
rd_header r = do
  (mode, r) ← rd_u16 r
  (tbase, r) ← rd_u16 r
  (tlen, r) ← rd_u16 r
  (dbase, r) ← rd_u16 r
  (dlen, r) ← rd_u16 r
  (bbase, r) ← rd_u16 r
  (blen, r) ← rd_u16 r
  (zbase, r) ← rd_u16 r
  (zlen, r) ← rd_u16 r
  (stack, r) ← rd_u16 r
  ok (
    record {
      mode = mode;
      tbase = tbase;
      tlen = tlen;
      dbase = dbase;
      dlen = dlen;
      bbase = bbase;
      blen = blen;
      zbase = zbase;
      zlen = zlen;
      stack = stack;
    },
    r,
  )

unfoldable pub parse_o65_object_from_memory : List ℕ → Result ObjectFile
parse_o65_object_from_memory file = do
  (magic, r) ← rd_bytes 5 file
  (_, r) ← if str_eq magic (1 ∷ 0 ∷ codes "o65") then rd_u8 r else err not_o65
  (header, r) ← rd_header r
  r ← skip_options (suc (length r)) r
  (text, r) ← rd_bytes header.tlen r
  (bytes, r) ← rd_bytes header.dlen r
  tail ← try_parse_tail r
  elim tail [
    | none ↦ err failed_tail
    | some t ↦ ok (
        synthesize_default_layouts (record {
          mode = header.mode;
          tbase = header.tbase;
          dbase = header.dbase;
          bbase = header.bbase;
          zbase = header.zbase;
          stack = header.stack;
          blen = header.blen;
          zlen = header.zlen;
          text = record { bytes = text; relocs = t.first_relocs };
          data_segment = record { bytes = bytes; relocs = t.second_relocs };
          undefs = t.tail_undefs;
          exports = t.tail_exports;
          layouts = t.tail_layouts;
        }))
  ]
