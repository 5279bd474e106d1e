-- ===== src/O65/Tables/Fields.antt =====
-- Numbers, strings, undefined names, exports and layouts.
use n.Prelude.{
  ℕ, ◌%◌, ◌^◌, ◌<◌, ◌≤◌, ◌≡◌, refl, true, some, List, [], ◌∷◌, ◌++◌, map, length, All, arith,
}
use n.O65.{Symbol, ObjectLayout, Result, ok, ◌>>=◌}
use n.O65.Reader.{
  Reader, rd_u8, rd_u16, scan_cstr, rd_cstr, rd_export, rd_items, parse_exports, parse_undefs,
  scan_u8, scan_u16, scan_layout, scan_layouts, parse_layouts_with_mode, at_end, layouts_at_end,
  parse_layouts_any,
}
use n.O65.Writer.{
  WriterExport, WriterLayout, write_u8, write_u16, write_cstr, write_items, write_undefs,
  write_export, write_exports, write_layout, write_layouts,
}
use mathlib.Core.List.{append_assoc, append-nil, map-id}

abbrev pub IsU8 : ℕ → Type 0
IsU8 v = v < 256

abbrev pub IsU16 : ℕ → Type 0
IsU16 v = v < 2 ^ 16

-- No byte of a C string is the NUL.
abbrev pub IsCString : List ℕ → Type 0
IsCString s = All (λ c. 0 < c) s

pub rd_u8-write_u8 : (v : ℕ) (rest : List ℕ) → IsU8 v → rd_u8 (write_u8 v ++ rest) ≡ ok (v, rest)
unfolding rd_u8 write_u8
rd_u8-write_u8 v rest h = ground arith

pub rd_u16-write_u16 :
    (v : ℕ) (rest : List ℕ) → IsU16 v → rd_u16 (write_u16 v ++ rest) ≡ ok (v, rest)
unfolding rd_u16 write_u16
rd_u16-write_u16 v rest h = ground arith

pub scan_u8-write_u8 :
    (v : ℕ) (rest : List ℕ) → IsU8 v → scan_u8 (write_u8 v ++ rest) ≡ some (v, rest)
unfolding scan_u8 write_u8
scan_u8-write_u8 v rest h = ground arith

pub scan_u16-write_u16 :
    (v : ℕ) (rest : List ℕ) → IsU16 v → scan_u16 (write_u16 v ++ rest) ≡ some (v, rest)
unfolding scan_u16 write_u16
scan_u16-write_u16 v rest h = ground arith

pub scan_cstr-write_cstr :
    (s rest : List ℕ) → IsCString s → scan_cstr (write_cstr s ++ rest) ≡ some (s, rest)
unfolding scan_cstr write_cstr
scan_cstr-write_cstr [] rest h = refl
scan_cstr-write_cstr (c ∷ s) rest h = ground (arith, h.0, scan_cstr-write_cstr s rest h.1)

pub rd_cstr-write_cstr :
    (s rest : List ℕ) → IsCString s → rd_cstr (write_cstr s ++ rest) ≡ ok (s, rest)
unfolding rd_cstr
rd_cstr-write_cstr s rest h = ground (arith, scan_cstr-write_cstr s rest h)

-- A table is read back item by item, if each item is.
pub rd_items-write_items :
    {A B : Type 0} (item : Reader → Result (B × Reader)) (print : A → List ℕ) (as_read : A → B)
    (P : A → Type 0)
    → ((a : A) (rest : List ℕ) → P a → item (print a ++ rest) ≡ ok (as_read a, rest))
    → (xs : List A) (rest : List ℕ) → All P xs
    → rd_items item (length xs) (write_items print xs ++ rest) ≡ ok (map as_read xs, rest)
unfolding rd_items write_items
rd_items-write_items item print as_read P back [] rest h = refl
rd_items-write_items item print as_read P back (x ∷ xs) rest h =
    rw
      (
        append_assoc (print x) (write_items print xs) rest,
        back x (write_items print xs ++ rest) h.0,
      )
      (rw (rd_items-write_items item print as_read P back xs rest h.1))

-- The same behind a count of 16 bits.
counted-back :
    {A B : Type 0} (item : Reader → Result (B × Reader)) (print : A → List ℕ) (as_read : A → B)
    (P : A → Type 0)
    → ((a : A) (rest : List ℕ) → P a → item (print a ++ rest) ≡ ok (as_read a, rest))
    → (xs : List A) (rest : List ℕ) → IsU16 (length xs)
    → All P xs
    → (rd_u16 ((write_u16 (length xs % 2 ^ 16) ++ write_items print xs) ++ rest) >>= λ c.
        rd_items item c.0 c.1)
      ≡ ok (map as_read xs, rest)
counted-back item print as_read P back xs rest h hs =
    let count : length xs % 2 ^ 16 ≡ length xs = omega arith in
    rw (append_assoc, count, rd_u16-write_u16 (length xs) (write_items print xs ++ rest) h)
      (rd_items-write_items item print as_read P back xs rest hs)

-- Fewer than 2 ^ 16 undefined names, none with a NUL inside, are read back as they were written.
pub parse_undefs-write_undefs :
    (us : List (List ℕ)) (rest : List ℕ)
    → IsU16 (length us)
    → All IsCString us
    → parse_undefs (write_undefs us ++ rest) ≡ ok (us, rest)
unfolding parse_undefs write_undefs
parse_undefs-write_undefs us rest h hs =
    rw map-id at
      (counted-back rd_cstr write_cstr (λ s. s) IsCString rd_cstr-write_cstr us rest h hs)

-- What an export and a layout of the assembler are to the linker.
pub read_export : WriterExport → Symbol
read_export e = record { name = e.name; segid = e.segid; value = e.value }

pub record IsExport (e : WriterExport) : Type 0 where
  pub name : IsCString e.name
  pub segid : IsU8 e.segid
  pub value : IsU16 e.value

pub read_layout : WriterLayout → ObjectLayout
read_layout l = record {
  name = l.name;
  segid = l.segid;
  image_segid = l.image_segid;
  packed_base = l.packed_base;
  image_base = l.image_base;
  size = l.used_size;
  load_addr = 0;
  run_addr = 0;
}

pub record IsLayout (l : WriterLayout) : Type 0 where
  pub name : IsCString l.name
  pub segid : IsU8 l.segid
  pub image_segid : IsU8 l.image_segid
  pub packed_base : IsU16 l.packed_base
  pub image_base : IsU16 l.image_base
  pub used_size : IsU16 l.used_size

rd_export-write_export :
    (e : WriterExport) (rest : List ℕ)
    → IsExport e
    → rd_export (write_export e ++ rest) ≡ ok (read_export e, rest)
unfolding rd_export write_export read_export
rd_export-write_export e rest h =
    rw
      (
        append_assoc (write_cstr e.name) (write_u8 e.segid ++ write_u16 e.value) rest,
        rd_cstr-write_cstr e.name _ h.name,
      )
      (ground arith)

write_exports-eq :
    (es : List WriterExport) (written : List ℕ)
    → write_exports es ≡ some written
    → (length es ≤ 255) × (written ≡ write_u16 (length es % 2 ^ 16) ++ write_items write_export es)
unfolding write_exports
write_exports-eq es written e = ground arith

-- If the writer accepts a list of exports whose names hold no NUL and whose numbers fit their
-- fields, the reader gets the same exports back.
pub parse_exports-write_exports :
    (es : List WriterExport) (rest written : List ℕ)
    → All IsExport es
    → write_exports es ≡ some written
    → parse_exports (written ++ rest) ≡ ok (map read_export es, rest)
unfolding parse_exports
parse_exports-write_exports es rest written hs e =
    let (short, w) = write_exports-eq es written e in
    rw w (
      counted-back rd_export write_export read_export IsExport rd_export-write_export es rest
        (omega arith) hs)

scan_layout-write_layout :
    (l : WriterLayout) (rest : List ℕ)
    → IsLayout l
    → scan_layout true (write_layout l ++ rest) ≡ some (read_layout l, rest)
unfolding scan_layout write_layout read_layout
scan_layout-write_layout l rest h =
    rw (append_assoc (write_cstr l.name), scan_cstr-write_cstr l.name _ h.name) (ground arith)

scan_layouts-write_items :
    (ls : List WriterLayout) (rest : List ℕ)
    → All IsLayout ls
    → scan_layouts true (length ls) (write_items write_layout ls ++ rest)
      ≡ some (map read_layout ls, rest)
unfolding scan_layouts write_items
scan_layouts-write_items [] rest h = refl
scan_layouts-write_items (l ∷ ls) rest h =
    rw
      (
        append_assoc (write_layout l) (write_items write_layout ls) rest,
        scan_layout-write_layout l (write_items write_layout ls ++ rest) h.0,
      )
      (rw (scan_layouts-write_items ls rest h.1))

write_layouts-eq :
    (ls : List WriterLayout) (written : List ℕ)
    → write_layouts ls ≡ some written
    → (length ls ≤ 0xffff)
      × (written ≡ write_u16 (length ls % 2 ^ 16) ++ write_items write_layout ls)
unfolding write_layouts
write_layouts-eq ls written e = ground arith

parse_layouts_with_mode-write_layouts :
    (ls : List WriterLayout)
    → IsU16 (length ls)
    → All IsLayout ls
    → parse_layouts_with_mode true (write_u16 (length ls % 2 ^ 16) ++ write_items write_layout ls)
      ≡ some (map read_layout ls, [])
unfolding parse_layouts_with_mode
parse_layouts_with_mode-write_layouts ls short hs =
    let count : length ls % 2 ^ 16 ≡ length ls = omega arith in
    let items : List ℕ = write_items write_layout ls in
    rw (count, scan_u16-write_u16 (length ls) items short)
      (rw append-nil at (scan_layouts-write_items ls [] hs))

-- If the writer accepts a list of layouts whose names hold no NUL and whose numbers fit their
-- fields, the reader takes the table at the end of the file, to its last byte, for the same layouts.
pub layouts_at_end-write_layouts :
    (ls : List WriterLayout) (written : List ℕ)
    → All IsLayout ls
    → write_layouts ls ≡ some written
    → layouts_at_end written ≡ some (map read_layout ls)
unfolding layouts_at_end parse_layouts_any at_end write_u16 write_u8
layouts_at_end-write_layouts ls written hs e =
    let (short, w) = write_layouts-eq ls written e in
    rw w (ground (arith, parse_layouts_with_mode-write_layouts ls (omega arith) hs))
