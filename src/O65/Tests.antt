-- ===== src/O65/Tests.antt =====
-- A small object file, written and read, and the theorems about both sides applied to it.
use n.Prelude.{
  ℕ, ◌≡◌, refl, true, false, some, List, [], ◌∷◌, ◌++◌, codes, str_eq, replicate, arith,
}
use n.O65.{ok, err, unexpected_eof, not_o65}
use n.O65.Reader.{
  rd_u8, rd_u16, rd_bytes, scan_cstr, rd_cstr, rd_aux, rd_reloc, reloc_loop, parse_reloc_table_old,
  rd_export, rd_items, parse_exports, parse_undefs, scan_u8, scan_u16, scan_layout, scan_layouts,
  parse_layouts_with_mode, parse_layouts_any, layouts_at_end, at_end, parse_tables, swap_relocs,
  try_parse_tail, synthesize_default_layouts, skip_options, rd_header, parse_o65_object_from_memory,
}
use n.O65.Writer.{
  WriterReloc, WriterExport, WriterLayout, Writer, write_u8, write_u16, write_cstr, write_delta,
  write_reloc, write_relocs, write_reloc_table, write_items, write_undefs, write_export,
  write_exports, write_layout, write_layouts, write_header, o65_write_object_file,
}
use n.O65.Tables.{IsReloc, IsExport, IsLayout, Ascending}
use n.O65.Object.{IsWritable, object_of, parse-write}

program : Unit {0}
unfolding str_eq rd_u8 rd_u16 rd_bytes scan_cstr rd_cstr rd_aux rd_reloc reloc_loop
    parse_reloc_table_old rd_export rd_items parse_exports parse_undefs scan_u8 scan_u16 scan_layout
    scan_layouts parse_layouts_with_mode parse_layouts_any layouts_at_end at_end parse_tables
    swap_relocs try_parse_tail synthesize_default_layouts skip_options rd_header
    parse_o65_object_from_memory write_u8 write_u16 write_cstr write_delta write_reloc write_relocs
    write_reloc_table write_items write_undefs write_export write_exports write_layout write_layouts
    write_header o65_write_object_file
program = tt

-- `JSR` to an undefined name, and a word 300 bytes behind it that refers to the data segment.
abbrev call : WriterReloc
call = record {
  offset = 1;
  type = 0x80;
  segid = 0;
  undef_index = 0;
  aux_low = 0;
  has_aux_low = false;
}

abbrev far_byte : WriterReloc
far_byte = record {
  offset = 301;
  type = 0x50;
  segid = 3;
  undef_index = 0;
  aux_low = 0x34;
  has_aux_low = true;
}

abbrev main_export : WriterExport
main_export = record { name = codes "main"; value = 0; segid = 2 }

abbrev code_layout : WriterLayout
code_layout = record {
  name = codes "CODE";
  segid = 2;
  image_segid = 2;
  source_base = 0;
  packed_base = 0;
  image_base = 0;
  used_size = 302;
}

abbrev small_relocs : List WriterReloc
small_relocs = call ∷ far_byte ∷ []

abbrev pub small : Writer
small = record {
  text = 0x20 ∷ 0 ∷ 0 ∷ replicate 299 0xea;
  text_relocs = small_relocs;
  bytes = 1 ∷ 2 ∷ [];
  data_relocs = [];
  bss_len = 0;
  zp_len = 4;
  undefs = codes "putc" ∷ [];
  exports = main_export ∷ [];
  layouts = code_layout ∷ [];
}

abbrev small_exports : List ℕ
small_exports = 1 ∷ 0 ∷ codes "main" ++ 0 ∷ 2 ∷ 0 ∷ 0 ∷ []

abbrev small_layouts : List ℕ
small_layouts = 1 ∷ 0 ∷ codes "CODE" ++ 0 ∷ 2 ∷ 0 ∷ 0 ∷ 46 ∷ 1 ∷ 2 ∷ 0 ∷ 0 ∷ []

abbrev pub small_file : List ℕ
small_file =
    (1 ∷ 0 ∷ codes "o65")
    ++ (1 ∷ 0 ∷ 16 ∷ 0 ∷ 0 ∷ 46 ∷ 1 ∷ 0 ∷ 0 ∷ 2 ∷ 0 ∷ 0 ∷ 0 ∷ 0 ∷ 0 ∷ 0 ∷ 0 ∷ 4 ∷ 0 ∷ 0 ∷ 0 ∷ 0
        ∷ [])
    ++ (0x20 ∷ 0 ∷ 0 ∷ replicate 299 0xea)
    ++ (1 ∷ 2 ∷ [])
    ++ (1 ∷ 0 ∷ codes "putc" ++ 0 ∷ [])
    ++ (2 ∷ 0x80 ∷ 0 ∷ 0 ∷ 0 ∷ 255 ∷ 46 ∷ 0x50 ∷ 3 ∷ 0x34 ∷ 0 ∷ [])
    ++ (0 ∷ [])
    ++ small_exports
    ++ small_layouts

pub small_written : o65_write_object_file small ≡ some small_file
unfolding program
small_written = refl

cut_short : parse_o65_object_from_memory (1 ∷ 0 ∷ codes "o65") ≡ err unexpected_eof
unfolding program
cut_short = refl

wrong_magic : parse_o65_object_from_memory (2 ∷ 0 ∷ codes "o65") ≡ err not_o65
unfolding program
wrong_magic = refl

exports_written : write_exports (main_export ∷ []) ≡ some small_exports
unfolding program
exports_written = refl

layouts_written : write_layouts (code_layout ∷ []) ≡ some small_layouts
unfolding program
layouts_written = refl

call-IsReloc : IsReloc call
call-IsReloc = record {
  offset = omega arith;
  type = omega arith;
  segid = omega arith;
  undef_index = omega arith;
  aux_low = omega arith;
  aux_bit = refl;
}

far_byte-IsReloc : IsReloc far_byte
far_byte-IsReloc = record {
  offset = omega arith;
  type = omega arith;
  segid = omega arith;
  undef_index = omega arith;
  aux_low = omega arith;
  aux_bit = refl;
}

relocs-Ascending : Ascending 0 small_relocs
relocs-Ascending = (omega arith, call-IsReloc, (omega arith, far_byte-IsReloc, tt))

main_export-IsExport : IsExport main_export
main_export-IsExport = record {
  name = (omega arith, (omega arith, (omega arith, (omega arith, tt))));
  segid = omega arith;
  value = omega arith;
}

code_layout-IsLayout : IsLayout code_layout
code_layout-IsLayout = record {
  name = (omega arith, (omega arith, (omega arith, (omega arith, tt))));
  segid = omega arith;
  image_segid = omega arith;
  packed_base = omega arith;
  image_base = omega arith;
  used_size = omega arith;
}

pub small-IsWritable : IsWritable small
small-IsWritable = record {
  text_length = omega arith;
  data_length = omega arith;
  bss_len = omega arith;
  zp_len = omega arith;
  undef_count = omega arith;
  undefs = ((omega arith, (omega arith, (omega arith, (omega arith, tt)))), tt);
  text_relocs = relocs-Ascending;
  data_relocs = tt;
  exports = (main_export-IsExport, tt);
  layouts = (code_layout-IsLayout, tt);
  some_layout = λ e. cc;
}

parse-write_example : parse_o65_object_from_memory small_file ≡ ok (object_of small)
parse-write_example = parse-write small small_file small-IsWritable small_written

abbrev two_names : List (List ℕ)
two_names = codes "a" ∷ codes "b" ∷ []
