-- ===== src/Linker/Rom/Tests.antt =====
-- A ROM image of one object, and the theorem about images applied to it.
use n.Prelude.{ℕ, ◌≡◌, refl, true, false, List, [], ◌∷◌, set, codes, str_eq}
use n.Linker.{LinkerConfig, ok}
use n.Linker.Place.{toupper, str_ieq, find_region, find_memory}
use n.Linker.Symbols.{GlobalSymbol, make_weak_name, find_global, lookup_global_addr}
use n.Linker.Image.{Cell, image_write, blank_image, word_bytes}
use n.Linker.Rom.{
  PlacedObject, Layout, starts_with, symbol_is_init_function, count_init_exports,
  count_init_functions_in_input, init_entries, all_init_entries, build_init_table_image,
  write_objects, write_table, write_vectors, build_rom_contents, build_rom_image,
}
use n.Linker.Rom.Vectors.{HasVectors, build_rom_image-HasVectors}

program : Unit {0}
unfolding str_eq toupper str_ieq find_region find_memory make_weak_name find_global
    lookup_global_addr image_write word_bytes starts_with symbol_is_init_function count_init_exports
    count_init_functions_in_input init_entries all_init_entries build_init_table_image write_objects
    write_table build_rom_contents build_rom_image
program = tt

abbrev board : LinkerConfig
board = record {
  mem =
      record {
        start = 0x8000;
        size = 0x8000;
        type = codes "ro";
        define_yes = false;
        name = codes "ROM";
      }
      ∷ [];
  seg = [];
}

abbrev symbol : List ℕ → ℕ → GlobalSymbol
symbol name addr = record { name = name; addr = addr; segid = 2; source = codes "a.o65" }

abbrev start_up : PlacedObject
start_up = record {
  object = record {
    mode = 0x1000;
    tbase = 0;
    dbase = 0;
    bbase = 0;
    zbase = 0;
    stack = 0;
    blen = 0;
    zlen = 0;
    text = record { bytes = 0x60 ∷ []; relocs = [] };
    data_segment = record { bytes = []; relocs = [] };
    undefs = [];
    exports = record { name = codes "__init_a"; segid = 2; value = 0 } ∷ [];
    layouts = [];
  };
  place_text_load = 0x8000;
  place_data_load = 0x9000;
}

abbrev layout : Layout
layout = record {
  copy_records = [];
  zero_records = [];
  globals =
      symbol (codes "__reset") 0x8000
      ∷ symbol (codes "__weak___nmi") 0x8102
      ∷ symbol (codes "__irqbrk") 0x8203
      ∷ symbol (codes "__init_a") 0x8304
      ∷ [];
  copy_table_addr = 0;
  zero_table_addr = 0;
  init_table_addr = 0;
  copy_table_size = 0;
  zero_table_size = 0;
  init_table_size = 0;
}

init_table : build_init_table_image (start_up ∷ []) layout ≡ ok (4 ∷ 0x83 ∷ 0 ∷ 0 ∷ [])
unfolding program
init_table = refl

-- The image of one byte and three vectors.
abbrev image : List Cell
image =
    write_vectors (set (blank_image 65536) 0x8000 (record { byte = 0x60; used = true })) 0x8102
      0x8000 0x8203

image_built : build_rom_image board (start_up ∷ []) layout ≡ ok image
unfolding program
image_built = refl

build_rom_image-HasVectors_example : HasVectors layout image
build_rom_image-HasVectors_example =
    build_rom_image-HasVectors board (start_up ∷ []) layout image image_built
