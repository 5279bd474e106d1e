-- ===== src/Linker/Rom.antt =====
-- linker/n65ld.c: the tables of the run-time start-up and the ROM image as a whole.
pub mod Whole
pub mod Vectors
mod Tests
use n.Prelude.{
  ℕ, ◌+◌, ◌*◌, ◌/◌, ◌%◌, ◌^◌, Bool, true, false, ◌||◌, Option, none, some, List, [], ◌∷◌, ◌++◌, ltb,
  ◌==◌, if◌then◌else◌, length, set, take, replicate, codes, str_eq,
}
use n.O65.{Symbol, ObjectFile}
use n.Linker.{LinkerConfig, Result, ok, err, ◌>>=◌, region_not_found}
use n.Linker.Place.{find_memory}
use n.Linker.Symbols.{GlobalSymbol, lookup_global_addr}
use n.Linker.Image.{
  Cell, image_write, blank_image, CopyRecord, ZeroRecord, word_bytes, build_copy_table_image,
  build_zero_table_image,
}

-- An object with its `place_text_load` and `place_data_load`.
pub record PlacedObject : Type 0 where
  pub object : ObjectFile
  pub place_text_load : ℕ
  pub place_data_load : ℕ

-- The part of `layout_t` that the image is made of.
pub record Layout : Type 0 where
  pub copy_records : List CopyRecord
  pub zero_records : List ZeroRecord
  pub globals : List GlobalSymbol
  pub copy_table_addr : ℕ
  pub zero_table_addr : ℕ
  pub init_table_addr : ℕ
  pub copy_table_size : ℕ
  pub zero_table_size : ℕ
  pub init_table_size : ℕ

-- `strncmp(name, prefix, strlen(prefix)) == 0`
unfoldable pub starts_with : List ℕ → List ℕ → Bool
starts_with name [] = true
starts_with [] (p ∷ prefix) = false
starts_with (c ∷ name) (p ∷ prefix) = if c == p then starts_with name prefix else false

unfoldable pub symbol_is_init_function : List ℕ → Bool
symbol_is_init_function name = str_eq name (codes "__init") || starts_with name (codes "__init_")

unfoldable pub count_init_exports : List Symbol → ℕ
count_init_exports [] = 0
count_init_exports (e ∷ exports) =
    let rest = count_init_exports exports in
    if symbol_is_init_function e.name then rest + 1 else rest

unfoldable pub count_init_functions_in_input : List PlacedObject → ℕ
count_init_functions_in_input [] = 0
count_init_functions_in_input (o ∷ objects) =
    count_init_exports o.object.exports + count_init_functions_in_input objects

unfoldable pub init_entries : List GlobalSymbol → List Symbol → Result (List ℕ)
init_entries globals [] = ok []
init_entries globals (e ∷ exports) =
    let rest = init_entries globals exports in
    if symbol_is_init_function e.name
    then (lookup_global_addr globals e.name >>= λ addr.
        rest >>= λ table. ok (word_bytes addr ++ table))
    else rest

unfoldable pub all_init_entries : List GlobalSymbol → List PlacedObject → Result (List ℕ)
all_init_entries globals [] = ok []
all_init_entries globals (o ∷ objects) = init_entries globals o.object.exports >>= λ first.
    all_init_entries globals objects >>= λ table. ok (first ++ table)

-- The entries, and the two zeros that the `memset` leaves behind them.
unfoldable pub build_init_table_image : List PlacedObject → Layout → Result (List ℕ)
build_init_table_image objects layout =
    all_init_entries layout.globals objects >>= λ table. ok (table ++ replicate 2 0)

unfoldable pub write_objects : List Cell → List PlacedObject → Result (List Cell)
write_objects image [] = ok image
write_objects image (o ∷ objects) =
    image_write image o.place_text_load o.object.text.bytes >>= λ image'.
    image_write image' o.place_data_load o.object.data_segment.bytes >>= λ image''.
    write_objects image'' objects

-- `if (size > 0) { … image_write(image, used, addr, table, size, …); }`
unfoldable pub write_table : List Cell → ℕ → ℕ → List ℕ → Result (List Cell)
write_table image addr size table =
    if size == 0 then ok image else image_write image addr (take size table)

-- `image[at] = …; image[at + 1] = …;` with both bytes marked as used.
unfoldable pub write_vector : List Cell → ℕ → ℕ → List Cell
write_vector image at addr =
    set (set image at (record { byte = addr % 256; used = true })) (at + 1)
      (record { byte = addr / 256 % 256; used = true })

unfoldable pub write_vectors : List Cell → ℕ → ℕ → ℕ → List Cell
write_vectors image nmi reset irqbrk =
    write_vector (write_vector (write_vector image 0xfffa nmi) 0xfffc reset) 0xfffe irqbrk

-- The image before the vectors.
unfoldable pub build_rom_contents : List PlacedObject → Layout → Result (List Cell)
build_rom_contents objects layout =
    write_objects (blank_image 65536) objects
    >>= (λ image.
        write_table image layout.copy_table_addr layout.copy_table_size
          (build_copy_table_image layout.copy_records))
    >>= (λ image.
        write_table image layout.zero_table_addr layout.zero_table_size
          (build_zero_table_image layout.zero_records))
    >>= (λ image.
        if layout.init_table_size == 0
        then ok image
        else (build_init_table_image objects layout >>= λ table.
            write_table image layout.init_table_addr layout.init_table_size table))

unfoldable pub build_rom_image : LinkerConfig → List PlacedObject → Layout → Result (List Cell)
build_rom_image cfg objects layout = elim (find_memory cfg (codes "ROM")) [
  | none ↦ err region_not_found
  | some rom ↦ build_rom_contents objects layout >>= λ image.
      lookup_global_addr layout.globals (codes "__reset") >>= λ reset.
      lookup_global_addr layout.globals (codes "__nmi") >>= λ nmi.
      lookup_global_addr layout.globals (codes "__irqbrk") >>= λ irqbrk.
      ok (write_vectors image nmi reset irqbrk)
]
