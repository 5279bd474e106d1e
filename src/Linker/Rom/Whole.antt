-- ===== src/Linker/Rom/Whole.antt =====
-- Writes keep the size of the ROM image.
use n.Prelude.{
  ℕ, ◌+◌, ◌≡◌, ◌∙◌, inl, inr, true, List, [], ◌∷◌, ◌==◌, ltb, if◌then◌else◌, length, length-set,
  length-replicate, set, take, Bool-cases,
}
use n.Linker.{Result, ok, err, ◌>>=◌}
use n.Linker.Image.{Cell, image_write, blank_image, build_copy_table_image, build_zero_table_image}
use n.Linker.Rom.{
  PlacedObject, Layout, write_objects, write_table, build_rom_contents, build_init_table_image,
}

-- A result, if it is one, that satisfies `P`.
abbrev Whenever : (List Cell → Type 0) → Result (List Cell) → Type 0
Whenever P (ok image) = P image
Whenever P (err e) = Unit

abbrev pub Whole : List Cell → Type 0
Whole image = length image ≡ 65536

Whenever-bind :
    (r : Result (List Cell)) (f : List Cell → Result (List Cell))
    → Whenever Whole r
    → ((image : List Cell) → Whole image → Whenever Whole (f image))
    → Whenever Whole (r >>= f)
Whenever-bind (ok image) f h k = k image h
Whenever-bind (err e) f h k = tt

image_write-Whole :
    (image : List Cell) (addr : ℕ) (src : List ℕ)
    → Whole image
    → Whenever Whole (image_write image addr src)
unfolding image_write
image_write-Whole image addr [] h = h
image_write-Whole image addr (b ∷ src) h = elim (Bool-cases (ltb 0xffff addr)) [
  | inl q ↦ rw q tt
  | inr q ↦
      let cell : Cell = record { byte = b; used = true } in
      rw q (image_write-Whole (set image addr cell) (addr + 1) src (length-set image addr cell ∙ h))
]

write_objects-Whole :
    (image : List Cell) (objects : List PlacedObject)
    → Whole image
    → Whenever Whole (write_objects image objects)
unfolding write_objects
write_objects-Whole image [] h = h
write_objects-Whole image (o ∷ objects) h =
    Whenever-bind (image_write image o.place_text_load o.object.text.bytes) _
      (image_write-Whole image o.place_text_load o.object.text.bytes h)
      (λ i₁ h₁.
        Whenever-bind (image_write i₁ o.place_data_load o.object.data_segment.bytes) _
          (image_write-Whole i₁ o.place_data_load o.object.data_segment.bytes h₁)
          (λ i₂ h₂. write_objects-Whole i₂ objects h₂))

write_table-Whole :
    (image : List Cell) (addr size : ℕ) (table : List ℕ)
    → Whole image
    → Whenever Whole (write_table image addr size table)
unfolding write_table
write_table-Whole image addr size table h = elim (Bool-cases (size == 0)) [
  | inl q ↦ rw q h
  | inr q ↦ rw q (image_write-Whole image addr (take size table) h)
]

init-Whole :
    (image : List Cell) (layout : Layout) (r : Result (List ℕ))
    → Whole image
    → Whenever Whole
        (r >>= λ table. write_table image layout.init_table_addr layout.init_table_size table)
init-Whole image layout (ok table) h =
    write_table-Whole image layout.init_table_addr layout.init_table_size table h
init-Whole image layout (err e) h = tt

length-blank_image : (n : ℕ) → length (blank_image n) ≡ n
unfolding blank_image
length-blank_image n = length-replicate n _

build_rom_contents-Whole :
    (objects : List PlacedObject) (layout : Layout)
    → Whenever Whole (build_rom_contents objects layout)
unfolding build_rom_contents
build_rom_contents-Whole objects layout =
    Whenever-bind _ _
      (Whenever-bind _ _
        (Whenever-bind _ _
          (write_objects-Whole (blank_image 65536) objects (length-blank_image 65536))
          (λ image h.
            write_table-Whole image layout.copy_table_addr layout.copy_table_size
              (build_copy_table_image layout.copy_records) h))
        (λ image h.
          write_table-Whole image layout.zero_table_addr layout.zero_table_size
            (build_zero_table_image layout.zero_records) h))
      (λ image h. table_or_none image h)
  where
    table_or_none :
        (image : List Cell)
        → Whole image
        → Whenever Whole (
            if layout.init_table_size == 0
            then ok image
            else (build_init_table_image objects layout >>= λ table.
                write_table image layout.init_table_addr layout.init_table_size table))
    table_or_none image h = elim (Bool-cases (layout.init_table_size == 0)) [
      | inl q ↦ rw q h
      | inr q ↦ rw q (init-Whole image layout (build_init_table_image objects layout) h)
    ]

pub contents-Whole :
    (objects : List PlacedObject) (layout : Layout) (image : List Cell)
    → build_rom_contents objects layout ≡ ok image
    → Whole image
contents-Whole objects layout image e = rw e at (build_rom_contents-Whole objects layout)
