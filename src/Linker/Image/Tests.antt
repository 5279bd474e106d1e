-- ===== src/Linker/Image/Tests.antt =====
-- A small image, and the theorems about images and HEX files applied to it.
use n.Prelude.{
  ℕ, ◌≡◌, refl, ◌<◌, ◌%◌, ◌/◌, true, false, List, [], ◌∷◌, ◌++◌, length, get_elem?, codes,
  replicate, arith,
}
use n.Linker.{ok, err, image_overflow}
use n.Linker.Image.{
  Cell, image_write, blank_image, word_bytes, build_copy_table_image, sum_bytes, hex_checksum,
  subtract_all, hex_digit, hex2, hex4, hex_text, emit_hex_record, skip_unused, fill_chunk, hex_loop,
  hex_records, emit_all, write_intel_hex,
}
use n.Linker.Image.Write.{written, image_write-written}
use n.Linker.Image.Hex.{loaded, used_byte, hex_records-loaded}
use n.Linker.Image.Checksum.{total, line_of, emit_hex_record-total}

program : Unit {0}
unfolding image_write blank_image word_bytes build_copy_table_image sum_bytes hex_checksum
    subtract_all hex_digit hex2 hex4 hex_text emit_hex_record skip_unused fill_chunk hex_loop
    hex_records emit_all write_intel_hex
program = tt

abbrev unused : Cell
unused = record { byte = 0xff; used = false }

abbrev cell : ℕ → Cell
cell b = record { byte = b; used = true }

abbrev blank : List Cell
blank = replicate 6 unused

abbrev two_bytes : List ℕ
two_bytes = 7 ∷ 8 ∷ []

abbrev image : List Cell
image = unused ∷ unused ∷ cell 7 ∷ cell 8 ∷ unused ∷ unused ∷ []

two_written : image_write blank 2 (7 ∷ 8 ∷ []) ≡ ok image
unfolding program
two_written = refl

past_the_end : image_write blank 0xffff (7 ∷ 8 ∷ []) ≡ err image_overflow
unfolding program
past_the_end = refl

text : write_intel_hex image ≡ codes ":020002000708ED" ++ 10 ∷ codes ":00000001FF" ++ 10 ∷ []
unfolding program
text = refl

image_write-written_example :
    (length image ≡ length blank) × (get_elem? image 3 ≡ written blank 2 (7 ∷ 8 ∷ []) 3)
image_write-written_example =
    image_write-written blank image 2 (7 ∷ 8 ∷ []) 3 (omega arith) two_written

hex_records-loaded_example : loaded (hex_records image) 3 ≡ used_byte image 3
hex_records-loaded_example = hex_records-loaded image 3

emit_hex_record-total_example :
    (csum : ℕ) × (csum < 256)
    × (emit_hex_record 0x8002 (7 ∷ 8 ∷ []) 0
        ≡ line_of ((2 ∷ 0x8002 / 256 % 256 ∷ 0x8002 % 256 ∷ 0 ∷ 7 ∷ 8 ∷ []) ++ csum ∷ []))
    × (total ((2 ∷ 0x8002 / 256 % 256 ∷ 0x8002 % 256 ∷ 0 ∷ 7 ∷ 8 ∷ []) ++ csum ∷ []) % 256 ≡ 0)
emit_hex_record-total_example =
    emit_hex_record-total 0x8002 (7 ∷ 8 ∷ []) 0 (omega arith) (omega arith) (omega arith)
