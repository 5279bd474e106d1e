-- ===== src/Linker/Image.antt =====
-- linker/n65ld.c: the ROM image and the Intel HEX file. The arrays `image` and `used` are one list
-- of cells.
pub mod Write
pub mod Hex
pub mod Checksum
mod Tests
use n.Prelude.{
  ℕ, zero, suc, ◌+◌, ◌-◌, ◌*◌, ◌/◌, ◌%◌, ◌^◌, Bool, true, false, ◌&&◌, Option, none, some, List, [],
  ◌∷◌, ◌++◌, ltb, leb, ◌==◌, if◌then◌else◌, length, get_elem?, set, replicate, codes, map,
}
use n.Linker.{Result, ok, err, ◌>>=◌, image_overflow}

-- `image[a]`, and whether `used[a]` is not 0.
pub record Cell : Type 0 where
  pub byte : ℕ
  pub used : Bool

-- The loop of `image_write`, where `a` is `addr + i`.
unfoldable pub image_write : List Cell → ℕ → List ℕ → Result (List Cell)
image_write image a [] = ok image
image_write image a (b ∷ src) =
    let rest = image_write (set image a (record { byte = b; used = true })) (a + 1) src in
    if ltb 0xffff a then err image_overflow else rest

-- The two calls of `memset` in `build_rom_image`.
unfoldable pub blank_image : ℕ → List Cell
blank_image size = replicate size (record { byte = 0xff; used = false })

-- `copy_record_t` and `zero_record_t`, without the names, which only the map file shows.
pub record CopyRecord : Type 0 where
  pub load_addr : ℕ
  pub run_addr : ℕ
  pub size : ℕ

pub record ZeroRecord : Type 0 where
  pub run_addr : ℕ
  pub size : ℕ

-- The two bytes of a word, the low one first.
unfoldable pub word_bytes : ℕ → List ℕ
word_bytes w = w % 256 ∷ w / 256 % 256 ∷ []

-- The table ends in the zeros of the `memset`: its size is that of one record more.
unfoldable pub build_copy_table_image : List CopyRecord → List ℕ
build_copy_table_image [] = replicate 6 0
build_copy_table_image (r ∷ records) =
    word_bytes r.load_addr
    ++ word_bytes r.run_addr
    ++ word_bytes r.size
    ++ build_copy_table_image records

unfoldable pub build_zero_table_image : List ZeroRecord → List ℕ
build_zero_table_image [] = replicate 4 0
build_zero_table_image (r ∷ records) =
    word_bytes r.run_addr ++ word_bytes r.size ++ build_zero_table_image records

-- `add_copy_record` and `add_zero_record`: an empty block has no record.
unfoldable pub add_copy_record : List CopyRecord → ℕ → ℕ → ℕ → List CopyRecord
add_copy_record records load_addr run_addr size =
    if size == 0
    then records
    else records ++ record { load_addr = load_addr; run_addr = run_addr; size = size } ∷ []

unfoldable pub add_zero_record : List ZeroRecord → ℕ → ℕ → List ZeroRecord
add_zero_record records run_addr size =
    if size == 0 then records else records ++ record { run_addr = run_addr; size = size } ∷ []

-- `sum` is a `uint32_t`.
unfoldable pub sum_bytes : List ℕ → ℕ
sum_bytes [] = 0
sum_bytes (b ∷ bytes) = (b + sum_bytes bytes) % 2 ^ 32

-- `(~sum + 1) & 0xFF`
unfoldable pub hex_checksum : List ℕ → ℕ
hex_checksum bytes = (2 ^ 32 - 1 - sum_bytes bytes + 1) % 2 ^ 32 % 256

-- `csum = (uint8_t)(csum - data[i])`, byte after byte.
unfoldable pub subtract_all : ℕ → List ℕ → ℕ
subtract_all csum [] = csum
subtract_all csum (b ∷ bytes) = subtract_all ((csum + (256 - b % 256)) % 256) bytes

-- A digit of `%X`.
unfoldable pub hex_digit : ℕ → ℕ
hex_digit d = if ltb d 10 then b'0' + d else b'A' + (d - 10)

-- `%02X` of a byte.
unfoldable pub hex2 : ℕ → List ℕ
hex2 b = hex_digit (b / 16) ∷ hex_digit (b % 16) ∷ []

unfoldable pub hex_text : List ℕ → List ℕ
hex_text [] = []
hex_text (b ∷ bytes) = hex2 b ++ hex_text bytes

-- `%04X` of a word.
unfoldable pub hex4 : ℕ → List ℕ
hex4 w =
    hex_digit (w / 4096 % 16)
    ∷ hex_digit (w / 256 % 16)
    ∷ hex_digit (w / 16 % 16)
    ∷ hex_digit (w % 16)
    ∷ []

unfoldable pub emit_hex_record : ℕ → List ℕ → ℕ → List ℕ
emit_hex_record addr bytes type =
    let hdr = length bytes ∷ addr / 256 % 256 ∷ addr % 256 ∷ type ∷ [] in
    codes ":"
    ++ hex2 (length bytes)
    ++ hex4 addr
    ++ hex2 type
    ++ hex_text bytes
    ++ hex2 (subtract_all (hex_checksum hdr) bytes)
    ++ 10 ∷ []

-- One call of `emit_hex_record`.
pub record HexRecord : Type 0 where
  pub addr : ℕ
  pub chunk : List ℕ

-- `while (addr < 65536u && !used[addr]) addr++;`, with the cells from `addr` on.
unfoldable pub skip_unused : ℕ → List Cell → ℕ × List Cell
skip_unused addr [] = (addr, [])
skip_unused addr (c ∷ cells) = if c.used then (addr, c ∷ cells) else skip_unused (addr + 1) cells

-- The loop that fills `chunk`, which has `room` bytes left.
unfoldable pub fill_chunk : ℕ → List Cell → List ℕ × List Cell
fill_chunk zero cells = ([], cells)
fill_chunk (suc room) [] = ([], [])
fill_chunk (suc room) (c ∷ cells) =
    let next = fill_chunk room cells in
    if c.used then (c.byte ∷ next.0, next.1) else ([], c ∷ cells)

-- The outer loop of `write_intel_hex`. Each round takes a cell at least, so the number of cells
-- is fuel enough.
unfoldable pub hex_loop : ℕ → ℕ → List Cell → List HexRecord
hex_loop zero addr cells = []
hex_loop (suc fuel) addr cells =
    let (at, rest) = skip_unused addr cells in
    elim rest [
      | [] ↦ []
      | c ∷ cs ↦
          let (chunk, more) = fill_chunk 16 (c ∷ cs) in
          record { addr = at; chunk = chunk } ∷ hex_loop fuel (at + length chunk) more
    ]

unfoldable pub hex_records : List Cell → List HexRecord
hex_records image = hex_loop (length image) 0 image

unfoldable pub emit_all : List HexRecord → List ℕ
emit_all [] = codes ":00000001FF" ++ 10 ∷ []
emit_all (r ∷ records) = emit_hex_record (r.addr % 2 ^ 16) r.chunk 0 ++ emit_all records

-- The text of the file.
unfoldable pub write_intel_hex : List Cell → List ℕ
write_intel_hex image = emit_all (hex_records image)
