-- ===== src/Assembler/Image.antt =====
-- assembler/ihex.c: the image of the output and its Intel HEX file. The arrays `data` and `used` are
-- one list of cells; an address is not negative.
pub mod Bounds
pub mod Dump
pub mod Contents
use n.Prelude.{
  ℕ, zero, suc, ◌+◌, ◌-◌, ◌*◌, ◌/◌, ◌%◌, ◌^◌, Bool, true, false, ◌&&◌, Option, none, some, List, [],
  ◌∷◌, ◌++◌, ltb, leb, ◌==◌, if◌then◌else◌, length, set, take, drop, replicate, codes,
}
use n.Linker.Image.{Cell, HexRecord, hex2, hex4, hex_text}

abbrev pub ihex_max_addr : ℕ
ihex_max_addr = 0x10000

pub record Image : Type 0 where
  pub cells : List Cell
  pub has_data : Bool
  pub min_addr : ℕ
  pub max_addr : ℕ

unfoldable pub ihex_image_init : ℕ → Image
ihex_image_init size = record {
  cells = replicate size (record { byte = 0; used = false });
  has_data = false;
  min_addr = 0;
  max_addr = 0;
}

unfoldable pub ihex_addr_ok : ℕ → Bool
ihex_addr_ok addr = ltb addr ihex_max_addr

-- What `ihex_write_byte` does to the image at a good address.
unfoldable pub ihex_store : Image → ℕ → ℕ → Image
ihex_store img addr value = record {
  cells = set img.cells addr (record { byte = value; used = true });
  has_data = true;
  min_addr = if img.has_data then (if ltb addr img.min_addr then addr else img.min_addr) else addr;
  max_addr = if img.has_data then (if ltb img.max_addr addr then addr else img.max_addr) else addr;
}

unfoldable pub ihex_write_byte : Image → ℕ → ℕ → Image × Bool
unfolding ihex_addr_ok
ihex_write_byte img addr value =
    if ihex_addr_ok addr then (ihex_store img addr value, true) else (img, false)

unfoldable pub write_second : Image × Bool → ℕ → ℕ → Image × Bool
write_second (img, true) addr value = ihex_write_byte img addr value
write_second (img, false) addr value = (img, false)

-- The first byte stays written where the second cannot be.
unfoldable pub ihex_write_word : Image → ℕ → ℕ → Image × Bool
unfolding write_second
ihex_write_word img addr value =
    write_second (ihex_write_byte img addr (value % 256)) (addr + 1) (value / 256 % 256)

-- `sum`, an `unsigned int`.
unfoldable pub record_sum : ℕ → List ℕ → ℕ
record_sum sum [] = sum
record_sum sum (b ∷ bytes) = record_sum ((sum + b) % 2 ^ 32) bytes

-- `(-(int)sum) & 0xFF`
unfoldable pub negate_byte : ℕ → ℕ
negate_byte sum = (2 ^ 32 - sum) % 256

unfoldable pub ihex_emit_record : ℕ → List ℕ → ℕ → List ℕ
ihex_emit_record addr bytes rectype =
    let count = length bytes in
    codes ":"
    ++ hex2 count
    ++ hex4 addr
    ++ hex2 rectype
    ++ hex_text bytes
    ++ hex2 (negate_byte (record_sum (count + addr / 256 % 256 + addr % 256 + rectype) bytes))
    ++ 10 ∷ []

-- `while (addr <= img->max_addr && !img->used[addr]) addr++;`, with the cells from `addr` to
-- `max_addr`.
unfoldable pub skip_cells : ℕ → List Cell → ℕ × List Cell
skip_cells addr [] = (addr, [])
skip_cells addr (c ∷ cells) = if c.used then (addr, c ∷ cells) else skip_cells (addr + 1) cells

-- The loop that fills `buf`, which has `room` bytes left.
unfoldable pub fill_buf : ℕ → List Cell → List ℕ × List Cell
fill_buf zero cells = ([], cells)
fill_buf (suc room) [] = ([], [])
fill_buf (suc room) (c ∷ cells) =
    let next = fill_buf room cells in if c.used then (c.byte ∷ next.0, next.1) else ([], c ∷ cells)

-- The rest of a round of the outer loop, with the cells from the first that is in use on, and what
-- writes the records behind it.
unfoldable pub dump_round : (ℕ → List Cell → List HexRecord) → ℕ → List Cell → List HexRecord
dump_round next start [] = []
dump_round next start (c ∷ cs) =
    let (buf, more) = fill_buf 16 (c ∷ cs) in
    record { addr = start; chunk = buf } ∷ next (start + length buf) more

-- Each round takes a cell at least.
unfoldable pub dump_loop : ℕ → ℕ → List Cell → List HexRecord
unfolding dump_round
dump_loop zero addr cells = []
dump_loop (suc fuel) addr cells =
    let (start, rest) = skip_cells addr cells in dump_round (dump_loop fuel) start rest

-- The cells of the addresses from `min_addr` to `max_addr`.
unfoldable pub span : Image → List Cell
span img = take (img.max_addr + 1 - img.min_addr) (drop img.min_addr img.cells)

unfoldable pub dump_records : Image → List HexRecord
dump_records img =
    if img.has_data then dump_loop (length (span img)) img.min_addr (span img) else []

unfoldable pub emit_records : List HexRecord → List ℕ
emit_records [] = ihex_emit_record 0 [] 1
emit_records (r ∷ records) = ihex_emit_record (r.addr % 2 ^ 16) r.chunk 0 ++ emit_records records

-- The text of the file.
unfoldable pub ihex_dump : Image → List ℕ
ihex_dump img = emit_records (dump_records img)
