-- ===== src/Linker/Image/Hex.antt =====
-- What the records of the Intel HEX file hold.
use n.Prelude.{
  ℕ, zero, suc, ◌+◌, ◌-◌, ◌≡◌, ◌≤◌, inl, inr, true, false, ◌&&◌, Option, none, some, List, [], ◌∷◌,
  ltb, leb, if◌then◌else◌, length, get_elem?, arith, Bool-cases,
}
use native.Mathlib.Decide.{dec_lt}
use n.Linker.Image.{Cell, HexRecord, skip_unused, fill_chunk, hex_loop, hex_records}

-- The byte that a record of the list has for an address.
unfoldable pub loaded : List HexRecord → ℕ → Option ℕ
loaded [] j = none
loaded (r ∷ records) j =
    if leb r.addr j && ltb j (r.addr + length r.chunk)
    then get_elem? r.chunk (j - r.addr)
    else loaded records j

-- The byte of a cell that is in use.
unfoldable pub used_byte : List Cell → ℕ → Option ℕ
used_byte [] k = none
used_byte (c ∷ cells) zero = if c.used then some c.byte else none
used_byte (c ∷ cells) (suc k) = used_byte cells k

-- The first cell, if there is one, is in use.
abbrev HeadUsed : List Cell → Type 0
HeadUsed [] = Unit
HeadUsed (c ∷ cells) = c.used ≡ true

-- The cells that are skipped are not in use.
record Skipped (addr : ℕ) (cells : List Cell) (at : ℕ) (rest : List Cell) : Type 0 where
  onward : addr ≤ at
  shorter : length rest ≤ length cells
  stops : HeadUsed rest
  bytes :
      (k : ℕ)
      → used_byte cells k ≡ (if leb at (addr + k) then used_byte rest (addr + k - at) else none)

one_more_cell :
    (addr : ℕ) (c : Cell) (cells : List Cell) (at : ℕ) (rest : List Cell)
    → Skipped (addr + 1) cells at rest
    → c.used ≡ false
    → (k : ℕ)
    → used_byte (c ∷ cells) k ≡ (if leb at (addr + k) then used_byte rest (addr + k - at) else none)
unfolding used_byte
one_more_cell addr c cells at rest ih e zero = ground (arith, ih.onward)
one_more_cell addr c cells at rest ih e (suc k) =
    let shift : addr + suc k - at ≡ addr + 1 + k - at = omega arith in ground (arith, ih.bytes k)

skip_unused-Skipped :
    (addr : ℕ) (cells : List Cell)
    → Skipped addr cells (skip_unused addr cells).0 (skip_unused addr cells).1
unfolding skip_unused used_byte
skip_unused-Skipped addr [] = record {
  onward = omega arith;
  shorter = omega arith;
  stops = tt;
  bytes = λ k. ground arith;
}
skip_unused-Skipped addr (c ∷ cells) = elim (Bool-cases c.used) [
  | inl e ↦ simp e (record {
    onward = omega arith;
    shorter = omega arith;
    stops = e;
    bytes = λ k. let stay : addr + k - addr ≡ k = omega arith in ground arith;
  })
  | inr e ↦
      let ih = skip_unused-Skipped (addr + 1) cells in
      simp e (record {
        onward = omega (arith, ih.onward);
        shorter = omega (arith, ih.shorter);
        stops = ih.stops;
        bytes = λ k. one_more_cell addr c cells _ _ ih e k;
      })
]

-- The chunk is the bytes of the first cells, all in use.
record Filled (cells : List Cell) (chunk : List ℕ) (rest : List Cell) : Type 0 where
  split : length chunk + length rest ≡ length cells
  bytes :
      (k : ℕ)
      → used_byte cells k
        ≡ (if ltb k (length chunk) then get_elem? chunk k else used_byte rest (k - length chunk))

one_more_byte :
    (c : Cell) (cells : List Cell) (chunk : List ℕ) (rest : List Cell)
    → Filled cells chunk rest
    → c.used ≡ true
    → (k : ℕ)
    → used_byte (c ∷ cells) k ≡ (
        if ltb k (suc (length chunk))
        then get_elem? (c.byte ∷ chunk) k
        else used_byte rest (k - suc (length chunk)))
unfolding used_byte
one_more_byte c cells chunk rest ih e zero = ground arith
one_more_byte c cells chunk rest ih e (suc k) = ground (arith, ih.bytes k)

fill_chunk-Filled :
    (room : ℕ) (cells : List Cell)
    → Filled cells (fill_chunk room cells).0 (fill_chunk room cells).1
unfolding fill_chunk used_byte
fill_chunk-Filled zero cells = record { split = omega arith; bytes = λ k. ground arith }
fill_chunk-Filled (suc room) [] = record { split = omega arith; bytes = λ k. ground arith }
fill_chunk-Filled (suc room) (c ∷ cells) = elim (Bool-cases c.used) [
  | inr e ↦ simp e (record { split = omega arith; bytes = λ k. ground arith })
  | inl e ↦
      let ih = fill_chunk-Filled room cells in
      simp e
        (record { split = omega (arith, ih.split); bytes = λ k. one_more_byte c cells _ _ ih e k })
]

-- One round of the loop: `rest` is not empty.
round_loaded :
    (addr at j : ℕ) (cells rest more : List Cell) (chunk : List ℕ) (records : List HexRecord)
    → Skipped addr cells at rest
    → Filled rest chunk more
    → ((i : ℕ)
        → loaded records i
          ≡ (if leb (at + length chunk) i then used_byte more (i - (at + length chunk)) else none))
    → loaded (record { addr = at; chunk = chunk } ∷ records) j
      ≡ (if leb addr j then used_byte cells (j - addr) else none)
unfolding loaded
round_loaded addr at j cells rest more chunk records skip fill later = elim (dec_lt j addr) [
  | yes low ↦ ground (arith, skip.onward, later j)
  | no h ↦
      let back : addr + (j - addr) ≡ j = omega arith in
      let twice : j - at - length chunk ≡ j - (at + length chunk) = omega arith in
      ground (arith, skip.onward, skip.bytes (j - addr), fill.bytes (j - at), later j)
]

-- After the last round nothing is in use.
last_loaded :
    (addr at j : ℕ) (cells : List Cell)
    → Skipped addr cells at []
    → loaded [] j ≡ (if leb addr j then used_byte cells (j - addr) else none)
unfolding loaded used_byte
last_loaded addr at j cells skip =
    let back : addr ≤ j → addr + (j - addr) ≡ j = λ le. omega arith in
    ground (arith, skip.bytes (j - addr))

chunk_filled :
    (room : ℕ) (c : Cell) (cells : List Cell)
    → c.used ≡ true
    → 1 ≤ length (fill_chunk (suc room) (c ∷ cells)).0
unfolding fill_chunk
chunk_filled room c cells e = ground arith

abbrev pub Loads : ℕ → Type 0
Loads fuel =
    (addr : ℕ) (cells : List Cell) (j : ℕ)
    → length cells ≤ fuel
    → loaded (hex_loop fuel addr cells) j
      ≡ (if leb addr j then used_byte cells (j - addr) else none)

next_round :
    (fuel addr at j : ℕ) (cells rest : List Cell)
    → length cells ≤ suc fuel
    → Loads fuel
    → Skipped addr cells at rest
    → loaded
        (elim rest [
          | [] ↦ []
          | c ∷ cs ↦
              record { addr = at; chunk = (fill_chunk 16 (c ∷ cs)).0 }
              ∷ hex_loop fuel (at + length (fill_chunk 16 (c ∷ cs)).0) (fill_chunk 16 (c ∷ cs)).1
        ])
        j
      ≡ (if leb addr j then used_byte cells (j - addr) else none)
next_round fuel addr at j cells [] le ih skip = last_loaded addr at j cells skip
next_round fuel addr at j cells (c ∷ cs) le ih skip =
    let fill = fill_chunk-Filled 16 (c ∷ cs) in
    let one = chunk_filled 15 c cs skip.stops in
    round_loaded addr at j cells (c ∷ cs) _ _ _ skip fill (λ i.
      ih (at + length (fill_chunk 16 (c ∷ cs)).0) (fill_chunk 16 (c ∷ cs)).1 i
        (omega (arith, fill.split, skip.shorter, one, le)))

pub hex_loop-loaded : (fuel : ℕ) → Loads fuel
unfolding hex_loop
hex_loop-loaded zero addr [] j le = unfold loaded used_byte in ground arith
hex_loop-loaded zero addr (c ∷ cells) j le = absurd (omega arith)
hex_loop-loaded (suc fuel) addr cells j le =
    next_round fuel addr (skip_unused addr cells).0 j cells (skip_unused addr cells).1 le
      (hex_loop-loaded fuel) (skip_unused-Skipped addr cells)

-- The records of the file hold exactly the cells in use: for every address, the byte that they
-- load there is that of the image if the cell is in use, and there is none otherwise.
pub hex_records-loaded :
    (image : List Cell) (j : ℕ) → loaded (hex_records image) j ≡ used_byte image j
unfolding hex_records
hex_records-loaded image j =
    let zero_sub : j - 0 ≡ j = omega arith in
    ground (arith, hex_loop-loaded (length image) 0 image j (omega arith))
