-- ===== src/Assembler/Image/Dump.antt =====
-- The records of the file are those that the linker would write of the same cells.
use n.Prelude.{
  ℕ, zero, suc, ◌+◌, ◌-◌, ◌≡◌, ◌≤◌, refl, inl, inr, true, false, none, List, [], ◌∷◌, ltb, leb,
  if◌then◌else◌, length, take, drop, arith, Bool-cases,
}
use native.Mathlib.Decide.{dec_lt}
use n.Linker.Image.{Cell, skip_unused, fill_chunk, hex_loop}
use n.Assembler.Image.{skip_cells, fill_buf, dump_loop, dump_round, Image, span, dump_records}
use n.Assembler.Image.Bounds.{IsBounded, used_at}
use n.Linker.Image.Hex.{loaded, used_byte, hex_loop-loaded}

skip_cells_lem : (addr : ℕ) (cells : List Cell) → skip_cells addr cells ≡ skip_unused addr cells
unfolding skip_cells skip_unused
skip_cells_lem addr [] = refl
skip_cells_lem addr (c ∷ cells) = ground (arith, skip_cells_lem (addr + 1) cells)

fill_buf_lem : (room : ℕ) (cells : List Cell) → fill_buf room cells ≡ fill_chunk room cells
unfolding fill_buf fill_chunk
fill_buf_lem zero cells = refl
fill_buf_lem (suc room) [] = refl
fill_buf_lem (suc room) (c ∷ cells) = ground (arith, fill_buf_lem room cells)

round_lem :
    (fuel start : ℕ) (rest : List Cell)
    → ((addr : ℕ) (cells : List Cell) → dump_loop fuel addr cells ≡ hex_loop fuel addr cells)
    → dump_round (dump_loop fuel) start rest ≡ (elim rest [
      | [] ↦ []
      | c ∷ cs ↦
          record { addr = start; chunk = (fill_chunk 16 (c ∷ cs)).0 }
          ∷ hex_loop fuel (start + length (fill_chunk 16 (c ∷ cs)).0) (fill_chunk 16 (c ∷ cs)).1
    ])
unfolding dump_round
round_lem fuel start [] ih = refl
round_lem fuel start (c ∷ cs) ih = rw (fill_buf_lem 16 (c ∷ cs), ih) refl

dump_loop_lem :
    (fuel addr : ℕ) (cells : List Cell) → dump_loop fuel addr cells ≡ hex_loop fuel addr cells
unfolding dump_loop hex_loop
dump_loop_lem zero addr cells = refl
dump_loop_lem (suc fuel) addr cells =
    rw (skip_cells_lem addr cells)
      (round_lem fuel (skip_unused addr cells).0 (skip_unused addr cells).1 (dump_loop_lem fuel))

used_byte-drop :
    (m i : ℕ) (cells : List Cell) → used_byte (drop m cells) i ≡ used_byte cells (m + i)
unfolding used_byte
used_byte-drop zero i cells = ground arith
used_byte-drop (suc m) i [] = ground arith
used_byte-drop (suc m) i (c ∷ cells) = ground (arith, used_byte-drop m i cells)

used_byte-take :
    (m i : ℕ) (cells : List Cell)
    → used_byte (take m cells) i ≡ (if ltb i m then used_byte cells i else none)
unfolding used_byte
used_byte-take zero i cells = ground arith
used_byte-take (suc m) i [] = ground arith
used_byte-take (suc m) zero (c ∷ cells) = ground arith
used_byte-take (suc m) (suc i) (c ∷ cells) = ground (arith, used_byte-take m i cells)

used_byte-unused : (cells : List Cell) (i : ℕ) → used_at cells i ≡ false → used_byte cells i ≡ none
unfolding used_byte
used_byte-unused [] i h = ground arith
used_byte-unused (c ∷ cells) zero h = ground arith
used_byte-unused (c ∷ cells) (suc i) h = used_byte-unused cells i h

no_records : (j : ℕ) → loaded [] j ≡ none
unfolding loaded
no_records j = refl

unbounded :
    (img : Image) (j : ℕ)
    → IsBounded img
    → ¬ ((img.has_data ≡ true) × (img.min_addr ≤ j) × (j ≤ img.max_addr))
    → used_byte img.cells j ≡ none
unbounded img j h out = elim (Bool-cases (used_at img.cells j)) [
  | inl e ↦ absurd (out (h.within j e))
  | inr e ↦ used_byte-unused img.cells j e
]

span-byte :
    (img : Image) (j : ℕ)
    → IsBounded img
    → img.has_data ≡ true
    → (if leb img.min_addr j then used_byte (span img) (j - img.min_addr) else none)
      ≡ used_byte img.cells j
unfolding span
span-byte img j h e = elim (dec_lt j img.min_addr) [
  | yes low ↦ ground (arith, unbounded img j h (λ x. absurd (omega (arith, x.1))))
  | no high ↦
      let back : img.min_addr + (j - img.min_addr) ≡ j = omega arith in
      let bound = h.ordered e in
      elim (dec_lt img.max_addr j) [
        | yes far ↦ ground (
          arith,
          unbounded img j h (λ x. absurd (omega (arith, x.2))),
          used_byte-take (img.max_addr + 1 - img.min_addr) (j - img.min_addr)
              (drop img.min_addr img.cells),
        )
        | no near ↦ ground (
          arith,
          back,
          used_byte-drop img.min_addr (j - img.min_addr) img.cells,
          used_byte-take (img.max_addr + 1 - img.min_addr) (j - img.min_addr)
              (drop img.min_addr img.cells),
        )
      ]
]

-- In a bounded image: for every address, the byte that the records of the file load there is that of
-- the image if the cell is in use, and there is none otherwise.
pub dump_records-loaded :
    (img : Image) (j : ℕ) → IsBounded img → loaded (dump_records img) j ≡ used_byte img.cells j
dump_records-loaded img j h = elim (Bool-cases img.has_data) [
  | inr e ↦
      unfold dump_records in ground (arith, no_records j, unbounded img j h (λ x. cc (x.0, e)))
  | inl e ↦
      unfold dump_records in
      ground (
        arith,
        dump_loop_lem (length (span img)) img.min_addr (span img),
        hex_loop-loaded (length (span img)) img.min_addr (span img) j (omega arith),
        span-byte img j h e,
      )
]
