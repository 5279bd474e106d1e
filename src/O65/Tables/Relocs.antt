-- ===== src/O65/Tables/Relocs.antt =====
-- The relocation table.
use Prim.Native.Nat.{bit_and}
use n.Prelude.{
  ℕ, zero, suc, ◌+◌, ◌-◌, ◌^◌, ◌<◌, ◌≤◌, ◌≡◌, refl, ◌∙◌, inl, inr, not, List, [], ◌∷◌, ◌++◌, map,
  ◌==◌, if◌then◌else◌, length, length-append, arith, le→ltb, Bool-cases,
}
use n.O65.{rtype_aux, Reloc, seg_undef, Result, ok, ◌>>=◌}
use n.O65.Reader.{Reader, rd_u8, rd_u16, rd_aux, rd_reloc, reloc_loop, parse_reloc_table_old}
use n.O65.Writer.{
  WriterReloc, write_u8, write_u16, write_delta, write_reloc, write_relocs, write_reloc_table,
}
use n.O65.Tables.Fields.{IsU8, IsU16, rd_u8-write_u8, rd_u16-write_u16}
use mathlib.Core.List.{append_assoc}
use native.Mathlib.Nat.{mod-eq_of_lt, suc-add}
use native.Mathlib.Decide.{dec_lt}
use native.Mathlib.Numerals.{one-add}

-- The reader sets `undef_index` and `aux_low` to 0 where the file holds none.
pub read_reloc : WriterReloc → Reloc
read_reloc r = record {
  offset = r.offset;
  type = r.type;
  segid = r.segid;
  undef_index = if r.segid == seg_undef then r.undef_index else 0;
  aux_low = if r.has_aux_low then r.aux_low else 0;
  has_aux_low = r.has_aux_low;
}

-- The fields are in range, and the type has its auxiliary bit if and only if a byte goes with it.
pub record IsReloc (r : WriterReloc) : Type 0 where
  pub offset : r.offset < 2 ^ 32
  pub type : IsU8 r.type
  pub segid : IsU8 r.segid
  pub undef_index : IsU16 r.undef_index
  pub aux_low : IsU8 r.aux_low
  pub aux_bit : (bit_and r.type rtype_aux == 0) ≡ not r.has_aux_low

-- In the order of the file, with offsets that grow from `next` on.
abbrev pub Ascending : ℕ → List WriterReloc → Type 0
Ascending next [] = Unit {0}
Ascending next (r ∷ rs) = (next ≤ r.offset) × IsReloc r × Ascending (r.offset + 1) rs

-- What a relocation holds behind its offset.
behind : WriterReloc → List ℕ
behind r =
    write_u8 r.type
    ++ (write_u8 r.segid
        ++ ((if r.segid == seg_undef then write_u16 r.undef_index else [])
            ++ (if r.has_aux_low then write_u8 r.aux_low else [])))

rd_aux-back :
    (r : WriterReloc) (rest : List ℕ)
    → IsReloc r
    → rd_aux r.type ((if r.has_aux_low then write_u8 r.aux_low else []) ++ rest)
      ≡ ok ((if r.has_aux_low then r.aux_low else 0, r.has_aux_low), rest)
unfolding rd_aux
rd_aux-back r rest h = elim (Bool-cases r.has_aux_low) [
  | inl e ↦ ground (arith, h.aux_bit, rd_u8-write_u8 r.aux_low rest h.aux_low)
  | inr e ↦ ground (arith, h.aux_bit)
]

undef_part : WriterReloc → List ℕ
undef_part r = if r.segid == seg_undef then write_u16 r.undef_index else []

aux_part : WriterReloc → List ℕ
aux_part r = if r.has_aux_low then write_u8 r.aux_low else []

behind-append :
    (r : WriterReloc) (rest : List ℕ)
    → behind r ++ rest
      ≡ write_u8 r.type ++ (write_u8 r.segid ++ (undef_part r ++ (aux_part r ++ rest)))
unfolding behind undef_part aux_part
behind-append r rest = simp append_assoc

undef-back :
    (r : WriterReloc) (rest : List ℕ)
    → IsReloc r
    → (if r.segid == seg_undef then rd_u16 (undef_part r ++ rest) else ok (0, undef_part r ++ rest))
      ≡ ok (if r.segid == seg_undef then r.undef_index else 0, rest)
unfolding undef_part
undef-back r rest h = elim (Bool-cases (r.segid == seg_undef)) [
  | inl e ↦ rw (e, rd_u16-write_u16 r.undef_index rest h.undef_index)
  | inr e ↦ rw e
]

rd_reloc-back :
    (r : WriterReloc) (rest : List ℕ)
    → IsReloc r
    → rd_reloc r.offset (behind r ++ rest) ≡ ok (read_reloc r, rest)
unfolding rd_reloc read_reloc
rd_reloc-back r rest h =
    let aux : rd_aux r.type (aux_part r ++ rest)
        ≡ ok ((if r.has_aux_low then r.aux_low else 0, r.has_aux_low), rest) =
      unfold aux_part in rd_aux-back r rest h in
    rw (
      behind-append r rest,
      rd_u8-write_u8 r.type _ h.type,
      rd_u8-write_u8 r.segid _ h.segid,
      undef-back r _ h,
      aux,
      mod-eq_of_lt h.offset,
    )

-- What the loop does once the bytes of the offset are read.
finish : ℕ → ℕ → ℕ → Reader → Result (List Reloc × Reader)
finish fuel offset next r =
    rd_reloc offset r >>= λ y. reloc_loop fuel next y.1 >>= λ z. ok (y.0 ∷ z.0, z.1)

finish-back :
    (r : WriterReloc) (fuel : ℕ) (rest : List ℕ)
    → IsReloc r
    → finish fuel r.offset (r.offset + 1) (behind r ++ rest)
      ≡ (reloc_loop fuel (r.offset + 1) rest >>= λ z. ok (read_reloc r ∷ z.0, z.1))
unfolding finish
finish-back r fuel rest h = rw (rd_reloc-back r rest h)

module _ (fuel next : ℕ) (rest : List ℕ) where
  loop_end : reloc_loop (suc fuel) next (0 ∷ rest) ≡ ok ([], rest)
  unfolding reloc_loop rd_u8
  loop_end = refl

  loop_skip : reloc_loop (suc fuel) next (255 ∷ rest) ≡ reloc_loop fuel (next + 254) rest
  unfolding reloc_loop rd_u8
  loop_skip = refl

  loop_item :
      (d : ℕ)
      → 1 ≤ d
      → d ≤ 254
      → reloc_loop (suc fuel) next (d ∷ rest) ≡ finish fuel (next + d - 1) (next + d) rest
  unfolding reloc_loop rd_u8 finish
  loop_item d lo hi = ground arith

write_delta_more :
    (rounds delta : ℕ)
    → 254 < delta
    → write_delta (suc rounds) delta ≡ 255 ∷ write_delta rounds (delta - 254)
unfolding write_delta write_u8
write_delta_more rounds delta h = ground arith

write_delta_last : (rounds delta : ℕ) → delta ≤ 254 → write_delta (suc rounds) delta ≡ delta ∷ []
unfolding write_delta write_u8
write_delta_last rounds delta h = ground arith

-- The bytes 255 and the last byte add up to the difference of the offsets.
reloc_loop-write_delta :
    (rounds delta next fuel : ℕ) (rest : List ℕ)
    → 1 ≤ delta
    → delta ≤ rounds
    → reloc_loop (length (write_delta rounds delta) + fuel) next (write_delta rounds delta ++ rest)
      ≡ finish fuel (next + delta - 1) (next + delta) rest
reloc_loop-write_delta zero delta next fuel rest lo hi = absurd (omega arith)
reloc_loop-write_delta (suc rounds) delta next fuel rest lo hi = elim (dec_lt 254 delta) [
  | yes more ↦
      let next' : next + 254 + (delta - 254) ≡ next + delta = omega arith in
      rw (write_delta_more rounds delta more, suc-add, loop_skip)
        (reloc_loop-write_delta rounds (delta - 254) (next + 254) fuel rest (omega arith)
            (omega arith)
          ∙ rw next')
  | no last ↦
      rw (write_delta_last rounds delta (omega arith), one-add)
        (loop_item fuel next rest delta lo (omega arith))
]

write_reloc_ascending :
    (next : ℕ) (r : WriterReloc)
    → next ≤ r.offset
    → write_reloc next r ≡ write_delta (r.offset + 1 - next) (r.offset + 1 - next) ++ behind r
unfolding write_reloc behind
write_reloc_ascending next r h = rw (le→ltb r.offset next h)

reloc_loop-write_relocs :
    (rs : List WriterReloc) (next fuel : ℕ) (rest : List ℕ)
    → Ascending next rs
    → reloc_loop (length (write_relocs next rs) + fuel) next (write_relocs next rs ++ rest)
      ≡ ok (map read_reloc rs, rest)
reloc_loop-write_relocs [] next fuel rest h =
    unfold write_relocs write_u8 in rw one-add (loop_end fuel next rest)
reloc_loop-write_relocs (r ∷ rs) next fuel rest h =
    let d : ℕ = r.offset + 1 - next in
    let D : List ℕ = write_delta d d in
    let B : List ℕ = behind r in
    let T : List ℕ = write_relocs (r.offset + 1) rs in
    let whole : write_relocs next (r ∷ rs) ≡ (D ++ B) ++ T =
      unfold write_relocs in rw (write_reloc_ascending next r h.0) in
    let bytes : ((D ++ B) ++ T) ++ rest ≡ D ++ (B ++ (T ++ rest)) = simp append_assoc in
    let size : length ((D ++ B) ++ T) + fuel ≡ length D + (length T + (length B + fuel)) =
      rw (length-append (D ++ B) T, length-append D B) (omega arith) in
    let at : next + d - 1 ≡ r.offset = omega (arith, h.0) in
    let on : next + d ≡ r.offset + 1 = omega (arith, h.0) in
    rw (whole, bytes, size)
      (reloc_loop-write_delta d d next (length T + (length B + fuel)) (B ++ (T ++ rest))
          (omega (arith, h.0)) (omega arith)
        ∙ rw (at, on)
            (finish-back r (length T + (length B + fuel)) (T ++ rest) h.1
              ∙ rw (reloc_loop-write_relocs rs (r.offset + 1) (length B + fuel) rest h.2)))

-- A table of relocations at growing offsets, with their fields in range, is read back as it was
-- written, and the bytes behind it are left; where a relocation has no index of an undefined name
-- or no auxiliary byte the reader has 0.
pub parse_reloc_table_old-write :
    (rs : List WriterReloc) (rest : List ℕ)
    → Ascending 0 rs
    → parse_reloc_table_old (write_reloc_table rs ++ rest) ≡ ok (map read_reloc rs, rest)
unfolding parse_reloc_table_old write_reloc_table
parse_reloc_table_old-write rs rest h =
    let fuel : suc (length (write_relocs 0 rs ++ rest))
        ≡ length (write_relocs 0 rs) + suc (length rest) =
      omega (arith, length-append (write_relocs 0 rs) rest) in
    rw fuel (reloc_loop-write_relocs rs 0 (suc (length rest)) rest h)
