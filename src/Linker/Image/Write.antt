-- ===== src/Linker/Image/Write.antt =====
-- Writes into the ROM image, and the checksum of a record.
use n.Prelude.{
  ℕ, zero, suc, ◌+◌, ◌-◌, ◌≡◌, ◌<◌, ◌≤◌, refl, ◌∙◌, inl, inr, true, ◌&&◌, Option, none, some, List,
  [], ◌∷◌, ltb, leb, ◌==◌, if◌then◌else◌, length, length-set, get_elem?, set, arith, Bool-cases,
}
use native.Mathlib.Decide.{dec_lt}
use n.Linker.{ok}
use n.Linker.Image.{Cell, image_write}

pub get_elem?-set :
    (xs : List Cell) (i j : ℕ) (v : Cell)
    → i < length xs
    → get_elem? (set xs i v) j ≡ (if i == j then some v else get_elem? xs j)
get_elem?-set [] i j v h = elim h [ ]
get_elem?-set (x ∷ xs) zero zero v h = refl
get_elem?-set (x ∷ xs) zero (suc j) v h = ground arith
get_elem?-set (x ∷ xs) (suc i) zero v h = ground arith
get_elem?-set (x ∷ xs) (suc i) (suc j) v h = ground (arith, get_elem?-set xs i j v)

image_write_ok :
    (image out : List Cell) (a b : ℕ) (src : List ℕ)
    → image_write image a (b ∷ src) ≡ ok out
    → (a < 0x10000)
      × (image_write (set image a (record { byte = b; used = true })) (a + 1) src ≡ ok out)
unfolding image_write
image_write_ok image out a b src e = elim (Bool-cases (ltb 0xffff a)) [
  | inl q ↦ absurd (ground arith)
  | inr q ↦ (ground arith, ground arith)
]

-- The cell that a write leaves at `j`.
unfoldable pub written : List Cell → ℕ → List ℕ → ℕ → Option Cell
written image addr src j =
    if leb addr j && ltb j (addr + length src)
    then elim (get_elem? src (j - addr)) [
      | none ↦ none
      | some b ↦ some (record { byte = b; used = true })
    ]
    else get_elem? image j

-- In an image that the write does not leave: if it does not stop the linker, the cells of the
-- range hold the source's bytes and are marked as used, and every other cell stays.
pub image_write-written :
    (image out : List Cell) (addr : ℕ) (src : List ℕ) (j : ℕ)
    → addr + length src ≤ length image
    → image_write image addr src ≡ ok out
    → (length out ≡ length image) × (get_elem? out j ≡ written image addr src j)
unfolding image_write written
image_write-written image out addr [] j h e = (ground arith, ground arith)
image_write-written image out addr (b ∷ src) j h e =
    let (low, next) = image_write_ok image out addr b src e in
    let cell : Cell = record { byte = b; used = true } in
    let same : length (set image addr cell) ≡ length image = length-set image addr cell in
    let (len', cells) =
      image_write-written (set image addr cell) out (addr + 1) src j (omega arith) next in
    let len : length out ≡ length image = len' ∙ same in
    let at = get_elem?-set image addr j cell (omega arith) in
    (
      len,
      elim (dec_lt addr j) [
        | yes lt ↦
            let shift : j - addr ≡ suc (j - (addr + 1)) = omega arith in ground (arith, cells, at)
        | no ge ↦ elim (dec_lt j addr) [
          | yes lt ↦ ground (arith, cells, at)
          | no ge' ↦
              let same : j ≡ addr = omega arith in
              let start : j - addr ≡ 0 = omega arith in ground (arith, cells, at)
        ]
      ],
    )

-- A write of some bytes that does not stop the linker ends within the 64 KiB.
pub image_write_fits :
    (image out : List Cell) (addr b : ℕ) (src : List ℕ)
    → image_write image addr (b ∷ src) ≡ ok out
    → addr + length (b ∷ src) ≤ 0x10000
image_write_fits image out addr b [] e = omega (arith, image_write_ok image out addr b [] e)
image_write_fits image out addr b (x ∷ src) e =
    let (low, next) = image_write_ok image out addr b (x ∷ src) e in
    omega (
      arith,
      image_write_fits (set image addr (record { byte = b; used = true })) out (addr + 1) x src
          next,
    )
