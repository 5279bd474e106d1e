-- ===== src/Assembler/Image/Contents.antt =====
-- What the image holds after bytes were written.
use n.Prelude.{
  ℕ, zero, suc, ◌+◌, ◌-◌, ◌≡◌, ◌≤◌, ◌<◌, refl, ap, ◌∙◌, true, false, ◌&&◌, Option, none, some, List,
  [], ◌∷◌, ltb, leb, ◌==◌, if◌then◌else◌, length, length-set, set, replicate, get_elem?, arith,
  length-replicate,
}
use native.Mathlib.Decide.{dec_lt}
use n.Linker.Image.{Cell}
use n.Linker.Image.Hex.{used_byte}
use n.Assembler.Image.{Image, ihex_store, ihex_image_init, ihex_max_addr}
use n.Assembler.Image.Bounds.{IsBounded, init-IsBounded, ihex_store-IsBounded}
use n.Assembler.Emit.Writes.{write_bytes}

-- A bounded image of 64 KiB.
pub record IsImage (img : Image) : Type 0 where
  pub bounded : IsBounded img
  pub whole : length img.cells ≡ ihex_max_addr

init-length : (size : ℕ) → length (ihex_image_init size).cells ≡ size
unfolding ihex_image_init
init-length size = length-replicate {A = Cell} size (record { byte = 0; used = false })

init_byte : (size j : ℕ) → used_byte (replicate size (record { byte = 0; used = false })) j ≡ none
unfolding used_byte
init_byte zero j = refl
init_byte (suc size) zero = refl
init_byte (suc size) (suc j) = init_byte size j

pub init-byte : (size j : ℕ) → used_byte (ihex_image_init size).cells j ≡ none
unfolding ihex_image_init
init-byte size j = init_byte size j

pub init-IsImage : IsImage (ihex_image_init ihex_max_addr)
init-IsImage = record { bounded = init-IsBounded ihex_max_addr; whole = init-length ihex_max_addr }

store-IsImage :
    (img : Image) (at b : ℕ) → IsImage img → at < ihex_max_addr → IsImage (ihex_store img at b)
store-IsImage img at b h le = record {
  bounded = ihex_store-IsBounded img at b h.bounded (omega (arith, h.whole));
  whole = unfold ihex_store in length-set img.cells at (record { byte = b; used = true }) ∙ h.whole;
}

used_byte-set :
    (cells : List Cell) (i b j : ℕ)
    → i < length cells
    → used_byte (set cells i (record { byte = b; used = true })) j
      ≡ (if i == j then some b else used_byte cells j)
unfolding used_byte
used_byte-set [] i b j h = elim h [ ]
used_byte-set (c ∷ cells) zero b zero h = ground arith
used_byte-set (c ∷ cells) zero b (suc j) h = ground arith
used_byte-set (c ∷ cells) (suc i) b zero h = ground arith
used_byte-set (c ∷ cells) (suc i) b (suc j) h = ground (arith, used_byte-set cells i b j)

-- The byte that a block at an address has for another address.
unfoldable pub block_byte : ℕ → List ℕ → ℕ → Option ℕ
block_byte at bytes j =
    if leb at j && ltb j (at + length bytes) then get_elem? bytes (j - at) else none

abbrev pub or_else : Option ℕ → Option ℕ → Option ℕ
or_else none y = y
or_else (some x) y = some x

block_cons :
    (at b j : ℕ) (bytes : List ℕ) (y : Option ℕ)
    → or_else (block_byte (at + 1) bytes j) (if at == j then some b else y)
      ≡ or_else (block_byte at (b ∷ bytes) j) y
unfolding block_byte
block_cons at b j bytes y = elim (dec_lt at j) [
  | yes h ↦
      let next : j - at ≡ suc (j - (at + 1)) = omega arith in
      ground (arith, ap (λ (k : ℕ). get_elem? (b ∷ bytes) k) next)
  | no h ↦ let first : j ≡ at → j - at ≡ 0 = λ e. omega arith in ground (arith, first)
]

stored_byte :
    (img : Image) (at b j : ℕ)
    → at < length img.cells
    → used_byte (ihex_store img at b).cells j ≡ (if at == j then some b else used_byte img.cells j)
unfolding ihex_store
stored_byte img at b j h = used_byte-set img.cells at b j h

-- After the write, the bytes of the block stand at its addresses, and all other cells are as before.
pub write_bytes-byte :
    (img : Image) (at : ℕ) (bytes : List ℕ) (j : ℕ)
    → IsImage img
    → length bytes ≤ ihex_max_addr - at
    → IsImage (write_bytes img at bytes)
      × (used_byte (write_bytes img at bytes).cells j
          ≡ or_else (block_byte at bytes j) (used_byte img.cells j))
unfolding write_bytes
write_bytes-byte img at [] j h fits = (h, unfold block_byte in ground arith)
write_bytes-byte img at (b ∷ bytes) j h fits =
    let stored = store-IsImage img at b h (omega arith) in
    let (image, eq) =
      write_bytes-byte (ihex_store img at b) (at + 1) bytes j stored (omega arith) in
    (
      image,
      eq
          ∙ ap (or_else (block_byte (at + 1) bytes j))
              (stored_byte img at b j (omega (arith, h.whole)))
          ∙ block_cons at b j bytes (used_byte img.cells j),
    )
