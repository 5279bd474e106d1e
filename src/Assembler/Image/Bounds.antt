-- ===== src/Assembler/Image/Bounds.antt =====
-- The bounds of the image.
use n.Prelude.{
  ℕ, ◌≡◌, ◌≤◌, ◌<◌, Bool, true, false, List, length, length-set, get_or, get_or-replicate,
  get_or-set, arith,
}
use n.Linker.Image.{Cell}
use n.Assembler.Image.{Image, ihex_image_init, ihex_store}

-- Whether the cell at an address is in use.
abbrev pub used_at : List Cell → ℕ → Bool
used_at cells i = (get_or cells i (record { byte = 0; used = false })).used

-- Every cell in use lies within the bounds, and so do the bounds within the image.
pub record IsBounded (img : Image) : Type 0 where
  pub within :
      (i : ℕ)
      → used_at img.cells i ≡ true
      → (img.has_data ≡ true) × (img.min_addr ≤ i) × (i ≤ img.max_addr)
  pub inside : img.has_data ≡ true → img.max_addr < length img.cells
  pub ordered : img.has_data ≡ true → img.min_addr ≤ img.max_addr

pub init-IsBounded : (size : ℕ) → IsBounded (ihex_image_init size)
unfolding ihex_image_init
init-IsBounded size =
    let blank = λ (i : ℕ). get_or-replicate {A = Cell} size i (record { byte = 0; used = false }) in
    record {
      within = λ i e. ground (arith, blank i);
      inside = λ e. ground arith;
      ordered = λ e. ground arith;
    }

pub ihex_store-IsBounded :
    (img : Image) (addr value : ℕ)
    → IsBounded img
    → addr < length img.cells
    → IsBounded (ihex_store img addr value)
unfolding ihex_store
ihex_store-IsBounded img addr value h le = record {
  within = λ i e. ground (
    arith,
    h.within i,
    get_or-set img.cells addr i (record { byte = value; used = true })
        (record { byte = 0; used = false }),
  );
  inside = λ e.
      ground (arith, h.inside, length-set img.cells addr (record { byte = value; used = true }));
  ordered = λ e. ground (arith, h.ordered);
}
