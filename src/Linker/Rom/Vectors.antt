-- ===== src/Linker/Rom/Vectors.antt =====
-- What every ROM image has.
use n.Prelude.{
  ℕ, ◌+◌, ◌/◌, ◌%◌, ◌≡◌, ◌<◌, refl, ap, ◌∙◌, ◌⊎◌, inl, inr, true, some, List, ◌==◌, if◌then◌else◌,
  length, length-set, get_elem?, set, codes, Option-cases, arith,
}
use n.Linker.{Fault, LinkerConfig, Result, ok, err}
use n.Linker.Place.{find_memory}
use n.Linker.Symbols.{lookup_global_addr}
use n.Linker.Image.{Cell}
use n.Linker.Rom.{
  PlacedObject, Layout, write_vector, write_vectors, build_rom_contents, build_rom_image,
}
use mathlib.Core.Path.{subst}
use n.Linker.Rom.Whole.{Whole, contents-Whole}
use n.Linker.Image.Write.{get_elem?-set}

-- The word at an address of the image, in cells that are in use.
abbrev pub Vector : List Cell → ℕ → ℕ → Type 0
Vector image at addr =
    (get_elem? image at ≡ some (record { byte = addr % 256; used = true }))
    × (get_elem? image (at + 1) ≡ some (record { byte = addr / 256 % 256; used = true }))

write_vector_cells :
    (image : List Cell) (at addr j : ℕ)
    → at + 1 < length image
    → (length (write_vector image at addr) ≡ length image)
      × (get_elem? (write_vector image at addr) j ≡ (
          if at + 1 == j
          then some (record { byte = addr / 256 % 256; used = true })
          else (if at == j
              then some (record { byte = addr % 256; used = true })
              else get_elem? image j)))
unfolding write_vector
write_vector_cells image at addr j h =
    let lo : Cell = record { byte = addr % 256; used = true } in
    let hi : Cell = record { byte = addr / 256 % 256; used = true } in
    let same : length (set image at lo) ≡ length image = length-set image at lo in
    (
      length-set (set image at lo) (at + 1) hi ∙ same,
      get_elem?-set (set image at lo) (at + 1) j hi (omega arith)
          ∙ ap (λ o. if at + 1 == j then some hi else o)
              (get_elem?-set image at j lo (omega arith)),
    )

module _ (image : List Cell) (nmi reset irqbrk : ℕ) (h : Whole image) where
  first_two :
      (j : ℕ)
      → (length (write_vector (write_vector image 0xfffa nmi) 0xfffc reset) ≡ 65536)
        × (get_elem? (write_vector (write_vector image 0xfffa nmi) 0xfffc reset) j ≡ (
            if 0xfffd == j
            then some (record { byte = reset / 256 % 256; used = true })
            else (if 0xfffc == j
                then some (record { byte = reset % 256; used = true })
                else get_elem? (write_vector image 0xfffa nmi) j)))
  first_two j =
      let (len, cells) = write_vector_cells image 0xfffa nmi j (omega arith) in
      let (len', cells') =
        write_vector_cells (write_vector image 0xfffa nmi) 0xfffc reset j (omega arith) in
      (len' ∙ len ∙ h, cells')

  -- The last vector is the interrupt's.
  written_at :
      (j : ℕ)
      → get_elem? (write_vectors image nmi reset irqbrk) j ≡ (
          if 0xffff == j
          then some (record { byte = irqbrk / 256 % 256; used = true })
          else (if 0xfffe == j
              then some (record { byte = irqbrk % 256; used = true })
              else get_elem? (write_vector (write_vector image 0xfffa nmi) 0xfffc reset) j))
  unfolding write_vectors
  written_at j =
      let len = (first_two j).0 in
      (write_vector_cells (write_vector (write_vector image 0xfffa nmi) 0xfffc reset) 0xfffe irqbrk
        j (omega arith)).1

  nmi_at :
      (j : ℕ)
      → get_elem? (write_vector image 0xfffa nmi) j ≡ (
          if 0xfffb == j
          then some (record { byte = nmi / 256 % 256; used = true })
          else (if 0xfffa == j
              then some (record { byte = nmi % 256; used = true })
              else get_elem? image j))
  nmi_at j = (write_vector_cells image 0xfffa nmi j (omega arith)).1

  vectors_written :
      Vector (write_vectors image nmi reset irqbrk) 0xfffa nmi
      × Vector (write_vectors image nmi reset irqbrk) 0xfffc reset
      × Vector (write_vectors image nmi reset irqbrk) 0xfffe irqbrk
  vectors_written = (
    (
      written_at 0xfffa ∙ (first_two 0xfffa).1 ∙ nmi_at 0xfffa,
      written_at 0xfffb ∙ (first_two 0xfffb).1 ∙ nmi_at 0xfffb,
    ),
    (written_at 0xfffc ∙ (first_two 0xfffc).1, written_at 0xfffd ∙ (first_two 0xfffd).1),
    (written_at 0xfffe, written_at 0xffff),
  )

-- The image of a link, with the vectors of three symbols.
abbrev pub HasVectors : Layout → List Cell → Type 0
HasVectors layout image =
    (nmi : ℕ) × (reset : ℕ) × (irqbrk : ℕ) × (lookup_global_addr layout.globals (codes "__nmi")
      ≡ ok nmi)
    × (lookup_global_addr layout.globals (codes "__reset") ≡ ok reset)
    × (lookup_global_addr layout.globals (codes "__irqbrk") ≡ ok irqbrk)
    × Vector image 0xfffa nmi
    × Vector image 0xfffc reset
    × Vector image 0xfffe irqbrk

Result-cases : {A : Type 0} (r : Result A) → ((a : A) × (r ≡ ok a)) ⊎ ((e : Fault) × (r ≡ err e))
Result-cases (ok a) = inl (a, refl)
Result-cases (err e) = inr (e, refl)

-- If the ROM image is built without an error, then the symbols `__nmi`, `__reset` and `__irqbrk`
-- have addresses, and these stand in its last six bytes, the low byte first and all marked as
-- used, whatever the segments and tables wrote there.
pub build_rom_image-HasVectors :
    (cfg : LinkerConfig) (objects : List PlacedObject) (layout : Layout) (image : List Cell)
    → build_rom_image cfg objects layout ≡ ok image
    → HasVectors layout image
unfolding build_rom_image
build_rom_image-HasVectors cfg objects layout image e =
    elim (Option-cases (find_memory cfg (codes "ROM"))) [
      | inl q ↦ absurd (ground arith)
      | inr (rom, q) ↦ elim (Result-cases (build_rom_contents objects layout)) [
        | inr (f, c) ↦ absurd (ground arith)
        | inl (contents, c) ↦
            elim (Result-cases (lookup_global_addr layout.globals (codes "__reset"))) [
              | inr (f, r) ↦ absurd (ground arith)
              | inl (reset, r) ↦
                  elim (Result-cases (lookup_global_addr layout.globals (codes "__nmi"))) [
                    | inr (f, n) ↦ absurd (ground arith)
                    | inl (nmi, n) ↦
                        elim (Result-cases (lookup_global_addr layout.globals (codes "__irqbrk"))) [
                          | inr (f, i) ↦ absurd (ground arith)
                          | inl (irqbrk, i) ↦
                              let same : write_vectors contents nmi reset irqbrk ≡ image =
                                ground arith in
                              let (va, vb, vc) =
                                vectors_written contents nmi reset irqbrk
                                  (contents-Whole objects layout contents c) in
                              (
                                nmi,
                                reset,
                                irqbrk,
                                n,
                                r,
                                i,
                                subst (λ x. Vector x 0xfffa nmi) same va,
                                subst (λ x. Vector x 0xfffc reset) same vb,
                                subst (λ x. Vector x 0xfffe irqbrk) same vc,
                              )
                        ]
                  ]
            ]
      ]
    ]
