-- ===== src/Linker/Reloc/Effect.antt =====
-- What the relocations of a segment do to its bytes.
use n.Prelude.{
  ℕ, zero, suc, ◌+◌, ◌/◌, ◌%◌, ◌^◌, ◌≡◌, ◌<◌, refl, ap, ◌∙◌, ◌⊎◌, inl, inr, Bool, false, ◌&&◌, ◌||◌,
  some, List, [], ◌∷◌, ◌==◌, if◌then◌else◌, length, get_elem?, set, length-set, Bool-cases, arith,
}
use n.O65.{Reloc}
use n.Linker.{Fault, Result, ok, err}
use n.Linker.Reloc.{
  rtype_low, rtype_high, rtype_word, patch_u8, patch_u16, word_at, reloc_kind, patch_target,
}

-- The bytes that a relocation reads and writes.
unfoldable pub covers : Reloc → ℕ → Bool
covers r j = r.offset == j || (reloc_kind r == rtype_word && (r.offset + 1) % 2 ^ 32 == j)

pub Result-cases {ℓ} :
    {A : Type ℓ} (r : Result A) → ((a : A) × (r ≡ ok a)) ⊎ ((e : Fault) × (r ≡ err e))
Result-cases (ok a) = inl (a, refl)
Result-cases (err e) = inr (e, refl)

get_elem?-set :
    (xs : List ℕ) (i j v : ℕ)
    → i < length xs
    → get_elem? (set xs i v) j ≡ (if i == j then some v else get_elem? xs j)
get_elem?-set [] i j v h = elim h [ ]
get_elem?-set (x ∷ xs) zero zero v h = refl
get_elem?-set (x ∷ xs) zero (suc j) v h = ground arith
get_elem?-set (x ∷ xs) (suc i) zero v h = ground arith
get_elem?-set (x ∷ xs) (suc i) (suc j) v h = ground (arith, get_elem?-set xs i j v)

-- A patch that succeeds writes known values at the places that it covers.
pub record Written (buf : List ℕ) (r : Reloc) (out : List ℕ) : Type 0 where
  pub same_length : length out ≡ length buf
  pub elsewhere : (j : ℕ) → covers r j ≡ false → get_elem? out j ≡ get_elem? buf j

pub patch_u8_ok :
    (buf out : List ℕ) (off v j : ℕ)
    → patch_u8 buf off v ≡ ok out
    → (length out ≡ length buf) × (get_elem? out j ≡ (if off == j then some v else get_elem? buf j))
unfolding patch_u8
patch_u8_ok buf out off v j e =
    let inside : off < length buf = ground arith in
    let same : set buf off v ≡ out = ground arith in
    rw (← same) (length-set buf off v, get_elem?-set buf off j v inside)

set_two :
    (buf : List ℕ) (i k a b j : ℕ)
    → i < length buf
    → k < length buf
    → get_elem? (set (set buf i a) k b) j
      ≡ (if k == j then some b else (if i == j then some a else get_elem? buf j))
set_two buf i k a b j h l =
    get_elem?-set (set buf i a) k j b (omega (arith, length-set buf i a))
    ∙ ap (λ o. if k == j then some b else o) (get_elem?-set buf i j a h)

pub patch_u16_ok :
    (buf out : List ℕ) (off v j : ℕ)
    → patch_u16 buf off v ≡ ok out
    → (length out ≡ length buf)
      × (get_elem? out j ≡ (
          if (off + 1) % 2 ^ 32 == j
          then some (v / 256 % 256)
          else (if off == j then some (v % 256) else get_elem? buf j)))
unfolding patch_u16
patch_u16_ok buf out off v j e =
    let inside : off < length buf = ground arith in
    let next : (off + 1) % 2 ^ 32 < length buf = ground arith in
    let same : set (set buf off (v % 256)) ((off + 1) % 2 ^ 32) (v / 256 % 256) ≡ out =
      ground arith in
    rw (← same) (
      length-set (set buf off (v % 256)) ((off + 1) % 2 ^ 32) (v / 256 % 256)
          ∙ length-set buf off (v % 256),
      set_two buf off ((off + 1) % 2 ^ 32) (v % 256) (v / 256 % 256) j inside next,
    )

pub patch_target-Written :
    (buf out : List ℕ) (r : Reloc) (t : ℕ) → patch_target buf r t ≡ ok out → Written buf r out
unfolding patch_target covers
patch_target-Written buf out r t e = elim (Bool-cases (reloc_kind r == rtype_low)) [
  | inl q ↦
      let f : patch_u8 buf r.offset (t % 256) ≡ ok out = ground arith in
      record {
        same_length = (patch_u8_ok buf out r.offset (t % 256) 0 f).0;
        elsewhere = λ j h. ground (arith, patch_u8_ok buf out r.offset (t % 256) j f);
      }
  | inr q ↦ elim (Bool-cases (reloc_kind r == rtype_high)) [
    | inl q' ↦
        let f : patch_u8 buf r.offset (t / 256 % 256) ≡ ok out = ground arith in
        record {
          same_length = (patch_u8_ok buf out r.offset (t / 256 % 256) 0 f).0;
          elsewhere = λ j h. ground (arith, patch_u8_ok buf out r.offset (t / 256 % 256) j f);
        }
    | inr q' ↦ elim (Bool-cases (reloc_kind r == rtype_word)) [
      | inl w ↦ elim (Result-cases (word_at buf r.offset)) [
        | inl (x, g) ↦
            let v = if r.segid == 0 then (t + x) % 2 ^ 16 else t in
            let f : patch_u16 buf r.offset v ≡ ok out = ground arith in
            record {
              same_length = (patch_u16_ok buf out r.offset v 0 f).0;
              elsewhere = λ j h. ground (arith, patch_u16_ok buf out r.offset v j f);
            }
        | inr (x, g) ↦ absurd (ground arith)
      ]
      | inr w ↦ absurd (ground arith)
    ]
  ]
]
