-- ===== src/Linker/Reloc/Alone.antt =====
-- Relocations of different places do not affect each other.
use n.Prelude.{
  ℕ, ◌+◌, ◌/◌, ◌%◌, ◌^◌, ◌≡◌, sym, ◌∙◌, inl, inr, true, false, ◌||◌, List, [], ◌∷◌, ◌==◌,
  if◌then◌else◌, length, get_elem?, set, All, All-map, All-zip, Bool-cases, arith,
}
use n.O65.{Reloc}
use n.Linker.{ok}
use n.Linker.Reloc.{
  rtype_low, rtype_high, rtype_word, patch_u8, patch_u16, byte_at, word_at, reloc_kind,
  current_word, Scope, reloc_target, patch_target, apply_reloc, apply_segment_relocs,
}
use n.Linker.Reloc.Effect.{
  covers, Result-cases, Written, patch_u8_ok, patch_u16_ok, patch_target-Written,
}

-- Two segments of one length that agree on the bytes of a relocation.
record Agree (r : Reloc) (buf buf' : List ℕ) : Type 0 where
  lengths : length buf' ≡ length buf
  bytes : (j : ℕ) → covers r j ≡ true → get_elem? buf' j ≡ get_elem? buf j

Agree-byte_at :
    (r : Reloc) (buf buf' : List ℕ)
    → Agree r buf buf'
    → byte_at buf' r.offset ≡ byte_at buf r.offset
unfolding byte_at covers
Agree-byte_at r buf buf' h = ground (arith, h.bytes r.offset)

Agree-word_at :
    (r : Reloc) (buf buf' : List ℕ)
    → Agree r buf buf'
    → reloc_kind r ≡ rtype_word
    → word_at buf' r.offset ≡ word_at buf r.offset
unfolding word_at byte_at covers
Agree-word_at r buf buf' h w = ground (arith, h.bytes r.offset, h.bytes ((r.offset + 1) % 2 ^ 32))

Agree-reloc_target :
    (s : Scope) (r : Reloc) (buf buf' : List ℕ)
    → Agree r buf buf'
    → reloc_target s buf' r ≡ reloc_target s buf r
unfolding reloc_target current_word
Agree-reloc_target s r buf buf' h =
    ground (arith, Agree-byte_at r buf buf' h, Agree-word_at r buf buf' h)

patch_u8_agree :
    (buf buf' out : List ℕ) (off v : ℕ)
    → length buf' ≡ length buf
    → patch_u8 buf off v ≡ ok out
    → (patch_u8 buf' off v ≡ ok (set buf' off v))
      × ((j : ℕ) → (off == j) ≡ true → get_elem? (set buf' off v) j ≡ get_elem? out j)
patch_u8_agree buf buf' out off v h e =
    let f : patch_u8 buf' off v ≡ ok (set buf' off v) = unfold patch_u8 in ground arith in
    (
      f,
      λ j q.
          ground
            (arith, patch_u8_ok buf out off v j e, patch_u8_ok buf' (set buf' off v) off v j f),
    )

patch_u16_agree :
    (buf buf' out : List ℕ) (off v : ℕ)
    → length buf' ≡ length buf
    → patch_u16 buf off v ≡ ok out
    → (out' : List ℕ) × (patch_u16 buf' off v ≡ ok out')
      × ((j : ℕ)
          → (off == j || (off + 1) % 2 ^ 32 == j) ≡ true
          → get_elem? out' j ≡ get_elem? out j)
patch_u16_agree buf buf' out off v h e =
    let out' = set (set buf' off (v % 256)) ((off + 1) % 2 ^ 32) (v / 256 % 256) in
    let f : patch_u16 buf' off v ≡ ok out' = unfold patch_u16 in ground arith in
    (
      out',
      f,
      λ j q. ground (arith, patch_u16_ok buf out off v j e, patch_u16_ok buf' out' off v j f),
    )

-- The same patch of the other segment, with the same bytes written.
abbrev Repeats : Reloc → ℕ → List ℕ → List ℕ → Type 0
Repeats r t buf' out =
    (out' : List ℕ) × (patch_target buf' r t ≡ ok out')
    × ((j : ℕ) → covers r j ≡ true → get_elem? out' j ≡ get_elem? out j)

patch_target-Repeats :
    (buf buf' out : List ℕ) (r : Reloc) (t : ℕ)
    → Agree r buf buf'
    → patch_target buf r t ≡ ok out
    → Repeats r t buf' out
unfolding patch_target covers
patch_target-Repeats buf buf' out r t h e = elim (Bool-cases (reloc_kind r == rtype_low)) [
  | inl q ↦
      let f : patch_u8 buf r.offset (t % 256) ≡ ok out = ground arith in
      let (g, k) = patch_u8_agree buf buf' out r.offset (t % 256) h.lengths f in
      (set buf' r.offset (t % 256), ground arith, λ j c. ground (arith, k j))
  | inr q ↦ elim (Bool-cases (reloc_kind r == rtype_high)) [
    | inl q' ↦
        let f : patch_u8 buf r.offset (t / 256 % 256) ≡ ok out = ground arith in
        let (g, k) = patch_u8_agree buf buf' out r.offset (t / 256 % 256) h.lengths f in
        (set buf' r.offset (t / 256 % 256), ground arith, λ j c. ground (arith, k j))
    | inr q' ↦ elim (Bool-cases (reloc_kind r == rtype_word)) [
      | inl w ↦ elim (Result-cases (word_at buf r.offset)) [
        | inl (x, g) ↦
            let v = if r.segid == 0 then (t + x) % 2 ^ 16 else t in
            let f : patch_u16 buf r.offset v ≡ ok out = ground arith in
            let read : word_at buf' r.offset ≡ ok x =
              Agree-word_at r buf buf' h (ground arith) ∙ g in
            let (out', p, k) = patch_u16_agree buf buf' out r.offset v h.lengths f in
            (out', ground arith, λ j c. ground (arith, k j))
        | inr (x, g) ↦ absurd (ground arith)
      ]
      | inr w ↦ absurd (ground arith)
    ]
  ]
]

pub apply_reloc_ok :
    (s : Scope) (buf out : List ℕ) (r : Reloc)
    → apply_reloc s buf r ≡ ok out
    → (t : ℕ) × (reloc_target s buf r ≡ ok t) × (patch_target buf r t ≡ ok out)
unfolding apply_reloc
apply_reloc_ok s buf out r e = elim (Result-cases (reloc_target s buf r)) [
  | inl (t, q) ↦ (t, q, ground arith)
  | inr (x, q) ↦ absurd (ground arith)
]

apply_reloc-Written :
    (s : Scope) (buf out : List ℕ) (r : Reloc) → apply_reloc s buf r ≡ ok out → Written buf r out
apply_reloc-Written s buf out r e =
    let (t, q, f) = apply_reloc_ok s buf out r e in patch_target-Written buf out r t f

-- In `after`, the bytes of a relocation are those that it alone makes of `before`.
abbrev pub AsIfAlone : Scope → List ℕ → List ℕ → Reloc → Type 0
AsIfAlone s before after r =
    (alone : List ℕ) × (apply_reloc s before r ≡ ok alone)
    × ((j : ℕ) → covers r j ≡ true → get_elem? after j ≡ get_elem? alone j)

AsIfAlone-Agree :
    (s : Scope) (r : Reloc) (buf buf' after : List ℕ)
    → Agree r buf buf'
    → AsIfAlone s buf after r
    → AsIfAlone s buf' after r
unfolding apply_reloc
AsIfAlone-Agree s r buf buf' after h (alone, e, k) =
    let (t, q, f) = apply_reloc_ok s buf alone r e in
    let q' : reloc_target s buf' r ≡ ok t = Agree-reloc_target s r buf buf' h ∙ q in
    let (alone', f', k') = patch_target-Repeats buf buf' alone r t h f in
    (alone', ground arith, λ j c. k j c ∙ sym (k' j c))

abbrev pub Avoids : Reloc → Reloc → Type 0
Avoids r r' = (j : ℕ) → covers r j ≡ true → covers r' j ≡ false

-- No byte belongs to two relocations of the list.
abbrev pub Disjoint : List Reloc → Type 0
Disjoint [] = Unit
Disjoint (r ∷ rs) = All (Avoids r) rs × Disjoint rs

-- The bytes that no relocation of the list covers stay, and so does the length.
abbrev pub Untouched : List Reloc → List ℕ → List ℕ → Type 0
Untouched rs before after =
    (length after ≡ length before)
    × ((j : ℕ) → All (λ r. covers r j ≡ false) rs → get_elem? after j ≡ get_elem? before j)

apply_cons_ok :
    (s : Scope) (buf out : List ℕ) (r : Reloc) (rs : List Reloc)
    → apply_segment_relocs s buf (r ∷ rs) ≡ ok out
    → (mid : List ℕ) × (apply_reloc s buf r ≡ ok mid) × (apply_segment_relocs s mid rs ≡ ok out)
unfolding apply_segment_relocs
apply_cons_ok s buf out r rs e = elim (Result-cases (apply_reloc s buf r)) [
  | inl (mid, q) ↦ (mid, q, ground arith)
  | inr (x, q) ↦ absurd (ground arith)
]

-- If the relocations of a segment are applied without an error, the segment keeps its length and
-- every byte that no relocation covers.
pub apply_segment_relocs-Untouched :
    (s : Scope) (buf out : List ℕ) (rs : List Reloc)
    → apply_segment_relocs s buf rs ≡ ok out
    → Untouched rs buf out
unfolding apply_segment_relocs
apply_segment_relocs-Untouched s buf out [] e = (ground arith, λ j h. ground arith)
apply_segment_relocs-Untouched s buf out (r ∷ rs) e =
    let (mid, f, g) = apply_cons_ok s buf out r rs e in
    let first = apply_reloc-Written s buf mid r f in
    let (len, rest) = apply_segment_relocs-Untouched s mid out rs g in
    (len ∙ first.same_length, λ j h. rest j h.1 ∙ first.elsewhere j h.0)

-- If the relocations of a segment are applied without an error and no byte belongs to two of
-- them, then the bytes of each are in the result those that it alone makes of the segment as it was.
pub apply_segment_relocs-AsIfAlone :
    (s : Scope) (buf out : List ℕ) (rs : List Reloc)
    → Disjoint rs
    → apply_segment_relocs s buf rs ≡ ok out
    → All (AsIfAlone s buf out) rs
apply_segment_relocs-AsIfAlone s buf out [] d e = tt
apply_segment_relocs-AsIfAlone s buf out (r ∷ rs) d e =
    let (mid, f, g) = apply_cons_ok s buf out r rs e in
    let first = apply_reloc-Written s buf mid r f in
    let (len, rest) = apply_segment_relocs-Untouched s mid out rs g in
    (
      (
        mid,
        f,
        λ j c. rest j (All-map (Avoids r) (λ r'. covers r' j ≡ false) rs (λ r' k. k j c) d.0),
      ),
      All-zip (Avoids r) (AsIfAlone s mid out) (AsIfAlone s buf out) rs
          (λ r' k alone.
            AsIfAlone-Agree s r' mid buf out
              (record {
                lengths = sym first.same_length;
                bytes = λ j c. sym (first.elsewhere j (ground (arith, k j)));
              })
              alone)
          d.0 (apply_segment_relocs-AsIfAlone s mid out rs d.1 g),
    )
