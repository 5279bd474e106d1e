-- ===== src/Linker/Reloc/Values.antt =====
-- The addresses that packed values stand for, and the values that a relocation writes.
use n.Prelude.{
  ℕ, ◌+◌, ◌-◌, ◌*◌, ◌/◌, ◌%◌, ◌^◌, ◌≡◌, ◌≢◌, ◌<◌, ◌≤◌, ◌⊎◌, inl, inr, ◌&&◌, Option, none, some,
  List, [], ◌∷◌, ◌++◌, leb, ltb, ◌==◌, if◌then◌else◌, get_elem?, All, Bool-cases, Option-cases,
  arith,
}
use mathlib.Core.Path.{subst}
use n.O65.{seg_undef, seg_abs, seg_text, ObjectLayout, Reloc}
use n.Linker.{ok}
use n.Linker.Reloc.{
  rtype_low, rtype_high, rtype_word, find_layout_loop, find_layout_for_value,
  object_runtime_addr_for_value, patch_u8, patch_u16, byte_at, word_at, reloc_kind, Scope,
  reloc_target, patch_target, apply_reloc,
}
use n.Linker.Reloc.Effect.{Result-cases, patch_u8_ok, patch_u16_ok}
use n.Linker.Reloc.Alone.{apply_reloc_ok}

-- A layout of a segment holds the packed value `v`, or ends there.
abbrev pub Reaches : ℕ → ℕ → ObjectLayout → Type 0
Reaches segid v lay = (lay.segid ≡ segid) × (lay.packed_base ≤ v) × (v ≤ lay.packed_base + lay.size)

abbrev pub Misses : ℕ → ℕ → ObjectLayout → Type 0
Misses segid v lay = lay.segid ≡ segid → (v < lay.packed_base) ⊎ (lay.packed_base + lay.size ≤ v)

-- A layout of the list.
pub data In (lay : ObjectLayout) : List ObjectLayout → Type 0 where
  here : {layouts : List ObjectLayout} → In lay (lay ∷ layouts)
  there : {x : ObjectLayout} {layouts : List ObjectLayout} → In lay layouts → In lay (x ∷ layouts)

find_layout_loop_inside :
    (fallback : Option ObjectLayout) (before after : List ObjectLayout) (lay : ObjectLayout) (v : ℕ)
    → All (Misses lay.segid v) before
    → lay.packed_base ≤ v
    → v < lay.packed_base + lay.size
    → find_layout_loop fallback (before ++ lay ∷ after) lay.segid v ≡ some lay
unfolding find_layout_loop
find_layout_loop_inside fallback [] after lay v h le lt = ground arith
find_layout_loop_inside fallback (x ∷ before) after lay v h le lt = ground (
  arith,
  h.0,
  find_layout_loop_inside fallback before after lay v h.1 le lt,
  find_layout_loop_inside (some x) before after lay v h.1 le lt,
)

-- A value `k` bytes inside of a layout, which none before it holds, is the address `k` bytes
-- behind the layout's place: the load address in the text segment, the run address elsewhere.
pub object_runtime_addr_inside :
    (before after : List ObjectLayout) (lay : ObjectLayout) (k : ℕ)
    → All (Misses lay.segid (lay.packed_base + k)) before
    → lay.segid ≢ seg_abs
    → k < lay.size
    → object_runtime_addr_for_value (before ++ lay ∷ after) lay.segid (lay.packed_base + k)
      ≡ ok (((if lay.segid == seg_text then lay.load_addr else lay.run_addr) + k) % 2 ^ 16)
unfolding object_runtime_addr_for_value find_layout_for_value
object_runtime_addr_inside before after lay k h apart lt =
    let found =
      find_layout_loop_inside none before after lay (lay.packed_base + k) h (omega arith)
        (omega arith) in
    ground (arith, found)

In-now :
    (layouts : List ObjectLayout) (segid v : ℕ) (x lay : ObjectLayout)
    → x ≡ lay
    → Reaches segid v x
    → In lay (x ∷ layouts) × Reaches segid v lay
In-now layouts segid v x lay e r = subst (λ y. In y (x ∷ layouts) × Reaches segid v y) e (here, r)

In-later :
    {F : Type 0} (layouts : List ObjectLayout) (segid v : ℕ) (x lay : ObjectLayout)
    → (In lay layouts × Reaches segid v lay) ⊎ F
    → (In lay (x ∷ layouts) × Reaches segid v lay) ⊎ F
In-later layouts segid v x lay (inl (i, r)) = inl (there i, r)
In-later layouts segid v x lay (inr f) = inr f

find_layout_loop_sound :
    (fallback : Option ObjectLayout) (layouts : List ObjectLayout) (segid v : ℕ)
    (lay : ObjectLayout)
    → find_layout_loop fallback layouts segid v ≡ some lay
    → (In lay layouts × Reaches segid v lay) ⊎ (fallback ≡ some lay)
unfolding find_layout_loop
find_layout_loop_sound fallback [] segid v lay e = inr e
find_layout_loop_sound fallback (x ∷ layouts) segid v lay e = elim (Bool-cases (x.segid == segid)) [
  | inr n ↦
      In-later layouts segid v x lay
        (find_layout_loop_sound fallback layouts segid v lay (ground arith))
  | inl y ↦ elim (Bool-cases (leb x.packed_base v && ltb v (x.packed_base + x.size))) [
    | inl i ↦ inl (In-now layouts segid v x lay (ground arith) (ground arith))
    | inr o ↦ elim (Bool-cases (v == x.packed_base + x.size)) [
      | inr n ↦
          In-later layouts segid v x lay
            (find_layout_loop_sound fallback layouts segid v lay (ground arith))
      | inl q ↦ elim (find_layout_loop_sound (some x) layouts segid v lay (ground arith)) [
        | inl (i, r) ↦ inl (there i, r)
        | inr same ↦ inl (In-now layouts segid v x lay (ground arith) (ground arith))
      ]
    ]
  ]
]

-- Whatever address a packed value gets outside of the absolute segment, it is the value moved by
-- the distance between the packed and the placed start of a layout that reaches it.
pub object_runtime_addr_sound :
    (layouts : List ObjectLayout) (segid v a : ℕ)
    → segid ≢ seg_abs
    → object_runtime_addr_for_value layouts segid v ≡ ok a
    → (lay : ObjectLayout) × In lay layouts
      × Reaches segid v lay
      × ((a + lay.packed_base) % 2 ^ 16
          ≡ ((if segid == seg_text then lay.load_addr else lay.run_addr) + v) % 2 ^ 16)
unfolding object_runtime_addr_for_value find_layout_for_value
object_runtime_addr_sound layouts segid v a apart e =
    elim (Option-cases (find_layout_loop none layouts segid v)) [
      | inl q ↦ absurd (ground arith)
      | inr (lay, q) ↦ elim (find_layout_loop_sound none layouts segid v lay q) [
        | inr bad ↦ absurd (cc)
        | inl (i, r) ↦
            let base = if segid == seg_text then lay.load_addr else lay.run_addr in
            let same : (base + (v - lay.packed_base)) % 2 ^ 16 ≡ a = ground arith in
            (lay, i, r, moved base v lay.packed_base a r.1 same)
      ]
    ]
  where
    moved :
        (base v p a : ℕ)
        → p ≤ v
        → (base + (v - p)) % 2 ^ 16 ≡ a
        → (a + p) % 2 ^ 16 ≡ (base + v) % 2 ^ 16
    moved base v p a le e = omega arith

-- What a relocation that is applied alone leaves at its place.
abbrev pub Value : Scope → List ℕ → Reloc → List ℕ → Type 0
Value s buf r out =
    (t : ℕ) × (reloc_target s buf r ≡ ok t)
    × (reloc_kind r ≡ rtype_low → byte_at out r.offset ≡ ok (t % 256))
    × (reloc_kind r ≡ rtype_high → byte_at out r.offset ≡ ok (t / 256 % 256))
    × (reloc_kind r ≡ rtype_word
        → r.offset + 1 < 2 ^ 32
        → (w : ℕ) × (word_at buf r.offset ≡ ok w)
          × (word_at out r.offset ≡ ok ((if r.segid == seg_undef then t + w else t) % 2 ^ 16)))

low_value :
    (buf out : List ℕ) (r : Reloc) (t : ℕ)
    → patch_target buf r t ≡ ok out
    → reloc_kind r ≡ rtype_low
    → byte_at out r.offset ≡ ok (t % 256)
unfolding patch_target byte_at
low_value buf out r t e k =
    let f : patch_u8 buf r.offset (t % 256) ≡ ok out = ground arith in
    ground (arith, patch_u8_ok buf out r.offset (t % 256) r.offset f)

high_value :
    (buf out : List ℕ) (r : Reloc) (t : ℕ)
    → patch_target buf r t ≡ ok out
    → reloc_kind r ≡ rtype_high
    → byte_at out r.offset ≡ ok (t / 256 % 256)
unfolding patch_target byte_at
high_value buf out r t e k =
    let f : patch_u8 buf r.offset (t / 256 % 256) ≡ ok out = ground arith in
    ground (arith, patch_u8_ok buf out r.offset (t / 256 % 256) r.offset f)

word_at-patch_u16 :
    (buf out : List ℕ) (off v : ℕ)
    → off + 1 < 2 ^ 32
    → patch_u16 buf off v ≡ ok out
    → word_at out off ≡ ok (v % 2 ^ 16)
unfolding word_at byte_at
word_at-patch_u16 buf out off v lt f =
    let lo : get_elem? out off ≡ some (v % 256) =
      ground (arith, patch_u16_ok buf out off v off f) in
    let hi : get_elem? out ((off + 1) % 2 ^ 32) ≡ some (v / 256 % 256) =
      ground (arith, patch_u16_ok buf out off v ((off + 1) % 2 ^ 32) f) in
    let join : v % 256 + v / 256 % 256 * 256 ≡ v % 2 ^ 16 = omega arith in ground arith

word_value :
    (buf out : List ℕ) (r : Reloc) (t : ℕ)
    → patch_target buf r t ≡ ok out
    → reloc_kind r ≡ rtype_word
    → r.offset + 1 < 2 ^ 32
    → (w : ℕ) × (word_at buf r.offset ≡ ok w)
      × (word_at out r.offset ≡ ok ((if r.segid == seg_undef then t + w else t) % 2 ^ 16))
unfolding patch_target
word_value buf out r t e k lt = elim (Result-cases (word_at buf r.offset)) [
  | inr (x, q) ↦ absurd (ground arith)
  | inl (w, q) ↦
      let v = if r.segid == seg_undef then (t + w) % 2 ^ 16 else t in
      let f : patch_u16 buf r.offset v ≡ ok out = ground arith in
      (w, q, ground (arith, word_at-patch_u16 buf out r.offset v lt f))
]

-- A relocation that is applied without an error has a target, and leaves at its place the low
-- byte of it, the high byte, or the word, as its type says; to a word that refers to an undefined
-- name the word that was there is added. (For a word, the offset and its successor are 32 bits.)
pub apply_reloc-Value :
    (s : Scope) (buf out : List ℕ) (r : Reloc) → apply_reloc s buf r ≡ ok out → Value s buf r out
apply_reloc-Value s buf out r e =
    let (t, q, f) = apply_reloc_ok s buf out r e in
    (t, q, low_value buf out r t f, high_value buf out r t f, word_value buf out r t f)
