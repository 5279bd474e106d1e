-- ===== src/Linker/Reloc.antt =====
-- linker/n65ld.c: relocations. The store of bytes is a segment's `data`, the relocations run over
-- it one after the other.
pub mod Values
pub mod Effect
pub mod Alone
mod Tests
use Prim.Native.Nat.{bit_and}
use n.Prelude.{
  ℕ, ◌+◌, ◌-◌, ◌*◌, ◌/◌, ◌%◌, ◌^◌, Bool, true, false, ◌&&◌, Option, none, some, List, [], ◌∷◌, ltb,
  leb, ◌==◌, if◌then◌else◌, length, get_elem?, set,
}
use n.O65.{seg_undef, seg_abs, seg_text, seg_data, ObjectLayout, Reloc, Segment, ObjectFile}
use n.Linker.{
  Result, ok, err, ◌>>=◌, unmapped_value, reloc_out_of_range, reloc_word_out_of_range,
  bad_undef_index, unsupported_reloc, undefined_access,
}
use n.Linker.Symbols.{GlobalSymbol, lookup_global_addr}

-- O65_RTYPE_LOW, O65_RTYPE_HIGH and O65_RTYPE_WORD.
abbrev pub rtype_low : ℕ
rtype_low = 0x20

abbrev pub rtype_high : ℕ
rtype_high = 0x40

abbrev pub rtype_word : ℕ
rtype_word = 0x80

-- The loop of `find_layout_for_value`, with its `fallback`.
unfoldable pub find_layout_loop :
    Option ObjectLayout → List ObjectLayout → ℕ → ℕ → Option ObjectLayout
find_layout_loop fallback [] segid packed_value = fallback
find_layout_loop fallback (lay ∷ layouts) segid packed_value =
    let end = lay.packed_base + lay.size in
    if lay.segid == segid
    then (if leb lay.packed_base packed_value && ltb packed_value end
        then some lay
        else (if packed_value == end
            then find_layout_loop (some lay) layouts segid packed_value
            else find_layout_loop fallback layouts segid packed_value))
    else find_layout_loop fallback layouts segid packed_value

unfoldable pub find_layout_for_value : List ObjectLayout → ℕ → ℕ → Option ObjectLayout
find_layout_for_value layouts segid packed_value = find_layout_loop none layouts segid packed_value

-- `packed_value - lay->packed_base` is not negative for a layout that is found.
unfoldable pub object_runtime_addr_for_value : List ObjectLayout → ℕ → ℕ → Result ℕ
object_runtime_addr_for_value layouts segid packed_value =
    if segid == seg_abs
    then ok packed_value
    else elim (find_layout_for_value layouts segid packed_value) [
      | none ↦ err unmapped_value
      | some lay ↦
          let base = if segid == seg_text then lay.load_addr else lay.run_addr in
          ok ((base + (packed_value - lay.packed_base)) % 2 ^ 16)
    ]

-- `obj->place_text_load` and `obj->place_data_load` are arguments.
unfoldable pub object_layout_load_addr : ℕ → ℕ → ObjectLayout → ℕ
object_layout_load_addr text_load data_load lay =
    if lay.image_segid == seg_text
    then (text_load + lay.image_base) % 2 ^ 16
    else (if lay.image_segid == seg_data then (data_load + lay.image_base) % 2 ^ 16 else 0)

unfoldable pub patch_u8 : List ℕ → ℕ → ℕ → Result (List ℕ)
patch_u8 buf off v = if leb (length buf) off then err reloc_out_of_range else ok (set buf off v)

-- `off + 1` is a `uint32_t`. Where it wraps to 0 the guard lets a write outside of `buf` pass.
unfoldable pub patch_u16 : List ℕ → ℕ → ℕ → Result (List ℕ)
patch_u16 buf off v =
    let next = (off + 1) % 2 ^ 32 in
    if leb (length buf) next
    then err reloc_word_out_of_range
    else (if leb (length buf) off
        then err undefined_access
        else ok (set (set buf off (v % 256)) next (v / 256 % 256)))

-- `seg->data[off]`, which no guard precedes.
unfoldable pub byte_at : List ℕ → ℕ → Result ℕ
byte_at buf off = elim (get_elem? buf off) [ none ↦ err undefined_access | some b ↦ ok b ]

-- `data[off] | (data[off + 1] << 8)`
unfoldable pub word_at : List ℕ → ℕ → Result ℕ
word_at buf off =
    byte_at buf off >>= λ lo. byte_at buf ((off + 1) % 2 ^ 32) >>= λ hi. ok (lo + hi * 256)

unfoldable pub reloc_kind : Reloc → ℕ
reloc_kind r = bit_and r.type 0xe0

unfoldable pub reloc_aux : Reloc → ℕ
reloc_aux r = if r.has_aux_low then r.aux_low else 0

unfoldable pub current_word : List ℕ → Reloc → Result ℕ
current_word buf r =
    if reloc_kind r == rtype_word
    then word_at buf r.offset
    else (byte_at buf r.offset >>= λ b.
        if reloc_kind r == rtype_low
        then ok (b + reloc_aux r * 256)
        else (if reloc_kind r == rtype_high then ok (reloc_aux r + b * 256) else ok b))

-- What the relocations of an object refer to.
pub record Scope : Type 0 where
  pub globals : List GlobalSymbol
  pub undefs : List (List ℕ)
  pub layouts : List ObjectLayout

-- The first half of the loop's body in `apply_segment_relocs`: the target.
unfoldable pub reloc_target : Scope → List ℕ → Reloc → Result ℕ
reloc_target s buf r =
    if r.segid == seg_undef
    then elim (get_elem? s.undefs r.undef_index) [
      | none ↦ err bad_undef_index
      | some name ↦ lookup_global_addr s.globals name
    ]
    else (current_word buf r >>= λ word. object_runtime_addr_for_value s.layouts r.segid word)

-- The second half: the patch.
unfoldable pub patch_target : List ℕ → Reloc → ℕ → Result (List ℕ)
patch_target buf r target =
    if reloc_kind r == rtype_low
    then patch_u8 buf r.offset (target % 256)
    else (if reloc_kind r == rtype_high
        then patch_u8 buf r.offset (target / 256 % 256)
        else (if reloc_kind r == rtype_word
            then (word_at buf r.offset >>= λ word.
                patch_u16 buf r.offset
                  (if r.segid == seg_undef then (target + word) % 2 ^ 16 else target))
            else err unsupported_reloc))

unfoldable pub apply_reloc : Scope → List ℕ → Reloc → Result (List ℕ)
apply_reloc s buf r = reloc_target s buf r >>= λ target. patch_target buf r target

unfoldable pub apply_segment_relocs : Scope → List ℕ → List Reloc → Result (List ℕ)
apply_segment_relocs s buf [] = ok buf
apply_segment_relocs s buf (r ∷ relocs) =
    apply_reloc s buf r >>= λ buf'. apply_segment_relocs s buf' relocs

unfoldable pub resolve_object : List GlobalSymbol → ObjectFile → Result ObjectFile
resolve_object globals obj =
    let s : Scope = record { globals = globals; undefs = obj.undefs; layouts = obj.layouts } in
    apply_segment_relocs s obj.text.bytes obj.text.relocs >>= λ text.
    apply_segment_relocs s obj.data_segment.bytes obj.data_segment.relocs >>= λ bytes.
    ok (record obj {
      text = record { bytes = text; relocs = obj.text.relocs };
      data_segment = record { bytes = bytes; relocs = obj.data_segment.relocs };
    })

unfoldable pub resolve_all : List ObjectFile → List GlobalSymbol → Result (List ObjectFile)
resolve_all [] globals = ok []
resolve_all (obj ∷ objects) globals =
    resolve_object globals obj >>= λ o. resolve_all objects globals >>= λ os. ok (o ∷ os)
