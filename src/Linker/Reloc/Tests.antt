-- ===== src/Linker/Reloc/Tests.antt =====
-- A segment with two relocations, and the theorems about relocations applied to it.
use n.Prelude.{
  ℕ, ◌≡◌, refl, ◌+◌, ◌%◌, ◌^◌, inr, false, List, [], ◌∷◌, ◌++◌, All, codes, str_eq, if◌then◌else◌,
  ◌==◌, arith,
}
use n.O65.{seg_text, ObjectLayout, Reloc}
use n.Linker.{ok, err, undefined_access}
use n.Linker.Symbols.{make_weak_name, find_global, lookup_global_addr}
use n.Linker.Reloc.{
  Scope, find_layout_loop, find_layout_for_value, object_runtime_addr_for_value, patch_u8,
  patch_u16, byte_at, word_at, reloc_kind, reloc_aux, current_word, reloc_target, patch_target,
  apply_reloc, apply_segment_relocs,
}
use n.Linker.Reloc.Effect.{covers}
use n.Linker.Reloc.Alone.{
  Disjoint, AsIfAlone, Untouched, apply_segment_relocs-AsIfAlone, apply_segment_relocs-Untouched,
}
use n.Linker.Reloc.Values.{
  In, Reaches, Value, apply_reloc-Value, object_runtime_addr_inside, object_runtime_addr_sound,
}

program : Unit {0}
unfolding str_eq make_weak_name find_global lookup_global_addr find_layout_loop
    find_layout_for_value object_runtime_addr_for_value patch_u8 patch_u16 byte_at word_at
    reloc_kind reloc_aux current_word reloc_target patch_target apply_reloc apply_segment_relocs
program = tt

abbrev bss : ObjectLayout
bss = record {
  name = codes "BSS";
  segid = 4;
  image_segid = 0;
  packed_base = 0;
  image_base = 0;
  size = 4;
  load_addr = 0;
  run_addr = 0x700;
}

abbrev code : ObjectLayout
code = record {
  name = codes "CODE";
  segid = 2;
  image_segid = 2;
  packed_base = 0;
  image_base = 0;
  size = 6;
  load_addr = 0x8000;
  run_addr = 0;
}

abbrev later_code : ObjectLayout
later_code = record {
  name = codes "CODE_LATER";
  segid = 2;
  image_segid = 2;
  packed_base = 6;
  image_base = 6;
  size = 3;
  load_addr = 0x9000;
  run_addr = 0;
}

abbrev scope : Scope
scope = record {
  globals = record { name = codes "putc"; addr = 0x8100; segid = 2; source = codes "b.o65" } ∷ [];
  undefs = codes "putc" ∷ [];
  layouts = bss ∷ code ∷ later_code ∷ [];
}

abbrev call : Reloc
call = record {
  offset = 1;
  type = 0x80;
  segid = 0;
  undef_index = 0;
  aux_low = 0;
  has_aux_low = false;
}

abbrev jump : Reloc
jump = record {
  offset = 4;
  type = 0x80;
  segid = 2;
  undef_index = 0;
  aux_low = 0;
  has_aux_low = false;
}

-- `jsr putc+2` and `jmp` to the seventh byte of the object's code.
abbrev before : List ℕ
before = 0x20 ∷ 2 ∷ 0 ∷ 0x4c ∷ 7 ∷ 0 ∷ []

abbrev after : List ℕ
after = 0x20 ∷ 2 ∷ 0x81 ∷ 0x4c ∷ 1 ∷ 0x90 ∷ []

abbrev both : List Reloc
both = call ∷ jump ∷ []

resolved : apply_segment_relocs scope before both ≡ ok after
unfolding program
resolved = refl

called : apply_reloc scope before call ≡ ok (0x20 ∷ 2 ∷ 0x81 ∷ 0x4c ∷ 7 ∷ 0 ∷ [])
unfolding program
called = refl

-- The byte at the offset is read before its guard.
outside : apply_reloc scope (0x20 ∷ 2 ∷ []) call ≡ err undefined_access
unfolding program
outside = refl

both-Disjoint : Disjoint both
unfolding covers reloc_kind
both-Disjoint = ((λ j h. ground arith, tt), (tt, tt))

apply_segment_relocs-AsIfAlone_example : All (AsIfAlone scope before after) both
apply_segment_relocs-AsIfAlone_example =
    apply_segment_relocs-AsIfAlone scope before after both both-Disjoint resolved

apply_segment_relocs-Untouched_example : Untouched both before after
apply_segment_relocs-Untouched_example =
    apply_segment_relocs-Untouched scope before after both resolved

apply_reloc-Value_example : Value scope before call (0x20 ∷ 2 ∷ 0x81 ∷ 0x4c ∷ 7 ∷ 0 ∷ [])
apply_reloc-Value_example =
    apply_reloc-Value scope before (0x20 ∷ 2 ∷ 0x81 ∷ 0x4c ∷ 7 ∷ 0 ∷ []) call called

object_runtime_addr_inside_example :
    object_runtime_addr_for_value ((bss ∷ code ∷ []) ++ later_code ∷ []) 2 (6 + 1)
    ≡ ok (
        ((if later_code.segid == seg_text then later_code.load_addr else later_code.run_addr) + 1)
        % 2 ^ 16)
object_runtime_addr_inside_example =
    object_runtime_addr_inside (bss ∷ code ∷ []) [] later_code 1
      ((λ e. inr (omega arith)), ((λ e. inr (omega arith)), tt)) (λ e. omega arith) (omega arith)

one_past : object_runtime_addr_for_value (bss ∷ code ∷ []) 2 6 ≡ ok 0x8006
unfolding program
one_past = refl

object_runtime_addr_sound_example :
    (lay : ObjectLayout) × In lay (bss ∷ code ∷ [])
    × Reaches 2 6 lay
    × ((0x8006 + lay.packed_base) % 2 ^ 16
        ≡ ((if 2 == seg_text then lay.load_addr else lay.run_addr) + 6) % 2 ^ 16)
object_runtime_addr_sound_example =
    object_runtime_addr_sound (bss ∷ code ∷ []) 2 6 0x8006 (λ e. omega arith) one_past
