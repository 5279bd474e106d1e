-- ===== src/O65.antt =====
-- The o65 object format, which the assembler writes (assembler/o65.c) and the linker reads
-- (linker/n65ld_input.c): the constants of both sides and the records of linker/n65ld_internal.h.
pub mod Reader
pub mod Writer
pub mod Tables
pub mod Object
pub mod Tests
use n.Prelude.{ℕ, Bool, List, [], ◌∷◌}

-- O65_SEG_UNDEF, O65_SEG_ABS, O65_SEG_TEXT, O65_SEG_DATA, O65_SEG_BSS and O65_SEG_ZP.
abbrev pub seg_undef : ℕ
seg_undef = 0

abbrev pub seg_abs : ℕ
seg_abs = 1

abbrev pub seg_text : ℕ
seg_text = 2

abbrev pub seg_data : ℕ
seg_data = 3

abbrev pub seg_bss : ℕ
seg_bss = 4

abbrev pub seg_zp : ℕ
seg_zp = 5

-- The bit O65_RTYPE_AUX of a relocation's type.
abbrev pub rtype_aux : ℕ
rtype_aux = 0x10

-- `symbol_t`
pub record Symbol : Type 0 where
  pub name : List ℕ
  pub segid : ℕ
  pub value : ℕ

-- `object_layout_t`
pub record ObjectLayout : Type 0 where
  pub name : List ℕ
  pub segid : ℕ
  pub image_segid : ℕ
  pub packed_base : ℕ
  pub image_base : ℕ
  pub size : ℕ
  pub load_addr : ℕ
  pub run_addr : ℕ

-- `reloc_t`
pub record Reloc : Type 0 where
  pub offset : ℕ
  pub type : ℕ
  pub segid : ℕ
  pub undef_index : ℕ
  pub aux_low : ℕ
  pub has_aux_low : Bool

-- `o65_segment_t`: its `length` is that of `bytes`.
pub record Segment : Type 0 where
  pub bytes : List ℕ
  pub relocs : List Reloc

-- What `parse_o65_object_from_memory` sets of an `object_file_t`.
pub record ObjectFile : Type 0 where
  pub mode : ℕ
  pub tbase : ℕ
  pub dbase : ℕ
  pub bbase : ℕ
  pub zbase : ℕ
  pub stack : ℕ
  pub blen : ℕ
  pub zlen : ℕ
  pub text : Segment
  pub data_segment : Segment
  pub undefs : List (List ℕ)
  pub exports : List Symbol
  pub layouts : List ObjectLayout

-- The messages with which the reader ends the linker. `stuck` is none of them: a loop of the
-- model ran out of fuel, which is shown not to happen.
pub data Error : Type 0 where
  unexpected_eof unterminated_string bad_options_block not_o65 failed_tail : Error
  not_archive name_too_long truncated_member stuck : Error

pub data Result {ℓ} (A : Type ℓ) : Type ℓ where
  ok : A → Result A
  err : Error → Result A

infixl 5 ◌>>=◌
abbrev pub ◌>>=◌ {ℓ κ} : {A : Type ℓ} {B : Type κ} → Result A → (A → Result B) → Result B
ok a >>= f = f a
err e >>= f = err e
