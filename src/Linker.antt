-- ===== src/Linker.antt =====
-- linker/n65ld.c: the linker behind the reading of its inputs. `exit(1)` with a message is `err`.
pub mod Place
pub mod Symbols
pub mod Reloc
pub mod Image
pub mod Rom
pub mod Select
pub mod Load
mod Tests
use n.Prelude.{ℕ, Bool, List}

-- `memory_region_t`
pub record MemoryRegion : Type 0 where
  pub start : ℕ
  pub size : ℕ
  pub type : List ℕ
  pub define_yes : Bool
  pub name : List ℕ

-- `segment_rule_t`
pub record SegmentRule : Type 0 where
  pub name : List ℕ
  pub load_name : List ℕ
  pub run_name : List ℕ
  pub type : List ℕ
  pub define_yes : Bool

-- `linker_config_t`: each array with its count is a list.
pub record LinkerConfig : Type 0 where
  pub mem : List MemoryRegion
  pub seg : List SegmentRule

pub data Fault : Type 0 where
  region_not_found region_overflow : Fault
  duplicate_global unresolved_symbol unmapped_value : Fault
  reloc_out_of_range reloc_word_out_of_range bad_undef_index unsupported_reloc : Fault
  image_overflow : Fault
  -- Not a message of the linker: it reads or writes outside an array here, which C leaves
  -- undefined.
  undefined_access : Fault

pub data Result {ℓ} (A : Type ℓ) : Type ℓ where
  ok : A → Result A
  err : Fault → Result A

infixl 5 ◌>>=◌
abbrev pub ◌>>=◌ {ℓ κ} : {A : Type ℓ} {B : Type κ} → Result A → (A → Result B) → Result B
ok a >>= f = f a
err e >>= f = err e
