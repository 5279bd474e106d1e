-- ===== src/Linker/Load/Tests.antt =====
-- Instances of the theorems about linker/n65ld_input.c and archiver/n65ar.c together.
use n.Prelude.{
  ◌+◌, length, ℕ, ◌≡◌, refl, Option, none, some, List, [], ◌∷◌, codes, arith, str_eq, if◌then◌else◌,
}
use n.O65.{ok}
use n.O65.Object.{object_of, parse-write}
use n.O65.Tests.{small, small_file, small_written, small-IsWritable}
use n.Archiver.{base_name, base_from, strrchr, member_name_is_valid, has_byte}
use n.Archiver.Commands.{replace_archive}
use n.Archiver.Records.{IsEntry}
use n.Archiver.Update.{AreInputs}
use n.Linker.Select.{InputSet, input_archive, select_needed_objects}
use n.Linker.Select.Progress.{unselected}
use n.Linker.Select.Closed.{IsClosed}
use n.Linker.Select.Kept.{command_files, archive_files}
use n.Linker.Load.Selected.{select_needed_objects-loaded_inputs}
use n.Linker.Load.{loaded_inputs, LoadedMember, load_archive}
use n.Linker.Load.Archived.{IsLoadable, entries_of, load_archive-replace_archive}

abbrev loaded : LoadedMember
loaded = record { member_name = codes "a.o65"; bytes = small_file; obj = object_of small }

-- One file, in a directory.
abbrev files : List ℕ → Option (List ℕ)
files name = if str_eq name (codes "d/a.o65") then some small_file else none

abbrev inputs : List (List ℕ)
inputs = codes "d/a.o65" ∷ []

loaded-IsEntry : IsEntry (loaded.member_name, loaded.bytes)
loaded-IsEntry = (
  omega arith,
  omega arith,
  (omega arith, (omega arith, (omega arith, (omega arith, (omega arith, tt))))),
  omega arith,
)

loaded-IsLoadable : IsLoadable loaded
loaded-IsLoadable =
    (loaded-IsEntry, omega arith, parse-write small small_file small-IsWritable small_written)

inputs-AreInputs : AreInputs files inputs (entries_of (loaded ∷ []))
unfolding base_name base_from strrchr member_name_is_valid has_byte str_eq
inputs-AreInputs = ((refl, refl, refl, loaded-IsEntry), tt)

load_archive-replace_archive_example :
    (archive : List ℕ) × (replace_archive files none inputs ≡ some archive)
    × (load_archive archive ≡ ok (loaded ∷ []))
load_archive-replace_archive_example =
    load_archive-replace_archive files inputs (loaded ∷ []) inputs-AreInputs (loaded-IsLoadable, tt)

select_needed_objects-loaded_inputs_example :
    (out : InputSet) × (select_needed_objects 2
        (loaded_inputs [] ((loaded ∷ []) ∷ []) (input_archive 0 ∷ []))
      ≡ some out)
    × IsClosed out
    × (length out.objects + unselected out ≡ 1)
    × (command_files out ≡ [])
    × (archive_files out ≡ (loaded.obj ∷ []) ∷ [])
    × (out.order ≡ input_archive 0 ∷ [])
select_needed_objects-loaded_inputs_example =
    select_needed_objects-loaded_inputs [] ((loaded ∷ []) ∷ []) (input_archive 0 ∷ [])
