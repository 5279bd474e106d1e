-- ===== src/Archiver/Tests.antt =====
-- Runs of archiver/n65ar.c, and instances of the theorems about it.
use n.Prelude.{
  ℕ, ◌≡◌, ◌≢◌, refl, inl, true, false, Option, none, some, List, [], ◌∷◌, ◌++◌, codes, arith,
  str_eq, if◌then◌else◌, All,
}
use n.Archiver.{base_name, base_from, strrchr, member_name_is_valid, has_byte, member_name_index}
use n.Archiver.Commands.{
  replace_archive, append_archive, extract_archive, list_archive, parse_mode_string, mode_loop,
  skip_dash, is_empty, parse_command_line, parse_legacy_mode, run_mode, replace_command,
}
use n.Archiver.Modes.{mode_of, parse_mode_string_lem}
use n.Archiver.Records.{Entry, IsEntry, archive_of, others}
use n.Archiver.Requests.{AreAsked}
use n.Archiver.Extract.{names_of, extract_archive_lem}
use n.Archiver.Update.{
  AreInputs, replace_archive_lem, append_archive_lem, extract_archive-replace_archive,
}

abbrev old_a : Entry
old_a = (codes "a", 1 ∷ [])

abbrev old_b : Entry
old_b = (codes "b", 2 ∷ 0 ∷ [])

abbrev new_a : Entry
new_a = (codes "a", 3 ∷ [])

abbrev files : List ℕ → Option (List ℕ)
files name = if str_eq name (codes "d/a") then some (3 ∷ []) else none

abbrev inputs : List (List ℕ)
inputs = codes "d/a" ∷ []

entry : (c : ℕ) (contents : ℕ) → c ≢ 0 → IsEntry (c ∷ [], contents ∷ [])
entry c contents h = (omega arith, omega arith, (h, tt), omega arith)

old-AreEntries : All IsEntry (old_a ∷ old_b ∷ [])
old-AreEntries =
    (entry 97 1 (omega arith), ((omega arith, omega arith, (omega arith, tt), omega arith), tt))

inputs-AreInputs : AreInputs files inputs (new_a ∷ [])
unfolding base_name base_from strrchr member_name_is_valid has_byte str_eq
inputs-AreInputs = ((refl, refl, refl, entry 97 3 (omega arith)), tt)

-- The new `a` stands at the end.
kept_members : others inputs (old_a ∷ old_b ∷ []) ≡ old_b ∷ []
unfolding member_name_index base_name base_from strrchr str_eq
kept_members = refl

replace_archive_lem_example :
    replace_archive files (some (archive_of (old_a ∷ old_b ∷ []))) inputs
    ≡ some (archive_of (others inputs (old_a ∷ old_b ∷ []) ++ new_a ∷ []))
replace_archive_lem_example =
    replace_archive_lem files (old_a ∷ old_b ∷ []) inputs (new_a ∷ []) old-AreEntries
      inputs-AreInputs

append_archive_lem_example :
    append_archive files (some (archive_of (old_a ∷ old_b ∷ []))) inputs
    ≡ some (archive_of (old_a ∷ old_b ∷ new_a ∷ []))
append_archive_lem_example =
    append_archive_lem files (old_a ∷ old_b ∷ []) inputs (new_a ∷ []) old-AreEntries
      inputs-AreInputs

extract_archive-replace_archive_example :
    (archive : List ℕ) × (out : List Entry) × (replace_archive files none inputs ≡ some archive)
    × (extract_archive archive [] ≡ (out, true))
    × (list_archive archive [] ≡ (names_of out, true))
    × AreAsked [] (new_a ∷ []) out
extract_archive-replace_archive_example =
    extract_archive-replace_archive files inputs (new_a ∷ []) [] inputs-AreInputs

extract_archive_lem_example :
    (out : List Entry) × (extract_archive (archive_of (old_a ∷ old_b ∷ [])) (codes "d/b" ∷ [])
      ≡ (out, true))
    × AreAsked (codes "d/b" ∷ []) (old_a ∷ old_b ∷ []) out
unfolding member_name_is_valid has_byte
extract_archive_lem_example =
    extract_archive_lem (old_a ∷ old_b ∷ []) (codes "d/b" ∷ []) old-AreEntries (refl, (refl, tt))

mode_rcs :
    parse_command_line (codes "rcs" ∷ codes "x.a65" ∷ codes "a.o65" ∷ [])
    ≡ replace_command (codes "x.a65") (codes "a.o65" ∷ []) true false
unfolding parse_command_line parse_legacy_mode run_mode parse_mode_string mode_loop skip_dash
    is_empty str_eq
mode_rcs = refl

two_operations : parse_mode_string (codes "rq") ≡ none
unfolding parse_mode_string mode_loop skip_dash is_empty
two_operations = refl

parse_mode_string_lem_example : parse_mode_string (codes "-rcv") ≡ mode_of (codes "rcv")
parse_mode_string_lem_example = parse_mode_string_lem (codes "-rcv") (codes "rcv") (inl refl)
