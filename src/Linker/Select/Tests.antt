-- ===== src/Linker/Select/Tests.antt =====
-- A run of `select_needed_objects` of linker/n65ld_input.c, and instances of the theorems about it.
use n.Prelude.{ℕ, ◌≡◌, refl, ◌⊎◌, false, Option, some, List, [], ◌∷◌, codes, All, str_eq}
use n.O65.{Symbol, ObjectFile, seg_text}
use n.Linker.Symbols.{make_weak_name}
use n.Linker.Select.{
  Member, input_object, input_archive, InputSet, in_archive, find_best_provider,
  select_needed_objects, select_round, include_object, include_cmd_object, include_member,
  collect_needed_symbols, add_undefs, add_all, vector_names, add_unique_string, symbol_in_list,
  selected_objects_export_symbol, exported_by, object_exports_symbol_or_weak, object_exports_symbol,
  exports_name, find_in_order, find_in_ref, find_provider_in_object, find_provider_in_archive,
  find_member,
}
use n.Linker.Select.Found.{Provides}
use n.Linker.Select.Missing.{RefLacks, find_best_provider_lem}

abbrev export : List ℕ → Symbol
export name = record { name = name; segid = seg_text; value = 0 }

abbrev object_with : List Symbol → List (List ℕ) → ObjectFile
object_with exports undefs = record {
  mode = 0;
  tbase = 0;
  dbase = 0;
  bbase = 0;
  zbase = 0;
  stack = 0;
  blen = 0;
  zlen = 0;
  text = record { bytes = []; relocs = [] };
  data_segment = record { bytes = []; relocs = [] };
  undefs = undefs;
  exports = exports;
  layouts = [];
}

abbrev program : ObjectFile
program = object_with (export (codes "__reset") ∷ []) (codes "put" ∷ [])

abbrev weak_put : ObjectFile
weak_put = object_with (export (codes "__weak_put") ∷ []) []

abbrev strong_put : ObjectFile
strong_put = object_with (export (codes "put") ∷ []) []

abbrev member_of : ObjectFile → Member
member_of file = record { obj = record { file = file; selected = false }; selected = false }

-- The archive has the weak form first.
abbrev inputs : InputSet
inputs = record {
  objects = [];
  cmd_objects = record { file = program; selected = false } ∷ [];
  archives = (member_of weak_put ∷ member_of strong_put ∷ []) ∷ [];
  order = input_object 0 ∷ input_archive 0 ∷ [];
}

abbrev objects_of : Option InputSet → List ObjectFile
objects_of (some i) = i.objects
objects_of _ = []

linked : objects_of (select_needed_objects 4 inputs) ≡ program ∷ strong_put ∷ []
unfolding select_needed_objects select_round include_object include_cmd_object include_member
    collect_needed_symbols add_undefs add_all vector_names add_unique_string symbol_in_list
    selected_objects_export_symbol exported_by object_exports_symbol_or_weak object_exports_symbol
    exports_name find_best_provider find_in_order find_in_ref find_provider_in_object
    find_provider_in_archive find_member make_weak_name str_eq
linked = refl

found : find_best_provider inputs (codes "put") ≡ some (in_archive 0 1)
unfolding find_best_provider find_in_order find_in_ref find_provider_in_object
    find_provider_in_archive find_member object_exports_symbol exports_name str_eq
found = refl

find_best_provider_lem_example :
    Provides inputs (codes "put") (in_archive 0 1)
    ⊎ (All (RefLacks inputs (codes "put")) inputs.order
        × Provides inputs (make_weak_name (codes "put")) (in_archive 0 1))
find_best_provider_lem_example =
    find_best_provider_lem inputs (codes "put") (in_archive 0 1) ((refl, (refl, tt)), tt) found
