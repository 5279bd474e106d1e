-- ===== src/Linker/Select.antt =====
-- linker/n65ld_input.c, `select_needed_objects` and what it calls: which of the loaded objects and
-- archive members are linked. A pointer to an object is its position in the input set.
pub mod Progress
pub mod Found
pub mod Missing
pub mod Closed
pub mod Kept
mod Tests
use n.Prelude.{
  ℕ, zero, suc, ◌+◌, Bool, true, false, ◌||◌, Option, none, some, List, [], ◌∷◌, ◌++◌, str_eq,
  codes, if◌then◌else◌, get_elem?, set,
}
use n.O65.{Symbol, ObjectFile}
use n.Linker.Symbols.{make_weak_name}

-- An `object_file_t` with its `selected`.
pub record Candidate : Type 0 where
  pub file : ObjectFile
  pub selected : Bool

-- `archive_member_t`: it has a `selected` of its own.
pub record Member : Type 0 where
  pub obj : Candidate
  pub selected : Bool

-- `input_ref_t`
pub data InputRef : Type 0 where
  input_object input_archive : ℕ → InputRef

-- `input_set_t`: each array with its count is a list. `objects` are the copies that are linked.
pub record InputSet : Type 0 where
  pub objects : List ObjectFile
  pub cmd_objects : List Candidate
  pub archives : List (List Member)
  pub order : List InputRef

-- What an `object_file_t *` of a provider points to.
pub data Provider : Type 0 where
  in_objects : ℕ → Provider
  in_archive : ℕ → ℕ → Provider

unfoldable pub exports_name : List Symbol → List ℕ → Bool
exports_name [] name = false
exports_name (s ∷ ss) name = str_eq s.name name || exports_name ss name

unfoldable pub object_exports_symbol : ObjectFile → List ℕ → Bool
object_exports_symbol obj name = exports_name obj.exports name

unfoldable pub object_exports_symbol_or_weak : ObjectFile → List ℕ → Bool
object_exports_symbol_or_weak obj name =
    object_exports_symbol obj name || object_exports_symbol obj (make_weak_name name)

unfoldable pub symbol_in_list : List (List ℕ) → List ℕ → Bool
symbol_in_list [] name = false
symbol_in_list (x ∷ xs) name = str_eq x name || symbol_in_list xs name

unfoldable pub add_unique_string : List (List ℕ) → List ℕ → List (List ℕ)
add_unique_string items name = if symbol_in_list items name then items else items ++ name ∷ []

unfoldable pub exported_by : List ObjectFile → List ℕ → Bool
exported_by [] name = false
exported_by (obj ∷ objs) name = object_exports_symbol_or_weak obj name || exported_by objs name

unfoldable pub selected_objects_export_symbol : InputSet → List ℕ → Bool
selected_objects_export_symbol inputs name = exported_by inputs.objects name

unfoldable pub add_all : List (List ℕ) → List (List ℕ) → List (List ℕ)
add_all items [] = items
add_all items (name ∷ names) = add_all (add_unique_string items name) names

unfoldable pub add_undefs : List (List ℕ) → List ObjectFile → List (List ℕ)
add_undefs items [] = items
add_undefs items (obj ∷ objs) = add_undefs (add_all items obj.undefs) objs

unfoldable pub vector_names : List (List ℕ)
vector_names = codes "__reset" ∷ codes "__nmi" ∷ codes "__irqbrk" ∷ []

unfoldable pub collect_needed_symbols : InputSet → List (List ℕ)
collect_needed_symbols inputs = add_undefs (add_all [] vector_names) inputs.objects

-- The loop of `find_provider_in_archive`, from the member at position `m`.
unfoldable pub find_member : List Member → List ℕ → ℕ → Option ℕ
find_member [] name m = none
find_member (mem ∷ mems) name m =
    let rest = find_member mems name (suc m) in
    if mem.selected then rest else if object_exports_symbol mem.obj.file name then some m else rest

unfoldable pub find_provider_in_archive : ℕ → List Member → List ℕ → Option Provider
find_provider_in_archive i mems name = elim (find_member mems name 0) [
  | none ↦ none
  | some m ↦ some (in_archive i m)
]

unfoldable pub find_provider_in_object : ℕ → Candidate → List ℕ → Option Provider
find_provider_in_object i obj name =
    if obj.selected
    then none
    else if object_exports_symbol obj.file name
    then some (in_objects i)
    else none

-- One round of the loops of `find_best_provider`. A reference is in bounds in C.
unfoldable pub find_in_ref : InputSet → List ℕ → InputRef → Option Provider
find_in_ref inputs name (input_object i) = elim (get_elem? inputs.cmd_objects i) [
  | none ↦ none
  | some obj ↦ find_provider_in_object i obj name
]
find_in_ref inputs name (input_archive i) = elim (get_elem? inputs.archives i) [
  | none ↦ none
  | some mems ↦ find_provider_in_archive i mems name
]

unfoldable pub find_in_order : InputSet → List ℕ → List InputRef → Option Provider
find_in_order inputs name [] = none
find_in_order inputs name (ref ∷ refs) = elim (find_in_ref inputs name ref) [
  | some p ↦ some p
  | none ↦ find_in_order inputs name refs
]

unfoldable pub find_best_provider : InputSet → List ℕ → Option Provider
find_best_provider inputs name = elim (find_in_order inputs name inputs.order) [
  | some p ↦ some p
  | none ↦ find_in_order inputs (make_weak_name name) inputs.order
]

-- An object of the command line, which has no archive member.
unfoldable pub include_cmd_object : InputSet → ℕ → Candidate → InputSet
include_cmd_object inputs i obj = if obj.selected then inputs else record {
  objects = inputs.objects ++ obj.file ∷ [];
  cmd_objects = set inputs.cmd_objects i (record { file = obj.file; selected = true });
  archives = inputs.archives;
  order = inputs.order;
}

-- An object of an archive: its member is marked too.
unfoldable pub include_member : InputSet → ℕ → List Member → ℕ → Member → InputSet
include_member inputs i mems m mem = if mem.obj.selected then inputs else record {
  objects = inputs.objects ++ mem.obj.file ∷ [];
  cmd_objects = inputs.cmd_objects;
  archives = set inputs.archives i (
      set mems m
        (record { obj = record { file = mem.obj.file; selected = true }; selected = true }));
  order = inputs.order;
}

unfoldable pub include_object : InputSet → Provider → InputSet
include_object inputs (in_objects i) = elim (get_elem? inputs.cmd_objects i) [
  | none ↦ inputs
  | some obj ↦ include_cmd_object inputs i obj
]
include_object inputs (in_archive i m) = elim (get_elem? inputs.archives i) [
  | none ↦ inputs
  | some mems ↦ elim (get_elem? mems m) [
    | none ↦ inputs
    | some mem ↦ include_member inputs i mems m mem
  ]
]

-- The loop over the needed symbols, with `progress`.
unfoldable pub select_round : InputSet → List (List ℕ) → Bool → InputSet × Bool
select_round inputs [] progress = (inputs, progress)
select_round inputs (name ∷ names) progress = elim (selected_objects_export_symbol inputs name) [
  | true ↦ select_round inputs names progress
  | false ↦ elim (find_best_provider inputs name) [
    | none ↦ select_round inputs names progress
    | some p ↦ select_round (include_object inputs p) names true
  ]
]

-- The `do`-`while` loop; `none` if `fuel` rounds are not enough.
unfoldable pub select_needed_objects : ℕ → InputSet → Option InputSet
select_needed_objects zero inputs = none
select_needed_objects (suc fuel) inputs =
    let round = select_round inputs (collect_needed_symbols inputs) false in
    let rest = select_needed_objects fuel round.0 in if round.1 then rest else some round.0
