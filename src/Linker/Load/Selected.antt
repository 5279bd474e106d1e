-- ===== src/Linker/Load/Selected.antt =====
-- The selection of linker/n65ld_input.c on what was loaded: `main` of linker/n65ld.c calls
-- `select_needed_objects` on the objects and archives of the command line, in their order.
use n.Prelude.{ℕ, suc, ◌+◌, ◌≡◌, refl, ap, ◌∙◌, some, List, [], ◌∷◌, map, length, All, arith}
use n.O65.{ObjectFile}
use n.Linker.Select.{InputRef, InputSet, select_needed_objects}
use n.Linker.Select.Progress.{
  unselected, unselected_objects, unselected_members, unselected_archives,
}
use n.Linker.Select.Kept.{command_files, archive_files, select_needed_objects-SameFiles}
use n.Linker.Select.Closed.{IsClosed, select_needed_objects_lem}
use n.Linker.Load.{LoadedMember, candidates_of, command_line_objects, loaded_inputs}

candidates-in_sync :
    (ms : List LoadedMember) → All (λ m. m.selected ≡ m.obj.selected) (candidates_of ms)
unfolding candidates_of
candidates-in_sync [] = tt
candidates-in_sync (m ∷ ms) = (refl, candidates-in_sync ms)

archives-in_sync :
    (archives : List (List LoadedMember))
    → All (λ mems. All (λ m. m.selected ≡ m.obj.selected) mems) (map candidates_of archives)
archives-in_sync [] = tt
archives-in_sync (a ∷ archives) = (candidates-in_sync a, archives-in_sync archives)

-- The number of members in all archives.
abbrev pub member_count : List (List LoadedMember) → ℕ
member_count [] = 0
member_count (a ∷ archives) = length a + member_count archives

abbrev pub member_files : List (List LoadedMember) → List (List ObjectFile)
member_files archives = map (map (λ m. m.obj)) archives

unselected-objects :
    (objects : List ObjectFile) → unselected_objects (command_line_objects objects) ≡ length objects
unfolding command_line_objects
unselected-objects [] = refl
unselected-objects (obj ∷ objects) = omega (arith, unselected-objects objects)

unselected-members : (ms : List LoadedMember) → unselected_members (candidates_of ms) ≡ length ms
unfolding candidates_of
unselected-members [] = refl
unselected-members (m ∷ ms) = omega (arith, unselected-members ms)

unselected-archives :
    (archives : List (List LoadedMember))
    → unselected_archives (map candidates_of archives) ≡ member_count archives
unselected-archives [] = refl
unselected-archives (a ∷ archives) =
    omega (arith, unselected-members a, unselected-archives archives)

files-objects :
    (objects : List ObjectFile) → map (λ c. c.file) (command_line_objects objects) ≡ objects
unfolding command_line_objects
files-objects [] = refl
files-objects (obj ∷ objects) = ap (λ z. obj ∷ z) (files-objects objects)

files-members :
    (ms : List LoadedMember) → map (λ m. m.obj.file) (candidates_of ms) ≡ map (λ m. m.obj) ms
unfolding candidates_of
files-members [] = refl
files-members (m ∷ ms) = ap (λ z. m.obj ∷ z) (files-members ms)

files-archives :
    (archives : List (List LoadedMember))
    → map (map (λ m. m.obj.file)) (map candidates_of archives) ≡ member_files archives
files-archives [] = refl
files-archives (a ∷ archives) =
    ap (λ z. z ∷ map (map (λ m. m.obj.file)) (map candidates_of archives)) (files-members a)
    ∙ ap (λ z. map (λ m. m.obj) a ∷ z) (files-archives archives)

-- For any objects and archives of the command line, in any order of references, as they are after
-- loading: the selection reaches its end within one round more than there are objects and
-- members; then each symbol that is needed is exported by a linked object, as such or weakly, or
-- no object left in the inputs exports it in either form; the linked objects and those left are
-- together as many as the objects and members; and the inputs still are those objects, those
-- members and that order.
pub select_needed_objects-loaded_inputs :
    (objects : List ObjectFile) (archives : List (List LoadedMember)) (order : List InputRef)
    → (out : InputSet) × (select_needed_objects
          (suc (length objects + member_count archives))
          (loaded_inputs objects archives order)
        ≡ some out)
      × IsClosed out
      × (length out.objects + unselected out ≡ length objects + member_count archives)
      × (command_files out ≡ objects)
      × (archive_files out ≡ member_files archives)
      × (out.order ≡ order)
unfolding loaded_inputs
select_needed_objects-loaded_inputs objects archives order =
    let inputs = loaded_inputs objects archives order in
    let count : unselected inputs ≡ length objects + member_count archives =
      omega (arith, unselected-objects objects, unselected-archives archives) in
    let fuel = suc (length objects + member_count archives) in
    let (out, e, closed, total) =
      select_needed_objects_lem fuel inputs (archives-in_sync archives) (omega (arith, count)) in
    let kept = select_needed_objects-SameFiles fuel inputs out e in
    (
      out,
      e,
      closed,
      omega (arith, total, count),
      kept.0 ∙ files-objects objects,
      kept.1 ∙ files-archives archives,
      kept.2,
    )
