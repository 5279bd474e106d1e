-- ===== src/Archiver/Commands.antt =====
-- The commands of archiver/n65ar.c. The result of a command that writes an archive is the archive's
-- new contents, `none` where the status is 1 and the old archive stays. What is printed on a verbose
-- run is not modelled.
use n.Prelude.{
  ℕ, zero, suc, Bool, true, false, Option, none, some, List, [], ◌∷◌, ◌++◌, length, ◌==◌, ◌||◌,
  if◌then◌else◌, codes, str_eq,
}
use n.Archiver.{
  ◌>>=◌, nar_magic, open_archive_for_read, at_eof, member, read_member_header, write_member_record,
  member_name_index, member_name_is_valid, skip_n_bytes, copy_n_bytes, append_member_from_file,
}

-- The loop of `append_archive` over the old archive.
unfoldable pub copy_members : ℕ → List ℕ → List ℕ → Option (List ℕ)
copy_members zero old_archive new_archive = none
copy_members (suc fuel) old_archive new_archive = read_member_header old_archive >>= λ header.
    elim header [
      | at_eof ↦ some new_archive
      | member name size rest ↦
          write_member_record new_archive rest name size >>= λ got. copy_members fuel got.0 got.1
    ]

-- The loop of `replace_archive` over the old archive.
unfoldable pub copy_other_members : ℕ → List (List ℕ) → List ℕ → List ℕ → Option (List ℕ)
copy_other_members zero inputs old_archive new_archive = none
copy_other_members (suc fuel) inputs old_archive new_archive =
    read_member_header old_archive >>= λ header. elim header [
      | at_eof ↦ some new_archive
      | member name size rest ↦ elim (member_name_index name inputs) [
        | some i ↦
            skip_n_bytes rest size >>= λ rest'. copy_other_members fuel inputs rest' new_archive
        | none ↦ write_member_record new_archive rest name size >>= λ got.
            copy_other_members fuel inputs got.0 got.1
      ]
    ]

-- The loop over the inputs.
unfoldable pub append_inputs : (List ℕ → Option (List ℕ)) → List (List ℕ) → List ℕ → Option (List ℕ)
append_inputs read_file [] archive = some archive
append_inputs read_file (input ∷ inputs) archive =
    append_member_from_file read_file archive input >>= λ more. append_inputs read_file inputs more

-- The members of an archive that is there, behind a new header.
unfoldable pub append_archive :
    (List ℕ → Option (List ℕ)) → Option (List ℕ) → List (List ℕ) → Option (List ℕ)
append_archive read_file none inputs = append_inputs read_file inputs nar_magic
append_archive read_file (some old) inputs = open_archive_for_read old >>= λ members.
    copy_members (suc (length members)) members nar_magic >>= λ new.
    append_inputs read_file inputs new

unfoldable pub replace_archive :
    (List ℕ → Option (List ℕ)) → Option (List ℕ) → List (List ℕ) → Option (List ℕ)
replace_archive read_file none inputs = append_inputs read_file inputs nar_magic
replace_archive read_file (some old) inputs = open_archive_for_read old >>= λ members.
    copy_other_members (suc (length members)) inputs members nar_magic >>= λ new.
    append_inputs read_file inputs new

-- `requested_count == 0 || member_name_index(…) >= 0`
unfoldable pub is_requested : List ℕ → List (List ℕ) → Bool
is_requested name [] = true
is_requested name (r ∷ requested) = elim (member_name_index name (r ∷ requested)) [
  | none ↦ false
  | some i ↦ true
]

-- The files that `extract_archive` writes in full, in order, and whether it ended well. What a copy
-- that fails leaves of its file is not modelled.
unfoldable pub extract_members : ℕ → List (List ℕ) → List ℕ → List (List ℕ × List ℕ) × Bool
extract_members zero requested archive = ([], false)
extract_members (suc fuel) requested archive = elim (read_member_header archive) [
  | none ↦ ([], false)
  | some header ↦ elim header [
    | at_eof ↦ ([], true)
    | member name size rest ↦ elim (is_requested name requested) [
      | false ↦ elim (skip_n_bytes rest size) [
        | none ↦ ([], false)
        | some rest' ↦ extract_members fuel requested rest'
      ]
      | true ↦ elim (member_name_is_valid name) [
        | false ↦ ([], false)
        | true ↦ elim (copy_n_bytes rest [] size) [
          | none ↦ ([], false)
          | some got ↦
              let (more, status) = extract_members fuel requested got.0 in
              ((name, got.1) ∷ more, status)
        ]
      ]
    ]
  ]
]

unfoldable pub extract_archive : List ℕ → List (List ℕ) → List (List ℕ × List ℕ) × Bool
extract_archive archive requested = elim (open_archive_for_read archive) [
  | none ↦ ([], false)
  | some members ↦ extract_members (suc (length members)) requested members
]

-- The names that `list_archive` prints, and whether it ended well.
unfoldable pub list_members : ℕ → List (List ℕ) → List ℕ → List (List ℕ) × Bool
list_members zero requested archive = ([], false)
list_members (suc fuel) requested archive = elim (read_member_header archive) [
  | none ↦ ([], false)
  | some header ↦ elim header [
    | at_eof ↦ ([], true)
    | member name size rest ↦
        let line = if is_requested name requested then name ∷ [] else [] in
        elim (skip_n_bytes rest size) [
          | none ↦ (line, false)
          | some rest' ↦
              let (more, status) = list_members fuel requested rest' in (line ++ more, status)
        ]
  ]
]

unfoldable pub list_archive : List ℕ → List (List ℕ) → List (List ℕ) × Bool
list_archive archive requested = elim (open_archive_for_read archive) [
  | none ↦ ([], false)
  | some members ↦ list_members (suc (length members)) requested members
]

-- `ar_options_t`
pub record ArOptions : Type 0 where
  pub op : ℕ
  pub suppress_create_message : Bool
  pub verbose : Bool

-- The loop of `parse_mode_string`. r 114, q 113, t 116, x 120, c 99, s 115, v 118.
unfoldable pub mode_loop : List ℕ → Bool → ArOptions → Option ArOptions
mode_loop [] have_op opts = if have_op then some opts else none
mode_loop (p ∷ arg) have_op opts =
    if (p == 114) || (p == 113) || (p == 116) || (p == 120)
    then (if have_op
        then none
        else mode_loop arg true (record {
          op = p;
          suppress_create_message = opts.suppress_create_message;
          verbose = opts.verbose;
        }))
    else if p == 99
    then mode_loop arg have_op
        (record { op = opts.op; suppress_create_message = true; verbose = opts.verbose })
    else if p == 115
    then mode_loop arg have_op opts
    else if p == 118
    then mode_loop arg have_op (record {
      op = opts.op;
      suppress_create_message = opts.suppress_create_message;
      verbose = true;
    })
    else none

unfoldable pub skip_dash : List ℕ → List ℕ
skip_dash [] = []
skip_dash (p ∷ arg) = if p == 45 then arg else p ∷ arg

unfoldable pub is_empty {ℓ} : {A : Type ℓ} → List A → Bool
is_empty [] = true
is_empty (p ∷ arg) = false

-- `none` is the result 0.
unfoldable pub parse_mode_string : List ℕ → Option ArOptions
parse_mode_string arg =
    if is_empty (skip_dash arg)
    then none
    else mode_loop (skip_dash arg) false
        (record { op = 0; suppress_create_message = false; verbose = false })

-- What `main` calls: the archive, the other names, `quiet_create` where there is one, and `verbose`.
pub data Command : Type 0 where
  usage : Command
  replace_command append_command : List ℕ → List (List ℕ) → Bool → Bool → Command
  extract_command list_command : List ℕ → List (List ℕ) → Bool → Command

-- `parse_legacy_mode` on what follows the program's name; `none` is -1.
unfoldable pub parse_legacy_mode : List ℕ → List (List ℕ) → Option Command
parse_legacy_mode mode args =
    if str_eq mode (codes "-c")
    then some (elim args [
      | [] ↦ usage
      | archive ∷ inputs ↦
          if is_empty inputs then usage else replace_command archive inputs true false
    ])
    else if str_eq mode (codes "-x")
    then some (elim args [ [] ↦ usage | archive ∷ names ↦ extract_command archive names false ])
    else if str_eq mode (codes "-l")
    then some (elim args [ [] ↦ usage | archive ∷ names ↦ list_command archive names false ])
    else none

-- The `switch` of `main`.
unfoldable pub run_mode : ArOptions → List ℕ → List (List ℕ) → Command
run_mode opts archive args =
    if (opts.op == 114) || (opts.op == 113)
    then (if is_empty args
        then usage
        else if opts.op == 114
        then replace_command archive args opts.suppress_create_message opts.verbose
        else append_command archive args opts.suppress_create_message opts.verbose)
    else if opts.op == 116
    then list_command archive args opts.verbose
    else if opts.op == 120
    then extract_command archive args opts.verbose
    else usage

-- `main`, on what follows the program's name.
unfoldable pub parse_command_line : List (List ℕ) → Command
parse_command_line [] = usage
parse_command_line (mode ∷ []) = usage
parse_command_line (mode ∷ archive ∷ args) = elim (parse_legacy_mode mode (archive ∷ args)) [
  | some command ↦ command
  | none ↦ elim (parse_mode_string mode) [ none ↦ usage | some opts ↦ run_mode opts archive args ]
]
