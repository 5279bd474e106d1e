-- ===== src/Archiver/Extract.antt =====
-- `extract_archive` and `list_archive` of archiver/n65ar.c on an archive of whole members.
use n.Prelude.{
  ℕ, zero, suc, ◌<◌, ◌≡◌, refl, sym, ap, ◌∙◌, inl, inr, Bool, true, false, Option, none, some, List,
  [], ◌∷◌, ◌++◌, length, All, arith, Bool-cases, if◌then◌else◌,
}
use n.Archiver.{
  skip_n_bytes, copy_n_bytes, MemberHeader, at_eof, member, read_member_header,
  member_name_is_valid,
}
use n.Archiver.Commands.{extract_members, list_members, is_requested, extract_archive, list_archive}
use n.Archiver.Format.{copy_n_bytes-append, skip_n_bytes-append}
use n.Archiver.Requests.{AreAsked, is_requested-IsAsked}
use n.Archiver.Records.{Entry, IsEntry, records, archive_of, header-eq, open_archive_of, enough}

-- The members that pass the test of the code.
abbrev requested_of : List (List ℕ) → List Entry → List Entry
requested_of requested [] = []
requested_of requested (e ∷ es) =
    if is_requested e.0 requested then e ∷ requested_of requested es else requested_of requested es

abbrev pub names_of : List Entry → List (List ℕ)
names_of [] = []
names_of (e ∷ es) = e.0 ∷ names_of es

abbrev Extracted : Type 0
Extracted = List (List ℕ × List ℕ) × Bool

-- The stages of a round of `extract_members`, each on what the stage before it computes.
module _ (fuel : ℕ) (requested : List (List ℕ)) where
  abbrev add_file : List ℕ → Option (List ℕ × List ℕ) → Extracted
  add_file name copied = elim copied [
    | none ↦ ([], false)
    | some got ↦
        let (more, status) = extract_members fuel requested got.0 in ((name, got.1) ∷ more, status)
  ]

  abbrev after_skip : Option (List ℕ) → Extracted
  after_skip skipped = elim skipped [
    | none ↦ ([], false)
    | some rest ↦ extract_members fuel requested rest
  ]

  abbrev after_test : List ℕ → ℕ → List ℕ → Bool → Extracted
  after_test name size rest valid = elim valid [
    | false ↦ ([], false)
    | true ↦ add_file name (copy_n_bytes rest [] size)
  ]

  abbrev if_requested : List ℕ → ℕ → List ℕ → Bool → Extracted
  if_requested name size rest wanted = elim wanted [
    | false ↦ after_skip (skip_n_bytes rest size)
    | true ↦ after_test name size rest (member_name_is_valid name)
  ]

  abbrev after_header : Option MemberHeader → Extracted
  after_header header = elim header [
    | none ↦ ([], false)
    | some h ↦ elim h [
      | at_eof ↦ ([], true)
      | member name size rest ↦ if_requested name size rest (is_requested name requested)
    ]
  ]

abbrev chosen : List (List ℕ) → Entry → List Entry → Bool → List Entry
chosen requested e es wanted =
    if wanted then e ∷ requested_of requested es else requested_of requested es

extract_members_lem :
    (fuel : ℕ) (requested : List (List ℕ)) (es : List Entry)
    → All IsEntry es
    → All (λ e. member_name_is_valid e.0 ≡ true) es
    → length es < fuel
    → extract_members fuel requested (records es) ≡ (requested_of requested es, true)
unfolding extract_members read_member_header
extract_members_lem zero requested es h valid lt = elim lt [ ]
extract_members_lem (suc fuel) requested [] h valid lt = refl
extract_members_lem (suc fuel) requested (e ∷ es) h valid lt =
    let header = ap (after_header fuel requested) (header-eq e (e.1 ++ records es) h.0) in
    let ih = extract_members_lem fuel requested es h.1 valid.1 (omega (arith, lt)) in
    elim (Bool-cases (is_requested e.0 requested)) [
      | inl q ↦
          header
          ∙ ap (if_requested fuel requested e.0 (length e.1) (e.1 ++ records es)) q
          ∙ ap (after_test fuel requested e.0 (length e.1) (e.1 ++ records es)) valid.0
          ∙ ap (add_file fuel requested e.0) (copy_n_bytes-append e.1 (records es) [])
          ∙ ap (λ x. (e ∷ x.0, x.1)) ih
          ∙ ap (λ b. (chosen requested e es b, true)) (sym q)
      | inr q ↦
          header
          ∙ ap (if_requested fuel requested e.0 (length e.1) (e.1 ++ records es)) q
          ∙ ap (after_skip fuel requested) (skip_n_bytes-append e.1 (records es))
          ∙ ih
          ∙ ap (λ b. (chosen requested e es b, true)) (sym q)
    ]

abbrev Listed : Type 0
Listed = List (List ℕ) × Bool

module _ (fuel : ℕ) (requested : List (List ℕ)) where
  abbrev line_of : List ℕ → Bool → List (List ℕ)
  line_of name wanted = if wanted then name ∷ [] else []

  abbrev after_line : List (List ℕ) → Option (List ℕ) → Listed
  after_line line skipped = elim skipped [
    | none ↦ (line, false)
    | some rest ↦ let (more, status) = list_members fuel requested rest in (line ++ more, status)
  ]

  abbrev list_header : Option MemberHeader → Listed
  list_header header = elim header [
    | none ↦ ([], false)
    | some h ↦ elim h [
      | at_eof ↦ ([], true)
      | member name size rest ↦
          after_line (line_of name (is_requested name requested)) (skip_n_bytes rest size)
    ]
  ]

list_members_lem :
    (fuel : ℕ) (requested : List (List ℕ)) (es : List Entry)
    → All IsEntry es
    → length es < fuel
    → list_members fuel requested (records es) ≡ (names_of (requested_of requested es), true)
unfolding list_members read_member_header
list_members_lem zero requested es h lt = elim lt [ ]
list_members_lem (suc fuel) requested [] h lt = refl
list_members_lem (suc fuel) requested (e ∷ es) h lt =
    let header = ap (list_header fuel requested) (header-eq e (e.1 ++ records es) h.0) in
    let skip =
      ap (after_line fuel requested (line_of fuel requested e.0 (is_requested e.0 requested)))
        (skip_n_bytes-append e.1 (records es)) in
    let ih = list_members_lem fuel requested es h.1 (omega (arith, lt)) in
    let start =
      header
      ∙ skip
      ∙ ap (λ x. (line_of fuel requested e.0 (is_requested e.0 requested) ++ x.0, x.1)) ih in
    elim (Bool-cases (is_requested e.0 requested)) [
      | inl q ↦
          start
          ∙ ap (λ b. (line_of fuel requested e.0 b ++ names_of (requested_of requested es), true)) q
          ∙ ap (λ b. (names_of (chosen requested e es b), true)) (sym q)
      | inr q ↦
          start
          ∙ ap (λ b. (line_of fuel requested e.0 b ++ names_of (requested_of requested es), true)) q
          ∙ ap (λ b. (names_of (chosen requested e es b), true)) (sym q)
    ]

requested_of-AreAsked :
    (requested : List (List ℕ)) (es : List Entry)
    → AreAsked requested es (requested_of requested es)
requested_of-AreAsked requested [] = refl
requested_of-AreAsked requested (e ∷ es) = elim (is_requested-IsAsked e.0 requested) [
  | inl (q, asked) ↦
      rw q (inl (asked, (requested_of requested es, refl, requested_of-AreAsked requested es)))
  | inr (q, other) ↦ rw q (inr (other, requested_of-AreAsked requested es))
]

extract_archive-eq :
    (es : List Entry) (requested : List (List ℕ))
    → All IsEntry es
    → All (λ e. member_name_is_valid e.0 ≡ true) es
    → extract_archive (archive_of es) requested ≡ (requested_of requested es, true)
unfolding extract_archive
extract_archive-eq es requested h valid =
    ap
      (λ o. elim o as (λ x. Extracted) [
        | none ↦ ([], false)
        | some members ↦ extract_members (suc (length members)) requested members
      ])
      (open_archive_of es)
    ∙ extract_members_lem (suc (length (records es))) requested es h valid (enough es)

list_archive-eq :
    (es : List Entry) (requested : List (List ℕ))
    → All IsEntry es
    → list_archive (archive_of es) requested ≡ (names_of (requested_of requested es), true)
unfolding list_archive
list_archive-eq es requested h =
    ap
      (λ o. elim o as (λ x. Listed) [
        | none ↦ ([], false)
        | some members ↦ list_members (suc (length members)) requested members
      ])
      (open_archive_of es)
    ∙ list_members_lem (suc (length (records es))) requested es h (enough es)

-- From an archive of valid members, whose names are also valid as file names, the extraction ends
-- well and writes, in their order, the members that are asked for and no others: all if no names
-- are given, and else those whose name is the last part of one of the paths given.
pub extract_archive_lem :
    (es : List Entry) (requested : List (List ℕ))
    → All IsEntry es
    → All (λ e. member_name_is_valid e.0 ≡ true) es
    → (out : List Entry) × (extract_archive (archive_of es) requested ≡ (out, true))
      × AreAsked requested es out
extract_archive_lem es requested h valid = (
  requested_of requested es,
  extract_archive-eq es requested h valid,
  requested_of-AreAsked requested es,
)

-- Extraction and listing agree on the members that are asked for.
pub extract_and_list :
    (es : List Entry) (requested : List (List ℕ))
    → All IsEntry es
    → All (λ e. member_name_is_valid e.0 ≡ true) es
    → (out : List Entry) × (extract_archive (archive_of es) requested ≡ (out, true))
      × (list_archive (archive_of es) requested ≡ (names_of out, true))
      × AreAsked requested es out
extract_and_list es requested h valid = (
  requested_of requested es,
  extract_archive-eq es requested h valid,
  list_archive-eq es requested h,
  requested_of-AreAsked requested es,
)
