-- ===== src/Archiver/Update.antt =====
-- `replace_archive` and `append_archive` of archiver/n65ar.c on lists of members.
use n.Prelude.{
  ℕ, suc, ◌^◌, ◌-◌, ◌≡◌, refl, sym, ap, ◌∙◌, Bool, true, false, not, ◌||◌, Option, none, some, List,
  [], ◌∷◌, ◌++◌, length, ltb, ◌==◌, All, arith, if_false, if◌then◌else◌,
}
use mathlib.Core.List.{append_assoc}
use n.Archiver.{
  ◌>>=◌, nar_magic, copy_n_bytes, member_header, member_name_is_valid, base_name,
  append_member_from_file,
}
use n.Archiver.Commands.{
  append_inputs, append_archive, replace_archive, extract_archive, list_archive, copy_members,
  copy_other_members,
}
use n.Archiver.Format.{append_nil, copy_n_bytes-append}
use n.Archiver.Records.{
  Entry, IsEntry, records, archive_of, others, open_archive_of, enough, copy_members_lem,
  copy_other_members_lem,
}
use n.Archiver.Requests.{AreAsked}
use n.Archiver.Extract.{names_of, extract_and_list}

-- An input that can become the member `e`: a file of that base name that can be read and is not too
-- large.
abbrev pub IsInput : (List ℕ → Option (List ℕ)) → List ℕ → Entry → Type 0
IsInput read_file input e =
    (base_name input ≡ e.0)
    × (read_file input ≡ some e.1)
    × (member_name_is_valid e.0 ≡ true)
    × IsEntry e

abbrev pub AreInputs : (List ℕ → Option (List ℕ)) → List (List ℕ) → List Entry → Type 0
AreInputs read_file [] [] = Unit
AreInputs read_file [] (e ∷ es) = ⊥
AreInputs read_file (input ∷ inputs) [] = ⊥
AreInputs read_file (input ∷ inputs) (e ∷ es) =
    IsInput read_file input e × AreInputs read_file inputs es

-- The function on the name that it stores, and then on what it reads.
module _ (read_file : List ℕ → Option (List ℕ)) (archive input : List ℕ) where
  abbrev copied : List ℕ → List ℕ → Option (List ℕ)
  copied stored content =
      if ltb (2 ^ 32 - 1) (length content)
      then none
      else copy_n_bytes content (archive ++ member_header stored (length content)) (length content)
        >>= λ got. some got.1

  abbrev refused : List ℕ → Bool
  refused stored =
      (length stored == 0) || ltb 65535 (length stored) || not (member_name_is_valid stored)

  abbrev stored_as : List ℕ → Option (List ℕ)
  stored_as stored = if refused stored then none else read_file input >>= copied stored

append_input-eq :
    (read_file : List ℕ → Option (List ℕ)) (archive input : List ℕ) (e : Entry)
    → IsInput read_file input e
    → append_member_from_file read_file archive input
      ≡ some (archive ++ (member_header e.0 (length e.1) ++ e.1))
unfolding append_member_from_file
append_input-eq read_file archive input e (name, content, valid, (pos, short, clean, small)) =
    let accepted : refused read_file archive input e.0 ≡ false =
      ground (arith, pos, short, valid) in
    let header = member_header e.0 (length e.1) in
    let copy = copy_n_bytes-append e.1 [] (archive ++ member_header e.0 (length e.1)) in
    ap (stored_as read_file archive input) name
    ∙ if_false (refused read_file archive input e.0) none
        (read_file input >>= copied read_file archive input e.0) accepted
    ∙ ap (λ o. o >>= copied read_file archive input e.0) content
    ∙ if_false (ltb (2 ^ 32 - 1) (length e.1)) none
        (copy_n_bytes e.1 (archive ++ member_header e.0 (length e.1)) (length e.1) >>= λ got.
          some got.1)
        (ground (arith, small))
    ∙ ap
        (λ l. copy_n_bytes l (archive ++ member_header e.0 (length e.1)) (length e.1) >>= λ got.
          some got.1)
        (sym (append_nil e.1))
    ∙ ap (λ o. o >>= λ got. some got.1) copy
    ∙ ap some (append_assoc archive (member_header e.0 (length e.1)) e.1)

pub append_inputs_lem :
    (read_file : List ℕ → Option (List ℕ)) (inputs : List (List ℕ)) (new : List Entry)
    (archive : List ℕ)
    → AreInputs read_file inputs new
    → append_inputs read_file inputs archive ≡ some (archive ++ records new)
unfolding append_inputs
append_inputs_lem read_file [] [] archive h = ap some (sym (append_nil archive))
append_inputs_lem read_file [] (e ∷ es) archive h = elim h [ ]
append_inputs_lem read_file (input ∷ inputs) [] archive h = elim h [ ]
append_inputs_lem read_file (input ∷ inputs) (e ∷ es) archive h =
    let header = member_header e.0 (length e.1) in
    ap (λ o. o >>= append_inputs read_file inputs) (append_input-eq read_file archive input e h.0)
    ∙ append_inputs_lem read_file inputs es (archive ++ (member_header e.0 (length e.1) ++ e.1)) h.1
    ∙ ap some (
        append_assoc archive (member_header e.0 (length e.1) ++ e.1) (records es)
        ∙ ap (λ y. archive ++ y) (append_assoc (member_header e.0 (length e.1)) e.1 (records es)))

pub records-append : (xs ys : List Entry) → records xs ++ records ys ≡ records (xs ++ ys)
records-append [] ys = refl
records-append (e ∷ xs) ys =
    append_assoc (member_header e.0 (length e.1)) (e.1 ++ records xs) (records ys)
    ∙ ap (λ y. member_header e.0 (length e.1) ++ y)
        (append_assoc e.1 (records xs) (records ys) ∙ ap (λ y. e.1 ++ y) (records-append xs ys))

behind_magic : (xs ys : List Entry) → archive_of xs ++ records ys ≡ archive_of (xs ++ ys)
behind_magic xs ys =
    append_assoc nar_magic (records xs) (records ys)
    ∙ ap (λ y. nar_magic ++ y) (records-append xs ys)

-- On an archive of valid members, with inputs that can be read and stored, the command r writes
-- the archive of the old members whose names no input has, in their order, followed by the inputs
-- in theirs.
pub replace_archive_lem :
    (read_file : List ℕ → Option (List ℕ)) (es : List Entry) (inputs : List (List ℕ))
    (new : List Entry)
    → All IsEntry es
    → AreInputs read_file inputs new
    → replace_archive read_file (some (archive_of es)) inputs
      ≡ some (archive_of (others inputs es ++ new))
unfolding replace_archive
replace_archive_lem read_file es inputs new h k =
    ap
      (λ o. o >>= λ members.
        copy_other_members (suc (length members)) inputs members nar_magic >>= λ new'.
        append_inputs read_file inputs new')
      (open_archive_of es)
    ∙ ap (λ o. o >>= λ new'. append_inputs read_file inputs new')
        (copy_other_members_lem (suc (length (records es))) inputs es nar_magic h (enough es))
    ∙ append_inputs_lem read_file inputs new (archive_of (others inputs es)) k
    ∙ ap some (behind_magic (others inputs es) new)

-- On an archive of valid members, with inputs that can be read and stored, the command q writes
-- the archive of the old members followed by the inputs.
pub append_archive_lem :
    (read_file : List ℕ → Option (List ℕ)) (es : List Entry) (inputs : List (List ℕ))
    (new : List Entry)
    → All IsEntry es
    → AreInputs read_file inputs new
    → append_archive read_file (some (archive_of es)) inputs ≡ some (archive_of (es ++ new))
unfolding append_archive
append_archive_lem read_file es inputs new h k =
    ap
      (λ o. o >>= λ members. copy_members (suc (length members)) members nar_magic >>= λ new'.
        append_inputs read_file inputs new')
      (open_archive_of es)
    ∙ ap (λ o. o >>= λ new'. append_inputs read_file inputs new')
        (copy_members_lem (suc (length (records es))) es nar_magic h (enough es))
    ∙ append_inputs_lem read_file inputs new (archive_of es) k
    ∙ ap some (behind_magic es new)

AreInputs-entries :
    (read_file : List ℕ → Option (List ℕ)) (inputs : List (List ℕ)) (new : List Entry)
    → AreInputs read_file inputs new
    → All IsEntry new
AreInputs-entries read_file [] [] h = tt
AreInputs-entries read_file [] (e ∷ es) h = elim h [ ]
AreInputs-entries read_file (input ∷ inputs) [] h = elim h [ ]
AreInputs-entries read_file (input ∷ inputs) (e ∷ es) h =
    (h.0.3, AreInputs-entries read_file inputs es h.1)

AreInputs-valid :
    (read_file : List ℕ → Option (List ℕ)) (inputs : List (List ℕ)) (new : List Entry)
    → AreInputs read_file inputs new
    → All (λ e. member_name_is_valid e.0 ≡ true) new
AreInputs-valid read_file [] [] h = tt
AreInputs-valid read_file [] (e ∷ es) h = elim h [ ]
AreInputs-valid read_file (input ∷ inputs) [] h = elim h [ ]
AreInputs-valid read_file (input ∷ inputs) (e ∷ es) h =
    (h.0.2, AreInputs-valid read_file inputs es h.1)

-- If the inputs can be read and stored, the command r without an old archive writes an archive,
-- and then extracting and listing it end well and give, in their order, the inputs that are asked
-- for and no others, with their base names and their contents: all if no names are given, and
-- else those whose name is the last part of one of the paths given.
pub extract_archive-replace_archive :
    (read_file : List ℕ → Option (List ℕ)) (inputs : List (List ℕ)) (new : List Entry)
    (requested : List (List ℕ))
    → AreInputs read_file inputs new
    → (archive : List ℕ) × (out : List Entry) × (replace_archive read_file none inputs
        ≡ some archive)
      × (extract_archive archive requested ≡ (out, true))
      × (list_archive archive requested ≡ (names_of out, true))
      × AreAsked requested new out
unfolding replace_archive
extract_archive-replace_archive read_file inputs new requested k =
    let (out, extracted, listed, asked) =
      extract_and_list new requested (AreInputs-entries read_file inputs new k)
        (AreInputs-valid read_file inputs new k) in
    (
      archive_of new,
      out,
      append_inputs_lem read_file inputs new nar_magic k,
      extracted,
      listed,
      asked,
    )
