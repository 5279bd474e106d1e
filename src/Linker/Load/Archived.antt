-- ===== src/Linker/Load/Archived.antt =====
-- archiver/n65ar.c and `load_archive` of linker/n65ld_input.c together.
use n.Prelude.{
  ℕ, zero, suc, ◌+◌, ◌*◌, ◌/◌, ◌%◌, ◌^◌, ◌<◌, ◌≡◌, refl, ap, ◌∙◌, true, Option, none, some, List,
  [], ◌∷◌, ◌++◌, length, All, arith, if_true, if_false, ltb, leb, take, drop, take-append_length,
  drop-append_length, length-append, str_eq, str_eq_refl, if◌then◌else◌,
}
use n.O65.{
  ObjectFile, Result, ok, err, ◌>>=◌, not_archive, name_too_long, truncated_member, unexpected_eof,
}
use n.O65.Reader.{rd_u8, rd_u16, rd_bytes, parse_o65_object_from_memory}
use n.Archiver.{nar_magic as ar_magic, write_u16_le, write_u32_le, member_header}
use n.Archiver.Commands.{replace_archive}
use n.Archiver.Records.{Entry, IsEntry, records, archive_of, enough}
use n.Archiver.Update.{AreInputs, append_inputs_lem}
use n.Linker.Load.{nar_magic, max_name, LoadedMember, load_members, load_archive}

-- A member with a name that the linker accepts, whose contents it reads as the object.
abbrev pub IsLoadable : LoadedMember → Type 0
IsLoadable m =
    IsEntry (m.member_name, m.bytes)
    × (length m.member_name < max_name)
    × (parse_o65_object_from_memory m.bytes ≡ ok m.obj)

abbrev pub entries_of : List LoadedMember → List Entry
entries_of [] = []
entries_of (m ∷ ms) = (m.member_name, m.bytes) ∷ entries_of ms

rd_bytes-append : (p r : List ℕ) → rd_bytes (length p) (p ++ r) ≡ ok (p, r)
unfolding rd_bytes
rd_bytes-append p r =
    let long : leb (length p) (length (p ++ r)) ≡ true =
      (let l = length-append p r in ground (arith, l)) in
    if_true (leb (length p) (length (p ++ r)))
      (ok (take (length p) (p ++ r), drop (length p) (p ++ r))) (err unexpected_eof) long
    ∙ rw (take-append_length p r, drop-append_length p r) refl

-- The stages of a round, each on what the stage before it computes.
module _ (fuel : ℕ) where
  abbrev with_rest :
      List ℕ → List ℕ → ObjectFile → Result (List LoadedMember) → Result (List LoadedMember)
  with_rest name bytes obj loaded =
      loaded >>= λ rest. ok (record { member_name = name; bytes = bytes; obj = obj } ∷ rest)

  abbrev with_object : List ℕ → List ℕ → List ℕ → Result ObjectFile → Result (List LoadedMember)
  with_object name bytes after parsed =
      parsed >>= λ obj. with_rest name bytes obj (load_members fuel after)

  abbrev with_name : ℕ → List ℕ × List ℕ → Result (List LoadedMember)
  with_name size name =
      if ltb (length name.1) size
      then err truncated_member
      else with_object name.0 (take size name.1) (drop size name.1)
          (parse_o65_object_from_memory (take size name.1))

  abbrev with_size : ℕ → ℕ → List ℕ → Result (List LoadedMember)
  with_size len size r =
      if leb max_name len then err name_too_long else rd_bytes len r >>= with_name size

fields-eq :
    (fuel : ℕ) (name : List ℕ) (size : ℕ) (r : List ℕ)
    → length name < 2 ^ 16
    → size < 2 ^ 32
    → load_members (suc fuel) (member_header name size ++ r)
      ≡ with_size fuel (length name) size (name ++ r)
unfolding load_members member_header write_u16_le write_u32_le rd_u16 rd_u8
fields-eq fuel name size r short small =
    let len : length name % 2 ^ 16 % 256 + length name % 2 ^ 16 / 256 % 256 * 256 ≡ length name =
      omega (arith, short) in
    let total : size % 256
          + size / 2 ^ 8 % 256 * 256
          + (size / 2 ^ 16 % 256 + size / 2 ^ 24 % 256 * 256) * 2 ^ 16
        ≡ size =
      omega (arith, small) in
    ap
      (λ k.
        with_size fuel k
          (size % 256
            + size / 2 ^ 8 % 256 * 256
            + (size / 2 ^ 16 % 256 + size / 2 ^ 24 % 256 * 256) * 2 ^ 16)
          (name ++ r))
      len
    ∙ ap (λ k. with_size fuel (length name) k (name ++ r)) total

member-eq :
    (fuel : ℕ) (m : LoadedMember) (r : List ℕ)
    → IsLoadable m
    → with_size fuel (length m.member_name) (length m.bytes) (m.member_name ++ (m.bytes ++ r))
      ≡ with_rest fuel m.member_name m.bytes m.obj (load_members fuel r)
member-eq fuel m r (entry, short, parsed) =
    let named = rd_bytes-append m.member_name (m.bytes ++ r) in
    let l = length-append m.bytes r in
    if_false (leb max_name (length m.member_name)) (err name_too_long)
      (rd_bytes (length m.member_name) (m.member_name ++ (m.bytes ++ r))
        >>= with_name fuel (length m.bytes))
      (ground (arith, short))
    ∙ ap (λ o. o >>= with_name fuel (length m.bytes)) named
    ∙ if_false (ltb (length (m.bytes ++ r)) (length m.bytes)) (err truncated_member)
        (with_object fuel m.member_name (take (length m.bytes) (m.bytes ++ r))
          (drop (length m.bytes) (m.bytes ++ r))
          (parse_o65_object_from_memory (take (length m.bytes) (m.bytes ++ r))))
        (ground (arith, l))
    ∙ ap
        (λ p.
          with_object fuel m.member_name p (drop (length m.bytes) (m.bytes ++ r))
            (parse_o65_object_from_memory p))
        (take-append_length m.bytes r)
    ∙ ap (λ d. with_object fuel m.member_name m.bytes d (parse_o65_object_from_memory m.bytes))
        (drop-append_length m.bytes r)
    ∙ ap (with_object fuel m.member_name m.bytes r) parsed

load_members_lem :
    (fuel : ℕ) (ms : List LoadedMember)
    → All IsLoadable ms
    → length (entries_of ms) < fuel
    → load_members fuel (records (entries_of ms)) ≡ ok ms
unfolding load_members
load_members_lem zero ms h lt = elim lt [ ]
load_members_lem (suc fuel) [] h lt = refl
load_members_lem (suc fuel) (m ∷ ms) h lt =
    fields-eq fuel m.member_name (length m.bytes) (m.bytes ++ records (entries_of ms)) h.0.0.1
      h.0.0.3
    ∙ member-eq fuel m (records (entries_of ms)) h.0
    ∙ ap (with_rest fuel m.member_name m.bytes m.obj)
        (load_members_lem fuel ms h.1 (omega (arith, lt)))

same_magic : ar_magic ≡ nar_magic
unfolding ar_magic nar_magic
same_magic = refl

-- The linker loads the members of an archive in their order, with their names and objects.
pub load_archive-archive_of :
    (ms : List LoadedMember) → All IsLoadable ms → load_archive (archive_of (entries_of ms)) ≡ ok ms
unfolding load_archive
load_archive-archive_of ms h =
    let rs = records (entries_of ms) in
    ap (λ magic. load_archive (magic ++ records (entries_of ms))) same_magic
    ∙ ap
        (λ o. o >>= λ magic.
          if str_eq magic.0 nar_magic
          then load_members (suc (length magic.1)) magic.1
          else err not_archive)
        (rd_bytes-append nar_magic (records (entries_of ms)))
    ∙ if_true (str_eq nar_magic nar_magic) (load_members (suc (length rs)) rs) (err not_archive)
        (str_eq_refl nar_magic)
    ∙ load_members_lem (suc (length rs)) ms h (enough (entries_of ms))

-- If the inputs can be stored, their names are shorter than MAX_NAME and their contents are
-- object files that the linker can read, then the archiver's command r makes a new archive of
-- them, and the linker loads from it the same members in their order, with their names, bytes and
-- objects.
pub load_archive-replace_archive :
    (read_file : List ℕ → Option (List ℕ)) (inputs : List (List ℕ)) (ms : List LoadedMember)
    → AreInputs read_file inputs (entries_of ms)
    → All IsLoadable ms
    → (archive : List ℕ) × (replace_archive read_file none inputs ≡ some archive)
      × (load_archive archive ≡ ok ms)
unfolding replace_archive
load_archive-replace_archive read_file inputs ms k h = (
  archive_of (entries_of ms),
  append_inputs_lem read_file inputs (entries_of ms) ar_magic k,
  load_archive-archive_of ms h,
)
