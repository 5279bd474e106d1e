-- ===== src/Archiver/Records.antt =====
-- An archive of archiver/n65ar.c as a list of members, each a name with its contents, and what the
-- commands do to that list.
use n.Prelude.{
  ℕ, zero, suc, ◌^◌, ◌<◌, ◌≤◌, ◌≡◌, ◌≢◌, sym, ap, ◌∙◌, inl, inr, Option, none, some, List, [], ◌∷◌,
  ◌++◌, length, All, arith, Option-cases, if_true, if◌then◌else◌, length-append, str_eq,
  str_eq_refl,
}
use mathlib.Core.List.{append_assoc}
use n.Archiver.{
  ◌>>=◌, nar_magic, write_u16_le, write_u32_le, skip_n_bytes, open_archive_for_read, member_header,
  at_eof, member, read_member_header, write_member_record, member_name_index,
}
use n.Archiver.Commands.{copy_members, copy_other_members}
use n.Archiver.Format.{
  append_nil, fread-append, copy_n_bytes-append, skip_n_bytes-append,
  read_member_header-member_header,
}

abbrev pub Entry : Type 0
Entry = List ℕ × List ℕ

-- A member that the format can hold, under a name that is a C string.
abbrev pub IsEntry : Entry → Type 0
IsEntry e = (0 < length e.0) × (length e.0 < 2 ^ 16) × All (λ b. b ≢ 0) e.0 × (length e.1 < 2 ^ 32)

abbrev pub records : List Entry → List ℕ
records [] = []
records (e ∷ es) = member_header e.0 (length e.1) ++ (e.1 ++ records es)

abbrev pub archive_of : List Entry → List ℕ
archive_of es = nar_magic ++ records es

-- The members whose names no input has.
abbrev pub others : List (List ℕ) → List Entry → List Entry
others inputs [] = []
others inputs (e ∷ es) = elim (member_name_index e.0 inputs) [
  | none ↦ e ∷ others inputs es
  | some i ↦ others inputs es
]

pub header-eq :
    (e : Entry) (r : List ℕ)
    → IsEntry e
    → read_member_header (member_header e.0 (length e.1) ++ r) ≡ some (member e.0 (length e.1) r)
header-eq e r (pos, short, clean, small) =
    read_member_header-member_header e.0 (length e.1) r pos short clean small

-- A record that is written behind an output.
record-eq :
    (out : List ℕ) (e : Entry) (r : List ℕ)
    → write_member_record out (e.1 ++ r) e.0 (length e.1)
      ≡ some (r, out ++ (member_header e.0 (length e.1) ++ e.1))
unfolding write_member_record
record-eq out e r =
    copy_n_bytes-append e.1 r (out ++ member_header e.0 (length e.1))
    ∙ ap (λ y. some (r, y)) (append_assoc out (member_header e.0 (length e.1)) e.1)

next_record :
    (out : List ℕ) (e : Entry) (es : List Entry)
    → out ++ (member_header e.0 (length e.1) ++ e.1) ++ records es ≡ out ++ records (e ∷ es)
next_record out e es =
    append_assoc out (member_header e.0 (length e.1) ++ e.1) (records es)
    ∙ ap (λ y. out ++ y) (append_assoc (member_header e.0 (length e.1)) e.1 (records es))

pub copy_members_lem :
    (fuel : ℕ) (es : List Entry) (out : List ℕ)
    → All IsEntry es
    → length es < fuel
    → copy_members fuel (records es) out ≡ some (out ++ records es)
unfolding copy_members read_member_header
copy_members_lem zero es out h lt = elim lt [ ]
copy_members_lem (suc fuel) [] out h lt = ap some (sym (append_nil out))
copy_members_lem (suc fuel) (e ∷ es) out h lt =
    ap
      (λ o. o >>= λ header. elim header [
        | at_eof ↦ some out
        | member name size rest ↦
            write_member_record out rest name size >>= λ got. copy_members fuel got.0 got.1
      ])
      (header-eq e (e.1 ++ records es) h.0)
    ∙ ap (λ o. o >>= λ got. copy_members fuel got.0 got.1) (record-eq out e (records es))
    ∙ copy_members_lem fuel es (out ++ (member_header e.0 (length e.1) ++ e.1)) h.1
        (omega (arith, lt))
    ∙ ap some (next_record out e es)

-- The two sides of the test, on the place that `member_name_index` returns.
abbrev choose : ℕ → List (List ℕ) → List ℕ → Entry → List Entry → Option ℕ → Option (List ℕ)
choose fuel inputs out e es place = elim place [
  | some i ↦ skip_n_bytes (e.1 ++ records es) (length e.1) >>= λ rest'.
      copy_other_members fuel inputs rest' out
  | none ↦ write_member_record out (e.1 ++ records es) e.0 (length e.1) >>= λ got.
      copy_other_members fuel inputs got.0 got.1
]

abbrev kept : List (List ℕ) → Entry → List Entry → Option ℕ → List Entry
kept inputs e es place = elim place [ none ↦ e ∷ others inputs es | some i ↦ others inputs es ]

pub copy_other_members_lem :
    (fuel : ℕ) (inputs : List (List ℕ)) (es : List Entry) (out : List ℕ)
    → All IsEntry es
    → length es < fuel
    → copy_other_members fuel inputs (records es) out ≡ some (out ++ records (others inputs es))
unfolding copy_other_members read_member_header
copy_other_members_lem zero inputs es out h lt = elim lt [ ]
copy_other_members_lem (suc fuel) inputs [] out h lt = ap some (sym (append_nil out))
copy_other_members_lem (suc fuel) inputs (e ∷ es) out h lt =
    let header =
      ap
        (λ o. o >>= λ header. elim header [
          | at_eof ↦ some out
          | member name size rest ↦ elim (member_name_index name inputs) [
            | some i ↦ skip_n_bytes rest size >>= λ rest'. copy_other_members fuel inputs rest' out
            | none ↦ write_member_record out rest name size >>= λ got.
                copy_other_members fuel inputs got.0 got.1
          ]
        ])
        (header-eq e (e.1 ++ records es) h.0) in
    elim (Option-cases (member_name_index e.0 inputs)) [
      | inl n ↦
          header
          ∙ ap (choose fuel inputs out e es) n
          ∙ ap (λ o. o >>= λ got. copy_other_members fuel inputs got.0 got.1)
              (record-eq out e (records es))
          ∙ copy_other_members_lem fuel inputs es (out ++ (member_header e.0 (length e.1) ++ e.1))
              h.1 (omega (arith, lt))
          ∙ ap some (next_record out e (others inputs es))
          ∙ ap (λ o. some (out ++ records (kept inputs e es o))) (sym n)
      | inr q ↦
          header
          ∙ ap (choose fuel inputs out e es) q.1
          ∙ ap (λ o. o >>= λ rest'. copy_other_members fuel inputs rest' out)
              (skip_n_bytes-append e.1 (records es))
          ∙ copy_other_members_lem fuel inputs es out h.1 (omega (arith, lt))
          ∙ ap (λ o. some (out ++ records (kept inputs e es o))) (sym q.1)
    ]

pub open_archive_of : (es : List Entry) → open_archive_for_read (archive_of es) ≡ some (records es)
unfolding open_archive_for_read
open_archive_of es =
    ap (λ o. o >>= λ got. if str_eq got.0 nar_magic then some got.1 else none)
      (fread-append nar_magic (records es))
    ∙ if_true (str_eq nar_magic nar_magic) (some (records es)) none (str_eq_refl nar_magic)

length-records : (es : List Entry) → length es ≤ length (records es)
unfolding member_header write_u16_le
length-records [] = omega arith
length-records (e ∷ es) =
    let l = length-append (write_u32_le (length e.1) ++ e.0) (e.1 ++ records es) in
    let k = length-append e.1 (records es) in omega (arith, length-records es, l, k)

-- The fuel that the commands give is enough.
pub enough : (es : List Entry) → length es < suc (length (records es))
enough es = omega (arith, length-records es)
