-- ===== src/Linker/Load.antt =====
-- linker/n65ld_input.c, `load_archive`: the members of an archive, from the bytes of its file. The
-- flags of `archive_member_t` and of its object are 0.
pub mod Archived
pub mod Selected
mod Tests
use n.Prelude.{
  map, ℕ, zero, suc, ◌+◌, ◌*◌, ◌^◌, Bool, true, false, List, [], ◌∷◌, length, leb, ltb, take, drop,
  codes, str_eq, if◌then◌else◌,
}
use n.O65.{ObjectFile, Result, ok, err, ◌>>=◌, not_archive, name_too_long, truncated_member, stuck}
use n.O65.Reader.{Reader, rd_u16, rd_bytes, parse_o65_object_from_memory}
use n.Linker.Select.{Candidate, Member, InputRef, InputSet}

-- NAR_MAGIC and its size
unfoldable pub nar_magic : List ℕ
nar_magic = 78 ∷ 65 ∷ 82 ∷ 54 ∷ 53 ∷ 0 ∷ 1 ∷ []

-- MAX_NAME
abbrev pub max_name : ℕ
max_name = 128

-- What the loop sets of an `archive_member_t`: `bytes` is `data` with its `size`.
pub record LoadedMember : Type 0 where
  pub member_name : List ℕ
  pub bytes : List ℕ
  pub obj : ObjectFile

-- The loop of `load_archive`; the lower half of the size is read first.
unfoldable pub load_members : ℕ → Reader → Result (List LoadedMember)
load_members zero r = err stuck
load_members (suc fuel) [] = ok []
load_members (suc fuel) (b ∷ bs) = rd_u16 (b ∷ bs) >>= λ len. rd_u16 len.1 >>= λ low.
    rd_u16 low.1 >>= λ high.
    let member_size = low.0 + high.0 * 2 ^ 16 in
    if leb max_name len.0
    then err name_too_long
    else rd_bytes len.0 high.1 >>= λ name.
        if ltb (length name.1) member_size
        then err truncated_member
        else parse_o65_object_from_memory (take member_size name.1) >>= λ obj.
            load_members fuel (drop member_size name.1) >>= λ rest.
            ok (record { member_name = name.0; bytes = take member_size name.1; obj = obj } ∷ rest)

unfoldable pub load_archive : List ℕ → Result (List LoadedMember)
load_archive file = rd_bytes (length nar_magic) file >>= λ magic.
    if str_eq magic.0 nar_magic
    then load_members (suc (length magic.1)) magic.1
    else err not_archive

-- The members as the selection of objects sees them.
unfoldable pub candidates_of : List LoadedMember → List Member
candidates_of [] = []
candidates_of (m ∷ ms) =
    record { obj = record { file = m.obj; selected = false }; selected = false } ∷ candidates_of ms

unfoldable pub command_line_objects : List ObjectFile → List Candidate
command_line_objects [] = []
command_line_objects (obj ∷ objects) =
    record { file = obj; selected = false } ∷ command_line_objects objects

-- The inputs that `main` has gathered before it calls `select_needed_objects`.
unfoldable pub loaded_inputs : List ObjectFile → List (List LoadedMember) → List InputRef → InputSet
loaded_inputs objects archives order = record {
  objects = [];
  cmd_objects = command_line_objects objects;
  archives = map candidates_of archives;
  order = order;
}
