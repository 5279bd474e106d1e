-- ===== src/Archiver.antt =====
-- archiver/n65ar.c: the archive format and the commands. A file is the list of its bytes. What
-- `fopen` finds is a parameter: the contents of a file by its name, `none` where it cannot be opened.
-- An operation that fails with a message is `none`. Failures of writing, and the messages, are not
-- modelled.
pub mod Format
pub mod Records
pub mod Requests
pub mod Extract
pub mod Update
pub mod Modes
pub mod Commands
mod Tests
use n.Prelude.{
  ℕ, zero, suc, ◌+◌, ◌-◌, ◌*◌, ◌/◌, ◌%◌, ◌^◌, Bool, true, false, not, ◌&&◌, ◌||◌, Option, none,
  some, List, [], ◌∷◌, ◌++◌, str_eq, codes, if◌then◌else◌, length, ltb, leb, ◌==◌, take, drop,
}

infixl 5 ◌>>=◌
abbrev pub ◌>>=◌ {ℓ κ} : {A : Type ℓ} {B : Type κ} → Option A → (A → Option B) → Option B
none >>= f = none
some a >>= f = f a

-- NAR_MAGIC
unfoldable pub nar_magic : List ℕ
nar_magic = 78 ∷ 65 ∷ 82 ∷ 54 ∷ 53 ∷ 0 ∷ 1 ∷ []

-- The place of the last `c`.
unfoldable pub strrchr : ℕ → List ℕ → Option ℕ
strrchr c [] = none
strrchr c (b ∷ s) = elim (strrchr c s) [
  | some i ↦ some (suc i)
  | none ↦ if b == c then some 0 else none
]

unfoldable pub base_from : ℕ → Option ℕ → ℕ
base_from base none = base
base_from base (some i) = if ltb base (i + 1) then i + 1 else base

-- Behind the last slash or backslash.
unfoldable pub base_name : List ℕ → List ℕ
base_name path = drop (base_from (base_from 0 (strrchr 47 path)) (strrchr 92 path)) path

unfoldable pub write_u16_le : ℕ → List ℕ
write_u16_le value = value % 256 ∷ value / 256 % 256 ∷ []

unfoldable pub write_u32_le : ℕ → List ℕ
write_u32_le value =
    value % 256 ∷ value / 2 ^ 8 % 256 ∷ value / 2 ^ 16 % 256 ∷ value / 2 ^ 24 % 256 ∷ []

-- The bytes that `|` joins do not overlap, here and below.
unfoldable pub read_u16_le : List ℕ → Option (ℕ × List ℕ)
read_u16_le (a ∷ b ∷ fp) = some (a + b * 2 ^ 8, fp)
read_u16_le (a ∷ []) = none
read_u16_le [] = none

unfoldable pub read_u32_le : List ℕ → Option (ℕ × List ℕ)
read_u32_le (a ∷ b ∷ c ∷ d ∷ fp) = some (a + b * 2 ^ 8 + c * 2 ^ 16 + d * 2 ^ 24, fp)
read_u32_le (a ∷ b ∷ c ∷ []) = none
read_u32_le (a ∷ b ∷ []) = none
read_u32_le (a ∷ []) = none
read_u32_le [] = none

-- `fread` of exactly `size` bytes.
unfoldable pub fread : ℕ → List ℕ → Option (List ℕ × List ℕ)
fread size fp = if leb size (length fp) then some (take size fp, drop size fp) else none

abbrev pub copy_buffer_size : ℕ
copy_buffer_size = 65536

-- The loop of `copy_n_bytes`, in chunks: what is left of the input, and the output.
unfoldable pub copy_loop : ℕ → ℕ → List ℕ → List ℕ → Option (List ℕ × List ℕ)
copy_loop zero remaining fp out = none
copy_loop (suc fuel) remaining fp out =
    let chunk = if ltb copy_buffer_size remaining then copy_buffer_size else remaining in
    let more = fread chunk fp >>= λ got. copy_loop fuel (remaining - chunk) got.1 (out ++ got.0) in
    if ltb 0 remaining then more else some (fp, out)

unfoldable pub copy_n_bytes : List ℕ → List ℕ → ℕ → Option (List ℕ × List ℕ)
copy_n_bytes fp out size = copy_loop (suc size) size fp out

-- The loop of `skip_n_bytes` reads the same chunks.
unfoldable pub skip_n_bytes : List ℕ → ℕ → Option (List ℕ)
skip_n_bytes fp size = copy_n_bytes fp [] size >>= λ got. some got.0

-- `open_archive_for_read`: what stands behind the magic.
unfoldable pub open_archive_for_read : List ℕ → Option (List ℕ)
open_archive_for_read archive =
    fread (length nar_magic) archive >>= λ got. if str_eq got.0 nar_magic then some got.1 else none

-- `strchr(s, c) != NULL`
unfoldable pub has_byte : ℕ → List ℕ → Bool
has_byte c [] = false
has_byte c (b ∷ s) = b == c || has_byte c s

unfoldable pub member_name_is_valid : List ℕ → Bool
member_name_is_valid [] = false
member_name_is_valid (b ∷ name) = not (has_byte 47 (b ∷ name)) && not (has_byte 92 (b ∷ name))

-- The C string in a buffer: the bytes up to the first NUL.
unfoldable pub c_string : List ℕ → List ℕ
c_string [] = []
c_string (b ∷ s) = if b == 0 then [] else b ∷ c_string s

-- A member's header and name, as both writers of members put it.
unfoldable pub member_header : List ℕ → ℕ → List ℕ
member_header name size = write_u16_le (length name % 2 ^ 16) ++ write_u32_le size ++ name

-- `read_file` is `fopen` and what it finds; `INT` limits of `ftell` are not modelled.
unfoldable pub append_member_from_file :
    (List ℕ → Option (List ℕ)) → List ℕ → List ℕ → Option (List ℕ)
append_member_from_file read_file archive input_name =
    let stored_name = base_name input_name in
    if (length stored_name == 0)
      || ltb 65535 (length stored_name)
      || not (member_name_is_valid stored_name)
    then none
    else read_file input_name >>= λ input.
        if ltb (2 ^ 32 - 1) (length input)
        then none
        else copy_n_bytes input (archive ++ member_header stored_name (length input)) (length input)
          >>= λ got. some got.1

-- What `read_member_header` finds.
pub data MemberHeader : Type 0 where
  at_eof : MemberHeader
  member : List ℕ → ℕ → List ℕ → MemberHeader

-- The name is the C string of the bytes read; behind it, the size and the rest of the archive.
unfoldable pub read_member_header : List ℕ → Option MemberHeader
read_member_header [] = some at_eof
read_member_header (b ∷ archive) = read_u16_le (b ∷ archive) >>= λ len.
    read_u32_le len.1 >>= λ size.
    if len.0 == 0
    then none
    else fread len.0 size.1 >>= λ name. some (member (c_string name.0) size.0 name.1)

-- The new archive and what is left of the old one.
unfoldable pub write_member_record : List ℕ → List ℕ → List ℕ → ℕ → Option (List ℕ × List ℕ)
write_member_record out archive member_name size =
    copy_n_bytes archive (out ++ member_header member_name size) size

-- The place of the first input of that name; `none` is -1.
unfoldable pub member_name_index : List ℕ → List (List ℕ) → Option ℕ
member_name_index member_name [] = none
member_name_index member_name (name ∷ names) =
    if str_eq member_name (base_name name)
    then some 0
    else elim (member_name_index member_name names) [ none ↦ none | some i ↦ some (suc i) ]
