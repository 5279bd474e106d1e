-- ===== src/Assembler/Opcode.antt =====
-- assembler/opcode.c: the table of opcodes and what the code knows of the 6502. The table is a list
-- with the newest entry first; mnemonics are C strings.
pub mod Table
use n.Prelude.{
  ℕ, ◌+◌, ◌-◌, ◌*◌, Bool, true, false, not, ◌&&◌, ◌||◌, Option, none, some, List, [], ◌∷◌, codes,
  str_eq, ltb, leb, ◌==◌, if◌then◌else◌,
}

-- `emit_mode_t`
pub data EmitMode : Type 0 where
  implied accumulator immediate zp zpx zpy abs absx absy ind indx indy rel rel_long : EmitMode

-- The number of a mode in the enumeration, to compare two of them.
unfoldable pub mode_number : EmitMode → ℕ
mode_number implied = 0
mode_number accumulator = 1
mode_number immediate = 2
mode_number zp = 3
mode_number zpx = 4
mode_number zpy = 5
mode_number abs = 6
mode_number absx = 7
mode_number absy = 8
mode_number ind = 9
mode_number indx = 10
mode_number indy = 11
mode_number rel = 12
mode_number rel_long = 13

pub record OpcodeEntry : Type 0 where
  pub mnemonic : List ℕ
  pub mode : EmitMode
  pub opcode : ℕ

unfoldable pub same_key : OpcodeEntry → List ℕ → EmitMode → Bool
unfolding mode_number
same_key e mnemonic mode = mode_number e.mode == mode_number mode && str_eq e.mnemonic mnemonic

unfoldable pub find_entry : List OpcodeEntry → List ℕ → EmitMode → Option OpcodeEntry
find_entry [] mnemonic mode = none
find_entry (e ∷ opcodes) mnemonic mode =
    if same_key e mnemonic mode then some e else find_entry opcodes mnemonic mode

-- `e->opcode = opcode` for the entry that `find_entry` has found.
unfoldable pub replace_opcode : List OpcodeEntry → List ℕ → EmitMode → ℕ → List OpcodeEntry
replace_opcode [] mnemonic mode opcode = []
replace_opcode (e ∷ opcodes) mnemonic mode opcode =
    let rest = e ∷ replace_opcode opcodes mnemonic mode opcode in
    if same_key e mnemonic mode then record e { opcode = opcode } ∷ opcodes else rest

unfoldable pub opcode_add_mapping : List OpcodeEntry → List ℕ → EmitMode → ℕ → List OpcodeEntry
opcode_add_mapping opcodes mnemonic mode opcode = elim (find_entry opcodes mnemonic mode) [
  | some e ↦ replace_opcode opcodes mnemonic mode opcode
  | none ↦ record { mnemonic = mnemonic; mode = mode; opcode = opcode } ∷ opcodes
]

unfoldable pub hex_nibble : ℕ → Option ℕ
hex_nibble ch =
    if leb b'0' ch && leb ch b'9'
    then some (ch - b'0')
    else if leb b'A' ch && leb ch b'F'
    then some (10 + (ch - b'A'))
    else if leb b'a' ch && leb ch b'f'
    then some (10 + (ch - b'a'))
    else none

unfoldable pub join_nibbles : Option ℕ → Option ℕ → Option ℕ
join_nibbles (some h) (some l) = some (h * 16 + l)
join_nibbles (some h) none = none
join_nibbles none l = none

-- OPxx names the opcode by its two digits.
unfoldable pub opcode_parse_raw_byte : List ℕ → Option ℕ
unfolding hex_nibble join_nibbles
opcode_parse_raw_byte (o ∷ p ∷ h ∷ l ∷ []) =
    if (o == b'O' || o == b'o') && (p == b'P' || p == b'p')
    then join_nibbles (hex_nibble h) (hex_nibble l)
    else none
opcode_parse_raw_byte mnemonic = none

unfoldable pub opcode_raw_is_conditional_branch : ℕ → Bool
opcode_raw_is_conditional_branch opcode =
    opcode == 0x10
    || opcode == 0x30
    || opcode == 0x50
    || opcode == 0x70
    || opcode == 0x90
    || opcode == 0xb0
    || opcode == 0xd0
    || opcode == 0xf0

unfoldable pub opcode_raw_is_accumulator_shorthand : ℕ → Bool
opcode_raw_is_accumulator_shorthand opcode =
    opcode == 0x0a || opcode == 0x2a || opcode == 0x4a || opcode == 0x6a

unfoldable pub entry_opcode : Option OpcodeEntry → Option ℕ
entry_opcode none = none
entry_opcode (some e) = some e.opcode

unfoldable pub opcode_lookup : List OpcodeEntry → List ℕ → EmitMode → Option ℕ
unfolding mode_number
opcode_lookup opcodes mnemonic mode = elim (opcode_parse_raw_byte mnemonic) [
  | some byte ↦
      if mode_number mode == 13 then entry_opcode (find_entry opcodes mnemonic mode) else some byte
  | none ↦ entry_opcode (find_entry opcodes mnemonic mode)
]

unfoldable pub opcode_has_mode : List OpcodeEntry → List ℕ → EmitMode → Bool
opcode_has_mode opcodes mnemonic mode = elim (find_entry opcodes mnemonic mode) [
  | some e ↦ true
  | none ↦ false
]

unfoldable pub has_mnemonic : List OpcodeEntry → List ℕ → Bool
has_mnemonic [] mnemonic = false
has_mnemonic (e ∷ opcodes) mnemonic = str_eq e.mnemonic mnemonic || has_mnemonic opcodes mnemonic

unfoldable pub opcode_mnemonic_known : List OpcodeEntry → List ℕ → Bool
opcode_mnemonic_known opcodes mnemonic = elim (opcode_parse_raw_byte mnemonic) [
  | some byte ↦ true
  | none ↦ has_mnemonic opcodes mnemonic
]

unfoldable pub opcode_is_conditional_branch : List ℕ → Bool
opcode_is_conditional_branch m =
    str_eq m (codes "BCC")
    || str_eq m (codes "BCS")
    || str_eq m (codes "BEQ")
    || str_eq m (codes "BMI")
    || str_eq m (codes "BNE")
    || str_eq m (codes "BPL")
    || str_eq m (codes "BVC")
    || str_eq m (codes "BVS")

unfoldable pub opcode_invert_branch : List ℕ → Option ℕ
opcode_invert_branch m =
    if str_eq m (codes "BCC")
    then some 0xb0
    else if str_eq m (codes "BCS")
    then some 0x90
    else if str_eq m (codes "BEQ")
    then some 0xd0
    else if str_eq m (codes "BMI")
    then some 0x10
    else if str_eq m (codes "BNE")
    then some 0xf0
    else if str_eq m (codes "BPL")
    then some 0x30
    else if str_eq m (codes "BVC")
    then some 0x70
    else if str_eq m (codes "BVS")
    then some 0x50
    else none

unfoldable pub emit_mode_size : EmitMode → ℕ
emit_mode_size implied = 1
emit_mode_size accumulator = 1
emit_mode_size immediate = 2
emit_mode_size zp = 2
emit_mode_size zpx = 2
emit_mode_size zpy = 2
emit_mode_size indx = 2
emit_mode_size indy = 2
emit_mode_size rel = 2
emit_mode_size rel_long = 5
emit_mode_size abs = 3
emit_mode_size absx = 3
emit_mode_size absy = 3
emit_mode_size ind = 3
