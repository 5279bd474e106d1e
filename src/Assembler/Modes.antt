-- ===== src/Assembler/Modes.antt =====
-- assembler/asm_pass.c: which form an instruction is emitted in.
use n.Prelude.{
  ℕ, Bool, true, false, ◌&&◌, ◌||◌, Option, none, some, List, [], codes, str_eq, if◌then◌else◌,
}
use n.Prelude.Int.{ℤ, pos, negsuc, leb_ℤ}
use n.Assembler.Expr.{Expr}
use n.Assembler.Opcode.{
  EmitMode, implied, accumulator, immediate, zp, zpx, zpy, abs, absx, absy, ind, indx, indy, rel,
  rel_long, OpcodeEntry, opcode_lookup, opcode_parse_raw_byte, opcode_raw_is_conditional_branch,
  opcode_raw_is_accumulator_shorthand, opcode_is_conditional_branch,
}

-- `addr_mode_t`
pub data AddrMode : Type 0 where
  am_none am_implied am_accumulator am_immediate am_zp_or_abs am_zpx_or_absx am_zpy_or_absy
        am_indirect am_indexed_indirect am_indirect_indexed am_relative :
      AddrMode

-- `mode_spec_t`
pub data ModeSpec : Type 0 where
  spec_none spec_z spec_zx spec_zy spec_a spec_ax spec_ay spec_i spec_ix spec_iy : ModeSpec

-- `insn_info_t`; an expression that is NULL is `none`.
pub record Insn : Type 0 where
  pub opcode : List ℕ
  pub spec : ModeSpec
  pub mode : AddrMode
  pub expr : Option Expr
  pub has_operand : Bool
  pub final_mode : EmitMode
  pub size : ℕ

unfoldable pub is_branch_opcode : List ℕ → Bool
is_branch_opcode m =
    str_eq m (codes "BCC")
    || str_eq m (codes "BCS")
    || str_eq m (codes "BEQ")
    || str_eq m (codes "BMI")
    || str_eq m (codes "BNE")
    || str_eq m (codes "BPL")
    || str_eq m (codes "BVC")
    || str_eq m (codes "BVS")

unfoldable pub is_accum_shorthand_opcode : List ℕ → Bool
is_accum_shorthand_opcode m =
    str_eq m (codes "ASL")
    || str_eq m (codes "LSR")
    || str_eq m (codes "ROL")
    || str_eq m (codes "ROR")

unfoldable pub raw_test : (ℕ → Bool) → Option ℕ → Bool
raw_test test none = false
raw_test test (some raw) = test raw

unfoldable pub normalize_mode : List ℕ → AddrMode → AddrMode
normalize_mode opcode am_zp_or_abs =
    if is_branch_opcode opcode
      || raw_test opcode_raw_is_conditional_branch (opcode_parse_raw_byte opcode)
    then am_relative
    else am_zp_or_abs
normalize_mode opcode am_implied =
    if is_accum_shorthand_opcode opcode
      || raw_test opcode_raw_is_accumulator_shorthand (opcode_parse_raw_byte opcode)
    then am_accumulator
    else am_implied
normalize_mode opcode mode = mode

unfoldable pub spec_to_emit_mode : ModeSpec → Option EmitMode
spec_to_emit_mode spec_z = some zp
spec_to_emit_mode spec_zx = some zpx
spec_to_emit_mode spec_zy = some zpy
spec_to_emit_mode spec_a = some abs
spec_to_emit_mode spec_ax = some absx
spec_to_emit_mode spec_ay = some absy
spec_to_emit_mode spec_i = some ind
spec_to_emit_mode spec_ix = some indx
spec_to_emit_mode spec_iy = some indy
spec_to_emit_mode spec_none = none

unfoldable pub is_zp_or_abs : AddrMode → Bool
is_zp_or_abs am_zp_or_abs = true
is_zp_or_abs mode = false

unfoldable pub is_zpx_or_absx : AddrMode → Bool
is_zpx_or_absx am_zpx_or_absx = true
is_zpx_or_absx mode = false

unfoldable pub is_zpy_or_absy : AddrMode → Bool
is_zpy_or_absy am_zpy_or_absy = true
is_zpy_or_absy mode = false

unfoldable pub is_indirect : AddrMode → Bool
is_indirect am_zp_or_abs = true
is_indirect am_indirect = true
is_indirect mode = false

unfoldable pub is_indexed_indirect : AddrMode → Bool
is_indexed_indirect am_zp_or_abs = true
is_indexed_indirect am_indexed_indirect = true
is_indexed_indirect mode = false

unfoldable pub is_indirect_indexed : AddrMode → Bool
is_indirect_indexed am_zp_or_abs = true
is_indirect_indexed am_indirect_indexed = true
is_indirect_indexed mode = false

-- The parsed mode is normalised first, for an opcode with an empty name.
unfoldable pub accepts_spec : AddrMode → ModeSpec → Bool
unfolding is_zp_or_abs is_zpx_or_absx is_zpy_or_absy is_indirect is_indexed_indirect
    is_indirect_indexed
accepts_spec mode spec_z = is_zp_or_abs mode
accepts_spec mode spec_a = is_zp_or_abs mode
accepts_spec mode spec_zx = is_zpx_or_absx mode
accepts_spec mode spec_ax = is_zpx_or_absx mode
accepts_spec mode spec_zy = is_zpy_or_absy mode
accepts_spec mode spec_ay = is_zpy_or_absy mode
accepts_spec mode spec_i = is_indirect mode
accepts_spec mode spec_ix = is_indexed_indirect mode
accepts_spec mode spec_iy = is_indirect_indexed mode
accepts_spec mode spec_none = true

unfoldable pub parsed_mode_accepts_spec : AddrMode → ModeSpec → Bool
parsed_mode_accepts_spec mode spec = accepts_spec (normalize_mode [] mode) spec

unfoldable pub expr_is_u8_value : ℤ → Bool
expr_is_u8_value v = leb_ℤ (pos 0) v && leb_ℤ v (pos 0xff)

unfoldable pub expr_is_s8_or_u8_value : ℤ → Bool
expr_is_s8_or_u8_value v = leb_ℤ (negsuc 127) v && leb_ℤ v (pos 0xff)

unfoldable pub is_rel : EmitMode → Bool
is_rel rel = true
is_rel mode = false

unfoldable pub insn_is_long_branch_candidate : Insn → EmitMode → Bool
insn_is_long_branch_candidate insn mode = is_rel mode && opcode_is_conditional_branch insn.opcode

-- `opcode_lookup` of a first and then of a second mode.
unfoldable pub first_known : List OpcodeEntry → List ℕ → EmitMode → EmitMode → Option EmitMode
first_known opcodes opcode a b = elim (opcode_lookup opcodes opcode a) [
  | some byte ↦ some a
  | none ↦ elim (opcode_lookup opcodes opcode b) [ some byte ↦ some b | none ↦ none ]
]

-- The operand shapes that do not say if the address has one byte; raw opcodes need a suffix.
unfoldable pub ambiguous_mode : List OpcodeEntry → List ℕ → EmitMode → EmitMode → Option EmitMode
ambiguous_mode opcodes opcode wide narrow = elim (opcode_parse_raw_byte opcode) [
  | some raw ↦ none
  | none ↦ first_known opcodes opcode wide narrow
]

unfoldable pub choose_by_shape : List OpcodeEntry → Insn → AddrMode → Option EmitMode
choose_by_shape opcodes insn am_implied = some implied
choose_by_shape opcodes insn am_accumulator = some accumulator
choose_by_shape opcodes insn am_immediate = some immediate
choose_by_shape opcodes insn am_indexed_indirect = some indx
choose_by_shape opcodes insn am_indirect_indexed = some indy
choose_by_shape opcodes insn am_indirect = some ind
choose_by_shape opcodes insn am_relative =
    if insn_is_long_branch_candidate insn rel then some rel_long else some rel
choose_by_shape opcodes insn am_zp_or_abs = ambiguous_mode opcodes insn.opcode abs zp
choose_by_shape opcodes insn am_zpx_or_absx = ambiguous_mode opcodes insn.opcode absx zpx
choose_by_shape opcodes insn am_zpy_or_absy = ambiguous_mode opcodes insn.opcode absy zpy
choose_by_shape opcodes insn am_none = none

unfoldable pub choose_by_spec : AddrMode → ModeSpec → Option EmitMode
choose_by_spec mode spec =
    if parsed_mode_accepts_spec mode spec then spec_to_emit_mode spec else none

-- `none` is an error, whose message is left out.
unfoldable pub choose_initial_emit_mode : List OpcodeEntry → Insn → Option EmitMode
choose_initial_emit_mode opcodes insn =
    let mode = normalize_mode insn.opcode insn.mode in
    elim insn.spec [
      | spec_none ↦ choose_by_shape opcodes insn mode
      | spec ↦ choose_by_spec mode spec
    ]

unfoldable pub is_spec_none : ModeSpec → Bool
is_spec_none spec_none = true
is_spec_none spec = false

-- The mode with an address of one byte, if the mnemonic has it.
unfoldable pub known_mode : List OpcodeEntry → List ℕ → EmitMode → Option EmitMode
known_mode opcodes opcode m = elim (opcode_lookup opcodes opcode m) [
  | some byte ↦ some m
  | none ↦ none
]

unfoldable pub narrow_mode : List OpcodeEntry → List ℕ → EmitMode → Option EmitMode
unfolding known_mode
narrow_mode opcodes opcode abs = known_mode opcodes opcode zp
narrow_mode opcodes opcode absx = known_mode opcodes opcode zpx
narrow_mode opcodes opcode absy = known_mode opcodes opcode zpy
narrow_mode opcodes opcode mode = none

unfoldable pub can_relax_to_zp_family : List OpcodeEntry → Insn → EmitMode → Option EmitMode
unfolding is_spec_none
can_relax_to_zp_family opcodes insn current =
    if is_spec_none insn.spec then narrow_mode opcodes insn.opcode current else none
