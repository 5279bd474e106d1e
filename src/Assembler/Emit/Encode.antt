-- ===== src/Assembler/Emit/Encode.antt =====
-- The bytes of an instruction, apart from the image that they are written to.
pub mod Correct
use n.Prelude.{
  ℕ, ◌+◌, Bool, true, false, Option, none, some, List, [], ◌∷◌, ◌++◌, codes, if◌then◌else◌,
}
use n.Prelude.Int.{ℤ, pos, ◌-ℤ◌, low_byte, shr8}
use n.Assembler.Expr.{Expr, Eval, ok, unresolved, divzero, overflow, expr_eval}
use n.Assembler.Opcode.{
  EmitMode, implied, accumulator, immediate, zp, zpx, zpy, abs, absx, absy, ind, indx, indy, rel,
  rel_long, OpcodeEntry, opcode_lookup, opcode_invert_branch,
}
use n.Assembler.Modes.{Insn, expr_is_u8_value, expr_is_s8_or_u8_value}
use n.Assembler.Emit.{Env, in_branch_range, opcode_size, has_no_operand}
use n.Assembler.Emit.Writes.{join}

unfoldable pub byte_if : Bool → ℕ → Option (List ℕ)
byte_if true b = some (b ∷ [])
byte_if false b = none

-- A word, the low byte first.
unfoldable pub word_of : ℤ → List ℕ
word_of v = low_byte v ∷ low_byte (shr8 v) ∷ []

unfoldable pub found_byte : Option ℕ → Option (List ℕ)
found_byte none = none
found_byte (some byte) = some (byte ∷ [])

-- A branch over a jump, or the opcode of the table.
unfoldable pub opcode_bytes : List OpcodeEntry → List ℕ → EmitMode → Option (List ℕ)
opcode_bytes opcodes opcode rel_long =
    join (join (found_byte (opcode_invert_branch opcode)) (some (3 ∷ [])))
      (found_byte (opcode_lookup opcodes (codes "JMP") abs))
opcode_bytes opcodes opcode mode = found_byte (opcode_lookup opcodes opcode mode)

-- The operand at an address: one byte in range, the distance of a branch, or a word.
unfoldable pub operand_bytes : EmitMode → ℕ → ℤ → Option (List ℕ)
unfolding byte_if
operand_bytes implied at v = none
operand_bytes accumulator at v = none
operand_bytes immediate at v = byte_if (expr_is_s8_or_u8_value v) (low_byte v)
operand_bytes rel at v =
    byte_if (in_branch_range (v -ℤ pos (at + 1))) (low_byte (v -ℤ pos (at + 1)))
operand_bytes rel_long at v = some (word_of v)
operand_bytes abs at v = some (word_of v)
operand_bytes absx at v = some (word_of v)
operand_bytes absy at v = some (word_of v)
operand_bytes ind at v = some (word_of v)
operand_bytes zp at v = byte_if (expr_is_u8_value v) (low_byte v)
operand_bytes zpx at v = byte_if (expr_is_u8_value v) (low_byte v)
operand_bytes zpy at v = byte_if (expr_is_u8_value v) (low_byte v)
operand_bytes indx at v = byte_if (expr_is_u8_value v) (low_byte v)
operand_bytes indy at v = byte_if (expr_is_u8_value v) (low_byte v)

unfoldable pub value_bytes : Eval → (ℤ → Option (List ℕ)) → Option (List ℕ)
value_bytes (ok v) f = f v
value_bytes unresolved f = none
value_bytes divzero f = none
value_bytes overflow f = none

unfoldable pub operand_expr_bytes : Env → Insn → ℕ → Option (List ℕ)
operand_expr_bytes env insn at = elim insn.expr [
  | none ↦ none
  | some e ↦
      if insn.has_operand
      then value_bytes (expr_eval e env.symbols env.scope env.file at)
          (operand_bytes insn.final_mode at)
      else none
]

unfoldable pub insn_bytes : Env → ℕ → Insn → Option (List ℕ)
insn_bytes env address insn =
    let first = opcode_bytes env.opcodes insn.opcode insn.final_mode in
    if has_no_operand insn.final_mode
    then first
    else join first (operand_expr_bytes env insn (address + opcode_size insn.final_mode))
