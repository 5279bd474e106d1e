-- ===== src/Assembler/Emit.antt =====
-- assembler/asm_pass.c: the second pass, which writes the bytes of the statements into the image. An
-- operation on the image and the count of errors says whether the statement goes on. The listing
-- and the texts of the messages are left out; an address is not negative.
pub mod Writes
pub mod Encode
use n.Prelude.{
  ℕ, zero, suc, ◌+◌, ◌-◌, ◌/◌, ◌%◌, Bool, true, false, ◌&&◌, ◌||◌, Option, none, some, List, [],
  ◌∷◌, codes, str_eq, ltb, ◌==◌, if◌then◌else◌, length,
}
use n.Prelude.Int.{ℤ, pos, negsuc, ◌-ℤ◌, leb_ℤ, low_byte, low_word, shr8}
use n.Assembler.Symtab.{Symtab}
use n.Assembler.Expr.{Expr, Eval, ok, unresolved, divzero, overflow, expr_eval}
use n.Assembler.Opcode.{
  EmitMode, implied, accumulator, immediate, zp, zpx, zpy, abs, absx, absy, ind, indx, indy, rel,
  rel_long, OpcodeEntry, opcode_lookup, opcode_invert_branch,
}
use n.Assembler.Image.{Image, ihex_write_byte, ihex_write_word}
use n.Assembler.Modes.{Insn, expr_is_u8_value, expr_is_s8_or_u8_value}

-- The part of `asm_context_t` that the pass changes.
pub record Output : Type 0 where
  pub image : Image
  pub error_count : ℕ

-- The parts that it reads: the table of opcodes, the symbols, and the statement's scope and file.
pub record Env : Type 0 where
  pub opcodes : List OpcodeEntry
  pub symbols : Symtab
  pub scope : List ℕ
  pub file : List ℕ

abbrev pub Emitter : Type 0
Emitter = Output → Output × Bool

unfoldable pub proceed : Output × Bool → Emitter → Output × Bool
proceed (out, true) k = k out
proceed (out, false) k = (out, false)

infixl 5 ◌>>◌
abbrev pub ◌>>◌ : Emitter → Emitter → Emitter
(m >> k) out = proceed (m out) k

unfoldable pub done : Emitter
done out = (out, true)

-- `asm_error` and `return -1`.
unfoldable pub fail : Emitter
fail out = (record out { error_count = out.error_count + 1 }, false)

-- The end of `emit_byte` and `emit_word`.
unfoldable pub report_unwritten : Output → Image × Bool → Output × Bool
report_unwritten out (img, true) = (record out { image = img }, true)
report_unwritten out (img, false) =
    (record { image = img; error_count = out.error_count + 1 }, false)

unfoldable pub emit_byte : ℕ → ℕ → Emitter
unfolding report_unwritten
emit_byte addr b out = report_unwritten out (ihex_write_byte out.image addr b)

unfoldable pub emit_word : ℕ → ℕ → Emitter
unfolding report_unwritten
emit_word addr w out = report_unwritten out (ihex_write_word out.image addr w)

-- `eval_or_report`, and what follows if there is a value.
unfoldable pub eval_or_report : Env → Expr → ℕ → (ℤ → Emitter) → Emitter
unfolding fail
eval_or_report env e at k out = elim (expr_eval e env.symbols env.scope env.file at) [
  | ok v ↦ k v out
  | unresolved ↦ fail out
  | divzero ↦ fail out
  | overflow ↦ fail out
]

unfoldable pub emit_found : Option ℕ → ℕ → Emitter
unfolding emit_byte
emit_found none addr = fail
emit_found (some byte) addr = emit_byte addr byte

-- A long branch starts with the inverse branch over the jump.
unfoldable pub emit_long_branch : List OpcodeEntry → List ℕ → ℕ → Emitter
emit_long_branch opcodes opcode at =
    emit_found (opcode_invert_branch opcode) at
    >> emit_byte (at + 1) 3
    >> emit_found (opcode_lookup opcodes (codes "JMP") abs) (at + 2)

unfoldable pub emit_opcode : List OpcodeEntry → List ℕ → EmitMode → ℕ → Emitter
emit_opcode opcodes opcode rel_long at = emit_long_branch opcodes opcode at
emit_opcode opcodes opcode mode at = emit_found (opcode_lookup opcodes opcode mode) at

-- How many bytes stand before the operand.
unfoldable pub opcode_size : EmitMode → ℕ
opcode_size rel_long = 3
opcode_size mode = 1

unfoldable pub emit_byte_if : Bool → ℕ → ℕ → Emitter
emit_byte_if true addr b = emit_byte addr b
emit_byte_if false addr b = fail

-- `disp >= -128 && disp <= 127`
unfoldable pub in_branch_range : ℤ → Bool
in_branch_range disp = leb_ℤ (negsuc 127) disp && leb_ℤ disp (pos 127)

unfoldable pub emit_operand : EmitMode → ℕ → ℤ → Emitter
emit_operand immediate at v = emit_byte_if (expr_is_s8_or_u8_value v) at (low_byte v)
emit_operand zp at v = emit_byte_if (expr_is_u8_value v) at (low_byte v)
emit_operand zpx at v = emit_byte_if (expr_is_u8_value v) at (low_byte v)
emit_operand zpy at v = emit_byte_if (expr_is_u8_value v) at (low_byte v)
emit_operand indx at v = emit_byte_if (expr_is_u8_value v) at (low_byte v)
emit_operand indy at v = emit_byte_if (expr_is_u8_value v) at (low_byte v)
emit_operand rel at v =
    emit_byte_if (in_branch_range (v -ℤ pos (at + 1))) at (low_byte (v -ℤ pos (at + 1)))
emit_operand rel_long at v = emit_word at (low_word v)
emit_operand abs at v = emit_word at (low_word v)
emit_operand absx at v = emit_word at (low_word v)
emit_operand absy at v = emit_word at (low_word v)
emit_operand ind at v = emit_word at (low_word v)
emit_operand implied at v = fail
emit_operand accumulator at v = fail

unfoldable pub emit_operand_expr : Env → Insn → ℕ → Emitter
emit_operand_expr env insn at = elim insn.expr [
  | none ↦ fail
  | some e ↦
      if insn.has_operand then eval_or_report env e at (emit_operand insn.final_mode at) else fail
]

unfoldable pub has_no_operand : EmitMode → Bool
has_no_operand implied = true
has_no_operand accumulator = true
has_no_operand mode = false

unfoldable pub insn_emit_pass2 : Env → ℕ → Insn → Emitter
insn_emit_pass2 env address insn =
    emit_opcode env.opcodes insn.opcode insn.final_mode address
    >> (if has_no_operand insn.final_mode
        then done
        else emit_operand_expr env insn (address + opcode_size insn.final_mode))
