-- ===== src/Assembler/Relax.antt =====
-- assembler/asm_pass.c: the choice of the forms of the instructions, the relaxation that makes them
-- shorter, and the second pass over the statements. The trace of the passes is left out.
pub mod Widths
pub mod Sizes
pub mod Places
pub mod Program
pub mod Passes
pub mod Kept
use Prim.Native.Nat.{bit_xor}
use n.Prelude.{
  ℕ, zero, suc, ◌+◌, ◌*◌, Bool, true, false, not, ◌&&◌, ◌||◌, Option, none, some, List, [], ◌∷◌,
  ltb, ◌==◌, if◌then◌else◌,
}
use n.Prelude.Int.{ℤ, pos, ◌-ℤ◌}
use n.Assembler.Symtab.{Symtab, symtab_init}
use n.Assembler.Expr.{Expr, Eval, ok, unresolved, divzero, overflow, expr_eval}
use n.Assembler.Opcode.{EmitMode, implied, rel, OpcodeEntry, emit_mode_size, mode_number}
use n.Assembler.Image.{Image, ihex_image_init, ihex_max_addr}
use n.Assembler.Modes.{Insn, choose_initial_emit_mode, can_relax_to_zp_family, expr_is_u8_value}
use n.Assembler.Emit.{Output, Emitter, Env, done, insn_emit_pass2, in_branch_range}
use n.Assembler.Directive.{directive_emit_pass2}
use n.Assembler.State.{
  Body, insn, dir, label_only, const, Stmt, AsmSegment, Context, report, import_is_zp, is_ident,
}
use n.Assembler.State.Segments.{gather_segment_uses, ensure_default_segment}
use n.Assembler.State.Scopes.{assign_segments, assign_scopes}
use n.Assembler.Layout.{asm_pass1}

unfoldable pub with_mode : EmitMode → Insn → Insn
with_mode mode i = record i { final_mode = mode; size = emit_mode_size mode }

-- The form that an instruction starts with; one without a form is taken as implied, with an error.
unfoldable pub init_insn : List OpcodeEntry → Insn → Insn × Bool
init_insn opcodes i = elim (choose_initial_emit_mode opcodes i) [
  | none ↦ (with_mode implied i, false)
  | some mode ↦ (with_mode mode i, true)
]

unfoldable pub init_body : List OpcodeEntry → Body → Body × Bool
init_body opcodes (insn i) = let (i', known) = init_insn opcodes i in (insn i', known)
init_body opcodes (dir d) = (dir d, true)
init_body opcodes label_only = (label_only, true)
init_body opcodes (const name e) = (const name e, true)

unfoldable pub init_stmts : List OpcodeEntry → Context → List Stmt → Context × List Stmt
init_stmts opcodes ctx [] = (ctx, [])
init_stmts opcodes ctx (stmt ∷ prog) =
    let (body, known) = init_body opcodes stmt.body in
    let (ctx', prog') = init_stmts opcodes (if known then ctx else report ctx) prog in
    (ctx', record stmt { body = body } ∷ prog')

-- The context with the scopes and segments of `asm_prepare_context_state`.
unfoldable pub asm_context_init : List OpcodeEntry → Bool → List Stmt → Context × List Stmt
asm_context_init opcodes object_mode_o65 prog =
    let prog' = assign_scopes (assign_segments prog) in
    let segments = ensure_default_segment (gather_segment_uses [] prog') in
    init_stmts opcodes
      (record {
        symbols = symtab_init;
        error_count = 0;
        object_mode_o65 = object_mode_o65;
        imports = [];
        weaks = [];
        segments = segments;
      })
      prog'

-- `disp` of a target, from behind a short branch.
unfoldable pub near_target : ℕ → Eval → Bool
near_target address (ok v) = in_branch_range (v -ℤ pos (address + 2))
near_target address unresolved = false
near_target address divzero = false
near_target address overflow = false

unfoldable pub is_rel_long : EmitMode → Bool
unfolding mode_number
is_rel_long mode = mode_number mode == 13

unfoldable pub insn_can_relax_long_branch : Context → Stmt → Insn → Bool
insn_can_relax_long_branch ctx stmt i = is_rel_long i.final_mode && elim i.expr [
  | none ↦ false
  | some e ↦
      near_target stmt.address (expr_eval e ctx.symbols stmt.scope stmt.file (stmt.address + 1))
]

unfoldable pub expr_is_imported_zp_reference : Context → Expr → Bool
expr_is_imported_zp_reference ctx e = elim (is_ident e) [
  | none ↦ false
  | some name ↦ import_is_zp ctx name
]

-- Whether the operand may have one byte; `imported` is for a value that is not known.
unfoldable pub short_operand : Eval → Bool → Bool
short_operand (ok v) imported = expr_is_u8_value v
short_operand unresolved imported = imported
short_operand divzero imported = imported
short_operand overflow imported = imported

unfoldable pub narrow_insn : Context → Stmt → Insn → EmitMode → Insn × Bool
narrow_insn ctx stmt i candidate = elim i.expr [
  | none ↦ (i, false)
  | some e ↦
      if short_operand (expr_eval e ctx.symbols stmt.scope stmt.file stmt.address)
          (expr_is_imported_zp_reference ctx e)
        && not (mode_number candidate == mode_number i.final_mode)
      then (with_mode candidate i, true)
      else (i, false)
]

unfoldable pub relax_insn : List OpcodeEntry → Context → Stmt → Insn → Insn × Bool
relax_insn opcodes ctx stmt i =
    if insn_can_relax_long_branch ctx stmt i
    then (with_mode rel i, true)
    else (elim (can_relax_to_zp_family opcodes i i.final_mode) [
      | none ↦ (i, false)
      | some candidate ↦ narrow_insn ctx stmt i candidate
    ])

unfoldable pub relax_body : List OpcodeEntry → Context → Stmt → Body → Body × Bool
relax_body opcodes ctx stmt (insn i) =
    let (i', changed) = relax_insn opcodes ctx stmt i in (insn i', changed)
relax_body opcodes ctx stmt (dir d) = (dir d, false)
relax_body opcodes ctx stmt label_only = (label_only, false)
relax_body opcodes ctx stmt (const name e) = (const name e, false)

unfoldable pub relax_stmts : List OpcodeEntry → Context → List Stmt → List Stmt × Bool
relax_stmts opcodes ctx [] = ([], false)
relax_stmts opcodes ctx (stmt ∷ prog) =
    let (body, now) = relax_body opcodes ctx stmt stmt.body in
    let (prog', later) = relax_stmts opcodes ctx prog in
    (record stmt { body = body } ∷ prog', now || later)

unfoldable pub segment_signature : ℕ → List AsmSegment → ℕ
segment_signature acc [] = acc
segment_signature acc (seg ∷ segments) =
    segment_signature (bit_xor (bit_xor (bit_xor acc seg.base) (seg.size * 2)) (seg.used_size * 4))
      segments

-- What a round leaves, and whether it has changed something.
unfoldable pub relax_round : List OpcodeEntry → Context → List Stmt → Context × List Stmt × Bool
relax_round opcodes ctx prog =
    let (ctx', prog') = asm_pass1 ctx prog in
    let (prog'', changed) = relax_stmts opcodes ctx' prog' in
    let same = segment_signature 0 ctx.segments == segment_signature 0 ctx'.segments in
    (ctx', prog'', changed || not same)

unfoldable pub relax_loop : ℕ → List OpcodeEntry → Context → List Stmt → Context × List Stmt
relax_loop zero opcodes ctx prog = (ctx, prog)
relax_loop (suc iter) opcodes ctx prog =
    let (ctx', prog', changed) = relax_round opcodes ctx prog in
    let more = relax_loop iter opcodes ctx' prog' in if changed then more else (ctx', prog')

unfoldable pub asm_relax : List OpcodeEntry → Context → List Stmt → Context × List Stmt
asm_relax opcodes ctx prog = relax_loop 50 opcodes ctx prog

unfoldable pub stmt_env : List OpcodeEntry → Symtab → Stmt → Env
stmt_env opcodes symbols stmt = record {
  opcodes = opcodes;
  symbols = symbols;
  scope = stmt.scope;
  file = stmt.file;
}

unfoldable pub emit_body : (ℕ → ℕ) → Env → ℕ → Body → Emitter
emit_body beyond env address (insn i) = insn_emit_pass2 env address i
emit_body beyond env address (dir d) = directive_emit_pass2 beyond env address d
emit_body beyond env address label_only = done
emit_body beyond env address (const name e) = done

-- The outcome of a statement is not looked at.
unfoldable pub pass2_loop : (ℕ → ℕ) → List OpcodeEntry → Symtab → Output → List Stmt → Output
pass2_loop beyond opcodes symbols out [] = out
pass2_loop beyond opcodes symbols out (stmt ∷ prog) =
    pass2_loop beyond opcodes symbols
      (emit_body beyond (stmt_env opcodes symbols stmt) stmt.address stmt.body out).0 prog

unfoldable pub asm_pass2 : (ℕ → ℕ) → List OpcodeEntry → Context → List Stmt → Output
asm_pass2 beyond opcodes ctx prog =
    pass2_loop beyond opcodes ctx.symbols
      (record { image = ihex_image_init ihex_max_addr; error_count = ctx.error_count }) prog
