-- ===== src/Assembler/Tests.antt =====
-- Runs of the assembler, and instances of the theorems about it.
use n.Prelude.{
  ℕ, ◌+◌, ◌%◌, ◌≡◌, ◌<◌, refl, inr, true, false, Option, none, some, List, [], ◌∷◌, codes, arith,
  length, str_eq, if◌then◌else◌,
}
use n.Prelude.Int.{pos, negsuc, ◌-ℤ◌, in_long, low_byte, low_word, shr8, quot_ℤ}
use n.Linker.Image.Hex.{loaded}
use n.Assembler.Expr.{
  Expr, number, ident, pc, unary, binary, lo, hi, div, ok, divzero, expr_eval, divide, long_result,
  apply_binary,
}
use n.Assembler.Opcode.{
  OpcodeEntry, EmitMode, implied, abs, zp, rel, rel_long, opcode_lookup, opcode_parse_raw_byte,
  find_entry, same_key, entry_opcode, opcode_invert_branch, emit_mode_size,
}
use n.Assembler.Image.{
  ihex_write_byte, ihex_write_word, ihex_addr_ok, write_second, dump_records, ihex_image_init,
  ihex_max_addr,
}
use n.Assembler.Modes.{Insn, am_zp_or_abs, am_implied, spec_none}
use n.Assembler.Emit.{
  Output, Env, in_branch_range, opcode_size, has_no_operand, insn_emit_pass2, emit_opcode,
  emit_long_branch, emit_found, emit_byte, proceed, emit_operand_expr, eval_or_report, emit_operand,
  emit_word, report_unwritten, done,
}
use n.Assembler.Emit.Writes.{written}
use n.Assembler.Emit.Encode.{
  insn_bytes, opcode_bytes, found_byte, operand_expr_bytes, operand_bytes, value_bytes, word_of,
}
use n.Assembler.Branch.{Flags, ne, mnemonic, documented, follow, holds, emitted_branch}
use n.Assembler.Directive.{
  Directive, directive_emit_pass2, emit_kind, emit_word_exprs, directive_kind, is_silent,
  decode_escaped_string, decode_chars,
}
use n.Assembler.Directive.Halves.{SameOutcome, directive_emit_pass2-lo_hi}
use n.Assembler.Directive.Encode.{directive_bytes, kind_bytes, string_bytes, decoded_length}
use n.Assembler.State.{Body, insn, dir, Stmt, Context}
use n.Assembler.State.{
  gather_imports, gather_loop, gather_import, directive_is_import_family, proc_decl_name,
}
use n.Assembler.State.Segments.{segment_find, segment_update, publish, reset_segment_pcs}
use n.Assembler.Layout.{
  begin_pass1, asm_pass1, place_loop, place_stmt, place_in, place_body, place_directive,
  segment_advance, advanced, warn_overflow, declare_at, declare_proc, bad_proc, place_string,
  string_by,
}
use n.Assembler.Relax.Places.{InOrder, place_loop-InOrder}
use n.Assembler.Relax.Kept.{AllRead, assembled-AllRead}
use n.Assembler.Relax.{emit_body, stmt_env, asm_context_init, asm_relax, asm_pass2}
use n.Assembler.Relax.Widths.{body_bytes}
use n.Assembler.Relax.Places.{position}
use n.Assembler.Relax.Passes.{place_stmt-emit_body}
use n.Assembler.Relax.Sizes.{AllShrink, AllSized, asm_relax-AllShrink}
use n.Assembler.Relax.Program.{
  program_parts, cons_part, checked, in_image, part_byte, asm_pass2-loaded, asm_pass2-error,
}

abbrev entry : List ℕ → EmitMode → ℕ → OpcodeEntry
entry mnemonic mode opcode = record { mnemonic = mnemonic; mode = mode; opcode = opcode }

abbrev opcodes : List OpcodeEntry
opcodes =
    entry (codes "LDA") abs 0xad
    ∷ entry (codes "LDA") zp 0xa5
    ∷ entry (codes "BNE") rel 0xd0
    ∷ entry (codes "JMP") abs 0x4c
    ∷ entry (codes "RTS") implied 0x60
    ∷ []

abbrev an_insn : List ℕ → Option Expr → EmitMode → ℕ → Insn
an_insn opcode e mode size = record {
  opcode = opcode;
  spec = spec_none;
  mode = am_zp_or_abs;
  expr = e;
  has_operand = true;
  final_mode = mode;
  size = size;
}

abbrev env : Env
env = record { opcodes = opcodes; symbols = []; scope = codes "__root__"; file = codes "a.s" }

abbrev flags : Flags
flags = record { flag_n = false; flag_v = false; flag_c = false; flag_z = true }

abbrev far_branch : Insn
far_branch = an_insn (codes "BNE") (some (number (pos 0x1234))) rel_long 5

abbrev empty_output : Output
empty_output = record { image = ihex_image_init ihex_max_addr; error_count = 0 }

emitted_branch_example :
    (bytes : List ℕ) × (insn_emit_pass2 env 0x100 far_branch empty_output
      ≡ (written empty_output 0x100 bytes, true))
    × (length bytes ≡ emit_mode_size rel_long)
    × (follow flags 0x100 bytes
        ≡ (if holds ne flags then 0x1234 else (0x100 + length bytes) % 65536))
unfolding mnemonic opcode_lookup opcode_parse_raw_byte find_entry same_key str_eq entry_opcode
    documented expr_eval opcode_size insn_emit_pass2 emit_opcode emit_long_branch emit_found
    emit_byte opcode_invert_branch proceed has_no_operand emit_operand_expr eval_or_report
    emit_operand emit_word low_word report_unwritten ihex_write_byte ihex_write_word ihex_addr_ok
    write_second
emitted_branch_example =
    emitted_branch flags ne env 0x100 0x1234 far_branch (number (pos 0x1234)) empty_output refl refl
      (omega arith) (inr refl) refl refl refl refl

abbrev a_dir : List ℕ → Option (List ℕ) → List Expr → Directive
a_dir name string exprs = record { name = name; string = string; exprs = exprs }

abbrev word_expr : Expr
word_expr = number (pos 0x1234)

directive_emit_pass2-lo_hi_example :
    SameOutcome
      (directive_emit_pass2
        (λ i. 0)
        env
        0x200
        (a_dir (codes ".byte") none (unary lo word_expr ∷ unary hi word_expr ∷ []))
        empty_output)
      (directive_emit_pass2
        (λ i. 0)
        env
        0x200
        (a_dir (codes ".word") none (word_expr ∷ []))
        empty_output)
      empty_output
directive_emit_pass2-lo_hi_example =
    directive_emit_pass2-lo_hi (λ i. 0) env 0x200 word_expr empty_output tt

-- Division rounds towards 0, and a divisor of 0 is an error.
quotient : expr_eval (binary div (number (negsuc 6)) (number (pos 2))) [] [] [] 0 ≡ ok (negsuc 2)
unfolding expr_eval apply_binary divide long_result in_long quot_ℤ
quotient = refl

no_quotient : expr_eval (binary div pc (number (pos 0))) [] [] [] 7 ≡ divzero
unfolding expr_eval apply_binary divide
no_quotient = refl

abbrev a_stmt : ℕ → Body → Stmt
a_stmt address body = record {
  file = codes "a.s";
  line = 1;
  address = address;
  label = none;
  scope = codes "__root__";
  segment = codes "__default__";
  body = body;
}

-- "a\n", and the address of the text.
abbrev program : List Stmt
program =
    a_stmt 0x200 (insn (an_insn (codes "LDA") (some (number (pos 0x210))) abs 3))
    ∷ a_stmt 0x203 (dir (a_dir (codes ".text") (some (34 ∷ 97 ∷ 92 ∷ 110 ∷ 34 ∷ [])) []))
    ∷ []

abbrev ctx : Context
ctx = record {
  symbols = [];
  error_count = 0;
  object_mode_o65 = true;
  imports = [];
  weaks = [];
  segments = [];
}

abbrev parts : List (ℕ × List ℕ)
parts = (0x200, 0xad ∷ 0x10 ∷ 2 ∷ []) ∷ (0x203, 97 ∷ 10 ∷ []) ∷ []

program-parts : program_parts opcodes [] program ≡ some parts
unfolding program_parts cons_part checked in_image body_bytes stmt_env insn_bytes has_no_operand
    opcode_bytes opcode_lookup opcode_parse_raw_byte find_entry same_key str_eq entry_opcode
    found_byte operand_expr_bytes value_bytes expr_eval opcode_size operand_bytes word_of low_byte
    shr8 directive_bytes kind_bytes directive_kind is_silent string_bytes decode_escaped_string
    decode_chars
program-parts = refl

asm_pass2-loaded_example :
    ((asm_pass2 (λ i. 0) opcodes ctx program).error_count ≡ 0)
    × ((j : ℕ)
        → loaded (dump_records (asm_pass2 (λ i. 0) opcodes ctx program).image) j
          ≡ part_byte parts j)
unfolding decoded_length decode_escaped_string decode_chars
asm_pass2-loaded_example =
    asm_pass2-loaded (λ i. 0) opcodes ctx program parts (tt, (omega arith, tt)) program-parts

-- A far target of a short branch.
abbrev bad_program : List Stmt
bad_program =
    a_stmt 0x200 (insn (an_insn (codes "BNE") (some (number (pos 0x400))) rel 2)) ∷ program

asm_pass2-error_example : 0 < (asm_pass2 (λ i. 0) opcodes ctx bad_program).error_count
unfolding program_parts cons_part checked body_bytes stmt_env insn_bytes has_no_operand opcode_bytes
    opcode_lookup opcode_parse_raw_byte find_entry same_key str_eq entry_opcode found_byte
    operand_expr_bytes value_bytes expr_eval opcode_size operand_bytes in_branch_range ◌-ℤ◌
    decoded_length decode_escaped_string decode_chars
asm_pass2-error_example =
    asm_pass2-error (λ i. 0) opcodes ctx bad_program (tt, (tt, (omega arith, tt))) refl

-- A load from the zero page, a branch back to it, and a return.
abbrev source : List Stmt
source =
    record (a_stmt 0 (insn (an_insn (codes "LDA") (some (number (pos 16))) implied 0))) {
      label = some (codes "loop");
    }
    ∷ a_stmt 0 (insn (an_insn (codes "BNE") (some (ident (codes "loop"))) implied 0))
    ∷ a_stmt 0 (insn (record (an_insn (codes "RTS") none implied 0) { mode = am_implied }))
    ∷ []

asm_relax-AllShrink_example :
    AllShrink
      (asm_context_init opcodes true source).1
      (asm_relax opcodes
        (asm_context_init opcodes true source).0
        (asm_context_init opcodes true source).1).1
    × AllSized
        (asm_relax opcodes
          (asm_context_init opcodes true source).0
          (asm_context_init opcodes true source).1).1
asm_relax-AllShrink_example = asm_relax-AllShrink opcodes true source

abbrev ready : Context
ready = record ctx {
  segments =
      record {
        name = codes "__default__";
        base = 0;
        size = 0x10000;
        at = 0;
        used_size = 0;
        defined = true;
        overflow_warned = false;
      }
      ∷ [];
}

place_loop-InOrder_example : InOrder (place_loop program ready program).1
unfolding segment_find str_eq directive_kind is_silent emit_mode_size
place_loop-InOrder_example =
    place_loop-InOrder program ready program (refl, (tt, tt)) ((_, refl), ((_, refl), tt))

assembled-AllRead_example :
    AllRead opcodes
      (asm_pass1 ready program).0.symbols
      (loaded (
        dump_records
          (asm_pass2
            (λ i. 0)
            opcodes
            (asm_pass1 ready program).0
            (asm_pass1 ready program).1).image))
      (asm_pass1 ready program).1
unfolding segment_find str_eq directive_kind is_silent emit_mode_size begin_pass1 gather_imports
    gather_loop gather_import directive_is_import_family publish reset_segment_pcs asm_pass1
    place_loop place_stmt place_in place_body place_directive segment_advance segment_update
    advanced warn_overflow declare_at declare_proc bad_proc proc_decl_name place_string string_by
    program_parts cons_part checked in_image body_bytes stmt_env insn_bytes has_no_operand
    opcode_bytes opcode_lookup opcode_parse_raw_byte find_entry same_key entry_opcode found_byte
    operand_expr_bytes value_bytes expr_eval opcode_size operand_bytes word_of low_byte shr8
    directive_bytes kind_bytes string_bytes decoded_length decode_escaped_string decode_chars
assembled-AllRead_example =
    assembled-AllRead (λ i. 0) opcodes ready program (codes "__default__")
      ((0, 0xad ∷ 0x10 ∷ 2 ∷ []) ∷ (3, 97 ∷ 10 ∷ []) ∷ []) (refl, (refl, tt)) (refl, (tt, tt))
      ((_, refl), ((_, refl), tt)) (tt, (omega arith, tt)) refl

abbrev a_second : Stmt
a_second = a_stmt 7 (dir (a_dir (codes ".word") none (word_expr ∷ [])))

place_stmt-emit_body_example :
    (bytes : List ℕ) × (emit_body (λ i. 0) env 0 a_second.body empty_output
      ≡ (written empty_output 0 bytes, true))
    × ((place_stmt program ready a_second).1.address ≡ 0)
    × ((key : List ℕ)
        → position (place_stmt program ready a_second).0.segments key ≡ (
            if str_eq (codes "__default__") key
            then some (0, 0 + length bytes)
            else position ready.segments key))
unfolding segment_find str_eq emit_body directive_emit_pass2 directive_kind is_silent emit_kind
    emit_word_exprs eval_or_report expr_eval emit_word low_word report_unwritten ihex_write_word
    ihex_write_byte write_second ihex_addr_ok proceed done
place_stmt-emit_body_example =
    place_stmt-emit_body (λ i. 0) env empty_output program ready a_second _ tt tt refl refl
