-- ===== src/Assembler/Layout.antt =====
-- assembler/asm_pass.c: the first pass, which places the statements in their segments and declares
-- the symbols. It returns the context and the statements with their addresses. Sums of addresses
-- are taken as no larger than a `long`; the warnings are left out.
use n.Prelude.{
  ℕ, zero, suc, ◌+◌, ◌*◌, Bool, true, false, not, ◌&&◌, ◌||◌, Option, none, some, List, [], ◌∷◌,
  codes, str_eq, ltb, if◌then◌else◌, length,
}
use n.Prelude.Int.{ℤ, pos, negsuc, ◌-ℤ◌, leb_ℤ}
use n.Assembler.Symtab.{
  Symbol, symtab_init, symtab_set_value_segment_named, symtab_set_value_segment,
}
use n.Assembler.Expr.{Expr, Eval, ok, unresolved, divzero, overflow, expr_eval}
use n.Assembler.Directive.{
  Directive, DirectiveKind, silent, org, byte, word, text, asciiz, res, unknown, directive_kind,
  decode_escaped_string,
}
use n.Assembler.State.{
  Body, insn, dir, label_only, const, Stmt, AsmSegment, Context, report, proc_decl_name,
  symbol_storage_name, declare_symbol_or_report, find_declared_symbol, gather_imports,
  validate_imports, is_defined,
}
use n.Assembler.State.Segments.{
  segment_find, segment_update, segment_name_to_o65, reset_segment_pcs, snapshot_segment_used_sizes,
  publish, gather_segment_defs, validate_segment_defs, o65_seg_abs,
}

-- The warning is given once for a segment.
unfoldable pub warn_overflow : AsmSegment → AsmSegment
warn_overflow seg = record seg { overflow_warned = ltb seg.size seg.at || seg.overflow_warned }

unfoldable pub advanced : ℕ → AsmSegment → AsmSegment
unfolding warn_overflow
advanced amount seg = warn_overflow (record seg { at = seg.at + amount })

-- The amount is never negative here.
unfoldable pub segment_advance : Context → AsmSegment → ℕ → Context
segment_advance ctx seg amount = record ctx {
  segments = segment_update ctx.segments seg.name (advanced amount);
}

unfoldable pub moved : ℕ → AsmSegment → AsmSegment
unfolding warn_overflow
moved at seg = warn_overflow (record seg { at = at })

unfoldable pub move_to : Context → AsmSegment → ℤ → Context
unfolding report
move_to ctx seg (pos at) = record ctx { segments = segment_update ctx.segments seg.name (moved at) }
move_to ctx seg (negsuc at) = report ctx

unfoldable pub org_to : Context → AsmSegment → Eval → Context
unfolding report move_to
org_to ctx seg (ok v) = move_to ctx seg (v -ℤ pos seg.base)
org_to ctx seg unresolved = report ctx
org_to ctx seg divzero = report ctx
org_to ctx seg overflow = report ctx

unfoldable pub place_org : Context → AsmSegment → Stmt → ℕ → List Expr → Context
unfolding report org_to
place_org ctx seg stmt pc_abs (e ∷ []) =
    org_to ctx seg (expr_eval e ctx.symbols stmt.scope stmt.file pc_abs)
place_org ctx seg stmt pc_abs [] = report ctx
place_org ctx seg stmt pc_abs (e ∷ e' ∷ exprs) = report ctx

unfoldable pub res_by : Context → AsmSegment → Eval → Context
unfolding report segment_advance
res_by ctx seg (ok (pos count)) = segment_advance ctx seg count
res_by ctx seg (ok (negsuc count)) = report ctx
res_by ctx seg unresolved = report ctx
res_by ctx seg divzero = report ctx
res_by ctx seg overflow = report ctx

unfoldable pub place_res : Context → AsmSegment → Stmt → ℕ → List Expr → Context
unfolding report res_by
place_res ctx seg stmt pc_abs (e ∷ []) =
    res_by ctx seg (expr_eval e ctx.symbols stmt.scope stmt.file pc_abs)
place_res ctx seg stmt pc_abs [] = report ctx
place_res ctx seg stmt pc_abs (e ∷ e' ∷ exprs) = report ctx

unfoldable pub string_by : Context → AsmSegment → ℕ → Option (List ℕ) → Context
unfolding report segment_advance
string_by ctx seg more none = report ctx
string_by ctx seg more (some bytes) = segment_advance ctx seg (length bytes + more)

-- A string that is NULL has no bytes; `more` is 1 for the NUL of `.asciiz`.
unfoldable pub place_string : Context → AsmSegment → ℕ → Option (List ℕ) → Context
unfolding segment_advance string_by
place_string ctx seg more none = segment_advance ctx seg more
place_string ctx seg more (some quoted) = string_by ctx seg more (decode_escaped_string quoted)

unfoldable pub place_directive :
    Context → AsmSegment → Stmt → ℕ → Directive → DirectiveKind → Context
place_directive ctx seg stmt pc_abs d silent = ctx
place_directive ctx seg stmt pc_abs d org = place_org ctx seg stmt pc_abs d.exprs
place_directive ctx seg stmt pc_abs d byte = segment_advance ctx seg (length d.exprs)
place_directive ctx seg stmt pc_abs d word = segment_advance ctx seg (length d.exprs * 2)
place_directive ctx seg stmt pc_abs d text = place_string ctx seg 0 d.string
place_directive ctx seg stmt pc_abs d asciiz = place_string ctx seg 1 d.string
place_directive ctx seg stmt pc_abs d res = place_res ctx seg stmt pc_abs d.exprs
place_directive ctx seg stmt pc_abs d unknown = ctx

unfoldable pub place_body : List Stmt → Context → AsmSegment → Stmt → ℕ → Body → Context
place_body prog ctx seg stmt pc_abs label_only = ctx
place_body prog ctx seg stmt pc_abs (const name e) = (declare_symbol_or_report prog ctx name stmt).0
place_body prog ctx seg stmt pc_abs (insn i) = segment_advance ctx seg i.size
place_body prog ctx seg stmt pc_abs (dir d) =
    place_directive ctx seg stmt pc_abs d (directive_kind d.name)

-- The value of a symbol that has just been declared.
unfoldable pub set_declared : List Stmt → Context × Bool → List ℕ → Stmt → ℕ → Context
set_declared prog (ctx, true) name stmt pc_abs = record ctx {
  symbols =
      symtab_set_value_segment_named ctx.symbols (symbol_storage_name prog stmt name) (pos pc_abs)
        (segment_name_to_o65 stmt.segment) (some stmt.segment);
}
set_declared prog (ctx, false) name stmt pc_abs = ctx

unfoldable pub declare_at : List Stmt → Context → Option (List ℕ) → Stmt → ℕ → Context
declare_at prog ctx none stmt pc_abs = ctx
declare_at prog ctx (some name) stmt pc_abs =
    set_declared prog (declare_symbol_or_report prog ctx name stmt) name stmt pc_abs

-- `.proc` without its one name is an error.
unfoldable pub bad_proc : Stmt → Bool
bad_proc stmt = elim stmt.body [
  | dir d ↦
      str_eq d.name (codes ".proc") && elim (proc_decl_name stmt) [ none ↦ true | some m ↦ false ]
  | insn i ↦ false
  | label_only ↦ false
  | const name e ↦ false
]

unfoldable pub declare_proc : List Stmt → Context → Stmt → ℕ → Context
declare_proc prog ctx stmt pc_abs =
    if bad_proc stmt then report ctx else declare_at prog ctx (proc_decl_name stmt) stmt pc_abs

-- One statement, in its segment.
unfoldable pub place_in : List Stmt → Context → AsmSegment → Stmt → Context × Stmt
place_in prog ctx seg stmt =
    let pc_abs = seg.base + seg.at in
    let stmt' = record stmt { address = pc_abs } in
    let labelled = declare_at prog ctx stmt.label stmt' pc_abs in
    (place_body prog (declare_proc prog labelled stmt' pc_abs) seg stmt' pc_abs stmt.body, stmt')

unfoldable pub place_stmt : List Stmt → Context → Stmt → Context × Stmt
place_stmt prog ctx stmt = elim (segment_find ctx.segments stmt.segment) [
  | none ↦ (report ctx, stmt)
  | some seg ↦ place_in prog ctx seg stmt
]

unfoldable pub place_loop : List Stmt → Context → List Stmt → Context × List Stmt
place_loop prog ctx [] = (ctx, [])
place_loop prog ctx (stmt ∷ stmts) =
    let (ctx', stmt') = place_stmt prog ctx stmt in
    let (ctx'', stmts') = place_loop prog ctx' stmts in (ctx'', stmt' ∷ stmts')

-- Whether the symbol has another value, or none.
unfoldable pub differs : ℤ → Symbol → Bool
differs v sym = not (sym.defined && leb_ℤ sym.value v && leb_ℤ v sym.value)

unfoldable pub set_constant : List Stmt → Context → Stmt → List ℕ → ℤ → Context × Bool
set_constant prog ctx stmt name v = elim (find_declared_symbol ctx.symbols prog stmt name) [
  | none ↦ (ctx, false)
  | some sym ↦
      if differs v sym
      then (
        record ctx {
          symbols =
              symtab_set_value_segment ctx.symbols (symbol_storage_name prog stmt name) v
                o65_seg_abs;
        },
        true,
      )
      else (ctx, false)
]

unfoldable pub resolve_constant : List Stmt → Context → Stmt → Context × Bool
resolve_constant prog ctx stmt = elim stmt.body [
  | const name e ↦ elim (expr_eval e ctx.symbols stmt.scope stmt.file stmt.address) [
    | ok v ↦ set_constant prog ctx stmt name v
    | unresolved ↦ (ctx, false)
    | divzero ↦ (ctx, false)
    | overflow ↦ (ctx, false)
  ]
  | insn i ↦ (ctx, false)
  | dir d ↦ (ctx, false)
  | label_only ↦ (ctx, false)
]

-- One iteration, and whether it has changed a symbol.
unfoldable pub resolve_round : List Stmt → Context → List Stmt → Context × Bool
resolve_round prog ctx [] = (ctx, false)
resolve_round prog ctx (stmt ∷ stmts) =
    let (ctx', now) = resolve_constant prog ctx stmt in
    let (ctx'', later) = resolve_round prog ctx' stmts in (ctx'', now || later)

unfoldable pub resolve_rounds : ℕ → List Stmt → Context → Context
resolve_rounds zero prog ctx = ctx
resolve_rounds (suc iter) prog ctx =
    let (ctx', changed) = resolve_round prog ctx prog in
    let more = resolve_rounds iter prog ctx' in if changed then more else ctx'

-- A constant that is not defined and has no value is an error. The code would put a value that it
-- had into the statement's address; then the loop before has defined the constant.
unfoldable pub report_constant : List Stmt → Context → Stmt → Context
report_constant prog ctx stmt = elim stmt.body [
  | const name e ↦
      if is_defined (find_declared_symbol ctx.symbols prog stmt name)
      then ctx
      else (elim (expr_eval e ctx.symbols stmt.scope stmt.file stmt.address) [
        | ok v ↦ ctx
        | unresolved ↦ report ctx
        | divzero ↦ report ctx
        | overflow ↦ report ctx
      ])
  | insn i ↦ ctx
  | dir d ↦ ctx
  | label_only ↦ ctx
]

unfoldable pub report_constants : List Stmt → Context → List Stmt → Context
report_constants prog ctx [] = ctx
report_constants prog ctx (stmt ∷ stmts) =
    report_constants prog (report_constant prog ctx stmt) stmts

unfoldable pub resolve_constants : List Stmt → Context → Context
resolve_constants prog ctx = report_constants prog (resolve_rounds 64 prog ctx) prog

-- What stands before the loop over the statements.
unfoldable pub begin_pass1 : Context → List Stmt → Context
begin_pass1 ctx prog =
    let imported = gather_imports (record ctx { symbols = symtab_init }) prog in
    let published = publish (record imported { segments = reset_segment_pcs imported.segments }) in
    if ctx.object_mode_o65
    then published
    else validate_segment_defs (gather_segment_defs published prog)

-- What stands behind it, with the placed statements.
unfoldable pub end_pass1 : Context → List Stmt → Context
end_pass1 ctx prog =
    let published = publish (record ctx { segments = snapshot_segment_used_sizes ctx.segments }) in
    validate_imports (resolve_constants prog published)

unfoldable pub asm_pass1 : Context → List Stmt → Context × List Stmt
asm_pass1 ctx prog =
    let (placed, prog') = place_loop prog (begin_pass1 ctx prog) prog in
    (end_pass1 placed prog', prog')
