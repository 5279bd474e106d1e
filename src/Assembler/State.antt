-- ===== src/Assembler/State.antt =====
-- assembler/asm_state.c: the statements of a program, the segments, and the names of symbols. Memory
-- that runs out, messages and the freeing of memory are left out. A statement has a file, a
-- segment and a scope, which are set before the passes, and a directive its arguments.
pub mod Scopes
pub mod Segments
use n.Prelude.{
  ℕ, zero, suc, ◌+◌, ◌-◌, ◌*◌, Bool, true, false, not, ◌&&◌, ◌||◌, Option, none, some, List, [],
  ◌∷◌, ◌++◌, codes, str_eq, ltb, leb, ◌==◌, if◌then◌else◌, length, take, drop, get_or,
}
use n.Prelude.Int.{ℤ, pos}
use n.Assembler.Symtab.{Symbol, Symtab, symtab_find, symtab_declare}
use n.Assembler.Expr.{Expr, number, ident, charconst, pc, unary, binary, scoped_name, is_local_name}
use n.Assembler.Modes.{Insn}
use n.Assembler.Directive.{Directive}

-- The union of `stmt_t`.
pub data Body : Type 0 where
  insn : Insn → Body
  dir : Directive → Body
  label_only : Body
  const : List ℕ → Expr → Body

pub record Stmt : Type 0 where
  pub file : List ℕ
  pub line : ℕ
  pub address : ℕ
  pub label : Option (List ℕ)
  pub scope : List ℕ
  pub segment : List ℕ
  pub body : Body

-- `asm_segment_t`. Base and size are never negative.
pub record AsmSegment : Type 0 where
  pub name : List ℕ
  pub base : ℕ
  pub size : ℕ
  pub at : ℕ
  pub used_size : ℕ
  pub defined : Bool
  pub overflow_warned : Bool

pub record ImportName : Type 0 where
  pub name : List ℕ
  pub file : List ℕ
  pub line : ℕ
  pub addr_size_zp : Bool

pub record WeakName : Type 0 where
  pub name : List ℕ
  pub file : List ℕ
  pub line : ℕ

-- `asm_context_t` without the program, the image and the listing.
pub record Context : Type 0 where
  pub symbols : Symtab
  pub error_count : ℕ
  pub object_mode_o65 : Bool
  pub imports : List ImportName
  pub weaks : List WeakName
  pub segments : List AsmSegment

-- `asm_error`
unfoldable pub report : Context → Context
report ctx = record ctx { error_count = ctx.error_count + 1 }

abbrev pub default_segment_name : List ℕ
default_segment_name = codes "__default__"

unfoldable pub find_import : List ImportName → List ℕ → Option ImportName
find_import [] name = none
find_import (p ∷ imports) name = if str_eq p.name name then some p else find_import imports name

unfoldable pub import_is_zp : Context → List ℕ → Bool
import_is_zp ctx name = elim (find_import ctx.imports name) [
  | none ↦ false
  | some p ↦ p.addr_size_zp
]

unfoldable pub has_weak : List WeakName → List ℕ → Bool
has_weak [] name = false
has_weak (p ∷ weaks) name = str_eq p.name name || has_weak weaks name

unfoldable pub asm_symbol_is_weak : Context → List ℕ → Bool
asm_symbol_is_weak ctx name = has_weak ctx.weaks name

unfoldable pub asm_add_weak : Context → Stmt → List ℕ → Context
asm_add_weak ctx stmt name = if has_weak ctx.weaks name then ctx else record ctx {
  weaks = record { name = name; file = stmt.file; line = stmt.line } ∷ ctx.weaks;
}

unfoldable pub directive_name_implies_zp : List ℕ → Bool
directive_name_implies_zp m =
    str_eq m (codes ".importzp")
    || str_eq m (codes ".exportzp")
    || str_eq m (codes ".globalzp")
    || str_eq m (codes ".zpimport")
    || str_eq m (codes ".zpexport")
    || str_eq m (codes ".zpglobal")

unfoldable pub directive_is_import_family : List ℕ → Bool
directive_is_import_family m =
    str_eq m (codes ".import")
    || str_eq m (codes ".importzp")
    || str_eq m (codes ".global")
    || str_eq m (codes ".globalzp")
    || str_eq m (codes ".zpimport")
    || str_eq m (codes ".zpglobal")

unfoldable pub directive_is_export_family : List ℕ → Bool
directive_is_export_family m =
    str_eq m (codes ".global")
    || str_eq m (codes ".globalzp")
    || str_eq m (codes ".export")
    || str_eq m (codes ".exportzp")
    || str_eq m (codes ".zpglobal")
    || str_eq m (codes ".zpexport")

-- `p->addr_size_zp = 1` for the import of a name.
unfoldable pub mark_zp : List ImportName → List ℕ → List ImportName
mark_zp [] name = []
mark_zp (p ∷ imports) name =
    let rest = p ∷ mark_zp imports name in
    if str_eq p.name name then record p { addr_size_zp = true } ∷ imports else rest

unfoldable pub add_import : Context → Stmt → List ℕ → Bool → Context
add_import ctx stmt name zp = elim (find_import ctx.imports name) [
  | some p ↦ if zp then record ctx { imports = mark_zp ctx.imports name } else ctx
  | none ↦ record ctx {
    imports =
        record { name = name; file = stmt.file; line = stmt.line; addr_size_zp = zp } ∷ ctx.imports;
  }
]

unfoldable pub is_ident : Expr → Option (List ℕ)
is_ident (ident name) = some name
is_ident (number v) = none
is_ident (charconst c) = none
is_ident pc = none
is_ident (unary op e) = none
is_ident (binary op l r) = none

-- The name, if the one argument is an identifier.
unfoldable pub only_ident : List Expr → Option (List ℕ)
only_ident [] = none
only_ident (e ∷ []) = is_ident e
only_ident (e ∷ e' ∷ exprs) = none

unfoldable pub proc_decl_name : Stmt → Option (List ℕ)
unfolding only_ident is_ident
proc_decl_name stmt = elim stmt.body [
  | dir d ↦ if str_eq d.name (codes ".proc") then only_ident d.exprs else none
  | insn i ↦ none
  | label_only ↦ none
  | const name e ↦ none
]

unfoldable pub names_ident : List Expr → List ℕ → Bool
names_ident [] name = false
names_ident (e ∷ exprs) name =
    elim (is_ident e) [ some m ↦ str_eq m name | none ↦ false ] || names_ident exprs name

unfoldable pub exports_name : List ℕ → List ℕ → Stmt → Bool
exports_name file name stmt = elim stmt.body [
  | dir d ↦ str_eq stmt.file file && directive_is_export_family d.name && names_ident d.exprs name
  | insn i ↦ false
  | label_only ↦ false
  | const m e ↦ false
]

unfoldable pub is_exported_name : List Stmt → List ℕ → List ℕ → Bool
is_exported_name [] file name = false
is_exported_name (stmt ∷ prog) file name =
    exports_name file name stmt || is_exported_name prog file name

-- Local names go by the scope, others by the file, unless the file exports them.
unfoldable pub symbol_storage_name : List Stmt → Stmt → List ℕ → List ℕ
symbol_storage_name prog stmt name =
    if is_local_name name
    then scoped_name stmt.scope name
    else if is_exported_name prog stmt.file name
    then name
    else scoped_name stmt.file name

unfoldable pub with_symbols : Context → Option Symtab → Context × Bool
with_symbols ctx (some tab) = (record ctx { symbols = tab }, true)
with_symbols ctx none = (report ctx, false)

unfoldable pub declare_symbol_or_report : List Stmt → Context → List ℕ → Stmt → Context × Bool
unfolding with_symbols report
declare_symbol_or_report prog ctx name stmt =
    with_symbols ctx
      (symtab_declare ctx.symbols (symbol_storage_name prog stmt name) stmt.file stmt.line)

unfoldable pub find_declared_symbol : Symtab → List Stmt → Stmt → List ℕ → Option Symbol
find_declared_symbol tab prog stmt name = symtab_find tab (symbol_storage_name prog stmt name)

-- The loop over the names of a directive that imports, or of `.weak`.
unfoldable pub gather_names :
    (Context → Stmt → List ℕ → Context) → Context → Stmt → List Expr → Context
unfolding report
gather_names add ctx stmt [] = ctx
gather_names add ctx stmt (e ∷ exprs) =
    gather_names add
      (elim (is_ident e) [
        | none ↦ report ctx
        | some name ↦ if is_local_name name then report ctx else add ctx stmt name
      ])
      stmt exprs

unfoldable pub gather_import : Context → Stmt → Context
gather_import ctx stmt = elim stmt.body [
  | dir d ↦
      if str_eq d.name (codes ".weak")
      then gather_names asm_add_weak ctx stmt d.exprs
      else if directive_is_import_family d.name
      then gather_names (λ c s name. add_import c s name (directive_name_implies_zp d.name)) ctx
          stmt d.exprs
      else ctx
  | insn i ↦ ctx
  | label_only ↦ ctx
  | const name e ↦ ctx
]

unfoldable pub gather_loop : Context → List Stmt → Context
gather_loop ctx [] = ctx
gather_loop ctx (stmt ∷ prog) = gather_loop (gather_import ctx stmt) prog

unfoldable pub gather_imports : Context → List Stmt → Context
gather_imports ctx prog = gather_loop (record ctx { imports = []; weaks = [] }) prog

unfoldable pub is_defined : Option Symbol → Bool
is_defined none = false
is_defined (some sym) = sym.defined

unfoldable pub validate_loop : Context → List ImportName → Context
unfolding report is_defined
validate_loop ctx [] = ctx
validate_loop ctx (p ∷ imports) =
    validate_loop (if is_defined (symtab_find ctx.symbols p.name) then ctx else report ctx) imports

unfoldable pub validate_imports : Context → Context
validate_imports ctx = if ctx.object_mode_o65 then ctx else validate_loop ctx ctx.imports
