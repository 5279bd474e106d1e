-- ===== src/Assembler/State/Scopes.antt =====
-- assembler/asm_state.c: the segment and the scope of each statement.
use n.Prelude.{
  ℕ, ◌-◌, Bool, false, not, ◌&&◌, Option, none, some, List, [], ◌∷◌, codes, str_eq, ltb, ◌==◌,
  if◌then◌else◌, length, take, drop, get_or,
}
use n.Assembler.Expr.{is_local_name}
use n.Assembler.State.{
  Stmt, dir, insn, label_only, const, default_segment_name, proc_decl_name, symbol_storage_name,
}

-- A text without quotes at both ends stays as it is.
unfoldable pub unquote_string : List ℕ → List ℕ
unquote_string s =
    if not (ltb (length s) 2) && get_or s 0 0 == 34 && get_or s (length s - 1) 0 == 34
    then take (length s - 2) (drop 1 s)
    else s

-- The segment that a statement changes to.
unfoldable pub segment_change : Stmt → Option (List ℕ)
segment_change stmt = elim stmt.body [
  | dir d ↦
      if str_eq d.name (codes ".segment")
      then elim d.string [ none ↦ none | some s ↦ some (unquote_string s) ]
      else none
  | insn i ↦ none
  | label_only ↦ none
  | const name e ↦ none
]

unfoldable pub next_segment : List ℕ → Option (List ℕ) → List ℕ
next_segment current none = current
next_segment current (some name) = name

unfoldable pub assign_segments_loop : List ℕ → List Stmt → List Stmt
assign_segments_loop current [] = []
assign_segments_loop current (stmt ∷ prog) =
    let segment = next_segment current (segment_change stmt) in
    record stmt { segment = segment } ∷ assign_segments_loop segment prog

unfoldable pub assign_segments : List Stmt → List Stmt
assign_segments prog = assign_segments_loop default_segment_name prog

unfoldable pub is_endproc : Stmt → Bool
is_endproc stmt = elim stmt.body [
  | dir d ↦ str_eq d.name (codes ".endproc")
  | insn i ↦ false
  | label_only ↦ false
  | const name e ↦ false
]

-- The scope of a statement, and the scopes that are open behind it, the current one first.
pub record ScopeStep : Type 0 where
  pub own : List ℕ
  pub current : List ℕ
  pub stack : List (List ℕ)

unfoldable pub pop_scope : List (List ℕ) → List ℕ → ScopeStep
pop_scope [] own = record { own = own; current = codes "__root__"; stack = [] }
pop_scope (name ∷ stack) own = record { own = own; current = name; stack = stack }

-- The label that opens a scope: one that is not local.
unfoldable pub global_label : Option (List ℕ) → Option (List ℕ)
global_label none = none
global_label (some name) = if is_local_name name then none else some name

-- The names are stored for the statement with the scope that it has got before.
unfoldable pub scope_step : List Stmt → List ℕ → List (List ℕ) → Stmt → ScopeStep
scope_step prog current stack stmt =
    let stmt' = record stmt { scope = current } in
    elim (global_label stmt.label) [
      | some name ↦
          let key = symbol_storage_name prog stmt' name in
          record { own = key; current = key; stack = stack }
      | none ↦ elim (proc_decl_name stmt) [
        | some name ↦ record {
          own = current;
          current = symbol_storage_name prog stmt' name;
          stack = current ∷ stack;
        }
        | none ↦
            if is_endproc stmt
            then pop_scope stack current
            else record { own = current; current = current; stack = stack }
      ]
    ]

unfoldable pub assign_scopes_loop : List Stmt → List ℕ → List (List ℕ) → List Stmt → List Stmt
assign_scopes_loop prog current stack [] = []
assign_scopes_loop prog current stack (stmt ∷ stmts) =
    let step = scope_step prog current stack stmt in
    record stmt { scope = step.own } ∷ assign_scopes_loop prog step.current step.stack stmts

unfoldable pub assign_scopes : List Stmt → List Stmt
assign_scopes prog = assign_scopes_loop prog (codes "__root__") [] prog
