-- ===== src/Assembler/State/Segments.antt =====
-- assembler/asm_state.c: the table of segments and the symbols that it publishes. A pointer to a
-- segment is its name.
use n.Prelude.{
  ℕ, ◌+◌, Bool, true, false, ◌&&◌, ◌||◌, Option, none, some, List, [], ◌∷◌, ◌++◌, codes, str_eq,
  leb, ◌==◌, if◌then◌else◌, take, map,
}
use n.Prelude.Int.{pos}
use n.Assembler.Symtab.{Symtab, symtab_declare, symtab_set_value_segment}
use n.Assembler.Expr.{Expr, Eval, ok, expr_eval}
use n.Assembler.State.{
  AsmSegment, Context, Stmt, dir, insn, label_only, const, report, default_segment_name,
}
use n.Assembler.State.Scopes.{unquote_string}

abbrev pub o65_seg_abs : ℕ
o65_seg_abs = 1

abbrev pub o65_seg_text : ℕ
o65_seg_text = 2

abbrev pub o65_seg_data : ℕ
o65_seg_data = 3

abbrev pub o65_seg_bss : ℕ
o65_seg_bss = 4

abbrev pub o65_seg_zp : ℕ
o65_seg_zp = 5

-- `tolower` of the C locale.
unfoldable pub lower : ℕ → ℕ
lower c = if leb b'A' c && leb c b'Z' then c + 32 else c

-- `strcasecmp(a, b) == 0`
unfoldable pub strcase_eq : List ℕ → List ℕ → Bool
strcase_eq a b = str_eq (map lower a) (map lower b)

-- The base is the name, or stands before a dot, in either case.
unfoldable pub segment_name_matches : List ℕ → List ℕ → Bool
unfolding lower
segment_name_matches [] [] = true
segment_name_matches (c ∷ name) [] = c == b'.'
segment_name_matches [] (b ∷ base) = false
segment_name_matches (c ∷ name) (b ∷ base) = lower c == lower b && segment_name_matches name base

unfoldable pub segment_name_to_o65 : List ℕ → ℕ
unfolding segment_name_matches strcase_eq
segment_name_to_o65 name =
    if strcase_eq name default_segment_name
      || segment_name_matches name (codes "TEXT")
      || segment_name_matches name (codes "CODE")
      || segment_name_matches name (codes "RODATA")
    then o65_seg_text
    else if segment_name_matches name (codes "DATA")
    then o65_seg_data
    else if segment_name_matches name (codes "BSS")
    then o65_seg_bss
    else if segment_name_matches name (codes "ZP")
        || segment_name_matches name (codes "ZEROPAGE")
        || segment_name_matches name (codes "ZERO")
    then o65_seg_zp
    else o65_seg_text

unfoldable pub segment_find : List AsmSegment → List ℕ → Option AsmSegment
segment_find [] name = none
segment_find (seg ∷ segments) name =
    if str_eq seg.name name then some seg else segment_find segments name

-- A change of the segment that a pointer names.
unfoldable pub segment_update :
    List AsmSegment → List ℕ → (AsmSegment → AsmSegment) → List AsmSegment
segment_update [] name f = []
segment_update (seg ∷ segments) name f =
    let rest = seg ∷ segment_update segments name f in
    if str_eq seg.name name then f seg ∷ segments else rest

unfoldable pub segment_get_or_create : List AsmSegment → List ℕ → List AsmSegment
segment_get_or_create segments name = elim (segment_find segments name) [
  | some seg ↦ segments
  | none ↦
      record {
        name = name;
        base = 0;
        size = 0x10000;
        at = 0;
        used_size = 0;
        defined = false;
        overflow_warned = false;
      }
      ∷ segments
]

unfoldable pub reset_segment_pcs : List AsmSegment → List AsmSegment
reset_segment_pcs [] = []
reset_segment_pcs (seg ∷ segments) =
    record seg { at = 0; overflow_warned = false } ∷ reset_segment_pcs segments

unfoldable pub snapshot_segment_used_sizes : List AsmSegment → List AsmSegment
snapshot_segment_used_sizes [] = []
snapshot_segment_used_sizes (seg ∷ segments) =
    record seg { used_size = seg.at } ∷ snapshot_segment_used_sizes segments

unfoldable pub ensure_default_segment : List AsmSegment → List AsmSegment
ensure_default_segment segments =
    segment_update (segment_get_or_create segments default_segment_name) default_segment_name
      (λ seg. record seg { base = 0; size = 0x10000; defined = true })

unfoldable pub create_used : List AsmSegment → List Stmt → List AsmSegment
create_used segments [] = segments
create_used segments (stmt ∷ prog) = create_used (segment_get_or_create segments stmt.segment) prog

unfoldable pub gather_segment_uses : List AsmSegment → List Stmt → List AsmSegment
gather_segment_uses segments prog = create_used (ensure_default_segment segments) prog

-- The table after `symtab_declare`, which has not found the name.
unfoldable pub declared : Symtab → Option Symtab → Symtab
declared tab none = tab
declared tab (some tab') = tab'

unfoldable pub define_or_update_abs_symbol : Symtab → List ℕ → ℕ → Symtab
unfolding declared
define_or_update_abs_symbol tab name value =
    symtab_set_value_segment (declared tab (symtab_declare tab name (codes "<segments>") 0)) name
      (pos value) o65_seg_abs

-- `snprintf` of the name of the segment and a suffix.
unfoldable pub suffixed : List ℕ → List ℕ → List ℕ
suffixed name suffix = take 4095 (name ++ suffix)

unfoldable pub publish_segment : Symtab → AsmSegment → Symtab
unfolding suffixed
publish_segment tab seg =
    let a = define_or_update_abs_symbol tab (suffixed seg.name (codes "_BASE")) seg.base in
    let b = define_or_update_abs_symbol a (suffixed seg.name (codes "_SIZE")) seg.used_size in
    let end = seg.base + seg.used_size in
    let c = define_or_update_abs_symbol b (suffixed seg.name (codes "_END")) end in
    define_or_update_abs_symbol c (suffixed seg.name (codes "_CAPACITY")) seg.size

unfoldable pub publish_segment_symbols : Symtab → List AsmSegment → Symtab
publish_segment_symbols tab [] = tab
publish_segment_symbols tab (seg ∷ segments) =
    publish_segment_symbols (publish_segment tab seg) segments

unfoldable pub publish : Context → Context
publish ctx = record ctx { symbols = publish_segment_symbols ctx.symbols ctx.segments }

-- A segment is defined by two numbers that are not negative.
unfoldable pub define_segment : Context → List ℕ → Eval → Eval → Context
define_segment ctx name (ok (pos base)) (ok (pos size)) = publish (record ctx {
  segments =
      segment_update ctx.segments name
        (λ seg. record seg { base = base; size = size; defined = true });
})
define_segment ctx name base size = report ctx

-- The segment is there although its numbers may not be; they are evaluated at address 0.
unfoldable pub segment_def : Context → Stmt → List ℕ → List Expr → Context
segment_def ctx stmt name (base ∷ size ∷ []) =
    let ctx' = record ctx { segments = segment_get_or_create ctx.segments name } in
    define_segment ctx' name (expr_eval base ctx.symbols stmt.scope stmt.file 0)
      (expr_eval size ctx.symbols stmt.scope stmt.file 0)
segment_def ctx stmt name exprs = report ctx

unfoldable pub gather_segment_def : Context → Stmt → Context
gather_segment_def ctx stmt = elim stmt.body [
  | dir d ↦
      if str_eq d.name (codes ".segmentdef")
      then (elim d.string [
        | none ↦ report ctx
        | some s ↦ segment_def ctx stmt (unquote_string s) d.exprs
      ])
      else ctx
  | insn i ↦ ctx
  | label_only ↦ ctx
  | const name e ↦ ctx
]

unfoldable pub gather_segment_defs : Context → List Stmt → Context
gather_segment_defs ctx [] = ctx
gather_segment_defs ctx (stmt ∷ prog) = gather_segment_defs (gather_segment_def ctx stmt) prog

unfoldable pub undefined_segments : List AsmSegment → ℕ
undefined_segments [] = 0
undefined_segments (seg ∷ segments) =
    let rest = undefined_segments segments in if seg.defined then rest else rest + 1

-- An error for each segment that is not defined.
unfoldable pub validate_segment_defs : Context → Context
validate_segment_defs ctx = record ctx {
  error_count = ctx.error_count + undefined_segments ctx.segments;
}
