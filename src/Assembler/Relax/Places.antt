-- ===== src/Assembler/Relax/Places.antt =====
-- The places of the statements in their segments.
use mathlib.Core.Path.{subst}
use n.Prelude.{
  ℕ, ◌+◌, ◌*◌, ◌≡◌, ◌≤◌, refl, ◌∙◌, sym, ap, ◌⊎◌, inl, inr, Bool, true, false, Option, none, some,
  List, [], ◌∷◌, str_eq, str_eq_iff, str_eq_refl, if◌then◌else◌, length, arith, Bool-cases,
  Option-cases,
}
use n.Prelude.Int.{pos}
use n.Assembler.Symtab.{Symtab}
use n.Assembler.Expr.{Expr, number, expr_eval}
use n.Assembler.Directive.{
  Directive, DirectiveKind, silent, org, byte, word, text, asciiz, res, unknown, directive_kind,
  decode_escaped_string,
}
use n.Assembler.State.{
  Body, insn, dir, label_only, const, Stmt, AsmSegment, Context, report, with_symbols,
  declare_symbol_or_report, proc_decl_name,
}
use n.Assembler.State.Segments.{segment_find, segment_update}
use n.Assembler.Layout.{
  warn_overflow, advanced, segment_advance, place_res, res_by, place_string, string_by,
  place_directive, place_body, set_declared, declare_at, bad_proc, declare_proc, place_in,
  place_stmt, place_loop,
}
use n.Assembler.Relax.Sizes.{place_stmt-kept}
use n.Assembler.Relax.Widths.{
  Simple, SimpleKind, width, decoded_width, kind_width, string_width, res_width,
}

-- The base of a segment and how far it is filled.
unfoldable pub place_of : Option AsmSegment → Option (ℕ × ℕ)
place_of none = none
place_of (some seg) = some (seg.base, seg.at)

unfoldable pub position : List AsmSegment → List ℕ → Option (ℕ × ℕ)
position segments name = place_of (segment_find segments name)

pub found-name :
    (segments : List AsmSegment) (name : List ℕ) (seg : AsmSegment)
    → segment_find segments name ≡ some seg
    → seg.name ≡ name
unfolding segment_find
found-name [] name seg h = absurd (cc h)
found-name (s ∷ segments) name seg h =
    ground (arith, found-name segments name seg, str_eq_iff s.name name)

position-update :
    (segments : List AsmSegment) (name key : List ℕ) (amount : ℕ) (seg : AsmSegment)
    → segment_find segments name ≡ some seg
    → position (segment_update segments name (advanced amount)) key
      ≡ (if str_eq name key then some (seg.base, seg.at + amount) else position segments key)
unfolding segment_find segment_update position place_of advanced warn_overflow
position-update [] name key amount seg h = absurd (cc h)
position-update (s ∷ segments) name key amount seg h = elim (Bool-cases (str_eq s.name name)) [
  | inl e ↦
      let same = (str_eq_iff s.name name).0 e in
      let this : s ≡ seg = ground arith in
      elim (Bool-cases (str_eq name key)) [
        | inl k ↦ simp (same, str_eq_refl, k) (rw this refl)
        | inr k ↦ simp (same, str_eq_refl, k) refl
      ]
  | inr e ↦
      let ih = position-update segments name key amount seg (rw e at h) in
      elim (Bool-cases (str_eq s.name key)) [
        | inl k ↦
            let other : str_eq name key ≡ false = elim (Bool-cases (str_eq name key)) [
              | inr q ↦ q
              | inl q ↦ absurd (
                  ground
                    (arith, str_eq_iff s.name key, str_eq_iff name key, str_eq_iff s.name name))
            ] in
            simp (e, k, other) refl
        | inr k ↦ simp (e, k) ih
      ]
]

still :
    (segments : List AsmSegment) (name key : List ℕ) (seg : AsmSegment)
    → segment_find segments name ≡ some seg
    → position segments key
      ≡ (if str_eq name key then some (seg.base, seg.at + 0) else position segments key)
unfolding position place_of
still segments name key seg h = elim (Bool-cases (str_eq name key)) [
  | inl k ↦
      let same = (str_eq_iff name key).0 k in
      let zero_more : seg.at + 0 ≡ seg.at = omega arith in rw (k, zero_more, ← same, h) refl
  | inr k ↦ rw k refl
]

-- What a statement does to the positions, where its segment is found.
abbrev pub Moves : Context → Context → AsmSegment → ℕ → Type 0
Moves ctx after seg amount =
    (key : List ℕ)
    → position after.segments key ≡ (
        if str_eq seg.name key then some (seg.base, seg.at + amount) else position ctx.segments key)

module _ (seg : AsmSegment) where
  advance-Moves :
      (ctx : Context) (amount : ℕ)
      → segment_find ctx.segments seg.name ≡ some seg
      → Moves ctx (segment_advance ctx seg amount) seg amount
  unfolding segment_advance
  advance-Moves ctx amount h key = position-update ctx.segments seg.name key amount seg h

  report-Moves :
      (ctx : Context) → segment_find ctx.segments seg.name ≡ some seg → Moves ctx (report ctx) seg 0
  unfolding report
  report-Moves ctx h key = still ctx.segments seg.name key seg h

  none-Moves : (ctx : Context) → segment_find ctx.segments seg.name ≡ some seg → Moves ctx ctx seg 0
  none-Moves ctx h key = still ctx.segments seg.name key seg h

  string_by-Moves :
      (ctx : Context) (more : ℕ) (decoded : Option (List ℕ))
      → segment_find ctx.segments seg.name ≡ some seg
      → Moves ctx (string_by ctx seg more decoded) seg (decoded_width more decoded)
  unfolding string_by decoded_width
  string_by-Moves ctx more none h = report-Moves ctx h
  string_by-Moves ctx more (some bytes) h = advance-Moves ctx (length bytes + more) h

  place_string-Moves :
      (ctx : Context) (more : ℕ) (string : Option (List ℕ))
      → segment_find ctx.segments seg.name ≡ some seg
      → Moves ctx (place_string ctx seg more string) seg (string_width more string)
  unfolding place_string string_width
  place_string-Moves ctx more none h = advance-Moves ctx more h
  place_string-Moves ctx more (some quoted) h =
      string_by-Moves ctx more (decode_escaped_string quoted) h

  place_res-Moves :
      (ctx : Context) (stmt : Stmt) (pc_abs count : ℕ)
      → segment_find ctx.segments seg.name ≡ some seg
      → Moves ctx (place_res ctx seg stmt pc_abs (number (pos count) ∷ [])) seg count
  unfolding place_res res_by expr_eval
  place_res-Moves ctx stmt pc_abs count h = advance-Moves ctx count h

  place_directive-Moves :
      (ctx : Context) (stmt : Stmt) (pc_abs : ℕ) (d : Directive) (kind : DirectiveKind)
      → SimpleKind kind d.exprs
      → segment_find ctx.segments seg.name ≡ some seg
      → Moves ctx (place_directive ctx seg stmt pc_abs d kind) seg (kind_width d kind)
  unfolding place_directive kind_width
  place_directive-Moves ctx stmt pc_abs d silent s h = none-Moves ctx h
  place_directive-Moves ctx stmt pc_abs d org s h = absurd s
  place_directive-Moves ctx stmt pc_abs d byte s h = advance-Moves ctx (length d.exprs) h
  place_directive-Moves ctx stmt pc_abs d word s h = advance-Moves ctx (length d.exprs * 2) h
  place_directive-Moves ctx stmt pc_abs d text s h = place_string-Moves ctx 0 d.string h
  place_directive-Moves ctx stmt pc_abs d asciiz s h = place_string-Moves ctx 1 d.string h
  place_directive-Moves ctx stmt pc_abs d res (count, e) h =
      subst
        (λ (exprs : List Expr).
          Moves ctx (place_res ctx seg stmt pc_abs exprs) seg (res_width exprs))
        (sym e) (unfold res_width in place_res-Moves ctx stmt pc_abs count h)
  place_directive-Moves ctx stmt pc_abs d unknown s h = none-Moves ctx h

with_symbols-segments :
    (ctx : Context) (x : Option Symtab) → (with_symbols ctx x).0.segments ≡ ctx.segments
unfolding with_symbols report
with_symbols-segments ctx none = refl
with_symbols-segments ctx (some tab) = refl

declare-segments :
    (prog : List Stmt) (ctx : Context) (name : List ℕ) (stmt : Stmt)
    → (declare_symbol_or_report prog ctx name stmt).0.segments ≡ ctx.segments
unfolding declare_symbol_or_report
declare-segments prog ctx name stmt = with_symbols-segments ctx _

set_declared-segments :
    (prog : List Stmt) (r : Context × Bool) (name : List ℕ) (stmt : Stmt) (pc_abs : ℕ)
    → (set_declared prog r name stmt pc_abs).segments ≡ r.0.segments
unfolding set_declared
set_declared-segments prog (ctx, true) name stmt pc_abs = refl
set_declared-segments prog (ctx, false) name stmt pc_abs = refl

declare_at-segments :
    (prog : List Stmt) (ctx : Context) (label : Option (List ℕ)) (stmt : Stmt) (pc_abs : ℕ)
    → (declare_at prog ctx label stmt pc_abs).segments ≡ ctx.segments
unfolding declare_at
declare_at-segments prog ctx none stmt pc_abs = refl
declare_at-segments prog ctx (some name) stmt pc_abs =
    set_declared-segments prog (declare_symbol_or_report prog ctx name stmt) name stmt pc_abs
    ∙ declare-segments prog ctx name stmt

declare_proc-segments :
    (prog : List Stmt) (ctx : Context) (stmt : Stmt) (pc_abs : ℕ)
    → (declare_proc prog ctx stmt pc_abs).segments ≡ ctx.segments
declare_proc-segments prog ctx stmt pc_abs = elim (Bool-cases (bad_proc stmt)) [
  | inl e ↦ unfold declare_proc report in rw e refl
  | inr e ↦
      unfold declare_proc in rw e (declare_at-segments prog ctx (proc_decl_name stmt) stmt pc_abs)
]

place_body-Moves :
    (prog : List Stmt) (ctx : Context) (seg : AsmSegment) (stmt : Stmt) (pc_abs : ℕ) (b : Body)
    → Simple b
    → segment_find ctx.segments seg.name ≡ some seg
    → Moves ctx (place_body prog ctx seg stmt pc_abs b) seg (width b)
unfolding place_body width
place_body-Moves prog ctx seg stmt pc_abs (insn i) s h = advance-Moves seg ctx i.size h
place_body-Moves prog ctx seg stmt pc_abs (dir d) s h =
    place_directive-Moves seg ctx stmt pc_abs d (directive_kind d.name) s h
place_body-Moves prog ctx seg stmt pc_abs label_only s h = none-Moves seg ctx h
place_body-Moves prog ctx seg stmt pc_abs (const name e) s h = λ key.
    ap (λ (segments : List AsmSegment). position segments key) (declare-segments prog ctx name stmt)
    ∙ none-Moves seg ctx h key

place_stmt_found :
    (prog : List Stmt) (ctx : Context) (stmt : Stmt) (seg : AsmSegment)
    → segment_find ctx.segments stmt.segment ≡ some seg
    → place_stmt prog ctx stmt ≡ place_in prog ctx seg stmt
unfolding place_stmt place_in
place_stmt_found prog ctx stmt seg h = rw (h, place_stmt) refl

-- A statement stands at the end of its segment, and makes it longer by its width; the other segments
-- stay.
pub place_stmt_lem :
    (prog : List Stmt) (ctx : Context) (stmt : Stmt) (seg : AsmSegment)
    → Simple stmt.body
    → segment_find ctx.segments stmt.segment ≡ some seg
    → ((place_stmt prog ctx stmt).1.address ≡ seg.base + seg.at)
      × Moves ctx (place_stmt prog ctx stmt).0 seg (width stmt.body)
place_stmt_lem prog ctx stmt seg s h =
    let at = seg.base + seg.at in
    let stmt' = record stmt { address = at } in
    let ctx' = declare_at prog ctx stmt.label stmt' at in
    let ready = declare_proc prog ctx' stmt' at in
    let same : ready.segments ≡ ctx.segments =
      declare_proc-segments prog ctx' stmt' at ∙ declare_at-segments prog ctx stmt.label stmt' at in
    let name = found-name ctx.segments stmt.segment seg h in
    let there : segment_find ready.segments seg.name ≡ some seg =
      ap (λ (l : List AsmSegment). segment_find l seg.name) same
      ∙ ap (segment_find ctx.segments) name
      ∙ h in
    let moves = place_body-Moves prog ready seg stmt' at stmt.body s there in
    let done : place_stmt prog ctx stmt ≡ (place_body prog ready seg stmt' at stmt.body, stmt') =
      unfold place_in in place_stmt_found prog ctx stmt seg h in
    (
      ap (λ (r : Context × Stmt). r.1.address) done,
      λ key.
          ap (λ (r : Context × Stmt). position r.0.segments key) done
          ∙ moves key
          ∙ ap
              (λ (segments : List AsmSegment).
                if str_eq seg.name key
                then some (seg.base, seg.at + width stmt.body)
                else position segments key)
              same,
    )

-- The statements of a segment that stand at a place or behind it.
abbrev pub Behind : List ℕ → ℕ → List Stmt → Type 0
Behind name place [] = Unit
Behind name place (t ∷ stmts) =
    ((str_eq t.segment name ≡ false) ⊎ (place ≤ t.address)) × Behind name place stmts

-- Of two statements in one segment, the later begins where the earlier ends, or behind that.
abbrev pub InOrder : List Stmt → Type 0
InOrder [] = Unit
InOrder (t ∷ stmts) = Behind t.segment (t.address + width t.body) stmts × InOrder stmts

-- The segments of the statements are in the table.
abbrev pub AllKnown : List AsmSegment → List Stmt → Type 0
AllKnown segments [] = Unit
AllKnown segments (s ∷ stmts) =
    ((seg : AsmSegment) × (segment_find segments s.segment ≡ some seg)) × AllKnown segments stmts

abbrev pub AllSimple : List Stmt → Type 0
AllSimple [] = Unit
AllSimple (s ∷ stmts) = Simple s.body × AllSimple stmts

Behind-mono :
    (name : List ℕ) (m k : ℕ) (stmts : List Stmt)
    → m ≤ k
    → Behind name k stmts
    → Behind name m stmts
Behind-mono name m k [] le h = tt
Behind-mono name m k (t ∷ stmts) le h = (
  elim h.0 [ inl e ↦ inl e | inr l ↦ inr (omega (arith, le, l)) ],
  Behind-mono name m k stmts le h.1,
)

found-position :
    (segments : List AsmSegment) (name : List ℕ) (seg : AsmSegment)
    → segment_find segments name ≡ some seg
    → position segments name ≡ some (seg.base, seg.at)
unfolding position place_of
found-position segments name seg e = rw e refl

known_after :
    (before after : List AsmSegment) (key : List ℕ) (p : ℕ × ℕ)
    → position after key ≡ some p
    → (seg : AsmSegment) × (segment_find after key ≡ some seg)
unfolding position place_of
known_after before after key p h = elim (Option-cases (segment_find after key)) [
  | inl e ↦ absurd (cc (rw e at h))
  | inr (seg, e) ↦ (seg, e)
]

AllKnown-Moves :
    (ctx after : Context) (seg : AsmSegment) (amount : ℕ) (stmts : List Stmt)
    → Moves ctx after seg amount
    → AllKnown ctx.segments stmts
    → AllKnown after.segments stmts
AllKnown-Moves ctx after seg amount [] h k = tt
AllKnown-Moves ctx after seg amount (s ∷ stmts) h k =
    let (seg', e) = k.0 in
    let here : position ctx.segments s.segment ≡ some (seg'.base, seg'.at) =
      found-position ctx.segments s.segment seg' e in
    (
      elim (Bool-cases (str_eq seg.name s.segment)) [
        | inl q ↦
            known_after ctx.segments after.segments s.segment (seg.base, seg.at + amount)
              (h s.segment ∙ rw q refl)
        | inr q ↦
            known_after ctx.segments after.segments s.segment (seg'.base, seg'.at)
              (h s.segment ∙ rw q here)
      ],
      AllKnown-Moves ctx after seg amount stmts h k.1,
    )

pair_inj : (a b c d : ℕ) → ◌≡◌ {A = Option (ℕ × ℕ)} (some (a, b)) (some (c, d)) → (a ≡ c) × (b ≡ d)
pair_inj a b c d h = ground arith

place_loop-Behind :
    (prog : List Stmt) (ctx : Context) (stmts : List Stmt) (name : List ℕ) (base at : ℕ)
    → AllSimple stmts
    → AllKnown ctx.segments stmts
    → position ctx.segments name ≡ some (base, at)
    → Behind name (base + at) (place_loop prog ctx stmts).1
unfolding place_loop
place_loop-Behind prog ctx [] name base at s k h = tt
place_loop-Behind prog ctx (t ∷ stmts) name base at s k h =
    let (seg, e) = k.0 in
    let (address, moves) = place_stmt_lem prog ctx t seg s.0 e in
    let segment = (place_stmt-kept prog ctx t).1 in
    let after = (place_stmt prog ctx t).0 in
    let known = AllKnown-Moves ctx after seg (width t.body) stmts moves k.1 in
    let named = found-name ctx.segments t.segment seg e in
    elim (Bool-cases (str_eq seg.name name)) [
      | inl q ↦
          let same : t.segment ≡ name = sym named ∙ (str_eq_iff seg.name name).0 q in
          let here : ◌≡◌ {A = Option (ℕ × ℕ)} (some (seg.base, seg.at)) (some (base, at)) =
            sym (found-position ctx.segments t.segment seg e)
            ∙ ap (position ctx.segments) same
            ∙ h in
          let (base_eq, at_eq) = pair_inj seg.base seg.at base at here in
          let later =
            place_loop-Behind prog after stmts name base (at + width t.body) s.1 known
              (moves name ∙ rw (q, base_eq, at_eq) refl) in
          (
            inr (omega (arith, address, base_eq, at_eq)),
            Behind-mono name (base + at) (base + (at + width t.body)) _ (omega arith) later,
          )
      | inr q ↦
          let later =
            place_loop-Behind prog after stmts name base at s.1 known (moves name ∙ rw q h) in
          (inl (ap (λ (x : List ℕ). str_eq x name) (segment ∙ sym named) ∙ q), later)
    ]

-- From a context that knows the segments of all statements, none of which is .org or a .res of
-- other than a number: of two statements that the first pass places in one segment, the later
-- begins where the earlier ends, or behind that. (The instructions have the sizes of their
-- forms.)
pub place_loop-InOrder :
    (prog : List Stmt) (ctx : Context) (stmts : List Stmt)
    → AllSimple stmts
    → AllKnown ctx.segments stmts
    → InOrder (place_loop prog ctx stmts).1
unfolding place_loop
place_loop-InOrder prog ctx [] s k = tt
place_loop-InOrder prog ctx (t ∷ stmts) s k =
    let (seg, e) = k.0 in
    let (address, moves) = place_stmt_lem prog ctx t seg s.0 e in
    let (body, segment, scope, file, label, line) = place_stmt-kept prog ctx t in
    let after = (place_stmt prog ctx t).0 in
    let known = AllKnown-Moves ctx after seg (width t.body) stmts moves k.1 in
    let named = found-name ctx.segments t.segment seg e in
    let there : position after.segments (place_stmt prog ctx t).1.segment
        ≡ some (seg.base, seg.at + width t.body) =
      moves (place_stmt prog ctx t).1.segment
      ∙ rw ((str_eq_iff seg.name (place_stmt prog ctx t).1.segment).1 (named ∙ sym segment)) refl in
    (
      Behind-mono (place_stmt prog ctx t).1.segment _ _ _ (omega (arith, address, ap width body)) (
          place_loop-Behind prog after stmts (place_stmt prog ctx t).1.segment seg.base
            (seg.at + width t.body) s.1 known there),
      place_loop-InOrder prog after stmts s.1 known,
    )
