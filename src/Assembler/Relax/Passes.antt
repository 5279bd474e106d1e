-- ===== src/Assembler/Relax/Passes.antt =====
-- One statement in the first pass and in the second.
use n.Prelude.{ℕ, ◌+◌, ◌≡◌, ◌∙◌, sym, ap, true, Option, some, List, str_eq, if◌then◌else◌, length}
use n.Assembler.Emit.{Output, Env}
use n.Assembler.Emit.Writes.{written, Emits-done}
use n.Assembler.State.{Stmt, AsmSegment, Context}
use n.Assembler.State.Segments.{segment_find}
use n.Assembler.Layout.{place_stmt}
use n.Assembler.Relax.{emit_body}
use n.Assembler.Relax.Widths.{Simple, body_bytes, width, body_bytes-length}
use n.Assembler.Relax.Places.{position, found-name, place_stmt_lem}
use n.Assembler.Relax.Program.{BodyFits, emit_body-Emits}

-- The first pass places a statement of a known segment at the end of what the segment holds; if
-- the second pass goes on after it emits the statement at that address (with any symbols), it has
-- written bytes from there on, and the segment ends in the first pass just behind them, while
-- every other segment keeps its place; the statement is not .org, a .res has a number, an
-- instruction has the size of its form, and a string fits the buffer of the second pass.
pub place_stmt-emit_body :
    (beyond : ℕ → ℕ) (env : Env) (out : Output) (prog : List Stmt) (ctx : Context) (stmt : Stmt)
    (seg : AsmSegment)
    → Simple stmt.body
    → BodyFits stmt.body
    → segment_find ctx.segments stmt.segment ≡ some seg
    → (emit_body beyond env (seg.base + seg.at) stmt.body out).1 ≡ true
    → (bytes : List ℕ) × (emit_body beyond env (seg.base + seg.at) stmt.body out
        ≡ (written out (seg.base + seg.at) bytes, true))
      × ((place_stmt prog ctx stmt).1.address ≡ seg.base + seg.at)
      × ((key : List ℕ)
          → position (place_stmt prog ctx stmt).0.segments key ≡ (
              if str_eq stmt.segment key
              then some (seg.base, seg.at + length bytes)
              else position ctx.segments key))
place_stmt-emit_body beyond env out prog ctx stmt seg s fits there on =
    let at = seg.base + seg.at in
    let (bytes, own, done) =
      Emits-done (emit_body beyond env at stmt.body) at (body_bytes env at stmt.body) out
        (emit_body-Emits beyond env at stmt.body fits) on in
    let (address, moves) = place_stmt_lem prog ctx stmt seg s there in
    let size = body_bytes-length env at stmt.body bytes s own in
    let name = found-name ctx.segments stmt.segment seg there in
    let ends : List ℕ → ℕ → List ℕ → Option (ℕ × ℕ) = λ name count key.
      if str_eq name key then some (seg.base, seg.at + count) else position ctx.segments key in
    (
      bytes,
      done,
      address,
      λ key.
          moves key
          ∙ ap (λ (x : List ℕ). ends x (width stmt.body) key) name
          ∙ ap (λ (n : ℕ). ends stmt.segment n key) (sym size),
    )
