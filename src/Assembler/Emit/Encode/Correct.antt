-- ===== src/Assembler/Emit/Encode/Correct.antt =====
-- The second pass writes the bytes of an instruction, as many as the first pass has counted.
use n.Prelude.{
  ℕ, ◌+◌, ◌/◌, ◌%◌, ◌≡◌, refl, sym, ap, inl, inr, Bool, true, false, Option, none, some, List, ◌++◌,
  codes, lt→ltb, le→ltb, length, length-append, arith, Bool-cases, Option-cases,
}
use native.Mathlib.Decide.{dec_lt}
use n.Prelude.Int.{ℤ, low_byte, low_word, shr8, low_word-mod, low_word-div, low_byte-lt}
use n.Assembler.Expr.{Expr, Eval, ok, unresolved, divzero, overflow, expr_eval}
use n.Assembler.Opcode.{
  EmitMode, implied, accumulator, immediate, zp, zpx, zpy, abs, absx, absy, ind, indx, indy, rel,
  rel_long, OpcodeEntry, opcode_lookup, opcode_invert_branch, emit_mode_size,
}
use n.Assembler.Image.{ihex_write_byte, ihex_write_word, write_second, ihex_addr_ok}
use n.Assembler.Modes.{Insn}
use n.Assembler.Emit.{
  Emitter, ◌>>◌, proceed, Env, done, fail, emit_word, report_unwritten, eval_or_report, emit_found,
  emit_long_branch, emit_opcode, opcode_size, emit_byte_if, emit_operand, emit_operand_expr,
  has_no_operand, insn_emit_pass2,
}
use n.Assembler.Emit.Writes.{
  write_bytes, Emits, join, Failed-done, fail-Emits, emit_byte-Emits, seq-Emits,
}
use n.Assembler.Emit.Encode.{
  byte_if, word_of, found_byte, opcode_bytes, operand_bytes, value_bytes, operand_expr_bytes,
  insn_bytes,
}

pub emit_word-Emits : (at : ℕ) (v : ℤ) → Emits (emit_word at (low_word v)) at (some (word_of v))
unfolding emit_word ihex_write_word write_second ihex_write_byte ihex_addr_ok report_unwritten
    write_bytes word_of
emit_word-Emits at v =
    let high : low_word v / 256 % 256 ≡ low_byte (shr8 v) =
      omega (arith, low_word-div v, low_byte-lt (shr8 v)) in
    (
      λ out h.
          rw
            (
              lt→ltb at 65536 (omega arith),
              lt→ltb (at + 1) 65536 (omega arith),
              low_word-mod v,
              high,
            )
            refl,
      λ out h. elim (dec_lt at 65536) [
        | yes near ↦ rw (lt→ltb at 65536 near, le→ltb (at + 1) 65536 (omega arith)) (refl, refl)
        | no far ↦ rw (le→ltb at 65536 (omega arith)) (refl, refl)
      ],
    )

emit_byte_if-Emits : (t : Bool) (at b : ℕ) → Emits (emit_byte_if t at b) at (byte_if t b)
unfolding emit_byte_if byte_if
emit_byte_if-Emits true at b = emit_byte-Emits at b
emit_byte_if-Emits false at b = fail-Emits at

emit_found-Emits : (o : Option ℕ) (at : ℕ) → Emits (emit_found o at) at (found_byte o)
unfolding emit_found found_byte
emit_found-Emits none at = fail-Emits at
emit_found-Emits (some b) at = emit_byte-Emits at b

emit_operand-Emits :
    (mode : EmitMode) (at : ℕ) (v : ℤ) → Emits (emit_operand mode at v) at (operand_bytes mode at v)
unfolding emit_operand operand_bytes
emit_operand-Emits implied at v = fail-Emits at
emit_operand-Emits accumulator at v = fail-Emits at
emit_operand-Emits immediate at v = emit_byte_if-Emits _ at _
emit_operand-Emits zp at v = emit_byte_if-Emits _ at _
emit_operand-Emits zpx at v = emit_byte_if-Emits _ at _
emit_operand-Emits zpy at v = emit_byte_if-Emits _ at _
emit_operand-Emits indx at v = emit_byte_if-Emits _ at _
emit_operand-Emits indy at v = emit_byte_if-Emits _ at _
emit_operand-Emits rel at v = emit_byte_if-Emits _ at _
emit_operand-Emits rel_long at v = emit_word-Emits at v
emit_operand-Emits abs at v = emit_word-Emits at v
emit_operand-Emits absx at v = emit_word-Emits at v
emit_operand-Emits absy at v = emit_word-Emits at v
emit_operand-Emits ind at v = emit_word-Emits at v

continue_with : Eval → (ℤ → Emitter) → Emitter
continue_with r k out = elim r [
  | ok v ↦ k v out
  | unresolved ↦ fail out
  | divzero ↦ fail out
  | overflow ↦ fail out
]

continue_with-Emits :
    (r : Eval) (k : ℤ → Emitter) (f : ℤ → Option (List ℕ)) (at : ℕ)
    → ((v : ℤ) → Emits (k v) at (f v))
    → Emits (continue_with r k) at (value_bytes r f)
unfolding continue_with value_bytes
continue_with-Emits (ok v) k f at h = h v
continue_with-Emits unresolved k f at h = fail-Emits at
continue_with-Emits divzero k f at h = fail-Emits at
continue_with-Emits overflow k f at h = fail-Emits at

pub eval_or_report-Emits :
    (env : Env) (e : Expr) (at : ℕ) (k : ℤ → Emitter) (f : ℤ → Option (List ℕ))
    → ((v : ℤ) → Emits (k v) at (f v))
    → Emits
        (eval_or_report env e at k)
        at
        (value_bytes (expr_eval e env.symbols env.scope env.file at) f)
unfolding eval_or_report continue_with
eval_or_report-Emits env e at k f h =
    continue_with-Emits (expr_eval e env.symbols env.scope env.file at) k f at h

seq-done : (m : Emitter) (at : ℕ) (x : Option (List ℕ)) → Emits m at x → Emits (m >> done) at x
unfolding proceed done
seq-done m at none h = λ out. Failed-done (m out) out (h out)
seq-done m at (some bytes) h =
    (λ out fits. rw (h.0 out fits) refl, λ out far. Failed-done (m out) out (h.1 out far))

emit_operand_expr-Emits :
    (env : Env) (insn : Insn) (at : ℕ)
    → Emits (emit_operand_expr env insn at) at (operand_expr_bytes env insn at)
emit_operand_expr-Emits env insn at = elim (Option-cases insn.expr) [
  | inl n ↦ unfold emit_operand_expr operand_expr_bytes in rw n (fail-Emits at)
  | inr (e, s) ↦ elim (Bool-cases insn.has_operand) [
    | inr b ↦ unfold emit_operand_expr operand_expr_bytes in rw (s, b) (fail-Emits at)
    | inl b ↦
        unfold emit_operand_expr operand_expr_bytes in
        rw (s, b)
          (eval_or_report-Emits env e at (emit_operand insn.final_mode at)
            (operand_bytes insn.final_mode at) (emit_operand-Emits insn.final_mode at))
  ]
]

found_byte-length : (o : Option ℕ) {bytes : List ℕ} → found_byte o ≡ some bytes → length bytes ≡ 1
unfolding found_byte
found_byte-length none h = cc
found_byte-length (some b) h = ground arith

pub some_inj : {x y : List ℕ} → some x ≡ some y → x ≡ y
some_inj h = cc

pub join-some :
    (x y : Option (List ℕ)) {bytes : List ℕ}
    → join x y ≡ some bytes
    → (a : List ℕ) × (b : List ℕ) × (x ≡ some a) × (y ≡ some b) × (bytes ≡ a ++ b)
join-some none y h = cc
join-some (some a) none h = cc
join-some (some a) (some b) h = (a, b, refl, refl, cc)

emit_long_branch-Emits :
    (opcodes : List OpcodeEntry) (opcode : List ℕ) (at : ℕ)
    → Emits (emit_long_branch opcodes opcode at) at (opcode_bytes opcodes opcode rel_long)
unfolding emit_long_branch opcode_bytes
emit_long_branch-Emits opcodes opcode at =
    seq-Emits _ _ at (at + 2) _ _
      (seq-Emits _ _ at (at + 1) _ _ (emit_found-Emits (opcode_invert_branch opcode) at)
        (emit_byte-Emits (at + 1) 3)
        (λ bytes h. omega (arith, found_byte-length (opcode_invert_branch opcode) h)))
      (emit_found-Emits (opcode_lookup opcodes (codes "JMP") abs) (at + 2))
      (λ bytes h.
        let (a, b, x, y, z) = join-some _ _ h in
        omega (
          arith,
          found_byte-length (opcode_invert_branch opcode) x,
          ap length z,
          length-append a b,
          ap length (some_inj y),
        ))

emit_opcode-Emits :
    (opcodes : List OpcodeEntry) (opcode : List ℕ) (mode : EmitMode) (at : ℕ)
    → Emits (emit_opcode opcodes opcode mode at) at (opcode_bytes opcodes opcode mode)
unfolding emit_opcode opcode_bytes
emit_opcode-Emits opcodes opcode rel_long at = emit_long_branch-Emits opcodes opcode at
emit_opcode-Emits opcodes opcode mode at = emit_found-Emits _ at

opcode_bytes-length :
    (opcodes : List OpcodeEntry) (opcode : List ℕ) (mode : EmitMode) (bytes : List ℕ)
    → opcode_bytes opcodes opcode mode ≡ some bytes
    → length bytes ≡ opcode_size mode
unfolding opcode_bytes opcode_size
opcode_bytes-length opcodes opcode rel_long bytes h =
    let (ab, c, x, y, z) = join-some _ _ h in
    let (a, b, x', y', z') = join-some _ _ x in
    omega (
      arith,
      found_byte-length _ x',
      found_byte-length _ y,
      ap length z,
      ap length z',
      length-append ab c,
      length-append a b,
      ap length (some_inj y'),
    )
opcode_bytes-length opcodes opcode mode bytes h = found_byte-length _ h

-- The second pass writes the bytes of the instruction to its address if they fit into the image; if
-- it has none, or they do not fit, there is one error more.
pub insn_emit_pass2-Emits :
    (env : Env) (address : ℕ) (insn : Insn)
    → Emits (insn_emit_pass2 env address insn) address (insn_bytes env address insn)
unfolding insn_emit_pass2 insn_bytes
insn_emit_pass2-Emits env address insn =
    let first = emit_opcode-Emits env.opcodes insn.opcode insn.final_mode address in
    elim (Bool-cases (has_no_operand insn.final_mode)) [
      | inl e ↦ rw e (seq-done _ address _ first)
      | inr e ↦ rw e (
          seq-Emits _ _ address (address + opcode_size insn.final_mode) _ _ first
            (emit_operand_expr-Emits env insn (address + opcode_size insn.final_mode))
            (λ bytes h.
              ap (λ (n : ℕ). address + n)
                (sym (opcode_bytes-length env.opcodes insn.opcode insn.final_mode bytes h))))
    ]

byte_if-length : (t : Bool) (b : ℕ) {bytes : List ℕ} → byte_if t b ≡ some bytes → length bytes ≡ 1
unfolding byte_if
byte_if-length true b h = ground arith
byte_if-length false b h = cc

operand_bytes-length :
    (mode : EmitMode) (at : ℕ) (v : ℤ) {bytes : List ℕ}
    → operand_bytes mode at v ≡ some bytes
    → opcode_size mode + length bytes ≡ emit_mode_size mode
unfolding operand_bytes opcode_size emit_mode_size word_of
operand_bytes-length implied at v h = cc
operand_bytes-length accumulator at v h = cc
operand_bytes-length immediate at v h = omega (arith, byte_if-length _ _ h)
operand_bytes-length zp at v h = omega (arith, byte_if-length _ _ h)
operand_bytes-length zpx at v h = omega (arith, byte_if-length _ _ h)
operand_bytes-length zpy at v h = omega (arith, byte_if-length _ _ h)
operand_bytes-length indx at v h = omega (arith, byte_if-length _ _ h)
operand_bytes-length indy at v h = omega (arith, byte_if-length _ _ h)
operand_bytes-length rel at v h = omega (arith, byte_if-length _ _ h)
operand_bytes-length rel_long at v h = omega (arith, ap length (some_inj h))
operand_bytes-length abs at v h = omega (arith, ap length (some_inj h))
operand_bytes-length absx at v h = omega (arith, ap length (some_inj h))
operand_bytes-length absy at v h = omega (arith, ap length (some_inj h))
operand_bytes-length ind at v h = omega (arith, ap length (some_inj h))

pub value_bytes-some :
    (r : Eval) (f : ℤ → Option (List ℕ)) {bytes : List ℕ}
    → value_bytes r f ≡ some bytes
    → (v : ℤ) × (r ≡ ok v) × (f v ≡ some bytes)
unfolding value_bytes
value_bytes-some (ok v) f h = (v, refl, h)
value_bytes-some unresolved f h = cc
value_bytes-some divzero f h = cc
value_bytes-some overflow f h = cc

pub operand_expr_bytes-some :
    (env : Env) (insn : Insn) (at : ℕ) {bytes : List ℕ}
    → operand_expr_bytes env insn at ≡ some bytes
    → (e : Expr) × (v : ℤ) × (insn.expr ≡ some e)
      × (expr_eval e env.symbols env.scope env.file at ≡ ok v)
      × (operand_bytes insn.final_mode at v ≡ some bytes)
unfolding operand_expr_bytes
operand_expr_bytes-some env insn at h = elim (Option-cases insn.expr) [
  | inl n ↦ absurd (cc (rw n at h))
  | inr (e, s) ↦ elim (Bool-cases insn.has_operand) [
    | inr b ↦ absurd (cc (rw (s, b) at h))
    | inl b ↦ let (v, r, o) = value_bytes-some _ _ (rw (s, b) at h) in (e, v, s, r, o)
  ]
]

no_operand-size :
    (mode : EmitMode) → has_no_operand mode ≡ true → opcode_size mode ≡ emit_mode_size mode
unfolding has_no_operand opcode_size emit_mode_size
no_operand-size implied h = refl
no_operand-size accumulator h = refl
no_operand-size mode h = cc

-- An instruction has as many bytes as the first pass has counted for its mode.
pub insn_bytes-length :
    (env : Env) (address : ℕ) (insn : Insn) {bytes : List ℕ}
    → insn_bytes env address insn ≡ some bytes
    → length bytes ≡ emit_mode_size insn.final_mode
unfolding insn_bytes
insn_bytes-length env address insn {bytes} h =
    let first = opcode_bytes env.opcodes insn.opcode insn.final_mode in
    let size = opcode_bytes-length env.opcodes insn.opcode insn.final_mode in
    elim (Bool-cases (has_no_operand insn.final_mode)) [
      | inl e ↦
          let h' : first ≡ some bytes = rw e at h in
          omega (arith, size bytes h', no_operand-size insn.final_mode e)
      | inr e ↦
          let at = address + opcode_size insn.final_mode in
          let h' : join first (operand_expr_bytes env insn at) ≡ some bytes = rw e at h in
          let (a, b, x, y, z) = join-some first (operand_expr_bytes env insn at) h' in
          let (ex, v, p, q, o) = operand_expr_bytes-some env insn at y in
          omega (
            arith,
            size a x,
            operand_bytes-length insn.final_mode at v o,
            ap length z,
            length-append a b,
          )
    ]
