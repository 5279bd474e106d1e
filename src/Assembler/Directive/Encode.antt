-- ===== src/Assembler/Directive/Encode.antt =====
-- The bytes of a directive, apart from the image, and that the second pass writes them.
use n.Prelude.{
  ℕ, zero, suc, ◌+◌, ◌≡◌, ◌≤◌, refl, ap, Option, none, some, List, [], ◌∷◌, length, replicate,
  arith,
}
use n.Prelude.Int.{ℤ, pos, negsuc, low_byte}
use n.Assembler.Expr.{Expr, expr_eval}
use n.Assembler.Emit.{Emitter, Env, emit_byte}
use n.Assembler.Emit.Writes.{Emits, join, seq-Emits, emit_byte-Emits, fail-Emits, done-Emits}
use n.Assembler.Emit.Encode.{value_bytes, word_of}
use n.Assembler.Emit.Encode.Correct.{
  eval_or_report-Emits, emit_word-Emits, value_bytes-some, some_inj,
}
use n.Assembler.Directive.{
  Directive, DirectiveKind, silent, org, byte, word, text, asciiz, res, unknown, directive_kind,
  decode_escaped_string, emit_byte_exprs, emit_word_exprs, emit_bytes, read_buf, emit_decoded,
  emit_string, emit_zeros, emit_res, emit_text, emit_asciiz, emit_kind, directive_emit_pass2,
}

abbrev value_at : Env → Expr → ℕ → (ℤ → Option (List ℕ)) → Option (List ℕ)
value_at env e at f = value_bytes (expr_eval e env.symbols env.scope env.file at) f

unfoldable pub byte_exprs : Env → ℕ → List Expr → Option (List ℕ)
byte_exprs env at [] = some []
byte_exprs env at (e ∷ exprs) =
    join (value_at env e at (λ v. some (low_byte v ∷ []))) (byte_exprs env (at + 1) exprs)

unfoldable pub word_exprs : Env → ℕ → List Expr → Option (List ℕ)
word_exprs env at [] = some []
word_exprs env at (e ∷ exprs) =
    join (value_at env e at (λ v. some (word_of v))) (word_exprs env (at + 2) exprs)

unfoldable pub zeros : ℤ → Option (List ℕ)
zeros (pos count) = some (replicate count 0)
zeros (negsuc count) = none

unfoldable pub res_bytes : Env → ℕ → List Expr → Option (List ℕ)
res_bytes env at [] = none
res_bytes env at (e ∷ []) = value_at env e at zeros
res_bytes env at (e ∷ e' ∷ exprs) = none

-- A string of at most 256 bytes, with what stands behind it.
unfoldable pub string_bytes : Option (List ℕ) → List ℕ → Option (List ℕ)
string_bytes none end = some end
string_bytes (some quoted) end = join (decode_escaped_string quoted) (some end)

unfoldable pub kind_bytes : Env → ℕ → Directive → DirectiveKind → Option (List ℕ)
kind_bytes env address dir silent = some []
kind_bytes env address dir org = some []
kind_bytes env address dir byte = byte_exprs env address dir.exprs
kind_bytes env address dir word = word_exprs env address dir.exprs
kind_bytes env address dir text = string_bytes dir.string []
kind_bytes env address dir asciiz = string_bytes dir.string (0 ∷ [])
kind_bytes env address dir res = res_bytes env address dir.exprs
kind_bytes env address dir unknown = none

unfoldable pub directive_bytes : Env → ℕ → Directive → Option (List ℕ)
directive_bytes env address dir = kind_bytes env address dir (directive_kind dir.name)

unfoldable pub decoded_length : Option (List ℕ) → ℕ
decoded_length none = 0
decoded_length (some bytes) = length bytes

-- The string of the directive, decoded, fits the buffer of the second pass.
abbrev pub FitsBuffer : Option (List ℕ) → Type 0
FitsBuffer none = Unit
FitsBuffer (some quoted) = decoded_length (decode_escaped_string quoted) ≤ 256

pub byte_value-length :
    (env : Env) (e : Expr) (at : ℕ) {bytes : List ℕ}
    → value_at env e at (λ v. some (low_byte v ∷ [])) ≡ some bytes
    → length bytes ≡ 1
byte_value-length env e at h =
    let (v, r, o) = value_bytes-some _ _ h in omega (arith, ap length (some_inj o))

pub word_value-length :
    (env : Env) (e : Expr) (at : ℕ) {bytes : List ℕ}
    → value_at env e at (λ v. some (word_of v)) ≡ some bytes
    → length bytes ≡ 2
word_value-length env e at h =
    let (v, r, o) = value_bytes-some _ _ h in
    unfold word_of in omega (arith, ap length (some_inj o))

pub emit_byte_exprs-Emits :
    (env : Env) (at : ℕ) (exprs : List Expr)
    → Emits (emit_byte_exprs env at exprs) at (byte_exprs env at exprs)
unfolding emit_byte_exprs byte_exprs
emit_byte_exprs-Emits env at [] = done-Emits at
emit_byte_exprs-Emits env at (e ∷ exprs) =
    seq-Emits _ _ at (at + 1) _ _
      (eval_or_report-Emits env e at (λ v. emit_byte at (low_byte v)) (λ v. some (low_byte v ∷ []))
        (λ v. emit_byte-Emits at (low_byte v)))
      (emit_byte_exprs-Emits env (at + 1) exprs)
      (λ bytes h. omega (arith, byte_value-length env e at h))

pub emit_word_exprs-Emits :
    (env : Env) (at : ℕ) (exprs : List Expr)
    → Emits (emit_word_exprs env at exprs) at (word_exprs env at exprs)
unfolding emit_word_exprs word_exprs
emit_word_exprs-Emits env at [] = done-Emits at
emit_word_exprs-Emits env at (e ∷ exprs) =
    seq-Emits _ _ at (at + 2) _ _
      (eval_or_report-Emits env e at _ (λ v. some (word_of v)) (λ v. emit_word-Emits at v))
      (emit_word_exprs-Emits env (at + 2) exprs)
      (λ bytes h. omega (arith, word_value-length env e at h))

emit_bytes-Emits : (at : ℕ) (bytes : List ℕ) → Emits (emit_bytes at bytes) at (some bytes)
unfolding emit_bytes
emit_bytes-Emits at [] = done-Emits at
emit_bytes-Emits at (b ∷ bytes) =
    seq-Emits _ _ at (at + 1) (some (b ∷ [])) (some bytes) (emit_byte-Emits at b)
      (emit_bytes-Emits (at + 1) bytes) (λ x h. omega (arith, ap length (some_inj h)))

read_buf_lem :
    (beyond : ℕ → ℕ) (bytes : List ℕ) (i room : ℕ)
    → length bytes ≤ room
    → read_buf beyond bytes i room ≡ bytes
unfolding read_buf
read_buf_lem beyond [] i room h = refl
read_buf_lem beyond (b ∷ bytes) i zero h = absurd (omega arith)
read_buf_lem beyond (b ∷ bytes) i (suc room) h =
    ap (λ t. b ∷ t) (read_buf_lem beyond bytes (i + 1) room (omega arith))

emit_decoded-Emits :
    (beyond : ℕ → ℕ) (at : ℕ) (decoded : Option (List ℕ)) (k : ℕ → Emitter) (end : List ℕ)
    → decoded_length decoded ≤ 256
    → ((e : ℕ) → Emits (k e) e (some end))
    → Emits (emit_decoded beyond at decoded k) at (join decoded (some end))
unfolding emit_decoded decoded_length
emit_decoded-Emits beyond at none k end fits h = fail-Emits at
emit_decoded-Emits beyond at (some bytes) k end fits h = rw (read_buf_lem beyond bytes 0 256 fits) (
    seq-Emits _ _ at (at + length bytes) (some bytes) (some end) (emit_bytes-Emits at bytes)
      (h (at + length bytes)) (λ x s. rw (some_inj s) refl))

emit_string-Emits :
    (beyond : ℕ → ℕ) (at : ℕ) (quoted : List ℕ) (k : ℕ → Emitter) (end : List ℕ)
    → FitsBuffer (some quoted)
    → ((e : ℕ) → Emits (k e) e (some end))
    → Emits (emit_string beyond at quoted k) at (join (decode_escaped_string quoted) (some end))
unfolding emit_string
emit_string-Emits beyond at quoted k end fits h =
    emit_decoded-Emits beyond at (decode_escaped_string quoted) k end fits h

emit_zeros-Emits : (at : ℕ) (v : ℤ) → Emits (emit_zeros at v) at (zeros v)
unfolding emit_zeros zeros
emit_zeros-Emits at (pos count) = emit_bytes-Emits at (replicate count 0)
emit_zeros-Emits at (negsuc count) = fail-Emits at

emit_res-Emits :
    (env : Env) (at : ℕ) (exprs : List Expr)
    → Emits (emit_res env at exprs) at (res_bytes env at exprs)
unfolding emit_res res_bytes
emit_res-Emits env at [] = fail-Emits at
emit_res-Emits env at (e ∷ []) =
    eval_or_report-Emits env e at (emit_zeros at) zeros (emit_zeros-Emits at)
emit_res-Emits env at (e ∷ e' ∷ exprs) = fail-Emits at

emit_text-Emits :
    (beyond : ℕ → ℕ) (at : ℕ) (string : Option (List ℕ))
    → FitsBuffer string
    → Emits (emit_text beyond at string) at (string_bytes string [])
unfolding emit_text string_bytes
emit_text-Emits beyond at none fits = done-Emits at
emit_text-Emits beyond at (some quoted) fits =
    emit_string-Emits beyond at quoted _ [] fits (λ e. done-Emits e)

emit_asciiz-Emits :
    (beyond : ℕ → ℕ) (at : ℕ) (string : Option (List ℕ))
    → FitsBuffer string
    → Emits (emit_asciiz beyond at string) at (string_bytes string (0 ∷ []))
unfolding emit_asciiz string_bytes
emit_asciiz-Emits beyond at none fits = emit_byte-Emits at 0
emit_asciiz-Emits beyond at (some quoted) fits =
    emit_string-Emits beyond at quoted _ (0 ∷ []) fits (λ e. emit_byte-Emits e 0)

emit_kind-Emits :
    (beyond : ℕ → ℕ) (env : Env) (address : ℕ) (dir : Directive) (kind : DirectiveKind)
    → FitsBuffer dir.string
    → Emits (emit_kind beyond env address dir kind) address (kind_bytes env address dir kind)
unfolding emit_kind kind_bytes
emit_kind-Emits beyond env address dir silent fits = done-Emits address
emit_kind-Emits beyond env address dir org fits = done-Emits address
emit_kind-Emits beyond env address dir byte fits = emit_byte_exprs-Emits env address dir.exprs
emit_kind-Emits beyond env address dir word fits = emit_word_exprs-Emits env address dir.exprs
emit_kind-Emits beyond env address dir text fits = emit_text-Emits beyond address dir.string fits
emit_kind-Emits beyond env address dir asciiz fits =
    emit_asciiz-Emits beyond address dir.string fits
emit_kind-Emits beyond env address dir res fits = emit_res-Emits env address dir.exprs
emit_kind-Emits beyond env address dir unknown fits = fail-Emits address

-- The second pass writes the bytes of the directive to its address if they fit into the image; if
-- it has none, or they do not fit, there is one error more.
pub directive_emit_pass2-Emits :
    (beyond : ℕ → ℕ) (env : Env) (address : ℕ) (dir : Directive)
    → FitsBuffer dir.string
    → Emits (directive_emit_pass2 beyond env address dir) address (directive_bytes env address dir)
unfolding directive_emit_pass2 directive_bytes
directive_emit_pass2-Emits beyond env address dir fits =
    emit_kind-Emits beyond env address dir (directive_kind dir.name) fits
