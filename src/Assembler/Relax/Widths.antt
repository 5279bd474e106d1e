-- ===== src/Assembler/Relax/Widths.antt =====
-- The width of a statement: how far the first pass moves on, and how many bytes the second writes.
use mathlib.Core.Path.{subst}
use n.Prelude.{
  ℕ, ◌+◌, ◌*◌, ◌≡◌, ◌∙◌, sym, ap, Option, none, some, List, [], ◌∷◌, length, length-append,
  length-replicate, arith,
}
use n.Prelude.Int.{pos}
use n.Assembler.Expr.{Expr, number, expr_eval}
use n.Assembler.Opcode.{emit_mode_size}
use n.Assembler.Emit.{Env}
use n.Assembler.Emit.Encode.{insn_bytes, value_bytes}
use n.Assembler.Emit.Encode.Correct.{insn_bytes-length, join-some, some_inj}
use n.Assembler.Directive.{
  Directive, DirectiveKind, silent, org, byte, word, text, asciiz, res, unknown, directive_kind,
  decode_escaped_string,
}
use n.Assembler.Directive.Encode.{
  byte_exprs, word_exprs, zeros, res_bytes, string_bytes, kind_bytes, directive_bytes,
  byte_value-length, word_value-length,
}
use n.Assembler.State.{Body, insn, dir, label_only, const}

-- The bytes of a statement.
unfoldable pub body_bytes : Env → ℕ → Body → Option (List ℕ)
body_bytes env address (insn i) = insn_bytes env address i
body_bytes env address (dir d) = directive_bytes env address d
body_bytes env address label_only = some []
body_bytes env address (const name e) = some []

-- No `.org`, and the count of a `.res` is a number.
abbrev pub SimpleKind : DirectiveKind → List Expr → Type 0
SimpleKind silent exprs = Unit
SimpleKind org exprs = ⊥
SimpleKind byte exprs = Unit
SimpleKind word exprs = Unit
SimpleKind text exprs = Unit
SimpleKind asciiz exprs = Unit
SimpleKind res exprs = (count : ℕ) × (exprs ≡ number (pos count) ∷ [])
SimpleKind unknown exprs = Unit

abbrev pub Simple : Body → Type 0
Simple (insn i) = i.size ≡ emit_mode_size i.final_mode
Simple (dir d) = SimpleKind (directive_kind d.name) d.exprs
Simple label_only = Unit
Simple (const name e) = Unit

unfoldable pub decoded_width : ℕ → Option (List ℕ) → ℕ
decoded_width more none = 0
decoded_width more (some bytes) = length bytes + more

unfoldable pub string_width : ℕ → Option (List ℕ) → ℕ
unfolding decoded_width
string_width more none = more
string_width more (some quoted) = decoded_width more (decode_escaped_string quoted)

unfoldable pub res_width : List Expr → ℕ
res_width (number (pos count) ∷ []) = count
res_width exprs = 0

unfoldable pub kind_width : Directive → DirectiveKind → ℕ
unfolding string_width res_width
kind_width d silent = 0
kind_width d org = 0
kind_width d byte = length d.exprs
kind_width d word = length d.exprs * 2
kind_width d text = string_width 0 d.string
kind_width d asciiz = string_width 1 d.string
kind_width d res = res_width d.exprs
kind_width d unknown = 0

unfoldable pub width : Body → ℕ
width (insn i) = i.size
width (dir d) = kind_width d (directive_kind d.name)
width label_only = 0
width (const name e) = 0

byte_exprs-length :
    (env : Env) (at : ℕ) (exprs : List Expr) (bytes : List ℕ)
    → byte_exprs env at exprs ≡ some bytes
    → length bytes ≡ length exprs
unfolding byte_exprs
byte_exprs-length env at [] bytes h = omega (arith, ap length (some_inj h))
byte_exprs-length env at (e ∷ exprs) bytes h =
    let (a, b, x, y, z) = join-some _ _ h in
    omega (
      arith,
      byte_value-length env e at x,
      byte_exprs-length env (at + 1) exprs b y,
      ap length z,
      length-append a b,
    )

word_exprs-length :
    (env : Env) (at : ℕ) (exprs : List Expr) (bytes : List ℕ)
    → word_exprs env at exprs ≡ some bytes
    → length bytes ≡ length exprs * 2
unfolding word_exprs
word_exprs-length env at [] bytes h = omega (arith, ap length (some_inj h))
word_exprs-length env at (e ∷ exprs) bytes h =
    let (a, b, x, y, z) = join-some _ _ h in
    omega (
      arith,
      word_value-length env e at x,
      word_exprs-length env (at + 2) exprs b y,
      ap length z,
      length-append a b,
    )

string_bytes-length :
    (string : Option (List ℕ)) (end bytes : List ℕ)
    → string_bytes string end ≡ some bytes
    → length bytes ≡ string_width (length end) string
unfolding string_bytes string_width
string_bytes-length none end bytes h = omega (arith, ap length (some_inj h))
string_bytes-length (some quoted) end bytes h =
    let (a, b, x, y, z) = join-some (decode_escaped_string quoted) (some end) h in
    unfold decoded_width in
    rw x (omega (arith, ap length z, length-append a b, ap length (some_inj y)))

res_bytes-length :
    (env : Env) (address count : ℕ) (bytes : List ℕ)
    → res_bytes env address (number (pos count) ∷ []) ≡ some bytes
    → length bytes ≡ res_width (number (pos count) ∷ [])
unfolding res_bytes expr_eval value_bytes zeros res_width
res_bytes-length env address count bytes h =
    omega (arith, ap length (some_inj h), length-replicate {A = ℕ} count 0)

kind_bytes-length :
    (env : Env) (address : ℕ) (d : Directive) (kind : DirectiveKind) (bytes : List ℕ)
    → SimpleKind kind d.exprs
    → kind_bytes env address d kind ≡ some bytes
    → length bytes ≡ kind_width d kind
unfolding kind_bytes kind_width
kind_bytes-length env address d silent bytes s h = omega (arith, ap length (some_inj h))
kind_bytes-length env address d org bytes s h = absurd s
kind_bytes-length env address d byte bytes s h = byte_exprs-length env address d.exprs bytes h
kind_bytes-length env address d word bytes s h = word_exprs-length env address d.exprs bytes h
kind_bytes-length env address d text bytes s h = string_bytes-length d.string [] bytes h
kind_bytes-length env address d asciiz bytes s h = string_bytes-length d.string (0 ∷ []) bytes h
kind_bytes-length env address d res bytes s h =
    subst
      (λ (exprs : List Expr).
        res_bytes env address exprs ≡ some bytes → length bytes ≡ res_width exprs)
      (sym s.1) (res_bytes-length env address s.0 bytes) h
kind_bytes-length env address d unknown bytes s h = absurd (cc h)

-- The bytes of a statement are as many as its width.
pub body_bytes-length :
    (env : Env) (address : ℕ) (b : Body) (bytes : List ℕ)
    → Simple b
    → body_bytes env address b ≡ some bytes
    → length bytes ≡ width b
unfolding body_bytes width directive_bytes
body_bytes-length env address (insn i) bytes s h = insn_bytes-length env address i h ∙ sym s
body_bytes-length env address (dir d) bytes s h =
    kind_bytes-length env address d (directive_kind d.name) bytes s h
body_bytes-length env address label_only bytes s h = omega (arith, ap length (some_inj h))
body_bytes-length env address (const name e) bytes s h = omega (arith, ap length (some_inj h))
