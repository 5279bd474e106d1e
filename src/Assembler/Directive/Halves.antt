-- ===== src/Assembler/Directive/Halves.antt =====
-- The operators < and > in assembler/asm_pass.c: a word by its two bytes.
use n.Prelude.{
  ℕ, ◌+◌, ◌-◌, ◌≡◌, refl, ap, ◌∙◌, sym, ◌⊎◌, inl, inr, Bool, true, codes, str_eq, Option, none,
  some, List, [], ◌∷◌, length, arith,
}
use n.Prelude.Int.{low_byte, shr8, low_byte-word}
use n.Assembler.Symtab.{Symtab}
use n.Assembler.Expr.{
  Expr, number, ident, charconst, pc, unary, binary, lo, hi, Eval, ok, unresolved, divzero,
  overflow, and_then, apply_unary, expr_eval,
}
use mathlib.Core.Path.{subst}
use native.Mathlib.Decide.{dec_lt}
use n.Assembler.Image.{ihex_max_addr}
use n.Assembler.Emit.{Output, Emitter, Env}
use n.Assembler.Emit.Writes.{Emits, Failed, join}
use n.Assembler.Emit.Encode.{value_bytes, word_of}
use n.Assembler.Directive.{
  Directive, directive_kind, is_silent, emit_byte_exprs, emit_kind, directive_emit_pass2,
}
use n.Assembler.Directive.Encode.{
  byte_exprs, word_exprs, emit_byte_exprs-Emits, emit_word_exprs-Emits,
}

-- The place of an expression matters only to `*`.
abbrev pub HasNoPc : Expr → Type 0
HasNoPc (number v) = Unit
HasNoPc (ident name) = Unit
HasNoPc (charconst c) = Unit
HasNoPc pc = ⊥
HasNoPc (unary op e) = HasNoPc e
HasNoPc (binary op l r) = HasNoPc l × HasNoPc r

expr_eval-place :
    (e : Expr) (tab : Symtab) (scope file_scope : List ℕ) (a b : ℕ)
    → HasNoPc e
    → expr_eval e tab scope file_scope a ≡ expr_eval e tab scope file_scope b
unfolding expr_eval
expr_eval-place (number v) tab scope file_scope a b h = refl
expr_eval-place (ident name) tab scope file_scope a b h = refl
expr_eval-place (charconst c) tab scope file_scope a b h = refl
expr_eval-place pc tab scope file_scope a b h = absurd h
expr_eval-place (unary op e) tab scope file_scope a b h =
    rw (expr_eval-place e tab scope file_scope a b h) refl
expr_eval-place (binary op l r) tab scope file_scope a b h =
    rw
      (
        expr_eval-place l tab scope file_scope a b h.0,
        expr_eval-place r tab scope file_scope a b h.1,
      )
      refl

low_high :
    (r : Eval)
    → join
        (value_bytes (and_then r (apply_unary lo)) (λ v. some (low_byte v ∷ [])))
        (join (value_bytes (and_then r (apply_unary hi)) (λ v. some (low_byte v ∷ []))) (some []))
      ≡ join (value_bytes r (λ v. some (word_of v))) (some [])
unfolding value_bytes apply_unary word_of
low_high (ok v) = rw (low_byte-word v, low_byte-word (shr8 v)) refl
low_high unresolved = refl
low_high divzero = refl
low_high overflow = refl

byte_exprs-lo_hi :
    (env : Env) (address : ℕ) (e : Expr)
    → HasNoPc e
    → byte_exprs env address (unary lo e ∷ unary hi e ∷ []) ≡ word_exprs env address (e ∷ [])
unfolding byte_exprs word_exprs expr_eval
byte_exprs-lo_hi env address e h =
    rw (expr_eval-place e env.symbols env.scope env.file (address + 1) address h)
      (low_high (expr_eval e env.symbols env.scope env.file address))

-- Two outcomes of one output: the same and without an error, or an error more in both.
abbrev pub SameOutcome : Output × Bool → Output × Bool → Output → Type 0
SameOutcome r s out = ((r ≡ s) × (r.1 ≡ true)) ⊎ (Failed r out × Failed s out)

-- Operations that emit the same bytes have the same outcomes.
Emits-SameOutcome :
    (m k : Emitter) (at : ℕ) (x : Option (List ℕ)) (out : Output)
    → Emits m at x
    → Emits k at x
    → SameOutcome (m out) (k out) out
Emits-SameOutcome m k at none out h g = inr (h out, g out)
Emits-SameOutcome m k at (some bytes) out h g = elim (dec_lt (ihex_max_addr - at) (length bytes)) [
  | yes far ↦ inr (h.1 out far, g.1 out far)
  | no near ↦
      let one = h.0 out (omega arith) in
      let two = g.0 out (omega arith) in inl (one ∙ sym two, ap (λ (r : Output × Bool). r.1) one)
]

abbrev bytes_directive : List Expr → Directive
bytes_directive exprs = record { name = codes ".byte"; string = none; exprs = exprs }

abbrev words_directive : List Expr → Directive
words_directive exprs = record { name = codes ".word"; string = none; exprs = exprs }

-- For an expression without *, the second pass makes of `.byte <e, >e` and of `.word e` at one
-- address the same image with no error, or reports one error more for each and does not go on.
pub directive_emit_pass2-lo_hi :
    (beyond : ℕ → ℕ) (env : Env) (address : ℕ) (e : Expr) (out : Output)
    → HasNoPc e
    → SameOutcome
        (directive_emit_pass2 beyond env address
          (bytes_directive (unary lo e ∷ unary hi e ∷ []))
          out)
        (directive_emit_pass2 beyond env address (words_directive (e ∷ [])) out)
        out
unfolding directive_emit_pass2 directive_kind is_silent str_eq emit_kind
directive_emit_pass2-lo_hi beyond env address e out h =
    Emits-SameOutcome _ _ address (word_exprs env address (e ∷ [])) out
      (subst (Emits (emit_byte_exprs env address (unary lo e ∷ unary hi e ∷ [])) address)
        (byte_exprs-lo_hi env address e h)
        (emit_byte_exprs-Emits env address (unary lo e ∷ unary hi e ∷ [])))
      (emit_word_exprs-Emits env address (e ∷ []))
