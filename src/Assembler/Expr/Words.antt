-- ===== src/Assembler/Expr/Words.antt =====
-- The operators < and > of the assembler.
use n.Prelude.{ℕ, ◌≡◌, refl, List}
use n.Prelude.Int.{ℤ, pos, low_byte, shr8}
use n.Assembler.Symtab.{Symtab}
use n.Assembler.Expr.{Expr, ok, unary, lo, hi, expr_eval, apply_unary}

-- The value of `<e` is the low byte of the value of `e`, that of `>e` the byte above it.
pub eval_lo :
    (e : Expr) (tab : Symtab) (scope file_scope : List ℕ) (at : ℕ) (v : ℤ)
    → expr_eval e tab scope file_scope at ≡ ok v
    → expr_eval (unary lo e) tab scope file_scope at ≡ ok (pos (low_byte v))
unfolding expr_eval apply_unary
eval_lo e tab scope file_scope at v h = rw h refl

pub eval_hi :
    (e : Expr) (tab : Symtab) (scope file_scope : List ℕ) (at : ℕ) (v : ℤ)
    → expr_eval e tab scope file_scope at ≡ ok v
    → expr_eval (unary hi e) tab scope file_scope at ≡ ok (pos (low_byte (shr8 v)))
unfolding expr_eval apply_unary
eval_hi e tab scope file_scope at v h = rw h refl
