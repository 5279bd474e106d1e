-- ===== src/Assembler/Expr.antt =====
-- assembler/expr.c: the expressions of the assembler and their evaluation. A value is a `long` of 64
-- bits; where the C code would leave its range the outcome is `overflow`, as the language leaves it
-- undefined. The pointers are taken as not NULL; the names of the scope and of the file too, which
-- every statement has.
pub mod Words
use n.Prelude.{
  ℕ, zero, suc, ◌==◌, ◌&&◌, Bool, true, false, Option, none, some, List, [], ◌∷◌, ◌++◌, codes, take,
  if◌then◌else◌,
}
use n.Prelude.Int.{ℤ, pos, negsuc, ◌+ℤ◌, ◌-ℤ◌, ◌*ℤ◌, quot_ℤ, in_long, low_byte, shr8, leb_ℤ}
use n.Assembler.Symtab.{Symbol, Symtab, symtab_find}

pub data UnaryOp : Type 0 where
  neg lo hi : UnaryOp

pub data BinaryOp : Type 0 where
  add sub mul div : BinaryOp

pub data Expr : Type 0 where
  number : ℤ → Expr
  ident : List ℕ → Expr
  charconst : ℕ → Expr
  pc : Expr
  unary : UnaryOp → Expr → Expr
  binary : BinaryOp → Expr → Expr → Expr

-- `expr_eval_status_t` with the value that is stored.
pub data Eval : Type 0 where
  ok : ℤ → Eval
  unresolved : Eval
  divzero : Eval
  overflow : Eval

abbrev pub and_then : Eval → (ℤ → Eval) → Eval
and_then (ok v) f = f v
and_then unresolved f = unresolved
and_then divzero f = divzero
and_then overflow f = overflow

-- What `snprintf` puts into a buffer of 4096 bytes for "%s::%s".
unfoldable pub scoped_name : List ℕ → List ℕ → List ℕ
scoped_name scope name = take 4095 (scope ++ codes "::" ++ name)

unfoldable pub is_local_name : List ℕ → Bool
is_local_name [] = false
is_local_name (c ∷ name) = c == b'@'

unfoldable pub is_empty : List ℕ → Bool
is_empty [] = true
is_empty (c ∷ name) = false

-- The last lines of `find_scoped_ident`.
unfoldable pub or_plain : Option Symbol → Symtab → List ℕ → Option Symbol
or_plain (some sym) tab name = some sym
or_plain none tab name = symtab_find tab name

unfoldable pub find_scoped_ident : Symtab → List ℕ → List ℕ → List ℕ → Option Symbol
find_scoped_ident tab scope file_scope name =
    if is_local_name name
    then symtab_find tab (scoped_name scope name)
    else if is_empty file_scope
    then symtab_find tab name
    else or_plain (symtab_find tab (scoped_name file_scope name)) tab name

unfoldable pub symbol_value : Option Symbol → Eval
symbol_value none = unresolved
symbol_value (some sym) = if sym.defined then ok sym.value else unresolved

-- A result of the arithmetic of `long`.
unfoldable pub long_result : ℤ → Eval
long_result v = if in_long v then ok v else overflow

unfoldable pub apply_unary : UnaryOp → ℤ → Eval
apply_unary neg v = long_result (pos 0 -ℤ v)
apply_unary lo v = ok (pos (low_byte v))
apply_unary hi v = ok (pos (low_byte (shr8 v)))

unfoldable pub divide : ℤ → ℤ → Eval
divide l (pos zero) = divzero
divide l (pos (suc r)) = long_result (quot_ℤ l (pos (suc r)))
divide l (negsuc r) = long_result (quot_ℤ l (negsuc r))

unfoldable pub apply_binary : BinaryOp → ℤ → ℤ → Eval
apply_binary add l r = long_result (l +ℤ r)
apply_binary sub l r = long_result (l -ℤ r)
apply_binary mul l r = long_result (l *ℤ r)
apply_binary div l r = divide l r

unfoldable pub expr_eval : Expr → Symtab → List ℕ → List ℕ → ℕ → Eval
expr_eval (number v) tab scope file_scope at = ok v
expr_eval (ident name) tab scope file_scope at =
    symbol_value (find_scoped_ident tab scope file_scope name)
expr_eval (charconst c) tab scope file_scope at = ok (pos c)
expr_eval pc tab scope file_scope at = ok (pos at)
expr_eval (unary op child) tab scope file_scope at =
    and_then (expr_eval child tab scope file_scope at) (apply_unary op)
expr_eval (binary op left right) tab scope file_scope at =
    and_then (expr_eval left tab scope file_scope at)
      (λ l. and_then (expr_eval right tab scope file_scope at) (λ r. apply_binary op l r))

unfoldable pub expr_is_byte_value : ℤ → Bool
expr_is_byte_value v = leb_ℤ (pos 0) v && leb_ℤ v (pos 0xff)
