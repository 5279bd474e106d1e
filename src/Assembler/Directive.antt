-- ===== src/Assembler/Directive.antt =====
-- assembler/directive.h and the directives of assembler/asm_pass.c: the bytes that they emit in the
-- second pass. The operands of a directive are a list; a string that is NULL is `none`.
pub mod Encode
pub mod Halves
use n.Prelude.{
  ℕ, zero, suc, ◌+◌, ◌-◌, Bool, true, false, ◌&&◌, ◌||◌, Option, none, some, List, [], ◌∷◌, ◌++◌,
  codes, str_eq, ltb, ◌==◌, if◌then◌else◌, length, take, drop, get_or, replicate,
}
use n.Prelude.Int.{ℤ, pos, negsuc, low_byte, low_word}
use n.Assembler.Expr.{Expr}
use n.Assembler.Emit.{Emitter, ◌>>◌, Env, done, fail, emit_byte, emit_word, eval_or_report}

-- `directive_info_t`, less the kind of its arguments, which only the printing reads.
pub record Directive : Type 0 where
  pub name : List ℕ
  pub string : Option (List ℕ)
  pub exprs : List Expr

unfoldable pub escaped : ℕ → ℕ
escaped c =
    if c == b'n'
    then 10
    else if c == b'r'
    then 13
    else if c == b't'
    then 9
    else if c == b'0'
    then 0
    else c

-- The loop, on the characters between the quotes. A backslash at their end stands for itself.
unfoldable pub decode_chars : List ℕ → List ℕ
unfolding escaped
decode_chars [] = []
decode_chars (c ∷ []) = c ∷ []
decode_chars (c ∷ d ∷ s) =
    let plain = c ∷ decode_chars (d ∷ s) in
    let escape = escaped d ∷ decode_chars s in if c == 92 then escape else plain

-- All the bytes that `*out_len` counts.
unfoldable pub decode_escaped_string : List ℕ → Option (List ℕ)
decode_escaped_string quoted =
    if ltb (length quoted) 2
    then none
    else if get_or quoted 0 0 == 34 && get_or quoted (length quoted - 1) 0 == 34
    then some (decode_chars (take (length quoted - 2) (drop 1 quoted)))
    else none

-- What the chain of `strcmp` tells apart.
pub data DirectiveKind : Type 0 where
  silent org byte word text asciiz res unknown : DirectiveKind

unfoldable pub is_silent : List ℕ → Bool
is_silent m =
    str_eq m (codes ".segment")
    || str_eq m (codes ".segmentdef")
    || str_eq m (codes ".global")
    || str_eq m (codes ".export")
    || str_eq m (codes ".import")
    || str_eq m (codes ".globalzp")
    || str_eq m (codes ".exportzp")
    || str_eq m (codes ".importzp")
    || str_eq m (codes ".zpglobal")
    || str_eq m (codes ".zpexport")
    || str_eq m (codes ".zpimport")
    || str_eq m (codes ".weak")
    || str_eq m (codes ".proc")
    || str_eq m (codes ".endproc")

unfoldable pub directive_kind : List ℕ → DirectiveKind
unfolding is_silent
directive_kind m =
    if is_silent m
    then silent
    else if str_eq m (codes ".org")
    then org
    else if str_eq m (codes ".byte")
    then byte
    else if str_eq m (codes ".word")
    then word
    else if str_eq m (codes ".text") || str_eq m (codes ".ascii")
    then text
    else if str_eq m (codes ".asciiz")
    then asciiz
    else if str_eq m (codes ".res")
    then res
    else unknown

-- The loops over `dir->exprs`.
unfoldable pub emit_byte_exprs : Env → ℕ → List Expr → Emitter
emit_byte_exprs env at [] = done
emit_byte_exprs env at (e ∷ exprs) =
    eval_or_report env e at (λ v. emit_byte at (low_byte v)) >> emit_byte_exprs env (at + 1) exprs

unfoldable pub emit_word_exprs : Env → ℕ → List Expr → Emitter
emit_word_exprs env at [] = done
emit_word_exprs env at (e ∷ exprs) =
    eval_or_report env e at (λ v. emit_word at (low_word v)) >> emit_word_exprs env (at + 2) exprs

unfoldable pub emit_bytes : ℕ → List ℕ → Emitter
emit_bytes at [] = done
emit_bytes at (b ∷ bytes) = emit_byte at b >> emit_bytes (at + 1) bytes

-- `buf[i]` for i below `len`: the buffer has 256 bytes, and `beyond` stands for the memory behind it.
unfoldable pub read_buf : (ℕ → ℕ) → List ℕ → ℕ → ℕ → List ℕ
read_buf beyond [] i room = []
read_buf beyond (b ∷ bytes) i zero = beyond i ∷ read_buf beyond bytes (i + 1) zero
read_buf beyond (b ∷ bytes) i (suc room) = b ∷ read_buf beyond bytes (i + 1) room

unfoldable pub emit_decoded : (ℕ → ℕ) → ℕ → Option (List ℕ) → (ℕ → Emitter) → Emitter
emit_decoded beyond at none k = fail
emit_decoded beyond at (some bytes) k =
    emit_bytes at (read_buf beyond bytes 0 256) >> k (at + length bytes)

unfoldable pub emit_string : (ℕ → ℕ) → ℕ → List ℕ → (ℕ → Emitter) → Emitter
emit_string beyond at quoted k = emit_decoded beyond at (decode_escaped_string quoted) k

unfoldable pub emit_zeros : ℕ → ℤ → Emitter
emit_zeros at (pos count) = emit_bytes at (replicate count 0)
emit_zeros at (negsuc count) = fail

unfoldable pub emit_res : Env → ℕ → List Expr → Emitter
emit_res env at [] = fail
emit_res env at (e ∷ []) = eval_or_report env e at (emit_zeros at)
emit_res env at (e ∷ e' ∷ exprs) = fail

unfoldable pub emit_text : (ℕ → ℕ) → ℕ → Option (List ℕ) → Emitter
emit_text beyond at none = done
emit_text beyond at (some quoted) = emit_string beyond at quoted (λ end. done)

unfoldable pub emit_asciiz : (ℕ → ℕ) → ℕ → Option (List ℕ) → Emitter
emit_asciiz beyond at none = emit_byte at 0
emit_asciiz beyond at (some quoted) = emit_string beyond at quoted (λ end. emit_byte end 0)

unfoldable pub emit_kind : (ℕ → ℕ) → Env → ℕ → Directive → DirectiveKind → Emitter
emit_kind beyond env address dir silent = done
emit_kind beyond env address dir org = done
emit_kind beyond env address dir byte = emit_byte_exprs env address dir.exprs
emit_kind beyond env address dir word = emit_word_exprs env address dir.exprs
emit_kind beyond env address dir text = emit_text beyond address dir.string
emit_kind beyond env address dir asciiz = emit_asciiz beyond address dir.string
emit_kind beyond env address dir res = emit_res env address dir.exprs
emit_kind beyond env address dir unknown = fail

unfoldable pub directive_emit_pass2 : (ℕ → ℕ) → Env → ℕ → Directive → Emitter
directive_emit_pass2 beyond env address dir =
    emit_kind beyond env address dir (directive_kind dir.name)
