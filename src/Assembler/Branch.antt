-- ===== src/Assembler/Branch.antt =====
-- The conditional branches of the 6502 as the processor runs them, and those that the assembler
-- emits, short or over a jump.
use n.Prelude.{
  ℕ, zero, suc, ◌+◌, ◌-◌, ◌*◌, ◌/◌, ◌%◌, ◌≡◌, ◌<◌, ◌⊎◌, refl, ◌∙◌, sym, ap, inl, inr, Bool, true,
  false, not, some, List, [], ◌∷◌, ◌++◌, codes, str_eq, ltb, ◌==◌, if◌then◌else◌, length, arith,
}
use n.Prelude.Int.{pos, ◌-ℤ◌, low_byte, shr8}
use n.Assembler.Expr.{Expr, ok, expr_eval}
use n.Assembler.Opcode.{
  EmitMode, rel, rel_long, abs, opcode_lookup, opcode_invert_branch, emit_mode_size,
}
use n.Assembler.Modes.{Insn}
use n.Assembler.Emit.{Output, Env, in_branch_range, opcode_size, has_no_operand, insn_emit_pass2}
use n.Assembler.Emit.Writes.{written, join, Emits-done}
use n.Assembler.Emit.Encode.{
  byte_if, word_of, found_byte, opcode_bytes, operand_bytes, operand_expr_bytes, insn_bytes,
}
use n.Assembler.Emit.Encode.Correct.{
  join-some, some_inj, operand_expr_bytes-some, insn_bytes-length, insn_emit_pass2-Emits,
}

-- The flags that a branch looks at: negative, overflow, carry and zero.
pub record Flags : Type 0 where
  pub flag_n : Bool
  pub flag_v : Bool
  pub flag_c : Bool
  pub flag_z : Bool

-- The conditions, by the last two letters of the mnemonic.
pub data Condition : Type 0 where
  cc_ cs eq mi ne pl vc vs : Condition

unfoldable pub mnemonic : Condition → List ℕ
mnemonic cc_ = codes "BCC"
mnemonic cs = codes "BCS"
mnemonic eq = codes "BEQ"
mnemonic mi = codes "BMI"
mnemonic ne = codes "BNE"
mnemonic pl = codes "BPL"
mnemonic vc = codes "BVC"
mnemonic vs = codes "BVS"

unfoldable pub holds : Condition → Flags → Bool
holds cc_ f = not f.flag_c
holds cs f = f.flag_c
holds eq f = f.flag_z
holds mi f = f.flag_n
holds ne f = not f.flag_z
holds pl f = not f.flag_n
holds vc f = not f.flag_v
holds vs f = f.flag_v

-- The opcode xxy10000 branches if the flag xx is y.
unfoldable pub branch_flag : ℕ → Flags → Bool
branch_flag zero f = f.flag_n
branch_flag (suc zero) f = f.flag_v
branch_flag (suc (suc zero)) f = f.flag_c
branch_flag (suc (suc (suc k))) f = f.flag_z

unfoldable pub takes : ℕ → Flags → Bool
takes op f = if op / 32 % 2 == 1 then branch_flag (op / 64) f else not (branch_flag (op / 64) f)

-- A distance is a signed byte, and an address has 16 bits.
unfoldable pub target : ℕ → ℕ → ℕ
target next d = if ltb d 128 then (next + d) % 65536 else (next + d + 65536 - 256) % 65536

unfoldable pub jump_target : ℕ → ℕ → List ℕ → ℕ
jump_target at lo [] = at
jump_target at lo (hi ∷ code) = lo + 256 * hi

-- Where the processor goes from branches and jumps at an address: out of the code by a branch that
-- is taken or by a jump, or to its end.
unfoldable pub follow : Flags → ℕ → List ℕ → ℕ
follow f at [] = at % 65536
follow f at (op ∷ []) = at
follow f at (op ∷ d ∷ code) =
    let rest = follow f (at + 2) code in
    if op % 32 == 16
    then (if takes op f then target (at + 2) d else rest)
    else jump_target at d code

-- The documented opcode of a branch.
unfoldable pub documented : Condition → ℕ
documented cc_ = 0x90
documented cs = 0xb0
documented eq = 0xf0
documented mi = 0x30
documented ne = 0xd0
documented pl = 0x10
documented vc = 0x50
documented vs = 0x70

documented-takes : (c : Condition) (f : Flags) → takes (documented c) f ≡ holds c f
unfolding takes documented holds branch_flag
documented-takes cc_ f = refl
documented-takes cs f = refl
documented-takes eq f = refl
documented-takes mi f = refl
documented-takes ne f = refl
documented-takes pl f = refl
documented-takes vc f = refl
documented-takes vs f = refl

documented-IsBranch : (c : Condition) → (documented c % 32 == 16) ≡ true
unfolding documented
documented-IsBranch cc_ = refl
documented-IsBranch cs = refl
documented-IsBranch eq = refl
documented-IsBranch mi = refl
documented-IsBranch ne = refl
documented-IsBranch pl = refl
documented-IsBranch vc = refl
documented-IsBranch vs = refl

-- The inverse branch is one that goes when the condition does not hold.
inverse :
    (c : Condition)
    → (op : ℕ) × (opcode_invert_branch (mnemonic c) ≡ some op)
      × ((op % 32 == 16) ≡ true)
      × ((f : Flags) → takes op f ≡ not (holds c f))
unfolding opcode_invert_branch mnemonic str_eq takes holds branch_flag
inverse cc_ = (0xb0, refl, refl, λ f. ground arith)
inverse cs = (0x90, refl, refl, λ f. ground arith)
inverse eq = (0xd0, refl, refl, λ f. ground arith)
inverse mi = (0x10, refl, refl, λ f. ground arith)
inverse ne = (0xf0, refl, refl, λ f. ground arith)
inverse pl = (0x30, refl, refl, λ f. ground arith)
inverse vc = (0x70, refl, refl, λ f. ground arith)
inverse vs = (0x50, refl, refl, λ f. ground arith)

-- The distance in range, as a signed byte, leads to the target.
short_target :
    (t next : ℕ)
    → t < 65536
    → in_branch_range (pos t -ℤ pos next) ≡ true
    → target next (low_byte (pos t -ℤ pos next)) ≡ t
unfolding in_branch_range target low_byte ◌-ℤ◌
short_target t next h r = ground arith

long_word : (t : ℕ) → t < 65536 → low_byte (pos t) + 256 * low_byte (shr8 (pos t)) ≡ t
unfolding low_byte shr8
long_word t h = omega arith

byte_if-some :
    (t : Bool) (b : ℕ) {bytes : List ℕ} → byte_if t b ≡ some bytes → (t ≡ true) × (bytes ≡ b ∷ [])
unfolding byte_if
byte_if-some true b h = (refl, cc)
byte_if-some false b h = cc

-- The short form: an opcode that goes on the condition, and a distance.
short_follow :
    (f : Flags) (op d at : ℕ) (taken : Bool)
    → (op % 32 == 16) ≡ true
    → takes op f ≡ taken
    → follow f at (op ∷ d ∷ []) ≡ (if taken then target (at + 2) d else (at + 2) % 65536)
unfolding follow
short_follow f op d at taken b k = rw (b, k) refl

-- The long form: the inverse branch over a jump.
long_follow :
    (f : Flags) (op lo hi at : ℕ) (taken : Bool)
    → (op % 32 == 16) ≡ true
    → takes op f ≡ not taken
    → follow f at (op ∷ 3 ∷ 0x4c ∷ lo ∷ hi ∷ [])
      ≡ (if taken then lo + 256 * hi else (at + 5) % 65536)
unfolding follow target jump_target
long_follow f op lo hi at true b k = rw (b, k) refl
long_follow f op lo hi at false b k = rw (b, k) (omega arith)

module _ (f : Flags) (c : Condition) (env : Env) (address t : ℕ) (insn : Insn) (e : Expr)
    (named : insn.opcode ≡ mnemonic c) (shape : insn.expr ≡ some e) (small : t < 65536) where
  operand_at :
      (at : ℕ) (bytes : List ℕ)
      → expr_eval e env.symbols env.scope env.file at ≡ ok (pos t)
      → operand_expr_bytes env insn at ≡ some bytes
      → operand_bytes insn.final_mode at (pos t) ≡ some bytes
  operand_at at bytes value h =
      let (e', v, s, r, o) = operand_expr_bytes-some env insn at h in
      let same : e' ≡ e = cc in
      let same_v : v ≡ pos t = cc (ap (λ x. expr_eval x env.symbols env.scope env.file at) same) in
      rw (← same_v) o

  parts :
      (m : EmitMode) (bytes : List ℕ)
      → insn.final_mode ≡ m
      → has_no_operand m ≡ false
      → expr_eval e env.symbols env.scope env.file (address + opcode_size m) ≡ ok (pos t)
      → insn_bytes env address insn ≡ some bytes
      → (a : List ℕ) × (b : List ℕ) × (opcode_bytes env.opcodes (mnemonic c) m ≡ some a)
        × (operand_bytes m (address + opcode_size m) (pos t) ≡ some b)
        × (bytes ≡ a ++ b)
  parts m bytes mode operand value h =
      let at = address + opcode_size m in
      let all : insn_bytes env address insn
          ≡ join (opcode_bytes env.opcodes (mnemonic c) m) (operand_expr_bytes env insn at) =
        unfold insn_bytes in simp (mode, named, operand) in
      let (a, b, x, y, z) = join-some _ _ (sym all ∙ h) in
      (a, b, x, rw mode at (operand_at at b value y), z)

  short_branch :
      (bytes : List ℕ)
      → insn.final_mode ≡ rel
      → opcode_lookup env.opcodes (mnemonic c) rel ≡ some (documented c)
      → expr_eval e env.symbols env.scope env.file (address + 1) ≡ ok (pos t)
      → insn_bytes env address insn ≡ some bytes
      → follow f address bytes ≡ (if holds c f then t else (address + length bytes) % 65536)
  unfolding has_no_operand opcode_size
  short_branch bytes mode table value h =
      let (a, b, x, y, z) = parts rel bytes mode refl value h in
      let a_is : documented c ∷ [] ≡ a =
        unfold opcode_bytes found_byte in some_inj (rw table at x) in
      let y' : byte_if (in_branch_range (pos t -ℤ pos (address + 1 + 1)))
            (low_byte (pos t -ℤ pos (address + 1 + 1)))
          ≡ some b =
        unfold operand_bytes in y in
      let (range, b_is) =
        byte_if-some (in_branch_range (pos t -ℤ pos (address + 1 + 1)))
          (low_byte (pos t -ℤ pos (address + 1 + 1))) y' in
      let d = low_byte (pos t -ℤ pos (address + 1 + 1)) in
      let two : address + 1 + 1 ≡ address + 2 = omega arith in
      let hit : target (address + 2) d ≡ t =
        ap (λ (k : ℕ). target k d) (sym two) ∙ short_target t (address + 1 + 1) small range in
      let whole : bytes ≡ documented c ∷ d ∷ [] =
        z ∙ rw (← a_is) (ap (λ w. documented c ∷ w) b_is) in
      rw whole (
        short_follow f (documented c) d address (holds c f) (documented-IsBranch c)
          (documented-takes c f)
        ∙ rw hit refl)

  long_branch :
      (bytes : List ℕ)
      → insn.final_mode ≡ rel_long
      → opcode_lookup env.opcodes (codes "JMP") abs ≡ some 0x4c
      → expr_eval e env.symbols env.scope env.file (address + 3) ≡ ok (pos t)
      → insn_bytes env address insn ≡ some bytes
      → follow f address bytes ≡ (if holds c f then t else (address + length bytes) % 65536)
  unfolding has_no_operand opcode_size
  long_branch bytes mode table value h =
      let (a, b, x, y, z) = parts rel_long bytes mode refl value h in
      let (op, inv, goes, flips) = inverse c in
      let a_is : op ∷ 3 ∷ 0x4c ∷ [] ≡ a =
        unfold opcode_bytes found_byte in some_inj (rw (inv, table) at x) in
      let b_is : word_of (pos t) ≡ b = unfold operand_bytes in some_inj y in
      let lo = low_byte (pos t) in
      let hi = low_byte (shr8 (pos t)) in
      let whole : bytes ≡ op ∷ 3 ∷ 0x4c ∷ lo ∷ hi ∷ [] =
        z ∙ rw (← a_is, ← b_is) (unfold word_of in refl) in
      rw whole
        (long_follow f op lo hi address (holds c f) goes (flips f) ∙ rw (long_word t small) refl)

branch_bytes-follow :
    (f : Flags) (c : Condition) (env : Env) (address t : ℕ) (insn : Insn) (e : Expr)
    (bytes : List ℕ)
    → insn.opcode ≡ mnemonic c
    → insn.expr ≡ some e
    → t < 65536
    → (insn.final_mode ≡ rel) ⊎ (insn.final_mode ≡ rel_long)
    → opcode_lookup env.opcodes (mnemonic c) rel ≡ some (documented c)
    → opcode_lookup env.opcodes (codes "JMP") abs ≡ some 0x4c
    → expr_eval e env.symbols env.scope env.file (address + opcode_size insn.final_mode)
      ≡ ok (pos t)
    → insn_bytes env address insn ≡ some bytes
    → follow f address bytes ≡ (if holds c f then t else (address + length bytes) % 65536)
branch_bytes-follow f c env address t insn e bytes named shape small (inl mode) table jump value h =
    short_branch f c env address t insn e named shape small bytes mode table
      (rw (let one : opcode_size insn.final_mode ≡ 1 = unfold opcode_size in rw mode refl in one) at
        value)
      h
branch_bytes-follow f c env address t insn e bytes named shape small (inr mode) table jump value h =
    long_branch f c env address t insn e named shape small bytes mode jump
      (rw
        (let three : opcode_size insn.final_mode ≡ 3 = unfold opcode_size in rw mode refl in three)
        at value)
      h

-- If the second pass goes on after a conditional branch, in its short form or as the inverse
-- branch over a jump, it has written bytes to the branch's address, as many as its form has, that
-- take the processor to the value of the operand if the condition of the mnemonic holds, and else
-- behind the last of them; if the operand is an address of 16 bits, the opcodes of the branch and
-- of JMP are the documented ones, and the operand has the value at the operand's place.
pub emitted_branch :
    (f : Flags) (c : Condition) (env : Env) (address t : ℕ) (insn : Insn) (e : Expr) (out : Output)
    → insn.opcode ≡ mnemonic c
    → insn.expr ≡ some e
    → t < 65536
    → (insn.final_mode ≡ rel) ⊎ (insn.final_mode ≡ rel_long)
    → opcode_lookup env.opcodes (mnemonic c) rel ≡ some (documented c)
    → opcode_lookup env.opcodes (codes "JMP") abs ≡ some 0x4c
    → expr_eval e env.symbols env.scope env.file (address + opcode_size insn.final_mode)
      ≡ ok (pos t)
    → (insn_emit_pass2 env address insn out).1 ≡ true
    → (bytes : List ℕ) × (insn_emit_pass2 env address insn out ≡ (written out address bytes, true))
      × (length bytes ≡ emit_mode_size insn.final_mode)
      × (follow f address bytes ≡ (if holds c f then t else (address + length bytes) % 65536))
emitted_branch f c env address t insn e out named shape small form table jump value on =
    let (bytes, own, done) =
      Emits-done (insn_emit_pass2 env address insn) address (insn_bytes env address insn) out
        (insn_emit_pass2-Emits env address insn) on in
    (
      bytes,
      done,
      insn_bytes-length env address insn own,
      branch_bytes-follow f c env address t insn e bytes named shape small form table jump value
          own,
    )
