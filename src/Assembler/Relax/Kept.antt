-- ===== src/Assembler/Relax/Kept.antt =====
-- No statement of a segment overwrites another.
use mathlib.Core.Path.{subst}
use n.Prelude.{
  ℕ, zero, suc, ◌+◌, ◌-◌, ◌≡◌, ◌≤◌, ◌<◌, refl, ◌∙◌, sym, inl, inr, Option, none, some, List, [],
  ◌∷◌, map, str_eq_iff, length, get_elem?, arith,
}
use n.Linker.Image.Hex.{loaded}
use n.Assembler.Symtab.{Symtab}
use n.Assembler.Opcode.{OpcodeEntry}
use n.Assembler.Image.{dump_records}
use n.Assembler.Image.Contents.{block_byte}
use n.Assembler.State.{Stmt, Context}
use n.Assembler.Layout.{place_stmt, place_loop, begin_pass1, asm_pass1}
use n.Assembler.Relax.{stmt_env, asm_pass2}
use n.Assembler.Relax.Widths.{Simple, body_bytes, body_bytes-length}
use n.Assembler.Relax.Sizes.{place_stmt-kept}
use n.Assembler.Relax.Places.{Behind, InOrder, AllKnown, AllSimple, place_loop-InOrder}
use n.Assembler.Relax.Program.{
  Part, AllFit, cons_part-some, checked-some, program_parts, part_byte, asm_pass2-loaded,
}

-- What a memory has at some addresses in a row.
unfoldable pub read_block : (ℕ → Option ℕ) → ℕ → ℕ → List (Option ℕ)
read_block memory at zero = []
read_block memory at (suc count) = memory at ∷ read_block memory (at + 1) count

-- All statements are in one segment.
abbrev pub AllIn : List ℕ → List Stmt → Type 0
AllIn name [] = Unit
AllIn name (s ∷ stmts) = (s.segment ≡ name) × AllIn name stmts

-- The memory has the bytes of each statement at its address.
abbrev pub AllRead : List OpcodeEntry → Symtab → (ℕ → Option ℕ) → List Stmt → Type 0
AllRead opcodes symbols memory [] = Unit
AllRead opcodes symbols memory (s ∷ stmts) =
    ((bytes : List ℕ) × (body_bytes (stmt_env opcodes symbols s) s.address s.body ≡ some bytes)
      × (read_block memory s.address (length bytes) ≡ map some bytes))
    × AllRead opcodes symbols memory stmts

-- All parts begin at a place or behind it.
abbrev PartsBehind : ℕ → List Part → Type 0
PartsBehind place [] = Unit
PartsBehind place ((at, bytes) ∷ parts) = (place ≤ at) × PartsBehind place parts

before_parts :
    (parts : List Part) (place j : ℕ)
    → PartsBehind place parts
    → j < place
    → part_byte parts j ≡ none
unfolding part_byte block_byte
before_parts [] place j h lt = refl
before_parts ((at, bytes) ∷ parts) place j h lt = ground (arith, before_parts parts place j h.1)

parts_behind :
    (opcodes : List OpcodeEntry) (symbols : Symtab) (name : List ℕ) (place : ℕ) (stmts : List Stmt)
    (parts : List Part)
    → AllIn name stmts
    → Behind name place stmts
    → program_parts opcodes symbols stmts ≡ some parts
    → PartsBehind place parts
unfolding program_parts
parts_behind opcodes symbols name place [] parts i b h =
    let nil : [] ≡ parts = cc in subst (PartsBehind place) nil tt
parts_behind opcodes symbols name place (s ∷ stmts) parts i b h =
    let (bytes, rest, x, y, z) = cons_part-some s.address _ _ h in
    let here : place ≤ s.address = elim b.0 [
      | inl e ↦ absurd (cc (e, (str_eq_iff s.segment name).1 i.0))
      | inr l ↦ l
    ] in
    subst (PartsBehind place) (sym z)
      (here, parts_behind opcodes symbols name place stmts rest i.1 b.1 y)

-- A memory that has at least the bytes of the parts.
abbrev Holds : (ℕ → Option ℕ) → List Part → Type 0
Holds memory parts = (j v : ℕ) → part_byte parts j ≡ some v → memory j ≡ some v

first_read :
    (memory : ℕ → Option ℕ) (at : ℕ) (bytes : List ℕ)
    → ((k v : ℕ) → get_elem? bytes k ≡ some v → memory (at + k) ≡ some v)
    → read_block memory at (length bytes) ≡ map some bytes
unfolding read_block
first_read memory at [] h = refl
first_read memory at (b ∷ bytes) h =
    let zero_more : at + 0 ≡ at = omega arith in
    let head : memory at ≡ some b = rw zero_more at (h 0 b refl) in
    let tail =
      first_read memory (at + 1) bytes (λ k v e.
        let shift : at + suc k ≡ at + 1 + k = omega arith in rw shift at (h (suc k) v e)) in
    rw (head, tail) refl

get_elem?-lt : (bytes : List ℕ) (k : ℕ) {v : ℕ} → get_elem? bytes k ≡ some v → k < length bytes
get_elem?-lt [] k h = absurd (cc h)
get_elem?-lt (b ∷ bytes) zero h = omega arith
get_elem?-lt (b ∷ bytes) (suc k) h = omega (arith, get_elem?-lt bytes k h)

own_byte :
    (at k v : ℕ) (bytes : List ℕ) (rest : List Part)
    → PartsBehind (at + length bytes) rest
    → get_elem? bytes k ≡ some v
    → part_byte ((at, bytes) ∷ rest) (at + k) ≡ some v
unfolding part_byte block_byte
own_byte at k v bytes rest h e =
    let lt = get_elem?-lt bytes k e in
    let back : at + k - at ≡ k = omega arith in
    ground (arith, before_parts rest (at + length bytes) (at + k) h (omega arith), back, e, lt)

later_byte :
    (at j v : ℕ) (bytes : List ℕ) (rest : List Part)
    → part_byte rest j ≡ some v
    → part_byte ((at, bytes) ∷ rest) j ≡ some v
unfolding part_byte
later_byte at j v bytes rest e = rw e refl

reads_back :
    (opcodes : List OpcodeEntry) (symbols : Symtab) (memory : ℕ → Option ℕ) (name : List ℕ)
    (stmts : List Stmt) (parts : List Part)
    → AllIn name stmts
    → InOrder stmts
    → AllSimple stmts
    → program_parts opcodes symbols stmts ≡ some parts
    → Holds memory parts
    → AllRead opcodes symbols memory stmts
unfolding program_parts
reads_back opcodes symbols memory name [] parts i o s h m = tt
reads_back opcodes symbols memory name (t ∷ stmts) parts i o s h m =
    let (bytes, rest, x, y, z) = cons_part-some t.address _ _ h in
    let own = checked-some t.address _ x in
    let size = body_bytes-length (stmt_env opcodes symbols t) t.address t.body bytes s.0 own in
    let behind = subst (λ (w : ℕ). Behind t.segment (t.address + w) stmts) (sym size) o.0 in
    let behind' = subst (λ (g : List ℕ). Behind g (t.address + length bytes) stmts) i.0 behind in
    let apart =
      parts_behind opcodes symbols name (t.address + length bytes) stmts rest i.1 behind' y in
    let m' : Holds memory ((t.address, bytes) ∷ rest) = subst (Holds memory) z m in
    (
      (
        bytes,
        own,
        first_read memory t.address bytes
            (λ k v e. m' (t.address + k) v (own_byte t.address k v bytes rest apart e)),
      ),
      reads_back opcodes symbols memory name stmts rest i.1 o.1 s.1 y
          (λ j v e. m' j v (later_byte t.address j v bytes rest e)),
    )

place_loop-AllIn :
    (prog : List Stmt) (ctx : Context) (stmts : List Stmt) (name : List ℕ)
    → AllIn name stmts
    → AllIn name (place_loop prog ctx stmts).1
unfolding place_loop
place_loop-AllIn prog ctx [] name i = tt
place_loop-AllIn prog ctx (t ∷ stmts) name i = (
  (place_stmt-kept prog ctx t).1 ∙ i.0,
  place_loop-AllIn prog (place_stmt prog ctx t).0 stmts name i.1,
)

place_loop-AllSimple :
    (prog : List Stmt) (ctx : Context) (stmts : List Stmt)
    → AllSimple stmts
    → AllSimple (place_loop prog ctx stmts).1
unfolding place_loop
place_loop-AllSimple prog ctx [] s = tt
place_loop-AllSimple prog ctx (t ∷ stmts) s = (
  subst Simple (sym (place_stmt-kept prog ctx t).0) s.0,
  place_loop-AllSimple prog (place_stmt prog ctx t).0 stmts s.1,
)

-- A program in one segment, without .org and with numbers for the counts of .res, whose
-- instructions have the sizes of their forms: when the first pass has placed it, and every
-- statement has its bytes within the image, the Intel HEX file of the second pass loads the bytes
-- of every statement at its address, and no statement overwrites another. (The segment is known,
-- and the strings fit the buffer of the second pass.)
pub assembled-AllRead :
    (beyond : ℕ → ℕ) (opcodes : List OpcodeEntry) (ctx : Context) (prog : List Stmt) (name : List ℕ)
    (parts : List Part)
    → AllIn name prog
    → AllSimple prog
    → AllKnown (begin_pass1 ctx prog).segments prog
    → AllFit (asm_pass1 ctx prog).1
    → program_parts opcodes (asm_pass1 ctx prog).0.symbols (asm_pass1 ctx prog).1 ≡ some parts
    → AllRead opcodes
        (asm_pass1 ctx prog).0.symbols
        (loaded (
          dump_records
            (asm_pass2 beyond opcodes (asm_pass1 ctx prog).0 (asm_pass1 ctx prog).1).image))
        (asm_pass1 ctx prog).1
assembled-AllRead beyond opcodes ctx prog name parts i s k fits h =
    let start = begin_pass1 ctx prog in
    let load =
      (asm_pass2-loaded beyond opcodes (asm_pass1 ctx prog).0 (asm_pass1 ctx prog).1 parts fits
        h).1 in
    reads_back opcodes (asm_pass1 ctx prog).0.symbols _ name (asm_pass1 ctx prog).1 parts
      (unfold asm_pass1 in place_loop-AllIn prog start prog name i)
      (unfold asm_pass1 in place_loop-InOrder prog start prog s k)
      (unfold asm_pass1 in place_loop-AllSimple prog start prog s) h (λ j v e. load j ∙ e)
