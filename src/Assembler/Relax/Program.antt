-- ===== src/Assembler/Relax/Program.antt =====
-- What the second pass makes of a whole program, and what its Intel HEX file holds.
use n.Prelude.{
  ℕ, ◌+◌, ◌-◌, ◌≡◌, ◌≤◌, ◌<◌, refl, ◌∙◌, sym, ap, inl, inr, Bool, Option, none, some, List, [], ◌∷◌,
  leb, if◌then◌else◌, length, arith, Bool-cases,
}
use mathlib.Core.Path.{subst}
use n.Linker.Image.Hex.{loaded, used_byte}
use n.Assembler.Symtab.{Symtab}
use n.Assembler.Opcode.{OpcodeEntry}
use n.Assembler.Image.{Image, ihex_image_init, ihex_max_addr, dump_records}
use n.Assembler.Image.Contents.{
  IsImage, init-IsImage, init-byte, write_bytes-byte, block_byte, or_else,
}
use n.Assembler.Image.Dump.{dump_records-loaded}
use n.Assembler.Emit.{Output, Emitter, Env}
use n.Assembler.Emit.Writes.{write_bytes, written, Emits, done-Emits}
use n.Assembler.Emit.Encode.Correct.{insn_emit_pass2-Emits}
use n.Assembler.Directive.Encode.{FitsBuffer, directive_emit_pass2-Emits}
use n.Assembler.State.{Body, insn, dir, label_only, const, Stmt, Context}
use n.Assembler.Relax.Widths.{body_bytes}
use n.Assembler.Relax.{stmt_env, emit_body, pass2_loop, asm_pass2}

-- The strings of a statement fit the buffer of the second pass.
abbrev pub BodyFits : Body → Type 0
BodyFits (insn i) = Unit
BodyFits (dir d) = FitsBuffer d.string
BodyFits label_only = Unit
BodyFits (const name e) = Unit

abbrev pub AllFit : List Stmt → Type 0
AllFit [] = Unit
AllFit (s ∷ prog) = BodyFits s.body × AllFit prog

-- An address and the bytes from there on.
abbrev pub Part : Type 0
Part = ℕ × List ℕ

unfoldable pub in_image : ℕ → List ℕ → Option (List ℕ)
in_image at bytes = if leb (length bytes) (ihex_max_addr - at) then some bytes else none

unfoldable pub checked : ℕ → Option (List ℕ) → Option (List ℕ)
unfolding in_image
checked at none = none
checked at (some bytes) = in_image at bytes

unfoldable pub cons_part : ℕ → Option (List ℕ) → Option (List Part) → Option (List Part)
cons_part at none parts = none
cons_part at (some bytes) none = none
cons_part at (some bytes) (some parts) = some ((at, bytes) ∷ parts)

-- The bytes of all statements, at their addresses; `none` if one has no bytes, or leaves the image.
unfoldable pub program_parts : List OpcodeEntry → Symtab → List Stmt → Option (List Part)
program_parts opcodes symbols [] = some []
program_parts opcodes symbols (s ∷ prog) =
    cons_part s.address
      (checked s.address (body_bytes (stmt_env opcodes symbols s) s.address s.body))
      (program_parts opcodes symbols prog)

unfoldable pub write_parts : Image → List Part → Image
write_parts img [] = img
write_parts img ((at, bytes) ∷ parts) = write_parts (write_bytes img at bytes) parts

pub emit_body-Emits :
    (beyond : ℕ → ℕ) (env : Env) (address : ℕ) (b : Body)
    → BodyFits b
    → Emits (emit_body beyond env address b) address (body_bytes env address b)
unfolding emit_body body_bytes
emit_body-Emits beyond env address (insn i) h = insn_emit_pass2-Emits env address i
emit_body-Emits beyond env address (dir d) h = directive_emit_pass2-Emits beyond env address d h
emit_body-Emits beyond env address label_only h = done-Emits address
emit_body-Emits beyond env address (const name e) h = done-Emits address

-- What one operation does, by the bytes that it has within the image.
abbrev Outcome : Output × Bool → Output → ℕ → Option (List ℕ) → Type 0
Outcome r out at none = r.0.error_count ≡ out.error_count + 1
Outcome r out at (some bytes) = r.0 ≡ written out at bytes

outcome :
    (m : Emitter) (out : Output) (at : ℕ) (x : Option (List ℕ))
    → Emits m at x
    → Outcome (m out) out at (checked at x)
unfolding checked in_image
outcome m out at none h = (h out).1
outcome m out at (some bytes) h = elim (Bool-cases (leb (length bytes) (65536 - at))) [
  | inl e ↦ rw e (ap (λ (r : Output × Bool). r.0) (h.0 out (ground arith)))
  | inr e ↦ rw e (h.1 out (ground arith)).1
]

-- All statements have their bytes, which are written, or there are errors.
abbrev pub PassOutcome : Output → Output → Option (List Part) → Type 0
PassOutcome after before none = before.error_count < after.error_count
PassOutcome after before (some parts) =
    after ≡ record before { image = write_parts before.image parts }

grows :
    (after mid before : Output) (x : Option (List Part))
    → PassOutcome after mid x
    → mid.error_count ≡ before.error_count + 1
    → before.error_count < after.error_count
grows after mid before none h e = omega arith
grows after mid before (some parts) h e = omega (arith, ap (λ (o : Output). o.error_count) h)

then_parts :
    (after mid before : Output) (at : ℕ) (bytes : List ℕ) (x : Option (List Part))
    → PassOutcome after mid x
    → mid ≡ written before at bytes
    → PassOutcome after before (cons_part at (some bytes) x)
unfolding cons_part write_parts
then_parts after mid before at bytes none h e = omega (arith, ap (λ (o : Output). o.error_count) e)
then_parts after mid before at bytes (some parts) h e = h ∙ rw e refl

after_stmt :
    (after mid before : Output) (at : ℕ) (x : Option (List ℕ)) (y : Option (List Part)) (r : Bool)
    → Outcome (mid, r) before at x
    → PassOutcome after mid y
    → PassOutcome after before (cons_part at x y)
after_stmt after mid before at none y r h g = unfold cons_part in grows after mid before y g h
after_stmt after mid before at (some bytes) y r h g = then_parts after mid before at bytes y g h

pass2_loop-PassOutcome :
    (beyond : ℕ → ℕ) (opcodes : List OpcodeEntry) (symbols : Symtab) (out : Output)
    (prog : List Stmt)
    → AllFit prog
    → PassOutcome
        (pass2_loop beyond opcodes symbols out prog)
        out
        (program_parts opcodes symbols prog)
unfolding pass2_loop program_parts
pass2_loop-PassOutcome beyond opcodes symbols out [] h = unfold write_parts in refl
pass2_loop-PassOutcome beyond opcodes symbols out (s ∷ prog) h =
    let env = stmt_env opcodes symbols s in
    let r = emit_body beyond env s.address s.body out in
    after_stmt _ r.0 out s.address (checked s.address (body_bytes env s.address s.body)) _ r.1
      (outcome (emit_body beyond env s.address s.body) out s.address _
        (emit_body-Emits beyond env s.address s.body h.0))
      (pass2_loop-PassOutcome beyond opcodes symbols r.0 prog h.1)

-- The byte of the last part that has one for an address.
unfoldable pub part_byte : List Part → ℕ → Option ℕ
part_byte [] j = none
part_byte ((at, bytes) ∷ parts) j = or_else (part_byte parts j) (block_byte at bytes j)

abbrev pub PartsFit : List Part → Type 0
PartsFit [] = Unit
PartsFit ((at, bytes) ∷ parts) = (length bytes ≤ ihex_max_addr - at) × PartsFit parts

or_else_assoc : (x y z : Option ℕ) → or_else (or_else x y) z ≡ or_else x (or_else y z)
or_else_assoc none y z = refl
or_else_assoc (some x) y z = refl

write_parts-byte :
    (img : Image) (parts : List Part) (j : ℕ)
    → IsImage img
    → PartsFit parts
    → IsImage (write_parts img parts)
      × (used_byte (write_parts img parts).cells j
          ≡ or_else (part_byte parts j) (used_byte img.cells j))
unfolding write_parts part_byte
write_parts-byte img [] j h fits = (h, refl)
write_parts-byte img ((at, bytes) ∷ parts) j h fits =
    let (image, eq) = write_bytes-byte img at bytes j h fits.0 in
    let (image', eq') = write_parts-byte (write_bytes img at bytes) parts j image fits.1 in
    (
      image',
      eq'
          ∙ ap (or_else (part_byte parts j)) eq
          ∙ sym (or_else_assoc (part_byte parts j) (block_byte at bytes j) (used_byte img.cells j)),
    )

checked-fits :
    (at : ℕ) (x : Option (List ℕ)) {bytes : List ℕ}
    → checked at x ≡ some bytes
    → length bytes ≤ ihex_max_addr - at
unfolding checked in_image
checked-fits at none h = absurd (cc h)
checked-fits at (some bytes) h = ground arith

pub checked-some :
    (at : ℕ) (x : Option (List ℕ)) {bytes : List ℕ} → checked at x ≡ some bytes → x ≡ some bytes
unfolding checked in_image
checked-some at none h = absurd (cc h)
checked-some at (some bytes) h = ground arith

pub cons_part-some :
    (at : ℕ) (x : Option (List ℕ)) (y : Option (List Part)) {parts : List Part}
    → cons_part at x y ≡ some parts
    → (bytes : List ℕ) × (rest : List Part) × (x ≡ some bytes)
      × (y ≡ some rest)
      × (parts ≡ (at, bytes) ∷ rest)
unfolding cons_part
cons_part-some at none y h = absurd (cc h)
cons_part-some at (some bytes) none h = absurd (cc h)
cons_part-some at (some bytes) (some rest) h = (bytes, rest, refl, refl, cc)

program_parts-PartsFit :
    (opcodes : List OpcodeEntry) (symbols : Symtab) (prog : List Stmt) (parts : List Part)
    → program_parts opcodes symbols prog ≡ some parts
    → PartsFit parts
unfolding program_parts
program_parts-PartsFit opcodes symbols [] parts h =
    let nil : [] ≡ parts = cc in subst PartsFit nil tt
program_parts-PartsFit opcodes symbols (s ∷ prog) parts h =
    let (bytes, rest, x, y, z) = cons_part-some s.address _ _ h in
    subst PartsFit (sym z)
      (checked-fits s.address _ x, program_parts-PartsFit opcodes symbols prog rest y)

or_else-none : (x : Option ℕ) → or_else x none ≡ x
or_else-none none = refl
or_else-none (some x) = refl

-- If every statement has its bytes within the image, and every string fits the buffer, then the
-- second pass makes no error, and the Intel HEX file of its image loads for each address the byte
-- of the last statement that covers the address, and nothing elsewhere.
pub asm_pass2-loaded :
    (beyond : ℕ → ℕ) (opcodes : List OpcodeEntry) (ctx : Context) (prog : List Stmt)
    (parts : List Part)
    → AllFit prog
    → program_parts opcodes ctx.symbols prog ≡ some parts
    → ((asm_pass2 beyond opcodes ctx prog).error_count ≡ ctx.error_count)
      × ((j : ℕ)
          → loaded (dump_records (asm_pass2 beyond opcodes ctx prog).image) j ≡ part_byte parts j)
asm_pass2-loaded beyond opcodes ctx prog parts fits h =
    let start : Output = record {
      image = ihex_image_init ihex_max_addr;
      error_count = ctx.error_count;
    } in
    let all : pass2_loop beyond opcodes ctx.symbols start prog
        ≡ record start { image = write_parts start.image parts } =
      subst (PassOutcome (pass2_loop beyond opcodes ctx.symbols start prog) start) h
        (pass2_loop-PassOutcome beyond opcodes ctx.symbols start prog fits) in
    let done : asm_pass2 beyond opcodes ctx prog
        ≡ record start { image = write_parts start.image parts } =
      unfold asm_pass2 in all in
    let fit = program_parts-PartsFit opcodes ctx.symbols prog parts h in
    (
      ap (λ (o : Output). o.error_count) done,
      λ j.
          let (image, eq) =
            write_parts-byte (ihex_image_init ihex_max_addr) parts j init-IsImage fit in
          ap (λ (o : Output). loaded (dump_records o.image) j) done
          ∙ dump_records-loaded (write_parts (ihex_image_init ihex_max_addr) parts) j image.bounded
          ∙ eq
          ∙ ap (or_else (part_byte parts j)) (init-byte ihex_max_addr j)
          ∙ or_else-none (part_byte parts j),
    )

-- If some statement has no bytes, or they leave the image, and every string fits the buffer, the
-- second pass makes an error.
pub asm_pass2-error :
    (beyond : ℕ → ℕ) (opcodes : List OpcodeEntry) (ctx : Context) (prog : List Stmt)
    → AllFit prog
    → program_parts opcodes ctx.symbols prog ≡ none
    → ctx.error_count < (asm_pass2 beyond opcodes ctx prog).error_count
unfolding asm_pass2
asm_pass2-error beyond opcodes ctx prog fits h =
    let start : Output = record {
      image = ihex_image_init ihex_max_addr;
      error_count = ctx.error_count;
    } in
    subst (PassOutcome (pass2_loop beyond opcodes ctx.symbols start prog) start) h
      (pass2_loop-PassOutcome beyond opcodes ctx.symbols start prog fits)
