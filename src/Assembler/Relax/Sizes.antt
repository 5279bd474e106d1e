-- ===== src/Assembler/Relax/Sizes.antt =====
-- The sizes of the instructions through the passes.
use n.Prelude.{
  ℕ, zero, suc, ◌≡◌, ◌≤◌, ◌<◌, refl, ◌∙◌, sym, inl, inr, Bool, true, false, ◌&&◌, some, List, [],
  ◌∷◌, if◌then◌else◌, arith, Bool-cases, Option-cases,
}
use mathlib.Core.Path.{subst}
use n.Assembler.Opcode.{
  EmitMode, implied, zp, zpx, zpy, abs, absx, absy, rel_long, mode_number, OpcodeEntry,
  opcode_lookup, emit_mode_size,
}
use n.Assembler.Modes.{Insn, can_relax_to_zp_family, is_spec_none, narrow_mode, known_mode}
use n.Assembler.State.{Body, insn, dir, label_only, const, Stmt, Context, report}
use n.Assembler.State.Segments.{segment_find}
use n.Assembler.State.Scopes.{assign_scopes, assign_segments}
use n.Assembler.Layout.{place_in, place_stmt, place_loop, asm_pass1}
use n.Assembler.Relax.{
  with_mode, init_insn, init_body, init_stmts, is_rel_long, insn_can_relax_long_branch, narrow_insn,
  relax_insn, relax_body, relax_stmts, relax_round, relax_loop, asm_relax, asm_context_init,
}

-- The size of an instruction is that of its form.
abbrev pub IsSized : Body → Type 0
IsSized (insn i) = i.size ≡ emit_mode_size i.final_mode
IsSized (dir d) = Unit
IsSized label_only = Unit
IsSized (const name e) = Unit

-- The body is kept, or an instruction has got another form of at most the same size.
abbrev pub Shrinks : Body → Body → Type 0
Shrinks (insn i) (insn j) =
    (j.size ≡ emit_mode_size j.final_mode)
    × (j.size ≤ i.size)
    × (j.opcode ≡ i.opcode)
    × (j.spec ≡ i.spec)
    × (j.mode ≡ i.mode)
    × (j.expr ≡ i.expr)
    × (j.has_operand ≡ i.has_operand)
Shrinks (insn i) (dir d) = ⊥
Shrinks (insn i) label_only = ⊥
Shrinks (insn i) (const name e) = ⊥
Shrinks (dir d) y = dir d ≡ y
Shrinks label_only y = label_only ≡ y
Shrinks (const name e) y = const name e ≡ y

-- The same statements, apart from their addresses and the forms of instructions.
abbrev pub AllShrink : List Stmt → List Stmt → Type 0
AllShrink [] [] = Unit
AllShrink [] (t ∷ ts) = ⊥
AllShrink (s ∷ ss) [] = ⊥
AllShrink (s ∷ ss) (t ∷ ts) =
    Shrinks s.body t.body
    × (t.segment ≡ s.segment)
    × (t.scope ≡ s.scope)
    × (t.file ≡ s.file)
    × (t.label ≡ s.label)
    × (t.line ≡ s.line)
    × AllShrink ss ts

abbrev pub AllSized : List Stmt → Type 0
AllSized [] = Unit
AllSized (s ∷ ss) = IsSized s.body × AllSized ss

Shrinks-refl : (b : Body) → IsSized b → Shrinks b b
Shrinks-refl (insn i) h = (h, omega arith, refl, refl, refl, refl, refl)
Shrinks-refl (dir d) h = refl
Shrinks-refl label_only h = refl
Shrinks-refl (const name e) h = refl

Shrinks-trans : (a b c : Body) → Shrinks a b → Shrinks b c → Shrinks a c
Shrinks-trans (insn i) (insn j) (insn k) h g =
    (g.0, omega (arith, h.1, g.1), g.2 ∙ h.2, g.3 ∙ h.3, g.4 ∙ h.4, g.5 ∙ h.5, g.6 ∙ h.6)
Shrinks-trans (insn i) (insn j) (dir d) h g = g
Shrinks-trans (insn i) (insn j) label_only h g = g
Shrinks-trans (insn i) (insn j) (const name e) h g = g
Shrinks-trans (insn i) (dir d) c h g = absurd h
Shrinks-trans (insn i) label_only c h g = absurd h
Shrinks-trans (insn i) (const name e) c h g = absurd h
Shrinks-trans (dir d) b c h g = subst (λ x. Shrinks x c) (sym h) g
Shrinks-trans label_only b c h g = subst (λ x. Shrinks x c) (sym h) g
Shrinks-trans (const name e) b c h g = subst (λ x. Shrinks x c) (sym h) g

Shrinks-IsSized : (a b : Body) → Shrinks a b → IsSized b
Shrinks-IsSized (insn i) (insn j) h = h.0
Shrinks-IsSized (insn i) (dir d) h = tt
Shrinks-IsSized (insn i) label_only h = tt
Shrinks-IsSized (insn i) (const name e) h = tt
Shrinks-IsSized (dir d) b h = subst IsSized h tt
Shrinks-IsSized label_only b h = subst IsSized h tt
Shrinks-IsSized (const name e) b h = subst IsSized h tt

AllShrink-trans : (xs ys zs : List Stmt) → AllShrink xs ys → AllShrink ys zs → AllShrink xs zs
AllShrink-trans [] [] zs h g = g
AllShrink-trans [] (y ∷ ys) zs h g = absurd h
AllShrink-trans (x ∷ xs) [] zs h g = absurd h
AllShrink-trans (x ∷ xs) (y ∷ ys) [] h g = absurd g
AllShrink-trans (x ∷ xs) (y ∷ ys) (z ∷ zs) h g = (
  Shrinks-trans x.body y.body z.body h.0 g.0,
  g.1 ∙ h.1,
  g.2 ∙ h.2,
  g.3 ∙ h.3,
  g.4 ∙ h.4,
  g.5 ∙ h.5,
  AllShrink-trans xs ys zs h.6 g.6,
)

pub AllShrink-AllSized : (xs ys : List Stmt) → AllShrink xs ys → AllSized ys
AllShrink-AllSized [] [] h = tt
AllShrink-AllSized [] (y ∷ ys) h = absurd h
AllShrink-AllSized (x ∷ xs) [] h = absurd h
AllShrink-AllSized (x ∷ xs) (y ∷ ys) h =
    (Shrinks-IsSized x.body y.body h.0, AllShrink-AllSized xs ys h.6)

-- The first pass changes addresses only.
pub place_stmt-kept :
    (prog : List Stmt) (ctx : Context) (s : Stmt)
    → let t = (place_stmt prog ctx s).1 in
      (t.body ≡ s.body)
      × (t.segment ≡ s.segment)
      × (t.scope ≡ s.scope)
      × (t.file ≡ s.file)
      × (t.label ≡ s.label)
      × (t.line ≡ s.line)
unfolding place_stmt place_in
place_stmt-kept prog ctx s = elim (Option-cases (segment_find ctx.segments s.segment)) [
  | inl e ↦ rw (e, place_stmt) (refl, refl, refl, refl, refl, refl)
  | inr (seg, e) ↦ rw (e, place_stmt) (refl, refl, refl, refl, refl, refl)
]

place_loop-AllShrink :
    (prog : List Stmt) (ctx : Context) (stmts : List Stmt)
    → AllSized stmts
    → AllShrink stmts (place_loop prog ctx stmts).1
unfolding place_loop
place_loop-AllShrink prog ctx [] h = tt
place_loop-AllShrink prog ctx (s ∷ stmts) h =
    let (b, g, c, f, l, n) = place_stmt-kept prog ctx s in
    (
      rw b (Shrinks-refl s.body h.0),
      g,
      c,
      f,
      l,
      n,
      place_loop-AllShrink prog (place_stmt prog ctx s).0 stmts h.1,
    )

known_mode-some :
    (opcodes : List OpcodeEntry) (opcode : List ℕ) (m : EmitMode) {c : EmitMode}
    → known_mode opcodes opcode m ≡ some c
    → c ≡ m
unfolding known_mode
known_mode-some opcodes opcode m h = elim (Option-cases (opcode_lookup opcodes opcode m)) [
  | inl e ↦ absurd (cc (rw (e, known_mode) at h))
  | inr (b, e) ↦ cc (rw (e, known_mode) at h)
]

narrow_mode-shorter :
    (opcodes : List OpcodeEntry) (opcode : List ℕ) (m : EmitMode) {c : EmitMode}
    → narrow_mode opcodes opcode m ≡ some c
    → emit_mode_size c < emit_mode_size m
unfolding narrow_mode emit_mode_size
narrow_mode-shorter opcodes opcode abs h = rw (known_mode-some opcodes opcode zp h) (omega arith)
narrow_mode-shorter opcodes opcode absx h = rw (known_mode-some opcodes opcode zpx h) (omega arith)
narrow_mode-shorter opcodes opcode absy h = rw (known_mode-some opcodes opcode zpy h) (omega arith)
narrow_mode-shorter opcodes opcode mode h = absurd (cc h)

rel_long-size : (m : EmitMode) → is_rel_long m ≡ true → emit_mode_size m ≡ 5
unfolding is_rel_long mode_number emit_mode_size
rel_long-size rel_long h = refl
rel_long-size implied h = cc
rel_long-size mode h = cc

narrow_insn-Shrinks :
    (ctx : Context) (stmt : Stmt) (i : Insn) (c : EmitMode)
    → IsSized (insn i)
    → emit_mode_size c < emit_mode_size i.final_mode
    → Shrinks (insn i) (insn (narrow_insn ctx stmt i c).0)
unfolding narrow_insn with_mode
narrow_insn-Shrinks ctx stmt i c h less = ground arith

can_relax-shorter :
    (opcodes : List OpcodeEntry) (i : Insn) (m : EmitMode) {c : EmitMode}
    → can_relax_to_zp_family opcodes i m ≡ some c
    → emit_mode_size c < emit_mode_size m
unfolding can_relax_to_zp_family
can_relax-shorter opcodes i m h = elim (Bool-cases (is_spec_none i.spec)) [
  | inl e ↦ narrow_mode-shorter opcodes i.opcode m (rw e at h)
  | inr e ↦ absurd (cc (rw e at h))
]

and_left : (a b : Bool) → (a && b) ≡ true → a ≡ true
and_left true b h = refl
and_left false b h = h

relax_insn-Shrinks :
    (opcodes : List OpcodeEntry) (ctx : Context) (stmt : Stmt) (i : Insn)
    → IsSized (insn i)
    → Shrinks (insn i) (insn (relax_insn opcodes ctx stmt i).0)
relax_insn-Shrinks opcodes ctx stmt i h =
    elim (Bool-cases (insn_can_relax_long_branch ctx stmt i)) [
      | inl e ↦
          let long : is_rel_long i.final_mode ≡ true =
            unfold insn_can_relax_long_branch in and_left _ _ e in
          unfold relax_insn with_mode emit_mode_size in
          rw e
            (refl, omega (arith, h, rel_long-size i.final_mode long), refl, refl, refl, refl, refl)
      | inr e ↦ elim (Option-cases (can_relax_to_zp_family opcodes i i.final_mode)) [
        | inl n ↦ unfold relax_insn in rw (e, n) (Shrinks-refl (insn i) h)
        | inr (c, n) ↦
            unfold relax_insn in
            rw (e, n)
              (narrow_insn-Shrinks ctx stmt i c h (can_relax-shorter opcodes i i.final_mode n))
      ]
    ]

relax_body-Shrinks :
    (opcodes : List OpcodeEntry) (ctx : Context) (stmt : Stmt) (b : Body)
    → IsSized b
    → Shrinks b (relax_body opcodes ctx stmt b).0
unfolding relax_body
relax_body-Shrinks opcodes ctx stmt (insn i) h = relax_insn-Shrinks opcodes ctx stmt i h
relax_body-Shrinks opcodes ctx stmt (dir d) h = refl
relax_body-Shrinks opcodes ctx stmt label_only h = refl
relax_body-Shrinks opcodes ctx stmt (const name e) h = refl

relax_stmts-AllShrink :
    (opcodes : List OpcodeEntry) (ctx : Context) (stmts : List Stmt)
    → AllSized stmts
    → AllShrink stmts (relax_stmts opcodes ctx stmts).0
unfolding relax_stmts
relax_stmts-AllShrink opcodes ctx [] h = tt
relax_stmts-AllShrink opcodes ctx (s ∷ stmts) h = (
  relax_body-Shrinks opcodes ctx s s.body h.0,
  refl,
  refl,
  refl,
  refl,
  refl,
  relax_stmts-AllShrink opcodes ctx stmts h.1,
)

pub asm_pass1-AllShrink :
    (ctx : Context) (prog : List Stmt) → AllSized prog → AllShrink prog (asm_pass1 ctx prog).1
unfolding asm_pass1
asm_pass1-AllShrink ctx prog h = place_loop-AllShrink prog _ prog h

relax_round-AllShrink :
    (opcodes : List OpcodeEntry) (ctx : Context) (prog : List Stmt)
    → AllSized prog
    → AllShrink prog (relax_round opcodes ctx prog).1
unfolding relax_round
relax_round-AllShrink opcodes ctx prog h =
    let placed = asm_pass1-AllShrink ctx prog h in
    AllShrink-trans prog _ _ placed
      (relax_stmts-AllShrink opcodes _ _ (AllShrink-AllSized prog _ placed))

AllShrink-refl : (prog : List Stmt) → AllSized prog → AllShrink prog prog
AllShrink-refl [] h = tt
AllShrink-refl (s ∷ prog) h =
    (Shrinks-refl s.body h.0, refl, refl, refl, refl, refl, AllShrink-refl prog h.1)

relax_loop-AllShrink :
    (iter : ℕ) (opcodes : List OpcodeEntry) (ctx : Context) (prog : List Stmt)
    → AllSized prog
    → AllShrink prog (relax_loop iter opcodes ctx prog).1
unfolding relax_loop
relax_loop-AllShrink zero opcodes ctx prog h = AllShrink-refl prog h
relax_loop-AllShrink (suc iter) opcodes ctx prog h =
    let round = relax_round-AllShrink opcodes ctx prog h in
    let sized = AllShrink-AllSized prog _ round in
    elim (Bool-cases (relax_round opcodes ctx prog).2) [
      | inl e ↦ rw e (
          AllShrink-trans prog _ _ round (
            relax_loop-AllShrink iter opcodes (relax_round opcodes ctx prog).0
              (relax_round opcodes ctx prog).1 sized))
      | inr e ↦ rw e round
    ]

init_insn-IsSized : (opcodes : List OpcodeEntry) (i : Insn) → IsSized (insn (init_insn opcodes i).0)
unfolding init_insn with_mode
init_insn-IsSized opcodes i = ground arith

init_body-IsSized : (opcodes : List OpcodeEntry) (b : Body) → IsSized (init_body opcodes b).0
unfolding init_body
init_body-IsSized opcodes (insn i) = init_insn-IsSized opcodes i
init_body-IsSized opcodes (dir d) = tt
init_body-IsSized opcodes label_only = tt
init_body-IsSized opcodes (const name e) = tt

pub init_stmts-AllSized :
    (opcodes : List OpcodeEntry) (ctx : Context) (prog : List Stmt)
    → AllSized (init_stmts opcodes ctx prog).1
unfolding init_stmts
init_stmts-AllSized opcodes ctx [] = tt
init_stmts-AllSized opcodes ctx (s ∷ prog) = (
  init_body-IsSized opcodes s.body,
  init_stmts-AllSized opcodes (if (init_body opcodes s.body).1 then ctx else report ctx) prog,
)

-- The relaxation keeps the number and the order of the statements, and changes of each only the
-- address and, of an instruction, the form and the size; no instruction gets longer, and at the
-- end the size of each is that of its form.
pub asm_relax-AllShrink :
    (opcodes : List OpcodeEntry) (object_mode : Bool) (source : List Stmt)
    → AllShrink
        (asm_context_init opcodes object_mode source).1
        (asm_relax opcodes
          (asm_context_init opcodes object_mode source).0
          (asm_context_init opcodes object_mode source).1).1
      × AllSized
          (asm_relax opcodes
            (asm_context_init opcodes object_mode source).0
            (asm_context_init opcodes object_mode source).1).1
unfolding asm_relax asm_context_init
asm_relax-AllShrink opcodes object_mode source =
    let sized = init_stmts-AllSized opcodes _ (assign_scopes (assign_segments source)) in
    let shrunk = relax_loop-AllShrink 50 opcodes _ _ sized in
    (shrunk, AllShrink-AllSized _ _ shrunk)
