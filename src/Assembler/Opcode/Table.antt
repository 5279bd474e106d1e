-- ===== src/Assembler/Opcode/Table.antt =====
-- The table of opcodes as a map from a mnemonic and a mode.
use n.Prelude.{
  ℕ, ◌≡◌, ◌==◌, refl, ◌&&◌, inl, inr, Bool, true, some, List, [], ◌∷◌, str_eq, str_eq_iff,
  str_eq_sym, if◌then◌else◌, arith, Option-cases,
}
use n.Assembler.Opcode.{
  OpcodeEntry, EmitMode, mode_number, same_key, find_entry, replace_opcode, opcode_add_mapping,
  entry_opcode,
}

-- Whether two keys of the table are one.
unfoldable pub key_eq : List ℕ → EmitMode → List ℕ → EmitMode → Bool
key_eq a m b k = mode_number m == mode_number k && str_eq a b

key_eq_same :
    (a : List ℕ) (m : EmitMode) (b : List ℕ) (k : EmitMode) (c : List ℕ) (j : EmitMode)
    → key_eq a m b k ≡ true
    → key_eq a m c j ≡ key_eq b k c j
unfolding key_eq
key_eq_same a m b k c j h =
    let same : a ≡ b = (str_eq_iff a b).0 (ground arith) in
    let modes : mode_number m ≡ mode_number k = ground arith in rw (same, modes) refl

key_eq_sym :
    (a : List ℕ) (m : EmitMode) (b : List ℕ) (k : EmitMode) → key_eq a m b k ≡ key_eq b k a m
unfolding key_eq
key_eq_sym a m b k = ground (arith, str_eq_sym a b)

same_key_lem :
    (e : OpcodeEntry) (b : List ℕ) (k : EmitMode) → same_key e b k ≡ key_eq e.mnemonic e.mode b k
unfolding same_key key_eq
same_key_lem e b k = refl

replaced :
    (opcodes : List OpcodeEntry) (a : List ℕ) (m : EmitMode) (op : ℕ) (b : List ℕ) (k : EmitMode)
    (e : OpcodeEntry)
    → find_entry opcodes a m ≡ some e
    → entry_opcode (find_entry (replace_opcode opcodes a m op) b k)
      ≡ (if key_eq a m b k then some op else entry_opcode (find_entry opcodes b k))
unfolding find_entry replace_opcode entry_opcode
replaced [] a m op b k e h = absurd (ground arith)
replaced (x ∷ opcodes) a m op b k e h = ground (
  arith,
  replaced opcodes a m op b k e,
  same_key_lem x a m,
  same_key_lem x b k,
  same_key_lem (record x { opcode = op }) b k,
  key_eq_same x.mnemonic x.mode a m b k,
  key_eq_same x.mnemonic x.mode b k a m,
  key_eq_sym a m b k,
)

-- Adding a mapping sets the opcode of its mnemonic and mode, and leaves those of all others.
pub find-add_mapping :
    (opcodes : List OpcodeEntry) (a : List ℕ) (m : EmitMode) (op : ℕ) (b : List ℕ) (k : EmitMode)
    → entry_opcode (find_entry (opcode_add_mapping opcodes a m op) b k)
      ≡ (if key_eq a m b k then some op else entry_opcode (find_entry opcodes b k))
find-add_mapping opcodes a m op b k = elim (Option-cases (find_entry opcodes a m)) [
  | inl e ↦
      unfold opcode_add_mapping find_entry entry_opcode in
      ground (arith, e, same_key_lem (record { mnemonic = a; mode = m; opcode = op }) b k)
  | inr (x, e) ↦ unfold opcode_add_mapping in ground (arith, e, replaced opcodes a m op b k x e)
]
