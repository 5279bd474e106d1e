-- ===== src/Assembler/Symtab.antt =====
-- assembler/symtab.c: the symbol table of the assembler, a list with the newest symbol first. A
-- pointer to a symbol is its name, which no other symbol of the table has.
pub mod Laws
use n.Prelude.{ℕ, Bool, true, false, Option, none, some, List, [], ◌∷◌, str_eq, if◌then◌else◌}
use n.Prelude.Int.{ℤ, pos}

-- `symbol_t`, less the link.
pub record Symbol : Type 0 where
  pub name : List ℕ
  pub value : ℤ
  pub defined : Bool
  pub segment_id : ℕ
  pub segment_name : Option (List ℕ)
  pub def_file : Option (List ℕ)
  pub def_line : ℕ

abbrev pub Symtab : Type 0
Symtab = List Symbol

unfoldable pub symtab_init : Symtab
symtab_init = []

-- The loop of `symtab_find` and of `symtab_find_const`.
unfoldable pub symtab_find : Symtab → List ℕ → Option Symbol
symtab_find [] name = none
symtab_find (sym ∷ tab) name = if str_eq sym.name name then some sym else symtab_find tab name

-- `none` if the name is declared already.
unfoldable pub symtab_declare : Symtab → List ℕ → List ℕ → ℕ → Option Symtab
symtab_declare tab name def_file def_line = elim (symtab_find tab name) [
  | some sym ↦ none
  | none ↦ some (
      record {
        name = name;
        value = pos 0;
        defined = false;
        segment_id = 1;
        segment_name = none;
        def_file = some def_file;
        def_line = def_line;
      }
      ∷ tab)
]

-- The symbol is named; a name that the table does not have stands for NULL.
unfoldable pub symtab_set_value_segment_named : Symtab → List ℕ → ℤ → ℕ → Option (List ℕ) → Symtab
symtab_set_value_segment_named [] name value segment_id segment_name = []
symtab_set_value_segment_named (sym ∷ tab) name value segment_id segment_name =
    let rest = symtab_set_value_segment_named tab name value segment_id segment_name in
    if str_eq sym.name name
    then record sym {
      segment_name = segment_name;
      value = value;
      defined = true;
      segment_id = segment_id;
    }
      ∷ tab
    else sym ∷ rest

unfoldable pub symtab_set_value_segment : Symtab → List ℕ → ℤ → ℕ → Symtab
symtab_set_value_segment tab name value segment_id =
    symtab_set_value_segment_named tab name value segment_id none

unfoldable pub symtab_set_value : Symtab → List ℕ → ℤ → Symtab
symtab_set_value tab name value = symtab_set_value_segment tab name value 1

unfoldable pub symtab_reference : Symtab → List ℕ → Symtab
symtab_reference tab name = elim (symtab_find tab name) [
  | some sym ↦ tab
  | none ↦
      record {
        name = name;
        value = pos 0;
        defined = false;
        segment_id = 1;
        segment_name = none;
        def_file = none;
        def_line = 0;
      }
      ∷ tab
]
