-- ===== src/Linker/Symbols.antt =====
-- linker/n65ld.c: the table of global symbols.
pub mod Order
pub mod Permuted
use n.Prelude.{
  ℕ, ◌≡◌, refl, Bool, true, false, not, ◌&&◌, ◌||◌, Option, none, some, List, [], ◌∷◌, ◌++◌, str_eq,
  str_eq→eq, str_eq_refl, codes, if◌then◌else◌, Bool-cases, Option-cases, arith,
}
use n.Linker.{Result, ok, err, ◌>>=◌, duplicate_global, unresolved_symbol}
use n.O65.{seg_abs}

-- `global_symbol_t`
pub record GlobalSymbol : Type 0 where
  pub name : List ℕ
  pub addr : ℕ
  pub segid : ℕ
  pub source : List ℕ

unfoldable pub make_weak_name : List ℕ → List ℕ
make_weak_name name = codes "__weak_" ++ name

-- The search that both functions write as a loop over `layout->globals`.
unfoldable pub find_global : List GlobalSymbol → List ℕ → Option GlobalSymbol
find_global [] name = none
find_global (g ∷ gs) name = if str_eq g.name name then some g else find_global gs name

unfoldable pub add_global : List GlobalSymbol → GlobalSymbol → Result (List GlobalSymbol)
add_global globals g = elim (find_global globals g.name) [
  | some old ↦ err duplicate_global
  | none ↦ ok (globals ++ g ∷ [])
]

unfoldable pub lookup_global_addr : List GlobalSymbol → List ℕ → Result ℕ
lookup_global_addr globals name = elim (find_global globals name) [
  | some g ↦ ok g.addr
  | none ↦ elim (find_global globals (make_weak_name name)) [
    | some g ↦ ok g.addr
    | none ↦ err unresolved_symbol
  ]
]

-- The addresses that `layout_objects` computes for the linker's own symbols.
pub record Generated : Type 0 where
  pub copy_table_addr : ℕ
  pub zero_table_addr : ℕ
  pub init_table_addr : ℕ
  pub stack_start : ℕ
  pub stack_top : ℕ

unfoldable pub linker_symbol : List ℕ → ℕ → GlobalSymbol
linker_symbol name addr = record {
  name = name;
  addr = addr;
  segid = seg_abs;
  source = codes "<linker>";
}

unfoldable pub add_generated_symbols : List GlobalSymbol → Generated → Result (List GlobalSymbol)
add_generated_symbols globals at =
    add_global globals (linker_symbol (codes "__copy_table") at.copy_table_addr)
    >>= (λ gs. add_global gs (linker_symbol (codes "__zero_table") at.zero_table_addr))
    >>= (λ gs. add_global gs (linker_symbol (codes "__init_table") at.init_table_addr))
    >>= (λ gs. add_global gs (linker_symbol (codes "__stack_start") at.stack_start))
    >>= (λ gs. add_global gs (linker_symbol (codes "__stack_top") at.stack_top))

-- The symbols of a table are added one after the other, as `layout_objects` adds the exports.
unfoldable pub add_globals : List GlobalSymbol → List GlobalSymbol → Result (List GlobalSymbol)
add_globals globals [] = ok globals
add_globals globals (g ∷ gs) = add_global globals g >>= λ more. add_globals more gs
