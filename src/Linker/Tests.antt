-- ===== src/Linker/Tests.antt =====
-- A small configuration and its segments, and the theorems about the linker applied to them.
use n.Prelude.{
  ℕ, ◌≡◌, refl, ◌%◌, ◌^◌, inl, inr, true, false, ◌||◌, ◌&&◌, List, [], ◌∷◌, ◌++◌, All, codes,
  str_eq, if◌then◌else◌, arith,
}
use mathlib.Core.List.{Permᴰ}
use n.Linker.{
  MemoryRegion, LinkerConfig, ok, err, ◌>>=◌, duplicate_global, unresolved_symbol, region_overflow,
}
use n.Linker.Place.{
  toupper, str_ieq, find_region, find_memory, MemoryCursor, cursor_index, new_cursor, ensure_cursor,
  cursor_at, overflows, bump, alloc_from_region,
}
use n.Linker.Place.Alloc.{RegionIsSafe}
use n.Linker.Place.Blocks.{Block, Trace, Apart, blocks-Apart}
use n.Linker.Place.Wrap.{bump_wraps}
use n.Linker.Symbols.{
  GlobalSymbol, make_weak_name, find_global, add_global, lookup_global_addr, add_globals,
}
use n.Linker.Symbols.Order.{is_none, lookup-add_global}
use n.Linker.Symbols.Permuted.{lookup-add_globals_permuted}

program : Unit {0}
unfolding str_eq toupper str_ieq find_region find_memory cursor_index new_cursor ensure_cursor
    cursor_at overflows bump alloc_from_region make_weak_name find_global add_global
    lookup_global_addr add_globals
program = tt

abbrev ram : MemoryRegion
ram = record {
  start = 0x200;
  size = 0x600;
  type = codes "rw";
  define_yes = true;
  name = codes "RAM";
}

abbrev rom : MemoryRegion
rom = record {
  start = 0x8000;
  size = 0x8000;
  type = codes "ro";
  define_yes = false;
  name = codes "ROM";
}

abbrev board : LinkerConfig
board = record { mem = ram ∷ rom ∷ []; seg = [] }

abbrev rom_cursor : ℕ → MemoryCursor
rom_cursor cur = record { name = codes "ROM"; cur = cur; end = 0x10000 }

abbrev ram_cursor : ℕ → MemoryCursor
ram_cursor cur = record { name = codes "RAM"; cur = cur; end = 0x800 }

abbrev placed : List Block
placed =
    record { index = 0; addr = 0x8000; size = 100 }
    ∷ record { index = 1; addr = 0x200; size = 8 }
    ∷ record { index = 0; addr = 0x8064; size = 50 }
    ∷ []

placed-Trace : Trace board [] placed (rom_cursor 0x8096 ∷ ram_cursor 0x208 ∷ [])
unfolding program
placed-Trace =
    Trace.place {cs₀ = rom_cursor 0x8000 ∷ []} {cs₁ = rom_cursor 0x8064 ∷ []} (codes "ROM") 0 100
      0x8000 refl refl
      (Trace.place {cs₀ = rom_cursor 0x8064 ∷ ram_cursor 0x200 ∷ []}
        {cs₁ = rom_cursor 0x8064 ∷ ram_cursor 0x208 ∷ []} (codes "ram") 1 8 0x200 refl refl
        (Trace.place {cs₀ = rom_cursor 0x8064 ∷ ram_cursor 0x208 ∷ []} (codes "ROM") 0 50 0x8064
          refl refl Trace.done))

board-RegionIsSafe : All RegionIsSafe board.mem
unfolding program
board-RegionIsSafe = ((omega arith, inl (omega arith)), ((omega arith, inr refl), tt))

blocks-Apart_example : Apart placed
blocks-Apart_example = blocks-Apart board board-RegionIsSafe tt placed-Trace

vectors_kept :
    alloc_from_region (rom_cursor 0xfff0 ∷ []) board (codes "ROM") 11 ≡ err region_overflow
unfolding program
vectors_kept = refl

-- A region with another name that ends at 0x10000.
abbrev high_cursor : MemoryCursor
high_cursor = record { name = codes "HIGH"; cur = 0xff00; end = 0x10000 }

high_is_not_rom : str_ieq (codes "HIGH") (codes "ROM") ≡ false
unfolding program
high_is_not_rom = refl

bump_wraps_example :
    (bump high_cursor (codes "HIGH") 0x100 >>= λ b. bump b.1 (codes "HIGH") 16)
    ≡ ok (0, record high_cursor { cur = 16 % 2 ^ 16 })
bump_wraps_example =
    bump_wraps high_cursor (codes "HIGH") 0x100 16 high_is_not_rom refl refl (omega arith)

abbrev symbol : List ℕ → ℕ → GlobalSymbol
symbol name addr = record { name = name; addr = addr; segid = 2; source = codes "a.o65" }

abbrev strong_putc : GlobalSymbol
strong_putc = symbol (codes "putc") 0x9000

abbrev weak_putc : GlobalSymbol
weak_putc = symbol (codes "__weak_putc") 0x8800

abbrev known : List GlobalSymbol
known = weak_putc ∷ symbol (codes "main") 0x8000 ∷ []

weak_found : lookup_global_addr known (codes "putc") ≡ ok 0x8800
unfolding program
weak_found = refl

strong_wins : lookup_global_addr (known ++ strong_putc ∷ []) (codes "putc") ≡ ok 0x9000
unfolding program
strong_wins = refl

none_found : lookup_global_addr known (codes "getc") ≡ err unresolved_symbol
unfolding program
none_found = refl

twice : add_global known weak_putc ≡ err duplicate_global
unfolding program
twice = refl

putc_added : add_global known strong_putc ≡ ok (known ++ strong_putc ∷ [])
unfolding program
putc_added = refl

lookup-add_global_example : lookup_global_addr (known ++ strong_putc ∷ []) (codes "putc") ≡ (
    if str_eq strong_putc.name (codes "putc")
      || (is_none (find_global known (codes "putc"))
          && str_eq strong_putc.name (make_weak_name (codes "putc")))
    then ok strong_putc.addr
    else lookup_global_addr known (codes "putc"))
lookup-add_global_example =
    lookup-add_global known (known ++ strong_putc ∷ []) strong_putc (codes "putc") putc_added

lookup-add_globals_permuted_example :
    (add_globals known (strong_putc ∷ symbol (codes "nmi") 7 ∷ []) >>= λ globals.
    lookup_global_addr globals (codes "putc"))
    ≡ (add_globals known (symbol (codes "nmi") 7 ∷ strong_putc ∷ []) >>= λ globals.
        lookup_global_addr globals (codes "putc"))
lookup-add_globals_permuted_example =
    lookup-add_globals_permuted known (codes "putc") (Permᴰ.swap refl refl)
