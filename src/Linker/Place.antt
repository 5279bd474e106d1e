-- ===== src/Linker/Place.antt =====
-- linker/n65ld.c: memory regions, and the placement of blocks in them.
pub mod Alloc
pub mod Blocks
pub mod Wrap
use n.Prelude.{
  ℕ, zero, suc, ◌+◌, ◌-◌, ◌%◌, ◌^◌, Bool, true, false, ◌&&◌, ◌||◌, Option, none, some, List, [],
  ◌∷◌, ◌++◌, ltb, leb, ◌==◌, if◌then◌else◌, length, set, codes,
}
use n.Linker.{
  MemoryRegion, SegmentRule, LinkerConfig, Result, ok, err, ◌>>=◌, region_not_found,
  region_overflow,
}

-- `toupper` in the C locale.
unfoldable pub toupper : ℕ → ℕ
toupper c = if leb b'a' c && leb c b'z' then c - 32 else c

unfoldable pub str_ieq : List ℕ → List ℕ → Bool
str_ieq [] [] = true
str_ieq [] (b ∷ bs) = false
str_ieq (a ∷ as') [] = false
str_ieq (a ∷ as') (b ∷ bs) = (toupper a == toupper b) && str_ieq as' bs

unfoldable pub find_region : List MemoryRegion → List ℕ → Option MemoryRegion
find_region [] name = none
find_region (m ∷ ms) name = if str_ieq m.name name then some m else find_region ms name

unfoldable pub find_memory : LinkerConfig → List ℕ → Option MemoryRegion
find_memory cfg name = find_region cfg.mem name

unfoldable pub find_rule : List SegmentRule → List ℕ → Option SegmentRule
find_rule [] name = none
find_rule (r ∷ rs) name = if str_ieq r.name name then some r else find_rule rs name

unfoldable pub find_segment_rule : LinkerConfig → List ℕ → Option SegmentRule
find_segment_rule cfg name = find_rule cfg.seg name

-- `memory_cursor_t`
pub record MemoryCursor : Type 0 where
  pub name : List ℕ
  pub cur : ℕ
  pub end : ℕ

-- The index of the first cursor of a name.
unfoldable pub cursor_index : List MemoryCursor → List ℕ → Option ℕ
cursor_index [] name = none
cursor_index (c ∷ cs) name = elim (str_ieq c.name name) [
  | true ↦ some 0
  | false ↦ elim (cursor_index cs name) [ none ↦ none | some i ↦ some (suc i) ]
]

unfoldable pub new_cursor : MemoryRegion → MemoryCursor
new_cursor m = record { name = m.name; cur = m.start; end = m.start + m.size }

-- `ensure_cursor` returns the cursor's index in place of its address, and the cursors.
unfoldable pub ensure_cursor :
    List MemoryCursor → LinkerConfig → List ℕ → Result (ℕ × List MemoryCursor)
ensure_cursor cs cfg name = elim (cursor_index cs name) [
  | some i ↦ ok (i, cs)
  | none ↦ elim (find_memory cfg name) [
    | none ↦ err region_not_found
    | some m ↦ ok (length cs, cs ++ new_cursor m ∷ [])
  ]
]

unfoldable pub cursor_at : List MemoryCursor → ℕ → Option MemoryCursor
cursor_at [] i = none
cursor_at (c ∷ cs) zero = some c
cursor_at (c ∷ cs) (suc i) = cursor_at cs i

-- The test that refuses a block that would end at `end` in the region of `cursor`.
unfoldable pub overflows : MemoryCursor → List ℕ → ℕ → Bool
overflows cursor name end =
    ltb 0x10000 end || (ltb cursor.end end || (str_ieq name (codes "ROM") && ltb 0xfffa end))

-- The block starts at `cur`, which moves to its end, as a `uint16_t`.
unfoldable pub bump : MemoryCursor → List ℕ → ℕ → Result (ℕ × MemoryCursor)
bump cursor name size =
    let end = cursor.cur + size in
    if overflows cursor name end
    then err region_overflow
    else ok (cursor.cur % 2 ^ 16, record cursor { cur = end % 2 ^ 16 })

unfoldable pub alloc_from_region :
    List MemoryCursor → LinkerConfig → List ℕ → ℕ → Result (ℕ × List MemoryCursor)
alloc_from_region cs cfg name size = ensure_cursor cs cfg name >>= λ at.
    elim (cursor_at at.1 at.0) [
      | none ↦ err region_not_found
      | some cursor ↦ bump cursor name size >>= λ b. ok (b.0, set at.1 at.0 b.1)
    ]
