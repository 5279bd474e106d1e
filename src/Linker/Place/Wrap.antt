-- ===== src/Linker/Place/Wrap.antt =====
-- A region other than ROM that ends at 0x10000.
use n.Prelude.{ℕ, ◌+◌, ◌%◌, ◌^◌, ◌≡◌, ◌≤◌, false, List, codes, arith}
use n.Linker.{ok, ◌>>=◌}
use n.Linker.Place.{str_ieq, MemoryCursor, overflows, bump}

-- In a region that ends at 0x10000 and is not named ROM: a block that fills the region to its
-- end moves the cursor to 0, and the next block of any size up to 0x10000 is placed at address 0
-- instead of being refused.
pub bump_wraps :
    (c : MemoryCursor) (name : List ℕ) (size next : ℕ)
    → str_ieq name (codes "ROM") ≡ false
    → c.end ≡ 0x10000
    → c.cur + size ≡ 0x10000
    → next ≤ 0x10000
    → (bump c name size >>= λ b. bump b.1 name next) ≡ ok (0, record c { cur = next % 2 ^ 16 })
unfolding bump overflows
bump_wraps c name size next rom end full fits = ground arith
