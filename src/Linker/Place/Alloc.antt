-- ===== src/Linker/Place/Alloc.antt =====
-- Blocks that `alloc_from_region` places.
use n.Prelude.{
  ℕ, zero, suc, ◌+◌, ◌%◌, ◌^◌, ◌<◌, ◌≤◌, ◌≡◌, refl, ap, sym, ◌∙◌, ◌⊎◌, inl, inr, true, false, some,
  List, [], ◌∷◌, ◌++◌, map, ◌==◌, if◌then◌else◌, length, set, All, All-append, codes, arith,
  Bool-cases, Option-cases, ==_iff,
}
use mathlib.Core.Path.{subst}
use n.Linker.{MemoryRegion, LinkerConfig, ok}
use n.Linker.Place.{
  toupper, str_ieq, find_region, find_memory, MemoryCursor, cursor_index, new_cursor, ensure_cursor,
  cursor_at, overflows, bump,
}

-- `str_ieq` compares the strings in upper case.
pub str_ieq_sound : (a b : List ℕ) → str_ieq a b ≡ true → map toupper a ≡ map toupper b
unfolding str_ieq
str_ieq_sound [] [] h = refl
str_ieq_sound [] (y ∷ b) h = cc
str_ieq_sound (x ∷ a) [] h = cc
str_ieq_sound (x ∷ a) (y ∷ b) h = ground (arith, str_ieq_sound a b, ==_iff (toupper x) (toupper y))

pub str_ieq_complete : (a b : List ℕ) → map toupper a ≡ map toupper b → str_ieq a b ≡ true
unfolding str_ieq
str_ieq_complete [] [] h = refl
str_ieq_complete [] (y ∷ b) h = cc
str_ieq_complete (x ∷ a) [] h = cc
str_ieq_complete (x ∷ a) (y ∷ b) h = ground (arith, str_ieq_complete a b)

str_ieq_rotate : (a b c : List ℕ) → str_ieq a b ≡ true → str_ieq a c ≡ true → str_ieq b c ≡ true
str_ieq_rotate a b c h k = str_ieq_complete b c (sym (str_ieq_sound a b h) ∙ str_ieq_sound a c k)

-- A cursor that cannot wrap: its region ends below 0x10000, or it is ROM, where the last six
-- bytes are kept free.
abbrev pub NoWrap : List ℕ → ℕ → Type 0
NoWrap name end = (end ≤ 0xffff) ⊎ (str_ieq name (codes "ROM") ≡ true)

pub record IsSafe (c : MemoryCursor) : Type 0 where
  pub small : c.cur < 2 ^ 16
  pub no_wrap : NoWrap c.name c.end

-- What a successful step does to its cursor.
pub record Bumped (c : MemoryCursor) (size addr : ℕ) (c' : MemoryCursor) : Type 0 where
  pub starts : addr ≡ c.cur
  pub moves : c'.cur ≡ c.cur + size
  pub fits : c'.cur ≤ c.end
  pub keeps_end : c'.end ≡ c.end
  pub keeps_name : c'.name ≡ c.name
  pub safe : IsSafe c'

overflows_not :
    (c : MemoryCursor) (name : List ℕ) (end : ℕ)
    → overflows c name end ≡ false
    → (end ≤ 0x10000) × (end ≤ c.end) × (str_ieq name (codes "ROM") ≡ true → end ≤ 0xfffa)
unfolding overflows
overflows_not c name end h = ground arith

-- A block that is placed in a cursor that cannot wrap ends below 0x10000.
overflows_end :
    (c : MemoryCursor) (name : List ℕ) (end : ℕ)
    → NoWrap c.name c.end
    → str_ieq c.name name ≡ true
    → overflows c name end ≡ false
    → end < 2 ^ 16
overflows_end c name end (inl low) same h = omega (arith, overflows_not c name end h)
overflows_end c name end (inr rom) same h =
    omega
      (arith, (overflows_not c name end h).2 (str_ieq_rotate c.name name (codes "ROM") same rom))

bump_ok :
    (c : MemoryCursor) (name : List ℕ) (size addr : ℕ) (c' : MemoryCursor)
    → bump c name size ≡ ok (addr, c')
    → (overflows c name (c.cur + size) ≡ false)
      × (addr ≡ c.cur % 2 ^ 16)
      × (record c { cur = (c.cur + size) % 2 ^ 16 } ≡ c')
unfolding bump
bump_ok c name size addr c' e = elim (Bool-cases (overflows c name (c.cur + size))) [
  | inl q ↦ absurd (ground arith)
  | inr q ↦ (q, ground arith, ground arith)
]

pub bump-Bumped :
    (c : MemoryCursor) (name : List ℕ) (size addr : ℕ) (c' : MemoryCursor)
    → IsSafe c
    → str_ieq c.name name ≡ true
    → bump c name size ≡ ok (addr, c')
    → Bumped c size addr c'
bump-Bumped c name size addr c' safe same e =
    let (fine, start, moved) = bump_ok c name size addr c' e in
    let small : c.cur + size < 2 ^ 16 =
      overflows_end c name (c.cur + size) safe.no_wrap same fine in
    let fits : c.cur + size ≤ c.end = (overflows_not c name (c.cur + size) fine).1 in
    subst (Bumped c size addr) moved (record {
      starts = omega arith;
      moves = omega arith;
      fits = omega arith;
      keeps_end = refl;
      keeps_name = refl;
      safe = record { small = omega arith; no_wrap = safe.no_wrap };
    })

pub cursor_at-set :
    (cs : List MemoryCursor) (i j : ℕ) (c c' : MemoryCursor)
    → cursor_at cs i ≡ some c
    → cursor_at (set cs i c') j ≡ (if i == j then some c' else cursor_at cs j)
unfolding cursor_at
cursor_at-set [] i j c c' h = cc
cursor_at-set (x ∷ cs) zero zero c c' h = refl
cursor_at-set (x ∷ cs) zero (suc j) c c' h = ground arith
cursor_at-set (x ∷ cs) (suc i) zero c c' h = ground arith
cursor_at-set (x ∷ cs) (suc i) (suc j) c c' h = ground (arith, cursor_at-set cs i j c c' h)

cursor_at-append :
    (cs : List MemoryCursor) (x c : MemoryCursor) (j : ℕ)
    → cursor_at cs j ≡ some c
    → cursor_at (cs ++ x ∷ []) j ≡ some c
unfolding cursor_at
cursor_at-append [] x c j h = cc
cursor_at-append (y ∷ cs) x c zero h = h
cursor_at-append (y ∷ cs) x c (suc j) h = cursor_at-append cs x c j h

cursor_at-length :
    (cs : List MemoryCursor) (x : MemoryCursor) → cursor_at (cs ++ x ∷ []) (length cs) ≡ some x
unfolding cursor_at
cursor_at-length [] x = refl
cursor_at-length (y ∷ cs) x = cursor_at-length cs x

cursor_index_sound :
    (cs : List MemoryCursor) (name : List ℕ) (i : ℕ)
    → cursor_index cs name ≡ some i
    → (c : MemoryCursor) × (cursor_at cs i ≡ some c) × (str_ieq c.name name ≡ true)
unfolding cursor_index cursor_at
cursor_index_sound [] name i h = absurd (cc)
cursor_index_sound (x ∷ cs) name i h = elim (Bool-cases (str_ieq x.name name)) [
  | inl e ↦ let first : i ≡ 0 = ground arith in (x, rw first, e)
  | inr e ↦ elim (Option-cases (cursor_index cs name)) [
    | inl q ↦ absurd (ground arith)
    | inr (k, q) ↦
        let later : i ≡ suc k = ground arith in
        let (c, at, same) = cursor_index_sound cs name k q in (c, rw later at, same)
  ]
]

find_region_sound :
    (P : MemoryRegion → Type 0) (ms : List MemoryRegion) (name : List ℕ) (m : MemoryRegion)
    → All P ms
    → find_region ms name ≡ some m
    → P m × (str_ieq m.name name ≡ true)
unfolding find_region
find_region_sound P [] name m h e = absurd (cc)
find_region_sound P (x ∷ ms) name m h e = elim (Bool-cases (str_ieq x.name name)) [
  | inl q ↦
      let same : x ≡ m = ground arith in
      subst (λ y. P y × (str_ieq y.name name ≡ true)) same (h.0, q)
  | inr q ↦ find_region_sound P ms name m h.1 (ground arith)
]

pub All-at :
    (P : MemoryCursor → Type 0) (cs : List MemoryCursor) (i : ℕ) (c : MemoryCursor)
    → All P cs
    → cursor_at cs i ≡ some c
    → P c
unfolding cursor_at
All-at P [] i c h e = absurd (cc)
All-at P (x ∷ cs) zero c h e = subst P (cc) h.0
All-at P (x ∷ cs) (suc i) c h e = All-at P cs i c h.1 e

pub All-set :
    (P : MemoryCursor → Type 0) (cs : List MemoryCursor) (i : ℕ) (c : MemoryCursor)
    → All P cs
    → P c
    → All P (set cs i c)
All-set P [] i c h k = h
All-set P (x ∷ cs) zero c h k = (k, h.1)
All-set P (x ∷ cs) (suc i) c h k = (h.0, All-set P cs i c h.1 k)

abbrev pub RegionIsSafe : MemoryRegion → Type 0
RegionIsSafe m = (m.start < 2 ^ 16) × NoWrap m.name (m.start + m.size)

new_cursor-IsSafe : (m : MemoryRegion) → RegionIsSafe m → IsSafe (new_cursor m)
unfolding new_cursor
new_cursor-IsSafe m h = record { small = h.0; no_wrap = h.1 }

-- The cursor that `ensure_cursor` finds or makes.
pub record Ensured (cs : List MemoryCursor) (name : List ℕ) (i : ℕ) (cs' : List MemoryCursor)
    : Type 0 where
  pub there : (c : MemoryCursor) × (cursor_at cs' i ≡ some c) × (str_ieq c.name name ≡ true)
  pub keeps : (j : ℕ) (c : MemoryCursor) → cursor_at cs j ≡ some c → cursor_at cs' j ≡ some c
  pub safe : All IsSafe cs'

pub ensure_cursor-Ensured :
    (cs : List MemoryCursor) (cfg : LinkerConfig) (name : List ℕ) (i : ℕ) (cs' : List MemoryCursor)
    → All IsSafe cs
    → All RegionIsSafe cfg.mem
    → ensure_cursor cs cfg name ≡ ok (i, cs')
    → Ensured cs name i cs'
unfolding ensure_cursor
ensure_cursor-Ensured cs cfg name i cs' safe regions e =
    elim (Option-cases (cursor_index cs name)) [
      | inr (k, q) ↦
          let index : k ≡ i = ground arith in
          let same : cs ≡ cs' = ground arith in
          subst (λ ds. Ensured cs name i ds) same
            (record {
              there = cursor_index_sound cs name i (q ∙ ap some index);
              keeps = λ j c at. at;
              safe = safe;
            })
      | inl q ↦ elim (Option-cases (find_memory cfg name)) [
        | inl r ↦ absurd (ground arith)
        | inr (m, r) ↦
            let index : length cs ≡ i = ground arith in
            let same : cs ++ new_cursor m ∷ [] ≡ cs' = ground arith in
            let (region, named) =
              find_region_sound RegionIsSafe cfg.mem name m regions (unfold find_memory in r) in
            subst (λ ds. Ensured cs name i ds) same
              (record {
                there = (
                  new_cursor m,
                  rw (← index) (cursor_at-length cs (new_cursor m)),
                  unfold new_cursor in named,
                );
                keeps = λ j c at. cursor_at-append cs (new_cursor m) c j at;
                safe =
                    All-append IsSafe cs (new_cursor m ∷ []) safe (new_cursor-IsSafe m region, tt);
              })
      ]
    ]
