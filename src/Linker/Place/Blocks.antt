-- ===== src/Linker/Place/Blocks.antt =====
-- Sequences of calls of `alloc_from_region`, as `layout_objects` makes them.
use n.Prelude.{
  ℕ, ◌+◌, ◌^◌, ◌<◌, ◌≤◌, ◌≡◌, ◌≢◌, refl, ap, ◌∙◌, ◌⊎◌, inl, inr, some, List, [], ◌∷◌, set, All,
  All-map, arith,
}
use mathlib.Core.Path.{subst}
use native.Mathlib.Decide.{ℕ_discrete}
use n.Linker.{LinkerConfig, Fault, Result, ok, err}
use n.Linker.Place.{MemoryCursor, ensure_cursor, cursor_at, bump, alloc_from_region}
use n.Linker.Place.Alloc.{
  IsSafe, Bumped, bump-Bumped, cursor_at-set, All-at, All-set, RegionIsSafe, ensure_cursor-Ensured,
}

-- A placed block, with the index of its region's cursor.
pub record Block : Type 0 where
  pub index : ℕ
  pub addr : ℕ
  pub size : ℕ

-- Successful calls one after the other, and the blocks that they place.
pub data Trace (cfg : LinkerConfig)
    : List MemoryCursor → List Block → List MemoryCursor → Type 0 where
  done : {cs : List MemoryCursor} → Trace cfg cs [] cs
  place :
      {cs cs₀ cs₁ cs₂ : List MemoryCursor} {bs : List Block} (name : List ℕ) (i size addr : ℕ)
      → ensure_cursor cs cfg name ≡ ok (i, cs₀)
      → alloc_from_region cs cfg name size ≡ ok (addr, cs₁)
      → Trace cfg cs₁ bs cs₂
      → Trace cfg cs (record { index = i; addr = addr; size = size } ∷ bs) cs₂

-- One call: the cursor of the block is bumped, and every other stays.
record Step (cs : List MemoryCursor) (i size addr : ℕ) (cs₁ : List MemoryCursor) : Type 0 where
  before : MemoryCursor
  after : MemoryCursor
  bumped : Bumped before size addr after
  known : (c : MemoryCursor) → cursor_at cs i ≡ some c → c ≡ before
  here : cursor_at cs₁ i ≡ some after
  others : (j : ℕ) (c : MemoryCursor) → i ≢ j → cursor_at cs j ≡ some c → cursor_at cs₁ j ≡ some c
  safe : All IsSafe cs₁

Result-cases :
    (r : Result (ℕ × MemoryCursor))
    → ((a : ℕ) × (c : MemoryCursor) × (r ≡ ok (a, c))) ⊎ ((e : Fault) × (r ≡ err e))
Result-cases (ok (a, c)) = inl (a, c, refl)
Result-cases (err e) = inr (e, refl)

alloc_bumps :
    (cfg : LinkerConfig) (cs cs₀ cs₁ : List MemoryCursor) (name : List ℕ) (i size addr : ℕ)
    (c : MemoryCursor)
    → ensure_cursor cs cfg name ≡ ok (i, cs₀)
    → cursor_at cs₀ i ≡ some c
    → alloc_from_region cs cfg name size ≡ ok (addr, cs₁)
    → (c' : MemoryCursor) × (bump c name size ≡ ok (addr, c')) × (set cs₀ i c' ≡ cs₁)
unfolding alloc_from_region
alloc_bumps cfg cs cs₀ cs₁ name i size addr c e at f = elim (Result-cases (bump c name size)) [
  | inl (a, c', q) ↦
      let same : a ≡ addr = ground arith in (c', q ∙ ap (λ x. ok (x, c')) same, ground arith)
  | inr (x, q) ↦ absurd (ground arith)
]

-- Each block ends before every later block of its region starts, and none ends at 0x10000.
abbrev pub Apart : List Block → Type 0
Apart [] = Unit
Apart (b ∷ bs) =
    (b.addr + b.size < 2 ^ 16)
    × All (λ b'. b'.index ≡ b.index → b.addr + b.size ≤ b'.addr) bs
    × Apart bs

module _ (cfg : LinkerConfig) (regions : All RegionIsSafe cfg.mem) where
  alloc-Step :
      (cs cs₀ cs₁ : List MemoryCursor) (name : List ℕ) (i size addr : ℕ)
      → All IsSafe cs
      → ensure_cursor cs cfg name ≡ ok (i, cs₀)
      → alloc_from_region cs cfg name size ≡ ok (addr, cs₁)
      → Step cs i size addr cs₁
  alloc-Step cs cs₀ cs₁ name i size addr safe e f =
      let ens = ensure_cursor-Ensured cs cfg name i cs₀ safe regions e in
      let (c, at, same) = ens.there in
      let (c', b, set_) = alloc_bumps cfg cs cs₀ cs₁ name i size addr c e at f in
      let bumped : Bumped c size addr c' =
        bump-Bumped c name size addr c' (All-at IsSafe cs₀ i c ens.safe at) same b in
      subst (Step cs i size addr) set_ (record {
        before = c;
        after = c';
        bumped = bumped;
        known = λ d there. cc (ens.keeps i d there);
        here = ground (arith, cursor_at-set cs₀ i i c c' at);
        others =
            λ j d apart there. ground (arith, cursor_at-set cs₀ i j c c' at, ens.keeps j d there);
        safe = All-set IsSafe cs₀ i c' ens.safe bumped.safe;
      })

  -- Later blocks of a cursor start at or after its `cur`.
  floor :
      {cs cs' : List MemoryCursor} {bs : List Block} (j : ℕ) (c : MemoryCursor)
      → All IsSafe cs
      → Trace cfg cs bs cs'
      → cursor_at cs j ≡ some c
      → All (λ b. b.index ≡ j → c.cur ≤ b.addr) bs
  floor j c safe done at = tt
  floor {cs} j c safe (place {cs₀} {cs₁} {bs = bs} name i size addr e f rest) at =
      let step = alloc-Step cs cs₀ cs₁ name i size addr safe e f in
      elim (ℕ_discrete i j) [
        | yes same ↦
            let there : cursor_at cs i ≡ some c = rw same at in
            let from : c ≡ step.before = step.known c there in
            let later : All (λ b. b.index ≡ j → step.after.cur ≤ b.addr) bs =
              floor j step.after step.safe rest (rw (← same) step.here) in
            (
              λ q. omega (arith, step.bumped.starts, ap MemoryCursor.cur from),
              All-map (λ b. b.index ≡ j → step.after.cur ≤ b.addr)
                  (λ b. b.index ≡ j → c.cur ≤ b.addr) bs
                  (λ b k q. omega (arith, k q, step.bumped.moves, ap MemoryCursor.cur from)) later,
            )
        | no apart ↦ (λ q. absurd (apart q), floor j c step.safe rest (step.others j c apart at))
      ]

  -- Successful calls of `alloc_from_region`, from cursors that cannot wrap and with regions of
  -- which none but ROM reaches 0x10000: every block ends below 0x10000, and before each later
  -- block of its region starts.
  pub blocks-Apart :
      {cs cs' : List MemoryCursor} {bs : List Block}
      → All IsSafe cs
      → Trace cfg cs bs cs'
      → Apart bs
  blocks-Apart safe done = tt
  blocks-Apart {cs} safe (place {cs₀} {cs₁} {bs = bs} name i size addr e f rest) =
      let step = alloc-Step cs cs₀ cs₁ name i size addr safe e f in
      (
        omega (arith, step.bumped.starts, step.bumped.moves, step.bumped.safe.small),
        All-map (λ b. b.index ≡ i → step.after.cur ≤ b.addr)
            (λ b. b.index ≡ i → addr + size ≤ b.addr) bs
            (λ b k q. omega (arith, k q, step.bumped.starts, step.bumped.moves))
            (floor i step.after step.safe rest step.here),
        blocks-Apart step.safe rest,
      )
