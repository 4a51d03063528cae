-- ===== src/Render/Slices.antt =====
-- The cuts of a captured page (server/render/layout.go). A coordinate is an offset from the top of
-- the page, which is not negative here; the label of a part is its place and the number of parts.
use open_data_analysis.Common.{
  ℕ, zero, suc, ◌+◌, ◌-◌, String, Bool, ◌&&◌, ◌||◌, Option, none, some, List, [], ◌∷◌, ◌++◌, ltb,
  leb, eqb, length, if◌then◌else◌,
}

pub record BlockRect : Type 0 where
  pub block_id : String
  pub kind : String
  pub y : ℕ
  pub h : ℕ
  pub w : ℕ

pub record AtomicRect : Type 0 where
  pub y : ℕ
  pub h : ℕ

pub record BlockCut : Type 0 where
  pub from : ℕ
  pub to : ℕ

pub record Slice : Type 0 where
  pub block_id : String
  pub kind : String
  pub index : ℕ
  pub total : ℕ
  pub y : ℕ
  pub height : ℕ

abbrev pub default_slice_height : ℕ
default_slice_height = 960

abbrev pub min_part_height : ℕ
min_part_height = 320

-- The element crosses the cut line.
abbrev pub crosses : ℕ → AtomicRect → Bool
crosses cut e = ltb e.y cut && ltb cut (e.y + e.h)

-- `atomicBoundary`: where the first of the elements starts that the line crosses.
unfoldable pub atomic_boundary : List AtomicRect → ℕ → Option ℕ
atomic_boundary [] cut = none
atomic_boundary (e ∷ es) cut =
    let rest = atomic_boundary es cut in
    if crosses cut e
    then (elim rest [ none ↦ some e.y | some best ↦ if ltb best e.y then some best else some e.y ])
    else rest

-- Where the part that starts at the cursor ends, if it is not the last one.
unfoldable pub cut_of : List AtomicRect → (max_height cursor : ℕ) → ℕ
cut_of atomic max_height cursor =
    let candidate = cursor + max_height in
    let safe : ℕ = elim (atomic_boundary atomic candidate) [
      | none ↦ candidate
      | some boundary ↦
          if ltb (cursor + min_part_height + 2) boundary then boundary - 2 else candidate
    ] in
    if leb safe cursor then cursor + max_height else safe

-- The loop of `planBlockCuts`, from a cursor to the end of a block, in a number of rounds.
unfoldable pub cuts_from : List AtomicRect → (max_height fuel cursor end : ℕ) → List BlockCut
cuts_from atomic max_height zero cursor end = []
cuts_from atomic max_height (suc fuel) cursor end =
    let next = cut_of atomic max_height cursor in
    let rest = cuts_from atomic max_height fuel next end in
    if ltb max_height (end - cursor)
    then record { from = cursor; to = next } ∷ rest
    else if ltb cursor end
    then record { from = cursor; to = end } ∷ []
    else []

-- `planBlockCuts`; every round but the last moves the cursor, so the height and one are enough rounds.
unfoldable pub plan_block_cuts : BlockRect → List AtomicRect → (max_height : ℕ) → List BlockCut
plan_block_cuts block atomic max_height =
    cuts_from atomic max_height (suc block.h) block.y (block.y + block.h)

-- The slices of the cuts of a block, from an index on.
abbrev pub slices_of : BlockRect → (total index : ℕ) → List BlockCut → List Slice
slices_of block total index [] = []
slices_of block total index (c ∷ cs) =
    record {
      block_id = block.block_id;
      kind = block.kind;
      index = index + 1;
      total = total;
      y = c.from;
      height = c.to - c.from;
    }
    ∷ slices_of block total (suc index) cs

unfoldable pub slices_from : List BlockRect → List AtomicRect → (max_height : ℕ) → List Slice
slices_from [] atomic max_height = []
slices_from (b ∷ bs) atomic max_height =
    let rest = slices_from bs atomic max_height in
    if eqb b.h 0 || eqb b.w 0
    then rest
    else (let cuts = plan_block_cuts b atomic max_height in
        slices_of b (length cuts) 0 cuts ++ rest)

-- `PlanSlices`.
unfoldable pub plan_slices : List BlockRect → List AtomicRect → (max_height : ℕ) → List Slice
plan_slices blocks atomic max_height =
    slices_from blocks atomic (if eqb max_height 0 then default_slice_height else max_height)
