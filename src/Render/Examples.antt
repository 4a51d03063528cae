-- ===== src/Render/Examples.antt =====
-- Slices of a page and a full cache, and their theorems at those inputs.
use open_data_analysis.Common.{
  ◌+◌, arith, some, [], ◌∷◌, ◌≡◌, refl, lookup, insert, remove, ◌⊎◌, eq_iff,
}
use open_data_analysis.Render.Slices.{
  BlockRect, AtomicRect, atomic_boundary, cut_of, cuts_from, plan_block_cuts, slices_from,
  plan_slices,
}
use open_data_analysis.Render.Tiles.{IsTiling, plan_block_cuts-IsTiling}
use open_data_analysis.Render.Cache.{
  MemoryCache, new_memory_cache, evict_oldest, put, get, IsCache, IsOldest, put-IsPut,
}

-- Opens all that the runs compute with.
render_run : Unit {0}
unfolding lookup insert remove atomic_boundary cut_of cuts_from plan_block_cuts slices_from
    plan_slices new_memory_cache evict_oldest put
render_run = tt

abbrev block : BlockRect
block = record { block_id = "b1"; kind = "markdown"; y = 100; h = 2000; w = 1200 }

abbrev chart : AtomicRect
chart = record { y = 900; h = 400 }

-- The cut at 1060 would cross the chart, so that the first part ends before it.
slices_run :
    plan_slices (block ∷ []) (chart ∷ []) 0
    ≡ record { block_id = "b1"; kind = "markdown"; index = 1; total = 3; y = 100; height = 798 }
      ∷ record { block_id = "b1"; kind = "markdown"; index = 2; total = 3; y = 898; height = 960 }
      ∷ record { block_id = "b1"; kind = "markdown"; index = 3; total = 3; y = 1858; height = 242 }
      ∷ []
unfolding render_run
slices_run = refl

plan_block_cuts-IsTiling_example :
    IsTiling 960 block.y (plan_block_cuts block (chart ∷ []) 960) (block.y + block.h)
plan_block_cuts-IsTiling_example = plan_block_cuts-IsTiling block (chart ∷ []) 960 (omega arith)

abbrev full : MemoryCache
full = record { max_entries = 2; entries = ("a", "1") ∷ ("b", "2") ∷ []; order = "a" ∷ "b" ∷ [] }

full-IsCache : IsCache full
unfolding render_run
full-IsCache = record {
  positive = omega arith;
  bounded = omega arith;
  unique = (refl, (refl, tt));
  listed = λ k. ground (arith, eq_iff "a" k, eq_iff "b" k);
}

put-IsPut_example :
    IsCache (put "c" "3" full)
    × (get "c" (put "c" "3" full) ≡ some "3")
    × ((get "a" (put "c" "3" full) ≡ get "a" full) ⊎ IsOldest "a" full)
unfolding render_run
put-IsPut_example = put-IsPut "c" "3" "a" full full-IsCache refl refl refl
