-- ===== src/Render/Tiles.antt =====
-- The parts of a block (server/render/layout.go `planBlockCuts`).
use open_data_analysis.Common.{
  ℕ, zero, suc, ◌+◌, ◌-◌, ◌≤◌, ◌<◌, some, List, [], ◌∷◌, ◌≡◌, refl, arith, ltb, Bool-cases,
  Option-cases, inl, inr,
}
use open_data_analysis.Render.Slices.{
  BlockRect, AtomicRect, BlockCut, atomic_boundary, cut_of, cuts_from, plan_block_cuts,
}

-- The cuts follow each other from a start to an end, and each is at least one and at most
-- `max_height` high.
abbrev pub IsTiling : (max_height start : ℕ) → List BlockCut → (end : ℕ) → Type 0
IsTiling max_height start [] end = start ≡ end
IsTiling max_height start (c ∷ cs) end =
    (c.from ≡ start)
    × (start < c.to)
    × (c.to ≤ start + max_height)
    × IsTiling max_height c.to cs end

atomic_boundary-lt :
    (atomic : List AtomicRect) (cut boundary : ℕ)
    → atomic_boundary atomic cut ≡ some boundary
    → boundary < cut
unfolding atomic_boundary
atomic_boundary-lt [] cut boundary h = absurd (ground (arith, h))
atomic_boundary-lt (e ∷ es) cut boundary h = elim (Option-cases (atomic_boundary es cut)) [
  | inl n ↦ ground (arith, h, n)
  | inr (b, n) ↦ ground (arith, h, n, atomic_boundary-lt es cut b n)
]

cut_of-Between :
    (atomic : List AtomicRect) (max_height cursor : ℕ)
    → 0 < max_height
    → (cursor < cut_of atomic max_height cursor)
      × (cut_of atomic max_height cursor ≤ cursor + max_height)
unfolding cut_of
cut_of-Between atomic max_height cursor h =
    elim (Option-cases (atomic_boundary atomic (cursor + max_height))) [
      | inl n ↦ (ground (arith, h, n), ground (arith, h, n))
      | inr (b, n) ↦
          let lt = atomic_boundary-lt atomic (cursor + max_height) b n in
          (ground (arith, h, n, lt), ground (arith, h, n, lt))
    ]

cuts_from-IsTiling :
    (atomic : List AtomicRect) (max_height fuel cursor end : ℕ)
    → 0 < max_height
    → cursor ≤ end
    → end < cursor + fuel
    → IsTiling max_height cursor (cuts_from atomic max_height fuel cursor end) end
unfolding cuts_from
cuts_from-IsTiling atomic max_height zero cursor end m le f = absurd (omega (arith, le, f))
cuts_from-IsTiling atomic max_height (suc fuel) cursor end m le f =
    let (lo, hi) = cut_of-Between atomic max_height cursor m in
    let next = cut_of atomic max_height cursor in
    elim (Bool-cases (ltb max_height (end - cursor))) [
      | inl e ↦
          let in_end : next ≤ end = ground (arith, hi, e) in
          rw e (
            refl,
            lo,
            hi,
            cuts_from-IsTiling atomic max_height fuel next end m in_end (omega (arith, lo, f)),
          )
      | inr e ↦ elim (Bool-cases (ltb cursor end)) [
        | inl k ↦ rw e (rw k (refl, ground (arith, k), ground (arith, e), refl))
        | inr k ↦ rw e (rw k (ground (arith, k, le)))
      ]
    ]

-- Let the height of a part be positive. Then the cuts of a block are its parts in order: the first
-- starts where the block does, each starts where the one before ends, the last ends where the block
-- does, and each is at least one and at most that many pixels high.
pub plan_block_cuts-IsTiling :
    (block : BlockRect) (atomic : List AtomicRect) (max_height : ℕ)
    → 0 < max_height
    → IsTiling max_height block.y (plan_block_cuts block atomic max_height) (block.y + block.h)
unfolding plan_block_cuts
plan_block_cuts-IsTiling block atomic max_height m =
    cuts_from-IsTiling atomic max_height (suc block.h) block.y (block.y + block.h) m (omega arith)
      (omega arith)
