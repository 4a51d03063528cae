-- ===== src/Agent/Compaction/Laws.antt =====
-- Compaction keeps the protocol, the pinned task and the recent items.
use open_data_analysis.Common.{
  ℕ, ◌+◌, ◌-◌, ◌≤◌, ◌<◌, String, true, false, ◌||◌, Option, none, some, [], ◌++◌, ◌≡◌, ◌⊎◌, refl,
  arith, length, take, drop, leb, ltb, eqb, is_blank, Bool-cases, inl, inr,
}
use open_data_analysis.Agent.Compaction.{
  Engine, recent_context_window, pinned_history_items, adjust_compaction_boundary,
  select_compaction_span, apply_compaction, text_of, compact,
}

abbrev pub boundary_of : Engine → ℕ
boundary_of e = adjust_compaction_boundary e.history (length e.history - recent_context_window)

abbrev pub pinned_of : Engine → ℕ
pinned_of e = pinned_history_items e.history

select_cases :
    (e : Engine)
    → (select_compaction_span e ≡ ([], 0, pinned_of e))
      ⊎ ((select_compaction_span e ≡ (
        take (boundary_of e - pinned_of e) (drop (pinned_of e) e.history),
        boundary_of e - pinned_of e,
        pinned_of e,
      ))
          × (recent_context_window < length e.history)
          × (pinned_of e < boundary_of e))
unfolding select_compaction_span
select_cases e = elim (Bool-cases (leb (length e.history) (recent_context_window + pinned_of e))) [
  | inl s ↦ inl (rw s refl)
  | inr s ↦ elim (Bool-cases (leb (boundary_of e) (pinned_of e))) [
    | inl b ↦ inl (rw (s, b) refl)
    | inr b ↦ inr (rw (s, b) refl, ground arith, ground arith)
  ]
]

pub apply_cut :
    (count pinned : ℕ) (summary : String) (e : Engine)
    → 0 < count
    → pinned + count ≤ length e.history
    → (apply_compaction count pinned summary e).history
      ≡ take pinned e.history ++ drop (pinned + count) e.history
unfolding apply_compaction
apply_cut count pinned summary e c l =
    let guard : (eqb count 0 || ltb (length e.history) (pinned + count)) ≡ false = ground arith in
    elim (Bool-cases (is_blank summary)) [ inl b ↦ rw (guard, b) refl | inr b ↦ rw (guard, b) refl ]

pub compact_cases :
    (summary : Option String) (e : Engine)
    → (compact summary e ≡ (e, none))
      ⊎ ((compact summary e ≡ (
        apply_compaction (boundary_of e - pinned_of e) (pinned_of e) (text_of summary) e,
        some (boundary_of e - pinned_of e, pinned_of e),
      ))
          × (recent_context_window < length e.history)
          × (pinned_of e < boundary_of e))
unfolding compact
compact_cases summary e = elim (select_cases e) [
  | inl s ↦ inl (rw s refl)
  | inr (s, l, b) ↦
      let go : ltb 0 (boundary_of e - pinned_of e) ≡ true = ground arith in
      inr (rw (s, go) refl, l, b)
]
