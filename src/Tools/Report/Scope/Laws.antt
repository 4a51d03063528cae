-- ===== src/Tools/Report/Scope/Laws.antt =====
-- What a scope lets the block, chart and layout mutations change.
use open_data_analysis.Common.{
  ℕ, String, true, some, ◌||◌, List, [], ◌∷◌, ◌≡◌, ◌≢◌, ◌⊎◌, refl, inl, inr, arith, eq_iff,
  ne_of_test, ◌==◌, codes, ok, Bool-cases, Result-cases,
}
use open_data_analysis.Tools.Report.{EvidenceRef, ReportBlock, ReportState}
use open_data_analysis.Tools.Report.Blocks.{
  BlockScope, BlockMutationParams, BlockMutationResult, upsert_report_block, remove_report_block,
  move_report_block, dispatch_block_action, apply_report_block_mutation, build_report_block,
}
use open_data_analysis.Tools.Report.Blocks.Lists.{Distinct}
use open_data_analysis.Tools.Report.Blocks.Effects.{written, build-eq-written}
use open_data_analysis.Tools.Report.Blocks.Invariant.{
  Frame, apply-Frame, dispatch_of_apply, upsert_of_dispatch,
}
use open_data_analysis.Tools.Report.Scope.{
  ReportEditState, block_mutation_allowed, selection_mutation_allowed,
  selection_block_mutation_allowed, selection_bounds, edit_scope, evidence_refs_equal,
}
use open_data_analysis.Tools.Report.Scope.Selection.{KeepsOutside, selection-KeepsOutside}

module _ (scope : BlockScope) (p : BlockMutationParams) (s : ReportState) where
  upsert_allowed :
      {x : ReportState × BlockMutationResult}
      → upsert_report_block scope p s ≡ ok x
      → (scope.block_allowed p.action p.block_id ≡ true)
        × (scope.selection_allowed (written p) ≡ true)
  unfolding upsert_report_block
  upsert_allowed h =
      elim (Result-cases
        (build_report_block p.block_kind p.block_id p.title p.content p.chart_id p.sources)) [
          | inr (x, e) ↦ absurd (ground arith)
          | inl (b, e) ↦ (ground arith, ground (arith, build-eq-written p e))
        ]

  remove_allowed :
      {x : ReportState × BlockMutationResult}
      → remove_report_block scope p s ≡ ok x
      → scope.block_allowed p.action p.block_id ≡ true
  unfolding remove_report_block
  remove_allowed h = ground arith

  move_allowed :
      {x : ReportState × BlockMutationResult}
      → move_report_block scope p s ≡ ok x
      → scope.block_allowed p.action p.block_id ≡ true
  unfolding move_report_block
  move_allowed h = ground arith

  -- No mutation succeeds that the scope does not allow.
  apply_allowed :
      {x : ReportState × BlockMutationResult}
      → apply_report_block_mutation scope p s ≡ ok x
      → scope.block_allowed p.action p.block_id ≡ true
  unfolding dispatch_block_action
  apply_allowed {x} h =
      let g = dispatch_of_apply scope p s h in
      elim (Bool-cases (p.action == "append" || p.action == "upsert")) [
        | inl a ↦
            (upsert_allowed (let u : upsert_report_block scope p s ≡ ok x = ground arith in u)).0
        | inr a ↦ elim (Bool-cases (p.action == "remove")) [
          | inl c ↦
              remove_allowed (let u : remove_report_block scope p s ≡ ok x = ground arith in u)
          | inr c ↦ elim (Bool-cases (p.action == "move")) [
            | inl m ↦ move_allowed (let u : move_report_block scope p s ≡ ok x = ground arith in u)
            | inr m ↦ absurd (ground arith)
          ]
        ]
      ]

evidence_refs_equal→eq : (xs ys : List EvidenceRef) → evidence_refs_equal xs ys ≡ true → xs ≡ ys
unfolding evidence_refs_equal
evidence_refs_equal→eq [] [] h = refl
evidence_refs_equal→eq [] (y ∷ ys) h = cc
evidence_refs_equal→eq (x ∷ xs) [] h = cc
evidence_refs_equal→eq (x ∷ xs) (y ∷ ys) h = ground (
  arith,
  eq_iff x.kind y.kind,
  eq_iff x.result_id y.result_id,
  eq_iff x.artifact_id y.artifact_id,
  eq_iff x.chart_id y.chart_id,
  eq_iff x.label y.label,
  evidence_refs_equal→eq xs ys,
)

module _ (unescape : List ℕ → List ℕ) (e : ReportEditState) where
  abbrev pub IsLimited : Type 0
  IsLimited = (e.scope_kind ≢ "") × (e.scope_kind ≢ "whole_report")

  limited_allowed :
      (action block_id : String)
      → IsLimited
      → block_mutation_allowed e action block_id ≡ true
      → ((e.scope_kind ≡ "partial_block") ⊎ (e.scope_kind ≡ "partial_selection"))
        × (action ≡ "upsert")
        × (block_id ≡ e.target_block_id)
        × (e.target_block_id ≢ "")
  unfolding block_mutation_allowed
  limited_allowed action block_id l h = ground (
    arith,
    eq_iff e.scope_kind "",
    eq_iff e.scope_kind "whole_report",
    eq_iff e.scope_kind "partial_block",
    eq_iff e.scope_kind "partial_selection",
    eq_iff action "upsert",
    eq_iff e.target_block_id "",
    eq_iff block_id e.target_block_id,
  )

  -- Under a limited scope the only mutation of a block that succeeds is an upsert of the target
  -- block of a block or selection scope, and it leaves every other block and the rest of the report
  -- as they were.
  pub scoped_mutation :
      (p : BlockMutationParams) (s s' : ReportState) (r : BlockMutationResult)
      → Distinct s.blocks
      → IsLimited
      → apply_report_block_mutation (edit_scope unescape e) p s ≡ ok (s', r)
      → ((e.scope_kind ≡ "partial_block") ⊎ (e.scope_kind ≡ "partial_selection"))
        × (p.action ≡ "upsert")
        × (p.block_id ≡ e.target_block_id)
        × Frame p s s'
  unfolding edit_scope
  scoped_mutation p s s' r d l h =
      let ok_scope = apply_allowed (edit_scope unescape e) p s h in
      let (kind, act, same, set) = limited_allowed p.action p.block_id l ok_scope in
      (kind, act, same, apply-Frame (edit_scope unescape e) p s s' r d h)

  selection_keeps_fields :
      (b : ReportBlock)
      → e.scope_kind ≡ "partial_selection"
      → selection_block_mutation_allowed unescape e b ≡ true
      → (selection_mutation_allowed unescape e b.id b.content ≡ true)
        × ((e.target_block_kind ≡ "") ⊎ (b.kind ≡ e.target_block_kind))
        × (b.title ≡ e.target_block_title)
        × (b.chart_id ≡ e.target_block_chart_id)
        × (evidence_refs_equal b.sources e.target_block_sources ≡ true)
  unfolding selection_block_mutation_allowed
  selection_keeps_fields b k h = ground (
    arith,
    eq_iff e.scope_kind "partial_selection",
    eq_iff e.target_block_kind "",
    eq_iff b.kind e.target_block_kind,
    eq_iff b.title e.target_block_title,
    eq_iff b.chart_id e.target_block_chart_id,
  )

  -- Under a selection scope a successful mutation upserts the target block, keeps its kind (if it is
  -- known), title, chart and sources; the selection resolves to a range of runes of its content, and
  -- the text on both sides of that range is kept.
  pub selection_mutation :
      (p : BlockMutationParams) (s s' : ReportState) (r : BlockMutationResult)
      → e.scope_kind ≡ "partial_selection"
      → apply_report_block_mutation (edit_scope unescape e) p s ≡ ok (s', r)
      → (p.action ≡ "upsert")
        × (p.block_id ≡ e.target_block_id)
        × ((e.target_block_kind ≡ "") ⊎ (p.block_kind ≡ e.target_block_kind))
        × (p.title ≡ e.target_block_title)
        × (p.chart_id ≡ e.target_block_chart_id)
        × (p.sources ≡ e.target_block_sources)
        × ((start : ℕ) × (end : ℕ) × (selection_bounds unescape e (codes e.target_block_content)
              ≡ some (start, end))
            × KeepsOutside start end (codes e.target_block_content) (codes p.content))
  unfolding edit_scope
  selection_mutation p s s' r k h =
      let scope = edit_scope unescape e in
      let (kind, act, same, set) =
        limited_allowed p.action p.block_id (rw k (ne_of_test _ _ refl), rw k (ne_of_test _ _ refl))
          (apply_allowed scope p s h) in
      let up = upsert_of_dispatch scope p s (dispatch_of_apply scope p s h) (inr act) in
      let (m, ki, ti, ch, so) =
        selection_keeps_fields (written p) k (upsert_allowed scope p s up).1 in
      let (id, keeps) = selection-KeepsOutside unescape e p.block_id p.content k m in
      (act, id, ki, ti, ch, evidence_refs_equal→eq _ _ so, keeps)
