-- ===== src/Tools/Report/Finalize/Laws.antt =====
-- The delivery state of a report through finalisation and later mutations.
use open_data_analysis.Common.{
  ◌≤◌, String, Bool, true, false, not, ◌&&◌, ◌||◌, List, [], ◌∷◌, Option, none, some, ◌≡◌, ◌≢◌,
  refl, ap, arith, ne_of_test, ltb, if◌then◌else◌, length, is_blank, ok, err,
}
use open_data_analysis.Tools.Report.{ReportBlock, ReportState}
use open_data_analysis.Tools.Report.Blocks.{
  BlockScope, BlockMutationParams, BlockMutationResult, apply_report_block_mutation,
}
use open_data_analysis.Tools.Report.Blocks.Lists.{Distinct}
use open_data_analysis.Tools.Report.Blocks.Invariant.{apply-Frame}
use open_data_analysis.Tools.Report.Finalize.{
  FinalizeParams, FinalizeResult, already_finalized, describe_report_delivery_state,
  renderable_report_block_count, report_finalize_issues, finalize_report_state, check_goals,
  check_issues, Issue,
}
use open_data_analysis.Tools.Report.Finalize.Issues.{
  IsDeliverable, report_finalize_issues-eq-nil_iff,
}

-- The goals do not stand in the way: there is no checker, or it answers yes.
abbrev pub GoalsAllow : Option (Bool × List String) → Type 0
GoalsAllow none = Unit
GoalsAllow (some (can, blockers)) = can ≡ true

no_issue : (is : List Issue) → check_issues is ≡ ok tt → is ≡ []
no_issue [] h = refl
no_issue (i ∷ is) h = cc

goals_allow : (goals : Option (Bool × List String)) → check_goals goals ≡ ok tt → GoalsAllow goals
goals_allow none h = tt
goals_allow (some (can, blockers)) h = ground arith

allowed_goals : (goals : Option (Bool × List String)) → GoalsAllow goals → check_goals goals ≡ ok tt
allowed_goals none h = refl
allowed_goals (some (can, blockers)) h = ground arith

rendered-le : (bs : List ReportBlock) → renderable_report_block_count bs ≤ length bs
unfolding renderable_report_block_count
rendered-le [] = omega arith
rendered-le (b ∷ bs) = ground (arith, rendered-le bs)

module _ (goals : Option (Bool × List String)) (p : FinalizeParams) (s : ReportState) where
  -- What finalisation writes.
  abbrev pub finalized : ReportState
  finalized = record s {
    final_title = p.report_title;
    final_author = p.author;
    needs_finalize = false;
  }

  -- What finalisation asks for.
  abbrev pub MayFinalize : Type 0
  MayFinalize =
      ((describe_report_delivery_state s).is_finalized ≡ false)
      × (is_blank p.report_title ≡ false)
      × GoalsAllow goals
      × IsDeliverable s

  -- A finalisation that succeeds was asked for with a title on a draft that can be delivered, with
  -- no goal in the way; it writes the title, the author and the mark, and nothing else.
  pub finalize_sound :
      {s' : ReportState} {r : FinalizeResult}
      → finalize_report_state goals p s ≡ ok (s', r)
      → MayFinalize × (s' ≡ finalized)
  unfolding finalize_report_state
  finalize_sound h =
      let issues : check_issues (report_finalize_issues s) ≡ ok tt = ground arith in
      let g : check_goals goals ≡ ok tt = ground arith in
      (
        (
          ground arith,
          ground arith,
          goals_allow goals g,
          (report_finalize_issues-eq-nil_iff s).0 (no_issue (report_finalize_issues s) issues),
        ),
        ground arith,
      )

  -- A finalisation with a title, of a draft that can be delivered and with no goal in the way,
  -- succeeds and gives the finalised report.
  pub finalize_complete :
      MayFinalize → (r : FinalizeResult) × (finalize_report_state goals p s ≡ ok (finalized, r))
  unfolding finalize_report_state
  finalize_complete (draft, title, g, d) = (
    record {
      report_title = p.report_title;
      author = p.author;
      block_count = length s.blocks;
      chart_count = length s.charts;
    },
    rw (draft, title, allowed_goals goals g, (report_finalize_issues-eq-nil_iff s).1 d),
  )

  -- After a finalisation the report is finalised, and a second one is refused as such.
  pub finalize_is_final :
      {s' : ReportState} {r : FinalizeResult} (goals' : Option (Bool × List String))
      (p' : FinalizeParams)
      → finalize_report_state goals p s ≡ ok (s', r)
      → ((describe_report_delivery_state s').is_finalized ≡ true)
        × ((describe_report_delivery_state s').delivery_state ≡ "finalized")
        × (finalize_report_state goals' p' s' ≡ err already_finalized)
  unfolding describe_report_delivery_state finalize_report_state
  finalize_is_final {s'} goals' p' h =
      let ((draft, title, g, d), e) = finalize_sound h in
      let some_block : ltb 0 (length s.blocks) ≡ true =
        let k = d.has_blocks in let l = rendered-le s.blocks in ground arith in
      rw e (rw (some_block, title) (refl, refl, refl))

other_state :
    (has fin : Bool)
    → fin ≡ false
    → ◌≢◌ {A = String} (if has then (if fin then "finalized" else "draft") else "empty") "finalized"
other_state true fin f = rw f (ne_of_test "draft" "finalized" refl)
other_state false fin f = ne_of_test "empty" "finalized" refl

marked_draft :
    (s : ReportState)
    → s.needs_finalize ≡ true
    → ((describe_report_delivery_state s).is_finalized ≡ false)
      × ((describe_report_delivery_state s).delivery_state ≢ "finalized")
unfolding describe_report_delivery_state
marked_draft s m =
    let has = ltb 0 (length s.blocks) || ltb 0 (length s.charts) in
    let f : (has && not s.needs_finalize && not (is_blank s.final_title)) ≡ false = ground arith in
    (f, other_state has _ f)

-- A mutation of the blocks that succeeds takes a finalised report back to a draft.
pub mutation_reopens :
    (scope : BlockScope) (p : BlockMutationParams) (s s' : ReportState) (r : BlockMutationResult)
    → Distinct s.blocks
    → apply_report_block_mutation scope p s ≡ ok (s', r)
    → ((describe_report_delivery_state s').is_finalized ≡ false)
      × ((describe_report_delivery_state s').delivery_state ≢ "finalized")
mutation_reopens scope p s s' r d h =
    let (frame, dist, e) = apply-Frame scope p s s' r d h in
    marked_draft s' (ap (λ (x : ReportState). x.needs_finalize) e)
