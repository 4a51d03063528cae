-- ===== src/Tools/Report/Finalize.antt =====
-- server/tools/report_guardrails.go (issues), report_finalize.go, report_state.go (delivery state),
-- report_layout.go, report_charts.go: the other operations on the report.
pub mod Issues
pub mod Laws
use open_data_analysis.Common.{
  ℕ, zero, suc, ◌+◌, String, Bool, true, false, not, ◌&&◌, ◌||◌, List, [], ◌∷◌, ◌++◌, Option, none,
  some, ◌==◌, eqb, ltb, leb, if◌then◌else◌, length, any, is_blank, is_some, lookup, Dict, Result,
  ok, err, ◌>>=◌, ◌>>◌, refuse,
}
use open_data_analysis.Tools.Report.{
  EvidenceRef, ReportBlock, ChartData, ReportLayout, ReportState, ReportError, AnalysisResult,
  ArtifactRecord, next_version, count_set, validate_exact_report_field, validate_sources,
  unknown_action,
}
use open_data_analysis.Tools.Report.Charts.{chart_references}

-- `ReportDeliveryState`; the kind of state is "empty", "draft" or "finalized".
pub record ReportDeliveryState : Type 0 where
  pub has_content : Bool
  pub is_finalized : Bool
  pub needs_finalize : Bool
  pub delivery_state : String
  pub block_count : ℕ
  pub chart_count : ℕ
  pub final_title : String
  pub final_author : String

-- `describeReportDeliveryStateLocked`.
unfoldable pub describe_report_delivery_state : ReportState → ReportDeliveryState
describe_report_delivery_state s =
    let has = ltb 0 (length s.blocks) || ltb 0 (length s.charts) in
    let fin = has && not s.needs_finalize && not (is_blank s.final_title) in
    record {
      has_content = has;
      is_finalized = fin;
      needs_finalize = s.needs_finalize;
      delivery_state = if has then (if fin then "finalized" else "draft") else "empty";
      block_count = length s.blocks;
      chart_count = length s.charts;
      final_title = s.final_title;
      final_author = s.final_author;
    }

-- The issues, by their codes. The index of an evidence reference in its list is left out.
pub data Issue : Type 0 where
  report_title_missing report_has_no_blocks : Issue
  missing_chart : String → Issue
  duplicate_chart : String → ℕ → Issue
  invalid_evidence_ref evidence_kind_mismatch : (owner : String) → Issue
  unknown_result_ref unknown_artifact_ref unknown_chart_ref unknown_evidence_kind :
      (owner id : String) → Issue

-- A set of ids: each is kept once.
unfoldable pub dedup : List String → List String
dedup [] = []
dedup (id ∷ ids) = let rest = dedup ids in if any (λ x. x == id) rest then rest else id ∷ rest

-- The charts that one block refers to: its own, for a chart block; the references in the content,
-- each once, for any other.
unfoldable pub block_chart_refs : ReportBlock → List String
block_chart_refs b =
    if b.kind == "chart"
    then (if b.chart_id == "" then [] else b.chart_id ∷ [])
    else dedup (chart_references b.content)

-- All references of the report, as often as `refCounts` counts them.
unfoldable pub all_chart_refs : List ReportBlock → List String
all_chart_refs [] = []
all_chart_refs (b ∷ bs) = block_chart_refs b ++ all_chart_refs bs

unfoldable pub count_id : String → List String → ℕ
count_id id [] = 0
count_id id (x ∷ xs) = let n = count_id id xs in if x == id then suc n else n

unfoldable pub has_chart : List ChartData → String → Bool
has_chart [] id = false
has_chart (c ∷ cs) id = c.id == id || has_chart cs id

-- `chartSet` leaves out a chart with no id.
unfoldable pub in_chart_set : List ChartData → String → Bool
in_chart_set charts id = not (id == "") && has_chart charts id

unfoldable pub missing_issues : List ChartData → List String → List Issue
missing_issues charts [] = []
missing_issues charts (id ∷ ids) =
    let rest = missing_issues charts ids in
    if in_chart_set charts id then rest else missing_chart id ∷ rest

unfoldable pub duplicate_issues : List String → List String → List Issue
duplicate_issues refs [] = []
duplicate_issues refs (id ∷ ids) =
    let rest = duplicate_issues refs ids in
    if ltb 1 (count_id id refs) then duplicate_chart id (count_id id refs) ∷ rest else rest

-- `renderableReportBlockCount`.
unfoldable pub renderable_report_block_count : List ReportBlock → ℕ
renderable_report_block_count [] = 0
renderable_report_block_count (b ∷ bs) =
    let n = renderable_report_block_count bs in
    if b.kind == "markdown" || b.kind == "html" || b.kind == "chart" then suc n else n

unfoldable pub evidence_issues_of : ReportState → String → EvidenceRef → List Issue
evidence_issues_of s owner ref =
    if not (eqb (count_set (ref.result_id ∷ ref.artifact_id ∷ ref.chart_id ∷ [])) 1)
    then invalid_evidence_ref owner ∷ []
    else if ref.kind == "result"
    then (if ref.result_id == ""
        then evidence_kind_mismatch owner ∷ []
        else if is_some (lookup ref.result_id s.results)
        then []
        else unknown_result_ref owner ref.result_id ∷ [])
    else if ref.kind == "artifact"
    then (if ref.artifact_id == ""
        then evidence_kind_mismatch owner ∷ []
        else if is_some (lookup ref.artifact_id s.artifacts)
        then []
        else unknown_artifact_ref owner ref.artifact_id ∷ [])
    else if ref.kind == "chart"
    then (if ref.chart_id == ""
        then evidence_kind_mismatch owner ∷ []
        else if has_chart s.charts ref.chart_id
        then []
        else unknown_chart_ref owner ref.chart_id ∷ [])
    else unknown_evidence_kind owner ref.kind ∷ []

unfoldable pub evidence_issues : ReportState → String → List EvidenceRef → List Issue
evidence_issues s owner [] = []
evidence_issues s owner (ref ∷ refs) =
    evidence_issues_of s owner ref ++ evidence_issues s owner refs

unfoldable pub block_evidence_issues : ReportState → List ReportBlock → List Issue
block_evidence_issues s [] = []
block_evidence_issues s (b ∷ bs) = evidence_issues s b.id b.sources ++ block_evidence_issues s bs

unfoldable pub chart_evidence_issues : ReportState → List ChartData → List Issue
chart_evidence_issues s [] = []
chart_evidence_issues s (c ∷ cs) = evidence_issues s c.id c.sources ++ chart_evidence_issues s cs

-- `reportFinalizeIssues`. The source sorts the chart ids of each kind of issue; here they come in
-- the order of their last reference.
unfoldable pub report_finalize_issues : ReportState → List Issue
report_finalize_issues s =
    let refs = all_chart_refs s.blocks in
    (if eqb (renderable_report_block_count s.blocks) 0 then report_has_no_blocks ∷ [] else [])
    ++ (missing_issues s.charts (dedup refs)
        ++ (duplicate_issues refs (dedup refs)
            ++ (block_evidence_issues s s.blocks ++ chart_evidence_issues s s.charts)))

pub record FinalizeParams : Type 0 where
  pub report_title : String
  pub author : String

pub data FinalizeError : Type 0 where
  already_finalized : FinalizeError
  blocked : (blockers : List String) → FinalizeError
  has_issues : (issues : List Issue) → FinalizeError

pub record FinalizeResult : Type 0 where
  pub report_title : String
  pub author : String
  pub block_count : ℕ
  pub chart_count : ℕ

-- What `CanFinalize` answers; a nil checker is `none`.
abbrev pub check_goals : Option (Bool × List String) → Result FinalizeError (Unit {0})
check_goals none = ok tt
check_goals (some (can, blockers)) = refuse (not can) (blocked blockers)

abbrev pub check_issues : List Issue → Result FinalizeError (Unit {0})
check_issues [] = ok tt
check_issues (i ∷ is) = err (has_issues (i ∷ is))

-- `finalizeReportState`.
unfoldable pub finalize_report_state :
    Option (Bool × List String)
    → FinalizeParams
    → ReportState
    → Result FinalizeError (ReportState × FinalizeResult)
finalize_report_state goals p s = do
  refuse (describe_report_delivery_state s).is_finalized already_finalized
  refuse (is_blank p.report_title) (has_issues (report_title_missing ∷ []))
  check_goals goals
  check_issues (report_finalize_issues s)
  ok (
    record s { final_title = p.report_title; final_author = p.author; needs_finalize = false },
    record {
      report_title = p.report_title;
      author = p.author;
      block_count = length s.blocks;
      chart_count = length s.charts;
    },
  )
