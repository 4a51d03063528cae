-- ===== src/Tools/Report.antt =====
-- server/tools/report_state.go, report_blocks.go, chart.go: the data of a report, its errors and
-- the checks that the mutations share. The mutex of the state is not modelled: each operation runs
-- under it from begin to end, so an operation is one function from state to state.
pub mod Blocks
pub mod Evidence
pub mod Charts
pub mod Projection
pub mod Scope
pub mod Finalize
pub mod Ledger
pub mod ChartEdits
pub mod Layout
mod Examples
mod EditExamples
use open_data_analysis.Common.{
  ℕ, suc, ◌+◌, ◌%◌, String, Bool, true, false, not, ◌&&◌, ◌||◌, List, [], ◌∷◌, ◌==◌, eqb,
  if◌then◌else◌, is_blank, is_exact, has_nul, Dict, Result, ok, err, ◌>>=◌, ◌>>◌, refuse,
}

-- The source of a block or a chart; the fields that the kind does not use are "".
pub record EvidenceRef : Type 0 where
  pub kind : String
  pub result_id : String
  pub artifact_id : String
  pub chart_id : String
  pub label : String

-- The rows are kept as their JSON text.
pub record AnalysisResult : Type 0 where
  pub id : String
  pub tool_name : String
  pub operation : String
  pub columns : List String
  pub rows : List String
  pub row_count : ℕ
  pub source_id : String
  pub dialect : String
  pub created_at : String

pub record ArtifactRecord : Type 0 where
  pub id : String
  pub name : String
  pub content_type : String
  pub download_url : String
  pub created_at : String

pub record ReportBlock : Type 0 where
  pub id : String
  pub kind : String
  pub title : String
  pub content : String
  pub chart_id : String
  pub sources : List EvidenceRef

pub record ChartData : Type 0 where
  pub id : String
  pub option : String
  pub width : String
  pub height : String
  pub sources : List EvidenceRef

pub record ReportLayout : Type 0 where
  pub custom_css : String
  pub body_class : String

pub record ReportState : Type 0 where
  pub blocks : List ReportBlock
  pub charts : List ChartData
  pub final_title : String
  pub final_author : String
  pub layout : ReportLayout
  pub needs_finalize : Bool
  pub mutation_version : ℕ  -- uint64
  pub results : Dict AnalysisResult
  pub artifacts : Dict ArtifactRecord

-- The errors, by their messages; the wrapping texts are left out.
pub data ReportError : Type 0 where
  field_required field_not_exact field_has_nul : String → ReportError
  unknown_action unsupported_kind : String → ReportError
  block_exists block_missing anchor_missing : String → ReportError
  both_anchors : ReportError
  out_of_scope : (action block_id : String) → ReportError
  content_required : (kind : String) → ReportError
  chart_id_required : ReportError
  evidence_not_exact evidence_not_single evidence_kind_mismatch : ReportError
  evidence_kind_unknown : String → ReportError
  id_not_exact : ReportError

-- `version++` on a uint64.
abbrev pub next_version : ℕ → ℕ
next_version v = (v + 1) % 18446744073709551616

-- `validateExactReportField`.
unfoldable pub validate_exact_report_field : String → String → Bool → Result ReportError (Unit {0})
validate_exact_report_field field value required = do
  refuse (required && is_blank value) (field_required field)
  refuse (not (is_exact value)) (field_not_exact field)
  refuse (has_nul value) (field_has_nul field)

abbrev pub count_set : List String → ℕ
count_set [] = 0
count_set (v ∷ vs) = let n = count_set vs in if v == "" then n else suc n

unfoldable pub check_evidence_kind : EvidenceRef → Result ReportError (Unit {0})
check_evidence_kind ref =
    if ref.kind == "result"
    then refuse (ref.result_id == "") evidence_kind_mismatch
    else if ref.kind == "artifact"
    then refuse (ref.artifact_id == "") evidence_kind_mismatch
    else if ref.kind == "chart"
    then refuse (ref.chart_id == "") evidence_kind_mismatch
    else err (evidence_kind_unknown ref.kind)

-- `validateEvidenceRefShape`; the four fields are tested in the order in which they are written
-- (the source ranges over a map, and every failure there has the same form).
unfoldable pub validate_evidence_ref_shape : EvidenceRef → Result ReportError (Unit {0})
unfolding check_evidence_kind
validate_evidence_ref_shape ref = do
  refuse
      (not (
        is_exact ref.kind
        && is_exact ref.result_id
        && is_exact ref.artifact_id
        && is_exact ref.chart_id))
      evidence_not_exact
  refuse (not (eqb (count_set (ref.result_id ∷ ref.artifact_id ∷ ref.chart_id ∷ [])) 1))
      evidence_not_single
  check_evidence_kind ref

unfoldable pub validate_sources : List EvidenceRef → Result ReportError (Unit {0})
validate_sources [] = ok tt
validate_sources (ref ∷ refs) = do validate_evidence_ref_shape ref; validate_sources refs
