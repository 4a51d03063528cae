-- ===== src/Session/Snapshot.antt =====
-- Loading a stored report into a session (server/session/types.go `LoadReportSnapshot`). What
-- `jsoncontract.Decode` gives for the stored texts is a parameter.
pub mod Laws
use open_data_analysis.Common.{
  ℕ, String, Bool, true, false, not, ◌&&◌, ◌||◌, ◌==◌, Option, none, some, List, [], ◌∷◌, Dict, any,
  is_exact, is_blank, if◌then◌else◌, Result, ok, err, refuse, ◌>>=◌, ◌>>◌,
}
use open_data_analysis.Tools.Report.{
  EvidenceRef, AnalysisResult, ArtifactRecord, ReportBlock, ChartData, ReportLayout, ReportState,
}
use open_data_analysis.Tools.Report.Ledger.{
  DecodeError, decode_analysis_results, decode_artifact_records, decode_evidence_refs,
}
use open_data_analysis.Tools.Report.Scope.{ReportEditState, refresh_from_report_state}

-- The stored forms (server/domain/report.go); a RawMessage is a text.
pub record SnapshotBlock : Type 0 where
  pub id : String
  pub kind : String
  pub title : String
  pub content : String
  pub chart_id : String
  pub sources : String

pub record SnapshotChart : Type 0 where
  pub id : String
  pub option : String
  pub width : String
  pub height : String
  pub sources : String

pub record ReportSnapshot : Type 0 where
  pub title : String
  pub author : String
  pub needs_finalize : Bool
  pub layout : ReportLayout
  pub blocks : List SnapshotBlock
  pub charts : List SnapshotChart
  pub results : String
  pub artifacts : String

pub data SnapshotError : Type 0 where
  bad_results bad_artifacts : DecodeError → SnapshotError
  block_id_not_exact chart_id_not_exact : SnapshotError
  block_id_duplicated block_structure chart_block_id : (id : String) → SnapshotError
  block_kind : (id kind : String) → SnapshotError
  block_sources chart_sources : (id : String) → DecodeError → SnapshotError
  chart_id_duplicated option_not_json option_not_object : (id : String) → SnapshotError

-- What the decoder gives for each destination type: none is an error, `some none` a JSON null. The
-- option of a chart is only tested to be an object.
pub record Json : Type 0 where
  pub results : String → Option (Option (Dict AnalysisResult))
  pub artifacts : String → Option (Option (Dict ArtifactRecord))
  pub refs : String → Option (Option (List EvidenceRef))
  pub object : String → Option Bool

abbrev pub wrap : {E A : Type 0} → (E → SnapshotError) → Result E A → Result SnapshotError A
wrap f (ok a) = ok a
wrap f (err e) = err (f e)

unfoldable pub check_stored_kind : SnapshotBlock → Result SnapshotError (Unit {0})
check_stored_kind b =
    if b.kind == "markdown" || b.kind == "html"
    then refuse (is_blank b.content || not (b.chart_id == "")) (block_structure b.id)
    else if b.kind == "chart"
    then refuse (b.chart_id == "" || not (is_exact b.chart_id)) (chart_block_id b.id)
    else err (block_kind b.id b.kind)

abbrev pub check_object : String → Option Bool → Result SnapshotError (Unit {0})
check_object id none = err (option_not_json id)
check_object id (some b) = refuse (not b) (option_not_object id)

module _ (json : Json) where
  -- The body of the loop over the blocks, after the ids in `seen`.
  unfoldable pub load_block : List String → SnapshotBlock → Result SnapshotError ReportBlock
  load_block seen b = do
    refuse (b.id == "" || not (is_exact b.id)) block_id_not_exact
    refuse (any (λ id. id == b.id) seen) (block_id_duplicated b.id)
    check_stored_kind b
    sources ← wrap (block_sources b.id) (decode_evidence_refs json.refs b.sources)
    ok (record {
      id = b.id;
      kind = b.kind;
      title = b.title;
      content = b.content;
      chart_id = b.chart_id;
      sources = sources;
    })

  unfoldable pub load_blocks :
      List String → List SnapshotBlock → Result SnapshotError (List ReportBlock)
  load_blocks seen [] = ok []
  load_blocks seen (b ∷ bs) = do
    block ← load_block seen b
    rest ← load_blocks (b.id ∷ seen) bs
    ok (block ∷ rest)

  -- The body of the loop over the charts.
  unfoldable pub load_chart : List String → SnapshotChart → Result SnapshotError ChartData
  load_chart seen c = do
    refuse (c.id == "" || not (is_exact c.id)) chart_id_not_exact
    refuse (any (λ id. id == c.id) seen) (chart_id_duplicated c.id)
    check_object c.id (json.object c.option)
    sources ← wrap (chart_sources c.id) (decode_evidence_refs json.refs c.sources)
    ok (record {
      id = c.id;
      option = c.option;
      width = c.width;
      height = c.height;
      sources = sources;
    })

  unfoldable pub load_charts :
      List String → List SnapshotChart → Result SnapshotError (List ChartData)
  load_charts seen [] = ok []
  load_charts seen (c ∷ cs) = do
    chart ← load_chart seen c
    rest ← load_charts (c.id ∷ seen) cs
    ok (chart ∷ rest)

  abbrev refreshed : ReportState → Option ReportEditState → Option ReportEditState
  refreshed s none = none
  refreshed s (some e) = some (refresh_from_report_state s e)

  -- `LoadReportSnapshot` of a snapshot that is not nil, on the report and the edit scope of the
  -- session.
  unfoldable pub load_report_snapshot :
      ReportSnapshot
      → ReportState × Option ReportEditState
      → Result SnapshotError (ReportState × Option ReportEditState)
  load_report_snapshot snap (s, edit) = do
    results ← wrap bad_results (decode_analysis_results json.results snap.results)
    artifacts ← wrap bad_artifacts (decode_artifact_records json.artifacts snap.artifacts)
    blocks ← load_blocks [] snap.blocks
    charts ← load_charts [] snap.charts
    let loaded = record s {
      final_title = snap.title;
      final_author = snap.author;
      layout = snap.layout;
      needs_finalize = snap.needs_finalize;
      results = results;
      artifacts = artifacts;
      blocks = blocks;
      charts = charts;
    }
    ok (loaded, refreshed loaded edit)
