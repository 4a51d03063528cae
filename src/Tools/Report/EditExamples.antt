-- ===== src/Tools/Report/EditExamples.antt =====
-- Runs of the operations on charts, the layout and the ledger, and their theorems at those inputs.
use open_data_analysis.Common.{
  String, Bool, true, false, Option, [], ◌∷◌, some, ◌≡◌, ◌≢◌, refl, ok, err, codes, is_space,
  trim_left, trim_right, trim_space, has_nul, lookup, insert, All, arith,
}
use open_data_analysis.Tools.Report.{
  AnalysisResult, ReportState, validate_exact_report_field, check_evidence_kind,
  validate_evidence_ref_shape, validate_sources, next_version,
}
use open_data_analysis.Tools.Report.Evidence.{IsEvidence}
use open_data_analysis.Tools.Report.Examples.{source, chart, draft}
use open_data_analysis.Tools.Report.Projection.{list_eq}
use open_data_analysis.Tools.Report.Layout.{
  LayoutParams, body_class_invalid, byte_length, fields, is_class_rune, safe_fields, join,
  sanitize_body_class, is_body_class, merge_body_class, merge_layout, reset_layout,
  apply_report_layout_mutation,
}
use open_data_analysis.Tools.Report.Layout.Laws.{IsSafe, apply_report_layout_mutation-IsSafe}
use open_data_analysis.Tools.Report.ChartEdits.{
  ChartParams, ChartResult, digits, is_fraction, is_chart_dimension, check_dimension,
  resolve_chart_option, put_chart, apply_report_chart_mutation,
}
use open_data_analysis.Tools.Report.ChartEdits.Laws.{
  chart_with, new_chart, DistinctCharts, chart_effect,
}
use open_data_analysis.Tools.Report.Ledger.{record_result}
use open_data_analysis.Tools.Report.Ledger.Laws.{IsLedger}

-- Opens all that the runs below compute with.
edit_run : Unit {0}
unfolding is_space trim_left trim_right trim_space has_nul validate_exact_report_field
    check_evidence_kind validate_evidence_ref_shape validate_sources list_eq byte_length fields
    is_class_rune safe_fields join sanitize_body_class is_body_class merge_body_class merge_layout
    reset_layout apply_report_layout_mutation digits is_fraction is_chart_dimension check_dimension
    resolve_chart_option put_chart apply_report_chart_mutation record_result lookup insert
edit_run = tt

abbrev wide : LayoutParams
wide = record { action = "merge"; custom_css = ""; body_class = "wide two-col" }

wide_run :
    (apply_report_layout_mutation wide draft).1
    ≡ ok (record { action = "merge"; has_custom_css = false; body_class = "wide two-col" })
unfolding edit_run
wide_run = refl

class_cleaned : sanitize_body_class (codes " a  b! c_1 ") ≡ codes "a c_1"
unfolding edit_run
class_cleaned = refl

draft-IsSafe : IsSafe draft.layout
unfolding edit_run
draft-IsSafe = (omega arith, ([], tt, refl))

apply_report_layout_mutation-IsSafe_example :
    IsSafe (apply_report_layout_mutation wide draft).0.layout
apply_report_layout_mutation-IsSafe_example =
    apply_report_layout_mutation-IsSafe wide draft draft-IsSafe

-- A merge whose body class is refused has written its style sheet, with the version as it was.
failed_merge_run :
    apply_report_layout_mutation
      (record { action = "merge"; custom_css = "p{}"; body_class = "a;b" })
      draft
    ≡ (
      record draft { layout = record { custom_css = "p{}"; body_class = draft.layout.body_class } },
      err body_class_invalid,
    )
unfolding edit_run
failed_merge_run = refl

abbrev bars : ChartParams
bars = record {
  chart_id = "bars";
  title = "Bars";
  option = "{}";
  width = "80.5%";
  height = "";
  sources = source ∷ [];
}

abbrev is_object : String → Option Bool
is_object text = some true

abbrev anywhere : String → Bool
anywhere id = true

abbrev with_bars : ReportState
with_bars = record draft {
  charts = chart ∷ new_chart bars ∷ [];
  needs_finalize = true;
  mutation_version = next_version draft.mutation_version;
}

abbrev bars_result : ChartResult
bars_result = record { chart_id = "bars"; title = "Bars"; replaced = false }

bars_run : apply_report_chart_mutation is_object anywhere bars draft ≡ ok (with_bars, bars_result)
unfolding edit_run
bars_run = refl

chart_effect_example :
    (anywhere bars.chart_id ≡ true)
    × (is_object bars.option ≡ some true)
    × All IsEvidence bars.sources
    × (chart_with bars.chart_id with_bars.charts ≡ some (new_chart bars))
    × ((id : String)
        → bars.chart_id ≢ id
        → chart_with id with_bars.charts ≡ chart_with id draft.charts)
    × DistinctCharts with_bars.charts
    × (with_bars ≡ record draft {
      charts = with_bars.charts;
      needs_finalize = true;
      mutation_version = next_version draft.mutation_version;
    })
chart_effect_example =
    chart_effect is_object anywhere bars draft with_bars bars_result bars_run (tt, tt)

abbrev counted : AnalysisResult
counted = record {
  id = "res_2";
  tool_name = "data_query_sql";
  operation = "select";
  columns = [];
  rows = [];
  row_count = 0;
  source_id = "";
  dialect = "sqlite";
  created_at = "";
}

abbrev unsourced : ReportState
unsourced = record draft { results = [] }

abbrev sourced : ReportState
sourced = record draft { results = ("res_2", counted) ∷ [] }

counted_run : record_result counted unsourced ≡ ok sourced
unfolding edit_run
counted_run = refl

unsourced-IsLedger : IsLedger unsourced.results
unfolding edit_run
unsourced-IsLedger k r f = absurd (ground arith)
