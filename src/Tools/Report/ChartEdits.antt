-- ===== src/Tools/Report/ChartEdits.antt =====
-- Creating and replacing a chart (server/tools/report_charts.go). Whether a text is a JSON object
-- (`jsoncontract.Decode`) is a parameter: none is an error, `some false` a JSON null.
pub mod Laws
use Prim.Native.Char.{code}
use Prim.Native.String.{[], ◌∷◌}
use open_data_analysis.Common.{
  ℕ, suc, String, Bool, true, false, not, ◌&&◌, ◌||◌, ◌==◌, Option, none, some, List, leb, eqb,
  trim_space, if◌then◌else◌, Result, ok, err, refuse, ◌>>=◌, ◌>>◌,
}
use open_data_analysis.Tools.Report.{
  EvidenceRef, ChartData, ReportState, ReportError, next_version, validate_exact_report_field,
  validate_sources,
}

-- `createChartParams`.
pub record ChartParams : Type 0 where
  pub chart_id : String
  pub title : String
  pub option : String
  pub width : String
  pub height : String
  pub sources : List EvidenceRef

pub record ChartResult : Type 0 where
  pub chart_id : String
  pub title : String
  pub replaced : Bool

pub data ChartError : Type 0 where
  chart_field : ReportError → ChartError
  bad_dimension : (field : String) → ChartError
  option_required option_not_object : ChartError
  chart_out_of_scope : (chart_id : String) → ChartError

abbrev pub digit : ℕ → Bool
digit c = leb 48 c && leb c 57

-- The longest prefix of decimal digits: its length, and the rest.
unfoldable pub digits : String → ℕ × String
digits [] = (0, [])
digits (c ∷ s) = elim (digit (code c)) [
  | true ↦ (suc (digits s).0, (digits s).1)
  | false ↦ (0, c ∷ s)
]

abbrev pub is_unit : String → Bool
is_unit u = u == "px" || u == "%" || u == "em" || u == "rem" || u == "vh" || u == "vw"

unfoldable pub is_fraction : String → Bool
is_fraction [] = false
is_fraction (c ∷ s) = eqb (code c) 46 && not (eqb (digits s).0 0) && is_unit (digits s).1

-- `chartDimensionRegexp`.
unfoldable pub is_chart_dimension : String → Bool
is_chart_dimension v =
    v == "0" || (not (eqb (digits v).0 0) && (is_unit (digits v).1 || is_fraction (digits v).1))

abbrev pub chart_field_error : {A : Type 0} → Result ReportError A → Result ChartError A
chart_field_error (ok a) = ok a
chart_field_error (err e) = err (chart_field e)

unfoldable pub check_dimension : String → String → Result ChartError (Unit {0})
check_dimension field v = do
  chart_field_error (validate_exact_report_field field v false)
  refuse (not (v == "") && not (is_chart_dimension v)) (bad_dimension field)

-- `resolveChartOption`.
unfoldable pub resolve_chart_option : (String → Option Bool) → String → Result ChartError String
resolve_chart_option object option =
    if trim_space option == "" || trim_space option == "null"
    then err option_required
    else elim (object option) [
      | none ↦ err option_not_object
      | some b ↦ if b then ok option else err option_not_object
    ]

-- The loop that replaces the first chart with the id, and the append after it.
unfoldable pub put_chart : ChartData → List ChartData → List ChartData × Bool
put_chart c List.[] = (List.◌∷◌ c List.[], false)
put_chart c (List.◌∷◌ d ds) =
    let rest = put_chart c ds in
    if d.id == c.id then (List.◌∷◌ c ds, true) else (List.◌∷◌ d rest.0, rest.1)

-- `applyReportChartMutation`; `allowed` is ChartMutationAllowed of the edit scope.
unfoldable pub apply_report_chart_mutation :
    (String → Option Bool)
    → (String → Bool)
    → ChartParams
    → ReportState
    → Result ChartError (ReportState × ChartResult)
apply_report_chart_mutation object allowed p s = do
  chart_field_error (validate_exact_report_field "chart_id" p.chart_id true)
  chart_field_error (validate_sources p.sources)
  check_dimension "width" p.width
  check_dimension "height" p.height
  option ← resolve_chart_option object p.option
  refuse (not (allowed p.chart_id)) (chart_out_of_scope p.chart_id)
  let put =
      put_chart
        (record {
          id = p.chart_id;
          option = option;
          width = p.width;
          height = p.height;
          sources = p.sources;
        })
        s.charts
  ok (
    record s {
      charts = put.0;
      needs_finalize = true;
      mutation_version = next_version s.mutation_version;
    },
    record { chart_id = p.chart_id; title = p.title; replaced = put.1 },
  )
