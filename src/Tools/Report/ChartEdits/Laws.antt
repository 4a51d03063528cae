-- ===== src/Tools/Report/ChartEdits/Laws.antt =====
-- The charts of a report after one was created or replaced.
use open_data_analysis.Common.{
  String, Bool, true, ◌==◌, Option, none, some, List, [], ◌∷◌, ◌≡◌, ◌≢◌, inl, inr, refl, subst, ◌∙◌,
  ne_test, arith, eq_iff, eq_refl, if◌then◌else◌, ok, All, Bool-cases, Result-cases,
}
use open_data_analysis.Tools.Report.{ChartData, ReportState, next_version, validate_sources}
use open_data_analysis.Tools.Report.Evidence.{IsEvidence, validate_sources-All}
use open_data_analysis.Tools.Report.ChartEdits.{
  ChartParams, ChartResult, put_chart, apply_report_chart_mutation, resolve_chart_option,
}

-- The first chart with the id.
abbrev pub chart_with : String → List ChartData → Option ChartData
chart_with id [] = none
chart_with id (c ∷ cs) = if c.id == id then some c else chart_with id cs

abbrev pub NoChart : String → List ChartData → Type 0
NoChart id = All (λ c. c.id ≢ id)

-- No two charts have the same id.
abbrev pub DistinctCharts : List ChartData → Type 0
DistinctCharts [] = Unit
DistinctCharts (c ∷ cs) = NoChart c.id cs × DistinctCharts cs

-- The chart that a mutation with these parameters stores.
abbrev pub new_chart : ChartParams → ChartData
new_chart p = record {
  id = p.chart_id;
  option = p.option;
  width = p.width;
  height = p.height;
  sources = p.sources;
}

chart_with-put_chart :
    (id : String) (c : ChartData) (cs : List ChartData)
    → chart_with id (put_chart c cs).0 ≡ (if c.id == id then some c else chart_with id cs)
unfolding put_chart
chart_with-put_chart id c [] = refl
chart_with-put_chart id c (d ∷ cs) =
    ground (arith, eq_iff d.id c.id, eq_iff d.id id, eq_iff c.id id, chart_with-put_chart id c cs)

put_chart-NoChart :
    (id : String) (c : ChartData) (cs : List ChartData)
    → c.id ≢ id
    → NoChart id cs
    → NoChart id (put_chart c cs).0
unfolding put_chart
put_chart-NoChart id c [] n h = (n, tt)
put_chart-NoChart id c (d ∷ cs) n (e, h) = elim (Bool-cases (d.id == c.id)) [
  | inl b ↦ rw b (n, h)
  | inr b ↦ rw b (e, put_chart-NoChart id c cs n h)
]

put_chart-DistinctCharts :
    (c : ChartData) (cs : List ChartData) → DistinctCharts cs → DistinctCharts (put_chart c cs).0
unfolding put_chart
put_chart-DistinctCharts c [] h = (tt, tt)
put_chart-DistinctCharts c (d ∷ cs) (n, h) = elim (Bool-cases (d.id == c.id)) [
  | inl b ↦ rw b (subst (λ id. NoChart id cs) ((eq_iff d.id c.id).0 b) n, h)
  | inr b ↦ rw b (
    put_chart-NoChart d.id c cs (λ e. ground (arith, eq_iff d.id c.id)) n,
    put_chart-DistinctCharts c cs h,
  )
]

module _ (object : String → Option Bool) (allowed : String → Bool) where
  resolved :
      (option o : String)
      → resolve_chart_option object option ≡ ok o
      → (o ≡ option) × (object option ≡ some true)
  unfolding resolve_chart_option
  resolved option o h = ground arith

  chart_written :
      (p : ChartParams) (s s' : ReportState) (r : ChartResult)
      → apply_report_chart_mutation object allowed p s ≡ ok (s', r)
      → (validate_sources p.sources ≡ ok tt)
        × (allowed p.chart_id ≡ true)
        × (object p.option ≡ some true)
        × (s' ≡ record s {
          charts = (put_chart (new_chart p) s.charts).0;
          needs_finalize = true;
          mutation_version = next_version s.mutation_version;
        })
  unfolding apply_report_chart_mutation
  chart_written p s s' r h = elim (Result-cases (resolve_chart_option object p.option)) [
    | inr (x, e) ↦ absurd (ground arith)
    | inl (o, e) ↦
        let (same, obj) = resolved p.option o e in (ground arith, ground arith, obj, ground arith)
  ]

  -- A chart mutation that succeeds was allowed by the edit scope, has a JSON object as its option
  -- and sources that each name one record. The chart is then found under its id, every other id
  -- finds what it found before, distinct ids stay distinct, and nothing else changes but the
  -- version and the mark of a draft.
  pub chart_effect :
      (p : ChartParams) (s s' : ReportState) (r : ChartResult)
      → apply_report_chart_mutation object allowed p s ≡ ok (s', r)
      → DistinctCharts s.charts
      → (allowed p.chart_id ≡ true)
        × (object p.option ≡ some true)
        × All IsEvidence p.sources
        × (chart_with p.chart_id s'.charts ≡ some (new_chart p))
        × ((id : String) → p.chart_id ≢ id → chart_with id s'.charts ≡ chart_with id s.charts)
        × DistinctCharts s'.charts
        × (s' ≡ record s {
          charts = s'.charts;
          needs_finalize = true;
          mutation_version = next_version s.mutation_version;
        })
  chart_effect p s s' r h d =
      let (src, al, obj, e) = chart_written p s s' r h in
      (
        al,
        obj,
        validate_sources-All p.sources src,
        rw e
            (chart_with-put_chart p.chart_id (new_chart p) s.charts ∙ rw (eq_refl p.chart_id) refl),
        λ id n.
            rw e
              (chart_with-put_chart id (new_chart p) s.charts ∙ rw (ne_test p.chart_id id n) refl),
        rw e (put_chart-DistinctCharts (new_chart p) s.charts d),
        rw e refl,
      )
