-- ===== src/Tools/Report/Examples.antt =====
-- Runs of the report operations on a small report, and their theorems at those inputs.
use open_data_analysis.Common.{
  ℕ, true, List, [], ◌∷◌, map, some, ◌≡◌, ◌⊎◌, ◌↔◌, refl, inl, inr, ne_of_test, ok, err, codes,
  is_space, trim_left, trim_right, trim_space, has_nul, lookup, length,
}
use open_data_analysis.Common.Int.{pos}
use open_data_analysis.Tools.Report.{
  EvidenceRef, ReportBlock, ChartData, ReportState, validate_exact_report_field,
  check_evidence_kind, validate_evidence_ref_shape, validate_sources, block_missing, out_of_scope,
}
use open_data_analysis.Tools.Report.Charts.{
  strip_prefix, span_id, match_chart_reference, find_chart_references, exact_only, chart_references,
}
use open_data_analysis.Tools.Report.Blocks.{
  BlockMutationParams, BlockMutationResult, no_scope, find_report_block_index, remove_at,
  insert_report_block_at, resolve_report_block_insert_index, check_block_kind, build_report_block,
  write_blocks, upsert_index, upsert_report_block, block_at, remove_report_block, move_report_block,
  dispatch_block_action, apply_report_block_mutation,
}
use open_data_analysis.Tools.Report.Blocks.Lists.{Distinct}
use open_data_analysis.Tools.Report.Projection.{
  find_rune_forward, list_eq, link_shape, is_markdown_syntax_rune, decode_html_entity_at,
  project_range, project_entity, project_tag, project_image, project_link, project_plain,
  project_step, project_from, project_report_content_text,
}
use open_data_analysis.Tools.Report.Projection.Bounds.{Ordered, project_report_content_text-Ordered}
use open_data_analysis.Tools.Report.Scope.{
  ReportEditState, block_mutation_allowed, selection_mutation_allowed, has_prefix, has_suffix,
  bounds_in, projected_raw_bounds, normalize_selection_compare_text, evidence_refs_equal,
  selection_bounds, selection_block_mutation_allowed, edit_scope,
}
use open_data_analysis.Tools.Report.Scope.Selection.{KeepsOutside}
use open_data_analysis.Tools.Report.Scope.Laws.{selection_mutation}
use open_data_analysis.Tools.Report.Finalize.{
  FinalizeParams, FinalizeResult, finalize_report_state, describe_report_delivery_state,
  report_finalize_issues, renderable_report_block_count, all_chart_refs, block_chart_refs, dedup,
  missing_issues, in_chart_set, has_chart, duplicate_issues, count_id, block_evidence_issues,
  chart_evidence_issues, evidence_issues, evidence_issues_of,
}
use open_data_analysis.Tools.Report.Finalize.Issues.{
  IsDeliverable, report_finalize_issues-eq-nil_iff,
}
use open_data_analysis.Tools.Report.Finalize.Laws.{finalized, MayFinalize, finalize_sound}
use open_data_analysis.Tools.Report.Blocks.Invariant.{
  Effect, apply-Effect, IsWellFormed, apply-IsWellFormed,
}

-- Opens all that a run of a block mutation computes with.
block_run : Unit {0}
unfolding is_space trim_left trim_right trim_space has_nul validate_exact_report_field
    check_evidence_kind validate_evidence_ref_shape validate_sources find_report_block_index
    remove_at insert_report_block_at resolve_report_block_insert_index check_block_kind
    build_report_block upsert_index upsert_report_block block_at remove_report_block
    move_report_block dispatch_block_action apply_report_block_mutation
block_run = tt

abbrev pub source : EvidenceRef
source = record {
  kind = "result";
  result_id = "res_1";
  artifact_id = "";
  chart_id = "";
  label = "";
}

abbrev intro : ReportBlock
intro = record {
  id = "intro";
  kind = "markdown";
  title = "";
  content = "sales are up";
  chart_id = "";
  sources = source ∷ [];
}

abbrev plot : ReportBlock
plot = record {
  id = "plot";
  kind = "chart";
  title = "";
  content = "";
  chart_id = "c1";
  sources = [];
}

abbrev outlook : ReportBlock
outlook = record {
  id = "outlook";
  kind = "html";
  title = "";
  content = "more to come";
  chart_id = "";
  sources = [];
}

abbrev pub chart : ChartData
chart = record { id = "c1"; option = "{}"; width = ""; height = ""; sources = [] }

abbrev report_of : List ReportBlock → ReportState
report_of blocks = record {
  blocks = blocks;
  charts = chart ∷ [];
  final_title = "";
  final_author = "";
  layout = record { custom_css = ""; body_class = "" };
  needs_finalize = true;
  mutation_version = 3;
  results =
      (
        "res_1",
        record {
          id = "res_1";
          tool_name = "data_query_sql";
          operation = "query";
          columns = "n" ∷ [];
          rows = "[4]" ∷ [];
          row_count = 1;
          source_id = "";
          dialect = "";
          created_at = "";
        },
      )
      ∷ [];
  artifacts = [];
}

abbrev pub draft : ReportState
draft = report_of (intro ∷ plot ∷ outlook ∷ [])

-- Move the last block in front of the first.
abbrev move_up : BlockMutationParams
move_up = record {
  action = "move";
  block_id = "outlook";
  block_kind = "";
  title = "";
  content = "";
  chart_id = "";
  before_block_id = "intro";
  after_block_id = "";
  sources = [];
}

abbrev moved : BlockMutationResult
moved = record { action = "move"; block_id = "outlook"; block_kind = "html"; block_count = 3 }

move_up_run :
    apply_report_block_mutation no_scope move_up draft
    ≡ ok (write_blocks draft (outlook ∷ intro ∷ plot ∷ []), moved)
unfolding block_run
move_up_run = refl

remove_missing :
    apply_report_block_mutation no_scope
      (record move_up { action = "remove"; block_id = "x" })
      draft
    ≡ err (block_missing "x")
unfolding block_run
remove_missing = refl

draft-Distinct : Distinct draft.blocks
draft-Distinct = (
  (ne_of_test "plot" "intro" refl, (ne_of_test "outlook" "intro" refl, tt)),
  ((ne_of_test "outlook" "plot" refl, tt), (tt, tt)),
)

draft-IsWellFormed : IsWellFormed draft
unfolding block_run
draft-IsWellFormed = record {
  distinct = draft-Distinct;
  shaped = (
    (
      refl,
      refl,
      refl,
      inl (inl refl, refl),
      (((refl, refl, refl, refl), inl (refl, ne_of_test "res_1" "" refl, refl, refl)), tt),
    ),
    ((refl, refl, refl, inr (refl, refl), tt), ((refl, refl, refl, inl (inr refl, refl), tt), tt)),
  );
}

apply-Effect_example : Effect move_up draft (write_blocks draft (outlook ∷ intro ∷ plot ∷ []))
apply-Effect_example =
    apply-Effect no_scope move_up draft (write_blocks draft (outlook ∷ intro ∷ plot ∷ [])) moved
      draft-Distinct move_up_run

apply-IsWellFormed_example : IsWellFormed (write_blocks draft (outlook ∷ intro ∷ plot ∷ []))
apply-IsWellFormed_example =
    apply-IsWellFormed no_scope move_up draft (write_blocks draft (outlook ∷ intro ∷ plot ∷ []))
      moved draft-IsWellFormed move_up_run

two_references : chart_references "a {{chart:c1}} {{chart: x}} {{chart:c2}}}" ≡ "c1" ∷ "c2" ∷ []
unfolding chart_references exact_only find_chart_references match_chart_reference block_run
two_references = refl

-- A selection of the word "sales" in the first block, and a change of that word.
abbrev identity : List ℕ → List ℕ
identity cs = cs

abbrev selected : ReportEditState
selected = record {
  scope_kind = "partial_selection";
  target_run_id = "";
  target_block_id = "intro";
  target_block_label = "";
  target_chart_id = "";
  selection_text = "sales";
  selection_start = pos 0;
  selection_end = pos 5;
  selection_range_set = true;
  allowed_chart_ids = [];
  target_block_content = "sales are up";
  target_block_kind = "markdown";
  target_block_title = "";
  target_block_chart_id = "";
  target_block_sources = source ∷ [];
}

abbrev reword : BlockMutationParams
reword = record {
  action = "upsert";
  block_id = "intro";
  block_kind = "markdown";
  title = "";
  content = "orders are up";
  chart_id = "";
  before_block_id = "";
  after_block_id = "";
  sources = source ∷ [];
}

abbrev reworded : ReportState
reworded = write_blocks draft (record intro { content = "orders are up" } ∷ plot ∷ outlook ∷ [])

abbrev reworded_result : BlockMutationResult
reworded_result = record {
  action = "upsert";
  block_id = "intro";
  block_kind = "markdown";
  block_count = 3;
}

-- Opens the edit scope too.
scope_run : Unit {0}
unfolding block_run edit_scope block_mutation_allowed selection_block_mutation_allowed
    selection_mutation_allowed selection_bounds has_prefix has_suffix bounds_in projected_raw_bounds
    normalize_selection_compare_text evidence_refs_equal project_report_content_text project_from
    project_step project_entity project_tag project_image project_link project_plain project_range
    decode_html_entity_at link_shape find_rune_forward is_markdown_syntax_rune list_eq
scope_run = tt

reword_run :
    apply_report_block_mutation (edit_scope identity selected) reword draft
    ≡ ok (reworded, reworded_result)
unfolding scope_run
reword_run = refl

-- A change outside the selected word is refused.
reword_outside :
    apply_report_block_mutation
      (edit_scope identity selected)
      (record reword { content = "sales are down" })
      draft
    ≡ err (out_of_scope "partial_selection" "intro")
unfolding scope_run
reword_outside = refl

selection_mutation_example :
    (reword.action ≡ "upsert")
    × (reword.block_id ≡ selected.target_block_id)
    × ((selected.target_block_kind ≡ "") ⊎ (reword.block_kind ≡ selected.target_block_kind))
    × (reword.title ≡ selected.target_block_title)
    × (reword.chart_id ≡ selected.target_block_chart_id)
    × (reword.sources ≡ selected.target_block_sources)
    × ((start : ℕ) × (end : ℕ) × (selection_bounds identity selected
            (codes selected.target_block_content)
          ≡ some (start, end))
        × KeepsOutside start end (codes selected.target_block_content) (codes reword.content))
selection_mutation_example =
    selection_mutation identity selected reword draft reworded reworded_result refl reword_run

-- The visible text of markdown with a link, an image and a heading.
projected_text :
    map (λ r. r.value) (project_report_content_text identity (codes "# A *b* [c](d)![e](f)<i>g"))
    ≡ codes " A b ceg"
unfolding scope_run
projected_text = refl

project_report_content_text-Ordered_example :
    Ordered 0 (length (codes "a [b](c)")) (project_report_content_text identity (codes "a [b](c)"))
project_report_content_text-Ordered_example =
    project_report_content_text-Ordered identity (codes "a [b](c)")

-- In "aba" with "b" selected, the content "a" is accepted, and loses one of the two "a"s.
abbrev overlapping : ReportEditState
overlapping = record selected {
  target_block_content = "aba";
  selection_text = "b";
  selection_start = pos 1;
  selection_end = pos 2;
}

overlap_run : selection_mutation_allowed identity overlapping overlapping.target_block_id "a" ≡ true
unfolding scope_run
overlap_run = refl

abbrev ready : ReportState
ready = report_of (intro ∷ plot ∷ [])

abbrev delivery : FinalizeParams
delivery = record { report_title = "Sales"; author = "ada" }

abbrev delivery_result : FinalizeResult
delivery_result = record {
  report_title = "Sales";
  author = "ada";
  block_count = 2;
  chart_count = 1;
}

-- Opens a run of the finalisation.
finalize_run : Unit {0}
unfolding is_space trim_left trim_right trim_space finalize_report_state
    describe_report_delivery_state report_finalize_issues renderable_report_block_count
    all_chart_refs block_chart_refs dedup chart_references exact_only find_chart_references
    match_chart_reference strip_prefix span_id missing_issues in_chart_set has_chart
    duplicate_issues count_id block_evidence_issues chart_evidence_issues evidence_issues
    evidence_issues_of lookup
finalize_run = tt

ready_run :
    finalize_report_state (some (true, [])) delivery ready
    ≡ ok (finalized (some (true, [])) delivery ready, delivery_result)
unfolding finalize_run
ready_run = refl

report_finalize_issues-eq-nil_iff_example :
    (report_finalize_issues ready ≡ []) ↔ IsDeliverable ready
report_finalize_issues-eq-nil_iff_example = report_finalize_issues-eq-nil_iff ready

finalize_sound_example :
    MayFinalize (some (true, [])) delivery ready
    × (finalized (some (true, [])) delivery ready ≡ finalized (some (true, [])) delivery ready)
finalize_sound_example = finalize_sound (some (true, [])) delivery ready ready_run
