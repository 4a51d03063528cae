-- ===== src/Tools/Report/Scope.antt =====
-- server/tools/report_state.go and report_guardrails.go: the scope of a partial edit, which limits
-- what the tools may change. A nil edit state is `none`, and allows everything.
pub mod Selection
pub mod Laws
use open_data_analysis.Common.{
  ℕ, zero, suc, ◌+◌, ◌-◌, String, Bool, true, false, not, ◌&&◌, ◌||◌, List, [], ◌∷◌, ◌++◌, map,
  Option, none, some, ◌==◌, leb, ltb, eqb, if◌then◌else◌, length, take, drop, is_space, codes, any,
  is_blank, is_exact, Result, ok, err, ◌>>=◌, ◌>>◌, refuse, get_elem?,
}
use open_data_analysis.Common.Int.{ℤ, pos, negsuc}
use open_data_analysis.Tools.Report.{EvidenceRef, ReportBlock, ReportState}
use open_data_analysis.Tools.Report.Charts.{chart_references}
use open_data_analysis.Tools.Report.Projection.{ProjectedRune, project_report_content_text, list_eq}
use open_data_analysis.Tools.Report.Blocks.{BlockScope, find_report_block_index}

pub record ReportEditState : Type 0 where
  pub scope_kind : String
  pub target_run_id : String
  pub target_block_id : String
  pub target_block_label : String
  pub target_chart_id : String
  pub selection_text : String
  pub selection_start : ℤ
  pub selection_end : ℤ
  pub selection_range_set : Bool
  pub allowed_chart_ids : List String
  pub target_block_content : String
  pub target_block_kind : String
  pub target_block_title : String
  pub target_block_chart_id : String
  pub target_block_sources : List EvidenceRef

-- `Reset`, and the zero value.
unfoldable pub reset : ReportEditState
reset = record {
  scope_kind = "";
  target_run_id = "";
  target_block_id = "";
  target_block_label = "";
  target_chart_id = "";
  selection_text = "";
  selection_start = pos 0;
  selection_end = pos 0;
  selection_range_set = false;
  allowed_chart_ids = [];
  target_block_content = "";
  target_block_kind = "";
  target_block_title = "";
  target_block_chart_id = "";
  target_block_sources = [];
}

unfoldable pub active : ReportEditState → Bool
active s = not (s.scope_kind == "")

-- `ScopeKind`.
unfoldable pub shown_scope_kind : ReportEditState → String
shown_scope_kind s = if s.scope_kind == "" then "inactive" else s.scope_kind

abbrev nonempty : String → List String
nonempty id = if id == "" then [] else id ∷ []

abbrev pub found_block : List ReportBlock → String → Option ReportBlock
found_block blocks id = elim (find_report_block_index blocks id) [
  | none ↦ none
  | some i ↦ get_elem? blocks i
]

abbrev charts_of : Option ReportBlock → List String
charts_of none = []
charts_of (some b) = nonempty b.chart_id ++ chart_references b.content

-- `collectEditableChartIDs`: a set, here as a list.
unfoldable pub collect_editable_chart_ids : List ReportBlock → String → String → List String
collect_editable_chart_ids blocks block_id chart_id =
    nonempty chart_id ++ (if block_id == "" then [] else charts_of (found_block blocks block_id))

abbrev with_target : Option ReportBlock → ReportEditState → ReportEditState
with_target none s = record s {
  target_block_content = "";
  target_block_kind = "";
  target_block_title = "";
  target_block_chart_id = "";
  target_block_sources = [];
}
with_target (some b) s = record s {
  target_block_content = b.content;
  target_block_kind = b.kind;
  target_block_title = b.title;
  target_block_chart_id = b.chart_id;
  target_block_sources = b.sources;
}

-- `RefreshFromReportState`, with a report state.
unfoldable pub refresh_from_report_state : ReportState → ReportEditState → ReportEditState
unfolding collect_editable_chart_ids
refresh_from_report_state state s =
    with_target
      (if s.target_block_id == "" then none else found_block state.blocks s.target_block_id)
      (record s {
        allowed_chart_ids =
            collect_editable_chart_ids state.blocks s.target_block_id s.target_chart_id;
      })

unfoldable pub block_mutation_allowed : ReportEditState → String → String → Bool
block_mutation_allowed s action block_id =
    if s.scope_kind == "" || s.scope_kind == "whole_report"
    then true
    else if s.scope_kind == "partial_block" || s.scope_kind == "partial_selection"
    then (if action == "upsert"
        then not (s.target_block_id == "") && block_id == s.target_block_id
        else false)
    else false

unfoldable pub chart_mutation_allowed : ReportEditState → String → Bool
chart_mutation_allowed s chart_id =
    if s.scope_kind == "" || s.scope_kind == "whole_report"
    then true
    else if s.scope_kind == "layout"
    then false
    else any (λ id. id == chart_id) s.allowed_chart_ids

unfoldable pub layout_mutation_allowed : ReportEditState → Bool
layout_mutation_allowed s =
    s.scope_kind == "" || s.scope_kind == "whole_report" || s.scope_kind == "layout"

unfoldable pub evidence_ref_eq : EvidenceRef → EvidenceRef → Bool
evidence_ref_eq a b =
    a.kind == b.kind
    && a.result_id == b.result_id
    && a.artifact_id == b.artifact_id
    && a.chart_id == b.chart_id
    && a.label == b.label

-- `evidenceRefsEqual`.
unfoldable pub evidence_refs_equal : List EvidenceRef → List EvidenceRef → Bool
unfolding evidence_ref_eq
evidence_refs_equal [] [] = true
evidence_refs_equal (a ∷ as') (b ∷ bs) = evidence_ref_eq a b && evidence_refs_equal as' bs
evidence_refs_equal _ _ = false

-- `normalizeSelectionCompareText`: runs of white space become one space, none at either end. The
-- flags say that something has been written, and that white space was read since.
unfoldable pub normalize_from : Bool → Bool → List ℕ → List ℕ
normalize_from started spaced [] = []
normalize_from started spaced (c ∷ s) = elim (is_space c) [
  | true ↦ normalize_from started true s
  | false ↦ (if spaced && started then b' ' ∷ [] else []) ++ (c ∷ normalize_from true false s)
]

unfoldable pub normalize_selection_compare_text : List ℕ → List ℕ
unfolding normalize_from is_space
normalize_selection_compare_text s = normalize_from false false s

abbrev pub slice {ℓ} : {A : Type ℓ} → ℕ → ℕ → List A → List A
slice from to xs = take (to - from) (drop from xs)

abbrev pub values : List ProjectedRune → List ℕ
values = map (λ r. r.value)

-- `projectedRawBounds`.
unfoldable pub projected_raw_bounds : List ProjectedRune → ℕ → ℕ → Option (ℕ × ℕ)
projected_raw_bounds projected start end = elim (get_elem? projected start) [
  | none ↦ none
  | some first ↦ elim (get_elem? projected (end - 1)) [
    | none ↦ none
    | some last ↦ some (first.raw_start, last.raw_end)
  ]
]

-- `selectionBoundsFromProjectedText` for offsets that are not negative.
unfoldable pub bounds_in : List ProjectedRune → List ℕ → Bool → ℕ → ℕ → Option (ℕ × ℕ)
bounds_in projected needle range_set start end =
    if eqb (length projected) 0
    then none
    else if eqb (length needle) 0
    then none
    else if not range_set || leb end start || ltb (length projected) end
    then none
    else if not
        (list_eq (normalize_selection_compare_text (values (slice start end projected))) needle)
    then none
    else projected_raw_bounds projected start end

abbrev offsets : ℤ → ℤ → Option (ℕ × ℕ)
offsets (pos start) (pos end) = some (start, end)
offsets _ _ = none

-- `strings.HasPrefix`, `strings.HasSuffix`.
unfoldable pub has_prefix : List ℕ → List ℕ → Bool
unfolding list_eq
has_prefix s prefix = leb (length prefix) (length s) && list_eq (take (length prefix) s) prefix

unfoldable pub has_suffix : List ℕ → List ℕ → Bool
unfolding list_eq
has_suffix s suffix =
    leb (length suffix) (length s) && list_eq (drop (length s - length suffix) s) suffix

-- A start or an end below 0 fails the range test: an end below 0 is at most the start, or the start
-- is below 0 too.
module _ (unescape : List ℕ → List ℕ) where
  unfoldable pub selection_bounds : ReportEditState → List ℕ → Option (ℕ × ℕ)
  selection_bounds s original = elim (offsets s.selection_start s.selection_end) [
    | none ↦ none
    | some (start, end) ↦
        bounds_in (project_report_content_text unescape original)
          (normalize_selection_compare_text (codes s.selection_text)) s.selection_range_set start
          end
  ]

  unfoldable pub selection_mutation_allowed : ReportEditState → String → String → Bool
  selection_mutation_allowed s block_id new_content =
      if not (s.scope_kind == "partial_selection")
      then true
      else if block_id == "" || not (block_id == s.target_block_id)
      then false
      else if s.target_block_content == ""
      then false
      else (elim (selection_bounds s (codes s.target_block_content)) [
        | none ↦ false
        | some (start, end) ↦
            has_prefix (codes new_content) (take start (codes s.target_block_content))
            && has_suffix (codes new_content) (drop end (codes s.target_block_content))
      ])

  unfoldable pub selection_block_mutation_allowed : ReportEditState → ReportBlock → Bool
  selection_block_mutation_allowed s block =
      if not (selection_mutation_allowed s block.id block.content)
      then false
      else if not (s.scope_kind == "partial_selection")
      then true
      else (s.target_block_kind == "" || block.kind == s.target_block_kind)
        && block.title == s.target_block_title
        && block.chart_id == s.target_block_chart_id
        && evidence_refs_equal block.sources s.target_block_sources

  -- What the block mutations ask of an edit state.
  unfoldable pub edit_scope : ReportEditState → BlockScope
  edit_scope s = record {
    block_allowed = block_mutation_allowed s;
    selection_allowed = selection_block_mutation_allowed s;
  }
