-- ===== src/Tools/Report/Blocks.antt =====
-- server/tools/report_blocks.go: one mutation of the block list of a report.
-- `mutate` is what the tool runs under the lock: it returns the state beside the result or error.
-- The scope of a partial edit is a parameter here; Scope.antt has the one of the program.
pub mod Lists
pub mod Effects
pub mod Invariant
use mathlib.Core.Option
use open_data_analysis.Common.{
  ℕ, zero, suc, min, String, Bool, true, false, not, ◌&&◌, ◌||◌, List, [], ◌∷◌, ◌++◌, Option, none,
  some, ◌==◌, if◌then◌else◌, is_blank, length, take, drop, get_elem?, is_some, Result, ok, err,
  ◌>>=◌, ◌>>◌, refuse,
}
use open_data_analysis.Tools.Report.{
  EvidenceRef, ReportBlock, ReportState, ReportError, unknown_action, unsupported_kind,
  block_exists, block_missing, anchor_missing, both_anchors, out_of_scope, content_required,
  chart_id_required, next_version, validate_exact_report_field, validate_sources,
}

pub record BlockMutationParams : Type 0 where
  pub action : String
  pub block_id : String
  pub block_kind : String
  pub title : String
  pub content : String
  pub chart_id : String
  pub before_block_id : String
  pub after_block_id : String
  pub sources : List EvidenceRef

-- The summary text for the user is left out.
pub record BlockMutationResult : Type 0 where
  pub action : String
  pub block_id : String
  pub block_kind : String
  pub block_count : ℕ

-- What an edit scope answers: `BlockMutationAllowed`, `SelectionBlockMutationAllowed`. A nil scope
-- allows everything.
pub record BlockScope : Type 0 where
  pub block_allowed : String → String → Bool
  pub selection_allowed : ReportBlock → Bool

abbrev pub no_scope : BlockScope
no_scope = record { block_allowed = λ a b. true; selection_allowed = λ b. true }

-- `none` is -1.
unfoldable pub find_report_block_index : List ReportBlock → String → Option ℕ
find_report_block_index [] id = none
find_report_block_index (b ∷ bs) id =
    if b.id == id then some 0 else Option.map suc (find_report_block_index bs id)

-- `append(blocks[:i], blocks[i+1:]...)`.
unfoldable pub remove_at : ℕ → List ReportBlock → List ReportBlock
remove_at i [] = []
remove_at zero (b ∷ bs) = bs
remove_at (suc i) (b ∷ bs) = b ∷ remove_at i bs

-- An index below 0 does not occur: every index is one that was found, or a length.
unfoldable pub insert_report_block_at : List ReportBlock → ReportBlock → ℕ → List ReportBlock
insert_report_block_at blocks block index =
    let at = min index (length blocks) in take at blocks ++ (block ∷ drop at blocks)

abbrev found_or : Option ℕ → ReportError → Result ReportError ℕ
found_or none e = err e
found_or (some i) e = ok i

unfoldable pub resolve_report_block_insert_index :
    List ReportBlock → String → String → Result ReportError ℕ
resolve_report_block_insert_index blocks before after =
    if not (before == "") && not (after == "")
    then err both_anchors
    else if not (before == "")
    then found_or (find_report_block_index blocks before) (anchor_missing before)
    else if not (after == "")
    then found_or (Option.map suc (find_report_block_index blocks after)) (anchor_missing after)
    else ok (length blocks)

unfoldable pub check_block_kind : String → String → String → Result ReportError (Unit {0})
check_block_kind kind content chart_id =
    if kind == "markdown" || kind == "html"
    then refuse (is_blank content) (content_required kind)
    else if kind == "chart"
    then refuse (is_blank chart_id) chart_id_required
    else err (unsupported_kind kind)

unfoldable pub build_report_block :
    String → String → String → String → String → List EvidenceRef → Result ReportError ReportBlock
build_report_block kind block_id title content chart_id sources = do
  validate_sources sources
  check_block_kind kind content chart_id
  ok (record {
    id = block_id;
    kind = kind;
    title = title;
    content = content;
    chart_id = chart_id;
    sources = sources;
  })

-- What the three mutations write: the blocks, the draft mark and the version.
abbrev pub write_blocks : ReportState → List ReportBlock → ReportState
write_blocks s blocks = record s {
  blocks = blocks;
  needs_finalize = true;
  mutation_version = next_version s.mutation_version;
}

abbrev outcome : BlockMutationParams → String → ReportState → ReportState × BlockMutationResult
outcome p kind s = (
  s,
  record {
    action = p.action;
    block_id = p.block_id;
    block_kind = kind;
    block_count = length s.blocks;
  },
)

-- Where an upsert puts the block: in its old place if no anchor is given.
unfoldable pub upsert_index : Option ℕ → List ReportBlock → String → String → Result ReportError ℕ
upsert_index none working before after = resolve_report_block_insert_index working before after
upsert_index (some i) working before after =
    if before == "" && after == ""
    then ok i
    else resolve_report_block_insert_index working before after

abbrev without_existing : Option ℕ → List ReportBlock → List ReportBlock
without_existing none blocks = blocks
without_existing (some i) blocks = remove_at i blocks

unfoldable pub upsert_report_block :
    BlockScope
    → BlockMutationParams
    → ReportState
    → Result ReportError (ReportState × BlockMutationResult)
unfolding find_report_block_index remove_at
upsert_report_block scope p s = do
  validate_exact_report_field "block_kind" p.block_kind true
  validate_exact_report_field "chart_id" p.chart_id false
  block ← build_report_block p.block_kind p.block_id p.title p.content p.chart_id p.sources
  let existing = find_report_block_index s.blocks p.block_id
  refuse (p.action == "append" && is_some existing) (block_exists p.block_id)
  refuse (not (scope.block_allowed p.action p.block_id)) (out_of_scope p.action p.block_id)
  refuse (not (scope.selection_allowed block)) (out_of_scope "partial_selection" p.block_id)
  let working = without_existing existing s.blocks
  at ← upsert_index existing working p.before_block_id p.after_block_id
  ok (outcome p p.block_kind (write_blocks s (insert_report_block_at working block at)))

-- `blocks[index]`; an index out of range, which is a panic, does not follow a successful search.
unfoldable pub block_at : List ReportBlock → ℕ → String → Result ReportError ReportBlock
block_at blocks i id = elim (get_elem? blocks i) [ none ↦ err (block_missing id) | some b ↦ ok b ]

unfoldable pub remove_report_block :
    BlockScope
    → BlockMutationParams
    → ReportState
    → Result ReportError (ReportState × BlockMutationResult)
unfolding find_report_block_index remove_at
remove_report_block scope p s = do
  refuse (not (scope.block_allowed p.action p.block_id)) (out_of_scope p.action p.block_id)
  index ← found_or (find_report_block_index s.blocks p.block_id) (block_missing p.block_id)
  removed ← block_at s.blocks index p.block_id
  ok (outcome p removed.kind (write_blocks s (remove_at index s.blocks)))

unfoldable pub move_report_block :
    BlockScope
    → BlockMutationParams
    → ReportState
    → Result ReportError (ReportState × BlockMutationResult)
unfolding find_report_block_index remove_at
move_report_block scope p s = do
  refuse (not (scope.block_allowed p.action p.block_id)) (out_of_scope p.action p.block_id)
  index ← found_or (find_report_block_index s.blocks p.block_id) (block_missing p.block_id)
  block ← block_at s.blocks index p.block_id
  let blocks = remove_at index s.blocks
  at ← resolve_report_block_insert_index blocks p.before_block_id p.after_block_id
  ok (outcome p block.kind (write_blocks s (insert_report_block_at blocks block at)))

unfoldable pub dispatch_block_action :
    BlockScope
    → BlockMutationParams
    → ReportState
    → Result ReportError (ReportState × BlockMutationResult)
dispatch_block_action scope p s =
    if p.action == "append" || p.action == "upsert"
    then upsert_report_block scope p s
    else if p.action == "remove"
    then remove_report_block scope p s
    else if p.action == "move"
    then move_report_block scope p s
    else err (unknown_action p.action)

-- `applyReportBlockMutation`. The anchors are tested in the order in which they are written.
unfoldable pub apply_report_block_mutation :
    BlockScope
    → BlockMutationParams
    → ReportState
    → Result ReportError (ReportState × BlockMutationResult)
apply_report_block_mutation scope p s = do
  validate_exact_report_field "action" p.action true
  validate_exact_report_field "block_id" p.block_id true
  validate_exact_report_field "before_block_id" p.before_block_id false
  validate_exact_report_field "after_block_id" p.after_block_id false
  dispatch_block_action scope p s
