-- ===== src/Session/Examples.antt =====
-- Runs of the session's operations, and their theorems at those inputs.
use open_data_analysis.Common.{
  true, false, none, some, [], ◌∷◌, ◌≡◌, ◌≢◌, ◌⊎◌, refl, ok, err, is_space, trim_left, trim_right,
  trim_space, ne_of_test, is_exact, All,
}
use open_data_analysis.Tools.Report.{
  ReportState, validate_sources, validate_evidence_ref_shape, check_evidence_kind,
}
use open_data_analysis.Tools.Report.Blocks.{build_report_block, check_block_kind}
use open_data_analysis.Tools.Report.Blocks.Lists.{Distinct}
use open_data_analysis.Tools.Report.Ledger.{
  decode_analysis_results, decode_artifact_records, decode_evidence_refs, check_results,
  check_artifacts,
}
use open_data_analysis.Tools.Report.Ledger.Laws.{IsLedger}
use open_data_analysis.Session.Runs.{
  RunState, Session, waiting, cancelling, session_detached, run_active, start_run,
  consume_waiting_run_exact, cancel_run, update_cancel_func,
}
use open_data_analysis.Session.Runs.Traces.{Event, steps, IsActive, one_run_at_a_time, consume_once}
use open_data_analysis.Session.Runs.Races.{lost_cancel}
use open_data_analysis.Session.Snapshot.{
  block_structure, SnapshotBlock, ReportSnapshot, Json, check_stored_kind, load_block, load_blocks,
  load_chart, load_charts, load_report_snapshot,
}
use open_data_analysis.Session.Snapshot.Laws.{IsStored, Same, load_report_snapshot-IsStored}

abbrev idle : Session
idle = record {
  active_run = none;
  edit_state = none;
  last_seen_at = 0;
  detached = false;
  cancelled = [];
}

abbrev asking : RunState
asking = record { run_id = "r_1"; status = waiting; cancel = some 7; started_at = 1 }

abbrev asked : Session
asked = record idle { active_run = some asking }

abbrev removed : Session
removed = record idle { detached = true }

-- A second answer comes after a first one, and is turned away.
double_answer :
    (consume_waiting_run_exact "r_1" 5 (consume_waiting_run_exact "r_1" 4 asked).0).1 ≡ ""
unfolding consume_waiting_run_exact
double_answer = refl

one_run_at_a_time_example :
    IsActive "r_1" (steps (Event.consume "" 2 ∷ Event.cancel "r_1" 3 ∷ []) asked)
    × ((start_run "r_2" 8 9 (steps (Event.consume "" 2 ∷ Event.cancel "r_1" 3 ∷ []) asked)
          ≡ err session_detached)
        ⊎ (start_run "r_2" 8 9 (steps (Event.consume "" 2 ∷ Event.cancel "r_1" 3 ∷ []) asked)
            ≡ err run_active))
one_run_at_a_time_example =
    one_run_at_a_time "r_1" (Event.consume "" 2 ∷ Event.cancel "r_1" 3 ∷ []) asked "r_2" 8 9 refl
      (refl, (refl, tt))

answered : (consume_waiting_run_exact "" 2 asked).1 ≢ ""
unfolding consume_waiting_run_exact
answered = ne_of_test "r_1" "" refl

consume_once_example :
    (consume_waiting_run_exact "r_1" 5
      (steps (Event.resume "r_1" 3 ∷ []) (consume_waiting_run_exact "" 2 asked).0)).1
    ≡ ""
consume_once_example =
    consume_once "" "r_1" 2 5 (Event.resume "r_1" 3 ∷ []) asked answered (refl, tt)

lost_cancel_example :
    (update_cancel_func "r_1" 9
      (cancel_run "r_1" 3 (consume_waiting_run_exact "r_1" 2 asked).0).0).0
    ≡ record asked {
      active_run = some (record asking { status = cancelling; cancel = some 9 });
      last_seen_at = 3;
      cancelled = 7 ∷ [];
    }
lost_cancel_example = lost_cancel asked asking 7 9 2 3 refl refl refl

exact_run_id : is_exact "r_1" ≡ true
unfolding is_space trim_left trim_right trim_space
exact_run_id = refl

-- A decoder for which every text is an empty value.
abbrev json : Json
json = record {
  results = λ t. some (some []);
  artifacts = λ t. some (some []);
  refs = λ t. some (some []);
  object = λ t. some true;
}

abbrev stored_intro : SnapshotBlock
stored_intro = record {
  id = "intro";
  kind = "markdown";
  title = "Intro";
  content = "Sales";
  chart_id = "";
  sources = "[]";
}

abbrev stored : ReportSnapshot
stored = record {
  title = "Sales";
  author = "";
  needs_finalize = false;
  layout = record { custom_css = ""; body_class = "" };
  blocks = stored_intro ∷ [];
  charts = [];
  results = "";
  artifacts = "{}";
}

abbrev blank : ReportState
blank = record {
  blocks = [];
  charts = [];
  final_title = "";
  final_author = "";
  layout = record { custom_css = ""; body_class = "" };
  needs_finalize = false;
  mutation_version = 4;
  results = [];
  artifacts = [];
}

abbrev restored : ReportState
restored = record blank {
  blocks =
      record {
        id = "intro";
        kind = "markdown";
        title = "Intro";
        content = "Sales";
        chart_id = "";
        sources = [];
      }
      ∷ [];
  final_title = "Sales";
}

stored_run : load_report_snapshot json stored (blank, none) ≡ ok (restored, none)
unfolding is_space trim_left trim_right trim_space load_report_snapshot load_blocks load_block
    load_charts load_chart check_stored_kind decode_analysis_results decode_artifact_records
    decode_evidence_refs check_results check_artifacts validate_sources validate_evidence_ref_shape
    check_evidence_kind
stored_run = refl

load_report_snapshot-IsStored_example :
    All IsStored restored.blocks
    × Distinct restored.blocks
    × Same stored.blocks restored.blocks
    × IsLedger restored.results
    × (restored.needs_finalize ≡ stored.needs_finalize)
    × (restored.mutation_version ≡ blank.mutation_version)
load_report_snapshot-IsStored_example =
    load_report_snapshot-IsStored json stored blank restored none none stored_run

abbrev charted : SnapshotBlock
charted = record stored_intro { chart_id = "bars" }

-- Such a block is accepted by the block mutations, and refused when the stored report is loaded.
charted_run :
    (build_report_block "markdown" "intro" "Intro" "Sales" "bars" []
      ≡ ok (record {
        id = "intro";
        kind = "markdown";
        title = "Intro";
        content = "Sales";
        chart_id = "bars";
        sources = [];
      }))
    × (check_stored_kind charted ≡ err (block_structure "intro"))
unfolding is_space trim_left trim_right trim_space validate_sources build_report_block
    check_block_kind check_stored_kind
charted_run = (refl, refl)
