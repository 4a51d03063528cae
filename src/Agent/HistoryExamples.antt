-- ===== src/Agent/HistoryExamples.antt =====
-- Runs of the repair, the compaction and the rebuilding of a history, and their theorems there.
use open_data_analysis.Common.{
  ◌+◌, ◌*◌, String, false, none, some, List, [], ◌∷◌, ◌++◌, ◌≡◌, refl, length, drop, trim_space,
  trim_left, trim_right, is_space, ok, is_blank, All,
}
use open_data_analysis.Agent.History.{ConversationItem, missing, repair_from, repair_tool_pairing}
use open_data_analysis.Agent.History.Protocol.{IsProtocol}
use open_data_analysis.Agent.History.Repair.{
  repair_tool_pairing-IsProtocol, repair_tool_pairing-eq_iff,
}
use open_data_analysis.Agent.Compaction.{
  Engine, pinned_history_items, count_results, turn_before, owner_before, boundary_at,
  adjust_compaction_boundary, select_compaction_span, apply_compaction, compact,
}
use open_data_analysis.Agent.Rebuild.{
  RunMessage, Codec, HistoryFolder, new_folder, message, result_item, emitted, flush, insert_stable,
  sort_stable, tool_call_id_or, pending_tool_call, apply_compaction_checkpoint, consume_user,
  consume_ask, consume, consume_all, rebuild_history_from_messages,
}
use open_data_analysis.Agent.Rebuild.Laws.{of_engine, checkpoint_replays}
use open_data_analysis.Agent.Rebuild.Turns.{
  ExecutedCall, batch_events, turn_events, turn_items, split_turn, turn_folds,
}

-- Opens all that the runs compute with.
history_run : Unit {0}
unfolding missing repair_from repair_tool_pairing pinned_history_items count_results turn_before
    owner_before boundary_at adjust_compaction_boundary select_compaction_span apply_compaction
    compact trim_space trim_left trim_right is_space flush insert_stable sort_stable tool_call_id_or
    pending_tool_call apply_compaction_checkpoint consume_user consume_ask consume consume_all
    rebuild_history_from_messages batch_events turn_events turn_items split_turn
history_run = tt

abbrev unknown : String → String
unknown name = "unknown"

abbrev ask : String → ConversationItem
ask id = record (message "assistant" "") {
  tool_calls = record { id = id; name = "data_query_sql"; arguments = "{}" } ∷ [];
}

abbrev answer : String → ConversationItem
answer id = result_item "{\"ok\":true}" id "data_query_sql"

-- An orphan, a call without its result, and one with it.
abbrev broken : List ConversationItem
broken =
    answer "call_0" ∷ message "user" "Sales?" ∷ ask "call_1" ∷ ask "call_2" ∷ answer "call_2" ∷ []

abbrev unanswered : ConversationItem
unanswered = result_item "unknown" "call_1" "data_query_sql"

repair_run :
    repair_tool_pairing unknown broken ""
    ≡ message "user" "Sales?" ∷ ask "call_1" ∷ unanswered ∷ ask "call_2" ∷ answer "call_2" ∷ []
unfolding history_run
repair_run = refl

-- The call that the run is suspended on stays open.
suspended_run :
    repair_tool_pairing unknown broken "call_1"
    ≡ message "user" "Sales?" ∷ ask "call_1" ∷ ask "call_2" ∷ answer "call_2" ∷ []
unfolding history_run
suspended_run = refl

repair_tool_pairing-IsProtocol_example : IsProtocol "" (repair_tool_pairing unknown broken "")
repair_tool_pairing-IsProtocol_example = repair_tool_pairing-IsProtocol unknown broken ""

-- A task and 8 exchanges, then a message of the user.
abbrev exchanges : List ConversationItem
exchanges =
    ask "a"
    ∷ answer "a"
    ∷ ask "b"
    ∷ answer "b"
    ∷ ask "c"
    ∷ answer "c"
    ∷ ask "d"
    ∷ answer "d"
    ∷ ask "e"
    ∷ answer "e"
    ∷ ask "f"
    ∷ answer "f"
    ∷ ask "g"
    ∷ answer "g"
    ∷ ask "h"
    ∷ answer "h"
    ∷ message "user" "And by region?"
    ∷ []

abbrev long : List ConversationItem
long = message "user" "Sales?" ∷ exchanges

long_run : repair_tool_pairing unknown long "" ≡ long
unfolding history_run
long_run = refl

long-IsProtocol : IsProtocol "" long
long-IsProtocol = (repair_tool_pairing-eq_iff unknown long "").1 long_run

abbrev engine : Engine
engine = record { history = long; history_summary = ""; omitted_history_messages = 0 }

abbrev compacted : Engine
compacted = record {
  history = message "user" "Sales?" ∷ drop 4 exchanges;
  history_summary = "Sales by month were read.";
  omitted_history_messages = 0;
}

-- The item at 18 - 12 is a result, so the cut goes before its owner.
compact_run : compact (some "Sales by month were read.") engine ≡ (compacted, some (4, 1))
unfolding history_run
compact_run = refl

abbrev folded : HistoryFolder
folded = record new_folder { items = long }

folded_run : flush folded ≡ of_engine engine folded
unfolding history_run
folded_run = refl

checkpoint_replays_example :
    apply_compaction_checkpoint (emitted (some "Sales by month were read.") 4 1) folded
    ≡ of_engine compacted folded
checkpoint_replays_example =
    checkpoint_replays "" (some "Sales by month were read.") engine compacted 4 1 folded
      long-IsProtocol compact_run folded_run

-- A codec for which the stored results are kept as they are, and nothing else can be decoded.
abbrev codec : Codec
codec = record {
  ask = λ s. none;
  ask_result = λ s. some s;
  checkpoint = λ s. none;
  feedback = λ s. some s;
  tool_result = λ name raw. raw;
  unrecorded = unknown;
}

abbrev executed : String → ExecutedCall
executed id = record {
  call = record { id = id; name = "data_query_sql"; arguments = "{}" };
  result = "{\"ok\":true}";
}

abbrev two_calls : List ExecutedCall
two_calls = executed "a" ∷ executed "b" ∷ []

abbrev stored_messages : List RunMessage
stored_messages = turn_events "m" "run_1" 5 "Reading." two_calls

abbrev rebuilt : List ConversationItem
rebuilt = record (ask "a") { content = "Reading." } ∷ answer "a" ∷ ask "b" ∷ answer "b" ∷ []

rebuilt_run : rebuild_history_from_messages codec stored_messages ≡ ok (rebuilt, 0, "")
unfolding history_run
rebuilt_run = refl

ids_run : All (λ c. is_blank c.call.id ≡ false) two_calls
unfolding history_run
ids_run = (refl, (refl, tt))

turn_folds_example :
    (consume_all codec stored_messages new_folder
      ≡ ok (record (flush new_folder) {
        pending = none;
        items = (flush new_folder).items ++ split_turn codec "Reading." two_calls;
      }))
    × (length (split_turn codec "Reading." two_calls) ≡ 2 * length two_calls)
    × (length (turn_items codec "Reading." two_calls) ≡ 1 + length two_calls)
turn_folds_example =
    turn_folds codec "m" "run_1" 5 "Reading." (executed "a") (executed "b" ∷ []) new_folder ids_run
      (λ e. refl)
