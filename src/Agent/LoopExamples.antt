-- ===== src/Agent/LoopExamples.antt =====
-- A batch of three calls and a run, and the theorems about the loop at that input.
use open_data_analysis.Common.{
  arith, String, Bool, true, false, not, Option, none, some, List, [], ◌∷◌, ◌≡◌, ◌||◌, refl, ok,
  lookup, insert, remove, trim_space, ◌==◌, if◌then◌else◌, All, eqb,
}
use open_data_analysis.Tools.Admission.{ApprovalRequest, decide_request, decide_tool_call}
use open_data_analysis.Agent.History.{ToolCall}
use open_data_analysis.Agent.History.Protocol.{IsProtocol}
use open_data_analysis.Agent.Approvals.{Approvals, compare_receipt, check_receipt, verify_approval}
use open_data_analysis.Agent.Approvals.Answers.{Decoders}
use open_data_analysis.Agent.Approvals.Traces.{Session, opened, approval_store}
use open_data_analysis.Agent.Loop.{
  Tool, PlannedToolCall, suspending, validate_tool_call_batch, check_call, admit_call, plan_call,
  plan_tool_calls,
}
use open_data_analysis.Agent.Loop.Failures.{
  Streak, clear_streaks, count_failure, record_tool_outcome, repeated_failure_block, count_call,
  record_repeat_call, take_pending_notices, reset_repeat_tracking,
}
use open_data_analysis.Agent.Loop.Batch.{
  Runtime, BatchState, started, awaited, ran, block_tool_call, start_parallel_run,
  run_planned_tool_call, suspend_call, deliver, take_result, take_outcome, execute_call, run_call,
  run_batch,
}
use open_data_analysis.Agent.Loop.Admitted.{IsSafeAction}
use open_data_analysis.Agent.Loop.Granted.{IsRunnable, executed_when_granted}
use open_data_analysis.Agent.Loop.Overlap.{in_flight, runs_alone, is_empty}
use open_data_analysis.Agent.Loop.Sequential.{effects, settle_call, run_call_in_order, run_in_order}
use open_data_analysis.Agent.Loop.InOrder.{is_harmless}
use open_data_analysis.Agent.Loop.Ahead.{IsAhead}
use open_data_analysis.Agent.Loop.Barrier.{exclusive_runs_alone}
use open_data_analysis.Agent.Loop.Blocked.{is_blocked, stays_blocked}
use open_data_analysis.Agent.Loop.Turns.{
  replied, Model, final_markup_guard_decision, final_reply, text_reply, batch_reply, tool_reply,
  take_calls, take_response, run_round, run_rounds, run,
}
use open_data_analysis.Agent.Loop.Endings.{IsReported}
use open_data_analysis.Agent.Loop.Rounds.{run_ends_once}

-- Opens all that the runs compute with.
loop_run : Unit {0}
unfolding lookup insert remove trim_space decide_request decide_tool_call compare_receipt
    check_receipt verify_approval suspending validate_tool_call_batch check_call admit_call
    plan_call plan_tool_calls clear_streaks count_failure record_tool_outcome repeated_failure_block
    count_call record_repeat_call take_pending_notices reset_repeat_tracking block_tool_call
    start_parallel_run run_planned_tool_call suspend_call deliver take_result take_outcome
    execute_call run_call run_batch in_flight runs_alone effects settle_call run_call_in_order
    run_in_order final_markup_guard_decision final_reply text_reply batch_reply tool_reply
    take_calls take_response run_round run_rounds
loop_run = tt

abbrev decoders : Decoders
decoders = record {
  accepts_user_response = λ name. false;
  arguments = λ args. none;
  decision = λ answer. none;
  payload_hash = λ payload. some payload;
  tool_result = λ answer id. some answer;
}

abbrev drop_request : ApprovalRequest
drop_request = record { action = "drop"; resource_ref = "table:t"; payload_json = "{}" }

abbrev reader : Tool
reader = record {
  gate = none;
  suspends = false;
  delivery_boundary = false;
  is_concurrency_safe = λ args. true;
  available = true;
  suspension_event = none;
}

abbrev registry : String → Option Tool
registry name =
    if name == "read"
    then some reader
    else if name == "write"
    then some (record reader { is_concurrency_safe = λ args. false })
    else if name == "drop"
    then some (record reader {
      gate = some (record {
        approval_request = λ args. some drop_request;
        approval_receipt_id = λ args. "";
      });
    })
    else none

abbrev is_object : String → Bool
is_object args = args == "{}"

abbrev call : (id name : String) → ToolCall
call id name = record { id = id; name = name; arguments = "{}" }

abbrev calls : List ToolCall
calls = call "a" "read" ∷ call "b" "read" ∷ call "c" "write" ∷ call "d" "drop" ∷ []

abbrev runtime : Runtime
runtime = record {
  execute = λ before c. ok c.id;
  normalize = λ name r. (name, true);
  error_code = λ r. "";
  compact_result = λ name r. some r;
  is_delivered = λ r. false;
  canonical_arguments = λ a. a;
  is_done = λ n. false;
  blocked_result = λ name code. code;
  unrecorded_result = λ name. name;
  suspension_failure = λ name message. message;
  final_response = λ h. none;
}

abbrev fresh : Approvals
fresh = record { history = []; pending_suspension_id = ""; confirmation_receipts = [] }

abbrev idle : BatchState
idle = record {
  history = [];
  pending_suspension_id = "";
  failure_streaks = record { tool = "write"; code = "bad_sheet"; count = 3 } ∷ [];
  repeats = record { repeat_calls = []; pending_notices = [] };
  futures = [];
  events = [];
  actions = [];
  checks = 0;
  usage = record { prompt_tokens = 0; completion_tokens = 0 };
}

abbrev plan : List Streak → List PlannedToolCall
plan streaks =
    (plan_tool_calls registry (approval_store decoders 5) is_object 3 streaks calls fresh).1

-- The two reads start together, the write waits for both, and the drop is not executed.
actions_run :
    (run_batch runtime (plan []) idle).0.actions
    ≡ started (call "a" "read")
      ∷ started (call "b" "read")
      ∷ awaited (call "a" "read")
      ∷ awaited (call "b" "read")
      ∷ ran (call "c" "write")
      ∷ []
unfolding loop_run
actions_run = refl

-- A second call with the id of a call that was started is not executed, and has its result.
same_id_run :
    (run_batch runtime
      (plan_tool_calls registry
        (approval_store decoders 5)
        is_object
        3
        []
        (call "a" "read" ∷ call "a" "write" ∷ [])
        fresh).1
      idle).0.actions
    ≡ started (call "a" "read") ∷ awaited (call "a" "read") ∷ awaited (call "a" "write") ∷ []
unfolding loop_run
same_id_run = refl

executed_when_granted_example :
    Session decoders [] 5
      (plan_tool_calls registry (approval_store decoders 5) is_object 3 [] calls fresh).0
    × All
        (IsSafeAction (IsRunnable decoders registry is_object 3 5 [] []))
        (run_batch runtime
          (plan_tool_calls registry (approval_store decoders 5) is_object 3 [] calls fresh).1
          idle).0.actions
executed_when_granted_example =
    executed_when_granted decoders registry is_object 3 5 [] [] runtime 0 calls fresh idle
      (opened 0 fresh refl) (omega arith) refl

exclusive_runs_alone_example :
    (runs_alone []
        (run_batch runtime
          (plan_tool_calls registry (approval_store decoders 5) is_object 3 [] calls fresh).1
          idle).0.actions
      ≡ true)
    × ((is_empty (
            in_flight []
              (run_batch runtime
                (plan_tool_calls registry (approval_store decoders 5) is_object 3 [] calls fresh).1
                idle).0.actions)
          || not
              (run_batch runtime
                (plan_tool_calls registry (approval_store decoders 5) is_object 3 [] calls fresh).1
                idle).1)
        ≡ true)
    × All
        (IsAhead registry)
        (run_batch runtime
          (plan_tool_calls registry (approval_store decoders 5) is_object 3 [] calls fresh).1
          idle).0.actions
exclusive_runs_alone_example =
    exclusive_runs_alone runtime (approval_store decoders 5) registry is_object 3 [] calls fresh
      idle refl

-- Tools whose results name the first call before them that may change a sheet.
abbrev counting : Runtime
counting = record runtime {
  execute =
      λ before c. ok (elim (effects (is_harmless registry) before) [ [] ↦ c.id | x ∷ xs ↦ x.id ]);
}

stays_blocked_example :
    All
      (IsSafeAction (λ c. (c.name == "write") ≡ false))
      (run_batch runtime
        (plan_tool_calls registry
          (approval_store decoders 5)
          is_object
          3
          idle.failure_streaks
          calls
          fresh).1
        idle).0.actions
    × (is_blocked 3 "write"
          (run_batch runtime
            (plan_tool_calls registry
              (approval_store decoders 5)
              is_object
              3
              idle.failure_streaks
              calls
              fresh).1
            idle).0.failure_streaks
        ≡ true)
unfolding loop_run
stays_blocked_example =
    stays_blocked runtime 3 "write" (approval_store decoders 5) registry is_object calls fresh idle
      refl refl

-- A model that asks for the calls, then leaks markup, then answers.
abbrev model : Model
model = record {
  chat = λ i h task.
      replied (record { prompt_tokens = 10; completion_tokens = 5 })
        (if eqb i 1 then record { content = ""; tool_calls = calls; is_stop = false } else record {
          content = (if eqb i 2 then "<tool_call>" else "done");
          tool_calls = [];
          is_stop = true;
        });
  contains_raw_tool_markup = λ text. text == "<tool_call>";
  correction = "again";
  report_draft = λ i. none;
  prepare = λ h. h;
  limit = some 4;
}

run_ends_once_example :
    ((run (approval_store decoders 5) registry is_object 3 runtime model 5 "drop it" fresh idle).1
      ≡ true)
    × IsReported
        (run
          (approval_store decoders 5)
          registry
          is_object
          3
          runtime
          model
          5
          "drop it"
          fresh
          idle).0.usage
        (run
          (approval_store decoders 5)
          registry
          is_object
          3
          runtime
          model
          5
          "drop it"
          fresh
          idle).0.events
    × IsProtocol
        (run
          (approval_store decoders 5)
          registry
          is_object
          3
          runtime
          model
          5
          "drop it"
          fresh
          idle).0.pending_suspension_id
        (run
          (approval_store decoders 5)
          registry
          is_object
          3
          runtime
          model
          5
          "drop it"
          fresh
          idle).0.history
run_ends_once_example =
    run_ends_once (approval_store decoders 5) registry is_object 3 runtime model 4 "drop it" fresh
      idle refl
