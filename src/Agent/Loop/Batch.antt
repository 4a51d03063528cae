-- ===== src/Agent/Loop/Batch.antt =====
-- The loop over the planned calls of a turn (server/agent/engine.go `Run`, `blockToolCall`,
-- server/agent/parallel_tools.go). What tools, JSON and the model do is a parameter; a call that runs
-- ahead of its turn has the result that it has when it is started.
use open_data_analysis.Common.{
  ℕ, suc, ◌+◌, String, Bool, true, false, not, ◌&&◌, ◌==◌, Option, none, some, List, [], ◌∷◌, ◌++◌,
  Dict, lookup, insert, is_some, if◌then◌else◌, Result,
}
use open_data_analysis.Tools.Admission.{AdmissionKind, deny}
use open_data_analysis.Agent.History.{ConversationItem, ToolCall}
use open_data_analysis.Agent.Loop.{Tool, Admission, PlannedToolCall, is_allowed}
use open_data_analysis.Agent.Loop.Failures.{
  Streak, record_tool_outcome, Repeats, record_repeat_call,
}

-- What happens to executions: one is started ahead of its turn, its result is awaited, and one runs
-- when its turn comes.
pub data Action : Type 0 where
  started : ToolCall → Action
  awaited : ToolCall → Action
  ran : ToolCall → Action

-- `LLMUsage`, the tokens of a response.
pub record LlmUsage : Type 0 where
  pub prompt_tokens : ℕ
  pub completion_tokens : ℕ

-- What the outside gives: the execution of a call after what was executed before it, `normalizeToolExecutionResult` (a result and its
-- success), `toolResultErrorCode`, what `compactToolResult` and `pruneToolResultForHistory` leave,
-- `isSuccessfulDeliveryBoundaryResult`, `canonicalToolArguments`, whether the context is done at its
-- n-th test, the texts of a failure and of an outcome that is not known, and
-- `finalResponseAfterFinalize` (the final answer and its tokens).
pub record Runtime : Type 0 where
  pub execute : List Action → ToolCall → Result String String
  pub normalize : (name : String) → Result String String → String × Bool
  pub error_code : String → String
  pub compact_result : (name result : String) → Option String
  pub is_delivered : String → Bool
  pub canonical_arguments : String → String
  pub is_done : ℕ → Bool
  pub blocked_result : (name code : String) → String
  pub suspension_failure : (name message : String) → String
  pub unrecorded_result : (name : String) → String
  pub final_response : List ConversationItem → Option (String × LlmUsage)

-- The events that a batch emits.
pub data LoopEvent : Type 0 where
  tool_called : ToolCall → LoopEvent
  approval_denied : (tool : String) → AdmissionKind → LoopEvent
  tool_returned : (id name result : String) → (success : Bool) → LoopEvent
  suspended : ToolCall → LoopEvent
  assistant_status : String → LoopEvent
  system_feedback : String → LoopEvent
  run_cancelled : LoopEvent
  run_failed : (code : String) → LoopEvent
  run_completed : (summary : String) → LoopEvent
  run_usage : LlmUsage → LoopEvent

-- The fields of `Engine` and of `Run` that a batch changes; `futures` has the results of the calls
-- that are started ahead, by their ids, and `checks` counts the tests of the context.
pub record BatchState : Type 0 where
  pub history : List ConversationItem
  pub pending_suspension_id : String
  pub failure_streaks : List Streak
  pub repeats : Repeats
  pub futures : Dict (Result String String)
  pub events : List LoopEvent
  pub actions : List Action
  pub checks : ℕ
  pub usage : LlmUsage

-- The tokens of a response are added to those of the run.
abbrev pub spend : LlmUsage → BatchState → BatchState
spend u s = record s {
  usage = record {
    prompt_tokens = s.usage.prompt_tokens + u.prompt_tokens;
    completion_tokens = s.usage.completion_tokens + u.completion_tokens;
  };
}

abbrev pub emit : LoopEvent → BatchState → BatchState
emit e s = record s { events = s.events ++ e ∷ [] }

abbrev pub act : Action → BatchState → BatchState
act a s = record s { actions = s.actions ++ a ∷ [] }

abbrev pub tool_item : (id name content : String) → ConversationItem
tool_item id name content = record {
  role = "tool";
  content = content;
  tool_calls = [];
  tool_call_id = id;
  tool_call_name = name;
}

abbrev pub append_item : ConversationItem → BatchState → BatchState
append_item x s = record s { history = s.history ++ x ∷ [] }

-- The error code of `blockToolCall`.
abbrev pub block_code : Admission → String
block_code a =
    if not (a.code == "")
    then a.code
    else (elim a.kind [ deny ↦ "approval_denied" | other ↦ "approval_required" ])

module _ (rt : Runtime) where
  -- `blockToolCall`.
  unfoldable pub block_tool_call : ToolCall → Admission → BatchState → BatchState
  block_tool_call c a s =
      let result = rt.blocked_result c.name (block_code a) in
      append_item (tool_item c.id c.name result) (
        emit (tool_returned c.id c.name result false)
          (emit (approval_denied c.name a.kind) (emit (tool_called c) s)))

  abbrev pub launch : ToolCall → BatchState → BatchState
  launch c s =
      if is_some (lookup c.id s.futures)
      then s
      else act (started c) (record s { futures = insert c.id (rt.execute s.actions c) s.futures })

  -- `startParallelRun`, from the call whose turn it is.
  unfoldable pub start_parallel_run : List PlannedToolCall → BatchState → BatchState
  start_parallel_run [] s = s
  start_parallel_run (p ∷ ps) s =
      let rest = start_parallel_run ps (launch p.call s) in if p.safe then rest else s

  -- `runPlannedToolCall`.
  unfoldable pub run_planned_tool_call : ToolCall → BatchState → BatchState × Result String String
  run_planned_tool_call c s = elim (lookup c.id s.futures) [
    | some r ↦ (act (awaited c) s, r)
    | none ↦ (act (ran c) s, rt.execute s.actions c)
  ]

  abbrev pub checked : BatchState → BatchState
  checked s = record s { checks = suc s.checks }

  -- A call of a tool that suspends the run, and whether the run goes on.
  unfoldable pub suspend_call : Tool → ToolCall → BatchState → BatchState × Bool
  suspend_call t c s = elim t.suspension_event [
    | none ↦ (emit (run_failed "invalid_suspension_contract") s, false)
    | some event ↦ elim (event c.arguments) [
      | some message ↦
          let result = rt.suspension_failure c.name message in
          (
            append_item (tool_item c.id "" result)
                (emit (tool_returned c.id c.name result false) s),
            true,
          )
      | none ↦ (emit (suspended c) (record s { pending_suspension_id = c.id }), false)
    ]
  ]

  -- The delivery, once the result of its boundary is in the history.
  unfoldable pub deliver : BatchState → BatchState
  deliver s = elim (rt.final_response s.history) [
    | none ↦ emit (run_failed "final_response_failed") s
    | some (summary, used) ↦ emit (run_completed summary) (
        append_item
          (record {
            role = "assistant";
            content = summary;
            tool_calls = [];
            tool_call_id = "";
            tool_call_name = "";
          })
          (spend used s))
  ]

  -- The repeats are counted and the result goes to the history.
  abbrev pub keep_result : ToolCall → (content : String) → BatchState → BatchState
  keep_result c content s = append_item (tool_item c.id "" content) (record s {
    repeats = record_repeat_call c.name (rt.canonical_arguments c.arguments) s.repeats;
  })

  -- The result of a call, after the second test of the context, and whether the run goes on.
  unfoldable pub take_result : Tool → ToolCall → (result : String) → BatchState → BatchState × Bool
  take_result t c result s = elim (rt.compact_result c.name result) [
    | none ↦ (emit (run_failed "tool_result_compaction_failed") s, false)
    | some content ↦
        let next = keep_result c content s in
        if t.delivery_boundary && rt.is_delivered result
        then (deliver next, false)
        else (next, true)
  ]

  -- The outcome of a call is counted and emitted.
  abbrev pub report_outcome : ToolCall → Result String String → BatchState → BatchState
  report_outcome c outcome s =
      let (result, success) = rt.normalize c.name outcome in
      emit (tool_returned c.id c.name result success) (record s {
        failure_streaks =
            record_tool_outcome c.name (rt.error_code result) success s.failure_streaks;
      })

  -- The outcome of a call, after the first test of the context: a second test, and the result.
  unfoldable pub take_outcome :
      Tool → ToolCall → Result String String → BatchState → BatchState × Bool
  take_outcome t c outcome s =
      let next = checked (report_outcome c outcome s) in
      if rt.is_done s.checks
      then (emit run_cancelled next, false)
      else take_result t c ((rt.normalize c.name outcome).0) next

  -- The execution of a call that does not suspend the run, with a test of the context after it.
  unfoldable pub execute_call : Tool → ToolCall → BatchState → BatchState × Bool
  execute_call t c s =
      let (done, outcome) = run_planned_tool_call c (emit (tool_called c) s) in
      if rt.is_done s.checks
      then (emit run_cancelled (checked done), false)
      else take_outcome t c outcome (checked done)

  -- The body of the loop for a call, with the planned calls from it on, and whether the run goes on.
  unfoldable pub run_call : PlannedToolCall → List PlannedToolCall → BatchState → BatchState × Bool
  run_call p run s =
      if not (is_allowed p.admission.kind)
      then (block_tool_call p.call p.admission s, true)
      else (elim p.tool [
        | none ↦ (s, true)
        | some t ↦
            let ahead = if p.safe then start_parallel_run run s else s in
            if t.suspends then suspend_call t p.call ahead else execute_call t p.call ahead
      ])

  -- The loop, and whether the run goes on after it.
  unfoldable pub run_batch : List PlannedToolCall → BatchState → BatchState × Bool
  run_batch [] s = (s, true)
  run_batch (p ∷ ps) s =
      let (next, goes_on) = run_call p (p ∷ ps) s in
      elim goes_on [ true ↦ run_batch ps next | false ↦ (next, false) ]
