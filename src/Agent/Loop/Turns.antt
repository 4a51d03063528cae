-- ===== src/Agent/Loop/Turns.antt =====
-- The main loop of the agent (server/agent/engine.go `Run`, final_output_guard.go). The model, the
-- tools and the compaction of the prompt are parameters.
use open_data_analysis.Common.{
  ℕ, zero, suc, ◌+◌, String, Bool, true, false, not, ◌&&◌, ◌||◌, ◌==◌, Option, none, some, List, [],
  ◌∷◌, ltb, leb, eqb, if◌then◌else◌,
}
use open_data_analysis.Tools.Admission.{ApprovalRequest}
use open_data_analysis.Agent.History.{ConversationItem, ToolCall, repair_tool_pairing}
use open_data_analysis.Agent.Loop.{Tool, validate_tool_call_batch, plan_tool_calls}
use open_data_analysis.Agent.Loop.Failures.{reset_repeat_tracking}
use open_data_analysis.Agent.Loop.Batch.{
  Runtime, BatchState, LlmUsage, run_usage, spend, assistant_status, system_feedback, run_cancelled,
  run_failed, run_completed, emit, append_item, checked, run_batch,
}

-- The first choice of a response.
pub record Reply : Type 0 where
  pub content : String
  pub tool_calls : List ToolCall
  pub is_stop : Bool

-- The response to a request: it failed, or it has its tokens and no choice, or them and a first one.
pub data Response : Type 0 where
  request_failed : Response
  no_choice : LlmUsage → Response
  replied : LlmUsage → Reply → Response

-- `maxFinalMarkupRejects`.
abbrev pub max_final_markup_rejects : ℕ
max_final_markup_rejects = 2

-- `finalMarkupGuardDecision`, for a content with or without markup.
unfoldable pub final_markup_guard_decision : (has_markup : Bool) → (rejects : ℕ) → Bool × ℕ
final_markup_guard_decision has_markup rejects =
    if leb max_final_markup_rejects rejects || not has_markup
    then (false, rejects)
    else (true, rejects + 1)

-- What the loop takes from outside: the responses of the model, by the iteration, `containsRawToolMarkup`
-- and `finalMarkupCorrectionMessage`, the version of a draft that the run changed and not finalized, by
-- the iteration, what `prepareRequestBundle` leaves of a history, and `maxMainLoopIterations`.
pub record Model : Type 0 where
  pub chat : ℕ → List ConversationItem → (user_task : String) → Response
  pub contains_raw_tool_markup : String → Bool
  pub correction : String
  pub report_draft : ℕ → Option ℕ
  pub prepare : List ConversationItem → List ConversationItem
  pub limit : Option ℕ

-- The variables of `Run`, with the state of the engine and the store of approvals.
pub record LoopState (S : Type 0) : Type 0 where
  pub batch : BatchState
  pub approvals : S
  pub iteration : ℕ
  pub user_task : String
  pub final_markup_rejects : ℕ
  pub injected_delivery_version : ℕ

abbrev pub plain : (role content : String) → ConversationItem
plain role content = record {
  role = role;
  content = content;
  tool_calls = [];
  tool_call_id = "";
  tool_call_name = "";
}

abbrev pub is_over_limit : Option ℕ → ℕ → Bool
is_over_limit none i = false
is_over_limit (some limit) i = ltb limit i

module _ {S : Type 0} (verify_approval : (receipt_id : String) → ApprovalRequest → S → S × Bool)
    (registry : String → Option Tool) (is_object : String → Bool) (threshold : ℕ) (rt : Runtime)
    (model : Model) where
  -- A run ends with an error.
  abbrev pub fail : (code : String) → LoopState S → LoopState S × Bool
  fail code s = (record s { batch = emit (run_failed code) s.batch }, false)

  -- A text that ends the run.
  abbrev pub complete : (content : String) → LoopState S → LoopState S × Bool
  complete content s = (
    record s {
      batch = emit (run_completed content) (append_item (plain "assistant" content) s.batch);
    },
    false,
  )

  -- A text with no tool call, while the report is no changed draft that the model was not told of.
  unfoldable pub final_reply : (content : String) → LoopState S → LoopState S × Bool
  final_reply content s =
      let (rejected, rejects) =
        final_markup_guard_decision (model.contains_raw_tool_markup content)
          s.final_markup_rejects in
      if rejected
      then (
        record s {
          final_markup_rejects = rejects;
          batch =
              emit (system_feedback model.correction)
                (append_item (plain "user" model.correction) s.batch);
        },
        true,
      )
      else complete content s

  -- A text with no tool call.
  unfoldable pub text_reply : (content : String) → LoopState S → LoopState S × Bool
  text_reply content s = elim (model.report_draft s.iteration) [
    | none ↦ final_reply content s
    | some version ↦ if eqb s.injected_delivery_version version then final_reply content s else (
      record s {
        injected_delivery_version = version;
        batch = emit (assistant_status content) (append_item (plain "assistant" content) s.batch);
      },
      true,
    )
  ]

  -- Tool calls, once they are a valid batch.
  unfoldable pub batch_reply : Reply → LoopState S → LoopState S × Bool
  batch_reply r s =
      let asked =
        append_item (record (plain "assistant" r.content) { tool_calls = r.tool_calls }) s.batch in
      let (after, plan) =
        plan_tool_calls registry verify_approval is_object threshold s.batch.failure_streaks
          r.tool_calls s.approvals in
      let (next, goes_on) = run_batch rt plan (record asked { futures = [] }) in
      (record s { batch = next; approvals = after }, goes_on)

  -- Tool calls; a text that stands with them is a status.
  unfoldable pub tool_reply : Reply → LoopState S → LoopState S × Bool
  tool_reply r s =
      let told =
        if r.content == ""
        then s
        else (record s { batch = emit (assistant_status r.content) s.batch }) in
      if not (validate_tool_call_batch registry r.tool_calls)
      then fail "invalid_tool_call_batch" told
      else batch_reply r told

  unfoldable pub take_calls : List ToolCall → Reply → LoopState S → LoopState S × Bool
  take_calls [] r s =
      if not (r.content == "")
      then text_reply r.content s
      else if r.is_stop
      then fail "empty_llm_output" s
      else fail "empty_llm_output" s
  take_calls (c ∷ cs) r s = tool_reply r s

  -- What the loop does with a first choice.
  abbrev pub take_reply : Reply → LoopState S → LoopState S × Bool
  take_reply r s = take_calls r.tool_calls r s

  -- The request is made from the prepared history, and the task of the user enters the history.
  abbrev pub requested : LoopState S → LoopState S
  requested s =
      let prepared = record s.batch { history = model.prepare s.batch.history } in
      record s {
        batch =
            (if s.user_task == ""
              then prepared
              else append_item (plain "user" s.user_task) prepared);
        user_task = "";
      }

  abbrev pub spent : LlmUsage → LoopState S → LoopState S
  spent used s = record s { batch = spend used s.batch }

  unfoldable pub take_response : Response → LoopState S → LoopState S × Bool
  take_response request_failed s = fail "llm_request_failed" s
  take_response (no_choice used) s = fail "empty_llm_response" (spent used s)
  take_response (replied used r) s = take_reply r (spent used s)

  -- One round of the loop, and whether it goes on.
  unfoldable pub run_round : LoopState S → LoopState S × Bool
  run_round s =
      let tested = record s { batch = checked rt s.batch } in
      if rt.is_done s.batch.checks
      then (record tested { batch = emit run_cancelled tested.batch }, false)
      else if is_over_limit model.limit s.iteration
      then fail "iteration_limit_exceeded" tested
      else (let (next, goes_on) =
            take_response (model.chat s.iteration (model.prepare s.batch.history) s.user_task)
              (requested tested) in
          (record next { iteration = suc s.iteration }, goes_on))

  -- The loop of `Run` in a number of rounds, and whether it has ended in them.
  unfoldable pub run_rounds : (fuel : ℕ) → LoopState S → LoopState S × Bool
  run_rounds zero s = (s, false)
  run_rounds (suc fuel) s =
      let (next, goes_on) = run_round s in
      elim goes_on [ true ↦ run_rounds fuel next | false ↦ (next, true) ]

  -- The state that `Run` starts its loop from: an abandoned suspension is repaired, the counts of
  -- tokens are reset, and a message of
  -- the user clears the counts of repeats.
  unfoldable pub begin_run : (user_input : String) → S → BatchState → LoopState S
  begin_run user_input approvals s = record {
    batch = record s {
      history = repair_tool_pairing rt.unrecorded_result s.history "";
      pending_suspension_id = "";
      repeats = (if user_input == "" then s.repeats else reset_repeat_tracking s.repeats);
      futures = [];
      events = [];
      actions = [];
      usage = record { prompt_tokens = 0; completion_tokens = 0 };
    };
    approvals = approvals;
    iteration = 1;
    user_task = user_input;
    final_markup_rejects = 0;
    injected_delivery_version = 0;
  }

  -- `repairDanglingToolCalls`.
  abbrev pub repair_dangling_tool_calls : BatchState → BatchState
  repair_dangling_tool_calls s = record s {
    history = repair_tool_pairing rt.unrecorded_result s.history s.pending_suspension_id;
  }

  -- The tokens of the run are reported, unless none were counted.
  unfoldable pub report_usage : BatchState → BatchState
  report_usage s =
      if eqb s.usage.prompt_tokens 0 && eqb s.usage.completion_tokens 0
      then s
      else emit (run_usage s.usage) s

  -- `Run` in a number of rounds, and whether it has ended in them.
  unfoldable pub run : (fuel : ℕ) → (user_input : String) → S → BatchState → BatchState × Bool
  run fuel user_input approvals s =
      let (last, ended) = run_rounds fuel (begin_run user_input approvals s) in
      (repair_dangling_tool_calls (if ended then report_usage last.batch else last.batch), ended)
