-- ===== src/Agent/Loop/Rounds.antt =====
-- The rounds of a run (server/agent/engine.go `Run`, final_output_guard.go): it ends once, and within
-- the limit.
use open_data_analysis.Common.{
  ℕ, zero, suc, ◌+◌, ◌<◌, String, Bool, true, false, not, ◌&&◌, ◌==◌, Option, some, List, [], ◌∷◌,
  ◌++◌, ◌≡◌, refl, ap, subst, arith, eqb, if◌then◌else◌, Bool-cases, Option-cases, inl, inr,
}
use open_data_analysis.Tools.Admission.{ApprovalRequest}
use open_data_analysis.Agent.History.{ToolCall}
use open_data_analysis.Agent.History.Protocol.{IsProtocol}
use open_data_analysis.Agent.History.Repair.{repair_tool_pairing-IsProtocol}
use open_data_analysis.Agent.Loop.{Tool, validate_tool_call_batch, plan_tool_calls}
use open_data_analysis.Agent.Loop.Batch.{
  Runtime, BatchState, assistant_status, system_feedback, run_cancelled, run_failed, run_completed,
  append_item, emit, checked,
}
use open_data_analysis.Agent.Loop.Turns.{
  Reply, Response, request_failed, no_choice, replied, Model, LoopState, plain, is_over_limit,
  final_markup_guard_decision, final_reply, text_reply, batch_reply, tool_reply, take_calls,
  requested, take_response, run_round, run_rounds, begin_run, report_usage, spent, run,
}
use open_data_analysis.Agent.Loop.Endings.{
  IsOpen, IsEnded, IsReported, IsSettled, open-emit, emit-IsEnded, run_batch-IsSettled,
}

module _ {S : Type 0} (verify_approval : (receipt_id : String) → ApprovalRequest → S → S × Bool)
    (registry : String → Option Tool) (is_object : String → Bool) (threshold : ℕ) (rt : Runtime)
    (model : Model) where
  -- What a step of a run gives is settled.
  abbrev IsStep : LoopState S × Bool → Type 0
  IsStep (s, goes_on) = IsSettled s.batch.events goes_on

  settled-final_reply :
      (content : String) (s : LoopState S)
      → IsOpen s.batch.events
      → IsStep (final_reply verify_approval registry is_object threshold rt model content s)
  unfolding final_reply
  settled-final_reply content s h =
      let decision =
        final_markup_guard_decision (model.contains_raw_tool_markup content)
          s.final_markup_rejects in
      elim (Bool-cases decision.0) [
        | inl e ↦
            rw (final_reply, e) (open-emit s.batch.events (system_feedback model.correction) refl h)
        | inr e ↦ rw (final_reply, e) (emit-IsEnded s.batch.events (run_completed content) refl h)
      ]

  settled-text_reply :
      (content : String) (s : LoopState S)
      → IsOpen s.batch.events
      → IsStep (text_reply verify_approval registry is_object threshold rt model content s)
  unfolding text_reply
  settled-text_reply content s h = elim (Option-cases (model.report_draft s.iteration)) [
    | inl n ↦ rw (text_reply, n) (settled-final_reply content s h)
    | inr (v, n) ↦ elim (Bool-cases (eqb s.injected_delivery_version v)) [
      | inl k ↦ rw (text_reply, n) (rw k (settled-final_reply content s h))
      | inr k ↦
          rw (text_reply, n) (rw k (open-emit s.batch.events (assistant_status content) refl h))
    ]
  ]

  settled-batch_reply :
      (r : Reply) (s : LoopState S)
      → IsOpen s.batch.events
      → IsStep (batch_reply verify_approval registry is_object threshold rt model r s)
  unfolding batch_reply
  settled-batch_reply r s h =
      let asked =
        append_item (record (plain "assistant" r.content) { tool_calls = r.tool_calls }) s.batch in
      let plan =
        (plan_tool_calls registry verify_approval is_object threshold s.batch.failure_streaks
          r.tool_calls s.approvals).1 in
      run_batch-IsSettled rt plan (record asked { futures = [] }) h

  settled-tool_reply :
      (r : Reply) (s : LoopState S)
      → IsOpen s.batch.events
      → IsStep (tool_reply verify_approval registry is_object threshold rt model r s)
  unfolding tool_reply
  settled-tool_reply r s h =
      let status = record s { batch = emit (assistant_status r.content) s.batch } in
      let told = open-emit s.batch.events (assistant_status r.content) refl h in
      elim (Bool-cases (r.content == "")) [
        | inl e ↦ elim (Bool-cases (validate_tool_call_batch registry r.tool_calls)) [
          | inl v ↦ rw (tool_reply, e) (rw v (settled-batch_reply r s h))
          | inr v ↦
              rw (tool_reply, e)
                (rw v (emit-IsEnded s.batch.events (run_failed "invalid_tool_call_batch") refl h))
        ]
        | inr e ↦ elim (Bool-cases (validate_tool_call_batch registry r.tool_calls)) [
          | inl v ↦ rw (tool_reply, e) (rw v (settled-batch_reply r status told))
          | inr v ↦
              rw (tool_reply, e)
                (rw v (
                  emit-IsEnded (s.batch.events ++ assistant_status r.content ∷ [])
                    (run_failed "invalid_tool_call_batch") refl told))
        ]
      ]

  settled-take_calls :
      (cs : List ToolCall) (r : Reply) (s : LoopState S)
      → IsOpen s.batch.events
      → IsStep (take_calls verify_approval registry is_object threshold rt model cs r s)
  unfolding take_calls
  settled-take_calls (c ∷ cs) r s h = settled-tool_reply r s h
  settled-take_calls [] r s h =
      let failed = emit-IsEnded s.batch.events (run_failed "empty_llm_output") refl h in
      elim (Bool-cases (r.content == "")) [
        | inr e ↦ rw (take_calls, e) (settled-text_reply r.content s h)
        | inl e ↦ elim (Bool-cases r.is_stop) [
          | inl k ↦ rw (take_calls, e) (rw k failed)
          | inr k ↦ rw (take_calls, e) (rw k failed)
        ]
      ]

  settled-take_response :
      (r : Response) (s : LoopState S)
      → IsOpen s.batch.events
      → IsStep (take_response verify_approval registry is_object threshold rt model r s)
  unfolding take_response
  settled-take_response request_failed s h =
      emit-IsEnded s.batch.events (run_failed "llm_request_failed") refl h
  settled-take_response (no_choice used) s h =
      emit-IsEnded s.batch.events (run_failed "empty_llm_response") refl h
  settled-take_response (replied used r) s h =
      settled-take_calls r.tool_calls r
        (spent verify_approval registry is_object threshold rt model used s) h

  reported :
      (s : BatchState)
      → IsEnded s.events
      → IsReported
          (report_usage verify_approval registry is_object threshold rt model s).usage
          (report_usage verify_approval registry is_object threshold rt model s).events
  unfolding report_usage
  reported s h =
      elim (Bool-cases (eqb s.usage.prompt_tokens 0 && eqb s.usage.completion_tokens 0)) [
        | inl e ↦ rw e (s.events, h, inl (ground (arith, e), ground (arith, e), refl))
        | inr e ↦ rw e (s.events, h, inr (ground (arith, e), refl))
      ]

  events-requested :
      (s : LoopState S)
      → s.batch.events
        ≡ (requested verify_approval registry is_object threshold rt model s).batch.events
  events-requested s = ground arith

  settled-run_round :
      (s : LoopState S)
      → IsOpen s.batch.events
      → IsStep (run_round verify_approval registry is_object threshold rt model s)
  unfolding run_round
  settled-run_round s h = elim (Bool-cases (rt.is_done s.batch.checks)) [
    | inl d ↦ rw (run_round, d) (emit-IsEnded s.batch.events run_cancelled refl h)
    | inr d ↦ elim (Bool-cases (is_over_limit model.limit s.iteration)) [
      | inl o ↦
          rw (run_round, d)
            (rw o (emit-IsEnded s.batch.events (run_failed "iteration_limit_exceeded") refl h))
      | inr o ↦
          let tested = record s { batch = checked rt s.batch } in
          rw (run_round, d)
            (rw o (
              settled-take_response
                (model.chat s.iteration (model.prepare s.batch.history) s.user_task)
                (requested verify_approval registry is_object threshold rt model tested)
                (subst IsOpen (events-requested tested) h)))
    ]
  ]

  -- In any number of rounds, a run has ended, its last event and no other ends it, or it goes on with
  -- no event that ends it.
  run_rounds-IsSettled :
      (fuel : ℕ) (s : LoopState S)
      → IsOpen s.batch.events
      → IsSettled
          (run_rounds verify_approval registry is_object threshold rt model fuel s).0.batch.events
          (not (run_rounds verify_approval registry is_object threshold rt model fuel s).1)
  unfolding run_rounds
  run_rounds-IsSettled zero s h = h
  run_rounds-IsSettled (suc fuel) s h =
      let round = run_round verify_approval registry is_object threshold rt model s in
      let next = settled-run_round s h in
      elim (Bool-cases round.1) [
        | inl e ↦
            let eq : run_rounds verify_approval registry is_object threshold rt model fuel round.0
                ≡ run_rounds verify_approval registry is_object threshold rt model (suc fuel) s =
              ground (arith, e) in
            subst (λ x. IsSettled x.0.batch.events (not x.1)) eq
              (run_rounds-IsSettled fuel round.0 (subst (IsSettled round.0.batch.events) e next))
        | inr e ↦
            let eq : (round.0, true)
                ≡ run_rounds verify_approval registry is_object threshold rt model (suc fuel) s =
              ground (arith, e) in
            subst (λ x. IsSettled x.0.batch.events (not x.1)) eq
              (subst (IsSettled round.0.batch.events) e next)
      ]

  stops-run_round :
      (s : LoopState S)
      → is_over_limit model.limit s.iteration ≡ true
      → (run_round verify_approval registry is_object threshold rt model s).1 ≡ false
  unfolding run_round
  stops-run_round s e = ground (arith, e)

  counts-run_round :
      (s : LoopState S)
      → (run_round verify_approval registry is_object threshold rt model s).1 ≡ true
      → (run_round verify_approval registry is_object threshold rt model s).0.iteration
        ≡ suc s.iteration
  unfolding run_round
  counts-run_round s e = ground (arith, e)

  ends-run_rounds :
      (fuel limit : ℕ) (s : LoopState S)
      → model.limit ≡ some limit
      → limit < fuel + s.iteration
      → (run_rounds verify_approval registry is_object threshold rt model (suc fuel) s).1 ≡ true
  unfolding run_rounds
  ends-run_rounds zero limit s l h =
      let over : is_over_limit model.limit s.iteration ≡ true = rw l (ground (arith, h)) in
      ground (arith, stops-run_round s over)
  ends-run_rounds (suc fuel) limit s l h =
      let round = run_round verify_approval registry is_object threshold rt model s in
      elim (Bool-cases round.1) [
        | inl e ↦ ground (
          arith,
          e,
          ends-run_rounds fuel limit round.0 l (omega (arith, h, counts-run_round s e)),
        )
        | inr e ↦ ground (arith, e)
      ]

  -- Let a deployment limit the rounds of a run. Then after at most one round more than the limit the
  -- run has ended, with one event that ends it: it is suspended, cancelled, failed or completed exactly
  -- once. Behind that event stands only the report of the tokens of the run, which is missing just when
  -- none were counted. The history that it leaves keeps the protocol of tool calls: results
  -- stand only after a message that asks for tools, and every call has a result there, but the one
  -- that the run is suspended on.
  pub run_ends_once :
      (limit : ℕ) (user_input : String) (approvals : S) (s : BatchState)
      → model.limit ≡ some limit
      → ((run verify_approval registry is_object threshold rt model
            (suc limit)
            user_input
            approvals
            s).1
          ≡ true)
        × IsReported
            (run verify_approval registry is_object threshold rt model
              (suc limit)
              user_input
              approvals
              s).0.usage
            (run verify_approval registry is_object threshold rt model
              (suc limit)
              user_input
              approvals
              s).0.events
        × IsProtocol
            (run verify_approval registry is_object threshold rt model
              (suc limit)
              user_input
              approvals
              s).0.pending_suspension_id
            (run verify_approval registry is_object threshold rt model
              (suc limit)
              user_input
              approvals
              s).0.history
  unfolding run begin_run
  run_ends_once limit user_input approvals s l =
      let begun =
        begin_run verify_approval registry is_object threshold rt model user_input approvals s in
      let last =
        run_rounds verify_approval registry is_object threshold rt model (suc limit) begun in
      let settled_batch = λ (x : LoopState S × Bool).
        if x.1
        then report_usage verify_approval registry is_object threshold rt model x.0.batch
        else x.0.batch in
      let ended = ends-run_rounds limit limit begun l (omega arith) in
      (
        ended,
        rw ended (
            reported last.0.batch (
              subst (IsSettled last.0.batch.events) (ap not ended)
                (run_rounds-IsSettled (suc limit) begun tt))),
        repair_tool_pairing-IsProtocol rt.unrecorded_result (settled_batch last).history
            (settled_batch last).pending_suspension_id,
      )
