-- ===== src/Agent/Loop/Endings.antt =====
-- How a run ends (server/agent/engine.go `Run`).
use open_data_analysis.Common.{
  String, Bool, true, false, ◌&&◌, List, [], ◌∷◌, ◌++◌, ◌≡◌, ◌⊎◌, ◌<◌, ◌+◌, refl, sym, subst,
  lookup, All, All-append, arith, Bool-cases, Option-cases, inl, inr, Result,
}
use open_data_analysis.Agent.History.{ToolCall}
use open_data_analysis.Agent.Loop.{Tool, PlannedToolCall, is_allowed}
use open_data_analysis.Agent.Loop.Batch.{
  Runtime, BatchState, LoopEvent, tool_called, approval_denied, tool_returned, suspended,
  assistant_status, system_feedback, run_cancelled, run_failed, run_completed, run_usage, LlmUsage,
  act, awaited, ran, emit, checked, report_outcome, keep_result, launch, start_parallel_run,
  run_planned_tool_call, block_code, block_tool_call, suspend_call, deliver, take_result,
  take_outcome, execute_call, run_call, run_batch,
}
use open_data_analysis.Agent.Loop.Steps.{ahead, run_batch-go, run_batch-stop}

-- The events that end a run.
abbrev pub ends_run : LoopEvent → Bool
ends_run (suspended c) = true
ends_run run_cancelled = true
ends_run (run_failed code) = true
ends_run (run_completed summary) = true
ends_run (tool_called c) = false
ends_run (approval_denied tool kind) = false
ends_run (tool_returned id name result success) = false
ends_run (assistant_status content) = false
ends_run (system_feedback content) = false
ends_run (run_usage u) = false

-- No event ends the run.
abbrev pub IsOpen : List LoopEvent → Type 0
IsOpen es = All (λ e. ends_run e ≡ false) es

-- The last event ends the run, and no other does.
abbrev pub IsEnded : List LoopEvent → Type 0
IsEnded es =
    (before : List LoopEvent) × (e : LoopEvent) × (es ≡ before ++ e ∷ [])
    × (ends_run e ≡ true)
    × IsOpen before

-- The run ended with these events, and then its tokens were reported, unless none were counted.
abbrev pub IsReported : LlmUsage → List LoopEvent → Type 0
IsReported u es =
    (ended : List LoopEvent) × IsEnded ended
    × (((u.prompt_tokens ≡ 0) × (u.completion_tokens ≡ 0) × (es ≡ ended))
        ⊎ ((0 < u.prompt_tokens + u.completion_tokens) × (es ≡ ended ++ run_usage u ∷ [])))

-- A run goes on with no event that ends it, or has stopped with one.
abbrev pub IsSettled : List LoopEvent → Bool → Type 0
IsSettled es true = IsOpen es
IsSettled es false = IsEnded es

pub open-emit :
    (es : List LoopEvent) (e : LoopEvent) → ends_run e ≡ false → IsOpen es → IsOpen (es ++ e ∷ [])
open-emit es e n h = All-append (λ e. ends_run e ≡ false) es (e ∷ []) h (n, tt)

pub emit-IsEnded :
    (es : List LoopEvent) (e : LoopEvent) → ends_run e ≡ true → IsOpen es → IsEnded (es ++ e ∷ [])
emit-IsEnded es e n h = (es, e, refl, n, h)

module _ (rt : Runtime) where
  suspend_call-IsSettled :
      (t : Tool) (c : ToolCall) (s : BatchState)
      → IsOpen s.events
      → IsSettled (suspend_call rt t c s).0.events (suspend_call rt t c s).1
  unfolding suspend_call
  suspend_call-IsSettled t c s h = elim (Option-cases t.suspension_event) [
    | inl n ↦
        rw (suspend_call, n)
          (emit-IsEnded s.events (run_failed "invalid_suspension_contract") refl h)
    | inr (f, n) ↦ elim (Option-cases (f c.arguments)) [
      | inl k ↦ rw (suspend_call, n) (rw k (emit-IsEnded s.events (suspended c) refl h))
      | inr (m, k) ↦
          rw (suspend_call, n)
            (rw k (
              open-emit s.events (tool_returned c.id c.name (rt.suspension_failure c.name m) false)
                refl h))
    ]
  ]

  deliver-IsEnded : (s : BatchState) → IsOpen s.events → IsEnded (deliver rt s).events
  unfolding deliver
  deliver-IsEnded s h = elim (Option-cases (rt.final_response s.history)) [
    | inl n ↦ rw (deliver, n) (emit-IsEnded s.events (run_failed "final_response_failed") refl h)
    | inr ((m, u), n) ↦ rw (deliver, n) (emit-IsEnded s.events (run_completed m) refl h)
  ]

  take_result-IsSettled :
      (t : Tool) (c : ToolCall) (r : String) (s : BatchState)
      → IsOpen s.events
      → IsSettled (take_result rt t c r s).0.events (take_result rt t c r s).1
  unfolding take_result
  take_result-IsSettled t c r s h = elim (Option-cases (rt.compact_result c.name r)) [
    | inl n ↦
        rw (take_result, n)
          (emit-IsEnded s.events (run_failed "tool_result_compaction_failed") refl h)
    | inr (m, n) ↦ elim (Bool-cases (t.delivery_boundary && rt.is_delivered r)) [
      | inl k ↦ rw (take_result, n) (rw k (deliver-IsEnded (keep_result rt c m s) h))
      | inr k ↦ rw (take_result, n) (rw k h)
    ]
  ]

  take_outcome-IsSettled :
      (t : Tool) (c : ToolCall) (o : Result String String) (s : BatchState)
      → IsOpen s.events
      → IsSettled (take_outcome rt t c o s).0.events (take_outcome rt t c o s).1
  unfolding take_outcome
  take_outcome-IsSettled t c o s h =
      let reported =
        open-emit s.events
          (tool_returned c.id c.name (rt.normalize c.name o).0 (rt.normalize c.name o).1) refl h in
      elim (Bool-cases (rt.is_done s.checks)) [
        | inl k ↦
            rw (take_outcome, k)
              (emit-IsEnded (report_outcome rt c o s).events run_cancelled refl reported)
        | inr k ↦
            rw (take_outcome, k)
              (take_result-IsSettled t c ((rt.normalize c.name o).0)
                (checked rt (report_outcome rt c o s)) reported)
      ]

  events-start_parallel_run :
      (plan : List PlannedToolCall) (s : BatchState)
      → (start_parallel_run rt plan s).events ≡ s.events
  unfolding start_parallel_run
  events-start_parallel_run [] s = refl
  events-start_parallel_run (p ∷ ps) s =
      ground (arith, events-start_parallel_run ps (launch rt p.call s))

  events-ahead :
      (p : PlannedToolCall) (ps : List PlannedToolCall) (s : BatchState)
      → s.events ≡ (ahead rt p ps s).events
  events-ahead p ps s = ground (arith, events-start_parallel_run (p ∷ ps) s)

  execute_call-IsSettled :
      (t : Tool) (c : ToolCall) (s : BatchState)
      → IsOpen s.events
      → IsSettled (execute_call rt t c s).0.events (execute_call rt t c s).1
  unfolding execute_call run_planned_tool_call
  execute_call-IsSettled t c s h =
      let announced = open-emit s.events (tool_called c) refl h in
      elim (Option-cases (lookup c.id s.futures)) [
        | inl n ↦ elim (Bool-cases (rt.is_done s.checks)) [
          | inl k ↦
              rw (execute_call, run_planned_tool_call, n)
                (rw k (emit-IsEnded (emit (tool_called c) s).events run_cancelled refl announced))
          | inr k ↦
              rw (execute_call, run_planned_tool_call, n)
                (rw k (
                  take_outcome-IsSettled t c (rt.execute s.actions c)
                    (checked rt (act (ran c) (emit (tool_called c) s))) announced))
        ]
        | inr (r, n) ↦ elim (Bool-cases (rt.is_done s.checks)) [
          | inl k ↦
              rw (execute_call, run_planned_tool_call, n)
                (rw k (emit-IsEnded (emit (tool_called c) s).events run_cancelled refl announced))
          | inr k ↦
              rw (execute_call, run_planned_tool_call, n)
                (rw k (
                  take_outcome-IsSettled t c r
                    (checked rt (act (awaited c) (emit (tool_called c) s))) announced))
        ]
      ]

  open-block_tool_call :
      (p : PlannedToolCall) (s : BatchState)
      → IsOpen s.events
      → IsOpen (block_tool_call rt p.call p.admission s).events
  unfolding block_tool_call
  open-block_tool_call p s h =
      let called = open-emit s.events (tool_called p.call) refl h in
      let denied =
        open-emit (s.events ++ tool_called p.call ∷ [])
          (approval_denied p.call.name p.admission.kind) refl called in
      open-emit
        ((s.events ++ tool_called p.call ∷ []) ++ approval_denied p.call.name p.admission.kind ∷ [])
        (tool_returned p.call.id p.call.name
          (rt.blocked_result p.call.name (block_code p.admission)) false)
        refl denied

  run_call-IsSettled :
      (p : PlannedToolCall) (ps : List PlannedToolCall) (s : BatchState)
      → IsOpen s.events
      → IsSettled (run_call rt p (p ∷ ps) s).0.events (run_call rt p (p ∷ ps) s).1
  unfolding run_call
  run_call-IsSettled p ps s h = elim (Bool-cases (is_allowed p.admission.kind)) [
    | inr n ↦
        let eq : (block_tool_call rt p.call p.admission s, true) ≡ run_call rt p (p ∷ ps) s =
          ground (arith, n) in
        subst (λ x. IsSettled x.0.events x.1) eq (open-block_tool_call p s h)
    | inl a ↦ elim (Option-cases p.tool) [
      | inl n ↦
          let eq : (s, true) ≡ run_call rt p (p ∷ ps) s = ground (arith, a, n) in
          subst (λ x. IsSettled x.0.events x.1) eq h
      | inr (t, n) ↦
          let at : IsOpen (ahead rt p ps s).events = subst IsOpen (events-ahead p ps s) h in
          elim (Bool-cases t.suspends) [
            | inl z ↦
                let eq : suspend_call rt t p.call (ahead rt p ps s) ≡ run_call rt p (p ∷ ps) s =
                  ground (arith, a, n, z) in
                subst (λ x. IsSettled x.0.events x.1) eq
                  (suspend_call-IsSettled t p.call (ahead rt p ps s) at)
            | inr z ↦
                let eq : execute_call rt t p.call (ahead rt p ps s) ≡ run_call rt p (p ∷ ps) s =
                  ground (arith, a, n, z) in
                subst (λ x. IsSettled x.0.events x.1) eq
                  (execute_call-IsSettled t p.call (ahead rt p ps s) at)
          ]
    ]
  ]

  pub run_batch-IsSettled :
      (plan : List PlannedToolCall) (s : BatchState)
      → IsOpen s.events
      → IsSettled (run_batch rt plan s).0.events (run_batch rt plan s).1
  unfolding run_batch
  run_batch-IsSettled [] s h = h
  run_batch-IsSettled (p ∷ ps) s h =
      let next = run_call-IsSettled p ps s h in
      elim (Bool-cases ((run_call rt p (p ∷ ps) s).1)) [
        | inl e ↦
            subst (λ x. IsSettled x.0.events x.1) (sym (run_batch-go rt p ps s e))
              (run_batch-IsSettled ps (run_call rt p (p ∷ ps) s).0
                (subst (IsSettled (run_call rt p (p ∷ ps) s).0.events) e next))
        | inr e ↦
            subst (λ x. IsSettled x.0.events x.1) (sym (run_batch-stop rt p ps s e))
              (subst (IsSettled (run_call rt p (p ∷ ps) s).0.events) e next)
      ]
