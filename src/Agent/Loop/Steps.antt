-- ===== src/Agent/Loop/Steps.antt =====
-- How the steps of a batch change the executions and the calls that are started ahead
-- (server/agent/engine.go `Run`, parallel_tools.go).
use open_data_analysis.Common.{
  String, true, false, some, List, [], ◌∷◌, ◌++◌, ◌≡◌, refl, lookup, is_some, ◌⊎◌, Result, arith,
  Bool-cases, Option-cases, inl, inr, if◌then◌else◌,
}
use open_data_analysis.Agent.History.{ToolCall}
use open_data_analysis.Agent.Loop.{Tool, PlannedToolCall, is_allowed}
use open_data_analysis.Agent.Loop.Batch.{
  Runtime, BatchState, Action, act, emit, tool_called, awaited, ran, block_tool_call,
  start_parallel_run, run_planned_tool_call, checked, report_outcome, suspend_call, deliver,
  take_result, take_outcome, execute_call, run_call, run_batch,
}

module _ (rt : Runtime) where
  pub actions-suspend_call :
      (t : Tool) (c : ToolCall) (s : BatchState) → (suspend_call rt t c s).0.actions ≡ s.actions
  unfolding suspend_call
  actions-suspend_call t c s = ground arith

  pub actions-block_tool_call :
      (p : PlannedToolCall) (s : BatchState)
      → (block_tool_call rt p.call p.admission s).actions ≡ s.actions
  unfolding block_tool_call
  actions-block_tool_call p s = refl

  pub actions-take_result :
      (t : Tool) (c : ToolCall) (r : String) (s : BatchState)
      → (take_result rt t c r s).0.actions ≡ s.actions
  unfolding take_result deliver
  actions-take_result t c r s = ground arith

  pub actions-take_outcome :
      (t : Tool) (c : ToolCall) (r : Result String String) (s : BatchState)
      → (take_outcome rt t c r s).0.actions ≡ s.actions
  unfolding take_outcome
  actions-take_outcome t c r s = ground (
    arith,
    actions-take_result t c ((rt.normalize c.name r).0) (checked rt (report_outcome rt c r s)),
  )

  -- What the turn of a call does to the executions.
  abbrev pub turn_action : ToolCall → BatchState → Action
  turn_action c s = if is_some (lookup c.id s.futures) then awaited c else ran c

  pub actions-execute_call :
      (t : Tool) (c : ToolCall) (s : BatchState)
      → (execute_call rt t c s).0.actions ≡ s.actions ++ turn_action c s ∷ []
  unfolding execute_call run_planned_tool_call
  actions-execute_call t c s = elim (Option-cases (lookup c.id s.futures)) [
    | inl n ↦ ground (
      arith,
      n,
      actions-take_outcome t c (rt.execute s.actions c)
          (checked rt (act (ran c) (emit (tool_called c) s))),
    )
    | inr (r, n) ↦ ground (
      arith,
      n,
      actions-take_outcome t c r (checked rt (act (awaited c) (emit (tool_called c) s))),
    )
  ]

  pub run_batch-go :
      (p : PlannedToolCall) (ps : List PlannedToolCall) (s : BatchState)
      → (run_call rt p (p ∷ ps) s).1 ≡ true
      → run_batch rt (p ∷ ps) s ≡ run_batch rt ps (run_call rt p (p ∷ ps) s).0
  unfolding run_batch
  run_batch-go p ps s e = ground (arith, e)

  pub run_batch-stop :
      (p : PlannedToolCall) (ps : List PlannedToolCall) (s : BatchState)
      → (run_call rt p (p ∷ ps) s).1 ≡ false
      → run_batch rt (p ∷ ps) s ≡ ((run_call rt p (p ∷ ps) s).0, false)
  unfolding run_batch
  run_batch-stop p ps s e = ground (arith, e)

  -- The state when the turn of a call comes.
  abbrev pub ahead : PlannedToolCall → List PlannedToolCall → BatchState → BatchState
  ahead p ps s = if p.safe then start_parallel_run rt (p ∷ ps) s else s

  pub ahead-safe :
      (p : PlannedToolCall) (ps : List PlannedToolCall) (s : BatchState)
      → p.safe ≡ true
      → ahead p ps s ≡ start_parallel_run rt (p ∷ ps) s
  ahead-safe p ps s e = ground (arith, e)

  pub ahead-exclusive :
      (p : PlannedToolCall) (ps : List PlannedToolCall) (s : BatchState)
      → p.safe ≡ false
      → ahead p ps s ≡ s
  ahead-exclusive p ps s e = ground (arith, e)

  -- The call is executed at its turn.
  abbrev pub IsTurn : PlannedToolCall → Tool → Type 0
  IsTurn p t = (p.tool ≡ some t) × (t.suspends ≡ false) × (is_allowed p.admission.kind ≡ true)

  pub run_call-turn :
      (p : PlannedToolCall) (ps : List PlannedToolCall) (s : BatchState) (t : Tool)
      → IsTurn p t
      → run_call rt p (p ∷ ps) s ≡ execute_call rt t p.call (ahead p ps s)
  unfolding run_call
  run_call-turn p ps s t (e, z, a) = ground (arith, e, z, a)

  -- A call is executed at its turn, or leaves the executions as they are when it comes.
  pub run_call-cases :
      (p : PlannedToolCall) (ps : List PlannedToolCall) (s : BatchState)
      → ((t : Tool) × IsTurn p t
          × (run_call rt p (p ∷ ps) s ≡ execute_call rt t p.call (ahead p ps s)))
        ⊎ ((is_allowed p.admission.kind ≡ true)
            × ((run_call rt p (p ∷ ps) s).0.actions ≡ (ahead p ps s).actions))
        ⊎ ((run_call rt p (p ∷ ps) s).0.actions ≡ s.actions)
  unfolding run_call
  run_call-cases p ps s = elim (Bool-cases (is_allowed p.admission.kind)) [
    | inr n ↦ inr (inr (ground (arith, n, actions-block_tool_call p s)))
    | inl a ↦ elim (Option-cases p.tool) [
      | inl n ↦ inr (inr (ground (arith, a, n)))
      | inr (t, e) ↦ elim (Bool-cases t.suspends) [
        | inl z ↦
            inr (inl (a, ground (arith, a, e, z, actions-suspend_call t p.call (ahead p ps s))))
        | inr z ↦ inl (t, (e, z, a), ground (arith, a, e, z))
      ]
    ]
  ]
