-- ===== src/Agent/Loop/Sequential.antt =====
-- A batch without overlap (server/agent/engine.go `Run`), and which executions matter for others.
use open_data_analysis.Common.{
  String, Bool, true, false, not, ◌&&◌, ◌==◌, none, some, List, [], ◌∷◌, ◌++◌, ◌≡◌, refl, All,
  arith, Bool-cases, Option-cases, inl, inr, if◌then◌else◌, Result,
}
use open_data_analysis.Agent.History.{ToolCall}
use open_data_analysis.Agent.Loop.{Tool, PlannedToolCall, is_allowed}
use open_data_analysis.Agent.Loop.Batch.{
  Runtime, BatchState, Action, started, awaited, ran, act, emit, tool_called, run_cancelled,
  checked, report_outcome, block_tool_call, launch, start_parallel_run, suspend_call, deliver,
  keep_result, take_result, take_outcome,
}
use open_data_analysis.Agent.Loop.Steps.{actions-take_outcome, ahead}

-- The state without the record of executions.
abbrev pub view : BatchState → BatchState
view s = record s { futures = []; actions = [] }

abbrev pub view_result : BatchState × Bool → BatchState × Bool
view_result (s, b) = (view s, b)

-- The ids of the calls differ.
abbrev pub IsDistinct : List PlannedToolCall → Type 0
IsDistinct [] = Unit
IsDistinct (p ∷ ps) = All (λ q. (q.call.id == p.call.id) ≡ false) ps × IsDistinct ps

module _ (harmless : ToolCall → Bool) where
  -- The executions that may change what later ones give.
  unfoldable pub effects : List Action → List ToolCall
  effects [] = []
  effects (started c ∷ xs) = let rest = effects xs in if harmless c then rest else c ∷ rest
  effects (awaited c ∷ xs) = effects xs
  effects (ran c ∷ xs) = let rest = effects xs in if harmless c then rest else c ∷ rest

  pub effects-snoc :
      (xs : List Action) (x : Action) → effects (xs ++ x ∷ []) ≡ effects xs ++ effects (x ∷ [])
  unfolding effects
  effects-snoc [] x = refl
  effects-snoc (started c ∷ xs) x = ground (arith, effects-snoc xs x)
  effects-snoc (awaited c ∷ xs) x = effects-snoc xs x
  effects-snoc (ran c ∷ xs) x = ground (arith, effects-snoc xs x)

-- What a call gives depends only on the executions before it that are not harmless.
abbrev pub IsIndependent : (ToolCall → Bool) → Runtime → Type 0
IsIndependent harmless rt =
    (xs ys : List Action) (c : ToolCall)
    → effects harmless xs ≡ effects harmless ys
    → rt.execute xs c ≡ rt.execute ys c

module _ (rt : Runtime) where
  -- A call, executed in its turn.
  unfoldable pub settle_call : Tool → ToolCall → BatchState → BatchState × Bool
  settle_call t c s =
      let announced = checked rt (act (ran c) (emit (tool_called c) s)) in
      if rt.is_done s.checks
      then (emit run_cancelled announced, false)
      else take_outcome rt t c (rt.execute s.actions c) announced

  -- A call of a batch without overlap.
  unfoldable pub run_call_in_order : PlannedToolCall → BatchState → BatchState × Bool
  run_call_in_order p s =
      if not (is_allowed p.admission.kind)
      then (block_tool_call rt p.call p.admission s, true)
      else (elim p.tool [
        | none ↦ (s, true)
        | some t ↦ if t.suspends then suspend_call rt t p.call s else settle_call t p.call s
      ])

  -- A batch without overlap: each call is executed in its turn.
  unfoldable pub run_in_order : List PlannedToolCall → BatchState → BatchState × Bool
  run_in_order [] s = (s, true)
  run_in_order (p ∷ ps) s =
      let (next, goes_on) = run_call_in_order p s in
      elim goes_on [ true ↦ run_in_order ps next | false ↦ (next, false) ]

  pub view-suspend_call :
      (t : Tool) (c : ToolCall) (s : BatchState)
      → view_result (suspend_call rt t c s) ≡ suspend_call rt t c (view s)
  unfolding suspend_call
  view-suspend_call t c s = elim (Option-cases t.suspension_event) [
    | inl n ↦ ground (arith, n)
    | inr (f, n) ↦ elim (Option-cases (f c.arguments)) [
      | inl k ↦ ground (arith, n, k)
      | inr (m, k) ↦ ground (arith, n, k)
    ]
  ]

  view-deliver : (s : BatchState) → view (deliver rt s) ≡ deliver rt (view s)
  unfolding deliver
  view-deliver s = elim (Option-cases (rt.final_response s.history)) [
    | inl n ↦ ground (arith, n)
    | inr (m, n) ↦ ground (arith, n)
  ]

  view-take_result :
      (t : Tool) (c : ToolCall) (r : String) (s : BatchState)
      → view_result (take_result rt t c r s) ≡ take_result rt t c r (view s)
  unfolding take_result
  view-take_result t c r s = elim (Option-cases (rt.compact_result c.name r)) [
    | inl n ↦ ground (arith, n)
    | inr (m, n) ↦ elim (Bool-cases (t.delivery_boundary && rt.is_delivered r)) [
      | inl k ↦ ground (arith, n, k, view-deliver (keep_result rt c m s))
      | inr k ↦ ground (arith, n, k)
    ]
  ]

  pub view-take_outcome :
      (t : Tool) (c : ToolCall) (o : Result String String) (s : BatchState)
      → view_result (take_outcome rt t c o s) ≡ take_outcome rt t c o (view s)
  unfolding take_outcome
  view-take_outcome t c o s = ground (
    arith,
    view-take_result t c ((rt.normalize c.name o).0) (checked rt (report_outcome rt c o s)),
  )

  pub view-start_parallel_run :
      (plan : List PlannedToolCall) (s : BatchState) → view (start_parallel_run rt plan s) ≡ view s
  unfolding start_parallel_run
  view-start_parallel_run [] s = refl
  view-start_parallel_run (p ∷ ps) s =
      ground (arith, view-start_parallel_run ps (launch rt p.call s))

  pub view-ahead :
      (p : PlannedToolCall) (ps : List PlannedToolCall) (s : BatchState)
      → view (ahead rt p ps s) ≡ view s
  view-ahead p ps s = ground (arith, view-start_parallel_run (p ∷ ps) s)

  pub in_order-go :
      (p : PlannedToolCall) (ps : List PlannedToolCall) (s : BatchState)
      → (run_call_in_order p s).1 ≡ true
      → run_in_order ps (run_call_in_order p s).0 ≡ run_in_order (p ∷ ps) s
  unfolding run_in_order
  in_order-go p ps s e = ground (arith, e)

  pub in_order-stop :
      (p : PlannedToolCall) (ps : List PlannedToolCall) (s : BatchState)
      → (run_call_in_order p s).1 ≡ false
      → run_call_in_order p s ≡ run_in_order (p ∷ ps) s
  unfolding run_in_order
  in_order-stop p ps s e = ground (arith, e)

  pub actions-settle_call :
      (t : Tool) (c : ToolCall) (s : BatchState)
      → (settle_call t c s).0.actions ≡ s.actions ++ ran c ∷ []
  unfolding settle_call
  actions-settle_call t c s = ground (
    arith,
    actions-take_outcome rt t c (rt.execute s.actions c)
        (checked rt (act (ran c) (emit (tool_called c) s))),
  )
