-- ===== src/Agent/Loop/Matched.antt =====
-- A call of a batch beside the same call without overlap (server/agent/engine.go `Run`,
-- parallel_tools.go).
use open_data_analysis.Common.{
  String, Bool, true, false, not, none, some, List, [], ◌∷◌, ◌++◌, append-nil, ◌≡◌, sym, ap, ◌∙◌,
  subst, lookup, All, arith, Bool-cases, Option-cases, inl, inr, if◌then◌else◌, Result,
}
use open_data_analysis.Agent.History.{ToolCall}
use open_data_analysis.Agent.Loop.{Tool, PlannedToolCall, is_allowed}
use open_data_analysis.Agent.Loop.Batch.{
  Runtime, BatchState, awaited, ran, act, emit, tool_called, run_cancelled, checked,
  block_tool_call, run_planned_tool_call, suspend_call, take_outcome, execute_call, run_call,
}
use open_data_analysis.Agent.Loop.Steps.{
  actions-execute_call, actions-suspend_call, actions-block_tool_call, turn_action, ahead,
  ahead-safe, ahead-exclusive,
}
use open_data_analysis.Agent.Loop.Sequential.{
  view, view_result, IsDistinct, effects, effects-snoc, IsIndependent, settle_call,
  run_call_in_order, view-suspend_call, view-take_outcome, view-ahead, actions-settle_call,
}
use open_data_analysis.Agent.Loop.Ready.{
  IsRight, IsReady, IsHarmless, effects-start_parallel_run, start-IsReady,
}
use open_data_analysis.Agent.Loop.Steps.{run_call-cases}

module _ (rt : Runtime) where
  -- A call with its outcome, on states without the record of executions.
  abbrev settled : Tool → ToolCall → Result String String → BatchState → BatchState × Bool
  settled t c o v =
      let announced = checked rt (emit (tool_called c) v) in
      if rt.is_done v.checks
      then (emit run_cancelled announced, false)
      else take_outcome rt t c o announced

  abbrev pub viewed_call : PlannedToolCall → Result String String → BatchState → BatchState × Bool
  viewed_call p o v =
      if not (is_allowed p.admission.kind)
      then (block_tool_call rt p.call p.admission v, true)
      else (elim p.tool [
        | none ↦ (v, true)
        | some t ↦ if t.suspends then suspend_call rt t p.call v else settled t p.call o v
      ])

  view-settle_call :
      (t : Tool) (c : ToolCall) (s : BatchState)
      → view_result (settle_call rt t c s) ≡ settled t c (rt.execute s.actions c) (view s)
  unfolding settle_call
  view-settle_call t c s = ground (
    arith,
    view-take_outcome rt t c (rt.execute s.actions c)
        (checked rt (act (ran c) (emit (tool_called c) s))),
  )

  pub view-in_order :
      (p : PlannedToolCall) (s : BatchState)
      → view_result (run_call_in_order rt p s)
        ≡ viewed_call p (rt.execute s.actions p.call) (view s)
  unfolding run_call_in_order block_tool_call
  view-in_order p s = elim (Bool-cases (is_allowed p.admission.kind)) [
    | inr n ↦ ground (arith, n)
    | inl a ↦ elim (Option-cases p.tool) [
      | inl n ↦ ground (arith, a, n)
      | inr (t, n) ↦ elim (Bool-cases t.suspends) [
        | inl z ↦ ground (arith, a, n, z, view-suspend_call rt t p.call s)
        | inr z ↦ ground (arith, a, n, z, view-settle_call t p.call s)
      ]
    ]
  ]

  module _ (harmless : ToolCall → Bool) (independent : IsIndependent harmless rt) where
    view-execute_call :
        (t : Tool) (c : ToolCall) (s : BatchState)
        → IsRight rt harmless independent s c
        → view_result (execute_call rt t c s) ≡ settled t c (rt.execute s.actions c) (view s)
    unfolding execute_call run_planned_tool_call
    view-execute_call t c s right = elim (Option-cases (lookup c.id s.futures)) [
      | inl n ↦ ground (
        arith,
        n,
        view-take_outcome rt t c (rt.execute s.actions c)
            (checked rt (act (ran c) (emit (tool_called c) s))),
      )
      | inr (r, n) ↦ ground (
        arith,
        n,
        (right r n).1,
        view-take_outcome rt t c r (checked rt (act (awaited c) (emit (tool_called c) s))),
      )
    ]

    pub view-run_call :
        (p : PlannedToolCall) (ps : List PlannedToolCall) (s : BatchState)
        → IsRight rt harmless independent (ahead rt p ps s) p.call
        → view_result (run_call rt p (p ∷ ps) s)
          ≡ viewed_call p (rt.execute (ahead rt p ps s).actions p.call) (view s)
    unfolding run_call block_tool_call
    view-run_call p ps s right = elim (Bool-cases (is_allowed p.admission.kind)) [
      | inr n ↦ ground (arith, n)
      | inl a ↦ elim (Option-cases p.tool) [
        | inl n ↦ ground (arith, a, n)
        | inr (t, n) ↦ elim (Bool-cases t.suspends) [
          | inl z ↦ ground (
            arith,
            a,
            n,
            z,
            view-suspend_call rt t p.call (ahead rt p ps s),
            view-ahead rt p ps s,
          )
          | inr z ↦ ground (
            arith,
            a,
            n,
            z,
            view-execute_call t p.call (ahead rt p ps s) right,
            view-ahead rt p ps s,
          )
        ]
      ]
    ]

    pub effects-ahead :
        (p : PlannedToolCall) (ps : List PlannedToolCall) (s : BatchState)
        → All (IsHarmless rt harmless independent) (p ∷ ps)
        → effects harmless (ahead rt p ps s).actions ≡ effects harmless s.actions
    effects-ahead p ps s a = elim (Bool-cases p.safe) [
      | inl e ↦
          ap (λ x. effects harmless x.actions) (ahead-safe rt p ps s e)
          ∙ effects-start_parallel_run rt harmless independent (p ∷ ps) s a
      | inr e ↦ ap (λ x. effects harmless x.actions) (ahead-exclusive rt p ps s e)
    ]

    pub ahead-IsReady :
        (p : PlannedToolCall) (ps : List PlannedToolCall) (s : BatchState)
        → All (IsHarmless rt harmless independent) (p ∷ ps)
        → IsDistinct (p ∷ ps)
        → IsReady rt harmless independent (p ∷ ps) s
        → IsReady rt harmless independent (p ∷ ps) (ahead rt p ps s)
    ahead-IsReady p ps s a d k = elim (Bool-cases p.safe) [
      | inl e ↦
          subst (IsReady rt harmless independent (p ∷ ps)) (sym (ahead-safe rt p ps s e))
            (start-IsReady rt harmless independent (p ∷ ps) s a d k)
      | inr e ↦
          subst (IsReady rt harmless independent (p ∷ ps)) (sym (ahead-exclusive rt p ps s e)) k
    ]

    -- A call in its turn adds the same, whether its result was ready or not.
    effects-turn :
        (c : ToolCall) (s : BatchState)
        → IsRight rt harmless independent s c
        → effects harmless (s.actions ++ turn_action rt c s ∷ [])
          ≡ effects harmless s.actions ++ effects harmless (ran c ∷ [])
    unfolding effects
    effects-turn c s right =
        effects-snoc harmless s.actions (turn_action rt c s)
        ∙ elim (Option-cases (lookup c.id s.futures)) [
          | inl n ↦ ground (arith, n)
          | inr (r, n) ↦ ground (arith, n, (right r n).0)
        ]

    pub effects-run_call :
        (p : PlannedToolCall) (ps : List PlannedToolCall) (s r : BatchState)
        → IsRight rt harmless independent (ahead rt p ps s) p.call
        → effects harmless (ahead rt p ps s).actions ≡ effects harmless s.actions
        → effects harmless s.actions ≡ effects harmless r.actions
        → effects harmless (run_call rt p (p ∷ ps) s).0.actions
          ≡ effects harmless (run_call_in_order rt p r).0.actions
    unfolding run_call run_call_in_order
    effects-run_call p ps s r right same agree = elim (Bool-cases (is_allowed p.admission.kind)) [
      | inr n ↦
          let left : (run_call rt p (p ∷ ps) s).0.actions ≡ s.actions =
            ground (arith, n, actions-block_tool_call rt p s) in
          let other : r.actions ≡ (run_call_in_order rt p r).0.actions =
            ground (arith, n, actions-block_tool_call rt p r) in
          ap (effects harmless) left ∙ agree ∙ ap (effects harmless) other
      | inl a ↦ elim (Option-cases p.tool) [
        | inl n ↦
            let left : (run_call rt p (p ∷ ps) s).0.actions ≡ s.actions = ground (arith, a, n) in
            let other : r.actions ≡ (run_call_in_order rt p r).0.actions = ground (arith, a, n) in
            ap (effects harmless) left ∙ agree ∙ ap (effects harmless) other
        | inr (t, n) ↦ elim (Bool-cases t.suspends) [
          | inl z ↦
              let left : (run_call rt p (p ∷ ps) s).0.actions ≡ (ahead rt p ps s).actions =
                ground (arith, a, n, z, actions-suspend_call rt t p.call (ahead rt p ps s)) in
              let other : r.actions ≡ (run_call_in_order rt p r).0.actions =
                ground (arith, a, n, z, actions-suspend_call rt t p.call r) in
              ap (effects harmless) left ∙ same ∙ agree ∙ ap (effects harmless) other
          | inr z ↦
              let now = ahead rt p ps s in
              let left : (run_call rt p (p ∷ ps) s).0.actions
                  ≡ now.actions ++ turn_action rt p.call now ∷ [] =
                ground (arith, a, n, z, actions-execute_call rt t p.call now) in
              let other : r.actions ++ ran p.call ∷ [] ≡ (run_call_in_order rt p r).0.actions =
                ground (arith, a, n, z, actions-settle_call rt t p.call r) in
              ap (effects harmless) left
              ∙ effects-turn p.call now right
              ∙ ap (λ xs. xs ++ effects harmless (ran p.call ∷ [])) (same ∙ agree)
              ∙ sym (effects-snoc harmless r.actions (ran p.call))
              ∙ ap (effects harmless) other
        ]
      ]
    ]

    -- A safe call changes no execution that matters.
    pub effects-safe :
        (p : PlannedToolCall) (ps : List PlannedToolCall) (s : BatchState)
        → IsRight rt harmless independent (ahead rt p ps s) p.call
        → harmless p.call ≡ true
        → effects harmless (ahead rt p ps s).actions ≡ effects harmless s.actions
        → effects harmless (run_call rt p (p ∷ ps) s).0.actions ≡ effects harmless s.actions
    unfolding effects
    effects-safe p ps s right h same = elim (run_call-cases rt p ps s) [
      | inr (inr k) ↦ ap (effects harmless) k
      | inr (inl (l, k)) ↦ ap (effects harmless) k ∙ same
      | inl (t, turn, k) ↦
          ap (λ x. effects harmless x.0.actions) k
          ∙ ap (effects harmless) (actions-execute_call rt t p.call (ahead rt p ps s))
          ∙ effects-turn p.call (ahead rt p ps s) right
          ∙ ground (arith, h, append-nil (effects harmless (ahead rt p ps s).actions), same)
    ]
