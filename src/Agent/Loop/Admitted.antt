-- ===== src/Agent/Loop/Admitted.antt =====
-- Which calls of a batch are executed (server/agent/engine.go `Run`, parallel_tools.go).
use open_data_analysis.Common.{
  true, false, some, List, [], ◌∷◌, ◌++◌, ◌≡◌, sym, ap, ◌∙◌, subst, lookup, is_some, All,
  Bool-cases, inl, inr, All-append,
}
use open_data_analysis.Agent.History.{ToolCall}
use open_data_analysis.Agent.Loop.{Tool, PlannedToolCall, is_allowed}
use open_data_analysis.Agent.Loop.Batch.{
  Runtime, BatchState, Action, started, awaited, ran, launch, start_parallel_run, run_call,
  run_batch,
}
use open_data_analysis.Agent.Loop.Steps.{
  actions-execute_call, turn_action, ahead, ahead-safe, ahead-exclusive, run_batch-go,
  run_batch-stop, run_call-cases,
}

module _ (P : ToolCall → Type 0) where
  -- What is executed has the property.
  abbrev pub IsSafeAction : Action → Type 0
  IsSafeAction (started c) = P c
  IsSafeAction (awaited c) = Unit
  IsSafeAction (ran c) = P c

  -- A planned call that may be executed has the property.
  abbrev pub IsSafePlan : PlannedToolCall → Type 0
  IsSafePlan p =
      (p.safe ≡ true → P p.call)
      × ((t : Tool)
          → p.tool ≡ some t
          → t.suspends ≡ false
          → is_allowed p.admission.kind ≡ true
          → P p.call)

-- What the executions of a planned call are, when they happen, has a property of actions.
abbrev pub IsActionPlan : (Action → Type 0) → PlannedToolCall → Type 0
IsActionPlan R p =
    (p.safe ≡ true → R (started p.call))
    × ((t : Tool)
        → p.tool ≡ some t
        → t.suspends ≡ false
        → is_allowed p.admission.kind ≡ true
        → R (ran p.call))

module _ (rt : Runtime) where
  module _ (R : Action → Type 0) (waits : (c : ToolCall) → R (awaited c)) where
    snoc : (xs : List Action) (x : Action) → All R xs → R x → All R (xs ++ x ∷ [])
    snoc xs x h k = All-append R xs (x ∷ []) h (k, tt)

    safe-launch :
        (c : ToolCall) (s : BatchState)
        → R (started c)
        → All R s.actions
        → All R (launch rt c s).actions
    safe-launch c s p h = elim (Bool-cases (is_some (lookup c.id s.futures))) [
      | inl e ↦ rw e h
      | inr e ↦ rw e (snoc s.actions (started c) h p)
    ]

    safe-start_parallel_run :
        (plan : List PlannedToolCall) (s : BatchState)
        → All (IsActionPlan R) plan
        → All R s.actions
        → All R (start_parallel_run rt plan s).actions
    unfolding start_parallel_run
    safe-start_parallel_run [] s a h = h
    safe-start_parallel_run (p ∷ ps) s a h = elim (Bool-cases p.safe) [
      | inr e ↦ rw e h
      | inl e ↦
          rw e
            (safe-start_parallel_run ps (launch rt p.call s) a.1 (safe-launch p.call s (a.0.0 e) h))
    ]

    safe-turn : (c : ToolCall) (s : BatchState) → R (ran c) → R (turn_action rt c s)
    safe-turn c s p = elim (Bool-cases (is_some (lookup c.id s.futures))) [
      | inl e ↦ rw e (waits c)
      | inr e ↦ rw e p
    ]

    safe-ahead :
        (p : PlannedToolCall) (ps : List PlannedToolCall) (s : BatchState)
        → All (IsActionPlan R) (p ∷ ps)
        → All R s.actions
        → All R (ahead rt p ps s).actions
    safe-ahead p ps s a h = elim (Bool-cases p.safe) [
      | inl e ↦
          subst (λ x. All R x.actions) (sym (ahead-safe rt p ps s e))
            (safe-start_parallel_run (p ∷ ps) s a h)
      | inr e ↦ subst (λ x. All R x.actions) (sym (ahead-exclusive rt p ps s e)) h
    ]

    safe-run_call :
        (p : PlannedToolCall) (ps : List PlannedToolCall) (s : BatchState)
        → All (IsActionPlan R) (p ∷ ps)
        → All R s.actions
        → All R (run_call rt p (p ∷ ps) s).0.actions
    safe-run_call p ps s a h = elim (run_call-cases rt p ps s) [
      | inr (inr e) ↦ subst (All R) (sym e) h
      | inr (inl (k, e)) ↦ subst (All R) (sym e) (safe-ahead p ps s a h)
      | inl (t, (e, z, k), r) ↦
          let eq = ap (λ x. x.0.actions) r ∙ actions-execute_call rt t p.call (ahead rt p ps s) in
          subst (All R) (sym eq) (
            snoc (ahead rt p ps s).actions (turn_action rt p.call (ahead rt p ps s))
              (safe-ahead p ps s a h) (safe-turn p.call (ahead rt p ps s) (a.0.1 t e z k)))
    ]

    pub action-run_batch :
        (plan : List PlannedToolCall) (s : BatchState)
        → All (IsActionPlan R) plan
        → All R s.actions
        → All R (run_batch rt plan s).0.actions
    unfolding run_batch
    action-run_batch [] s a h = h
    action-run_batch (p ∷ ps) s a h = elim (Bool-cases ((run_call rt p (p ∷ ps) s).1)) [
      | inl e ↦
          subst (λ x. All R x.0.actions) (sym (run_batch-go rt p ps s e))
            (action-run_batch ps (run_call rt p (p ∷ ps) s).0 a.1 (safe-run_call p ps s a h))
      | inr e ↦
          subst (λ x. All R x.0.actions) (sym (run_batch-stop rt p ps s e))
            (safe-run_call p ps s a h)
    ]

  pub safe-run_batch :
      (P : ToolCall → Type 0) (plan : List PlannedToolCall) (s : BatchState)
      → All (IsSafePlan P) plan
      → All (IsSafeAction P) s.actions
      → All (IsSafeAction P) (run_batch rt plan s).0.actions
  safe-run_batch P = action-run_batch (IsSafeAction P) (λ c. tt)
