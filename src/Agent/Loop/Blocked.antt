-- ===== src/Agent/Loop/Blocked.antt =====
-- A tool whose failures repeat (server/agent/engine.go `recordToolOutcome`, `repeatedFailureBlock`,
-- server/agent/parallel_tools.go).
use open_data_analysis.Common.{
  ℕ, String, Bool, true, false, ◌==◌, Option, List, [], ◌∷◌, ◌≡◌, refl, sym, subst, lookup, is_some,
  All, All-both, arith, eq_iff, Bool-cases, Option-cases, inl, inr, Result,
}
use open_data_analysis.Tools.Admission.{ApprovalRequest}
use open_data_analysis.Agent.History.{ToolCall}
use open_data_analysis.Agent.Loop.{
  Tool, PlannedToolCall, is_allowed, check_call, admit_call, plan_call, plan_tool_calls,
}
use open_data_analysis.Agent.Loop.Failures.{
  Streak, clear_streaks, count_failure, record_tool_outcome, repeated_failure_block,
}
use open_data_analysis.Agent.Loop.Batch.{
  Runtime, BatchState, act, awaited, ran, emit, tool_called, checked, launch, start_parallel_run,
  run_planned_tool_call, block_tool_call, suspend_call, deliver, take_result, take_outcome,
  execute_call, run_call, run_batch,
}
use open_data_analysis.Agent.Loop.Admitted.{IsSafeAction, IsSafePlan, safe-run_batch}
use open_data_analysis.Agent.Loop.Barrier.{IsPlanned, plan_tool_calls-IsPlanned}
use open_data_analysis.Agent.Loop.Steps.{ahead, run_batch-go, run_batch-stop}

-- The runtime refuses the tool.
abbrev pub is_blocked : ℕ → String → List Streak → Bool
is_blocked threshold tool streaks = is_some (repeated_failure_block threshold tool streaks)

blocked-clear_streaks :
    (threshold : ℕ) (tool other : String) (xs : List Streak)
    → (other == tool) ≡ false
    → is_blocked threshold tool xs ≡ true
    → is_blocked threshold tool (clear_streaks other xs) ≡ true
unfolding repeated_failure_block clear_streaks
blocked-clear_streaks threshold tool other [] n h = h
blocked-clear_streaks threshold tool other (x ∷ xs) n h =
    elim (Bool-cases (is_blocked threshold tool xs)) [
      | inl k ↦ ground (
        arith,
        n,
        h,
        k,
        blocked-clear_streaks threshold tool other xs n k,
        eq_iff x.tool other,
        eq_iff x.tool tool,
        eq_iff other tool,
      )
      | inr k ↦ ground (arith, n, h, k, eq_iff x.tool other, eq_iff x.tool tool, eq_iff other tool)
    ]

blocked-count_failure :
    (threshold : ℕ) (tool other code : String) (xs : List Streak)
    → is_blocked threshold tool xs ≡ true
    → is_blocked threshold tool (count_failure other code xs) ≡ true
unfolding repeated_failure_block count_failure
blocked-count_failure threshold tool other code [] h = absurd (ground (arith, h))
blocked-count_failure threshold tool other code (x ∷ xs) h =
    elim (Bool-cases (is_blocked threshold tool xs)) [
      | inl k ↦ ground (arith, h, k, blocked-count_failure threshold tool other code xs k)
      | inr k ↦ ground (arith, h, k)
    ]

blocked-record_tool_outcome :
    (threshold : ℕ) (tool other code : String) (success : Bool) (xs : List Streak)
    → (other == tool) ≡ false
    → is_blocked threshold tool xs ≡ true
    → is_blocked threshold tool (record_tool_outcome other code success xs) ≡ true
unfolding record_tool_outcome
blocked-record_tool_outcome threshold tool other code success xs n h = ground (
  arith,
  h,
  blocked-clear_streaks threshold tool other xs n h,
  blocked-count_failure threshold tool other code xs h,
)

module _ (rt : Runtime) where
  streaks-take_outcome :
      (t : Tool) (c : ToolCall) (o : Result String String) (s : BatchState)
      → (take_outcome rt t c o s).0.failure_streaks
        ≡ record_tool_outcome c.name
            (rt.error_code (rt.normalize c.name o).0)
            (rt.normalize c.name o).1
            s.failure_streaks
  unfolding take_outcome take_result deliver
  streaks-take_outcome t c o s = ground arith

  streaks-start_parallel_run :
      (plan : List PlannedToolCall) (s : BatchState)
      → (start_parallel_run rt plan s).failure_streaks ≡ s.failure_streaks
  unfolding start_parallel_run
  streaks-start_parallel_run [] s = refl
  streaks-start_parallel_run (p ∷ ps) s =
      ground (arith, streaks-start_parallel_run ps (launch rt p.call s))

  module _ (threshold : ℕ) (tool : String) where
    blocked-take_outcome :
        (t : Tool) (c : ToolCall) (o : Result String String) (s : BatchState)
        → (c.name == tool) ≡ false
        → is_blocked threshold tool s.failure_streaks ≡ true
        → is_blocked threshold tool (take_outcome rt t c o s).0.failure_streaks ≡ true
    blocked-take_outcome t c o s n h =
        subst (λ x. is_blocked threshold tool x ≡ true) (sym (streaks-take_outcome t c o s))
          (blocked-record_tool_outcome threshold tool c.name
            (rt.error_code (rt.normalize c.name o).0) (rt.normalize c.name o).1 s.failure_streaks n
            h)

    blocked-execute_call :
        (t : Tool) (c : ToolCall) (s : BatchState)
        → (c.name == tool) ≡ false
        → is_blocked threshold tool s.failure_streaks ≡ true
        → is_blocked threshold tool (execute_call rt t c s).0.failure_streaks ≡ true
    unfolding execute_call run_planned_tool_call
    blocked-execute_call t c s n h = elim (Option-cases (lookup c.id s.futures)) [
      | inl e ↦ ground (
        arith,
        e,
        h,
        blocked-take_outcome t c (rt.execute s.actions c)
            (checked rt (act (ran c) (emit (tool_called c) s))) n h,
      )
      | inr (r, e) ↦ ground (
        arith,
        e,
        h,
        blocked-take_outcome t c r (checked rt (act (awaited c) (emit (tool_called c) s))) n h,
      )
    ]

    blocked-run_call :
        (p : PlannedToolCall) (ps : List PlannedToolCall) (s : BatchState)
        → (is_allowed p.admission.kind ≡ true → (p.call.name == tool) ≡ false)
        → is_blocked threshold tool s.failure_streaks ≡ true
        → is_blocked threshold tool (run_call rt p (p ∷ ps) s).0.failure_streaks ≡ true
    unfolding run_call block_tool_call suspend_call
    blocked-run_call p ps s n h = elim (Bool-cases (is_allowed p.admission.kind)) [
      | inr k ↦ ground (arith, k, h)
      | inl a ↦ elim (Option-cases p.tool) [
        | inl e ↦ ground (arith, a, e, h)
        | inr (t, e) ↦
            let at : is_blocked threshold tool (ahead rt p ps s).failure_streaks ≡ true =
              ground (arith, h, streaks-start_parallel_run (p ∷ ps) s) in
            elim (Bool-cases t.suspends) [
              | inl z ↦ ground (arith, a, e, z, at)
              | inr z ↦
                  ground (arith, a, e, z, blocked-execute_call t p.call (ahead rt p ps s) (n a) at)
            ]
      ]
    ]

    -- The calls of the plan that may be executed are of other tools.
    abbrev IsOther : PlannedToolCall → Type 0
    IsOther p = is_allowed p.admission.kind ≡ true → (p.call.name == tool) ≡ false

    blocked-run_batch :
        (plan : List PlannedToolCall) (s : BatchState)
        → All IsOther plan
        → is_blocked threshold tool s.failure_streaks ≡ true
        → is_blocked threshold tool (run_batch rt plan s).0.failure_streaks ≡ true
    unfolding run_batch
    blocked-run_batch [] s a h = h
    blocked-run_batch (p ∷ ps) s a h =
        let next = blocked-run_call p ps s a.0 h in
        elim (Bool-cases ((run_call rt p (p ∷ ps) s).1)) [
          | inl e ↦
              subst (λ x. is_blocked threshold tool x.0.failure_streaks ≡ true)
                (sym (run_batch-go rt p ps s e))
                (blocked-run_batch ps (run_call rt p (p ∷ ps) s).0 a.1 next)
          | inr e ↦
              subst (λ x. is_blocked threshold tool x.0.failure_streaks ≡ true)
                (sym (run_batch-stop rt p ps s e)) next
        ]

    module _ {S : Type 0} (verify_approval : (receipt_id : String) → ApprovalRequest → S → S × Bool)
        (registry : String → Option Tool) (is_object : String → Bool) (streaks : List Streak) where
      check_call-IsOther :
          (t : Tool) (c : ToolCall)
          → is_blocked threshold tool streaks ≡ true
          → is_allowed (check_call registry verify_approval is_object threshold streaks t c).kind
            ≡ true
          → (c.name == tool) ≡ false
      unfolding check_call
      check_call-IsOther t c h e = elim (Bool-cases (c.name == tool)) [
        | inr n ↦ n
        | inl n ↦
            let same : tool ≡ c.name = ground (arith, n, eq_iff c.name tool) in
            let k : is_blocked threshold c.name streaks ≡ true =
              subst (λ x. is_blocked threshold x streaks ≡ true) same h in
            absurd (ground (arith, e, k))
      ]

      plan_call-IsOther :
          (c : ToolCall) (a : S)
          → is_blocked threshold tool streaks ≡ true
          → IsOther (plan_call registry verify_approval is_object threshold streaks c a).1
      unfolding plan_call admit_call
      plan_call-IsOther c a h e = elim (Option-cases (registry c.name)) [
        | inl n ↦ absurd (ground (arith, e, n))
        | inr (x, n) ↦
            let named : c.name
                ≡ (plan_call registry verify_approval is_object threshold streaks c a).1.call.name =
              ground (arith, n) in
            subst (λ y. (y == tool) ≡ false) named (check_call-IsOther x c h (ground (arith, e, n)))
      ]

      plan_tool_calls-IsOther :
          (cs : List ToolCall) (a : S)
          → is_blocked threshold tool streaks ≡ true
          → All IsOther
              (plan_tool_calls registry verify_approval is_object threshold streaks cs a).1
      unfolding plan_tool_calls
      plan_tool_calls-IsOther [] a h = tt
      plan_tool_calls-IsOther (c ∷ cs) a h = (
        plan_call-IsOther c a h,
        plan_tool_calls-IsOther cs
            (plan_call registry verify_approval is_object threshold streaks c a).0 h,
      )

    -- Let the failures of a tool with one code be at the threshold when a batch is planned. Then no
    -- call of the tool in the batch is executed, and the failures are at the threshold after the
    -- batch too, whatever else it runs.
    pub stays_blocked :
        {S : Type 0} (verify_approval : (receipt_id : String) → ApprovalRequest → S → S × Bool)
        (registry : String → Option Tool) (is_object : String → Bool) (calls : List ToolCall)
        (a : S) (s : BatchState)
        → s.actions ≡ []
        → is_blocked threshold tool s.failure_streaks ≡ true
        → All
            (IsSafeAction (λ c. (c.name == tool) ≡ false))
            (run_batch rt
              (plan_tool_calls registry verify_approval is_object threshold s.failure_streaks calls
                a).1
              s).0.actions
          × (is_blocked threshold tool
                (run_batch rt
                  (plan_tool_calls registry verify_approval is_object threshold s.failure_streaks
                    calls a).1
                  s).0.failure_streaks
              ≡ true)
    stays_blocked verify_approval registry is_object calls a s e h =
        let plan =
          (plan_tool_calls registry verify_approval is_object threshold s.failure_streaks calls
            a).1 in
        let others =
          plan_tool_calls-IsOther verify_approval registry is_object s.failure_streaks calls a h in
        let kept = λ (c : ToolCall). (c.name == tool) ≡ false in
        let safe : All (IsSafePlan kept) plan =
          All-both (IsPlanned rt) IsOther (IsSafePlan kept) plan
            (λ p f o. ((λ z. o (f z).1.2), λ t x y z. o z))
            (plan_tool_calls-IsPlanned rt verify_approval registry is_object threshold
              s.failure_streaks calls a)
            others in
        (
          safe-run_batch rt kept plan s safe (subst (All (IsSafeAction kept)) (sym e) tt),
          blocked-run_batch plan s others h,
        )
