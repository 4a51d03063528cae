-- ===== src/Agent/Loop/Barrier.antt =====
-- The order of the executions of a batch (server/agent/parallel_tools.go `startParallelRun`,
-- `runPlannedToolCall`): calls that are started ahead overlap, no other call overlaps.
use open_data_analysis.Common.{
  ℕ, String, Bool, true, false, not, ◌||◌, Option, none, List, [], ◌∷◌, ◌++◌, ◌≡◌, refl, sym, ap,
  ◌∙◌, subst, lookup, lookup-insert, is_some, All, arith, eq_iff, Bool-cases, Option-cases, inl,
  inr,
}
use open_data_analysis.Agent.History.{ToolCall}
use open_data_analysis.Tools.Admission.{ApprovalRequest, deny}
use open_data_analysis.Agent.Loop.{
  Tool, PlannedToolCall, planned, admit_call, plan_call, plan_tool_calls,
}
use open_data_analysis.Agent.Loop.Failures.{Streak}
use open_data_analysis.Agent.Loop.Batch.{
  Runtime, BatchState, awaited, ran, launch, start_parallel_run, execute_call, run_call, run_batch,
}
use open_data_analysis.Agent.Loop.Admitted.{action-run_batch}
use open_data_analysis.Agent.Loop.Ahead.{IsAhead, plan_tool_calls-IsAhead}
use open_data_analysis.Agent.Loop.Steps.{
  actions-execute_call, turn_action, ahead-safe, ahead-exclusive, run_batch-go, run_batch-stop,
  IsTurn, run_call-turn, run_call-cases,
}
use open_data_analysis.Agent.Loop.Overlap.{
  is_empty, in_flight, runs_alone, safe_ids, is_in, IsWithin, IsWithin-self, IsWithin-empty,
  IsOrderly, IsOrderly-more, started-IsOrderly, awaited-IsOrderly, ran-IsOrderly,
}

module _ (rt : Runtime) where
  launch-IsOrderly :
      (c : ToolCall) (ids : List String) (s : BatchState)
      → is_in ids c.id ≡ true
      → IsOrderly ids s.actions
      → IsOrderly ids (launch rt c s).actions
  launch-IsOrderly c ids s e h = elim (Bool-cases (is_some (lookup c.id s.futures))) [
    | inl k ↦ rw k h
    | inr k ↦ rw k (started-IsOrderly c ids s.actions e h)
  ]

  -- The calls that are started ahead are the safe ones.
  start_parallel_run-IsOrderly :
      (plan : List PlannedToolCall) (ids : List String) (s : BatchState)
      → IsWithin (safe_ids plan) ids
      → IsOrderly ids s.actions
      → IsOrderly ids (start_parallel_run rt plan s).actions
  unfolding start_parallel_run
  start_parallel_run-IsOrderly [] ids s w h = h
  start_parallel_run-IsOrderly (p ∷ ps) ids s w h = elim (Bool-cases p.safe) [
    | inr e ↦
        let eq : s ≡ start_parallel_run rt (p ∷ ps) s = ground (arith, e) in
        subst (λ x. IsOrderly ids x.actions) eq h
    | inl e ↦
        let eq : start_parallel_run rt ps (launch rt p.call s) ≡ start_parallel_run rt (p ∷ ps) s =
          ground (arith, e) in
        let all : p.call.id ∷ safe_ids ps ≡ safe_ids (p ∷ ps) = ground (arith, e) in
        let both = subst (λ x. IsWithin x ids) (sym all) w in
        subst (λ x. IsOrderly ids x.actions) eq
          (start_parallel_run-IsOrderly ps ids (launch rt p.call s) both.1
            (launch-IsOrderly p.call ids s both.0 h))
  ]

  known-launch :
      (c : ToolCall) (id : String) (s : BatchState)
      → is_some (lookup id s.futures) ≡ true
      → is_some (lookup id (launch rt c s).futures) ≡ true
  known-launch c id s h = elim (Bool-cases (is_some (lookup c.id s.futures))) [
    | inl k ↦ rw k h
    | inr k ↦ rw k (ground (arith, h, lookup-insert c.id id (rt.execute s.actions c) s.futures))
  ]

  known-start_parallel_run :
      (plan : List PlannedToolCall) (id : String) (s : BatchState)
      → is_some (lookup id s.futures) ≡ true
      → is_some (lookup id (start_parallel_run rt plan s).futures) ≡ true
  unfolding start_parallel_run
  known-start_parallel_run [] id s h = h
  known-start_parallel_run (p ∷ ps) id s h =
      ground
        (arith, h, known-start_parallel_run ps id (launch rt p.call s) (known-launch p.call id s h))

  -- A safe call was started when its turn comes.
  known-ahead :
      (p : PlannedToolCall) (ps : List PlannedToolCall) (s : BatchState)
      → p.safe ≡ true
      → is_some (lookup p.call.id (start_parallel_run rt (p ∷ ps) s).futures) ≡ true
  unfolding start_parallel_run
  known-ahead p ps s e =
      let known : is_some (lookup p.call.id (launch rt p.call s).futures) ≡ true = ground (
        arith,
        lookup-insert p.call.id p.call.id (rt.execute s.actions p.call) s.futures,
        eq_iff p.call.id p.call.id,
      ) in
      ground (arith, e, known-start_parallel_run ps p.call.id (launch rt p.call s) known)

  -- Every safe call is one that is executed at its turn.
  abbrev pub IsPlanned : PlannedToolCall → Type 0
  IsPlanned p = p.safe ≡ true → (t : Tool) × IsTurn rt p t

  turn_action-IsOrderly :
      (c : ToolCall) (ids : List String) (s : BatchState)
      → IsOrderly [] s.actions
      → IsOrderly ids (s.actions ++ turn_action rt c s ∷ [])
  turn_action-IsOrderly c ids s h = elim (Bool-cases (is_some (lookup c.id s.futures))) [
    | inl k ↦ rw k (
        IsOrderly-more ids (s.actions ++ awaited c ∷ [])
          (awaited-IsOrderly c [] s.actions (IsOrderly-more (c.id ∷ []) s.actions h)))
    | inr k ↦ rw k (IsOrderly-more ids (s.actions ++ ran c ∷ []) (ran-IsOrderly c s.actions h))
  ]

  run_call-IsOrderly :
      (p : PlannedToolCall) (ps : List PlannedToolCall) (s : BatchState)
      → IsPlanned p
      → IsOrderly (safe_ids (p ∷ ps)) s.actions
      → IsOrderly (safe_ids ps) (run_call rt p (p ∷ ps) s).0.actions
  run_call-IsOrderly p ps s a h = elim (Bool-cases p.safe) [
    | inl e ↦
        let (t, turn) = a e in
        let at = start_parallel_run rt (p ∷ ps) s in
        let all : p.call.id ∷ safe_ids ps ≡ safe_ids (p ∷ ps) = ground (arith, e) in
        let started_run =
          start_parallel_run-IsOrderly (p ∷ ps) (safe_ids (p ∷ ps)) s
            (IsWithin-self (safe_ids (p ∷ ps))) h in
        let awaits : turn_action rt p.call at ≡ awaited p.call =
          ground (arith, known-ahead p ps s e) in
        let ends =
          ap (λ x. x.0.actions) (run_call-turn rt p ps s t turn)
          ∙ ap (λ x. (execute_call rt t p.call x).0.actions) (ahead-safe rt p ps s e)
          ∙ actions-execute_call rt t p.call at
          ∙ ap (λ x. at.actions ++ x ∷ []) awaits in
        subst (IsOrderly (safe_ids ps)) (sym ends) (
          awaited-IsOrderly p.call (safe_ids ps) at.actions
            (subst (λ x. IsOrderly x at.actions) (sym all) started_run))
    | inr e ↦
        let none_safe : safe_ids (p ∷ ps) ≡ [] = ground (arith, e) in
        let alone = subst (λ x. IsOrderly x s.actions) none_safe h in
        let same = ap (λ x. x.actions) (ahead-exclusive rt p ps s e) in
        elim (run_call-cases rt p ps s) [
          | inr (inr k) ↦
              subst (IsOrderly (safe_ids ps)) (sym k) (IsOrderly-more (safe_ids ps) s.actions alone)
          | inr (inl (l, k)) ↦
              subst (IsOrderly (safe_ids ps)) (sym (k ∙ same))
                (IsOrderly-more (safe_ids ps) s.actions alone)
          | inl (t, turn, r) ↦
              let ends =
                ap (λ x. x.0.actions) r
                ∙ ap (λ x. (execute_call rt t p.call x).0.actions) (ahead-exclusive rt p ps s e)
                ∙ actions-execute_call rt t p.call s in
              subst (IsOrderly (safe_ids ps)) (sym ends)
                (turn_action-IsOrderly p.call (safe_ids ps) s alone)
        ]
  ]

  -- Every execution of a batch that runs in its turn runs alone, and when the loop reaches the end,
  -- every execution started ahead was awaited.
  orderly-run_batch :
      (plan : List PlannedToolCall) (s : BatchState)
      → All IsPlanned plan
      → IsOrderly (safe_ids plan) s.actions
      → (runs_alone [] (run_batch rt plan s).0.actions ≡ true)
        × ((is_empty (in_flight [] (run_batch rt plan s).0.actions) || not (run_batch rt plan s).1)
            ≡ true)
  unfolding run_batch
  orderly-run_batch [] s a (r, w) = (r, ground (arith, IsWithin-empty (in_flight [] s.actions) w))
  orderly-run_batch (p ∷ ps) s a h =
      let next = run_call-IsOrderly p ps s a.0 h in
      elim (Bool-cases ((run_call rt p (p ∷ ps) s).1)) [
        | inl e ↦
            subst
              (λ x.
                (runs_alone [] x.0.actions ≡ true)
                × ((is_empty (in_flight [] x.0.actions) || not x.1) ≡ true))
              (sym (run_batch-go rt p ps s e))
              (orderly-run_batch ps (run_call rt p (p ∷ ps) s).0 a.1 next)
        | inr e ↦
            subst
              (λ x.
                (runs_alone [] x.0.actions ≡ true)
                × ((is_empty (in_flight [] x.0.actions) || not x.1) ≡ true))
              (sym (run_batch-stop rt p ps s e)) (next.0, ground arith)
      ]

  module _ {S : Type 0} (verify_approval : (receipt_id : String) → ApprovalRequest → S → S × Bool)
      (registry : String → Option Tool) (is_object : String → Bool) (threshold : ℕ)
      (streaks : List Streak) where
    plan_call-IsPlanned :
        (c : ToolCall) (a : S)
        → IsPlanned (plan_call registry verify_approval is_object threshold streaks c a).1
    unfolding plan_call
    plan_call-IsPlanned c a = elim (Option-cases (registry c.name)) [
      | inl n ↦
          let unknown : PlannedToolCall = record {
            call = c;
            tool = none;
            admission = record { kind = deny; code = "unknown_tool" };
            safe = false;
          } in
          let eq : unknown
              ≡ (plan_call registry verify_approval is_object threshold streaks c a).1 =
            ground (arith, n) in
          subst IsPlanned eq (λ e. absurd (ground (arith, e)))
      | inr (x, n) ↦
          let adm = (admit_call registry verify_approval is_object threshold streaks x c a).1 in
          let eq : planned registry verify_approval is_object threshold x c adm
              ≡ (plan_call registry verify_approval is_object threshold streaks c a).1 =
            ground (arith, n) in
          subst IsPlanned eq (λ e. (x, (refl, ground (arith, e), ground (arith, e))))
    ]

    pub plan_tool_calls-IsPlanned :
        (cs : List ToolCall) (a : S)
        → All IsPlanned
            (plan_tool_calls registry verify_approval is_object threshold streaks cs a).1
    unfolding plan_tool_calls
    plan_tool_calls-IsPlanned [] a = tt
    plan_tool_calls-IsPlanned (c ∷ cs) a = (
      plan_call-IsPlanned c a,
      plan_tool_calls-IsPlanned cs
          (plan_call registry verify_approval is_object threshold streaks c a).0,
    )

    -- When a batch that is planned runs, only calls that their tools declare safe to run with others,
    -- and that suspend no run, are started ahead of their turn. A call that is executed in its turn never overlaps
    -- another execution, so what comes before it has ended and what comes after it has not started; and when
    -- the loop reaches the end of the batch, every execution started ahead was awaited.
    pub exclusive_runs_alone :
        (calls : List ToolCall) (a : S) (s : BatchState)
        → s.actions ≡ []
        → (runs_alone []
              (run_batch rt
                (plan_tool_calls registry verify_approval is_object threshold streaks calls a).1
                s).0.actions
            ≡ true)
          × ((is_empty (
                  in_flight []
                    (run_batch rt
                      (plan_tool_calls registry verify_approval is_object threshold streaks calls
                        a).1
                      s).0.actions)
                || not
                    (run_batch rt
                      (plan_tool_calls registry verify_approval is_object threshold streaks calls
                        a).1
                      s).1)
              ≡ true)
          × All
              (IsAhead registry)
              (run_batch rt
                (plan_tool_calls registry verify_approval is_object threshold streaks calls a).1
                s).0.actions
    unfolding runs_alone in_flight
    exclusive_runs_alone calls a s e =
        let plan =
          (plan_tool_calls registry verify_approval is_object threshold streaks calls a).1 in
        let (alone, waited) =
          orderly-run_batch plan s (plan_tool_calls-IsPlanned calls a)
            (subst (IsOrderly (safe_ids plan)) (sym e) (refl, tt)) in
        (
          alone,
          waited,
          action-run_batch rt (IsAhead registry) (λ c. tt) plan s
              (plan_tool_calls-IsAhead registry verify_approval is_object threshold streaks calls a)
              (subst (All (IsAhead registry)) (sym e) tt),
        )
