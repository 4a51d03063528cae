-- ===== src/Agent/Loop/Ahead.antt =====
-- Which calls are started ahead of their turn (server/agent/parallel_tools.go `planToolCalls`,
-- `toolIsConcurrencySafe`).
use open_data_analysis.Common.{
  ℕ, String, Bool, true, false, Option, none, some, List, [], ◌∷◌, ◌≡◌, subst, All, arith,
  Option-cases, inl, inr,
}
use open_data_analysis.Agent.History.{ToolCall}
use open_data_analysis.Tools.Admission.{ApprovalRequest, deny}
use open_data_analysis.Agent.Loop.{
  Tool, PlannedToolCall, planned, admit_call, plan_call, plan_tool_calls,
}
use open_data_analysis.Agent.Loop.Failures.{Streak}
use open_data_analysis.Agent.Loop.Batch.{Action, started, awaited, ran}
use open_data_analysis.Agent.Loop.Admitted.{IsActionPlan}

module _ (registry : String → Option Tool) where
  -- A call that the tool of the registry runs at the same time as others, and that suspends no run.
  abbrev pub IsConcurrent : ToolCall → Type 0
  IsConcurrent c =
      (t : Tool) × (registry c.name ≡ some t)
      × (t.suspends ≡ false)
      × (t.is_concurrency_safe c.arguments ≡ true)

  -- Only such a call is started ahead.
  abbrev pub IsAhead : Action → Type 0
  IsAhead (started c) = IsConcurrent c
  IsAhead (awaited c) = Unit
  IsAhead (ran c) = Unit

  module _ {S : Type 0} (verify_approval : (receipt_id : String) → ApprovalRequest → S → S × Bool)
      (is_object : String → Bool) (threshold : ℕ) (streaks : List Streak) where
    plan_call-IsAhead :
        (c : ToolCall) (a : S)
        → IsActionPlan IsAhead
            (plan_call registry verify_approval is_object threshold streaks c a).1
    unfolding plan_call
    plan_call-IsAhead c a = elim (Option-cases (registry c.name)) [
      | inl n ↦
          let unknown : PlannedToolCall = record {
            call = c;
            tool = none;
            admission = record { kind = deny; code = "unknown_tool" };
            safe = false;
          } in
          let eq : unknown
              ≡ (plan_call registry verify_approval is_object threshold streaks c a).1 =
            ground (arith, n) in
          subst (IsActionPlan IsAhead) eq ((λ e. absurd (ground (arith, e))), λ t e z k. tt)
      | inr (x, n) ↦
          let adm = (admit_call registry verify_approval is_object threshold streaks x c a).1 in
          let eq : planned registry verify_approval is_object threshold x c adm
              ≡ (plan_call registry verify_approval is_object threshold streaks c a).1 =
            ground (arith, n) in
          subst (IsActionPlan IsAhead) eq
            (λ e. (x, n, ground (arith, e), ground (arith, e)), λ t e z k. tt)
    ]

    pub plan_tool_calls-IsAhead :
        (cs : List ToolCall) (a : S)
        → All
            (IsActionPlan IsAhead)
            (plan_tool_calls registry verify_approval is_object threshold streaks cs a).1
    unfolding plan_tool_calls
    plan_tool_calls-IsAhead [] a = tt
    plan_tool_calls-IsAhead (c ∷ cs) a = (
      plan_call-IsAhead c a,
      plan_tool_calls-IsAhead cs
          (plan_call registry verify_approval is_object threshold streaks c a).0,
    )
