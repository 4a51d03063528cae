-- ===== src/Agent/Loop/Granted.antt =====
-- What the calls that a batch executes are granted (server/agent/engine.go `Run`,
-- server/agent/parallel_tools.go `planToolCalls`, server/tools/admission.go).
use open_data_analysis.Common.{
  ℕ, ◌≤◌, String, Bool, true, false, ◌||◌, ◌==◌, Option, none, some, List, [], ◌∷◌, ◌≡◌, refl, sym,
  subst, All, arith, Bool-cases, Option-cases, inl, inr, trim_space,
}
use open_data_analysis.Tools.Admission.{
  ApprovalRequest, ApprovalGate, AdmissionKind, allow, ask, deny, decide_request, decide_tool_call,
}
use open_data_analysis.Agent.History.{ToolCall}
use open_data_analysis.Agent.Approvals.{Approvals}
use open_data_analysis.Agent.Approvals.Answers.{Decoders}
use open_data_analysis.Agent.Approvals.Receipts.{Event}
use open_data_analysis.Agent.Approvals.Traces.{
  Session, elsewhere, verifies, IsAuthorized, approval_store, admitted_when_approved,
}
use open_data_analysis.Agent.Loop.{
  Tool, PlannedToolCall, Admission, is_allowed, planned, check_call, admit_call, plan_call,
  plan_tool_calls,
}
use open_data_analysis.Agent.Loop.Failures.{Streak, repeated_failure_block}
use open_data_analysis.Agent.Loop.Batch.{Runtime, BatchState, run_batch}
use open_data_analysis.Agent.Loop.Admitted.{IsSafeAction, IsSafePlan, safe-run_batch}

module _ (d : Decoders) (registry : String → Option Tool) (is_object : String → Bool)
    (threshold now : ℕ) (streaks : List Streak) where
  -- The authorization that a gate asks for is given.
  abbrev pub IsGranted : List Event → (args : String) → Option ApprovalGate → Type 0
  IsGranted es args none = Unit
  IsGranted es args (some g) =
      (q : ApprovalRequest) × (actor : String) × (g.approval_request args ≡ some q)
      × IsAuthorized d es now (trim_space (g.approval_receipt_id args)) actor q

  -- The call may be executed: its tool is registered and not down, its arguments are an object, its
  -- failures are below the threshold, and the gate of the tool, if any, has its authorization.
  abbrev pub IsRunnable : List Event → ToolCall → Type 0
  IsRunnable es c =
      (t : Tool) × (registry c.name ≡ some t)
      × (t.available ≡ true)
      × (is_object c.arguments ≡ true)
      × (repeated_failure_block threshold c.name streaks ≡ none)
      × IsGranted es c.arguments t.gate

  module _ (es : List Event) where
    decided-Session :
        (t : ℕ) (gate : Option ApprovalGate) (args : String) (a b : Approvals)
        → Session d es t a
        → t ≤ now
        → (decide_tool_call (approval_store d now) gate args (some a)).0 ≡ some b
        → Session d es now b
    unfolding decide_tool_call decide_request
    decided-Session t none args a b s le e = elsewhere es t now a b s le (ground (arith, e))
    decided-Session t (some g) args a b s le e = elim (Option-cases (g.approval_request args)) [
      | inl n ↦ elsewhere es t now a b s le (ground (arith, e, n))
      | inr (q, n) ↦
          let id = trim_space (g.approval_receipt_id args) in
          elim (Bool-cases (trim_space q.action == "" || trim_space q.resource_ref == "")) [
            | inl k ↦ elsewhere es t now a b s le (ground (arith, e, n, k))
            | inr k ↦ elim (Bool-cases (id == "")) [
              | inl j ↦ elsewhere es t now a b s le (ground (arith, e, n, k, j))
              | inr j ↦
                  let eq : (approval_store d now id q a).0 ≡ b = ground (arith, e, n, k, j) in
                  subst (λ x. Session d es now x) eq (verifies es t now id q a s le)
            ]
          ]
    ]

    decided-Some :
        (gate : Option ApprovalGate) (args : String) (a : Approvals)
        → (b : Approvals) × ((decide_tool_call (approval_store d now) gate args (some a)).0
            ≡ some b)
    unfolding decide_tool_call decide_request
    decided-Some none args a = (a, refl)
    decided-Some (some g) args a = elim (Option-cases (g.approval_request args)) [
      | inl n ↦ (a, ground (arith, n))
      | inr (q, n) ↦
          let id = trim_space (g.approval_receipt_id args) in
          elim (Bool-cases (trim_space q.action == "" || trim_space q.resource_ref == "")) [
            | inl k ↦ (a, ground (arith, n, k))
            | inr k ↦ elim (Bool-cases (id == "")) [
              | inl j ↦ (a, ground (arith, n, k, j))
              | inr j ↦ ((approval_store d now id q a).0, ground (arith, n, k, j))
            ]
          ]
    ]

    granted :
        (t : ℕ) (gate : Option ApprovalGate) (args : String) (a : Approvals)
        → Session d es t a
        → t ≤ now
        → (decide_tool_call (approval_store d now) gate args (some a)).1 ≡ allow
        → IsGranted es args gate
    granted t none args a s le e = tt
    granted t (some g) args a s le e = admitted_when_approved d es t now g args a s le e

    check_call-Allowed :
        (t : Tool) (c : ToolCall)
        → is_allowed
            (check_call registry (approval_store d now) is_object threshold streaks t c).kind
          ≡ true
        → (t.available ≡ true)
          × (is_object c.arguments ≡ true)
          × (repeated_failure_block threshold c.name streaks ≡ none)
    unfolding check_call
    check_call-Allowed t c e =
        elim (Option-cases (repeated_failure_block threshold c.name streaks)) [
          | inl n ↦ (ground (arith, e, n), ground (arith, e, n), n)
          | inr (x, n) ↦ absurd (ground (arith, e, n))
        ]

    allowed-eq : (k : AdmissionKind) → is_allowed k ≡ true → k ≡ allow
    allowed-eq allow e = refl
    allowed-eq ask e = absurd (ground (arith, e))
    allowed-eq deny e = absurd (ground (arith, e))

    -- The admission of a call of a tool, as `admit_call` gives it.
    abbrev admission_of : Tool → ToolCall → Approvals → Admission
    admission_of x c a =
        (admit_call registry (approval_store d now) is_object threshold streaks x c a).1

    admitted-IsRunnable :
        (t : ℕ) (x : Tool) (c : ToolCall) (a : Approvals)
        → Session d es t a
        → t ≤ now
        → registry c.name ≡ some x
        → is_allowed (admission_of x c a).kind ≡ true
        → IsRunnable es c
    unfolding admit_call
    admitted-IsRunnable t x c a s le n e =
        let kind = (decide_tool_call (approval_store d now) x.gate c.arguments (some a)).1 in
        let k : is_allowed kind ≡ true = ground (arith, e) in
        let (av, ob, fa) = check_call-Allowed x c (ground (arith, e, k)) in
        (x, n, av, ob, fa, granted t x.gate c.arguments a s le (allowed-eq kind k))

    planned-IsSafePlan :
        (t : ℕ) (x : Tool) (c : ToolCall) (a : Approvals)
        → Session d es t a
        → t ≤ now
        → registry c.name ≡ some x
        → IsSafePlan
            (IsRunnable es)
            (planned registry (approval_store d now) is_object threshold x c (admission_of x c a))
    planned-IsSafePlan t x c a s le n =
        let run = admitted-IsRunnable t x c a s le n in
        (λ e. run (ground (arith, e)), λ y f z k. run k)

    plan_call-Sound :
        (t : ℕ) (c : ToolCall) (a : Approvals)
        → Session d es t a
        → t ≤ now
        → Session d es now
            (plan_call registry (approval_store d now) is_object threshold streaks c a).0
          × IsSafePlan
              (IsRunnable es)
              (plan_call registry (approval_store d now) is_object threshold streaks c a).1
    unfolding plan_call admit_call
    plan_call-Sound t c a s le = elim (Option-cases (registry c.name)) [
      | inl n ↦
          let unknown : PlannedToolCall = record {
            call = c;
            tool = none;
            admission = record { kind = deny; code = "unknown_tool" };
            safe = false;
          } in
          let eq : (a, unknown)
              ≡ plan_call registry (approval_store d now) is_object threshold streaks c a =
            ground (arith, n) in
          subst (λ z. Session d es now z.0 × IsSafePlan (IsRunnable es) z.1) eq
            (
              elsewhere es t now a a s le refl,
              (λ e. absurd (ground (arith, e)), λ x e z k. absurd (ground (arith, k))),
            )
      | inr (x, n) ↦
          let (b, after) = decided-Some x.gate c.arguments a in
          let eq : (
            b,
            planned registry (approval_store d now) is_object threshold x c (admission_of x c a),
          )
              ≡ plan_call registry (approval_store d now) is_object threshold streaks c a =
            ground (arith, n, after) in
          subst (λ z. Session d es now z.0 × IsSafePlan (IsRunnable es) z.1) eq
            (decided-Session t x.gate c.arguments a b s le after, planned-IsSafePlan t x c a s le n)
    ]

    plan_tool_calls-Sound :
        (t : ℕ) (cs : List ToolCall) (a : Approvals)
        → Session d es t a
        → t ≤ now
        → Session d es now
            (plan_tool_calls registry (approval_store d now) is_object threshold streaks cs a).0
          × All
              (IsSafePlan (IsRunnable es))
              (plan_tool_calls registry (approval_store d now) is_object threshold streaks cs a).1
    unfolding plan_tool_calls
    plan_tool_calls-Sound t [] a s le = (elsewhere es t now a a s le refl, tt)
    plan_tool_calls-Sound t (c ∷ cs) a s le =
        let (next, safe) = plan_call-Sound t c a s le in
        let (last, rest) =
          plan_tool_calls-Sound now cs
            (plan_call registry (approval_store d now) is_object threshold streaks c a).0 next
            (omega arith) in
        (last, (safe, rest))

    -- Let a batch of calls be planned in a session, and run. Then each call that is executed, in its
    -- turn or ahead of it, is a call of a registered tool that is not down, with an object as its
    -- arguments and failures below the threshold, and if the tool has a gate, the arguments need an
    -- authorization and some actor approved exactly that request, at most 30 minutes before, with
    -- the receipt that the arguments carry, with which no commit succeeded. The plan leaves a state
    -- of the same session.
    pub executed_when_granted :
        (rt : Runtime) (t : ℕ) (calls : List ToolCall) (a : Approvals) (s : BatchState)
        → Session d es t a
        → t ≤ now
        → s.actions ≡ []
        → Session d es now
            (plan_tool_calls registry (approval_store d now) is_object threshold streaks calls a).0
          × All
              (IsSafeAction (IsRunnable es))
              (run_batch rt
                (plan_tool_calls registry
                  (approval_store d now)
                  is_object
                  threshold
                  streaks
                  calls
                  a).1
                s).0.actions
    executed_when_granted rt t calls a s session le e =
        let (next, plan) = plan_tool_calls-Sound t calls a session le in
        (
          next,
          safe-run_batch rt (IsRunnable es)
              (plan_tool_calls registry (approval_store d now) is_object threshold streaks calls
                a).1
              s plan (subst (All (IsSafeAction (IsRunnable es))) (sym e) tt),
        )
