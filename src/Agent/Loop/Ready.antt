-- ===== src/Agent/Loop/Ready.antt =====
-- The calls that are started ahead of their turn (server/agent/parallel_tools.go `startParallelRun`)
-- have the results that they would have in their turn.
use open_data_analysis.Common.{
  String, Bool, true, false, ◌==◌, none, some, List, [], ◌∷◌, append-nil, ◌≡◌, ◌⊎◌, refl, sym, ap,
  ◌∙◌, subst, lookup, lookup-insert, is_some, All, All-map, All-both, arith, eq_iff, Bool-cases,
  Option-cases, inl, inr, Result,
}
use open_data_analysis.Agent.History.{ToolCall}
use open_data_analysis.Agent.Loop.{Tool, PlannedToolCall, is_allowed}
use open_data_analysis.Agent.Loop.Batch.{
  Runtime, BatchState, started, awaited, ran, act, emit, tool_called, checked, block_tool_call,
  launch, start_parallel_run, run_planned_tool_call, suspend_call, deliver, take_result,
  take_outcome, execute_call, run_call,
}
use open_data_analysis.Agent.Loop.Steps.{ahead}
use open_data_analysis.Agent.Loop.Sequential.{
  view, IsDistinct, effects, effects-snoc, IsIndependent,
}

module _ (rt : Runtime) where
  futures-take_outcome :
      (t : Tool) (c : ToolCall) (o : Result String String) (s : BatchState)
      → (take_outcome rt t c o s).0.futures ≡ s.futures
  unfolding take_outcome take_result deliver
  futures-take_outcome t c o s = ground arith

  futures-execute_call :
      (t : Tool) (c : ToolCall) (s : BatchState) → (execute_call rt t c s).0.futures ≡ s.futures
  unfolding execute_call run_planned_tool_call
  futures-execute_call t c s = elim (Option-cases (lookup c.id s.futures)) [
    | inl n ↦ ground (
      arith,
      n,
      futures-take_outcome t c (rt.execute s.actions c)
          (checked rt (act (ran c) (emit (tool_called c) s))),
    )
    | inr (r, n) ↦ ground (
      arith,
      n,
      futures-take_outcome t c r (checked rt (act (awaited c) (emit (tool_called c) s))),
    )
  ]

  pub futures-run_call :
      (p : PlannedToolCall) (ps : List PlannedToolCall) (s : BatchState)
      → ((run_call rt p (p ∷ ps) s).0.futures ≡ s.futures)
        ⊎ ((run_call rt p (p ∷ ps) s).0.futures ≡ (ahead rt p ps s).futures)
  unfolding run_call block_tool_call suspend_call
  futures-run_call p ps s = elim (Bool-cases (is_allowed p.admission.kind)) [
    | inr n ↦ inl (ground (arith, n))
    | inl a ↦ elim (Option-cases p.tool) [
      | inl n ↦ inl (ground (arith, a, n))
      | inr (t, n) ↦ elim (Bool-cases t.suspends) [
        | inl z ↦ inr (ground (arith, a, n, z))
        | inr z ↦ inr (ground (arith, a, n, z, futures-execute_call t p.call (ahead rt p ps s)))
      ]
    ]
  ]

  module _ (harmless : ToolCall → Bool) (independent : IsIndependent harmless rt) where
    -- The two states agree but for the record of executions, and the executions that matter agree.
    abbrev pub Agree : BatchState → BatchState → Type 0
    Agree s r = (view s ≡ view r) × (effects harmless s.actions ≡ effects harmless r.actions)

    -- A result that is ready for a call is that of a harmless call, and what the call gives now.
    abbrev pub IsRight : BatchState → ToolCall → Type 0
    IsRight s c =
        (r : Result String String)
        → lookup c.id s.futures ≡ some r
        → (harmless c ≡ true) × (rt.execute s.actions c ≡ r)

    abbrev pub IsIdle : BatchState → PlannedToolCall → Type 0
    IsIdle s p = lookup p.call.id s.futures ≡ none

    -- Results are ready at most for the calls before the first exclusive one, and they are right.
    abbrev pub IsReady : List PlannedToolCall → BatchState → Type 0
    IsReady [] s = Unit
    IsReady (p ∷ ps) s =
        IsRight s p.call × (p.safe ≡ true → IsReady ps s) × (p.safe ≡ false → All (IsIdle s) ps)

    pub idle-IsReady :
        (ps : List PlannedToolCall) (s : BatchState) → All (IsIdle s) ps → IsReady ps s
    idle-IsReady [] s a = tt
    idle-IsReady (p ∷ ps) s a =
        (λ r l. absurd (ground (arith, l, a.0)), λ e. idle-IsReady ps s a.1, λ e. a.1)

    -- The same results and the same executions that matter.
    abbrev pub IsSame : BatchState → BatchState → Type 0
    IsSame s z = (s.futures ≡ z.futures) × (effects harmless s.actions ≡ effects harmless z.actions)

    same-IsRight : (s z : BatchState) (c : ToolCall) → IsSame s z → IsRight s c → IsRight z c
    same-IsRight s z c (f, e) right r l =
        let (h, k) = right r (ap (lookup c.id) f ∙ l) in
        (h, independent z.actions s.actions c (sym e) ∙ k)

    pub same-IsIdle :
        (s z : BatchState) (ps : List PlannedToolCall)
        → s.futures ≡ z.futures
        → All (IsIdle s) ps
        → All (IsIdle z) ps
    same-IsIdle s z ps f =
        All-map (IsIdle s) (IsIdle z) ps (λ q a. ap (lookup q.call.id) (sym f) ∙ a)

    pub same-IsReady :
        (ps : List PlannedToolCall) (s z : BatchState) → IsSame s z → IsReady ps s → IsReady ps z
    same-IsReady [] s z q a = tt
    same-IsReady (p ∷ ps) s z q (right, some_safe, alone) = (
      same-IsRight s z p.call q right,
      λ e. same-IsReady ps s z q (some_safe e),
      λ e. same-IsIdle s z ps q.0 (alone e),
    )

    effects-launch :
        (c : ToolCall) (s : BatchState)
        → harmless c ≡ true
        → effects harmless (launch rt c s).actions ≡ effects harmless s.actions
    unfolding effects
    effects-launch c s h = elim (Bool-cases (is_some (lookup c.id s.futures))) [
      | inl k ↦ rw k refl
      | inr k ↦ rw k (
          effects-snoc harmless s.actions (started c)
          ∙ ground (arith, h, append-nil (effects harmless s.actions)))
    ]

    -- Launching a call keeps what is ready for another one, and makes its own result right.
    launch-other :
        (c x : ToolCall) (s : BatchState)
        → harmless c ≡ true
        → (x.id == c.id) ≡ false
        → lookup x.id s.futures ≡ lookup x.id (launch rt c s).futures
    launch-other c x s h d = elim (Bool-cases (is_some (lookup c.id s.futures))) [
      | inl k ↦ rw k refl
      | inr k ↦ rw k (
          ground (
            arith,
            d,
            eq_iff c.id x.id,
            eq_iff x.id c.id,
            lookup-insert c.id x.id (rt.execute s.actions c) s.futures,
          ))
    ]

    launch-IsRight :
        (c x : ToolCall) (s : BatchState)
        → harmless c ≡ true
        → (x.id == c.id) ≡ false
        → IsRight s x
        → IsRight (launch rt c s) x
    launch-IsRight c x s h d right r l =
        let (m, k) = right r (launch-other c x s h d ∙ l) in
        (m, independent (launch rt c s).actions s.actions x (effects-launch c s h) ∙ k)

    launch-own :
        (c : ToolCall) (s : BatchState)
        → harmless c ≡ true
        → IsRight s c
        → IsRight (launch rt c s) c
    launch-own c s h right r l = elim (Bool-cases (is_some (lookup c.id s.futures))) [
      | inl k ↦
          let (m, e) = right r (ground (arith, l, k)) in
          (m, independent (launch rt c s).actions s.actions c (effects-launch c s h) ∙ e)
      | inr k ↦ (
        h,
        independent (launch rt c s).actions s.actions c (effects-launch c s h)
            ∙ ground (
              arith,
              l,
              k,
              eq_iff c.id c.id,
              lookup-insert c.id c.id (rt.execute s.actions c) s.futures,
            ),
      )
    ]

    launch-IsReady :
        (c : ToolCall) (ps : List PlannedToolCall) (s : BatchState)
        → harmless c ≡ true
        → All (λ q. (q.call.id == c.id) ≡ false) ps
        → IsReady ps s
        → IsReady ps (launch rt c s)
    launch-IsReady c [] s h d a = tt
    launch-IsReady c (p ∷ ps) s h d (right, some_safe, alone) = (
      launch-IsRight c p.call s h d.0 right,
      λ e. launch-IsReady c ps s h d.1 (some_safe e),
      λ e.
          All-both (IsIdle s) (λ q. (q.call.id == c.id) ≡ false) (IsIdle (launch rt c s)) ps
            (λ q i n. sym (launch-other c q.call s h n) ∙ i) (alone e) d.1,
    )

    -- The calls that are planned as safe are harmless.
    abbrev pub IsHarmless : PlannedToolCall → Type 0
    IsHarmless p = p.safe ≡ true → harmless p.call ≡ true

    pub effects-start_parallel_run :
        (ps : List PlannedToolCall) (s : BatchState)
        → All IsHarmless ps
        → effects harmless (start_parallel_run rt ps s).actions ≡ effects harmless s.actions
    unfolding start_parallel_run
    effects-start_parallel_run [] s a = refl
    effects-start_parallel_run (p ∷ ps) s a = elim (Bool-cases p.safe) [
      | inr e ↦ rw (start_parallel_run, e) refl
      | inl e ↦
          rw (start_parallel_run, e)
            (effects-start_parallel_run ps (launch rt p.call s) a.1
              ∙ effects-launch p.call s (a.0 e))
    ]

    start-IsRight :
        (ps : List PlannedToolCall) (x : ToolCall) (s : BatchState)
        → All IsHarmless ps
        → All (λ q. (q.call.id == x.id) ≡ false) ps
        → IsRight s x
        → IsRight (start_parallel_run rt ps s) x
    unfolding start_parallel_run
    start-IsRight [] x s a d right = right
    start-IsRight (p ∷ ps) x s a d right = elim (Bool-cases p.safe) [
      | inr e ↦ rw (start_parallel_run, e) right
      | inl e ↦
          rw (start_parallel_run, e)
            (start-IsRight ps x (launch rt p.call s) a.1 d.1 (
              launch-IsRight p.call x s (a.0 e)
                (ground (arith, d.0, eq_iff p.call.id x.id, eq_iff x.id p.call.id)) right))
    ]

    pub start-IsReady :
        (ps : List PlannedToolCall) (s : BatchState)
        → All IsHarmless ps
        → IsDistinct ps
        → IsReady ps s
        → IsReady ps (start_parallel_run rt ps s)
    unfolding start_parallel_run
    start-IsReady [] s a d k = tt
    start-IsReady (p ∷ ps) s a d k = elim (Bool-cases p.safe) [
      | inr e ↦
          let eq : s ≡ start_parallel_run rt (p ∷ ps) s = ground (arith, e) in
          subst (IsReady (p ∷ ps)) eq k
      | inl e ↦
          let next = launch rt p.call s in
          let eq : start_parallel_run rt ps next ≡ start_parallel_run rt (p ∷ ps) s =
            ground (arith, e) in
          subst (IsReady (p ∷ ps)) eq (
            start-IsRight ps p.call next a.1 d.0 (launch-own p.call s (a.0 e) k.0),
            λ f. start-IsReady ps next a.1 d.1 (launch-IsReady p.call ps s (a.0 e) d.0 (k.1 e)),
            λ f. absurd (ground (arith, e, f)),
          )
    ]
