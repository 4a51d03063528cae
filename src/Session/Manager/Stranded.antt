-- ===== src/Session/Manager/Stranded.antt =====
-- A session that is stopped while its run waits for the user (server/session/manager.go `Stop`,
-- types.go `CancelRun`).
use open_data_analysis.Common.{
  ℕ, String, true, false, none, some, ◌≡◌, ap, ◌∙◌, lookup, lookup-insert, err, arith, eq_iff,
}
use open_data_analysis.Session.Runs.{
  Session, RunState, run_active, cancelling, start_run, consume_waiting_run_exact, cancel_run,
}
use open_data_analysis.Session.Manager.{LiveSession, Manager, still_running, owns, hold, stop}

-- The run of a session after it is cancelled.
abbrev cancelled_run : RunState → RunState
cancelled_run r = elim r.cancel [ none ↦ r | some c ↦ record r { status = cancelling } ]

active-cancel_run :
    (now : ℕ) (s : Session) (r : RunState)
    → s.active_run ≡ some r
    → (cancel_run "" now s).0.active_run ≡ some (cancelled_run r)
unfolding cancel_run
active-cancel_run now s r a = ground (arith, a, eq_iff "" "")

stop-active :
    (now : ℕ) (id workspace user : String) (m : Manager) (s : LiveSession) (r : RunState)
    → lookup id m.sessions ≡ some s
    → owns workspace user s ≡ true
    → s.session.active_run ≡ some r
    → stop now (λ x. x) id workspace user m
      ≡ (hold id (record s { session = (cancel_run "" now s.session).0 }) m, err still_running)
unfolding stop
stop-active now id workspace user m s r l o a =
    ground (arith, l, o, active-cancel_run now s.session r a)

-- Let a session hold a run with a cancel function, and let no goroutine end the run, as when the run
-- waits for the user. If the owner stops the session, the stop fails, as if a task were running. The
-- run is "cancelling" then, no answer of the user is taken, no run can start, and to stop the session
-- again fails as well.
pub stop_strands_waiting :
    (now at : ℕ) (id workspace user expected run_id : String) (cancel new_cancel : ℕ) (m : Manager)
    (s : LiveSession) (r : RunState)
    → lookup id m.sessions ≡ some s
    → owns workspace user s ≡ true
    → s.session.detached ≡ false
    → s.session.active_run ≡ some r
    → r.cancel ≡ some cancel
    → let after = stop now (λ x. x) id workspace user m in
      let left = (cancel_run "" now s.session).0 in
      (after.1 ≡ err still_running)
      × (lookup id after.0.sessions ≡ some (record s { session = left }))
      × (left.active_run ≡ some (record r { status = cancelling }))
      × (consume_waiting_run_exact expected at left ≡ (left, ""))
      × (start_run run_id new_cancel at left ≡ err run_active)
      × ((stop at (λ x. x) id workspace user after.0).1 ≡ err still_running)
unfolding consume_waiting_run_exact start_run cancel_run
stop_strands_waiting now at id workspace user expected run_id cancel new_cancel m s r l o d a c =
    let left : Session = (cancel_run "" now s.session).0 in
    let kept : LiveSession = record s { session = left } in
    let stopped = stop-active now id workspace user m s r l o a in
    let held : lookup id (hold id kept m).sessions ≡ some kept =
      ground (arith, lookup-insert id id kept m.sessions, eq_iff id id) in
    let there : lookup id (stop now (λ x. x) id workspace user m).0.sessions ≡ some kept =
      ap (λ x. lookup id x.0.sessions) stopped ∙ held in
    let run : left.active_run ≡ some (record r { status = cancelling }) =
      ground (arith, a, c, eq_iff "" "") in
    (
      ap (λ x. x.1) stopped,
      there,
      run,
      ground (arith, run),
      ground (arith, run, a, c, d),
      ap (λ x. x.1)
          (stop-active at id workspace user (stop now (λ x. x) id workspace user m).0 kept
            (record r { status = cancelling }) there o run),
    )
