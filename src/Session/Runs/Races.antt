-- ===== src/Session/Runs/Races.antt =====
-- What the handlers' calls give when others come between them.
use open_data_analysis.Common.{
  ℕ, String, Bool, true, false, ◌==◌, none, some, List, [], ◌∷◌, ◌≡◌, ◌≢◌, inl, inr, refl, is_exact,
  ok, arith, eq_iff, eq_refl, Option-cases, Bool-cases, eq_test, ne_test,
}
use open_data_analysis.Session.Runs.{
  RunState, Session, reset_edit, running, waiting, cancelling, start_run, finish_run, suspend_run,
  resume_run, update_cancel_func, consume_waiting_run_exact, return_run_to_waiting,
  restore_waiting_run, cancel_run,
}
use open_data_analysis.Session.Runs.Traces.{Event, step, steps, IsActive, No}

consume_waiting :
    (s : Session) (r : RunState) (now : ℕ)
    → s.active_run ≡ some r
    → r.status ≡ waiting
    → consume_waiting_run_exact r.run_id now s ≡ (
      record s { active_run = some (record r { status = running }); last_seen_at = now },
      r.run_id,
    )
unfolding consume_waiting_run_exact
consume_waiting s r now a w =
    let wait : (r.status == waiting) ≡ true = eq_test _ _ w in
    elim (Bool-cases (r.run_id == "")) [
      | inl e ↦ rw (a, wait, e) refl
      | inr e ↦ rw (a, wait, e, eq_refl r.run_id) refl
    ]

cancel_active :
    (s : Session) (r : RunState) (old now : ℕ)
    → s.active_run ≡ some r
    → r.cancel ≡ some old
    → cancel_run r.run_id now s ≡ (
      record s {
        active_run = some (record r { status = cancelling });
        last_seen_at = now;
        cancelled = old ∷ s.cancelled;
      },
      true,
    )
unfolding cancel_run
cancel_active s r old now a c = elim (Bool-cases (r.run_id == "")) [
  | inl e ↦ rw (a, e, c) refl
  | inr e ↦ rw (a, e, eq_refl r.run_id, c) refl
]

update_active :
    (s : Session) (r : RunState) (new : ℕ)
    → s.active_run ≡ some r
    → update_cancel_func r.run_id new s
      ≡ (record s { active_run = some (record r { cancel = some new }) }, true)
unfolding update_cancel_func
update_active s r new a = rw (a, eq_refl r.run_id) refl

-- A waiting run is answered and cancelled: when the cancellation comes after ConsumeWaitingRun and
-- before UpdateCancelFunc, the run is left with the status "cancelling" and the new cancel
-- function, and only the old one was called.
pub lost_cancel :
    (s : Session) (r : RunState) (old new now later : ℕ)
    → s.active_run ≡ some r
    → r.status ≡ waiting
    → r.cancel ≡ some old
    → (update_cancel_func r.run_id new
        (cancel_run r.run_id later (consume_waiting_run_exact r.run_id now s).0).0).0
      ≡ record s {
        active_run = some (record r { status = cancelling; cancel = some new });
        last_seen_at = later;
        cancelled = old ∷ s.cancelled;
      }
lost_cancel s r old new now later a w c =
    rw
      (
        consume_waiting s r now a w,
        cancel_active
            (record s { active_run = some (record r { status = running }); last_seen_at = now })
            (record r { status = running }) old later refl c,
      )
      (rw
        (update_active
          (record s {
            active_run = some (record r { status = cancelling });
            last_seen_at = later;
            cancelled = old ∷ s.cancelled;
          })
          (record r { status = cancelling }) new refl)
        refl)

abbrev reopens : Event → Bool
reopens Event.attach = true
reopens (Event.restore r now) = true
reopens e = false

step_idle :
    (e : Event) (s : Session)
    → reopens e ≡ false
    → s.detached ≡ true
    → s.active_run ≡ none
    → ((step e s).detached ≡ true) × ((step e s).active_run ≡ none)
unfolding step start_run finish_run suspend_run resume_run update_cancel_func
    consume_waiting_run_exact return_run_to_waiting restore_waiting_run cancel_run
step_idle (Event.start r c now) s h d a = ground arith
step_idle (Event.finish r st now) s h d a = ground arith
step_idle (Event.suspend r now) s h d a = ground arith
step_idle (Event.resume r now) s h d a = ground arith
step_idle (Event.return_to_waiting r now) s h d a = ground arith
step_idle (Event.restore r now) s h d a = absurd (ground arith)
step_idle (Event.cancel r now) s h d a = ground arith
step_idle (Event.update_cancel r c) s h d a = ground arith
step_idle (Event.consume r now) s h d a = ground arith
step_idle Event.detach s h d a = (refl, a)
step_idle Event.attach s h d a = absurd (ground arith)

-- A session that was removed while it had no run gets none by any sequence of calls, as long as
-- the manager does not put it back and no waiting run is restored into it.
pub detached_stays_idle :
    (es : List Event) (s : Session)
    → s.detached ≡ true
    → s.active_run ≡ none
    → No reopens es
    → (steps es s).active_run ≡ none
unfolding steps
detached_stays_idle [] s d a h = a
detached_stays_idle (e ∷ es) s d a (h, hs) =
    let (d', a') = step_idle e s h d a in detached_stays_idle es (step e s) d' a' hs

restore_idle :
    (s : Session) (id : String) (now : ℕ)
    → s.active_run ≡ none
    → id ≢ ""
    → is_exact id ≡ true
    → restore_waiting_run id now s ≡ (
      record s {
        active_run =
            some (record { run_id = id; status = waiting; cancel = none; started_at = now });
        last_seen_at = now;
      },
      true,
    )
unfolding restore_waiting_run
restore_idle s id now a n x = rw (ne_test id "" n, x, a) refl

-- RestoreWaitingRun does not look at the mark of a removed session: with an exact run id it and
-- ConsumeWaitingRun give a removed session without a run a running one.
pub restored_while_detached :
    (s : Session) (id : String) (now later : ℕ)
    → s.detached ≡ true
    → s.active_run ≡ none
    → id ≢ ""
    → is_exact id ≡ true
    → ((consume_waiting_run_exact id later (restore_waiting_run id now s).0).0.active_run
        ≡ some (record { run_id = id; status = running; cancel = none; started_at = now }))
      × ((consume_waiting_run_exact id later (restore_waiting_run id now s).0).0.detached ≡ true)
restored_while_detached s id now later d a n x =
    rw
      (
        restore_idle s id now a n x,
        consume_waiting
            (record s {
              active_run =
                  some (record { run_id = id; status = waiting; cancel = none; started_at = now });
              last_seen_at = now;
            })
            (record { run_id = id; status = waiting; cancel = none; started_at = now }) later refl
            refl,
      )
      (refl, d)

-- When the active run is finished, the edit scope is reset, a second FinishRun of it changes
-- nothing, and the next run of a session that is not removed starts.
pub finish_frees :
    (s : Session) (id status other : String) (c now later : ℕ)
    → IsActive id s
    → s.detached ≡ false
    → ((finish_run id status now s).1 ≡ true)
      × ((finish_run id status now s).0.active_run ≡ none)
      × ((finish_run id status now s).0.edit_state ≡ reset_edit s.edit_state)
      × (finish_run id status later (finish_run id status now s).0
          ≡ ((finish_run id status now s).0, false))
      × ((t : Session) × (start_run other c later (finish_run id status now s).0 ≡ ok t)
          × IsActive other t)
unfolding finish_run start_run
finish_frees s id status other c now later a d = elim (Option-cases s.active_run) [
  | inl e ↦ absurd (ground arith)
  | inr (x, e) ↦
      let n : (x.run_id == id) ≡ true = ground (arith, eq_iff x.run_id id) in
      rw (e, n, d) (refl, refl, refl, refl, (_, refl, refl))
]
