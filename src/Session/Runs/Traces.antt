-- ===== src/Session/Runs/Traces.antt =====
-- Sequences of the operations on the active run, in any order in which the mutex of the session
-- lets the handlers, the agent and the clean-up in.
use open_data_analysis.Common.{
  ℕ, String, Bool, true, false, ◌==◌, Option, none, some, List, [], ◌∷◌, ◌≡◌, ◌≢◌, ◌⊎◌, inl, inr,
  refl, sym, subst, Result, ok, err, arith, eq_iff, All, Option-cases, Bool-cases,
}
use open_data_analysis.Session.Runs.{
  RunState, Session, waiting, start_run, finish_run, suspend_run, resume_run, StartError,
  session_detached, run_active, update_cancel_func, consume_waiting_run_exact,
  return_run_to_waiting, restore_waiting_run, cancel_run,
}

-- One call, with the time of the clock; `detach` and `attach` are the writes of the session
-- manager (server/session/manager.go, cleanup.go) to the mark of a removed session.
pub data Event : Type 0 where
  start : (run_id : String) (cancel now : ℕ) → Event
  finish : (run_id status : String) (now : ℕ) → Event
  suspend resume return_to_waiting restore cancel : (run_id : String) (now : ℕ) → Event
  update_cancel : (run_id : String) (cancel : ℕ) → Event
  consume : (expected : String) (now : ℕ) → Event
  detach attach : Event

abbrev or_same : Session → Result StartError Session → Session
or_same s (ok t) = t
or_same s (err e) = s

unfoldable pub step : Event → Session → Session
step (start r c now) s = or_same s (start_run r c now s)
step (finish r st now) s = (finish_run r st now s).0
step (suspend r now) s = (suspend_run r now s).0
step (resume r now) s = resume_run r now s
step (return_to_waiting r now) s = (return_run_to_waiting r now s).0
step (restore r now) s = (restore_waiting_run r now s).0
step (cancel r now) s = (cancel_run r now s).0
step (update_cancel r c) s = (update_cancel_func r c s).0
step (consume r now) s = (consume_waiting_run_exact r now s).0
step detach s = record s { detached = true }
step attach s = record s { detached = false }

unfoldable pub steps : List Event → Session → Session
steps [] s = s
steps (e ∷ es) s = steps es (step e s)

abbrev id_of : Option RunState → Option String
id_of none = none
id_of (some r) = some r.run_id

-- The run with this id is the active one.
abbrev pub IsActive : String → Session → Type 0
IsActive id s = id_of s.active_run ≡ some id

abbrev pub finishes : String → Event → Bool
finishes id (finish r st now) = r == id
finishes id _ = false

abbrev pub No : (Event → Bool) → List Event → Type 0
No p es = All (λ e. p e ≡ false) es

finish_other :
    (r st : String) (now : ℕ) (s : Session) (x : RunState)
    → s.active_run ≡ some x
    → (x.run_id == r) ≡ false
    → finish_run r st now s ≡ (s, false)
unfolding finish_run
finish_other r st now s x a n = rw (a, n) refl

step-IsActive :
    (id : String) (e : Event) (s : Session)
    → finishes id e ≡ false
    → IsActive id s
    → IsActive id (step e s)
unfolding step start_run suspend_run resume_run update_cancel_func consume_waiting_run_exact
    return_run_to_waiting restore_waiting_run cancel_run
step-IsActive id (start r c now) s h a = ground (arith, eq_iff r id)
step-IsActive id (finish r st now) s h a = elim (Option-cases s.active_run) [
  | inl e ↦ absurd (ground arith)
  | inr (x, e) ↦
      let n : (x.run_id == r) ≡ false = ground (arith, eq_iff r id, eq_iff x.run_id r) in
      subst (λ z. id_of z.0.active_run ≡ some id) (sym (finish_other r st now s x e n)) a
]
step-IsActive id (suspend r now) s h a = ground (arith, eq_iff r id)
step-IsActive id (resume r now) s h a = ground (arith, eq_iff r id)
step-IsActive id (return_to_waiting r now) s h a = ground (arith, eq_iff r id)
step-IsActive id (restore r now) s h a = ground (arith, eq_iff r id)
step-IsActive id (cancel r now) s h a = ground (arith, eq_iff r id)
step-IsActive id (update_cancel r c) s h a = ground (arith, eq_iff r id)
step-IsActive id (consume r now) s h a = ground (arith, eq_iff r id)
step-IsActive id detach s h a = a
step-IsActive id attach s h a = a

-- While a run is active and nothing finishes it, it stays the active run, whatever else is called,
-- and no other run starts.
pub one_run_at_a_time :
    (id : String) (es : List Event) (s : Session) (other : String) (c now : ℕ)
    → IsActive id s
    → No (finishes id) es
    → IsActive id (steps es s)
      × ((start_run other c now (steps es s) ≡ err session_detached)
          ⊎ (start_run other c now (steps es s) ≡ err run_active))
unfolding steps start_run
one_run_at_a_time id [] s other c now a h = (a, ground arith)
one_run_at_a_time id (e ∷ es) s other c now a (h, hs) =
    one_run_at_a_time id es (step e s) other c now (step-IsActive id e s h a) hs

abbrev is_waiting : Option RunState → Bool
is_waiting none = false
is_waiting (some r) = r.status == waiting

-- The run with this id is the active one and does not wait for an answer.
abbrev IsBusy : String → Session → Type 0
IsBusy id s = IsActive id s × (is_waiting s.active_run ≡ false)

abbrev pub makes_wait : String → Event → Bool
makes_wait id (suspend r now) = r == id
makes_wait id (return_to_waiting r now) = r == id
makes_wait id e = finishes id e

active_other :
    (id r : String) (s : Session)
    → (r == id) ≡ false
    → IsActive id s
    → (x : RunState) × (s.active_run ≡ some x) × ((x.run_id == r) ≡ false)
active_other id r s h a = elim (Option-cases s.active_run) [
  | inl e ↦ absurd (ground arith)
  | inr (x, e) ↦ (x, e, ground (arith, eq_iff r id, eq_iff x.run_id r))
]

suspend_other :
    (id r : String) (now : ℕ) (s : Session)
    → (r == id) ≡ false
    → IsActive id s
    → suspend_run r now s ≡ (s, false)
unfolding suspend_run
suspend_other id r now s h a = let (x, e, n) = active_other id r s h a in rw (e, n) refl

return_other :
    (id r : String) (now : ℕ) (s : Session)
    → (r == id) ≡ false
    → IsActive id s
    → return_run_to_waiting r now s ≡ (s, false)
unfolding return_run_to_waiting
return_other id r now s h a = let (x, e, n) = active_other id r s h a in rw (e, n) refl

step_not_waiting :
    (id : String) (e : Event) (s : Session)
    → makes_wait id e ≡ false
    → IsActive id s
    → is_waiting s.active_run ≡ false
    → is_waiting (step e s).active_run ≡ false
unfolding step start_run finish_run resume_run update_cancel_func consume_waiting_run_exact
    restore_waiting_run cancel_run
step_not_waiting id (suspend r now) s h i a =
    subst (λ z. is_waiting z.0.active_run ≡ false) (sym (suspend_other id r now s h i)) a
step_not_waiting id (return_to_waiting r now) s h i a =
    subst (λ z. is_waiting z.0.active_run ≡ false) (sym (return_other id r now s h i)) a
step_not_waiting id detach s h i a = a
step_not_waiting id attach s h i a = a
step_not_waiting id (start r c now) s h i a = ground arith
step_not_waiting id (finish r st now) s h i a = ground arith
step_not_waiting id (resume r now) s h i a = elim (Option-cases s.active_run) [
  | inl e ↦ rw e refl
  | inr (x, e) ↦ elim (Bool-cases (x.run_id == r)) [
    | inl b ↦ rw (e, b) refl
    | inr b ↦ rw (e, b) (subst (λ o. is_waiting o ≡ false) e a)
  ]
]
step_not_waiting id (restore r now) s h i a = ground arith
step_not_waiting id (cancel r now) s h i a = ground arith
step_not_waiting id (update_cancel r c) s h i a = ground arith
step_not_waiting id (consume r now) s h i a = ground arith

not_finishes : (id : String) (e : Event) → makes_wait id e ≡ false → finishes id e ≡ false
not_finishes id (suspend r now) h = refl
not_finishes id (return_to_waiting r now) h = refl
not_finishes id (start r c now) h = refl
not_finishes id (finish r st now) h = h
not_finishes id (resume r now) h = refl
not_finishes id (restore r now) h = refl
not_finishes id (cancel r now) h = refl
not_finishes id (update_cancel r c) h = refl
not_finishes id (consume r now) h = refl
not_finishes id detach h = refl
not_finishes id attach h = refl

steps-IsBusy :
    (id : String) (es : List Event) (s : Session)
    → No (makes_wait id) es
    → IsBusy id s
    → IsBusy id (steps es s)
unfolding steps
steps-IsBusy id [] s h a = a
steps-IsBusy id (e ∷ es) s (h, hs) (i, w) =
    steps-IsBusy id es (step e s) hs
      (step-IsActive id e s (not_finishes id e h) i, step_not_waiting id e s h i w)

consumed-IsBusy :
    (expected : String) (now : ℕ) (s : Session)
    → (consume_waiting_run_exact expected now s).1 ≢ ""
    → IsBusy
        (consume_waiting_run_exact expected now s).1
        (consume_waiting_run_exact expected now s).0
unfolding consume_waiting_run_exact
consumed-IsBusy expected now s h = elim (Option-cases s.active_run) [
  | inl e ↦ (ground arith, ground arith)
  | inr (x, e) ↦ (ground arith, ground arith)
]

consume_busy :
    (other : String) (now : ℕ) (id : String) (s : Session)
    → IsBusy id s
    → (consume_waiting_run_exact other now s).1 ≡ ""
unfolding consume_waiting_run_exact
consume_busy other now id s (i, a) = ground arith

-- An answer is handed to a waiting run once: after a call of ConsumeWaitingRun that returned an
-- id, every later call returns "", with whatever expected id, until that run is suspended,
-- returned to waiting or finished.
pub consume_once :
    (expected other : String) (now later : ℕ) (es : List Event) (s : Session)
    → (consume_waiting_run_exact expected now s).1 ≢ ""
    → No (makes_wait (consume_waiting_run_exact expected now s).1) es
    → (consume_waiting_run_exact other later
        (steps es (consume_waiting_run_exact expected now s).0)).1
      ≡ ""
consume_once expected other now later es s h hs = consume_busy other later _ _ (
    steps-IsBusy _ es (consume_waiting_run_exact expected now s).0 hs
      (consumed-IsBusy expected now s h))
