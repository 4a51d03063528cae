-- ===== src/Session/Runs.antt =====
-- The active run of a session (server/session/types.go): start, suspension, resumption,
-- cancellation and end. The clock, the fresh run id and the cancel functions are arguments; a
-- cancel function is a number, and `cancelled` lists the calls that were made, the newest first.
pub mod Traces
pub mod Races
use open_data_analysis.Common.{
  ℕ, String, Bool, true, false, not, ◌&&◌, ◌||◌, ◌==◌, Option, none, some, List, [], ◌∷◌,
  if◌then◌else◌, is_exact, Result, ok, err,
}
use open_data_analysis.Tools.Report.Scope.{ReportEditState, reset}

pub record RunState : Type 0 where
  pub run_id : String
  pub status : String
  pub cancel : Option ℕ
  pub started_at : ℕ

-- The fields of `Session` that the operations on runs read or write.
pub record Session : Type 0 where
  pub active_run : Option RunState
  pub edit_state : Option ReportEditState
  pub last_seen_at : ℕ
  pub detached : Bool
  pub cancelled : List ℕ

pub data StartError : Type 0 where
  session_detached run_active : StartError

abbrev pub running : String
running = "running"

abbrev pub waiting : String
waiting = "waiting_user_input"

abbrev pub cancelling : String
cancelling = "cancelling"

-- `StartRun`, with the run id and the cancel function that it creates.
unfoldable pub start_run : String → ℕ → ℕ → Session → Result StartError Session
start_run run_id cancel now s = if s.detached then err session_detached else elim s.active_run [
  | some r ↦ err run_active
  | none ↦ ok (record s {
    active_run =
        some (record { run_id = run_id; status = running; cancel = some cancel; started_at = now });
    last_seen_at = now;
  })
]

abbrev pub reset_edit : Option ReportEditState → Option ReportEditState
reset_edit none = none
reset_edit (some e) = some reset

-- `FinishRun`. The status is written to the run that is dropped.
unfoldable pub finish_run : String → String → ℕ → Session → Session × Bool
finish_run run_id status now s = elim s.active_run [
  | none ↦ (s, false)
  | some r ↦
      if r.run_id == run_id
      then (
        record s { active_run = none; edit_state = reset_edit s.edit_state; last_seen_at = now },
        true,
      )
      else (s, false)
]

abbrev with_status : String → RunState → ℕ → Session → Session
with_status status r now s = record s {
  active_run = some (record r { status = status });
  last_seen_at = now;
}

-- `SuspendRun`.
unfoldable pub suspend_run : String → ℕ → Session → Session × Bool
suspend_run run_id now s = elim s.active_run [
  | none ↦ (s, false)
  | some r ↦ if r.run_id == run_id then (with_status waiting r now s, true) else (s, false)
]

-- `ResumeRun`.
unfoldable pub resume_run : String → ℕ → Session → Session
resume_run run_id now s = elim s.active_run [
  | none ↦ record s { last_seen_at = now }
  | some r ↦
      if r.run_id == run_id then with_status running r now s else record s { last_seen_at = now }
]

-- `UpdateCancelFunc`.
unfoldable pub update_cancel_func : String → ℕ → Session → Session × Bool
update_cancel_func run_id cancel s = elim s.active_run [
  | none ↦ (s, false)
  | some r ↦
      if r.run_id == run_id
      then (record s { active_run = some (record r { cancel = some cancel }) }, true)
      else (s, false)
]

-- `GetWaitingRunID`.
unfoldable pub get_waiting_run_id : Session → Option String
get_waiting_run_id s = elim s.active_run [
  | none ↦ none
  | some r ↦ if r.status == waiting then some r.run_id else none
]

-- `ConsumeWaitingRunExact`; `ConsumeWaitingRun` passes "".
unfoldable pub consume_waiting_run_exact : String → ℕ → Session → Session × String
consume_waiting_run_exact expected now s = elim s.active_run [
  | none ↦ (s, "")
  | some r ↦
      if not (r.status == waiting)
      then (s, "")
      else if not (expected == "") && not (r.run_id == expected)
      then (s, "")
      else (with_status running r now s, r.run_id)
]

-- `ReturnRunToWaiting`.
unfoldable pub return_run_to_waiting : String → ℕ → Session → Session × Bool
return_run_to_waiting run_id now s = elim s.active_run [
  | none ↦ (s, false)
  | some r ↦
      if not (r.run_id == run_id) || not (r.status == running)
      then (s, false)
      else (with_status waiting r now s, true)
]

-- `RestoreWaitingRun`.
unfoldable pub restore_waiting_run : String → ℕ → Session → Session × Bool
restore_waiting_run run_id now s =
    if run_id == "" || not (is_exact run_id) then (s, false) else elim s.active_run [
      | some r ↦ (s, false)
      | none ↦ (
        record s {
          active_run =
              some (record { run_id = run_id; status = waiting; cancel = none; started_at = now });
          last_seen_at = now;
        },
        true,
      )
    ]

-- The call of a run's cancel function, when it has one.
abbrev call_cancel : RunState → ℕ → Session → Session
call_cancel r now s = elim r.cancel [
  | none ↦ record s { last_seen_at = now }
  | some c ↦ record s {
    active_run = some (record r { status = cancelling });
    last_seen_at = now;
    cancelled = c ∷ s.cancelled;
  }
]

-- `CancelRun`.
unfoldable pub cancel_run : String → ℕ → Session → Session × Bool
cancel_run run_id now s = elim s.active_run [
  | none ↦ (s, false)
  | some r ↦
      if not (run_id == "") && not (r.run_id == run_id)
      then (s, false)
      else (call_cancel r now s, true)
]
