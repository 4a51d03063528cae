-- ===== src/Session/ManagerExamples.antt =====
-- A manager with one session, and its theorems at that input.
use open_data_analysis.Common.{
  false, none, some, [], ◌∷◌, ◌≡◌, ◌⊎◌, refl, err, lookup, insert, remove,
}
use open_data_analysis.Session.Runs.{
  RunState, run_active, waiting, cancelling, start_run, consume_waiting_run_exact, cancel_run,
}
use open_data_analysis.Session.Manager.{
  LiveSession, Manager, still_running, not_authorized, serve, get_stored, get, make_session,
  create_stored, get_or_create, peek, delete, stop,
}
use open_data_analysis.Session.Manager.Owners.{IsOwn, gets_or_creates, answer, owner_only}
use open_data_analysis.Session.Manager.Cleanup.{
  candidates, detach_expired, put_back, clean_session, IsStale, restored, clean_session-IsCleaned,
}
use open_data_analysis.Session.Manager.Stranded.{stop_strands_waiting}

-- Opens all that the runs compute with.
manager_run : Unit {0}
unfolding lookup insert remove start_run consume_waiting_run_exact cancel_run serve get_stored get
    make_session create_stored get_or_create peek delete stop candidates detach_expired put_back
    clean_session
manager_run = tt

abbrev asking : RunState
asking = record { run_id = "r_1"; status = waiting; cancel = some 7; started_at = 1 }

abbrev hers : LiveSession
hers = record {
  workspace_id = "w_1";
  user_id = "ann";
  session = record {
    active_run = some asking;
    edit_state = none;
    last_seen_at = 1;
    detached = false;
    cancelled = [];
  };
}

abbrev held : Manager
held = record { sessions = ("s_1", hers) ∷ [] }

get_or_create_other :
    (get_or_create 2 "s_2" "s_1" "w_1" "bob" none held held).1 ≡ err not_authorized
unfolding manager_run
get_or_create_other = refl

owner_only_example :
    (lookup "s_1" (answer "w_1" "bob" (gets_or_creates 2 "s_2" "" none) held held).0.sessions
      ≡ some hers)
    × IsOwn "w_1" "bob" (answer "w_1" "bob" (gets_or_creates 2 "s_2" "" none) held held).1
unfolding manager_run
owner_only_example =
    owner_only "w_1" "bob" (gets_or_creates 2 "s_2" "" none) held held "s_1" hers refl refl refl

stop_strands_waiting_example :
    let after = stop 3 (λ x. x) "s_1" "w_1" "ann" held in
    let left = (cancel_run "" 3 hers.session).0 in
    (after.1 ≡ err still_running)
    × (lookup "s_1" after.0.sessions ≡ some (record hers { session = left }))
    × (left.active_run ≡ some (record asking { status = cancelling }))
    × (consume_waiting_run_exact "r_1" 4 left ≡ (left, ""))
    × (start_run "r_2" 8 4 left ≡ err run_active)
    × ((stop 4 (λ x. x) "s_1" "w_1" "ann" after.0).1 ≡ err still_running)
unfolding manager_run
stop_strands_waiting_example =
    stop_strands_waiting 3 4 "s_1" "w_1" "ann" "r_1" "r_2" 7 8 held hers asking refl refl refl refl
      refl

candidates_run : candidates 9 held.sessions ≡ "s_1" ∷ []
unfolding manager_run
candidates_run = refl

clean_session-IsCleaned_example :
    ((((s : LiveSession) → lookup "s_1" held.sessions ≡ some s → ¬ IsStale 9 s)
        × (clean_session 9 10 (λ x. x) false (λ x. x) "s_1" held ≡ (held, false)))
      ⊎ ((s : LiveSession) × (lookup "s_1" held.sessions ≡ some s)
          × IsStale 9 s
          × ((clean_session 9 10 (λ x. x) false (λ x. x) "s_1" held).1 ≡ false)
          × (lookup "s_1" (clean_session 9 10 (λ x. x) false (λ x. x) "s_1" held).0.sessions
              ≡ some (restored 10 (λ x. x) s))))
    × (lookup "s_2" (clean_session 9 10 (λ x. x) false (λ x. x) "s_1" held).0.sessions
        ≡ lookup "s_2" held.sessions)
unfolding manager_run
clean_session-IsCleaned_example = clean_session-IsCleaned 9 10 (λ x. x) false "s_1" "s_2" held refl
