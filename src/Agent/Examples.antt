-- ===== src/Agent/Examples.antt =====
-- Runs of the jobs and of the delegated conversations, and their theorems at those inputs.
use open_data_analysis.Common.{
  arith, String, true, some, [], ◌∷◌, ◌≡◌, ◌≢◌, refl, ok, err, lookup, insert,
}
use open_data_analysis.Agent.Jobs.{
  Job, JobManager, tool_not_allowed, running, first_evictable, evict_from, evict, new_job, submit,
  finish, kept, take_completed_notices, status_of,
}
use open_data_analysis.Agent.ChildAgents.{Registry, drop_oldest, create, save}
use open_data_analysis.Agent.ChildAgents.Laws.{IsKept}
use open_data_analysis.Agent.Jobs.Eviction.{IsBounded, submit_keeps}

-- Opens all that the runs compute with.
job_run : Unit {0}
unfolding lookup insert first_evictable evict_from evict submit finish kept take_completed_notices
    status_of
job_run = tt

abbrev empty : JobManager
empty = record { registry = true; jobs = []; order = []; unannounced = [] }

abbrev query : Job
query = new_job "job_1" "data_query_sql" 5

abbrev one : JobManager
one = record {
  registry = true;
  jobs = ("job_1", query) ∷ [];
  order = "job_1" ∷ [];
  unannounced = [];
}

abbrev two : JobManager
two = record one {
  jobs = ("job_1", query) ∷ ("job_2", new_job "job_2" "code_run_python" 6) ∷ [];
  order = "job_1" ∷ "job_2" ∷ [];
}

first_run : submit "job_1" 5 "data_query_sql" "{}" empty ≡ ok (one, query)
unfolding job_run
first_run = refl

second_run :
    submit "job_2" 6 "code_run_python" "{}" one ≡ ok (two, new_job "job_2" "code_run_python" 6)
unfolding job_run
second_run = refl

refused_run :
    submit "job_1" 5 "report_finalize" "{}" empty ≡ err (tool_not_allowed "report_finalize")
unfolding job_run
refused_run = refl

submit_keeps_example :
    (status_of "job_2" two ≡ ok (new_job "job_2" "code_run_python" 6))
    × ((other : String) (j : Job)
        → other ≢ "job_2"
        → status_of other one ≡ ok j
        → j.status ≡ running
        → status_of other two ≡ ok j)
    × IsBounded two
submit_keeps_example =
    submit_keeps "job_2" "code_run_python" "{}" 6 one two (new_job "job_2" "code_run_python" 6)
      second_run

one_found : lookup "job_1" one.jobs ≡ some query
unfolding job_run
one_found = refl

abbrev nobody : Registry
nobody = record { agents = []; order = [] }

nobody-IsKept : IsKept nobody
unfolding job_run
nobody-IsKept = (omega arith, λ id. refl)

-- A conversation that is saved is found with its history.
saved_run :
    (save "sub_1" ("hello" ∷ []) "done" 3 (create "sub_1" 2 "analyst" "" [] "" nobody).0).order
    ≡ "sub_1" ∷ []
unfolding lookup insert drop_oldest create save
saved_run = refl
