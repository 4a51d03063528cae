-- ===== src/Agent/Jobs.antt =====
-- Background executions of tools (server/agent/jobs.go). The clock and the fresh id are arguments;
-- the goroutine of a job is the later call of `finish` for it, and the tools that may run are the
-- two of `jobAllowedTools`.
pub mod Eviction
pub mod Notices
use open_data_analysis.Common.{
  ℕ, zero, suc, ◌+◌, String, Bool, true, false, not, ◌&&◌, ◌||◌, ◌==◌, Option, none, some, List, [],
  ◌∷◌, ◌++◌, Dict, lookup, insert, remove, length, ltb, eqb, if◌then◌else◌, is_some, Result, ok,
  err, refuse, ◌>>=◌, ◌>>◌,
}

pub record Job : Type 0 where
  pub id : String
  pub tool : String
  pub status : String
  pub result_id : String
  pub result_chars : ℕ
  pub error_message : String
  pub started_at : ℕ
  pub finished_at : Option ℕ

-- `JobManager`; `registry` says whether a tool registry is attached.
pub record JobManager : Type 0 where
  pub registry : Bool
  pub jobs : Dict Job
  pub order : List String
  pub unannounced : List String

pub data JobError : Type 0 where
  tool_not_allowed unknown_job : String → JobError
  arguments_required not_available : JobError

abbrev pub running : String
running = "running"

abbrev pub succeeded : String
succeeded = "succeeded"

abbrev pub failed : String
failed = "failed"

-- `maxRetainedJobs`.
abbrev pub max_retained_jobs : ℕ
max_retained_jobs = 32

-- `jobAllowedTools`.
abbrev pub job_allowed : String → Bool
job_allowed tool = tool == "code_run_python" || tool == "data_query_sql"

-- The job of this id cannot be dropped: it is kept and still running.
abbrev pub is_running : Option Job → Bool
is_running none = false
is_running (some j) = j.status == running

-- The first id of the order that can be dropped, and the order without it.
unfoldable pub first_evictable : Dict Job → List String → Option (String × List String)
first_evictable jobs [] = none
first_evictable jobs (id ∷ ids) =
    let rest = first_evictable jobs ids in
    if is_running (lookup id jobs)
    then (elim rest [ none ↦ none | some (found, others) ↦ some (found, id ∷ others) ])
    else some (id, ids)

-- The loop of `evictLocked`, on fuel: every pass shortens the order.
unfoldable pub evict_from : ℕ → JobManager → JobManager
evict_from zero m = m
evict_from (suc n) m =
    if ltb max_retained_jobs (length m.order)
    then (elim (first_evictable m.jobs m.order) [
      | none ↦ m
      | some (id, ids) ↦ evict_from n (record m { jobs = remove id m.jobs; order = ids })
    ])
    else m

-- `evictLocked`.
unfoldable pub evict : JobManager → JobManager
evict m = evict_from (length m.order) m

abbrev pub new_job : String → String → ℕ → Job
new_job id tool now = record {
  id = id;
  tool = tool;
  status = running;
  result_id = "";
  result_chars = 0;
  error_message = "";
  started_at = now;
  finished_at = none;
}

-- `Submit`, with the id that it creates; the arguments are only tested not to be empty.
unfoldable pub submit :
    String → ℕ → String → String → JobManager → Result JobError (JobManager × Job)
submit id now tool arguments m = do
  refuse (not (job_allowed tool)) (tool_not_allowed tool)
  refuse (arguments == "") arguments_required
  refuse (not m.registry) not_available
  let job = new_job id tool now
  ok (evict (record m { jobs = insert id job m.jobs; order = m.order ++ id ∷ [] }), job)

abbrev pub finished : String → ℕ → Option String → ℕ → Job → Job
finished result_id chars none now j = record j {
  status = succeeded;
  result_id = result_id;
  result_chars = chars;
  finished_at = some now;
}
finished result_id chars (some message) now j = record j {
  status = failed;
  result_id = result_id;
  result_chars = chars;
  error_message = message;
  finished_at = some now;
}

-- `finish`; the failure is its message after `sanitizeToolError`.
unfoldable pub finish : String → String → ℕ → Option String → ℕ → JobManager → JobManager
finish id result_id chars failure now m = elim (lookup id m.jobs) [
  | none ↦ m
  | some j ↦ record m {
    jobs = insert id (finished result_id chars failure now j) m.jobs;
    unannounced = m.unannounced ++ id ∷ [];
  }
]

-- The jobs of the ids that are still kept.
unfoldable pub kept : Dict Job → List String → List Job
kept jobs [] = []
kept jobs (id ∷ ids) =
    let rest = kept jobs ids in elim (lookup id jobs) [ none ↦ rest | some j ↦ j ∷ rest ]

-- `TakeCompletedNotices`; a notice stands for its job, whose fields it lists.
unfoldable pub take_completed_notices : JobManager → JobManager × List Job
take_completed_notices m = (record m { unannounced = [] }, kept m.jobs m.unannounced)

-- `Status`.
unfoldable pub status_of : String → JobManager → Result JobError Job
status_of id m = elim (lookup id m.jobs) [ none ↦ err (unknown_job id) | some j ↦ ok j ]
