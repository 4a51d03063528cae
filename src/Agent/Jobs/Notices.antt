-- ===== src/Agent/Jobs/Notices.antt =====
-- Every finished job is announced once.
use open_data_analysis.Common.{
  ℕ, String, Option, some, List, [], ◌∷◌, ◌++◌, ◌≡◌, inl, inr, refl, ◌∙◌, ap, eq_refl, Dict, lookup,
  insert, lookup-insert, ok, Option-cases,
}
use open_data_analysis.Agent.Jobs.{
  Job, JobManager, finished, finish, kept, take_completed_notices, status_of,
}

kept-append :
    (jobs : Dict Job) (id : String) (j : Job) (ids : List String)
    → lookup id jobs ≡ some j
    → kept jobs (ids ++ id ∷ []) ≡ kept jobs ids ++ j ∷ []
unfolding kept
kept-append jobs id j [] l = rw (kept, l) refl
kept-append jobs id j (i ∷ ids) l = elim (Option-cases (lookup i jobs)) [
  | inl e ↦ rw (kept, e) (kept-append jobs id j ids l)
  | inr (k, e) ↦ rw (kept, e) (ap (λ ks. k ∷ ks) (kept-append jobs id j ids l))
]

finish_known :
    (id result_id : String) (chars now : ℕ) (failure : Option String) (m : JobManager) (j : Job)
    → lookup id m.jobs ≡ some j
    → finish id result_id chars failure now m ≡ record m {
      jobs = insert id (finished result_id chars failure now j) m.jobs;
      unannounced = m.unannounced ++ id ∷ [];
    }
unfolding finish
finish_known id result_id chars now failure m j l = rw (finish, l) refl

-- When a job that is kept ends, its status is the outcome, the next notices end with it after
-- those of the jobs that ended before, and the notices after these are empty.
pub announced_once :
    (id result_id : String) (chars now : ℕ) (failure : Option String) (m : JobManager) (j : Job)
    → lookup id m.jobs ≡ some j
    → (status_of id (finish id result_id chars failure now m)
        ≡ ok (finished result_id chars failure now j))
      × ((take_completed_notices (finish id result_id chars failure now m)).1
          ≡ kept (insert id (finished result_id chars failure now j) m.jobs) m.unannounced
            ++ finished result_id chars failure now j ∷ [])
      × ((take_completed_notices
            (take_completed_notices (finish id result_id chars failure now m)).0).1
          ≡ [])
unfolding take_completed_notices status_of kept
announced_once id result_id chars now failure m j l =
    let after = insert id (finished result_id chars failure now j) m.jobs in
    let found : lookup id after ≡ some (finished result_id chars failure now j) =
      lookup-insert id id (finished result_id chars failure now j) m.jobs ∙ rw (eq_refl id) refl in
    rw (finish_known id result_id chars now failure m j l) (
      rw (status_of, found) refl,
      kept-append after id (finished result_id chars failure now j) m.unannounced found,
      refl,
    )
