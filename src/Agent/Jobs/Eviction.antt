-- ===== src/Agent/Jobs/Eviction.antt =====
-- What stays when old jobs are dropped.
use open_data_analysis.Common.{
  ℕ, zero, suc, ◌≤◌, String, true, false, ◌==◌, none, some, List, [], ◌∷◌, ◌++◌, ◌≡◌, ◌≢◌, ◌⊎◌, inl,
  inr, refl, sym, ◌∙◌, subst, arith, eq_refl, eq_test, ne_test, eq_of_test, Dict, lookup, insert,
  remove, lookup-insert, lookup-remove, length, ltb, ok, All, Bool-cases, Option-cases,
}
use open_data_analysis.Agent.Jobs.{
  Job, JobManager, running, is_running, max_retained_jobs, first_evictable, evict_from, evict,
  new_job, submit, status_of,
}

abbrev pub AllRunning : Dict Job → List String → Type 0
AllRunning jobs = All (λ id. is_running (lookup id jobs) ≡ true)

first_evictable-none :
    (jobs : Dict Job) (ids : List String) → first_evictable jobs ids ≡ none → AllRunning jobs ids
unfolding first_evictable
first_evictable-none jobs [] h = tt
first_evictable-none jobs (id ∷ ids) h =
    (ground arith, first_evictable-none jobs ids (ground arith))

first_evictable-some :
    (jobs : Dict Job) (ids : List String) (id : String) (rest : List String)
    → first_evictable jobs ids ≡ some (id, rest)
    → (length ids ≡ suc (length rest)) × (is_running (lookup id jobs) ≡ false)
unfolding first_evictable
first_evictable-some jobs [] id rest h = absurd (ground arith)
first_evictable-some jobs (i ∷ ids) id rest h = elim (Bool-cases (is_running (lookup i jobs))) [
  | inr b ↦ (ground arith, ground arith)
  | inl b ↦ elim (Option-cases (first_evictable jobs ids)) [
    | inl e ↦ absurd (ground arith)
    | inr ((f, others), e) ↦
        let (len, not_running) = first_evictable-some jobs ids f others e in
        (ground arith, ground arith)
  ]
]

-- The order is within the bound, or everything in it runs.
abbrev pub IsBounded : JobManager → Type 0
IsBounded m = (length m.order ≤ max_retained_jobs) ⊎ AllRunning m.jobs m.order

evict_from-IsBounded : (n : ℕ) (m : JobManager) → length m.order ≤ n → IsBounded (evict_from n m)
unfolding evict_from
evict_from-IsBounded zero m h = inl (omega arith)
evict_from-IsBounded (suc n) m h = elim (Bool-cases (ltb max_retained_jobs (length m.order))) [
  | inr b ↦ rw b (inl (ground arith))
  | inl b ↦ elim (Option-cases (first_evictable m.jobs m.order)) [
    | inl e ↦ rw (b, e) (inr (first_evictable-none m.jobs m.order e))
    | inr ((id, ids), e) ↦
        let (len, nr) = first_evictable-some m.jobs m.order id ids e in
        rw (b, e)
          (evict_from-IsBounded n (record m { jobs = remove id m.jobs; order = ids }) (omega arith))
  ]
]

running_other :
    (jobs : Dict Job) (found id : String) (j : Job)
    → lookup id jobs ≡ some j
    → j.status ≡ running
    → is_running (lookup found jobs) ≡ false
    → (found == id) ≡ false
running_other jobs found id j l r nr = elim (Bool-cases (found == id)) [
  | inr b ↦ b
  | inl b ↦
      let y : is_running (lookup id jobs) ≡ false =
        subst (λ k. is_running (lookup k jobs) ≡ false) (eq_of_test found id b) nr in
      let z : (j.status == running) ≡ true = eq_test j.status running r in absurd (ground arith)
]

found_status :
    (id : String) (m : JobManager) (j : Job) → lookup id m.jobs ≡ some j → status_of id m ≡ ok j
unfolding status_of
found_status id m j l = rw (status_of, l) refl

status_found :
    (id : String) (m : JobManager) (j : Job) → status_of id m ≡ ok j → lookup id m.jobs ≡ some j
unfolding status_of
status_found id m j l = ground arith

-- The manager before the eviction in `Submit`.
abbrev added : String → Job → JobManager → JobManager
added id job m = record m { jobs = insert id job m.jobs; order = m.order ++ id ∷ [] }

submitted :
    (id tool arguments : String) (now : ℕ) (m m' : JobManager) (job : Job)
    → submit id now tool arguments m ≡ ok (m', job)
    → m' ≡ evict (added id (new_job id tool now) m)
unfolding submit
submitted id tool arguments now m m' job h = ground arith

evict-IsBounded : (m : JobManager) → IsBounded (evict m)
unfolding evict
evict-IsBounded m = evict_from-IsBounded (length m.order) m (omega arith)

evict_from_keeps :
    (n : ℕ) (m : JobManager) (id : String) (j : Job)
    → lookup id m.jobs ≡ some j
    → j.status ≡ running
    → lookup id (evict_from n m).jobs ≡ some j
unfolding evict_from
evict_from_keeps zero m id j l r = l
evict_from_keeps (suc n) m id j l r = elim (Bool-cases (ltb max_retained_jobs (length m.order))) [
  | inr b ↦ rw b l
  | inl b ↦ elim (Option-cases (first_evictable m.jobs m.order)) [
    | inl e ↦ rw (b, e) l
    | inr ((found, ids), e) ↦
        let (len, nr) = first_evictable-some m.jobs m.order found ids e in
        let other : (found == id) ≡ false = running_other m.jobs found id j l r nr in
        rw (b, e)
          (evict_from_keeps n (record m { jobs = remove found m.jobs; order = ids }) id j
            (lookup-remove found id m.jobs ∙ rw other l) r)
  ]
]

evict_keeps :
    (m : JobManager) (id : String) (j : Job)
    → lookup id m.jobs ≡ some j
    → j.status ≡ running
    → status_of id (evict m) ≡ ok j
unfolding evict
evict_keeps m id j l r = found_status id (evict m) j (evict_from_keeps (length m.order) m id j l r)

-- A job that is submitted runs and can be asked for; every job that runs stays as it is; and the
-- number of jobs in the order stays within 32, unless all of them run.
pub submit_keeps :
    (id tool arguments : String) (now : ℕ) (m m' : JobManager) (job : Job)
    → submit id now tool arguments m ≡ ok (m', job)
    → (status_of id m' ≡ ok (new_job id tool now))
      × ((other : String) (j : Job)
          → other ≢ id
          → status_of other m ≡ ok j
          → j.status ≡ running
          → status_of other m' ≡ ok j)
      × IsBounded m'
submit_keeps id tool arguments now m m' job h = rw (submitted id tool arguments now m m' job h) (
  evict_keeps (added id (new_job id tool now) m) id (new_job id tool now)
      (lookup-insert id id (new_job id tool now) m.jobs ∙ rw (eq_refl id) refl) refl,
  λ other j n s r.
      evict_keeps (added id (new_job id tool now) m) other j
        (lookup-insert id other (new_job id tool now) m.jobs
          ∙ rw (ne_test id other (λ e. n (sym e))) (status_found other m j s))
        r,
  evict-IsBounded (added id (new_job id tool now) m),
)
