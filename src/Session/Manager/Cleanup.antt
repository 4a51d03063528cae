-- ===== src/Session/Manager/Cleanup.antt =====
-- The removal of expired sessions (server/session/cleanup.go `CleanupExpiredSessions`). The clock and
-- what the deletion of the stored data gives are arguments, and so is the state when a deletion has
-- failed. The closing of a report view and the sessions that only the database holds are left out.
use open_data_analysis.Common.{
  ℕ, String, Bool, true, false, not, ◌&&◌, ◌==◌, Option, none, some, List, [], ◌∷◌, ◌≡◌, ◌≢◌, ◌↔◌,
  ◌<◌, ne_test, sym, ◌⊎◌, inl, inr, refl, subst, ltb, lookup, remove, lookup-insert, lookup-remove,
  is_some, arith, eq_iff, Dict, Bool-cases, Option-cases, if◌then◌else◌,
}
use open_data_analysis.Session.Runs.{RunState, Session, running, cancel_run}
use open_data_analysis.Session.Manager.{LiveSession, Manager, hold}

-- `ActiveRun == nil || ActiveRun.Status != "running"`.
abbrev pub is_idle : Session → Bool
is_idle s = elim s.active_run [ none ↦ true | some r ↦ not (r.status == running) ]

abbrev pub is_expired : (cutoff : ℕ) → LiveSession → Bool
is_expired cutoff s = is_idle s.session && ltb s.session.last_seen_at cutoff

-- The first step: the ids of the sessions that are idle and expired.
unfoldable pub candidates : (cutoff : ℕ) → Dict LiveSession → List String
candidates cutoff [] = []
candidates cutoff ((id, s) ∷ rest) =
    let ids = candidates cutoff rest in if is_expired cutoff s then id ∷ ids else ids

-- The second step: a candidate that is still idle and expired is taken out of the map and marked.
unfoldable pub detach_expired : (cutoff : ℕ) → String → Manager → Manager × Option LiveSession
detach_expired cutoff id m = elim (lookup id m.sessions) [
  | none ↦ (m, none)
  | some s ↦
      if is_expired cutoff s
      then (
        record m { sessions = remove id m.sessions },
        some (record s { session = record s.session { detached = true } }),
      )
      else (m, none)
]

-- The session after its run is cancelled and waited for.
abbrev pub cancelled : (now : ℕ) → (until : Session → Session) → LiveSession → LiveSession
cancelled now until s = record s { session = until (cancel_run "" now s.session).0 }

-- The third step: a session whose deletion failed is put back, unless another one took its place.
unfoldable pub put_back : String → LiveSession → Manager → Manager
put_back id s m =
    if is_some (lookup id m.sessions)
    then m
    else hold id (record s { session = record s.session { detached = false } }) m

-- A round of the loop over the candidates, and whether it deleted the session; `deletes` is the
-- result of the deletion, and `meanwhile` what others do to the map until then.
unfoldable pub clean_session :
    (cutoff now : ℕ)
    → (until : Session → Session) → (deletes : Bool) → (meanwhile : Manager → Manager) → String
    → Manager
    → Manager × Bool
clean_session cutoff now until deletes meanwhile id m =
    let (rest, taken) = detach_expired cutoff id m in
    elim taken [
      | none ↦ (rest, false)
      | some s ↦
          if deletes
          then (meanwhile rest, true)
          else (put_back id (cancelled now until s) (meanwhile rest), false)
    ]

-- No run of the session is running, and it was not seen since the cutoff.
abbrev pub IsStale : (cutoff : ℕ) → LiveSession → Type 0
IsStale cutoff s =
    ((r : RunState) → s.session.active_run ≡ some r → r.status ≢ running)
    × (s.session.last_seen_at < cutoff)

IsStale-is_expired : (cutoff : ℕ) (s : LiveSession) → is_expired cutoff s ≡ true ↔ IsStale cutoff s
IsStale-is_expired cutoff s = elim (Option-cases s.session.active_run) [
  | inl n ↦
      (λ e. (λ r k. absurd (ground (arith, n, k)), ground (arith, e)), λ h. ground (arith, n, h.1))
  | inr (x, n) ↦ (
    λ e. (
      λ r k q.
          absurd (ground (arith, e, n, k, q, eq_iff r.status running, eq_iff x.status running)),
      ground (arith, e),
    ),
    λ h.
        (let quiet : (x.status == running) ≡ false = ne_test x.status running (h.0 x n) in
          ground (arith, n, quiet, h.1)),
  )
]

detached-cases :
    (cutoff : ℕ) (id : String) (m : Manager)
    → ((s : LiveSession) × (lookup id m.sessions ≡ some s)
        × IsStale cutoff s
        × (detach_expired cutoff id m ≡ (
          record m { sessions = remove id m.sessions },
          some (record s { session = record s.session { detached = true } }),
        )))
      ⊎ (((s : LiveSession) → lookup id m.sessions ≡ some s → ¬ IsStale cutoff s)
          × (detach_expired cutoff id m ≡ (m, none)))
unfolding detach_expired
detached-cases cutoff id m = elim (Option-cases (lookup id m.sessions)) [
  | inl n ↦ inr ((λ s k. absurd (ground (arith, n, k))), ground (arith, n))
  | inr (s, n) ↦ elim (Bool-cases (is_expired cutoff s)) [
    | inl e ↦ inl (s, n, (IsStale-is_expired cutoff s).0 e, ground (arith, n, e))
    | inr e ↦ inr (
      (λ t k h.
          let same : t ≡ s = ground (arith, n, k) in
          absurd
            (ground (arith, e, (IsStale-is_expired cutoff s).1 (subst (IsStale cutoff) same h)))),
      ground (arith, n, e),
    )
  ]
]

-- The session that is put back: its run is cancelled, and it is not marked as removed.
abbrev pub restored : (now : ℕ) → (until : Session → Session) → LiveSession → LiveSession
restored now until s =
    let left = until (cancel_run "" now (record s.session { detached = true })).0 in
    record s { session = record left { detached = false } }

-- What a round does: there is no stale session under the id, and the map stays as it is; or there is
-- one, which is gone when its stored data is deleted, and else back.
abbrev IsCleaned :
    (cutoff now : ℕ)
    → (until : Session → Session) → (deletes : Bool) → String
    → Manager
    → Manager × Bool
    → Type 0
IsCleaned cutoff now until deletes id m after =
    (((s : LiveSession) → lookup id m.sessions ≡ some s → ¬ IsStale cutoff s)
      × (after ≡ (m, false)))
    ⊎ ((s : LiveSession) × (lookup id m.sessions ≡ some s)
        × IsStale cutoff s
        × (after.1 ≡ deletes)
        × (lookup id after.0.sessions ≡ (if deletes then none else some (restored now until s))))

-- While others leave the map alone, a round of the clean-up for an id does the following. Unless a
-- session is under the id which has no running run and was not seen since the cutoff, nothing
-- changes. Such a session is gone and counted when its stored data is deleted; when that fails, it is
-- not counted and is under its id again, with its run cancelled and not marked as removed. Every other
-- session stays as it is.
pub clean_session-IsCleaned :
    (cutoff now : ℕ) (until : Session → Session) (deletes : Bool) (id other : String) (m : Manager)
    → (id == other) ≡ false
    → IsCleaned cutoff now until deletes id m (clean_session cutoff now until deletes (λ x. x) id m)
      × (lookup other (clean_session cutoff now until deletes (λ x. x) id m).0.sessions
          ≡ lookup other m.sessions)
unfolding clean_session put_back
clean_session-IsCleaned cutoff now until deletes id other m d =
    let after = clean_session cutoff now until deletes (λ x. x) id m in
    let fine = λ (z : Manager × Bool).
      IsCleaned cutoff now until deletes id m z
      × (lookup other z.0.sessions ≡ lookup other m.sessions) in
    elim (detached-cases cutoff id m) [
      | inr (fresh, n) ↦
          let eq : (m, false) ≡ after = ground (arith, n) in subst fine eq (inl (fresh, refl), refl)
      | inl (s, l, stale, n) ↦
          let left : Manager = record m { sessions = remove id m.sessions } in
          let gone : lookup id left.sessions ≡ none =
            ground (arith, lookup-remove id id m.sessions, eq_iff id id) in
          let same : lookup other left.sessions ≡ lookup other m.sessions =
            ground (arith, d, lookup-remove id other m.sessions) in
          elim (Bool-cases deletes) [
            | inl k ↦
                let eq : (left, true) ≡ after = ground (arith, n, k) in
                subst fine eq (inr (s, l, stale, sym k, ground (arith, gone, k)), same)
            | inr k ↦
                let back : LiveSession = restored now until s in
                let eq : (hold id back left, false) ≡ after = ground (arith, n, k, gone) in
                subst fine eq (
                  inr (
                    s,
                    l,
                    stale,
                    sym k,
                    ground (arith, k, lookup-insert id id back left.sessions, eq_iff id id),
                  ),
                  ground (arith, d, same, lookup-insert id other back left.sessions),
                )
          ]
    ]
