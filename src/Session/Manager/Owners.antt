-- ===== src/Session/Manager/Owners.antt =====
-- A session is handed out to its owner only, and no one else changes it (server/session/manager.go).
use open_data_analysis.Common.{
  ℕ, String, Bool, true, false, not, ◌&&◌, ◌==◌, Option, none, some, ◌≡◌, ◌⊎◌, inl, inr, ap, ◌∙◌,
  subst, lookup, lookup-insert, lookup-remove, Result, ok, err, arith, eq_iff, Bool-cases,
  Option-cases, Result-cases,
}
use open_data_analysis.Session.Runs.{Session, cancel_run}
use open_data_analysis.Session.Manager.{
  LiveSession, Manager, ManagerError, Stored, found, not_found, failed, Answers, owns, new_session,
  touch, hold, touches, serve, get_stored, get, make_session, create_stored, get_or_create, peek,
  delete, stop,
}

-- The session that a result hands out.
abbrev pub handed : Result ManagerError LiveSession → Option LiveSession
handed (ok s) = some s
handed (err e) = none

abbrev pub handed_new : Result ManagerError (LiveSession × Bool) → Option LiveSession
handed_new (ok (s, created)) = some s
handed_new (err e) = none

abbrev pub of_get : Manager × Result ManagerError LiveSession → Manager × Option LiveSession
of_get (m, r) = (m, handed r)

abbrev pub of_create :
    Manager × Result ManagerError (LiveSession × Bool) → Manager × Option LiveSession
of_create (m, r) = (m, handed_new r)

module _ (workspace user : String) where
  -- The session that a result hands out, if any, belongs to the user.
  abbrev pub IsOwn : Option LiveSession → Type 0
  IsOwn none = Unit
  IsOwn (some s) = owns workspace user s ≡ true

  -- The session is the one under the id, or none is.
  abbrev IsHere : String → LiveSession → Manager → Type 0
  IsHere id x m = (lookup id m.sessions ≡ some x) ⊎ (lookup id m.sessions ≡ none)

  -- The session of another user under a key is still there.
  abbrev IsKept : String → LiveSession → Manager → Type 0
  IsKept j s m = lookup j m.sessions ≡ some s

  hold-IsKept :
      (id j : String) (t x s : LiveSession) (m : Manager)
      → IsKept j s m
      → owns workspace user s ≡ false
      → owns workspace user x ≡ true
      → IsHere id x m
      → IsKept j s (hold id t m)
  hold-IsKept id j t x s m l other own here = elim (Bool-cases (id == j)) [
    | inr n ↦ ground (arith, l, n, lookup-insert id j t m.sessions)
    | inl e ↦
        let same : id ≡ j = ground (arith, e, eq_iff id j) in
        let k : lookup id m.sessions ≡ some s = ap (λ z. lookup z m.sessions) same ∙ l in
        elim here [
          | inr n ↦ absurd (ground (arith, k, n))
          | inl h ↦
              let eq : x ≡ s = ground (arith, k, h) in
              absurd (ground (arith, other, own, ap (λ z. owns workspace user z) eq))
        ]
  ]

  module _ (j : String) (s : LiveSession) where
    -- After a call the session of the other user is there, and the session handed out is the user's.
    abbrev IsFair : Manager × Option LiveSession → Type 0
    IsFair (m, given) = IsKept j s m × IsOwn given

    serve-IsFair :
        (now : ℕ) (id : String) (stored : Bool) (x : LiveSession) (m : Manager)
        → IsKept j s m
        → owns workspace user s ≡ false
        → IsHere id x m
        → IsFair (of_get (serve now id workspace user stored x m))
    unfolding serve
    serve-IsFair now id stored x m l other here = elim (Bool-cases (owns workspace user x)) [
      | inr n ↦ rw (serve, n) (l, tt)
      | inl own ↦ elim (Bool-cases stored) [
        | inl e ↦
            rw (serve, own) (rw e (hold-IsKept id j (touch now x) x s m l other own here, own))
        | inr e ↦ rw (serve, own) (rw e (hold-IsKept id j (touch now x) x s m l other own here, tt))
      ]
    ]

    get_stored-IsFair :
        (now : ℕ) (id : String) (touched : Bool) (stored : Stored) (later : Manager)
        → IsKept j s later
        → owns workspace user s ≡ false
        → IsFair (of_get (get_stored now id workspace user touched stored later))
    unfolding get_stored
    get_stored-IsFair now id touched not_found later k other = (k, tt)
    get_stored-IsFair now id touched failed later k other = (k, tt)
    get_stored-IsFair now id touched (found w u) later k other =
        elim (Bool-cases (w == workspace && u == user)) [
          | inr n ↦ rw (get_stored, n) (k, tt)
          | inl e ↦ elim (Option-cases (lookup id later.sessions)) [
            | inl n ↦
                let eq : of_get (serve now id workspace user touched (new_session now w u) later)
                    ≡ of_get (get_stored now id workspace user touched (found w u) later) =
                  ground (arith, e, n) in
                subst IsFair eq
                  (serve-IsFair now id touched (new_session now w u) later k other (inr n))
            | inr (x, n) ↦
                let eq : of_get (serve now id workspace user touched x later)
                    ≡ of_get (get_stored now id workspace user touched (found w u) later) =
                  ground (arith, e, n) in
                subst IsFair eq (serve-IsFair now id touched x later k other (inl n))
          ]
        ]

    get-IsFair :
        (now : ℕ) (id : String) (db : Option Answers) (m later : Manager)
        → IsKept j s m
        → IsKept j s later
        → owns workspace user s ≡ false
        → IsFair (of_get (get now id workspace user db m later))
    unfolding get
    get-IsFair now id db m later l k other = elim (Option-cases (lookup id m.sessions)) [
      | inr (x, n) ↦
          let eq : of_get (serve now id workspace user (touches db) x m)
              ≡ of_get (get now id workspace user db m later) =
            ground (arith, n) in
          subst IsFair eq (serve-IsFair now id (touches db) x m l other (inl n))
      | inl n ↦ elim (Option-cases db) [
        | inl e ↦ rw (get, n) (rw e (k, tt))
        | inr (a, e) ↦
            let eq : of_get (get_stored now id workspace user a.touches a.stored later)
                ≡ of_get (get now id workspace user db m later) =
              ground (arith, n, e) in
            subst IsFair eq (get_stored-IsFair now id a.touches a.stored later k other)
      ]
    ]

    absent-Differs :
        (id : String) (m : Manager) → IsKept j s m → lookup id m.sessions ≡ none → (id == j) ≡ false
    absent-Differs id m l n = elim (Bool-cases (id == j)) [
      | inr d ↦ d
      | inl e ↦
          let same : id ≡ j = ground (arith, e, eq_iff id j) in
          let k : lookup id m.sessions ≡ some s = ap (λ z. lookup z m.sessions) same ∙ l in
          absurd (ground (arith, n, k))
    ]

    new-IsOwn : (now : ℕ) → owns workspace user (new_session now workspace user) ≡ true
    new-IsOwn now = ground (arith, eq_iff workspace workspace, eq_iff user user)

    make_session-IsFair :
        (now : ℕ) (id : String) (is_new : Bool) (db : Option Answers) (m : Manager)
        → IsKept j s m
        → owns workspace user s ≡ false
        → IsFair (of_create (make_session now id workspace user is_new db m))
    unfolding make_session
    make_session-IsFair now id is_new db m l other = elim (Option-cases (lookup id m.sessions)) [
      | inr (x, n) ↦ elim (Bool-cases (owns workspace user x)) [
        | inr d ↦ rw (make_session, n) (rw d (l, tt))
        | inl own ↦
            rw (make_session, n)
              (rw own (hold-IsKept id j (touch now x) x s m l other own (inl n), own))
      ]
      | inl n ↦
          let fresh = new_session now workspace user in
          let held = hold-IsKept id j fresh fresh s m l other (new-IsOwn now) (inr n) in
          elim (Option-cases db) [
            | inl e ↦ rw (make_session, n) (rw e (held, new-IsOwn now))
            | inr (a, e) ↦ elim (Bool-cases (is_new && not a.creates)) [
              | inl c ↦
                  rw (make_session, n)
                    (rw e (
                      rw c (
                        ground (arith, l, lookup-remove id j m.sessions, absent-Differs id m l n),
                        tt,
                      )))
              | inr c ↦ elim (Bool-cases (not is_new && not a.touches)) [
                | inl t ↦ rw (make_session, n) (rw e (rw c (rw t (held, tt))))
                | inr t ↦ rw (make_session, n) (rw e (rw c (rw t (held, new-IsOwn now))))
              ]
            ]
          ]
    ]

    create_stored-IsFair :
        (now : ℕ) (id : String) (a : Answers) (stored : Stored) (later : Manager)
        → IsKept j s later
        → owns workspace user s ≡ false
        → IsFair (of_create (create_stored now id workspace user a stored later))
    unfolding create_stored
    create_stored-IsFair now id a failed later k other = (k, tt)
    create_stored-IsFair now id a not_found later k other =
        make_session-IsFair now id true (some a) later k other
    create_stored-IsFair now id a (found w u) later k other =
        elim (Bool-cases (w == workspace && u == user)) [
          | inr n ↦ rw (create_stored, n) (k, tt)
          | inl e ↦
              let same_w : workspace ≡ w = ground (arith, e, eq_iff w workspace) in
              let same_u : user ≡ u = ground (arith, e, eq_iff u user) in
              let eq : of_create (make_session now id w u false (some a) later)
                  ≡ of_create (create_stored now id workspace user a (found w u) later) =
                ground (arith, e) in
              let own = make_session-IsFair now id false (some a) later k other in
              subst IsFair eq (
                subst (λ z. IsFair (of_create (make_session now id w z false (some a) later)))
                  same_u
                  (subst (λ z. IsFair (of_create (make_session now id z user false (some a) later)))
                    same_w own))
        ]

    get_or_create-IsFair :
        (now : ℕ) (fresh_id id : String) (db : Option Answers) (m later : Manager)
        → IsKept j s m
        → IsKept j s later
        → owns workspace user s ≡ false
        → IsFair (of_create (get_or_create now fresh_id id workspace user db m later))
    unfolding get_or_create
    get_or_create-IsFair now fresh_id id db m later l k other = elim (Bool-cases (id == "")) [
      | inl b ↦ rw (get_or_create, b) (make_session-IsFair now fresh_id true db later k other)
      | inr b ↦ elim (Option-cases (lookup id m.sessions)) [
        | inr (x, n) ↦
            let served = serve now id workspace user (touches db) x m in
            let fair = serve-IsFair now id (touches db) x m l other (inl n) in
            elim (Result-cases served.1) [
              | inl (t, r) ↦
                  let eq : (served.0, some t)
                      ≡ of_create (get_or_create now fresh_id id workspace user db m later) =
                    ground (arith, b, n, r) in
                  let given : of_get served ≡ (served.0, some t) = ground (arith, r) in
                  subst IsFair (given ∙ eq) fair
              | inr (t, r) ↦
                  let eq : of_get served
                      ≡ of_create (get_or_create now fresh_id id workspace user db m later) =
                    ground (arith, b, n, r) in
                  subst IsFair eq fair
            ]
        | inl n ↦ elim (Option-cases db) [
          | inl e ↦
              rw (get_or_create, b)
                (rw (n) (rw e (make_session-IsFair now id true none later k other)))
          | inr (a, e) ↦
              rw (get_or_create, b)
                (rw (n) (rw e (create_stored-IsFair now id a a.stored later k other)))
        ]
      ]
    ]

    own-Differs :
        (id : String) (x : LiveSession) (m : Manager)
        → IsKept j s m
        → owns workspace user s ≡ false
        → owns workspace user x ≡ true
        → lookup id m.sessions ≡ some x
        → (id == j) ≡ false
    own-Differs id x m l other own n = elim (Bool-cases (id == j)) [
      | inr d ↦ d
      | inl e ↦
          let same : id ≡ j = ground (arith, e, eq_iff id j) in
          let k : lookup id m.sessions ≡ some s = ap (λ z. lookup z m.sessions) same ∙ l in
          let eq : x ≡ s = ground (arith, k, n) in
          absurd (ground (arith, other, own, ap (λ z. owns workspace user z) eq))
    ]

    delete-IsKept :
        (destroys : Bool) (id : String) (m : Manager)
        → IsKept j s m
        → owns workspace user s ≡ false
        → IsKept j s (delete destroys id workspace user m).0
    unfolding delete
    delete-IsKept destroys id m l other = elim (Option-cases (lookup id m.sessions)) [
      | inl n ↦ rw (delete, n) l
      | inr (x, n) ↦ elim (Bool-cases (owns workspace user x)) [
        | inr d ↦ rw (delete, n) (rw d l)
        | inl own ↦
            rw (delete, n)
              (rw own (
                ground (arith, l, own-Differs id x m l other own n, lookup-remove id j m.sessions)))
      ]
    ]

    stop-IsKept :
        (now : ℕ) (until : Session → Session) (id : String) (m : Manager)
        → IsKept j s m
        → owns workspace user s ≡ false
        → IsKept j s (stop now until id workspace user m).0
    unfolding stop
    stop-IsKept now until id m l other = elim (Option-cases (lookup id m.sessions)) [
      | inl n ↦ rw (stop, n) l
      | inr (x, n) ↦ elim (Bool-cases (owns workspace user x)) [
        | inr d ↦ rw (stop, n) (rw d l)
        | inl own ↦
            rw (stop, n)
              (rw own (
                hold-IsKept id j (record x { session = until (cancel_run "" now x.session).0 }) x s
                  m l other own (inl n)))
      ]
    ]

-- A call of a user.
pub data Call : Type 0 where
  gets : (now : ℕ) → (id : String) → Option Answers → Call
  gets_or_creates : (now : ℕ) → (fresh_id id : String) → Option Answers → Call
  peeks : (id : String) → Call
  deletes : (destroys : Bool) → (id : String) → Call
  stops : (now : ℕ) → (until : Session → Session) → (id : String) → Call

-- The state after a call, and the session that it hands out. `later` is the state at the second look.
abbrev pub answer :
    (workspace user : String) → Call → (m later : Manager) → Manager × Option LiveSession
answer workspace user (gets now id db) m later = of_get (get now id workspace user db m later)
answer workspace user (gets_or_creates now fresh_id id db) m later =
    of_create (get_or_create now fresh_id id workspace user db m later)
answer workspace user (peeks id) m later =
    (m, elim (peek id workspace user m) [ ok seen ↦ seen | err e ↦ none ])
answer workspace user (deletes destroys id) m later =
    ((delete destroys id workspace user m).0, none)
answer workspace user (stops now until id) m later = ((stop now until id workspace user m).0, none)

peek-IsOwn :
    (workspace user id : String) (m : Manager)
    → IsOwn workspace user (elim (peek id workspace user m) [ ok seen ↦ seen | err e ↦ none ])
unfolding peek
peek-IsOwn workspace user id m = elim (Option-cases (lookup id m.sessions)) [
  | inl n ↦ rw (peek, n) tt
  | inr (x, n) ↦ elim (Bool-cases (owns workspace user x)) [
    | inl own ↦ rw (peek, n) (rw own own)
    | inr d ↦ rw (peek, n) (rw d tt)
  ]
]

-- Let a user call the manager while a session that belongs to someone else is held, also when the
-- call looks at the sessions for the second time. Then that session is held after the call as it
-- was, and the session that the call hands out, if any, belongs to the user.
pub owner_only :
    (workspace user : String) (call : Call) (m later : Manager) (key : String) (other : LiveSession)
    → lookup key m.sessions ≡ some other
    → lookup key later.sessions ≡ some other
    → owns workspace user other ≡ false
    → (lookup key (answer workspace user call m later).0.sessions ≡ some other)
      × IsOwn workspace user (answer workspace user call m later).1
owner_only workspace user (gets now id db) m later key other l k o =
    get-IsFair workspace user key other now id db m later l k o
owner_only workspace user (gets_or_creates now fresh_id id db) m later key other l k o =
    get_or_create-IsFair workspace user key other now fresh_id id db m later l k o
owner_only workspace user (peeks id) m later key other l k o = (l, peek-IsOwn workspace user id m)
owner_only workspace user (deletes destroys id) m later key other l k o =
    (delete-IsKept workspace user key other destroys id m l o, tt)
owner_only workspace user (stops now until id) m later key other l k o =
    (stop-IsKept workspace user key other now until id m l o, tt)
