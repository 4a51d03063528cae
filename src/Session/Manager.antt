-- ===== src/Session/Manager.antt =====
-- The live sessions (server/session/manager.go). The answers of the database, the clock
-- and the deletion of the stored data are arguments. Where a function reads the map twice, the state
-- at its second look is an argument too.
pub mod Owners
pub mod Stranded
pub mod Cleanup
use open_data_analysis.Common.{
  ℕ, ◌-◌, ◌*◌, String, Bool, true, false, not, ◌&&◌, ◌||◌, ◌==◌, Option, none, some, List, [], ◌∷◌,
  ltb, if◌then◌else◌, Dict, lookup, insert, remove, Result, ok, err, is_some,
}
use open_data_analysis.Session.Runs.{Session, RunState, cancel_run, running}

-- A session with its owner.
pub record LiveSession : Type 0 where
  pub workspace_id : String
  pub user_id : String
  pub session : Session

pub record Manager : Type 0 where
  pub sessions : Dict LiveSession

pub data ManagerError : Type 0 where
  not_authorized : ManagerError
  does_not_exist : ManagerError
  read_failed : ManagerError
  touch_failed : ManagerError
  create_failed : ManagerError
  still_running : ManagerError
  destroy_failed : ManagerError

-- What `GetByID` answers.
pub data Stored : Type 0 where
  found : (workspace_id user_id : String) → Stored
  not_found : Stored
  failed : Stored

-- The answers of the database to a call: the stored row, and whether it takes the time of the last
-- use and a new row.
pub record Answers : Type 0 where
  pub stored : Stored
  pub touches : Bool
  pub creates : Bool

abbrev pub owns : (workspace user : String) → LiveSession → Bool
owns workspace user s = s.workspace_id == workspace && s.user_id == user

-- `New`, in these fields.
abbrev pub new_session : (now : ℕ) → (workspace user : String) → LiveSession
new_session now workspace user = record {
  workspace_id = workspace;
  user_id = user;
  session = record {
    active_run = none;
    edit_state = none;
    last_seen_at = now;
    detached = false;
    cancelled = [];
  };
}

-- `Touch`.
abbrev pub touch : (now : ℕ) → LiveSession → LiveSession
touch now s = record s { session = record s.session { last_seen_at = now } }

abbrev pub hold : String → LiveSession → Manager → Manager
hold id s m = record m { sessions = insert id s m.sessions }

-- `UpdateLastSeen`, of a database or none.
abbrev pub touches : Option Answers → Bool
touches none = true
touches (some a) = a.touches

-- The end of `GetOrCreate` and `Get` for a session that is held: its owner is checked, it is touched,
-- and the time goes to the database.
unfoldable pub serve :
    (now : ℕ)
    → (id workspace user : String) → Bool
    → LiveSession
    → Manager
    → Manager × Result ManagerError LiveSession
serve now id workspace user stored s m =
    if not (owns workspace user s)
    then (m, err not_authorized)
    else (hold id (touch now s) m, if stored then ok (touch now s) else err touch_failed)

-- `Get` for a session that is not held, once the database has answered.
unfoldable pub get_stored :
    (now : ℕ)
    → (id workspace user : String) → Bool
    → Stored
    → (later : Manager) → Manager × Result ManagerError LiveSession
get_stored now id workspace user touched not_found later = (later, err does_not_exist)
get_stored now id workspace user touched failed later = (later, err read_failed)
get_stored now id workspace user touched (found w u) later =
    if not (w == workspace && u == user)
    then (later, err not_authorized)
    else (elim (lookup id later.sessions) [
      | some s ↦ serve now id workspace user touched s later
      | none ↦ serve now id workspace user touched (new_session now w u) later
    ])

-- `Get`; `later` is the state when the database has answered.
unfoldable pub get :
    (now : ℕ)
    → (id workspace user : String) → Option Answers
    → (m later : Manager) → Manager × Result ManagerError LiveSession
get now id workspace user db m later = elim (lookup id m.sessions) [
  | some s ↦ serve now id workspace user (touches db) s m
  | none ↦ elim db [
    | none ↦ (later, err does_not_exist)
    | some a ↦ get_stored now id workspace user a.touches a.stored later
  ]
]

-- The new session of `GetOrCreate`, at its second look at the map. A row that cannot be created takes
-- the session out of the map again.
unfoldable pub make_session :
    (now : ℕ)
    → (id workspace user : String) → (is_new : Bool) → Option Answers
    → Manager
    → Manager × Result ManagerError (LiveSession × Bool)
make_session now id workspace user is_new db m = elim (lookup id m.sessions) [
  | some s ↦
      if not (owns workspace user s)
      then (m, err not_authorized)
      else (hold id (touch now s) m, ok (touch now s, false))
  | none ↦
      let s = new_session now workspace user in
      elim db [
        | none ↦ (hold id s m, ok (s, is_new))
        | some a ↦
            if is_new && not a.creates
            then (record m { sessions = remove id m.sessions }, err create_failed)
            else if not is_new && not a.touches
            then (hold id s m, err touch_failed)
            else (hold id s m, ok (s, is_new))
      ]
]

-- `GetOrCreate` for a session that is not held, once the database has answered.
unfoldable pub create_stored :
    (now : ℕ)
    → (id workspace user : String) → Answers
    → Stored
    → (later : Manager) → Manager × Result ManagerError (LiveSession × Bool)
create_stored now id workspace user a failed later = (later, err read_failed)
create_stored now id workspace user a not_found later =
    make_session now id workspace user true (some a) later
create_stored now id workspace user a (found w u) later =
    if not (w == workspace && u == user)
    then (later, err not_authorized)
    else make_session now id w u false (some a) later

-- `GetOrCreate`; `fresh_id` is the id that `idgen.Prefixed` gives, and `later` the state when the
-- database has answered.
unfoldable pub get_or_create :
    (now : ℕ)
    → (fresh_id id workspace user : String) → Option Answers
    → (m later : Manager) → Manager × Result ManagerError (LiveSession × Bool)
get_or_create now fresh_id id workspace user db m later =
    if id == ""
    then make_session now fresh_id workspace user true db later
    else (elim (lookup id m.sessions) [
      | some s ↦
          let (next, served) = serve now id workspace user (touches db) s m in
          (next, elim served [ ok t ↦ ok (t, false) | err e ↦ err e ])
      | none ↦ elim db [
        | none ↦ make_session now id workspace user true none later
        | some a ↦ create_stored now id workspace user a a.stored later
      ]
    ])

-- `Peek`.
unfoldable pub peek :
    (id workspace user : String) → Manager → Result ManagerError (Option LiveSession)
peek id workspace user m = elim (lookup id m.sessions) [
  | none ↦ ok none
  | some s ↦ if owns workspace user s then ok (some s) else err not_authorized
]

-- `Delete`; `destroys` is whether the stored data could be removed.
unfoldable pub delete :
    (destroys : Bool)
    → (id workspace user : String) → Manager
    → Manager × Result ManagerError (Unit {0})
delete destroys id workspace user m =
    let destroyed : Result ManagerError (Unit {0}) =
      if destroys then ok tt else err destroy_failed in
    elim (lookup id m.sessions) [
      | none ↦ (m, destroyed)
      | some s ↦
          if owns workspace user s
          then (record m { sessions = remove id m.sessions }, destroyed)
          else (m, err not_authorized)
    ]

-- `Stop`; `until` is what happens to the session until the wait for it ends.
unfoldable pub stop :
    (now : ℕ)
    → (until : Session → Session) → (id workspace user : String) → Manager
    → Manager × Result ManagerError (Unit {0})
stop now until id workspace user m = elim (lookup id m.sessions) [
  | none ↦ (m, ok tt)
  | some s ↦
      if not (owns workspace user s)
      then (m, err not_authorized)
      else (let after = until (cancel_run "" now s.session).0 in
          (
            hold id (record s { session = after }) m,
            if is_some after.active_run then err still_running else ok tt,
          ))
]
