-- ===== src/Auth/Access.antt =====
-- Who is let through to a handler (server/auth/identity.go and rbac.go). `strings.ToLower` and the
-- table of members are parameters.
pub mod Laws
use Prim.Native.String.{len, slice}
use text.Mathlib.Text.{starts_with}
use open_data_analysis.Common.{
  ℕ, String, Bool, true, false, ◌&&◌, ◌||◌, ◌==◌, Option, none, some, List, [], ◌∷◌, leb,
  if◌then◌else◌, trim_space, Result, ok, err,
}
use open_data_analysis.Auth.Token.{Identity, TokenManager, TokenError, Crypto, parse}

-- `RoleWeight`.
unfoldable pub role_weight : String → ℕ
role_weight role =
    if role == "owner" then 3 else if role == "admin" then 2 else if role == "member" then 1 else 0

-- `HasMinRole`.
unfoldable pub has_min_role : (actual min : String) → Bool
has_min_role actual min = leb (role_weight min) (role_weight actual)

-- A handler is called for an identity, or the request is answered with a status.
pub data Response : Type 0 where
  served : Identity → Response
  refused : (status : ℕ) → Response

-- The parts of a request that are read.
pub record Request : Type 0 where
  pub authorization : String
  pub cookie : Option String

abbrev bearer : (String → String) → String → String
bearer lower header =
    if starts_with (lower header) "bearer " then trim_space (slice header 7 (len header)) else ""

-- The token of a request: of the header, or of the cookie.
unfoldable pub token_of : (String → String) → Request → String
token_of lower r =
    let token = bearer lower (trim_space r.authorization) in
    if token == "" then (elim r.cookie [ none ↦ "" | some c ↦ c ]) else token

-- What `GetMemberRole` answers: none for an error, and otherwise the role of a member.
abbrev pub Members : Type 0
Members = (workspace user : String) → Option (Option String)

-- `RequireWorkspaceRole`, for the identity of the request.
unfoldable pub require_workspace_role : Members → (min : String) → Identity → Response
require_workspace_role members min i =
    if i.user_id == "" || i.workspace_id == ""
    then refused 401
    else (elim (members i.workspace_id i.user_id) [
      | none ↦ refused 500
      | some none ↦ refused 403
      | some (some role) ↦ if has_min_role role min then served i else refused 403
    ])

-- `Middleware` before a handler.
unfoldable pub middleware :
    Crypto
    → (String → String)
    → (now : ℕ) → (Identity → Response)
    → Request
    → TokenManager
    → TokenManager × Response
middleware crypto lower now next r m =
    if token_of lower r == ""
    then (m, refused 401)
    else let (n, result) = parse crypto now (token_of lower r) m in
      (n, elim result [ err e ↦ refused 401 | ok i ↦ next i ])
