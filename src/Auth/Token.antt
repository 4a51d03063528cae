-- ===== src/Auth/Token.antt =====
-- Signed tokens (server/auth/token.go). The MAC, base64 and JSON are parameters.
pub mod Laws
pub mod Cases
pub mod Denial
pub mod Refusal
use Prim.Native.Char.{code}
use Prim.Native.String.{◌++◌ as ◌^^◌}
use Prim.Native.String
use open_data_analysis.Common.{
  ℕ, ◌+◌, ◌*◌, String, Bool, true, false, not, ◌&&◌, ◌||◌, ◌==◌, Option, none, some, List, [], ◌∷◌,
  leb, ltb, eqb, if◌then◌else◌, Dict, Result, ok, err,
}
use open_data_analysis.Common.Int.{ℤ, pos, negsuc, ltb_ℤ}
use open_data_analysis.Auth.Revocation.{Revoker, new_revoker, revoke, is_revoked, replace_all}
use open_data_analysis.Auth.Store.{
  second, unix, create_revoked_token, delete_expired_revoked_tokens, list_active_revoked_tokens,
}

-- `TokenIssuer`.
abbrev pub token_issuer : String
token_issuer = "openDataAnalysis"

-- `Identity` (identity.go).
pub record Identity : Type 0 where
  pub user_id : String
  pub user_name : String
  pub user_email : String
  pub workspace_id : String
  pub workspace : String

pub record Claims : Type 0 where
  pub jwt_id : String
  pub issuer : String
  pub subject : String
  pub user_id : String
  pub user_name : String
  pub user_email : String
  pub workspace_id : String
  pub workspace : String
  pub issued_at : ℤ
  pub expires_at : ℤ

-- `TokenManager`; the store is the table that the adapter writes to.
pub record TokenManager : Type 0 where
  pub secret : String
  pub revoker : Revoker
  pub store : Option (Dict ℕ)

pub data TokenError : Type 0 where
  bad_format : TokenError
  bad_signature : TokenError
  bad_payload : TokenError
  bad_claims : TokenError
  token_expired : TokenError
  bad_issuer : TokenError
  token_revoked : TokenError
  no_jti : TokenError
  not_persisted : TokenError

-- The functions outside: the encoded MAC of a text under a secret, base64 and JSON.
pub record Crypto : Type 0 where
  pub mac : (secret text : String) → String
  pub encode : String → String
  pub decode : String → Option String
  pub marshal : Claims → String
  pub unmarshal : String → Option Claims

-- The text up to the first dot, and the parts after it.
unfoldable pub split_parts : String → String × List String
split_parts String.[] = ("", [])
split_parts (String.◌∷◌ c s) =
    let (part, parts) = split_parts s in
    if eqb (code c) 46 then ("", part ∷ parts) else (String.◌∷◌ c part, parts)

unfoldable pub has_dot : String → Bool
has_dot String.[] = false
has_dot (String.◌∷◌ c s) = eqb (code c) 46 || has_dot s

-- `strings.Split(token, ".")`.
unfoldable pub split_dots : String → List String
split_dots s = let (part, parts) = split_parts s in part ∷ parts

-- `Sign`, at a time and with a fresh id.
unfoldable pub claims_of : (jti : String) (now ttl : ℕ) → Identity → Claims
claims_of jti now ttl identity = record {
  jwt_id = jti;
  issuer = token_issuer;
  subject = identity.user_id;
  user_id = identity.user_id;
  user_name = identity.user_name;
  user_email = identity.user_email;
  workspace_id = identity.workspace_id;
  workspace = identity.workspace;
  issued_at = pos (unix now);
  expires_at = pos (unix (now + ttl));
}

abbrev pub identity_of : Claims → Identity
identity_of c = record {
  user_id = (if c.user_id == "" then c.subject else c.user_id);
  user_name = c.user_name;
  user_email = c.user_email;
  workspace_id = c.workspace_id;
  workspace = c.workspace;
}

-- The checks of `Parse` on verified claims: the denylist after it, and the outcome.
unfoldable pub admit : ℕ → Claims → Revoker → Revoker × Result TokenError Identity
admit now c r =
    let (r', gone) = is_revoked now c.jwt_id r in
    if ltb_ℤ c.expires_at (pos (unix now))
    then (r, err token_expired)
    else if not (c.issuer == token_issuer)
    then (r, err bad_issuer)
    else if not (c.jwt_id == "")
    then (if gone then (r', err token_revoked) else (r', ok (identity_of c)))
    else (r, ok (identity_of c))

-- What `Revoke` does with the claims that it accepts; `works` says if the database takes a write.
unfoldable pub save_revocation :
    Bool → String → (expires_at : ℕ) → Option (Dict ℕ) → Result TokenError (Option (Dict ℕ))
save_revocation works jti at none = ok none
save_revocation works jti at (some table) =
    if works
    then (elim (create_revoked_token jti at table) [
      | err e ↦ err not_persisted
      | ok table' ↦ ok (some table')
    ])
    else err not_persisted

-- `Revoke` on verified claims: the manager after it, and the outcome.
unfoldable pub revoke_claims :
    Bool → ℕ → Claims → TokenManager → TokenManager × Result TokenError (Unit {0})
revoke_claims works now c m = elim c.expires_at [
  | negsuc n ↦ (m, err token_expired)
  | pos at ↦
      let r = revoke now c.jwt_id (at * second) m.revoker in
      if leb at (unix now)
      then (m, err token_expired)
      else if c.jwt_id == ""
      then (m, err no_jti)
      else (elim (save_revocation works c.jwt_id (at * second) m.store) [
        | err e ↦ (record m { revoker = r }, err e)
        | ok table ↦ (record m { revoker = r; store = table }, ok tt)
      ])
]

-- `NewTokenManager` with `SetRevocationStore`.
abbrev pub new_token_manager : String → Option (Dict ℕ) → TokenManager
new_token_manager secret store = record { secret = secret; revoker = new_revoker; store = store }

-- `LoadRevocations`, when the database answers.
unfoldable pub load_revocations : ℕ → TokenManager → TokenManager
load_revocations now m = elim m.store [
  | none ↦ m
  | some table ↦
      let pruned = delete_expired_revoked_tokens now table in
      record m {
        store = some pruned;
        revoker = replace_all now (list_active_revoked_tokens now pruned) m.revoker;
      }
]

module _ (crypto : Crypto) where
  unfoldable pub sign : (jti : String) (now ttl : ℕ) → TokenManager → Identity → String
  sign jti now ttl m identity =
      let payload = crypto.encode (crypto.marshal (claims_of jti now ttl identity)) in
      payload ^^ "." ^^ crypto.mac m.secret payload

  -- `verifiedClaims`.
  unfoldable pub verified_claims : String → String → Result TokenError Claims
  verified_claims secret token = elim (split_dots token) [
    | payload ∷ signature ∷ [] ↦
        if crypto.mac secret payload == signature
        then (elim (crypto.decode payload) [
          | none ↦ err bad_payload
          | some text ↦ elim (crypto.unmarshal text) [ none ↦ err bad_claims | some c ↦ ok c ]
        ])
        else err bad_signature
    | _ ↦ err bad_format
  ]

  -- `Parse`.
  unfoldable pub parse : ℕ → String → TokenManager → TokenManager × Result TokenError Identity
  parse now token m = elim (verified_claims m.secret token) [
    | err e ↦ (m, err e)
    | ok c ↦ let (r, result) = admit now c m.revoker in (record m { revoker = r }, result)
  ]

  -- `Revoke`.
  unfoldable pub revoke_token :
      Bool → ℕ → String → TokenManager → TokenManager × Result TokenError (Unit {0})
  revoke_token works now token m = elim (verified_claims m.secret token) [
    | err e ↦ (m, err e)
    | ok c ↦ revoke_claims works now c m
  ]
