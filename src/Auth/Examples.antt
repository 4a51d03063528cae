-- ===== src/Auth/Examples.antt =====
-- A token that is signed, read back, revoked and refused, and the theorems at that run.
use Prim.Native.String.{String}
use open_data_analysis.Common.{
  ℕ, ◌+◌, ◌*◌, ◌≤◌, ◌<◌, true, none, some, [], ◌∷◌, lookup, insert, ok, err, ◌≡◌, ◌≢◌, ◌↔◌, refl,
  arith, trim_space, trim_left, trim_right, is_space,
}
use open_data_analysis.Auth.Revocation.{unexpired, revoke, is_revoked, replace_all}
use open_data_analysis.Auth.Store.{
  second, unix, create_revoked_token, delete_expired_revoked_tokens, instants,
  list_active_revoked_tokens,
}
use open_data_analysis.Auth.Token.{
  Identity, TokenManager, has_dot, split_parts, split_dots, claims_of, sign, verified_claims, admit,
  parse, save_revocation, revoke_claims, revoke_token, new_token_manager, load_revocations,
  token_expired, token_revoked,
}
use open_data_analysis.Auth.Codec.{codec, codec_run, codec-IsCrypto}
use open_data_analysis.Auth.Token.Laws.{parse_signed}
use open_data_analysis.Auth.Token.Denial.{Later, same, restarted}
use open_data_analysis.Auth.Token.Refusal.{refused_until_expiry, accepted_in_last_second}
use open_data_analysis.Auth.Access.{
  role_weight, has_min_role, served, Request, token_of, Members, require_workspace_role, middleware,
}
use open_data_analysis.Auth.Access.Laws.{IsEntitled, served_iff}

-- Opens all that the runs compute with.
auth_run : Unit {0}
unfolding trim_space trim_left trim_right is_space lookup insert unexpired revoke is_revoked
    replace_all create_revoked_token delete_expired_revoked_tokens instants
    list_active_revoked_tokens has_dot split_parts split_dots claims_of sign verified_claims admit
    parse save_revocation revoke_claims revoke_token load_revocations role_weight has_min_role
    token_of require_workspace_role middleware
auth_run = tt

abbrev alice : Identity
alice = record {
  user_id = "u1";
  user_name = "Alice";
  user_email = "a@example.com";
  workspace_id = "w1";
  workspace = "Sales";
}

-- Times in tenths of a second.
abbrev at : ℕ → ℕ
at tenths = tenths * 100000000

abbrev manager : TokenManager
manager = new_token_manager "key" (some [])

abbrev token : String
token = sign codec "t1" (at 50) (at 30) manager alice

abbrev after : TokenManager
after = record manager {
  revoker = record { revoked = ("t1", 8 * second) ∷ [] };
  store = some (("t1", 8) ∷ []);
}

parse_run : (parse codec (at 89) token manager).1 ≡ ok alice
unfolding auth_run codec_run
parse_run = refl

none_listed : lookup "t1" manager.revoker.revoked ≡ none
unfolding auth_run
none_listed = refl

parse_signed_example :
    (unix (at 89) ≤ unix (at 50 + at 30) → (parse codec (at 89) token manager).1 ≡ ok alice)
    × (unix (at 50 + at 30) < unix (at 89)
        → (parse codec (at 89) token manager).1 ≡ err token_expired)
parse_signed_example =
    parse_signed codec codec-IsCrypto "t1" (at 50) (at 30) manager manager alice (at 89) refl
      none_listed

revoke_run : revoke_token codec true (at 60) token manager ≡ (after, ok tt)
unfolding auth_run codec_run
revoke_run = refl

-- The manager is replaced by one that loads the table.
restart :
    Later codec "t1" 8
      (at 60)
      after
      (at 70)
      (load_revocations (at 70) (new_token_manager "key" after.store))
restart =
    restarted (at 60) (at 60) (at 70) after after (("t1", 8) ∷ []) (same (at 60) after)
      (omega arith) refl

refused_until_expiry_example :
    (parse codec (at 79) token (load_revocations (at 70) (new_token_manager "key" after.store))).1
    ≡ err token_revoked
refused_until_expiry_example =
    refused_until_expiry codec codec-IsCrypto "t1" (at 50) (at 30) manager manager after
      (load_revocations (at 70) (new_token_manager "key" after.store)) alice true (at 60) (at 70)
      (at 79) refl revoke_run restart (omega arith) (omega arith)

accepted_in_last_second_example : (parse codec (at 85) token after).1 ≡ ok alice
accepted_in_last_second_example =
    accepted_in_last_second codec codec-IsCrypto "t1" (at 50) (at 30) manager manager after alice
      true (at 60) (at 85) refl revoke_run (omega arith)

abbrev request : Request
request = record { authorization = ""; cookie = some token }

abbrev members : Members
members workspace user = some (some "admin")

served_iff_example :
    ((middleware codec (λ s. s) (at 60) (require_workspace_role members "member") request manager).1
      ≡ served alice)
    ↔ ((token_of (λ s. s) request ≢ "")
        × ((parse codec (at 60) (token_of (λ s. s) request) manager).1 ≡ ok alice)
        × IsEntitled members "member" alice)
served_iff_example = served_iff codec (λ s. s) (at 60) members "member" request manager alice

served_run :
    (middleware codec (λ s. s) (at 60) (require_workspace_role members "member") request manager).1
    ≡ served alice
unfolding auth_run codec_run
served_run = refl
