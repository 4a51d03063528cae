-- ===== src/Auth/Store.antt =====
-- The table of revoked tokens (server/repository/sqlite and postgres, revoked_token_repo.go; the
-- adapter of server/handler/token_store.go passes the calls on). A statement that the database
-- refuses is an argument of the callers.
use open_data_analysis.Common.{
  ℕ, ◌*◌, ◌/◌, String, ◌||◌, not, [], ◌∷◌, if◌then◌else◌, is_blank, is_exact, Dict, insert, Result,
  ok, err,
}
use open_data_analysis.Auth.Revocation.{unexpired}

-- The nanoseconds of a second, and `Unix`.
abbrev pub second : ℕ
second = 1000000000

abbrev pub unix : ℕ → ℕ
unix t = t / second

pub data StoreError : Type 0 where
  bad_jti : StoreError

-- `CreateRevokedToken`: the table has the seconds of the expiry.
unfoldable pub create_revoked_token : String → ℕ → Dict ℕ → Result StoreError (Dict ℕ)
create_revoked_token jti at table =
    if is_blank jti || not (is_exact jti) then err bad_jti else ok (insert jti (unix at) table)

-- `DeleteExpiredRevokedTokens`.
unfoldable pub delete_expired_revoked_tokens : ℕ → Dict ℕ → Dict ℕ
delete_expired_revoked_tokens now table = unexpired (unix now) table

-- `time.Unix(expiresAtUnix, 0)` of every row.
unfoldable pub instants : Dict ℕ → Dict ℕ
instants [] = []
instants ((jti, at) ∷ rows) = (jti, at * second) ∷ instants rows

-- `ListActiveRevokedTokens`.
unfoldable pub list_active_revoked_tokens : ℕ → Dict ℕ → Dict ℕ
list_active_revoked_tokens now table = instants (unexpired (unix now) table)
