-- ===== src/Auth/Revocation.antt =====
-- The denylist of token ids (server/auth/revocation.go) and its table (server/handler/
-- token_store.go). A time is a count of nanoseconds; the clock is an argument.
pub mod Laws
use open_data_analysis.Common.{
  ℕ, String, Bool, true, false, ◌||◌, ◌==◌, Option, none, some, List, [], ◌∷◌, leb, ltb,
  if◌then◌else◌, Dict, lookup, insert, remove,
}

-- `Revoker`.
pub record Revoker : Type 0 where
  pub revoked : Dict ℕ

abbrev pub new_revoker : Revoker
new_revoker = record { revoked = [] }

-- The entries that have not expired, `now.Before(expiresAt)`: the loops of `evictExpiredLocked` and
-- `ReplaceAll`.
unfoldable pub unexpired : ℕ → Dict ℕ → Dict ℕ
unexpired now [] = []
unexpired now ((jti, at) ∷ r) =
    let rest = unexpired now r in if ltb now at then (jti, at) ∷ rest else rest

-- `Revoke`.
unfoldable pub revoke : (now : ℕ) → String → (expires_at : ℕ) → Revoker → Revoker
revoke now jti at r =
    if jti == "" || leb at now
    then r
    else record { revoked = insert jti at (unexpired now r.revoked) }

-- `IsRevoked`, which removes an entry that it finds expired.
unfoldable pub is_revoked : ℕ → String → Revoker → Revoker × Bool
is_revoked now jti r = if jti == "" then (r, false) else (elim (lookup jti r.revoked) [
  | none ↦ (r, false)
  | some at ↦ if leb at now then (record { revoked = remove jti r.revoked }, false) else (r, true)
])

-- `ReplaceAll`.
unfoldable pub replace_all : ℕ → Dict ℕ → Revoker → Revoker
replace_all now entries r = record { revoked = unexpired now entries }
