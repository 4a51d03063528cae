-- ===== src/Auth/Token/Cases.antt =====
-- The outcomes of the checks of `Parse` and of `Revoke` (server/auth/token.go), case by case.
use open_data_analysis.Common.{
  ℕ, ◌*◌, ◌<◌, String, Bool, ◌==◌, Option, leb, Dict, ok, err, ◌≡◌, ◌≢◌, ◌⊎◌, inl, inr, refl, arith,
  Bool-cases, Result-cases, ne_of_test,
}
use open_data_analysis.Common.Int.{ℤ, pos, negsuc, ltb_ℤ}
use open_data_analysis.Auth.Revocation.{Revoker, revoke, is_revoked}
use open_data_analysis.Auth.Store.{second, unix}
use open_data_analysis.Auth.Token.{
  Claims, TokenManager, TokenError, Crypto, token_issuer, verified_claims, admit, parse,
  save_revocation, revoke_claims, revoke_token, token_expired, no_jti,
}

sign_cases : (z : ℤ) → ((n : ℕ) × (z ≡ negsuc n)) ⊎ ((n : ℕ) × (z ≡ pos n))
sign_cases (negsuc n) = inl (n, refl)
sign_cases (pos n) = inr (n, refl)

-- The manager whose denylist has the claims, up to the table.
abbrev pub denying : ℕ → Claims → (at : ℕ) → TokenManager → TokenManager
denying u c at m = record m { revoker = revoke u c.jwt_id (at * second) m.revoker }

pub revoke_cases :
    (works : Bool) (u : ℕ) (c : Claims) (m : TokenManager)
    → ((x : TokenError) × (revoke_claims works u c m ≡ (m, err x)))
      ⊎ ((at : ℕ) × (c.expires_at ≡ pos at)
          × (unix u < at)
          × (c.jwt_id ≢ "")
          × (((x : TokenError) × (revoke_claims works u c m ≡ (denying u c at m, err x)))
              ⊎ ((store : Option (Dict ℕ)) × (save_revocation works c.jwt_id (at * second) m.store
                    ≡ ok store)
                  × (revoke_claims works u c m
                      ≡ (record (denying u c at m) { store = store }, ok tt)))))
unfolding revoke_claims
revoke_cases works u c m = elim (sign_cases c.expires_at) [
  | inl (n, z) ↦ inl (token_expired, rw (revoke_claims, z) refl)
  | inr (at, z) ↦ elim (Bool-cases (leb at (unix u))) [
    | inl l ↦ inl (token_expired, rw (revoke_claims, z, l) refl)
    | inr l ↦ elim (Bool-cases (c.jwt_id == "")) [
      | inl j ↦ inl (no_jti, rw (revoke_claims, z, l, j) refl)
      | inr j ↦ inr (
        at,
        z,
        ground arith,
        ne_of_test c.jwt_id "" j,
        elim (Result-cases (save_revocation works c.jwt_id (at * second) m.store)) [
          | inr (x, k) ↦ inl (x, rw (revoke_claims, z, l, j, k) refl)
          | inl (store, k) ↦ inr (store, k, rw (revoke_claims, z, l, j, k) refl)
        ],
      )
    ]
  ]
]

-- The denylist after the checks of `Parse` is the one before, or the one after a question.
pub admitted :
    (u : ℕ) (c : Claims) (r : Revoker)
    → ((admit u c r).0 ≡ r) ⊎ ((admit u c r).0 ≡ (is_revoked u c.jwt_id r).0)
unfolding admit
admitted u c r = elim (Bool-cases (ltb_ℤ c.expires_at (pos (unix u)))) [
  | inl e ↦ inl (rw e refl)
  | inr e ↦ elim (Bool-cases (c.issuer == token_issuer)) [
    | inr i ↦ inl (rw (e, i) refl)
    | inl i ↦ elim (Bool-cases (c.jwt_id == "")) [
      | inl j ↦ inl (rw (e, i, j) refl)
      | inr j ↦ elim (Bool-cases (is_revoked u c.jwt_id r).1) [
        | inl g ↦ inr (rw (e, i, j, g) refl)
        | inr g ↦ inr (rw (e, i, j, g) refl)
      ]
    ]
  ]
]

pub secret_of_parse :
    (crypto : Crypto) (u : ℕ) (token : String) (m : TokenManager)
    → (parse crypto u token m).0.secret ≡ m.secret
unfolding parse
secret_of_parse crypto u token m = elim (Result-cases (verified_claims crypto m.secret token)) [
  | inr (x, v) ↦ rw (parse, v) refl
  | inl (c, v) ↦ rw (parse, v) refl
]

pub secret_of_revoke :
    (crypto : Crypto) (works : Bool) (u : ℕ) (token : String) (m : TokenManager)
    → (revoke_token crypto works u token m).0.secret ≡ m.secret
unfolding revoke_token
secret_of_revoke crypto works u token m =
    elim (Result-cases (verified_claims crypto m.secret token)) [
      | inr (x, v) ↦ rw (revoke_token, v) refl
      | inl (c, v) ↦ elim (revoke_cases works u c m) [
        | inl (x, k) ↦ rw (revoke_token, v, k) refl
        | inr (at, z, t, j, inl (x, k)) ↦ rw (revoke_token, v, k) refl
        | inr (at, z, t, j, inr (store, w, k)) ↦ rw (revoke_token, v, k) refl
      ]
    ]
