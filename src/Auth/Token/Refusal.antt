-- ===== src/Auth/Token/Refusal.antt =====
-- A revoked token is refused until its expiry, through later requests and restarts.
use open_data_analysis.Common.{
  ℕ, ◌+◌, ◌≤◌, ◌*◌, ◌<◌, String, Bool, ok, err, ◌≡◌, ◌≢◌, inl, inr, refl, sym, ap, subst, ◌∙◌,
  arith,
}
use open_data_analysis.Auth.Revocation.Laws.{listed, expired, revoke_lists}
use open_data_analysis.Auth.Store.{second, unix}
use open_data_analysis.Auth.Token.{
  Identity, Claims, TokenManager, Crypto, claims_of, sign, verified_claims, parse, revoke_claims,
  revoke_token, token_revoked,
}
use open_data_analysis.Auth.Token.Laws.{
  IsCrypto, verified_claims-sign, admit_live, admit_gone, claims_due, issued, identity_of-claims_of,
  parse-sign,
}
use open_data_analysis.Auth.Token.Cases.{revoke_cases, denying}
use open_data_analysis.Auth.Token.Denial.{
  IsDenied, Later, unix_before, IsDenied-Later, Later-secret, stored,
}

module _ (crypto : Crypto) (law : IsCrypto crypto) where
  -- What a successful revocation of a signed token leaves.
  IsDenied-revoke_token :
      (jti : String) (now ttl : ℕ) (m n n' : TokenManager) (identity : Identity) (works : Bool)
      (u : ℕ)
      → n.secret ≡ m.secret
      → revoke_token crypto works u (sign crypto jti now ttl m identity) n ≡ (n', ok tt)
      → (jti ≢ "") × IsDenied jti (unix (now + ttl)) n' × (n'.secret ≡ m.secret)
  unfolding claims_of revoke_token
  IsDenied-revoke_token jti now ttl m n n' identity works u s h =
      let c : Claims = claims_of jti now ttl identity in
      let v : verified_claims crypto n.secret (sign crypto jti now ttl m identity) ≡ ok c =
        rw s (verified_claims-sign crypto law jti now ttl m identity) in
      let run : revoke_claims works u c n ≡ (n', ok tt) =
        subst (λ r. r ≡ (n', ok tt)) (rw (revoke_token, v) refl) h in
      elim (revoke_cases works u c n) [
        | inl (x, k) ↦ absurd (ground (arith, k, run))
        | inr (at, z, t, j, inl (x, k)) ↦ absurd (ground (arith, k, run))
        | inr (at, z, t, j, inr (store, w, k)) ↦
            let at_expiry : at ≡ unix (now + ttl) = ground (arith, z) in
            let now_there : record (denying u c at n) { store = store } ≡ n' =
              ground (arith, k, run) in
            subst (λ r. (jti ≢ "") × IsDenied jti (unix (now + ttl)) r × (r.secret ≡ m.secret))
              now_there
              (
                j,
                (
                  rw (sym at_expiry) (revoke_lists u jti (at * second) n.revoker j (omega arith)).0,
                  stored jti (unix (now + ttl)) works jti at n.store store (λ o. absurd (o refl))
                      (λ q. at_expiry) w,
                ),
                s,
              )
      ]

  -- A token that a manager has signed and revoked with success is refused as revoked until the
  -- second of its expiry begins, whatever tokens are parsed or revoked in between and however often
  -- the manager is replaced by one that loads the table; the other tokens that are revoked must not
  -- have its id with another expiry.
  pub refused_until_expiry :
      (jti : String) (now ttl : ℕ) (m n n' k : TokenManager) (identity : Identity) (works : Bool)
      (u v t : ℕ)
      → n.secret ≡ m.secret
      → revoke_token crypto works u (sign crypto jti now ttl m identity) n ≡ (n', ok tt)
      → Later crypto jti (unix (now + ttl)) u n' v k
      → v ≤ t
      → t < unix (now + ttl) * second
      → (parse crypto t (sign crypto jti now ttl m identity) k).1 ≡ err token_revoked
  unfolding claims_of
  refused_until_expiry jti now ttl m n n' k identity works u v t s h p le l =
      let (j, d, same_secret) = IsDenied-revoke_token jti now ttl m n n' identity works u s h in
      let denied = IsDenied-Later jti (unix (now + ttl)) crypto u v n' k p d (omega arith) in
      let key : k.secret ≡ m.secret =
        Later-secret crypto jti (unix (now + ttl)) u v n' k p ∙ same_secret in
      ap (λ q. q.1) (parse-sign crypto law jti now ttl m k identity t key)
      ∙ admit_gone t (claims_of jti now ttl identity) k.revoker
          (claims_due crypto law jti now ttl identity t
            (omega (arith, unix_before t (unix (now + ttl)) l)))
          (issued crypto law jti now ttl identity) j
          (ap (λ q. q.1) (listed t jti (unix (now + ttl) * second) k.revoker j denied.0 l))

  -- In the second of its expiry a revoked token is accepted: the denylist lets an entry go when that
  -- second begins, and the check of the expiry refuses a token only when it is over.
  pub accepted_in_last_second :
      (jti : String) (now ttl : ℕ) (m n n' : TokenManager) (identity : Identity) (works : Bool)
      (u t : ℕ)
      → n.secret ≡ m.secret
      → revoke_token crypto works u (sign crypto jti now ttl m identity) n ≡ (n', ok tt)
      → unix t ≡ unix (now + ttl)
      → (parse crypto t (sign crypto jti now ttl m identity) n').1 ≡ ok identity
  unfolding claims_of
  accepted_in_last_second jti now ttl m n n' identity works u t s h q =
      let (j, d, key) = IsDenied-revoke_token jti now ttl m n n' identity works u s h in
      ap (λ q. q.1) (parse-sign crypto law jti now ttl m n' identity t key)
      ∙ admit_live t (claims_of jti now ttl identity) n'.revoker
          (claims_due crypto law jti now ttl identity t (omega arith))
          (issued crypto law jti now ttl identity)
          (expired t jti (unix (now + ttl) * second) n'.revoker d.0 (omega arith))
      ∙ ap ok (identity_of-claims_of crypto law jti now ttl identity)
