-- ===== src/Auth/Revocation/Laws.antt =====
-- What the denylist answers: an id is revoked until its expiry, whatever happens to other ids.
use open_data_analysis.Common.{
  ℕ, ◌≤◌, ◌<◌, String, true, false, ◌||◌, ◌==◌, ◌≡◌, ◌≢◌, refl, sym, some, [], ◌∷◌, leb, Dict,
  lookup, lookup-insert, arith, eq_iff, eq_refl, ne_test,
}
use open_data_analysis.Auth.Revocation.{Revoker, unexpired, revoke, is_revoked}

pub lookup-unexpired :
    (now : ℕ) (jti : String) (at : ℕ) (entries : Dict ℕ)
    → lookup jti entries ≡ some at
    → now < at
    → lookup jti (unexpired now entries) ≡ some at
unfolding lookup unexpired
lookup-unexpired now jti at [] h l = absurd (ground arith)
lookup-unexpired now jti at ((j, t) ∷ entries) h l =
    ground (arith, lookup-unexpired now jti at entries, eq_iff j jti)

-- An id that is listed with an expiry to come is revoked, and listed after the question.
pub listed :
    (now : ℕ) (jti : String) (at : ℕ) (r : Revoker)
    → jti ≢ ""
    → lookup jti r.revoked ≡ some at
    → now < at
    → is_revoked now jti r ≡ (r, true)
unfolding is_revoked
listed now jti at r n h l =
    let before : leb at now ≡ false = ground arith in rw (ne_test jti "" n, h, before) refl

-- The answer is negative once the expiry has passed.
pub expired :
    (now : ℕ) (jti : String) (at : ℕ) (r : Revoker)
    → lookup jti r.revoked ≡ some at
    → at ≤ now
    → (is_revoked now jti r).1 ≡ false
unfolding is_revoked
expired now jti at r h l = ground arith

-- Revoking an id lists it, and keeps every other id that has not expired.
pub revoke_lists :
    (now : ℕ) (jti : String) (at : ℕ) (r : Revoker)
    → jti ≢ ""
    → now < at
    → (lookup jti (revoke now jti at r).revoked ≡ some at)
      × ((other : String) (t : ℕ)
          → other ≢ jti
          → lookup other r.revoked ≡ some t
          → now < t
          → lookup other (revoke now jti at r).revoked ≡ some t)
unfolding revoke
revoke_lists now jti at r n l =
    let fresh : (jti == "" || leb at now) ≡ false = ground (arith, eq_iff jti "") in
    (
      rw (fresh, lookup-insert jti jti at (unexpired now r.revoked), eq_refl jti) refl,
      λ other t d h e.
          rw
            (
              fresh,
              lookup-insert jti other at (unexpired now r.revoked),
              ne_test jti other (λ q. d (sym q)),
            )
            (lookup-unexpired now other t r.revoked h e),
    )
