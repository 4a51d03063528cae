-- ===== src/Auth/Token/Denial.antt =====
-- The denial of a token id is kept by what happens to a manager (server/auth/token.go).
use open_data_analysis.Common.{
  ℕ, ◌*◌, ◌≤◌, ◌<◌, String, Bool, false, not, ◌||◌, ◌==◌, Option, none, some, [], ◌∷◌, leb, Dict,
  lookup, insert, lookup-insert, lookup-remove, ok, ◌≡◌, ◌≢◌, inl, inr, refl, sym, ap, subst, ◌∙◌,
  arith, Bool-cases, Option-cases, Result-cases, eq_iff, ne_of_test, is_blank, is_exact,
}
use open_data_analysis.Common.Int.{pos}
use open_data_analysis.Auth.Revocation.{Revoker, unexpired, revoke, is_revoked, replace_all}
use open_data_analysis.Auth.Revocation.Laws.{lookup-unexpired}
use open_data_analysis.Auth.Store.{
  second, unix, create_revoked_token, delete_expired_revoked_tokens, instants,
  list_active_revoked_tokens,
}
use open_data_analysis.Auth.Token.{
  Claims, TokenManager, Crypto, verified_claims, parse, save_revocation, revoke_claims,
  revoke_token, new_token_manager, load_revocations,
}
use open_data_analysis.Auth.Token.Cases.{revoke_cases, admitted, secret_of_parse, secret_of_revoke}

-- The id is on the denylist with the second of its expiry, and in the table if there is one.
abbrev pub IsDenied : String → (expiry : ℕ) → TokenManager → Type 0
IsDenied jti expiry m =
    (lookup jti m.revoker.revoked ≡ some (expiry * second))
    × ((table : Dict ℕ) → m.store ≡ some table → lookup jti table ≡ some expiry)

-- What may happen to a manager that others use: from a time to a later one.
pub data Later (crypto : Crypto) (jti : String) (expiry : ℕ)
    : ℕ → TokenManager → ℕ → TokenManager → Type 0 where
  same : (t : ℕ) (m : TokenManager) → Later crypto jti expiry t m t m
  parsed :
      (t u v : ℕ) (m n : TokenManager) (token : String)
      → Later crypto jti expiry t m u n
      → u ≤ v
      → Later crypto jti expiry t m v (parse crypto v token n).0
  revoked :
      (t u v : ℕ) (m n : TokenManager) (works : Bool) (token : String)
      → Later crypto jti expiry t m u n
      → u ≤ v
      → ((c : Claims)
          → verified_claims crypto n.secret token ≡ ok c
          → c.jwt_id ≡ jti
          → c.expires_at ≡ pos expiry)
      → Later crypto jti expiry t m v (revoke_token crypto works v token n).0
  restarted :
      (t u v : ℕ) (m n : TokenManager) (table : Dict ℕ)
      → Later crypto jti expiry t m u n
      → u ≤ v
      → n.store ≡ some table
      → Later crypto jti expiry t m v (load_revocations v (new_token_manager n.secret n.store))

pub unix_before : (t e : ℕ) → t < e * second → unix t < e
unix_before t e l = omega (arith)

unix-second : (e : ℕ) → unix (e * second) ≡ e
unix-second e = omega (arith)

lookup-instants :
    (jti : String) (e : ℕ) (rows : Dict ℕ)
    → lookup jti rows ≡ some e
    → lookup jti (instants rows) ≡ some (e * second)
unfolding instants lookup
lookup-instants jti e [] h = absurd (ground arith)
lookup-instants jti e ((j, a) ∷ rows) h = elim (Bool-cases (j == jti)) [
  | inl q ↦ let same_row : a ≡ e = ground arith in rw (q, same_row) refl
  | inr q ↦ rw q (lookup-instants jti e rows (ground arith))
]

module _ (jti : String) (e : ℕ) where
  asked :
      (u : ℕ) (other : String) (r : Revoker)
      → lookup jti r.revoked ≡ some (e * second)
      → u < e * second
      → lookup jti (is_revoked u other r).0.revoked ≡ some (e * second)
  unfolding is_revoked
  asked u other r h l = elim (Bool-cases (other == "")) [
    | inl b ↦ rw b h
    | inr b ↦ elim (Option-cases (lookup other r.revoked)) [
      | inl o ↦ rw (b, o) h
      | inr (at, o) ↦ elim (Bool-cases (leb at u)) [
        | inr p ↦ rw (b, o, p) h
        | inl p ↦
            let apart : (other == jti) ≡ false = ground (arith, eq_iff other jti) in
            rw (b, o, p, lookup-remove other jti r.revoked, apart) h
      ]
    ]
  ]

  listed_again :
      (u : ℕ) (other : String) (at : ℕ) (r : Revoker)
      → lookup jti r.revoked ≡ some (e * second)
      → u < e * second
      → (other ≡ jti → at ≡ e * second)
      → lookup jti (revoke u other at r).revoked ≡ some (e * second)
  unfolding revoke
  listed_again u other at r h l s = elim (Bool-cases (other == "" || leb at u)) [
    | inl b ↦ rw b h
    | inr b ↦ elim (Bool-cases (other == jti)) [
      | inl q ↦
          rw
            (
              b,
              lookup-insert other jti at (unexpired u r.revoked),
              q,
              s (ground (arith, eq_iff other jti)),
            )
            refl
      | inr q ↦
          rw (b, lookup-insert other jti at (unexpired u r.revoked), q)
            (lookup-unexpired u jti (e * second) r.revoked h l)
    ]
  ]

  pub stored :
      (works : Bool) (other : String) (n : ℕ) (store after : Option (Dict ℕ))
      → (other ≢ jti → (table : Dict ℕ) → store ≡ some table → lookup jti table ≡ some e)
      → (other ≡ jti → n ≡ e)
      → save_revocation works other (n * second) store ≡ ok after
      → (table : Dict ℕ) → after ≡ some table
      → lookup jti table ≡ some e
  unfolding save_revocation create_revoked_token
  stored works other n none after h s k table q = absurd (ground arith)
  stored works other n (some rows) after h s k table q = elim (Bool-cases works) [
    | inr w ↦ absurd (ground (arith, k))
    | inl w ↦ elim (Bool-cases (is_blank other || not (is_exact other))) [
      | inl b ↦ absurd (ground (arith, k))
      | inr b ↦
          let row : insert other (unix (n * second)) rows ≡ table = ground (arith, k, q) in
          rw (sym row, lookup-insert other jti (unix (n * second)) rows)
            (elim (Bool-cases (other == jti)) [
              | inl o ↦ rw (o, unix-second n, s (ground (arith, eq_iff other jti))) refl
              | inr o ↦ rw o (h (ne_of_test other jti o) rows refl)
            ])
    ]
  ]

  IsDenied-revoke_claims :
      (works : Bool) (u : ℕ) (c : Claims) (m : TokenManager)
      → IsDenied jti e m
      → u < e * second
      → (c.jwt_id ≡ jti → c.expires_at ≡ pos e)
      → IsDenied jti e (revoke_claims works u c m).0
  IsDenied-revoke_claims works u c m d l s = elim (revoke_cases works u c m) [
    | inl (x, k) ↦ rw k d
    | inr (at, z, t, j, rest) ↦
        let same_expiry : c.jwt_id ≡ jti → at ≡ e = λ q. ground (arith, s q) in
        let kept : lookup jti (revoke u c.jwt_id (at * second) m.revoker).revoked
            ≡ some (e * second) =
          listed_again u c.jwt_id (at * second) m.revoker d.0 l
            (λ q. ap (λ n. n * second) (same_expiry q)) in
        elim rest [
          | inl (x, k) ↦ rw k (kept, d.1)
          | inr (store, w, k) ↦
              rw k (kept, stored works c.jwt_id at m.store store (λ o. d.1) same_expiry w)
        ]
  ]

  IsDenied-load_revocations :
      (u : ℕ) (m : TokenManager) (table : Dict ℕ)
      → IsDenied jti e m
      → u < e * second
      → m.store ≡ some table
      → IsDenied jti e (load_revocations u (new_token_manager m.secret m.store))
  unfolding load_revocations delete_expired_revoked_tokens list_active_revoked_tokens replace_all
  IsDenied-load_revocations u m table d l k =
      let first : lookup jti (unexpired (unix u) table) ≡ some e =
        lookup-unexpired (unix u) jti e table (d.1 table k) (unix_before u e l) in
      let twice : lookup jti (unexpired (unix u) (unexpired (unix u) table)) ≡ some e =
        lookup-unexpired (unix u) jti e (unexpired (unix u) table) first (unix_before u e l) in
      rw k (
        lookup-unexpired u jti (e * second)
            (instants (unexpired (unix u) (unexpired (unix u) table)))
            (lookup-instants jti e (unexpired (unix u) (unexpired (unix u) table)) twice) l,
        λ rows q. subst (λ r. lookup jti r ≡ some e) (ground (arith, q)) first,
      )

  IsDenied-parse :
      (crypto : Crypto) (u : ℕ) (token : String) (m : TokenManager)
      → IsDenied jti e m
      → u < e * second
      → IsDenied jti e (parse crypto u token m).0
  unfolding parse
  IsDenied-parse crypto u token m d l =
      elim (Result-cases (verified_claims crypto m.secret token)) [
        | inr (x, v) ↦ rw (parse, v) d
        | inl (c, v) ↦
            rw (parse, v)
              (
                elim (admitted u c m.revoker) [
                  | inl r ↦ rw r d.0
                  | inr r ↦ rw r (asked u c.jwt_id m.revoker d.0 l)
                ],
                d.1,
              )
      ]

  -- An id that is denied stays so until its expiry, whatever happens to the manager.
  pub IsDenied-Later :
      (crypto : Crypto) (t u : ℕ) (m n : TokenManager)
      → Later crypto jti e t m u n
      → IsDenied jti e m
      → u < e * second
      → IsDenied jti e n
  unfolding revoke_token
  IsDenied-Later crypto _ _ _ _ (same t m) d l = d
  IsDenied-Later crypto _ _ _ _ (parsed t u v m n token p le) d l =
      IsDenied-parse crypto v token n (IsDenied-Later crypto t u m n p d (omega arith)) l
  IsDenied-Later crypto _ _ _ _ (revoked t u v m n works token p le s) d l =
      elim (Result-cases (verified_claims crypto n.secret token)) [
        | inr (x, w) ↦ rw (revoke_token, w) (IsDenied-Later crypto t u m n p d (omega arith))
        | inl (c, w) ↦
            rw (revoke_token, w)
              (IsDenied-revoke_claims works v c n (IsDenied-Later crypto t u m n p d (omega arith))
                l (s c w))
      ]
  IsDenied-Later crypto _ _ _ _ (restarted t u v m n table p le q) d l =
      IsDenied-load_revocations v n table (IsDenied-Later crypto t u m n p d (omega arith)) l q

-- The secret never changes.
pub Later-secret :
    (crypto : Crypto) (jti : String) (e t u : ℕ) (m n : TokenManager)
    → Later crypto jti e t m u n
    → n.secret ≡ m.secret
unfolding parse revoke_token load_revocations
Later-secret crypto jti e _ _ _ _ (same t m) = refl
Later-secret crypto jti e _ _ _ _ (parsed t u v m n token p le) =
    secret_of_parse crypto v token n ∙ Later-secret crypto jti e t u m n p
Later-secret crypto jti e _ _ _ _ (revoked t u v m n works token p le s) =
    secret_of_revoke crypto works v token n ∙ Later-secret crypto jti e t u m n p
Later-secret crypto jti e _ _ _ _ (restarted t u v m n table p le q) =
    rw q refl ∙ Later-secret crypto jti e t u m n p
