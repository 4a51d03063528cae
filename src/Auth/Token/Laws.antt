-- ===== src/Auth/Token/Laws.antt =====
-- A signed token comes back as its identity, until it expires or is revoked.
use Prim.Native.Char.{char, code}
use Prim.Native.String.{◌++◌ as ◌^^◌}
use text.Mathlib.TextLemmas.{nil-append, cons-append}
use open_data_analysis.Common.{
  ℕ, ◌+◌, ◌≤◌, ◌<◌, String, true, false, ◌==◌, none, some, [], ◌∷◌, eqb, lookup, ok, err, ◌≡◌, ◌≢◌,
  inl, inr, refl, ap, ◌∙◌, arith, Bool-cases, eq_refl, ne_test,
}
use open_data_analysis.Common.Int.{pos, ltb_ℤ}
use open_data_analysis.Auth.Revocation.{Revoker, is_revoked}
use open_data_analysis.Auth.Store.{unix}
use open_data_analysis.Auth.Token.{
  Identity, Claims, TokenManager, Crypto, split_parts, split_dots, has_dot, claims_of, sign,
  verified_claims, identity_of, admit, parse, token_expired, token_revoked, token_issuer,
}

-- What the functions outside promise: what is encoded can be decoded, and no encoding has a dot.
abbrev pub IsCrypto : Crypto → Type 0
IsCrypto crypto =
    ((s : String) → crypto.decode (crypto.encode s) ≡ some s)
    × ((c : Claims) → crypto.unmarshal (crypto.marshal c) ≡ some c)
    × ((s : String) → has_dot (crypto.encode s) ≡ false)
    × ((key s : String) → has_dot (crypto.mac key s) ≡ false)

whole : (s : String) → has_dot s ≡ false → split_parts s ≡ (s, [])
unfolding split_parts has_dot
whole String.[] h = refl
whole (String.◌∷◌ c s) h =
    let no : eqb (code c) 46 ≡ false = ground arith in rw (no, whole s (ground arith)) refl

cut :
    (a b : String)
    → has_dot a ≡ false
    → has_dot b ≡ false
    → split_parts (a ^^ "." ^^ b) ≡ (a, b ∷ [])
unfolding split_parts has_dot
cut String.[] b h k =
    rw (nil-append ("." ^^ b), cons-append (char 46 tt) "" b, nil-append b, whole b k) refl
cut (String.◌∷◌ c a) b h k =
    let no : eqb (code c) 46 ≡ false = ground arith in
    rw (cons-append c a ("." ^^ b), no, cut a b (ground arith) k) refl

split :
    (a b : String) → has_dot a ≡ false → has_dot b ≡ false → split_dots (a ^^ "." ^^ b) ≡ a ∷ b ∷ []
unfolding split_dots
split a b h k = rw (cut a b h k) refl

pub admit_late :
    (t : ℕ) (c : Claims) (r : Revoker)
    → ltb_ℤ c.expires_at (pos (unix t)) ≡ true
    → (admit t c r).1 ≡ err token_expired
unfolding admit
admit_late t c r e = rw e refl

pub admit_live :
    (t : ℕ) (c : Claims) (r : Revoker)
    → ltb_ℤ c.expires_at (pos (unix t)) ≡ false
    → c.issuer ≡ token_issuer
    → (is_revoked t c.jwt_id r).1 ≡ false
    → (admit t c r).1 ≡ ok (identity_of c)
unfolding admit
admit_live t c r e i g = elim (Bool-cases (c.jwt_id == "")) [
  | inl j ↦ rw (e, i, j) refl
  | inr j ↦ rw (e, i, j, g) refl
]

pub admit_gone :
    (t : ℕ) (c : Claims) (r : Revoker)
    → ltb_ℤ c.expires_at (pos (unix t)) ≡ false
    → c.issuer ≡ token_issuer
    → c.jwt_id ≢ ""
    → (is_revoked t c.jwt_id r).1 ≡ true
    → (admit t c r).1 ≡ err token_revoked
unfolding admit
admit_gone t c r e i j g = rw (e, i, ne_test c.jwt_id "" j, g) refl

absent :
    (t : ℕ) (jti : String) (r : Revoker)
    → lookup jti r.revoked ≡ none
    → (is_revoked t jti r).1 ≡ false
unfolding is_revoked
absent t jti r n = ground arith

module _ (crypto : Crypto) (law : IsCrypto crypto) where
  -- The claims that are signed are the ones that are verified, under the same secret.
  pub verified_claims-sign :
      (jti : String) (now ttl : ℕ) (m : TokenManager) (identity : Identity)
      → verified_claims crypto m.secret (sign crypto jti now ttl m identity)
        ≡ ok (claims_of jti now ttl identity)
  unfolding verified_claims sign
  verified_claims-sign jti now ttl m identity =
      let payload : String = crypto.encode (crypto.marshal (claims_of jti now ttl identity)) in
      rw
        (
          sign,
          verified_claims,
          split payload (crypto.mac m.secret payload)
              (law.2 (crypto.marshal (claims_of jti now ttl identity))) (law.3 m.secret payload),
          eq_refl (crypto.mac m.secret payload),
          law.0 (crypto.marshal (claims_of jti now ttl identity)),
          law.1 (claims_of jti now ttl identity),
        )
        refl

  pub identity_of-claims_of :
      (jti : String) (now ttl : ℕ) (i : Identity) → identity_of (claims_of jti now ttl i) ≡ i
  unfolding claims_of
  identity_of-claims_of jti now ttl i = elim (Bool-cases (i.user_id == "")) [
    | inl e ↦ rw e refl
    | inr e ↦ rw e refl
  ]

  pub claims_due :
      (jti : String) (now ttl : ℕ) (i : Identity) (t : ℕ)
      → unix t ≤ unix (now + ttl)
      → ltb_ℤ (claims_of jti now ttl i).expires_at (pos (unix t)) ≡ false
  unfolding claims_of
  claims_due jti now ttl i t l = ground arith

  pub claims_over :
      (jti : String) (now ttl : ℕ) (i : Identity) (t : ℕ)
      → unix (now + ttl) < unix t
      → ltb_ℤ (claims_of jti now ttl i).expires_at (pos (unix t)) ≡ true
  unfolding claims_of
  claims_over jti now ttl i t l = ground arith

  pub issued :
      (jti : String) (now ttl : ℕ) (i : Identity) → (claims_of jti now ttl i).issuer ≡ token_issuer
  unfolding claims_of
  issued jti now ttl i = refl

  -- Where the claims are admitted, the answer depends on the expiry and on the denylist alone.
  pub parse-sign :
      (jti : String) (now ttl : ℕ) (m m' : TokenManager) (identity : Identity) (t : ℕ)
      → m'.secret ≡ m.secret
      → parse crypto t (sign crypto jti now ttl m identity) m' ≡ (
        record m' { revoker = (admit t (claims_of jti now ttl identity) m'.revoker).0 },
        (admit t (claims_of jti now ttl identity) m'.revoker).1,
      )
  unfolding parse
  parse-sign jti now ttl m m' identity t s =
      let v : verified_claims crypto m'.secret (sign crypto jti now ttl m identity)
          ≡ ok (claims_of jti now ttl identity) =
        rw s (verified_claims-sign jti now ttl m identity) in
      rw (parse, v) refl

  -- A token that a manager signs is read back as the identity it was signed for, by any manager with
  -- the same secret whose denylist does not have its id, up to the second of its expiry; after that
  -- second it is refused as expired.
  pub parse_signed :
      (jti : String) (now ttl : ℕ) (m m' : TokenManager) (identity : Identity) (t : ℕ)
      → m'.secret ≡ m.secret
      → lookup jti m'.revoker.revoked ≡ none
      → (unix t ≤ unix (now + ttl)
          → (parse crypto t (sign crypto jti now ttl m identity) m').1 ≡ ok identity)
        × (unix (now + ttl) < unix t
            → (parse crypto t (sign crypto jti now ttl m identity) m').1 ≡ err token_expired)
  unfolding claims_of
  parse_signed jti now ttl m m' identity t s n = (
    λ l.
        ap (λ q. q.1) (parse-sign jti now ttl m m' identity t s)
        ∙ admit_live t (claims_of jti now ttl identity) m'.revoker
            (claims_due jti now ttl identity t l) (issued jti now ttl identity)
            (absent t jti m'.revoker n)
        ∙ ap ok (identity_of-claims_of jti now ttl identity),
    λ l.
        ap (λ q. q.1) (parse-sign jti now ttl m m' identity t s)
        ∙ admit_late t (claims_of jti now ttl identity) m'.revoker
            (claims_over jti now ttl identity t l),
  )
