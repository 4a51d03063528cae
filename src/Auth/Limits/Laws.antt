-- ===== src/Auth/Limits/Laws.antt =====
-- The address that a request is counted under (server/handler/ratelimit.go) cannot be chosen by the
-- client.
use open_data_analysis.Common.{
  ℕ, String, Bool, true, false, none, some, inl, inr, List, [], ◌∷◌, ◌++◌, ◌≡◌, refl, sym, ◌∙◌,
  subst, arith, All, Dict, lookup, Bool-cases, lookup-insert, eq_iff, ◌==◌,
}
use open_data_analysis.Auth.Limits.{
  Addresses, Request, ClientLimiter, split_forwarded_for, is_trusted_proxy, nearest, get_client_ip,
  get_limiter, limit,
}

module _ {Ip Net : Type 0} (a : Addresses Ip Net) (cidrs : List Net) where
  -- The entry is the address of a trusted network.
  abbrev IsTrusted : String → Type 0
  IsTrusted entry = (ip : Ip) × (a.parse entry ≡ some ip) × (is_trusted_proxy a cidrs ip ≡ true)

  nearest-trusted :
      (peer : Ip) (hops : List String) → All IsTrusted hops → nearest a cidrs peer hops ≡ none
  unfolding nearest
  nearest-trusted peer [] h = refl
  nearest-trusted peer (hop ∷ hops) ((ip, p, t), h) =
      rw (nearest-trusted peer hops h) (rw p (rw t refl))

  nearest-append :
      (peer : Ip) (forged rest : List String) (found : String)
      → nearest a cidrs peer rest ≡ some found
      → nearest a cidrs peer (forged ++ rest) ≡ some found
  unfolding nearest
  nearest-append peer [] rest found h = h
  nearest-append peer (entry ∷ forged) rest found h =
      rw (nearest-append peer forged rest found h) refl

  nearest_client :
      (peer ip : Ip) (forged : List String) (client : String) (hops : List String)
      → a.parse client ≡ some ip
      → is_trusted_proxy a cidrs ip ≡ false
      → All IsTrusted hops
      → nearest a cidrs peer (forged ++ client ∷ hops) ≡ some (a.print ip)
  unfolding nearest
  nearest_client peer ip forged client hops p u h =
      nearest-append peer forged (client ∷ hops) (a.print ip)
        (rw (nearest-trusted peer hops h) (rw p (rw u refl)))

  -- What the hops are appended to is the last entry, which the peer itself is.
  nearest-peer :
      (peer : Ip) (entries : List String) (host : String)
      → a.parse host ≡ some peer
      → is_trusted_proxy a cidrs peer ≡ true
      → nearest a cidrs peer (entries ++ host ∷ []) ≡ nearest a cidrs peer entries
  unfolding nearest
  nearest-peer peer [] host p t = rw p (rw t refl)
  nearest-peer peer (entry ∷ entries) host p t = rw (nearest-peer peer entries host p t) refl

  counted_under_client :
      (r : Request) (peer ip : Ip) (forged : List String) (client : String) (hops : List String)
      → a.parse r.host ≡ some peer
      → split_forwarded_for r.forwarded_for ++ r.host ∷ [] ≡ forged ++ client ∷ hops
      → a.parse client ≡ some ip
      → is_trusted_proxy a cidrs ip ≡ false
      → All IsTrusted hops
      → get_client_ip a cidrs r ≡ a.print ip
  unfolding get_client_ip
  counted_under_client r peer ip forged client hops q e p u h =
      let entries = split_forwarded_for r.forwarded_for in
      let chain : nearest a cidrs peer (entries ++ r.host ∷ []) ≡ some (a.print ip) =
        subst (λ z. nearest a cidrs peer z ≡ some (a.print ip)) (sym e)
          (nearest_client peer ip forged client hops p u h) in
      elim (Bool-cases (is_trusted_proxy a cidrs peer)) [
        | inl t ↦
            let found : nearest a cidrs peer entries ≡ some (a.print ip) =
              sym (nearest-peer peer entries r.host q t) ∙ chain in
            ground (arith, q, t, found)
        | inr t ↦
            let own : nearest a cidrs peer (entries ++ r.host ∷ []) ≡ some (a.print peer) =
              nearest_client peer peer entries r.host [] q t tt in
            ground (arith, q, t, own, chain)
      ]

-- A request passes a chain of hosts: the entries of its X-Forwarded-For header, each appended by the
-- next host, and last the host that connects. When the chain ends in the host `client`, whose address
-- is in no trusted network, followed by hosts of trusted networks only, the request is served exactly
-- when the limiter under the client's address allows it, whatever the client wrote before its address
-- and in the other header; that limiter is kept as the call left it, and no other one changes.
pub limited_by_client :
    {Ip Net L : Type 0}
    → (a : Addresses Ip Net) (cidrs : List Net) (fresh : L) (allows : ℕ → L → L × Bool)
    → (now : ℕ) (m : Dict (ClientLimiter L)) (other : String)
    → (r : Request) (peer ip : Ip) (forged : List String) (client : String) (hops : List String)
    → a.parse r.host ≡ some peer
    → split_forwarded_for r.forwarded_for ++ r.host ∷ [] ≡ forged ++ client ∷ hops
    → a.parse client ≡ some ip
    → is_trusted_proxy a cidrs ip ≡ false
    → All (IsTrusted a cidrs) hops
    → (a.print ip == other) ≡ false
    → let after = limit fresh allows now (get_client_ip a cidrs r) m in
      let asked = allows now (get_limiter fresh allows (a.print ip) m) in
      (after.1 ≡ asked.1)
      × (lookup (a.print ip) after.0 ≡ some (record { limiter = asked.0; last_seen = now }))
      × (lookup other after.0 ≡ lookup other m)
unfolding limit
limited_by_client a cidrs fresh allows now m other r peer ip forged client hops q e p u h d =
    let left = (allows now (get_limiter fresh allows (a.print ip) m)).0 in
    rw (counted_under_client a cidrs r peer ip forged client hops q e p u h) (
      refl,
      ground (
        arith,
        lookup-insert (a.print ip) (a.print ip) (record { limiter = left; last_seen = now }) m,
        eq_iff (a.print ip) (a.print ip),
      ),
      ground (
        arith,
        d,
        lookup-insert (a.print ip) other (record { limiter = left; last_seen = now }) m,
      ),
    )
