-- ===== src/Auth/Limits.antt =====
-- The limits on requests (server/handler/ratelimit.go): the address a request is counted under and
-- the limiters by key. The package `net`, the trusted networks' `Contains` and the limiters of
-- golang.org/x/time/rate are parameters; the white space of `strings.TrimSpace` is the model's.
pub mod Laws
use Prim.Native.Char.{code}
use Prim.Native.String.{◌++◌ as ◌^^◌}
use Prim.Native.String
use open_data_analysis.Common.{
  ℕ, String, Bool, true, false, not, ◌||◌, ◌==◌, Option, none, some, List, [], ◌∷◌, ◌++◌, map, any,
  Dict, lookup, insert, remove, ltb, eqb, trim_space, is_blank, if◌then◌else◌,
}

-- `net.ParseIP` and the `String` of an address, and `Contains` of a network.
pub record Addresses (Ip Net : Type 0) : Type 0 where
  pub parse : String → Option Ip
  pub print : Ip → String
  pub contains : Net → Ip → Bool

-- A request as the limits see it: the remote host, as `net.SplitHostPort` gives it or else the
-- trimmed remote address, and the two headers of a proxy.
pub record Request : Type 0 where
  pub host : String
  pub forwarded_for : String
  pub real_ip : String

-- The text up to the first comma, and the parts after it.
unfoldable pub comma_parts : String → String × List String
comma_parts String.[] = ("", [])
comma_parts (String.◌∷◌ c s) =
    let (part, parts) = comma_parts s in
    if eqb (code c) 44 then ("", part ∷ parts) else (String.◌∷◌ c part, parts)

unfoldable pub split_forwarded_for : String → List String
split_forwarded_for value =
    let (part, parts) = comma_parts value in
    if is_blank value then [] else map trim_space (part ∷ parts)

module _ {Ip Net : Type 0} (a : Addresses Ip Net) (cidrs : List Net) where
  unfoldable pub is_trusted_proxy : Ip → Bool
  is_trusted_proxy ip = any (λ net. a.contains net ip) cidrs

  -- The loop over the entries, from the last to the first; `none` when all are trusted.
  unfoldable pub nearest : (peer : Ip) → (entries : List String) → Option String
  nearest peer [] = none
  nearest peer (entry ∷ entries) = elim (nearest peer entries) [
    | some ip ↦ some ip
    | none ↦ elim (a.parse entry) [
      | none ↦ some (a.print peer)
      | some ip ↦ if is_trusted_proxy ip then none else some (a.print ip)
    ]
  ]

  -- `X-Real-IP`, which is read when no entry answered.
  unfoldable pub real_address : (peer : Ip) → (real_ip : String) → String
  real_address peer real_ip = elim (a.parse (trim_space real_ip)) [
    | none ↦ a.print peer
    | some ip ↦ if is_blank real_ip then a.print peer else a.print ip
  ]

  -- What is answered when all the entries are trusted: the first one, or without entries the other
  -- header.
  unfoldable pub farthest : (peer : Ip) → (entries : List String) → (real_ip : String) → String
  farthest peer [] real_ip = real_address peer real_ip
  farthest peer (first ∷ entries) real_ip = elim (a.parse first) [
    | some ip ↦ a.print ip
    | none ↦ real_address peer real_ip
  ]

  unfoldable pub get_client_ip : Request → String
  get_client_ip r = elim (a.parse r.host) [
    | none ↦ r.host
    | some peer ↦
        let entries = split_forwarded_for r.forwarded_for in
        if not (is_trusted_proxy peer)
        then a.print peer
        else elim (nearest peer entries) [ some ip ↦ ip | none ↦ farthest peer entries r.real_ip ]
  ]

-- The key of a request by user: the identity's, if there is one with a user id, else its address.
unfoldable pub user_key : (address : String) → (identity : Option (String × String)) → String
user_key address none = address
user_key address (some (user, workspace)) = if user == "" then address else user ^^ ":" ^^ workspace

pub record ClientLimiter (L : Type 0) : Type 0 where
  pub limiter : L
  pub last_seen : ℕ

module _ {L : Type 0} (fresh : L) (allows : ℕ → L → L × Bool) where
  -- The limiter under the key, a fresh one if there is none.
  unfoldable pub get_limiter : String → Dict (ClientLimiter L) → L
  get_limiter key m = elim (lookup key m) [ none ↦ fresh | some item ↦ item.limiter ]

  -- A request at a time: its limiter is asked, kept, and seen; the answer is whether it is served.
  unfoldable pub limit :
      (now : ℕ) → (key : String) → Dict (ClientLimiter L) → Dict (ClientLimiter L) × Bool
  limit now key m =
      let (left, served) = allows now (get_limiter key m) in
      (insert key (record { limiter = left; last_seen = now }) m, served)

-- A round of the clean-up: the limiters not seen since the cutoff are dropped.
unfoldable pub forget_idle :
    {L : Type 0} → (cutoff : ℕ) → Dict (ClientLimiter L) → Dict (ClientLimiter L)
forget_idle cutoff [] = []
forget_idle cutoff ((key, item) ∷ m) =
    let rest = forget_idle cutoff m in
    if ltb item.last_seen cutoff then rest else (key, item) ∷ rest
