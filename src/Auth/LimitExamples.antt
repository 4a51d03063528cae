-- ===== src/Auth/LimitExamples.antt =====
-- A request through a trusted proxy with a forged entry, and the theorem on its limiter.
use open_data_analysis.Common.{
  ℕ, zero, suc, Bool, true, false, none, some, [], ◌∷◌, ◌≡◌, refl, eqb, ◌==◌, Dict, lookup, insert,
  is_space, trim_left, trim_right, trim_space, if◌then◌else◌,
}
use open_data_analysis.Auth.Limits.{
  Addresses, Request, ClientLimiter, comma_parts, split_forwarded_for, is_trusted_proxy, nearest,
  get_client_ip, real_address, farthest, user_key, get_limiter, limit, forget_idle,
}
use open_data_analysis.Auth.Limits.Laws.{limited_by_client}

-- Opens all that the runs compute with.
limits_run : Unit {0}
unfolding lookup insert is_space trim_left trim_right trim_space comma_parts split_forwarded_for
    is_trusted_proxy nearest get_client_ip real_address farthest user_key get_limiter limit
    forget_idle
limits_run = tt

abbrev addresses : Addresses ℕ ℕ
addresses = record {
  parse = λ s.
      if s == "10.0.0.2"
      then some 2
      else if s == "203.0.113.9"
      then some 9
      else if s == "198.51.100.6"
      then some 6
      else none;
  print = λ ip. if eqb ip 2 then "10.0.0.2" else if eqb ip 9 then "203.0.113.9" else "198.51.100.6";
  contains = λ net ip. eqb net ip;
}

-- As many requests as the limiter has left.
abbrev tokens : ℕ → ℕ → ℕ × Bool
tokens now zero = (0, false)
tokens now (suc n) = (n, true)

abbrev forging : Request
forging = record {
  host = "10.0.0.2";
  forwarded_for = "198.51.100.6, 203.0.113.9";
  real_ip = "198.51.100.6";
}

abbrev limiters : Dict (ClientLimiter ℕ)
limiters =
    ("203.0.113.9", record { limiter = 0; last_seen = 3 })
    ∷ ("u_1:w_1", record { limiter = 5; last_seen = 1 })
    ∷ []

direct_run : get_client_ip addresses [] forging ≡ "10.0.0.2"
unfolding limits_run
direct_run = refl

all_trusted_run : get_client_ip addresses (2 ∷ 9 ∷ 6 ∷ []) forging ≡ "198.51.100.6"
unfolding limits_run
all_trusted_run = refl

real_ip_run :
    get_client_ip addresses (2 ∷ []) (record forging { forwarded_for = " " }) ≡ "198.51.100.6"
unfolding limits_run
real_ip_run = refl

user_run : user_key "10.0.0.2" (some ("u_1", "w_1")) ≡ "u_1:w_1"
unfolding limits_run
user_run = refl

forget_run : forget_idle 3 limiters ≡ ("203.0.113.9", record { limiter = 0; last_seen = 3 }) ∷ []
unfolding limits_run
forget_run = refl

limited_by_client_example :
    let after = limit 10 tokens 7 (get_client_ip addresses (2 ∷ []) forging) limiters in
    (after.1 ≡ false)
    × (lookup "203.0.113.9" after.0 ≡ some (record { limiter = 0; last_seen = 7 }))
    × (lookup "u_1:w_1" after.0 ≡ lookup "u_1:w_1" limiters)
unfolding limits_run
limited_by_client_example =
    limited_by_client addresses (2 ∷ []) 10 tokens 7 limiters "u_1:w_1" forging 2 9
      ("198.51.100.6" ∷ []) "203.0.113.9" ("10.0.0.2" ∷ []) refl refl refl refl
      ((2, refl, refl), tt) refl
