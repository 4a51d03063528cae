-- ===== src/Auth/Access/Laws.antt =====
-- Which requests reach a handler that asks for a role.
use open_data_analysis.Common.{
  ℕ, ◌≤◌, String, true, false, ◌||◌, ◌==◌, none, some, leb, ok, ◌≡◌, ◌≢◌, ◌↔◌, refl, arith,
  Bool-cases, Option-cases, Result-cases, inl, inr, subst, ne_test, ne_of_test,
}
use open_data_analysis.Auth.Token.{Identity, TokenManager, Crypto, parse}
use open_data_analysis.Auth.Access.{
  role_weight, has_min_role, served, Request, token_of, Members, require_workspace_role, middleware,
}

-- A member of its workspace with a role of at least the weight asked for.
abbrev pub IsEntitled : Members → String → Identity → Type 0
IsEntitled members min i =
    (i.user_id ≢ "")
    × (i.workspace_id ≢ "")
    × ((role : String) × (members i.workspace_id i.user_id ≡ some (some role))
        × (role_weight min ≤ role_weight role))

let_through :
    (members : Members) (min : String) (i : Identity)
    → IsEntitled members min i
    → require_workspace_role members min i ≡ served i
unfolding require_workspace_role has_min_role
let_through members min i (u, w, (role, k, l)) =
    let named : (i.user_id == "" || i.workspace_id == "") ≡ false =
      ground (arith, ne_test i.user_id "" u, ne_test i.workspace_id "" w) in
    let enough : leb (role_weight min) (role_weight role) ≡ true = ground arith in
    rw (named, k, enough) refl

entitled :
    (members : Members) (min : String) (j i : Identity)
    → require_workspace_role members min j ≡ served i
    → (j ≡ i) × IsEntitled members min j
unfolding require_workspace_role has_min_role
entitled members min j i h = elim (Bool-cases (j.user_id == "" || j.workspace_id == "")) [
  | inl b ↦ absurd (ground (arith, h))
  | inr b ↦ elim (Option-cases (members j.workspace_id j.user_id)) [
    | inl k ↦ absurd (ground (arith, h))
    | inr (none, k) ↦ absurd (ground (arith, h))
    | inr (some role, k) ↦ elim (Bool-cases (leb (role_weight min) (role_weight role))) [
      | inr l ↦ absurd (ground (arith, h))
      | inl l ↦ (
        ground (arith, h),
        (
          ne_of_test j.user_id "" (ground arith),
          ne_of_test j.workspace_id "" (ground arith),
          (role, k, ground arith),
        ),
      )
    ]
  ]
]

-- A request reaches a handler behind the authentication and a required role, with an identity, just
-- when it carries a token that is parsed to that identity and the identity is a member of its
-- workspace with a role of at least the weight of the required one.
pub served_iff :
    (crypto : Crypto) (lower : String → String) (now : ℕ) (members : Members) (min : String)
    (r : Request) (m : TokenManager) (i : Identity)
    → ((middleware crypto lower now (require_workspace_role members min) r m).1 ≡ served i) ↔ (
        (token_of lower r ≢ "")
        × ((parse crypto now (token_of lower r) m).1 ≡ ok i)
        × IsEntitled members min i)
unfolding middleware
served_iff crypto lower now members min r m i = (
  λ h. elim (Bool-cases (token_of lower r == "")) [
    | inl b ↦ absurd (ground (arith, h))
    | inr b ↦ elim (Result-cases (parse crypto now (token_of lower r) m).1) [
      | inr (x, p) ↦ absurd (ground (arith, h, p))
      | inl (j, p) ↦
          let go : require_workspace_role members min j ≡ served i = ground (arith, h, p) in
          let (same, e) = entitled members min j i go in
          (
            ne_of_test (token_of lower r) "" b,
            subst (λ x. (parse crypto now (token_of lower r) m).1 ≡ ok x) same p,
            subst (IsEntitled members min) same e,
          )
    ]
  ],
  λ (t, p, e). rw (ne_test (token_of lower r) "" t, p) (let_through members min i e),
)
