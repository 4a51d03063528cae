-- ===== src/Agent/ChildAgents.antt =====
-- The delegated conversations of a session (server/agent/child_agents.go). The clock and the fresh
-- id are arguments; a conversation item is a text.
pub mod Laws
use open_data_analysis.Common.{
  ℕ, zero, suc, String, Option, none, some, List, [], ◌∷◌, ◌++◌, Dict, lookup, insert, remove,
  length, ltb, if◌then◌else◌, Result, ok, err,
}

pub record ChildAgent : Type 0 where
  pub id : String
  pub role_name : String
  pub policy_appendix : String
  pub allowed_tools : List String
  pub goal_id : String
  pub history : List String
  pub last_result : String
  pub created_at : ℕ
  pub updated_at : ℕ

-- `ChildAgentRegistry`.
pub record Registry : Type 0 where
  pub agents : Dict ChildAgent
  pub order : List String

pub data RegistryError : Type 0 where
  unknown_subagent : String → RegistryError

-- `maxRetainedChildren`.
abbrev pub max_retained_children : ℕ
max_retained_children = 16

-- The loop of `evictLocked`, over the order that it shortens.
unfoldable pub drop_oldest : Dict ChildAgent → List String → Registry
drop_oldest agents [] = record { agents = agents; order = [] }
drop_oldest agents (id ∷ ids) =
    let rest = drop_oldest (remove id agents) ids in
    if ltb max_retained_children (length (id ∷ ids))
    then rest
    else record { agents = agents; order = id ∷ ids }

-- `Create`; the first component is the registry with the conversation.
unfoldable pub create :
    String
    → ℕ
    → (role_name policy_appendix : String) → List String
    → String
    → Registry
    → Registry × ChildAgent
create id now role_name policy_appendix allowed_tools goal_id r =
    let child : ChildAgent = record {
      id = id;
      role_name = role_name;
      policy_appendix = policy_appendix;
      allowed_tools = allowed_tools;
      goal_id = goal_id;
      history = [];
      last_result = "";
      created_at = now;
      updated_at = now;
    } in
    (drop_oldest (insert id child r.agents) (r.order ++ id ∷ []), child)

-- `Get`.
unfoldable pub get : String → Registry → Result RegistryError ChildAgent
get id r = elim (lookup id r.agents) [ none ↦ err (unknown_subagent id) | some c ↦ ok c ]

-- `Save`.
unfoldable pub save : String → List String → String → ℕ → Registry → Registry
save id history result now r = elim (lookup id r.agents) [
  | none ↦ r
  | some c ↦ record r {
    agents =
        insert id (record c { history = history; last_result = result; updated_at = now }) r.agents;
  }
]
