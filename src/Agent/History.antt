-- ===== src/Agent/History.antt =====
-- The conversation items of the agent (server/agent/prompt_bundle.go, llm_types.go) and the repair
-- of the tool-call protocol (server/agent/history_rebuild.go `repairToolPairing`).
pub mod Protocol
pub mod Repair
use open_data_analysis.Common.{
  ℕ, String, Bool, true, false, not, ◌&&◌, ◌||◌, ◌==◌, Option, none, some, List, [], ◌∷◌, ◌++◌, any,
  if◌then◌else◌,
}

pub record ToolCall : Type 0 where
  pub id : String
  pub name : String
  pub arguments : String

-- The media parts and the reasoning text are carried along by every operation, and left out.
pub record ConversationItem : Type 0 where
  pub role : String
  pub content : String
  pub tool_calls : List ToolCall
  pub tool_call_id : String
  pub tool_call_name : String

abbrev pub nonempty {ℓ} : {A : Type ℓ} → List A → Bool
nonempty [] = false
nonempty (x ∷ xs) = true

abbrev pub is_tool : ConversationItem → Bool
is_tool x = x.role == "tool"

-- An assistant message that asks for tools.
abbrev pub asks : ConversationItem → Bool
asks x = x.role == "assistant" && nonempty x.tool_calls

-- `skipCallID != "" && call.ID == skipCallID`.
abbrev pub skips : String → ToolCall → Bool
skips skip c = not (skip == "") && c.id == skip

abbrev pub answered : List String → ToolCall → Bool
answered ids c = any (λ id. id == c.id) ids

module _ (unrecorded : String → String) where
  -- The result that stands for a call without one; `unrecorded` is `unrecordedToolResult`.
  abbrev pub unknown_result : ToolCall → ConversationItem
  unknown_result c = record {
    role = "tool";
    content = unrecorded c.name;
    tool_calls = [];
    tool_call_id = c.id;
    tool_call_name = c.name;
  }

  -- The results that are added after those with the ids `ids`.
  unfoldable pub missing : String → List String → List ToolCall → List ConversationItem
  missing skip ids [] = []
  missing skip ids (c ∷ cs) =
      let rest = missing skip ids cs in
      if answered ids c || skips skip c then rest else unknown_result c ∷ rest

  -- The calls of the assistant message that has just been copied, and the ids of the results that
  -- follow it so far; none when a result would have no owner.
  abbrev pub opened : ConversationItem → Option (List ToolCall × List String)
  opened x = if asks x then some (x.tool_calls, []) else none

  -- The loops of `repairToolPairing`: the outer one from an item on, and the inner one over the
  -- results after an assistant message.
  unfoldable pub repair_from :
      String → Option (List ToolCall × List String) → List ConversationItem → List ConversationItem
  repair_from skip none [] = []
  repair_from skip (some (calls, ids)) [] = missing skip ids calls
  repair_from skip none (x ∷ xs) = elim (is_tool x) [
    | true ↦ repair_from skip none xs
    | false ↦ x ∷ repair_from skip (opened x) xs
  ]
  repair_from skip (some (calls, ids)) (x ∷ xs) = elim (is_tool x) [
    | true ↦ x ∷ repair_from skip (some (calls, x.tool_call_id ∷ ids)) xs
    | false ↦ missing skip ids calls ++ x ∷ repair_from skip (opened x) xs
  ]

  -- `repairToolPairing`.
  unfoldable pub repair_tool_pairing : List ConversationItem → String → List ConversationItem
  repair_tool_pairing items skip = repair_from skip none items
