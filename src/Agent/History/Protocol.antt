-- ===== src/Agent/History/Protocol.antt =====
-- What the providers ask of a history: a tool result stands only in the run of results after an
-- assistant message that asks for tools, and each of these calls has a result in that run, except
-- the call that the run is suspended on.
use open_data_analysis.Common.{String, Bool, true, false, ◌&&◌, ◌||◌, ◌==◌, List, [], ◌∷◌, ◌≡◌, All}
use open_data_analysis.Agent.History.{ConversationItem, is_tool, asks, skips}

-- A result with this id is in the run of results at the front.
abbrev pub has_result : String → List ConversationItem → Bool
has_result id [] = false
has_result id (x ∷ xs) = is_tool x && (x.tool_call_id == id || has_result id xs)

-- Every call of the message `x`, which the items `xs` follow, is answered or skipped.
abbrev pub IsAnswered : String → ConversationItem → List ConversationItem → Type 0
IsAnswered skip x xs =
    asks x ≡ true → All (λ c. (has_result c.id xs || skips skip c) ≡ true) x.tool_calls

-- The protocol from an item on; `owned` says whether results here belong to a message before.
abbrev pub IsProtocolFrom : String → Bool → List ConversationItem → Type 0
IsProtocolFrom skip owned [] = Unit
IsProtocolFrom skip owned (x ∷ xs) =
    (is_tool x ≡ true → (owned ≡ true) × IsProtocolFrom skip owned xs)
    × (is_tool x ≡ false → IsAnswered skip x xs × IsProtocolFrom skip (asks x) xs)

abbrev pub IsProtocol : String → List ConversationItem → Type 0
IsProtocol skip items = IsProtocolFrom skip false items
