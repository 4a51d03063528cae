-- ===== src/Agent/Compaction.antt =====
-- Compaction of a history (server/agent/compaction.go, and `adjustCompactionBoundary` of engine.go).
-- The summary that a model writes is an argument.
pub mod Boundary
pub mod Laws
use open_data_analysis.Common.{
  ℕ, zero, suc, ◌+◌, ◌-◌, String, Bool, true, false, not, ◌&&◌, ◌||◌, ◌==◌, Option, none, some,
  List, [], ◌∷◌, ◌++◌, length, take, drop, get_elem?, leb, ltb, eqb, is_blank, if◌then◌else◌,
}
use open_data_analysis.Agent.History.{ConversationItem, is_tool, asks, nonempty}

-- The fields of `Engine` that compaction works on.
pub record Engine : Type 0 where
  pub history : List ConversationItem
  pub history_summary : String
  pub omitted_history_messages : ℕ

-- `recentContextWindow`.
abbrev pub recent_context_window : ℕ
recent_context_window = 12

abbrev pub is_user : ConversationItem → Bool
is_user x = x.role == "user"

-- `pinnedHistoryItems`.
unfoldable pub pinned_history_items : List ConversationItem → ℕ
pinned_history_items [] = 0
pinned_history_items (x ∷ xs) =
    let rest = pinned_history_items xs in
    if is_user x then 1 else if asks x then 0 else (elim rest [ zero ↦ 0 | suc n ↦ suc (suc n) ])

abbrev pub holds : (ConversationItem → Bool) → Option ConversationItem → Bool
holds p none = false
holds p (some x) = p x

-- The results at the front, of the first `n` items.
unfoldable pub count_results : ℕ → List ConversationItem → ℕ
count_results zero xs = 0
count_results (suc n) [] = 0
count_results (suc n) (x ∷ xs) = let rest = count_results n xs in if is_tool x then suc rest else 0

-- A message after which a history may be cut: of the user, or of the assistant without calls.
abbrev pub is_turn : ConversationItem → Bool
is_turn x = is_user x || (x.role == "assistant" && not (nonempty x.tool_calls))

-- The loop over `k`, for `n` rounds down from `k - 1`: the index after the turn that it finds.
unfoldable pub turn_before : List ConversationItem → ℕ → ℕ → Option ℕ
turn_before h zero k = none
turn_before h (suc n) zero = none
turn_before h (suc n) (suc k) = elim (holds is_turn (get_elem? h k)) [
  | true ↦ some (suc k)
  | false ↦ turn_before h n k
]

-- The loop over `i`, down from `i - 1`: the last message below that asks for tools.
unfoldable pub owner_before : List ConversationItem → ℕ → Option (ℕ × ConversationItem)
owner_before h zero = none
owner_before h (suc i) = elim (get_elem? h i) [
  | none ↦ owner_before h i
  | some x ↦ elim (asks x) [ true ↦ some (i, x) | false ↦ owner_before h i ]
]

-- Where the results of the message at `i` are not all there, the cut goes before its turn.
unfoldable pub boundary_at : List ConversationItem → ℕ → ConversationItem → ℕ
boundary_at h i x =
    if ltb (count_results (length x.tool_calls) (drop (suc i) h)) (length x.tool_calls)
    then (elim (turn_before h 5 i) [ none ↦ i | some k ↦ k ])
    else i

-- `adjustCompactionBoundary`.
unfoldable pub adjust_compaction_boundary : List ConversationItem → ℕ → ℕ
adjust_compaction_boundary h b =
    if eqb b 0 || leb (length h) b
    then b
    else if holds is_tool (get_elem? h b)
    then (elim (owner_before h b) [ none ↦ b | some (i, x) ↦ boundary_at h i x ])
    else b

-- `selectCompactionSpan`: the span, its length and the pinned items.
unfoldable pub select_compaction_span : Engine → List ConversationItem × ℕ × ℕ
select_compaction_span e =
    let pinned = pinned_history_items e.history in
    let boundary =
      adjust_compaction_boundary e.history (length e.history - recent_context_window) in
    if leb (length e.history) (recent_context_window + pinned)
    then ([], 0, pinned)
    else if leb boundary pinned
    then ([], 0, pinned)
    else (take (boundary - pinned) (drop pinned e.history), boundary - pinned, pinned)

-- `applyCompaction`; both counts are never negative here.
unfoldable pub apply_compaction : ℕ → ℕ → String → Engine → Engine
apply_compaction count pinned summary e =
    if eqb count 0 || ltb (length e.history) (pinned + count)
    then e
    else if is_blank summary
    then record e {
      history = take pinned e.history ++ drop (pinned + count) e.history;
      omitted_history_messages = e.omitted_history_messages + count;
    }
    else record e {
      history = take pinned e.history ++ drop (pinned + count) e.history;
      history_summary = summary;
    }

-- The summary that is applied: "" when the request for it failed.
abbrev pub text_of : Option String → String
text_of none = ""
text_of (some s) = s

-- The compaction in `prepareRequestBundle`, once the prompt is too large: the engine after it, and
-- the counts of the checkpoint when there is one. The summary is none when the request for it
-- failed.
unfoldable pub compact : Option String → Engine → Engine × Option (ℕ × ℕ)
compact summary e =
    let (span, shadowed, pinned) = select_compaction_span e in
    if ltb 0 shadowed
    then (apply_compaction shadowed pinned (text_of summary) e, some (shadowed, pinned))
    else (e, none)
