-- ===== src/Agent/Rebuild.antt =====
-- Rebuilding the history of a session from its stored events (server/agent/history_rebuild.go).
-- What the JSON decoder and encoder give, and the bounding of an oversized result, are parameters.
pub mod Laws
pub mod Turns
use open_data_analysis.Common.{
  ℕ, zero, suc, ◌+◌, ◌-◌, String, Bool, true, false, not, ◌&&◌, ◌||◌, ◌==◌, Option, none, some,
  List, [], ◌∷◌, ◌++◌, length, take, drop, leb, ltb, is_blank, trim_space, if◌then◌else◌, Result,
  ok, err, ◌>>=◌, ◌>>◌,
}
use open_data_analysis.Common.Int.{ℤ, pos, negsuc}
use open_data_analysis.Agent.History.{ConversationItem, ToolCall, nonempty, repair_tool_pairing}
use Prim.Native.String.{◌++◌ as ◌^^◌}

-- `domain.RunMessage` (server/domain/message.go), in the fields that are read.
pub record RunMessage : Type 0 where
  pub id : String
  pub run_id : String
  pub type_name : String
  pub name : String
  pub tool_call_id : Option String
  pub content : String
  pub created_at : ℕ

-- `HistoryCompactedData` (server/agent/types.go), in the fields that are read.
pub record HistoryCompactedData : Type 0 where
  pub summary : String
  pub shadowed_items : ℤ
  pub pinned_items : ℤ
  pub method : String

-- A question as it is decoded: its tool call id, and its JSON without that id.
pub record AskUserData : Type 0 where
  pub tool_call_id : String
  pub arguments : String

-- What the functions outside give for a text; none is an error.
pub record Codec : Type 0 where
  pub ask : String → Option AskUserData
  pub ask_result : String → Option String
  pub checkpoint : String → Option HistoryCompactedData
  pub feedback : String → Option String
  pub tool_result : (name raw : String) → String
  pub unrecorded : String → String

pub data FoldError : Type 0 where
  bad_answer : FoldError
  bad_event : (id : String) → FoldError

-- `historyFolder`.
pub record HistoryFolder : Type 0 where
  pub items : List ConversationItem
  pub pending : Option ConversationItem
  pub open_ask_id : String
  pub open_ask_run : String
  pub omitted : ℕ
  pub summary : String

abbrev pub new_folder : HistoryFolder
new_folder = record {
  items = [];
  pending = none;
  open_ask_id = "";
  open_ask_run = "";
  omitted = 0;
  summary = "";
}

abbrev pub message : String → String → ConversationItem
message role content = record {
  role = role;
  content = content;
  tool_calls = [];
  tool_call_id = "";
  tool_call_name = "";
}

abbrev pub result_item : (content id name : String) → ConversationItem
result_item content id name = record {
  role = "tool";
  content = content;
  tool_calls = [];
  tool_call_id = id;
  tool_call_name = name;
}

abbrev pub push : ConversationItem → HistoryFolder → HistoryFolder
push x f = record f { items = f.items ++ x ∷ [] }

abbrev pub push_text : String → String → HistoryFolder → HistoryFolder
push_text role content f = if is_blank content then f else push (message role content) f

-- `flush`.
unfoldable pub flush : HistoryFolder → HistoryFolder
flush f = elim f.pending [
  | none ↦ f
  | some x ↦
      if is_blank x.content && not (nonempty x.tool_calls)
      then record f { pending = none }
      else record f { pending = none; items = f.items ++ x ∷ [] }
]

abbrev pending_or_new : Option ConversationItem → ConversationItem
pending_or_new none = message "assistant" ""
pending_or_new (some x) = x

-- `pendingToolCall`.
unfoldable pub pending_tool_call : String → String → String → HistoryFolder → HistoryFolder
pending_tool_call id name arguments f =
    let x = pending_or_new f.pending in
    record f {
      pending = some (record x {
        tool_calls = x.tool_calls ++ record { id = id; name = name; arguments = arguments } ∷ [];
      });
    }

-- `toolCallIDOr`.
unfoldable pub tool_call_id_or : RunMessage → String → String
tool_call_id_or m prefix = elim m.tool_call_id [
  | none ↦ prefix ^^ m.id
  | some id ↦ if is_blank id then prefix ^^ m.id else id
]

abbrev pub ask_id : RunMessage → String → String
ask_id m id = if id == "" then "ask_" ^^ m.id else id

-- A count that is negative or larger than the bound counts as 0.
abbrev pub within : ℕ → ℤ → ℕ
within bound (negsuc n) = 0
within bound (pos n) = if ltb bound n then 0 else n

-- `applyCompactionCheckpoint`, on the decoded data.
unfoldable pub apply_compaction_checkpoint : HistoryCompactedData → HistoryFolder → HistoryFolder
apply_compaction_checkpoint point f0 =
    let f = flush f0 in
    let pinned = within (length f.items) point.pinned_items in
    let shadowed = within (length f.items - pinned) point.shadowed_items in
    let items = take pinned f.items ++ drop (pinned + shadowed) f.items in
    if point.method == "summary" && not (is_blank point.summary)
    then record f { items = items; summary = point.summary }
    else record f { items = items; omitted = f.omitted + shadowed }

-- The checkpoint that `prepareRequestBundle` emits after a compaction.
abbrev pub emitted : Option String → (shadowed pinned : ℕ) → HistoryCompactedData
emitted none shadowed pinned = record {
  summary = "";
  shadowed_items = pos shadowed;
  pinned_items = pos pinned;
  method = "trim";
}
emitted (some s) shadowed pinned = record {
  summary = s;
  shadowed_items = pos shadowed;
  pinned_items = pos pinned;
  method = "summary";
}

-- `sort.SliceStable` by `CreatedAt`: a message goes before the ones that are not earlier.
unfoldable pub insert_stable : RunMessage → List RunMessage → List RunMessage
insert_stable m [] = m ∷ []
insert_stable m (x ∷ xs) =
    let rest = insert_stable m xs in if ltb x.created_at m.created_at then x ∷ rest else m ∷ x ∷ xs

unfoldable pub sort_stable : List RunMessage → List RunMessage
sort_stable [] = []
sort_stable (m ∷ ms) = insert_stable m (sort_stable ms)

module _ (codec : Codec) where
  -- The case of a message of the user.
  unfoldable pub consume_user : RunMessage → HistoryFolder → Result FoldError HistoryFolder
  consume_user m f =
      if not (f.open_ask_id == "") && m.run_id == f.open_ask_run
      then (elim (codec.ask_result m.content) [
        | none ↦ err bad_answer
        | some result ↦
            ok (record (push (result_item result f.open_ask_id "user_request_input") (flush f)) {
              open_ask_id = "";
              open_ask_run = "";
            })
      ])
      else ok (push (message "user" m.content) (flush f))

  -- The case of a question that suspends the run.
  unfoldable pub consume_ask : RunMessage → HistoryFolder → Result FoldError HistoryFolder
  consume_ask m f = elim (codec.ask m.content) [
    | none ↦ err (bad_event m.id)
    | some ask ↦
        let id = ask_id m (trim_space ask.tool_call_id) in
        ok (record (flush (pending_tool_call id "user_request_input" ask.arguments f)) {
          open_ask_id = id;
          open_ask_run = m.run_id;
        })
  ]

  -- `consume`.
  unfoldable pub consume : RunMessage → HistoryFolder → Result FoldError HistoryFolder
  consume m f =
      if m.type_name == "user"
      then consume_user m f
      else if m.type_name == "assistant_status"
      then ok (record (flush f) { pending = some (message "assistant" m.content) })
      else if m.type_name == "tool_call"
      then ok (pending_tool_call (tool_call_id_or m "call_") m.name m.content f)
      else if m.type_name == "tool_result"
      then ok (
          push (result_item (codec.tool_result m.name m.content) (tool_call_id_or m "call_") m.name)
            (flush f))
      else if m.type_name == "user_request_input"
      then consume_ask m f
      else if m.type_name == "run_completed"
      then ok (push_text "assistant" m.content (flush f))
      else if m.type_name == "history_compacted"
      then (elim (codec.checkpoint m.content) [
        | none ↦ err (bad_event m.id)
        | some point ↦ ok (apply_compaction_checkpoint point f)
      ])
      else if m.type_name == "system_feedback"
      then (elim (codec.feedback m.content) [
        | none ↦ err (bad_event m.id)
        | some text ↦ ok (push_text "user" text (flush f))
      ])
      else if m.type_name == "error" || m.type_name == "run_cancelled"
      then ok (flush f)
      else ok f

  -- The loop over the messages, from a folder on.
  unfoldable pub consume_all : List RunMessage → HistoryFolder → Result FoldError HistoryFolder
  consume_all [] f = ok f
  consume_all (m ∷ ms) f = elim (consume m f) [ err e ↦ err e | ok g ↦ consume_all ms g ]

  -- `RebuildHistoryFromMessages`: the history, the omitted messages and the summary.
  unfoldable pub rebuild_history_from_messages :
      List RunMessage → Result FoldError (List ConversationItem × ℕ × String)
  rebuild_history_from_messages messages = elim (consume_all (sort_stable messages) new_folder) [
    | err e ↦ err e
    | ok g ↦
        let f = flush g in
        ok (repair_tool_pairing codec.unrecorded f.items f.open_ask_id, f.omitted, f.summary)
  ]
