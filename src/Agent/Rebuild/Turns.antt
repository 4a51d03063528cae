-- ===== src/Agent/Rebuild/Turns.antt =====
-- How the events of one turn of the engine (server/agent/engine.go `Run`, server/handler/
-- runtime_events.go `saveEventToDBSync`) are folded back.
use open_data_analysis.Common.{
  ℕ, ◌+◌, ◌*◌, String, false, ◌==◌, Option, none, some, List, [], ◌∷◌, ◌++◌, ◌≡◌, refl, sym, ap,
  ◌∙◌, arith, length, map, All, is_blank, if◌then◌else◌, ok, append-nil, append_assoc, Bool-cases,
  eq_iff, inl, inr,
}
use open_data_analysis.Agent.History.{ConversationItem, ToolCall}
use open_data_analysis.Agent.Rebuild.{
  RunMessage, Codec, HistoryFolder, message, result_item, pending_or_new, flush, pending_tool_call,
  tool_call_id_or, consume, consume_all,
}

-- A call that the engine executes, with the result it gives.
pub record ExecutedCall : Type 0 where
  pub call : ToolCall
  pub result : String

-- What is stored for an event: the id and the time are those of the message.
module _ (id run_id : String) (at : ℕ) where
  abbrev pub stored : (type_name name : String) → Option String → String → RunMessage
  stored type_name name call_id content = record {
    id = id;
    run_id = run_id;
    type_name = type_name;
    name = name;
    tool_call_id = call_id;
    content = content;
    created_at = at;
  }

  -- The loop over a batch: each call is announced, executed and answered in turn.
  unfoldable pub batch_events : List ExecutedCall → List RunMessage
  batch_events [] = []
  batch_events (c ∷ cs) =
      stored "tool_call" c.call.name (some c.call.id) c.call.arguments
      ∷ stored "tool_result" c.call.name (some c.call.id) c.result
      ∷ batch_events cs

  -- The events of a turn that asks for tools.
  unfoldable pub turn_events : String → List ExecutedCall → List RunMessage
  turn_events content cs =
      if content == ""
      then batch_events cs
      else stored "assistant_status" "" none content ∷ batch_events cs

module _ (codec : Codec) where
  -- What the engine appends to its history for such a turn.
  unfoldable pub turn_items : String → List ExecutedCall → List ConversationItem
  turn_items content cs =
      record (message "assistant" content) { tool_calls = map (λ c. c.call) cs }
      ∷ map (λ c. result_item (codec.tool_result c.call.name c.result) c.call.id "") cs

  -- One assistant message for each call, each with its result.
  unfoldable pub split_turn : String → List ExecutedCall → List ConversationItem
  split_turn content [] = []
  split_turn content (c ∷ cs) =
      record (message "assistant" content) { tool_calls = c.call ∷ [] }
      ∷ result_item (codec.tool_result c.call.name c.result) c.call.id c.call.name
      ∷ split_turn "" cs

  length-split_turn :
      (content : String) (cs : List ExecutedCall) → length (split_turn content cs) ≡ 2 * length cs
  unfolding split_turn
  length-split_turn content [] = refl
  length-split_turn content (c ∷ cs) = omega (arith, length-split_turn "" cs)

  length-map-items :
      (cs : List ExecutedCall)
      → length (map (λ c. result_item (codec.tool_result c.call.name c.result) c.call.id "") cs)
        ≡ length cs
  length-map-items [] = refl
  length-map-items (c ∷ cs) = omega (arith, length-map-items cs)

  module _ (id run_id : String) (at : ℕ) where
    batch_folds :
        (cs : List ExecutedCall) (content : String) (p : Option ConversationItem)
        (f : HistoryFolder)
        → All (λ c. is_blank c.call.id ≡ false) cs
        → pending_or_new p ≡ message "assistant" content
        → (cs ≡ [] → p ≡ none)
        → consume_all codec (batch_events id run_id at cs) (record f { pending = p })
          ≡ ok (record f { pending = none; items = f.items ++ split_turn content cs })
    unfolding batch_events split_turn consume_all consume pending_tool_call tool_call_id_or flush
    batch_folds [] content p f a s n = rw (n refl, append-nil f.items) refl
    batch_folds (c ∷ cs) content p f a s n =
        let asked : ConversationItem = record (message "assistant" content) {
          tool_calls = c.call ∷ [];
        } in
        let given : ConversationItem =
          result_item (codec.tool_result c.call.name c.result) c.call.id c.call.name in
        let ih =
          batch_folds cs "" none (record f { items = (f.items ++ asked ∷ []) ++ given ∷ [] }) a.1
            refl (λ e. refl) in
        let flat : ((f.items ++ asked ∷ []) ++ given ∷ []) ++ split_turn "" cs
            ≡ f.items ++ asked ∷ given ∷ split_turn "" cs =
          append_assoc (f.items ++ asked ∷ []) (given ∷ []) (split_turn "" cs)
          ∙ append_assoc f.items (asked ∷ []) (given ∷ split_turn "" cs) in
        elim (Bool-cases (is_blank content)) [
          | inl b ↦ rw (a.0, s, b) (rw (sym flat) ih)
          | inr b ↦ rw (a.0, s, b) (rw (sym flat) ih)
        ]

    -- The events of a turn with at least one call, each with an id, fold to one assistant message
    -- for each call, with its result after it: 2 items for each call, where the engine's own history
    -- has 1 and one more for each call. A folder with a pending message is flushed before, when the
    -- turn has a text; without a text the folder must have none.
    pub turn_folds :
        (content : String) (c : ExecutedCall) (cs : List ExecutedCall) (f : HistoryFolder)
        → All (λ c. is_blank c.call.id ≡ false) (c ∷ cs)
        → (content ≡ "" → f.pending ≡ none)
        → (consume_all codec (turn_events id run_id at content (c ∷ cs)) f
            ≡ ok (record (flush f) {
              pending = none;
              items = (flush f).items ++ split_turn content (c ∷ cs);
            }))
          × (length (split_turn content (c ∷ cs)) ≡ 2 * length (c ∷ cs))
          × (length (turn_items content (c ∷ cs)) ≡ 1 + length (c ∷ cs))
    unfolding turn_events turn_items consume_all consume flush
    turn_folds content c cs f a n = (
      elim (Bool-cases (content == "")) [
        | inl e ↦
            let blank : content ≡ "" = ground (arith, eq_iff content "") in
            rw (e, n blank)
              (batch_folds (c ∷ cs) content none f a (ap (message "assistant") (sym blank))
                (λ q. refl))
        | inr e ↦ rw e (
            batch_folds (c ∷ cs) content (some (message "assistant" content)) (flush f) a refl
              (λ q. absurd (ground arith)))
      ],
      length-split_turn content (c ∷ cs),
      omega (arith, length-map-items (c ∷ cs)),
    )
