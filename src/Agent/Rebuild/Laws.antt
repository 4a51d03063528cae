-- ===== src/Agent/Rebuild/Laws.antt =====
-- The rebuilt history follows the protocol, and a checkpoint replays the compaction of the engine.
use open_data_analysis.Common.{
  ℕ, ◌+◌, ◌-◌, ◌≤◌, ◌<◌, String, false, ◌||◌, Option, none, some, List, ◌≡◌, refl, sym, subst, ◌∙◌,
  arith, length, ltb, eqb, is_blank, trim_space, Bool-cases, inl, inr, ok, Result-cases,
}
use open_data_analysis.Common.Int.{pos}
use open_data_analysis.Agent.History.{ConversationItem, repair_tool_pairing}
use open_data_analysis.Agent.History.Protocol.{IsProtocol}
use open_data_analysis.Agent.History.Repair.{
  repair_tool_pairing-IsProtocol, repair_tool_pairing-eq_iff,
}
use open_data_analysis.Agent.Compaction.{
  Engine, recent_context_window, text_of, apply_compaction, compact,
}
use open_data_analysis.Agent.Compaction.Laws.{compact_cases, boundary_of, pinned_of}
use open_data_analysis.Agent.Compaction.Boundary.{adjust_compaction_boundary-IsClean}
use open_data_analysis.Agent.Rebuild.{
  RunMessage, Codec, HistoryFolder, flush, apply_compaction_checkpoint, consume_all,
  rebuild_history_from_messages, sort_stable, new_folder, emitted, within,
}

within_bound : (b n : ℕ) → n ≤ b → within b (pos n) ≡ n
within_bound b n l = let go : ltb b n ≡ false = ground arith in rw go refl

-- The folder that agrees with an engine.
abbrev pub of_engine : Engine → HistoryFolder → HistoryFolder
of_engine e f = record f {
  items = e.history;
  summary = e.history_summary;
  omitted = e.omitted_history_messages;
  pending = none;
}

replays :
    (summary : Option String) (count pinned : ℕ) (e : Engine) (f : HistoryFolder)
    → 0 < count
    → pinned + count ≤ length e.history
    → flush f ≡ of_engine e f
    → apply_compaction_checkpoint (emitted summary count pinned) f
      ≡ of_engine (apply_compaction count pinned (text_of summary) e) f
unfolding apply_compaction_checkpoint apply_compaction trim_space
replays none count pinned e f c l g =
    let guard : (eqb count 0 || ltb (length e.history) (pinned + count)) ≡ false = ground arith in
    let p : within (length e.history) (pos pinned) ≡ pinned =
      within_bound (length e.history) pinned (omega arith) in
    let q : within (length e.history - pinned) (pos count) ≡ count =
      within_bound (length e.history - pinned) count (omega arith) in
    rw (g, guard, p, q) refl
replays (some s) count pinned e f c l g =
    let guard : (eqb count 0 || ltb (length e.history) (pinned + count)) ≡ false = ground arith in
    let p : within (length e.history) (pos pinned) ≡ pinned =
      within_bound (length e.history) pinned (omega arith) in
    let q : within (length e.history - pinned) (pos count) ≡ count =
      within_bound (length e.history - pinned) count (omega arith) in
    elim (Bool-cases (is_blank s)) [
      | inl b ↦ rw (g, guard, p, q, b) refl
      | inr b ↦ rw (g, guard, p, q, b) refl
    ]

-- For an engine whose history keeps the protocol of tool calls: a folder that, once flushed, holds
-- the engine's history, summary and count of omitted messages holds those of the engine after a
-- compaction when it has read the checkpoint that the compaction leaves, whether the summary was
-- written or its request failed.
pub checkpoint_replays :
    (skip : String) (summary : Option String) (e e' : Engine) (shadowed pinned : ℕ)
    (f : HistoryFolder)
    → IsProtocol skip e.history
    → compact summary e ≡ (e', some (shadowed, pinned))
    → flush f ≡ of_engine e f
    → apply_compaction_checkpoint (emitted summary shadowed pinned) f ≡ of_engine e' f
checkpoint_replays skip summary e e' shadowed pinned f p c g = elim (compact_cases summary e) [
  | inl k ↦ absurd (ground arith)
  | inr (k, l, b) ↦
      let (clean, le) =
        adjust_compaction_boundary-IsClean skip e.history (length e.history - recent_context_window)
          p in
      let same : boundary_of e - pinned_of e ≡ shadowed = ground arith in
      let at : pinned_of e ≡ pinned = ground arith in
      let new : apply_compaction (boundary_of e - pinned_of e) (pinned_of e) (text_of summary) e
          ≡ e' =
        ground arith in
      rw (sym same, sym at, sym new)
        (replays summary (boundary_of e - pinned_of e) (pinned_of e) e f (omega arith) (omega arith)
          g)
]

-- When the events of a session can be folded, the rebuilt history follows the protocol of tool
-- calls, with at most the question that is still open left unanswered; and it is the folded history
-- itself when that follows the protocol.
pub rebuild-IsProtocol :
    (codec : Codec) (messages : List RunMessage) (items : List ConversationItem) (omitted : ℕ)
    (summary : String)
    → rebuild_history_from_messages codec messages ≡ ok (items, omitted, summary)
    → (f : HistoryFolder) × (consume_all codec (sort_stable messages) new_folder ≡ ok f)
      × IsProtocol (flush f).open_ask_id items
      × (IsProtocol (flush f).open_ask_id (flush f).items → items ≡ (flush f).items)
unfolding rebuild_history_from_messages
rebuild-IsProtocol codec messages items omitted summary h =
    elim (Result-cases (consume_all codec (sort_stable messages) new_folder)) [
      | inr (e, k) ↦ absurd (ground (arith, k))
      | inl (f, k) ↦
          let same : repair_tool_pairing codec.unrecorded (flush f).items (flush f).open_ask_id
              ≡ items =
            ground (arith, k) in
          (
            f,
            k,
            subst (λ xs. IsProtocol (flush f).open_ask_id xs) same
                (repair_tool_pairing-IsProtocol codec.unrecorded (flush f).items
                  (flush f).open_ask_id),
            λ p.
                sym same
                ∙ (repair_tool_pairing-eq_iff codec.unrecorded (flush f).items
                      (flush f).open_ask_id).0
                    p,
          )
    ]
