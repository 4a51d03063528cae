-- ===== src/Agent/History/Repair.antt =====
-- The repair gives a history that keeps the protocol, and changes only a history that does not.
use open_data_analysis.Common.{
  String, Bool, true, false, ◌||◌, none, some, List, [], ◌∷◌, ◌++◌, append-nil, ◌∙◌, ◌≡◌, ◌↔◌, refl,
  sym, subst, ap, arith, All, All-map, Bool-cases, inl, inr, eq_refl,
}
use open_data_analysis.Agent.History.{
  ToolCall, ConversationItem, is_tool, asks, skips, answered, unknown_result, missing, opened,
  repair_from, repair_tool_pairing,
}
use open_data_analysis.Agent.History.Protocol.{has_result, IsAnswered, IsProtocolFrom, IsProtocol}

-- Every call has a result among the ids or in the run of results, or is skipped.
abbrev IsCovered : String → List String → List ConversationItem → List ToolCall → Type 0
IsCovered skip ids xs = All (λ c. (answered ids c || (has_result c.id xs || skips skip c)) ≡ true)

module _ (unrecorded : String → String) (skip : String) where
  missing-IsProtocol :
      (ids : List String) (cs : List ToolCall) (zs : List ConversationItem)
      → IsProtocolFrom skip true zs
      → IsProtocolFrom skip true (missing unrecorded skip ids cs ++ zs)
  unfolding missing
  missing-IsProtocol ids [] zs h = h
  missing-IsProtocol ids (c ∷ cs) zs h =
      let ih = missing-IsProtocol ids cs zs h in
      elim (Bool-cases (answered ids c || skips skip c)) [
        | inl e ↦ rw e ih
        | inr e ↦ rw e (λ t. (refl, ih), λ n. absurd (ground arith))
      ]

  missing-IsCovered :
      (ids : List String) (cs : List ToolCall) (zs : List ConversationItem)
      → IsCovered skip ids (missing unrecorded skip ids cs ++ zs) cs
  unfolding missing
  missing-IsCovered ids [] zs = tt
  missing-IsCovered ids (c ∷ cs) zs =
      let ih = missing-IsCovered ids cs zs in
      let rest = missing unrecorded skip ids cs in
      elim (Bool-cases (answered ids c || skips skip c)) [
        | inl e ↦
            let same : rest ≡ missing unrecorded skip ids (c ∷ cs) = rw e refl in
            subst (λ ys. IsCovered skip ids (ys ++ zs) (c ∷ cs)) same (ground arith, ih)
        | inr e ↦
            let added : unknown_result unrecorded c ∷ rest ≡ missing unrecorded skip ids (c ∷ cs) =
              rw e refl in
            subst (λ ys. IsCovered skip ids (ys ++ zs) (c ∷ cs)) added
              (ground (arith, eq_refl c.id), All-map _ _ cs (λ d h. ground arith) ih)
      ]

  head-IsProtocol :
      (x : ConversationItem) (xs : List ConversationItem) (owned : Bool)
      → is_tool x ≡ false
      → IsProtocolFrom skip false (repair_from unrecorded skip none xs)
      → (IsProtocolFrom skip true (repair_from unrecorded skip (some (x.tool_calls, [])) xs)
          × IsCovered skip []
              (repair_from unrecorded skip (some (x.tool_calls, [])) xs)
              x.tool_calls)
      → IsProtocolFrom skip owned (x ∷ repair_from unrecorded skip (opened unrecorded x) xs)
  head-IsProtocol x xs owned n closed (open_run, covered) = elim (Bool-cases (asks x)) [
    | inl e ↦ rw e (λ t. absurd (ground arith), λ f. (λ a. covered, open_run))
    | inr e ↦ rw e (λ t. absurd (ground arith), λ f. (λ a. absurd (ground arith), closed))
  ]

  -- The steps of the loops, as equations.
  tool_closed :
      (x : ConversationItem) (xs : List ConversationItem)
      → is_tool x ≡ true
      → repair_from unrecorded skip none (x ∷ xs) ≡ repair_from unrecorded skip none xs
  unfolding repair_from
  tool_closed x xs e = rw (repair_from, e) refl

  other_closed :
      (x : ConversationItem) (xs : List ConversationItem)
      → is_tool x ≡ false
      → repair_from unrecorded skip none (x ∷ xs)
        ≡ x ∷ repair_from unrecorded skip (opened unrecorded x) xs
  unfolding repair_from
  other_closed x xs e = rw (repair_from, e) refl

  tool_open :
      (calls : List ToolCall) (ids : List String) (x : ConversationItem)
      (xs : List ConversationItem)
      → is_tool x ≡ true
      → repair_from unrecorded skip (some (calls, ids)) (x ∷ xs)
        ≡ x ∷ repair_from unrecorded skip (some (calls, x.tool_call_id ∷ ids)) xs
  unfolding repair_from
  tool_open calls ids x xs e = rw (repair_from, e) refl

  other_open :
      (calls : List ToolCall) (ids : List String) (x : ConversationItem)
      (xs : List ConversationItem)
      → is_tool x ≡ false
      → repair_from unrecorded skip (some (calls, ids)) (x ∷ xs)
        ≡ missing unrecorded skip ids calls
          ++ x ∷ repair_from unrecorded skip (opened unrecorded x) xs
  unfolding repair_from
  other_open calls ids x xs e = rw (repair_from, e) refl

  abbrev IsOpen : List ToolCall → List String → List ConversationItem → Type 0
  IsOpen calls ids ys = IsProtocolFrom skip true ys × IsCovered skip ids ys calls

  missing-IsOpen :
      (calls : List ToolCall) (ids : List String) (zs : List ConversationItem)
      → IsProtocolFrom skip true zs
      → IsOpen calls ids (missing unrecorded skip ids calls ++ zs)
  missing-IsOpen calls ids zs h =
      (missing-IsProtocol ids calls zs h, missing-IsCovered ids calls zs)

  tool-IsOpen :
      (calls : List ToolCall) (ids : List String) (x : ConversationItem)
      (ys : List ConversationItem)
      → is_tool x ≡ true
      → IsOpen calls (x.tool_call_id ∷ ids) ys
      → IsOpen calls ids (x ∷ ys)
  tool-IsOpen calls ids x ys e (p, c) =
      ((λ t. (refl, p), λ n. absurd (ground arith)), All-map _ _ calls (λ d h. ground arith) c)

  -- The outer loop, and the inner one with any calls and ids.
  repaired :
      (xs : List ConversationItem)
      → IsProtocolFrom skip false (repair_from unrecorded skip none xs)
        × ((calls : List ToolCall) (ids : List String)
            → IsOpen calls ids (repair_from unrecorded skip (some (calls, ids)) xs))
  unfolding repair_from
  repaired [] =
      (tt, λ calls ids. subst (IsOpen calls ids) (append-nil _) (missing-IsOpen calls ids [] tt))
  repaired (x ∷ xs) =
      let (closed, open_run) = repaired xs in
      elim (Bool-cases (is_tool x)) [
        | inl e ↦ (
          subst (IsProtocolFrom skip false) (sym (tool_closed x xs e)) closed,
          λ calls ids.
              subst (IsOpen calls ids) (sym (tool_open calls ids x xs e))
                (tool-IsOpen calls ids x _ e (open_run calls (x.tool_call_id ∷ ids))),
        )
        | inr e ↦ (
          subst (IsProtocolFrom skip false) (sym (other_closed x xs e))
              (head-IsProtocol x xs false e closed (open_run x.tool_calls [])),
          λ calls ids. subst (IsOpen calls ids) (sym (other_open calls ids x xs e)) (
              missing-IsOpen calls ids _
                (head-IsProtocol x xs true e closed (open_run x.tool_calls []))),
        )
      ]

  none_missing :
      (ids : List String) (cs : List ToolCall)
      → All (λ c. (answered ids c || skips skip c) ≡ true) cs
      → missing unrecorded skip ids cs ≡ []
  unfolding missing
  none_missing ids [] h = refl
  none_missing ids (c ∷ cs) (h, hs) = rw h (none_missing ids cs hs)

  kept_after :
      (x : ConversationItem) (xs : List ConversationItem)
      → (IsProtocolFrom skip false xs → repair_from unrecorded skip none xs ≡ xs)
      → (IsOpen x.tool_calls [] xs → repair_from unrecorded skip (some (x.tool_calls, [])) xs ≡ xs)
      → IsAnswered skip x xs × IsProtocolFrom skip (asks x) xs
      → repair_from unrecorded skip (opened unrecorded x) xs ≡ xs
  kept_after x xs closed open_run (answers, p) = elim (Bool-cases (asks x)) [
    | inl a ↦ rw a (open_run (subst (λ o. IsProtocolFrom skip o xs) a p, answers a))
    | inr a ↦ rw a (closed (subst (λ o. IsProtocolFrom skip o xs) a p))
  ]

  -- A history that keeps the protocol is left as it is.
  kept :
      (xs : List ConversationItem)
      → (IsProtocolFrom skip false xs → repair_from unrecorded skip none xs ≡ xs)
        × ((calls : List ToolCall) (ids : List String)
            → IsOpen calls ids xs
            → repair_from unrecorded skip (some (calls, ids)) xs ≡ xs)
  unfolding repair_from
  kept [] = (λ h. refl, λ calls ids h. none_missing ids calls h.1)
  kept (x ∷ xs) =
      let (closed, open_run) = kept xs in
      elim (Bool-cases (is_tool x)) [
        | inl e ↦ (
          λ h. absurd (ground (arith, h.0 e)),
          λ calls ids h.
              tool_open calls ids x xs e
              ∙ ap (λ ys. x ∷ ys)
                  (open_run calls (x.tool_call_id ∷ ids)
                    ((h.0.0 e).1, All-map _ _ calls (λ d g. ground arith) h.1)),
        )
        | inr e ↦ (
          λ h.
              other_closed x xs e
              ∙ ap (λ ys. x ∷ ys) (kept_after x xs closed (open_run x.tool_calls []) (h.1 e)),
          λ calls ids h.
              other_open calls ids x xs e
              ∙ ap (λ ms. ms ++ x ∷ repair_from unrecorded skip (opened unrecorded x) xs)
                  (none_missing ids calls (All-map _ _ calls (λ d g. ground arith) h.1))
              ∙ ap (λ ys. x ∷ ys) (kept_after x xs closed (open_run x.tool_calls []) (h.0.1 e)),
        )
      ]

-- The repair gives a history that keeps the protocol: results stand only after a message that asks
-- for tools, and every call but the skipped one has a result there.
pub repair_tool_pairing-IsProtocol :
    (unrecorded : String → String) (items : List ConversationItem) (skip : String)
    → IsProtocol skip (repair_tool_pairing unrecorded items skip)
unfolding repair_tool_pairing
repair_tool_pairing-IsProtocol unrecorded items skip = (repaired unrecorded skip items).0

-- A history keeps the protocol exactly when the repair leaves it as it is.
pub repair_tool_pairing-eq_iff :
    (unrecorded : String → String) (items : List ConversationItem) (skip : String)
    → IsProtocol skip items ↔ (repair_tool_pairing unrecorded items skip ≡ items)
unfolding repair_tool_pairing
repair_tool_pairing-eq_iff unrecorded items skip = (
  (kept unrecorded skip items).0,
  λ e. subst (IsProtocol skip) e (repaired unrecorded skip items).0,
)
