-- ===== src/Agent/Approvals/Traces.antt =====
-- The calls of a session in order, and what holds of its receipts after them
-- (server/agent/engine.go).
use open_data_analysis.Common.{
  ℕ, ◌+◌, ◌≤◌, String, Bool, true, false, some, List, [], ◌∷◌, ◌≡◌, inl, inr, lookup, eq_iff, ok,
  err, arith, Bool-cases, Option-cases, Result-cases, sym, subst, ap, ◌∙◌, trim_space,
}
use open_data_analysis.Tools.Admission.{
  ApprovalRequest, ApprovalGate, allow, decide_request, decide_tool_call,
}
use open_data_analysis.Agent.Approvals.{
  Approvals, ConfirmationReceipt, confirmation_receipt_ttl, check_receipt, verify_approval,
  commit_with_confirmation_receipt, compare_receipt, reset_messages,
}
use open_data_analysis.Agent.Approvals.Answers.{
  Decoders, Decision, authorization_response_approved, provide_ask_user_result,
}
use open_data_analysis.Agent.Approvals.Receipts.{
  Event, answered, committed, Happened, is_issued, is_used, IsSound,
}
use open_data_analysis.Agent.Approvals.Receipts.{shrink-IsSound}
use open_data_analysis.Agent.Approvals.Made.{asked, answers-IsSound}
use open_data_analysis.Agent.Approvals.Commits.{
  lookup-verify_approval, IsTaken, IsCommitted-cases, commits-IsSound, compared,
}

module _ (d : Decoders) where
  -- The sessions, with their events, the time of the last call, and the state after it. A session
  -- starts with no receipts; the ids of receipts are new; what else changes an engine leaves the
  -- receipts alone.
  pub data Session : List Event → ℕ → Approvals → Type 0 where
    opened : (now : ℕ) (a : Approvals) → a.confirmation_receipts ≡ [] → Session [] now a
    elsewhere :
        (es : List Event) (t now : ℕ) (a b : Approvals)
        → Session es t a
        → t ≤ now
        → b.confirmation_receipts ≡ a.confirmation_receipts
        → Session es now b
    answers :
        (es : List Event) (t now : ℕ) (new_id answer actor : String) (a : Approvals)
        → Session es t a
        → t ≤ now
        → is_issued new_id es ≡ false
        → Session
            (answered now new_id answer actor (asked d a) ∷ es)
            now
            (provide_ask_user_result d now new_id answer actor a).0
    verifies :
        (es : List Event) (t now : ℕ) (id : String) (q : ApprovalRequest) (a : Approvals)
        → Session es t a
        → t ≤ now
        → Session es now (verify_approval d.payload_hash now id q a).0
    commits :
        (es : List Event) (t now : ℕ) (id : String) (q : ApprovalRequest) (saves : String → Bool)
        (a : Approvals)
        → Session es t a
        → t ≤ now
        → Session
            (committed now id q (commit_with_confirmation_receipt d.payload_hash now id q saves a).1
              ∷ es)
            now
            (commit_with_confirmation_receipt d.payload_hash now id q saves a).0
    resets :
        (es : List Event) (t now : ℕ) (a : Approvals)
        → Session es t a
        → t ≤ now
        → Session es now (reset_messages a)

  session-IsSound :
      (es : List Event) (now : ℕ) (a : Approvals) → Session es now a → IsSound d es now a
  unfolding is_used lookup
  session-IsSound _ _ _ (opened now a e) = record {
    backed = λ i x m. absurd (ground (arith, e, m));
    spent = λ i x m u. absurd (ground (arith, e, m));
    known = λ i u. absurd (ground (arith, u));
  }
  session-IsSound _ _ _ (elsewhere es t now a b s le e) =
      shrink-IsSound d es t now a b le (λ i r l. ap (λ m. lookup i m) (sym e) ∙ l)
        (session-IsSound es t a s)
  session-IsSound _ _ _ (answers es t now new_id answer actor a s le fresh) =
      answers-IsSound d es t now new_id answer actor a le fresh (session-IsSound es t a s)
  session-IsSound _ _ _ (verifies es t now id q a s le) =
      shrink-IsSound d es t now a (verify_approval d.payload_hash now id q a).0 le
        (λ i r l. lookup-verify_approval d now id q a i r l) (session-IsSound es t a s)
  session-IsSound _ _ _ (commits es t now id q saves a s le) =
      commits-IsSound d es t now id q saves a le (session-IsSound es t a s)
  session-IsSound _ _ _ (resets es t now a s le) =
      shrink-IsSound d es t now a (reset_messages a) le (λ i r l. absurd (ground (arith, l)))
        (session-IsSound es t a s)

  -- The words of an answer that approves exactly what is asked for.
  abbrev pub IsApproval : (answer : String) → ApprovalRequest → Type 0
  IsApproval answer q =
      (r : Decision) × (d.decision answer ≡ some r)
      × (r.response_type ≡ "authorization")
      × (r.authorization_decision ≡ "approve")
      × (r.action ≡ q.action)
      × (r.resource_ref ≡ q.resource_ref)

  approved-IsApproval :
      (answer : String) (q : ApprovalRequest)
      → authorization_response_approved d answer q ≡ ok true
      → IsApproval answer q
  unfolding authorization_response_approved
  approved-IsApproval answer q h = elim (Option-cases (d.decision answer)) [
    | inl n ↦ absurd (ground (arith, h, n))
    | inr (r, n) ↦ (
      r,
      n,
      ground (arith, h, n, eq_iff r.response_type "authorization"),
      ground (arith, h, n, eq_iff r.authorization_decision "approve"),
      ground (arith, h, n, eq_iff r.action q.action),
      ground (arith, h, n, eq_iff r.resource_ref q.resource_ref),
    )
  ]

  -- An actor approved the request with the receipt: at most 30 minutes before, the actor answered a
  -- question for the action and the resource of the request with a decision that approves exactly
  -- these, the payload of the question has the hash of the payload of the request, and no commit
  -- with the receipt succeeded before.
  abbrev pub IsAuthorized : List Event → (now : ℕ) → (id actor : String) → ApprovalRequest → Type 0
  IsAuthorized es now id actor q =
      (is_used id es ≡ false)
      × ((at : ℕ) × (answer hash : String) × (asked : ApprovalRequest) × Happened
            (answered at id answer actor (some asked)) es
          × (at ≤ now)
          × (now ≤ at + confirmation_receipt_ttl)
          × IsApproval answer q
          × (asked.action ≡ q.action)
          × (asked.resource_ref ≡ q.resource_ref)
          × (d.payload_hash asked.payload_json ≡ some hash)
          × (d.payload_hash q.payload_json ≡ some hash))

  taken-IsAuthorized :
      (es : List Event) (t now : ℕ) (id : String) (q : ApprovalRequest) (a : Approvals)
      (r : ConfirmationReceipt)
      → Session es t a
      → t ≤ now
      → IsTaken d now id q a r
      → IsAuthorized es now id r.actor_user_id q
  taken-IsAuthorized es t now id q a r s le (l, c, o, p) =
      let sound = session-IsSound es t a s in
      let (asked, made, ap, ha, ac, re, cr, ex) = sound.backed id r l in
      let (ra, rr, rh) = compared d q r p in
      let (w, dec, rt, rd, wa, wr) = approved-IsApproval r.response_text asked ap in
      (
        ground (arith, sound.spent id r l, c),
        (
          r.created_at,
          r.response_text,
          r.payload_hash,
          asked,
          made,
          omega (arith, cr, le),
          ground (arith, o, ex),
          (w, dec, rt, rd, wa ∙ sym ac ∙ ra, wr ∙ sym re ∙ rr),
          sym ac ∙ ra,
          sym re ∙ rr,
          ha,
          rh,
        ),
      )

  -- In a session, let a commit with a receipt succeed for a request. Then the actor in whose name it
  -- is done approved the request with that receipt: at most 30 minutes before, the actor answered a
  -- question for that action and resource with a decision that approves exactly these, the payload
  -- of the question has the hash of the payload that is committed, and no commit with the receipt
  -- succeeded before.
  pub committed_once_approved :
      (es : List Event) (t now : ℕ) (id actor : String) (q : ApprovalRequest)
      (saves : String → Bool) (a : Approvals)
      → Session es t a
      → t ≤ now
      → (commit_with_confirmation_receipt d.payload_hash now id q saves a).1 ≡ ok actor
      → IsAuthorized es now id actor q
  committed_once_approved es t now id actor q saves a s le h =
      elim (IsCommitted-cases d now id q saves a) [
        | inr (e, k, sub) ↦ absurd (ground (arith, h, k))
        | inl (r, taken, k) ↦
            let e : r.actor_user_id ≡ actor = ground (arith, h, k) in
            subst (λ x. IsAuthorized es now id x q) e
              (taken-IsAuthorized es t now id q a r s le taken)
      ]

  -- The store of approvals that the engine gives to `decide_tool_call`.
  abbrev pub approval_store :
      (now : ℕ) → (receipt_id : String) → ApprovalRequest → Approvals → Approvals × Bool
  approval_store now id q a =
      let (b, r) = verify_approval d.payload_hash now id q a in
      (b, elim r [ ok u ↦ true | err e ↦ false ])

  verified-IsTaken :
      (now : ℕ) (id : String) (q : ApprovalRequest) (a : Approvals)
      → (approval_store now id q a).1 ≡ true
      → (r : ConfirmationReceipt) × IsTaken d now id q a r
  unfolding verify_approval check_receipt
  verified-IsTaken now id q a h = elim (Option-cases (lookup id a.confirmation_receipts)) [
    | inl n ↦ absurd (ground (arith, h, n))
    | inr (r, n) ↦ elim (Result-cases (compare_receipt d.payload_hash q r)) [
      | inl (u, p) ↦ (r, (n, ground (arith, h, n), ground (arith, h, n), p))
      | inr (e, p) ↦ absurd (ground (arith, h, n, p))
    ]
  ]

  -- In a session, let a call of a tool with a gate be allowed. Then the arguments need an
  -- authorization, and some actor approved exactly that request, at most 30 minutes before, with the
  -- receipt that the arguments carry, with which no commit succeeded.
  pub admitted_when_approved :
      (es : List Event) (t now : ℕ) (g : ApprovalGate) (args : String) (a : Approvals)
      → Session es t a
      → t ≤ now
      → (decide_tool_call (approval_store now) (some g) args (some a)).1 ≡ allow
      → (q : ApprovalRequest) × (actor : String) × (g.approval_request args ≡ some q)
        × IsAuthorized es now (trim_space (g.approval_receipt_id args)) actor q
  unfolding decide_tool_call decide_request
  admitted_when_approved es t now g args a s le h = elim (Option-cases (g.approval_request args)) [
    | inl n ↦ absurd (ground (arith, h, n))
    | inr (q, n) ↦
        elim (Bool-cases ((approval_store now (trim_space (g.approval_receipt_id args)) q a).1)) [
          | inr f ↦ absurd (ground (arith, h, n, f))
          | inl v ↦
              let (r, taken) =
                verified-IsTaken now (trim_space (g.approval_receipt_id args)) q a v in
              (
                q,
                r.actor_user_id,
                n,
                taken-IsAuthorized es t now (trim_space (g.approval_receipt_id args)) q a r s le
                    taken,
              )
        ]
  ]
