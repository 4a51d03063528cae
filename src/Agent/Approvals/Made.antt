-- ===== src/Agent/Approvals/Made.antt =====
-- The receipts that answers make (server/agent/engine.go `ProvideAskUserResult`).
use open_data_analysis.Common.{
  ℕ, ◌≤◌, String, true, false, ◌||◌, ◌==◌, Option, none, some, List, [], ◌∷◌, ◌≡◌, ◌⊎◌, inl, inr,
  lookup, insert, lookup-insert, lookup-remove, eq_iff, ok, err, arith, Dict, Bool-cases,
  Option-cases, Result-cases, refl, subst, ap, ◌∙◌, not, is_exact,
}
use mathlib.Core.List.{reverse}
use open_data_analysis.Tools.Admission.{ApprovalRequest}
use open_data_analysis.Agent.Approvals.{Approvals, ConfirmationReceipt, purge_receipts}
use open_data_analysis.Agent.Approvals.Answers.{
  Decoders, authorization_response_approved, pending_questions, answer_authorization,
  answer_question, give_result, provide_ask_user_result, receipt_of, purged, outcome_of,
  is_answered_call, ApprovalOutcome,
}
use open_data_analysis.Agent.Approvals.Receipts.{
  Event, answered, Happened, last, is_issued, is_used, IsBacked, IsSound,
}
use open_data_analysis.Agent.Approvals.Receipts.{before-IsBacked}

pub lookup-purge_receipts :
    (now : ℕ) (seen receipts : Dict ConfirmationReceipt) (id : String) (r : ConfirmationReceipt)
    → lookup id (purge_receipts now seen receipts) ≡ some r
    → lookup id receipts ≡ some r
unfolding purge_receipts
lookup-purge_receipts now [] receipts id r h = h
lookup-purge_receipts now ((i, x) ∷ seen) receipts id r h =
    lookup-purge_receipts now seen receipts id r
      (ground (arith, h, lookup-remove i id (purge_receipts now seen receipts)))

-- The request of the pending question.
abbrev pub asked : Decoders → Approvals → Option ApprovalRequest
asked d a = elim (pending_questions d (reverse a.history)) [
  | ok ((id, q) ∷ []) ↦ q
  | ok ((id, q) ∷ r ∷ rs) ↦ none
  | ok [] ↦ none
  | err e ↦ none
]

module _ (d : Decoders) where
  pub receipts-give_result :
      (call_id answer receipt_id : String) (o : ApprovalOutcome) (a : Approvals)
      → (give_result d call_id answer receipt_id o a).0.confirmation_receipts
        ≡ a.confirmation_receipts
  unfolding give_result
  receipts-give_result call_id answer receipt_id o a =
      elim (Option-cases (d.tool_result answer receipt_id)) [
        | inl e ↦ rw (give_result, e) refl
        | inr (c, e) ↦ rw (give_result, e) refl
      ]

  -- The receipt that an answer to a request made.
  abbrev pub IsMade :
      (now : ℕ)
      → (new_id answer actor : String) → Option ApprovalRequest
      → String
      → ConfirmationReceipt
      → Type 0
  IsMade now new_id answer actor asked id r =
      (q : ApprovalRequest) × (call_id hash : String) × (asked ≡ some q)
      × (authorization_response_approved d answer q ≡ ok true)
      × (d.payload_hash q.payload_json ≡ some hash)
      × (new_id ≡ id)
      × (receipt_of d now call_id answer actor hash q ≡ r)

  pub answer_authorization-IsMade :
      (now : ℕ) (new_id answer actor call_id : String) (q : ApprovalRequest) (a : Approvals)
      (id : String) (r : ConfirmationReceipt)
      → lookup id
          (answer_authorization d now new_id answer actor call_id q a).0.confirmation_receipts
        ≡ some r
      → (lookup id a.confirmation_receipts ≡ some r) ⊎ IsMade now new_id answer actor (some q) id r
  unfolding answer_authorization
  answer_authorization-IsMade now new_id answer actor call_id q a id r l =
      elim (Result-cases (authorization_response_approved d answer q)) [
        | inr (e, p) ↦ inl (ground (arith, l, p))
        | inl (false, p) ↦
            inl (
              ground (arith, l, p, receipts-give_result call_id answer "" (outcome_of d false q) a))
        | inl (true, p) ↦ elim (Option-cases (d.payload_hash q.payload_json)) [
          | inl n ↦ inl (ground (arith, l, p, n))
          | inr (h, s) ↦ elim (Bool-cases (new_id == id)) [
            | inl e ↦ inr (
              q,
              call_id,
              h,
              refl,
              p,
              s,
              ground (arith, e, eq_iff new_id id),
              ground (
                arith,
                l,
                p,
                s,
                e,
                receipts-give_result call_id answer new_id (outcome_of d true q) (record a {
                  confirmation_receipts =
                      insert new_id (receipt_of d now call_id answer actor h q)
                        a.confirmation_receipts;
                }),
                lookup-insert new_id id (receipt_of d now call_id answer actor h q)
                    a.confirmation_receipts,
              ),
            )
            | inr e ↦ inl (
                ground (
                  arith,
                  l,
                  p,
                  s,
                  e,
                  receipts-give_result call_id answer new_id (outcome_of d true q) (record a {
                    confirmation_receipts =
                        insert new_id (receipt_of d now call_id answer actor h q)
                          a.confirmation_receipts;
                  }),
                  lookup-insert new_id id (receipt_of d now call_id answer actor h q)
                      a.confirmation_receipts,
                ))
          ]
        ]
      ]

  pub answer_question-IsMade :
      (now : ℕ) (new_id answer actor call_id : String) (q : Option ApprovalRequest) (a : Approvals)
      (id : String) (r : ConfirmationReceipt)
      → lookup id (answer_question d now new_id answer actor call_id q a).0.confirmation_receipts
        ≡ some r
      → (lookup id a.confirmation_receipts ≡ some r) ⊎ IsMade now new_id answer actor q id r
  unfolding answer_question
  answer_question-IsMade now new_id answer actor call_id q a id r l =
      elim (Bool-cases (is_answered_call d call_id a.history)) [
        | inl h ↦ inl (ground (arith, l, h))
        | inr h ↦ elim (Option-cases q) [
          | inl n ↦ inl (
              ground (
                arith,
                l,
                h,
                n,
                receipts-give_result call_id answer ""
                    (record { requested = false; approved = false; action = ""; resource_ref = "" })
                    a,
              ))
          | inr (x, e) ↦
              elim (answer_authorization-IsMade now new_id answer actor call_id x a id r
                (ground (arith, l, h, e))) [
                  | inl k ↦ inl k
                  | inr (y, c, s, f, ap, ha, ne, re) ↦ inr (y, c, s, e ∙ f, ap, ha, ne, re)
                ]
        ]
      ]

  pub provide-IsMade :
      (now : ℕ) (new_id answer actor : String) (a : Approvals) (id : String)
      (r : ConfirmationReceipt)
      → lookup id (provide_ask_user_result d now new_id answer actor a).0.confirmation_receipts
        ≡ some r
      → (lookup id a.confirmation_receipts ≡ some r)
        ⊎ IsMade now new_id answer actor (asked d a) id r
  unfolding provide_ask_user_result
  provide-IsMade now new_id answer actor a id r l =
      elim (Bool-cases (actor == "" || not (is_exact actor))) [
        | inl h ↦ inl (ground (arith, l, h))
        | inr h ↦ elim (Result-cases (pending_questions d (reverse a.history))) [
          | inr (e, p) ↦ inl (
              lookup-purge_receipts now a.confirmation_receipts a.confirmation_receipts id r
                (ground (arith, l, h, p)))
          | inl ([], p) ↦ inl (
              lookup-purge_receipts now a.confirmation_receipts a.confirmation_receipts id r
                (ground (arith, l, h, p)))
          | inl (x ∷ y ∷ xs, p) ↦ inl (
              lookup-purge_receipts now a.confirmation_receipts a.confirmation_receipts id r
                (ground (arith, l, h, p)))
          | inl ((c, q) ∷ [], p) ↦
              elim (answer_question-IsMade now new_id answer actor c q (purged d now a) id r
                (ground (arith, l, h, p))) [
                  | inl k ↦ inl (
                      lookup-purge_receipts now a.confirmation_receipts a.confirmation_receipts id r
                        k)
                  | inr m ↦ inr (rw (asked, p) m)
                ]
        ]
      ]

  pub made-IsBacked :
      (es : List Event) (now : ℕ) (new_id answer actor : String) (asked : Option ApprovalRequest)
      (id : String) (r : ConfirmationReceipt)
      → IsMade now new_id answer actor asked id r
      → IsBacked d (answered now new_id answer actor asked ∷ es) now id r
  made-IsBacked es now new_id answer actor asked id r (q, call_id, hash, e, ap, ha, ne, re) =
      subst (λ x. IsBacked d (answered now new_id answer actor asked ∷ es) now id x) re
        (subst
          (λ i.
            IsBacked d (answered now new_id answer actor asked ∷ es) now i
              (receipt_of d now call_id answer actor hash q))
          ne
          (
            q,
            subst
                (λ o.
                  Happened (answered now new_id answer actor o)
                    (answered now new_id answer actor asked ∷ es))
                e (last es),
            ap,
            ha,
            refl,
            refl,
            omega arith,
            refl,
          ))

  pub answers-IsSound :
      (es : List Event) (t now : ℕ) (new_id answer actor : String) (a : Approvals)
      → t ≤ now
      → is_issued new_id es ≡ false
      → IsSound d es t a
      → IsSound d
          (answered now new_id answer actor (asked d a) ∷ es)
          now
          (provide_ask_user_result d now new_id answer actor a).0
  unfolding is_issued is_used
  answers-IsSound es t now new_id answer actor a le fresh s = record {
    backed = λ id r l. elim (provide-IsMade now new_id answer actor a id r l) [
      | inl k ↦
          before-IsBacked d (answered now new_id answer actor (asked d a)) es t now id r le
            (s.backed id r k)
      | inr m ↦ made-IsBacked es now new_id answer actor (asked d a) id r m
    ];
    spent = λ id r l u. elim (provide-IsMade now new_id answer actor a id r l) [
      | inl k ↦ s.spent id r k u
      | inr (q, c, h, e, ap, ha, ne, re) ↦ absurd (ground (arith, s.known id u, fresh, ne))
    ];
    known = λ id u. ground (arith, s.known id u);
  }
