-- ===== src/Agent/Approvals/Commits.antt =====
-- The receipts that verifications and commits leave (server/agent/engine.go `VerifyApproval`,
-- `CommitWithConfirmationReceipt`).
use open_data_analysis.Common.{
  ℕ, ◌≤◌, String, Bool, true, false, ◌||◌, ◌==◌, some, List, ◌∷◌, ◌≡◌, ◌⊎◌, inl, inr, lookup,
  lookup-insert, lookup-remove, eq_iff, is_some, ok, err, arith, Bool-cases, Option-cases,
  Result-cases, refl, sym, subst, ap,
}
use open_data_analysis.Tools.Admission.{ApprovalRequest}
use open_data_analysis.Agent.Approvals.{
  Approvals, ConfirmationReceipt, ReceiptError, is_over, check_receipt, verify_approval,
  consume_receipt, commit_receipt, commit_with_confirmation_receipt, compare_receipt, is_bad_text,
  inexact, unknown_receipt, already_used, receipt_expired, commit_failed,
}
use open_data_analysis.Agent.Approvals.Answers.{Decoders}
use open_data_analysis.Agent.Approvals.Receipts.{
  Event, committed, is_issued, is_used, IsBacked, IsSound,
}
use open_data_analysis.Agent.Approvals.Receipts.{
  is_issued-Happened, shrink-IsSound, before-IsBacked,
}

module _ (d : Decoders) where
  pub lookup-verify_approval :
      (now : ℕ) (id : String) (q : ApprovalRequest) (a : Approvals) (i : String)
      (r : ConfirmationReceipt)
      → lookup i (verify_approval d.payload_hash now id q a).0.confirmation_receipts ≡ some r
      → lookup i a.confirmation_receipts ≡ some r
  unfolding verify_approval check_receipt
  lookup-verify_approval now id q a i r l =
      ground (arith, l, lookup-remove id i a.confirmation_receipts)

  -- The receipt with which a commit succeeds.
  abbrev pub IsTaken :
      (now : ℕ) → String → ApprovalRequest → Approvals → ConfirmationReceipt → Type 0
  IsTaken now id q a r =
      (lookup id a.confirmation_receipts ≡ some r)
      × (is_some r.consumed_at ≡ false)
      × (is_over now r ≡ false)
      × (compare_receipt d.payload_hash q r ≡ ok tt)

  abbrev pub IsCommitted :
      (now : ℕ) → String → ApprovalRequest → (saves : String → Bool) → Approvals → Type 0
  IsCommitted now id q saves a =
      (r : ConfirmationReceipt) × IsTaken now id q a r
      × (commit_with_confirmation_receipt d.payload_hash now id q saves a
          ≡ (consume_receipt d.payload_hash now id r a, ok r.actor_user_id))

  abbrev pub IsRefused :
      (now : ℕ) → String → ApprovalRequest → (saves : String → Bool) → Approvals → Type 0
  IsRefused now id q saves a =
      (e : ReceiptError) × ((commit_with_confirmation_receipt d.payload_hash now id q saves a).1
        ≡ err e)
      × ((i : String) (r : ConfirmationReceipt)
          → lookup i
              (commit_with_confirmation_receipt d.payload_hash now id q saves
                a).0.confirmation_receipts
            ≡ some r
          → lookup i a.confirmation_receipts ≡ some r)

  pub IsCommitted-cases :
      (now : ℕ) (id : String) (q : ApprovalRequest) (saves : String → Bool) (a : Approvals)
      → IsCommitted now id q saves a ⊎ IsRefused now id q saves a
  unfolding commit_with_confirmation_receipt commit_receipt check_receipt
  IsCommitted-cases now id q saves a =
      elim (Bool-cases (
        is_bad_text d.payload_hash id
        || is_bad_text d.payload_hash q.action
        || is_bad_text d.payload_hash q.resource_ref)) [
          | inl b ↦ inr (inexact, ground (arith, b), λ i r l. ground (arith, l, b))
          | inr b ↦ elim (Option-cases (lookup id a.confirmation_receipts)) [
            | inl n ↦ inr (unknown_receipt, ground (arith, b, n), λ i r l. ground (arith, l, b, n))
            | inr (x, n) ↦ elim (Bool-cases (is_some x.consumed_at)) [
              | inl c ↦
                  inr (already_used, ground (arith, b, n, c), λ i r l. ground (arith, l, b, n, c))
              | inr c ↦ elim (Bool-cases (is_over now x)) [
                | inl o ↦ inr (
                  receipt_expired,
                  ground (arith, b, n, c, o),
                  λ i r l.
                      ground (arith, l, b, n, c, o, lookup-remove id i a.confirmation_receipts),
                )
                | inr o ↦ elim (Result-cases (compare_receipt d.payload_hash q x)) [
                  | inr (e, p) ↦
                      inr (
                        e,
                        ground (arith, b, n, c, o, p),
                        λ i r l. ground (arith, l, b, n, c, o, p),
                      )
                  | inl (u, p) ↦ elim (Bool-cases (saves x.actor_user_id)) [
                    | inl w ↦ inl (x, (n, c, o, p), ground (arith, b, n, c, o, p, w))
                    | inr w ↦ inr (
                      commit_failed,
                      ground (arith, b, n, c, o, p, w),
                      λ i r l. ground (arith, l, b, n, c, o, p, w),
                    )
                  ]
                ]
              ]
            ]
          ]
        ]

  pub taken-IsSound :
      (es : List Event) (t now : ℕ) (id : String) (q : ApprovalRequest) (a : Approvals)
      (r : ConfirmationReceipt)
      → t ≤ now
      → lookup id a.confirmation_receipts ≡ some r
      → IsSound d es t a
      → IsSound d
          (committed now id q (ok r.actor_user_id) ∷ es)
          now
          (consume_receipt d.payload_hash now id r a)
  unfolding is_used is_issued
  taken-IsSound es t now id q a r le l s =
      let e : Event = committed now id q (ok r.actor_user_id) in
      let used : ConfirmationReceipt = record r { consumed_at = some now } in
      record {
        backed = λ i x k. elim (Bool-cases (id == i)) [
          | inl same ↦
              let eq : used ≡ x =
                ground (arith, k, same, lookup-insert id i used a.confirmation_receipts) in
              subst (λ y. IsBacked d (e ∷ es) now i y) eq
                (subst (λ j. IsBacked d (e ∷ es) now j used) (ground (arith, same, eq_iff id i))
                  (before-IsBacked d e es t now id r le (s.backed id r l)))
          | inr other ↦ before-IsBacked d e es t now i x le (
              s.backed i x
                (ground (arith, k, other, lookup-insert id i used a.confirmation_receipts)))
        ];
        spent = λ i x k u. elim (Bool-cases (id == i)) [
          | inl same ↦
              let e : used ≡ x =
                ground (arith, k, same, lookup-insert id i used a.confirmation_receipts) in
              subst (λ y. is_some y.consumed_at ≡ true) e refl
          | inr other ↦
              s.spent i x
                (ground (arith, k, other, lookup-insert id i used a.confirmation_receipts))
                (ground (arith, u, other))
        ];
        known = λ i u.
            let (p, h, ap, ha, ac, re, c, ex) = s.backed id r l in
            ground (
              arith,
              u,
              s.known i,
              is_issued-Happened r.created_at id r.response_text r.actor_user_id (some p) es h,
              eq_iff id i,
            );
      }

  pub commits-IsSound :
      (es : List Event) (t now : ℕ) (id : String) (q : ApprovalRequest) (saves : String → Bool)
      (a : Approvals)
      → t ≤ now
      → IsSound d es t a
      → IsSound d
          (committed now id q (commit_with_confirmation_receipt d.payload_hash now id q saves a).1
            ∷ es)
          now
          (commit_with_confirmation_receipt d.payload_hash now id q saves a).0
  unfolding is_used is_issued
  commits-IsSound es t now id q saves a le s = elim (IsCommitted-cases now id q saves a) [
    | inl (r, (l, c, o, p), k) ↦
        subst (λ z. IsSound d (committed now id q z.1 ∷ es) now z.0) (sym k)
          (taken-IsSound es t now id q a r le l s)
    | inr (e, k, sub) ↦
        subst
          (λ z.
            IsSound d (committed now id q z ∷ es) now
              (commit_with_confirmation_receipt d.payload_hash now id q saves a).0)
          (sym k)
          (let after =
              shrink-IsSound d es t now a
                (commit_with_confirmation_receipt d.payload_hash now id q saves a).0 le sub s in
            record {
              backed = λ i x m.
                  before-IsBacked d (committed now id q (err e)) es now now i x (omega arith)
                    (after.backed i x m);
              spent = λ i x m u. after.spent i x m u;
              known = after.known;
            })
  ]

  pub compared :
      (q : ApprovalRequest) (r : ConfirmationReceipt)
      → compare_receipt d.payload_hash q r ≡ ok tt
      → (r.action ≡ q.action)
        × (r.resource_ref ≡ q.resource_ref)
        × (d.payload_hash q.payload_json ≡ some r.payload_hash)
  unfolding compare_receipt
  compared q r h = elim (Option-cases (d.payload_hash q.payload_json)) [
    | inl n ↦ absurd (ground (arith, h, n))
    | inr (k, n) ↦ (
      ground (arith, h, n, eq_iff r.action q.action),
      ground (arith, h, n, eq_iff r.resource_ref q.resource_ref),
      ground (arith, h, n, eq_iff r.payload_hash k),
    )
  ]
