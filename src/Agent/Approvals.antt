-- ===== src/Agent/Approvals.antt =====
-- The receipts of user authorizations (server/agent/engine.go). JSON and the hash of a payload are
-- parameters; a time is a count of nanoseconds, and the clock and new ids are arguments.
pub mod Answers
pub mod Receipts
pub mod Made
pub mod Commits
pub mod Traces
use open_data_analysis.Common.{
  ℕ, ◌+◌, String, Bool, true, false, not, ◌&&◌, ◌||◌, ◌==◌, Option, none, some, List, [], ◌∷◌, ltb,
  eqb, if◌then◌else◌, is_exact, Dict, lookup, insert, remove, is_some, Result, ok, err,
}
use open_data_analysis.Tools.Admission.{ApprovalRequest}
use open_data_analysis.Agent.History.{ConversationItem}

-- `confirmationReceiptTTL`, 30 minutes.
abbrev pub confirmation_receipt_ttl : ℕ
confirmation_receipt_ttl = 1800000000000

pub record ConfirmationReceipt : Type 0 where
  pub tool_call_id : String
  pub actor_user_id : String
  pub response_text : String
  pub action : String
  pub resource_ref : String
  pub payload_hash : String
  pub created_at : ℕ
  pub expires_at : ℕ
  pub consumed_at : Option ℕ

-- The fields of `Engine` that authorizations work on.
pub record Approvals : Type 0 where
  pub history : List ConversationItem
  pub pending_suspension_id : String
  pub confirmation_receipts : Dict ConfirmationReceipt

pub data ReceiptError : Type 0 where
  inexact : ReceiptError
  unknown_receipt : ReceiptError
  already_used : ReceiptError
  receipt_expired : ReceiptError
  other_action : ReceiptError
  other_resource : ReceiptError
  invalid_payload : ReceiptError
  other_payload : ReceiptError
  commit_failed : ReceiptError

-- `!ExpiresAt.IsZero() && now.After(ExpiresAt)`.
abbrev pub is_over : ℕ → ConfirmationReceipt → Bool
is_over now r = not (eqb r.expires_at 0) && ltb r.expires_at now

-- The loop of `purgeExpiredReceiptsLocked` over the receipts, each of which it deletes if expired.
unfoldable pub purge_receipts :
    ℕ → (seen receipts : Dict ConfirmationReceipt) → Dict ConfirmationReceipt
purge_receipts now [] receipts = receipts
purge_receipts now ((id, r) ∷ seen) receipts =
    let rest = purge_receipts now seen receipts in if is_over now r then remove id rest else rest

-- `purgeExpiredReceiptsLocked`.
abbrev pub purge_expired_receipts : ℕ → Dict ConfirmationReceipt → Dict ConfirmationReceipt
purge_expired_receipts now receipts = purge_receipts now receipts receipts

abbrev pub drop_receipt : String → Approvals → Approvals
drop_receipt id a = record a { confirmation_receipts = remove id a.confirmation_receipts }

-- `ResetMessages`, in these fields.
abbrev pub reset_messages : Approvals → Approvals
reset_messages a = record a { history = []; confirmation_receipts = [] }

module _ (payload_hash : String → Option String) where
  -- The comparisons of a receipt with what is asked for, in their order.
  unfoldable pub compare_receipt :
      ApprovalRequest → ConfirmationReceipt → Result ReceiptError (Unit {0})
  compare_receipt q r =
      if not (r.action == q.action)
      then err other_action
      else if not (r.resource_ref == q.resource_ref)
      then err other_resource
      else (elim (payload_hash q.payload_json) [
        | none ↦ err invalid_payload
        | some h ↦ if r.payload_hash == h then ok tt else err other_payload
      ])

  -- The checks of a receipt that is found, and the state after them.
  unfoldable pub check_receipt :
      (now : ℕ)
      → String
      → ApprovalRequest
      → ConfirmationReceipt
      → Approvals
      → Approvals × Result ReceiptError (Unit {0})
  check_receipt now id q r a =
      if is_some r.consumed_at
      then (a, err already_used)
      else if is_over now r
      then (drop_receipt id a, err receipt_expired)
      else (a, compare_receipt q r)

  -- `VerifyApproval`.
  unfoldable pub verify_approval :
      (now : ℕ)
      → (receipt_id : String) → ApprovalRequest
      → Approvals
      → Approvals × Result ReceiptError (Unit {0})
  verify_approval now id q a =
      if id == "" || not (is_exact id)
      then (a, err inexact)
      else (elim (lookup id a.confirmation_receipts) [
        | none ↦ (a, err unknown_receipt)
        | some r ↦ check_receipt now id q r a
      ])

  abbrev pub consume_receipt : ℕ → String → ConfirmationReceipt → Approvals → Approvals
  consume_receipt now id r a = record a {
    confirmation_receipts = insert id (record r { consumed_at = some now }) a.confirmation_receipts;
  }

  -- The commit for a receipt that is found; `commits` says if the callback of the caller succeeds
  -- for an actor. The outcome is the actor.
  unfoldable pub commit_receipt :
      (now : ℕ)
      → String
      → ApprovalRequest
      → (commits : String → Bool) → ConfirmationReceipt
      → Approvals
      → Approvals × Result ReceiptError String
  commit_receipt now id q commits r a =
      let (b, checked) = check_receipt now id q r a in
      elim checked [
        | err e ↦ (b, err e)
        | ok u ↦
            if commits r.actor_user_id
            then (consume_receipt now id r b, ok r.actor_user_id)
            else (b, err commit_failed)
      ]

  abbrev pub is_bad_text : String → Bool
  is_bad_text s = s == "" || not (is_exact s)

  -- `CommitWithConfirmationReceipt`.
  unfoldable pub commit_with_confirmation_receipt :
      (now : ℕ)
      → (receipt_id : String) → ApprovalRequest
      → (commits : String → Bool) → Approvals
      → Approvals × Result ReceiptError String
  commit_with_confirmation_receipt now id q commits a =
      if is_bad_text id || is_bad_text q.action || is_bad_text q.resource_ref
      then (a, err inexact)
      else (elim (lookup id a.confirmation_receipts) [
        | none ↦ (a, err unknown_receipt)
        | some r ↦ commit_receipt now id q commits r a
      ])
