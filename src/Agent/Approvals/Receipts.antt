-- ===== src/Agent/Approvals/Receipts.antt =====
-- What every receipt of the store stands for (server/agent/engine.go): the events of a session, and
-- the invariant of the receipts.
use open_data_analysis.Common.{
  ℕ, ◌+◌, ◌≤◌, String, Bool, true, false, ◌||◌, ◌==◌, Option, some, List, [], ◌∷◌, ◌≡◌, lookup,
  is_some, Result, ok, err, arith, eq_iff,
}
use open_data_analysis.Tools.Admission.{ApprovalRequest}
use open_data_analysis.Agent.Approvals.{
  Approvals, ConfirmationReceipt, ReceiptError, confirmation_receipt_ttl,
}
use open_data_analysis.Agent.Approvals.Answers.{Decoders, authorization_response_approved}

-- A call of `ProvideAskUserResult`, with the request that the pending question made, and a call of
-- `CommitWithConfirmationReceipt` with its result.
pub data Event : Type 0 where
  answered : (now : ℕ) → (new_id answer actor : String) → Option ApprovalRequest → Event
  committed :
      (now : ℕ) → (receipt_id : String) → ApprovalRequest → Result ReceiptError String → Event

-- The event is among those of the session.
pub data Happened (e : Event) : List Event → Type 0 where
  last : (es : List Event) → Happened e (e ∷ es)
  before : (x : Event) (es : List Event) → Happened e es → Happened e (x ∷ es)

-- The id was given to an answer.
unfoldable pub is_issued : String → List Event → Bool
is_issued id [] = false
is_issued id (answered now new_id answer actor q ∷ es) = new_id == id || is_issued id es
is_issued id (committed now used q r ∷ es) = is_issued id es

-- A commit with the id succeeded.
unfoldable pub is_used : String → List Event → Bool
is_used id [] = false
is_used id (answered now new_id answer actor q ∷ es) = is_used id es
is_used id (committed now used q (ok actor) ∷ es) = used == id || is_used id es
is_used id (committed now used q (err e) ∷ es) = is_used id es

pub is_issued-Happened :
    (now : ℕ) (id answer actor : String) (q : Option ApprovalRequest) (es : List Event)
    → Happened (answered now id answer actor q) es
    → is_issued id es ≡ true
unfolding is_issued
is_issued-Happened now id answer actor q _ (last es) = ground (arith, eq_iff id id)
is_issued-Happened now id answer actor q _ (before (answered n i a b p) es h) =
    ground (arith, is_issued-Happened now id answer actor q es h)
is_issued-Happened now id answer actor q _ (before (committed n i p r) es h) =
    is_issued-Happened now id answer actor q es h

module _ (d : Decoders) where
  -- The receipt is what an answer of its actor approved, with the request of the question that the
  -- actor answered, and holds for 30 minutes from then.
  abbrev pub IsBacked : List Event → ℕ → String → ConfirmationReceipt → Type 0
  IsBacked es now id r =
      (q : ApprovalRequest) × Happened
        (answered r.created_at id r.response_text r.actor_user_id (some q)) es
      × (authorization_response_approved d r.response_text q ≡ ok true)
      × (d.payload_hash q.payload_json ≡ some r.payload_hash)
      × (r.action ≡ q.action)
      × (r.resource_ref ≡ q.resource_ref)
      × (r.created_at ≤ now)
      × (r.expires_at ≡ r.created_at + confirmation_receipt_ttl)

  -- The receipts of a session: each is backed, each one with which a commit succeeded is marked as
  -- consumed, and no id is used before it is given out.
  pub record IsSound (es : List Event) (now : ℕ) (a : Approvals) : Type 0 where
    pub backed :
        (id : String) (r : ConfirmationReceipt)
        → lookup id a.confirmation_receipts ≡ some r
        → IsBacked es now id r
    pub spent :
        (id : String) (r : ConfirmationReceipt)
        → lookup id a.confirmation_receipts ≡ some r
        → is_used id es ≡ true
        → is_some r.consumed_at ≡ true
    pub known : (id : String) → is_used id es ≡ true → is_issued id es ≡ true

  -- Fewer receipts, later.
  pub shrink-IsSound :
      (es : List Event) (t now : ℕ) (a b : Approvals)
      → t ≤ now
      → ((id : String) (r : ConfirmationReceipt)
          → lookup id b.confirmation_receipts ≡ some r
          → lookup id a.confirmation_receipts ≡ some r)
      → IsSound es t a
      → IsSound es now b
  shrink-IsSound es t now a b le sub s = record {
    backed = λ id r l.
        let (q, h, ap, ha, ac, re, c, ex) = s.backed id r (sub id r l) in
        (q, h, ap, ha, ac, re, omega (arith, c, le), ex);
    spent = λ id r l u. s.spent id r (sub id r l) u;
    known = s.known;
  }

  pub before-IsBacked :
      (e : Event) (es : List Event) (t now : ℕ) (id : String) (r : ConfirmationReceipt)
      → t ≤ now
      → IsBacked es t id r
      → IsBacked (e ∷ es) now id r
  before-IsBacked e es t now id r le (q, h, ap, ha, ac, re, c, ex) =
      (q, before e es h, ap, ha, ac, re, omega (arith, c, le), ex)
