-- ===== src/Agent/Approvals/Answers.antt =====
-- How the answer to a pending question becomes a receipt (server/agent/engine.go
-- `ProvideAskUserResult`). The registry, JSON and the hash of a payload are parameters.
use open_data_analysis.Common.{
  ℕ, ◌+◌, String, Bool, true, false, not, ◌&&◌, ◌||◌, ◌==◌, Option, none, some, List, [], ◌∷◌, ◌++◌,
  any, if◌then◌else◌, is_exact, insert, Result, ok, err, ◌>>=◌,
}
use mathlib.Core.List.{reverse}
use open_data_analysis.Agent.History.{ConversationItem, ToolCall, is_tool, asks}
use open_data_analysis.Tools.Admission.{ApprovalRequest}
use open_data_analysis.Agent.Approvals.{
  Approvals, ConfirmationReceipt, confirmation_receipt_ttl, purge_expired_receipts,
}

-- The decoded answer to an authorization request.
pub record Decision : Type 0 where
  pub response_type : String
  pub authorization_decision : String
  pub action : String
  pub resource_ref : String

-- `ApprovalOutcome`, for an answer that is taken.
pub record ApprovalOutcome : Type 0 where
  pub requested : Bool
  pub approved : Bool
  pub action : String
  pub resource_ref : String

pub data AnswerError : Type 0 where
  no_actor : AnswerError
  bad_arguments : AnswerError
  no_question : AnswerError
  many_questions : AnswerError
  already_answered : AnswerError
  bad_decision : AnswerError
  bad_payload : AnswerError
  bad_result : AnswerError

-- What the functions outside give: whether a tool takes the answer of the user, the authorization
-- that the arguments of a question ask for, the decision of an answer, the hash of a payload, and
-- the result of the tool for an answer and a receipt.
pub record Decoders : Type 0 where
  pub accepts_user_response : String → Bool
  pub arguments : String → Option (Option ApprovalRequest)
  pub decision : String → Option Decision
  pub payload_hash : String → Option String
  pub tool_result : (answer receipt_id : String) → Option String

module _ (d : Decoders) where
  -- The questions among the calls of a message.
  unfoldable pub questions :
      List ToolCall → Result AnswerError (List (String × Option ApprovalRequest))
  questions [] = ok []
  questions (c ∷ cs) =
      let rest = questions cs in
      if d.accepts_user_response c.name
      then (elim (d.arguments c.arguments) [
        | none ↦ err bad_arguments
        | some q ↦ rest >>= λ qs. ok ((c.id, q) ∷ qs)
      ])
      else rest

  -- The loop over the history, which is given with its last item first: the questions of the last
  -- message that has any.
  unfoldable pub pending_questions :
      List ConversationItem → Result AnswerError (List (String × Option ApprovalRequest))
  pending_questions [] = ok []
  pending_questions (x ∷ xs) =
      let rest = pending_questions xs in
      if asks x
      then (elim (questions x.tool_calls) [
        | err e ↦ err e
        | ok [] ↦ rest
        | ok (q ∷ qs) ↦ ok (q ∷ qs)
      ])
      else rest

  abbrev pub is_answered_call : String → List ConversationItem → Bool
  is_answered_call id history = any (λ x. is_tool x && x.tool_call_id == id) history

  -- `authorizationResponseApproved`, for a request.
  unfoldable pub authorization_response_approved :
      String → ApprovalRequest → Result AnswerError Bool
  authorization_response_approved answer q = elim (d.decision answer) [
    | none ↦ err bad_decision
    | some r ↦
        if not (r.response_type == "authorization")
          || not (r.authorization_decision == "approve" || r.authorization_decision == "reject")
        then err bad_decision
        else if not (r.action == q.action) || not (r.resource_ref == q.resource_ref)
        then err bad_decision
        else ok (r.authorization_decision == "approve")
  ]

  -- The receipt of an approval.
  abbrev pub receipt_of :
      (now : ℕ) → (call_id answer actor hash : String) → ApprovalRequest → ConfirmationReceipt
  receipt_of now call_id answer actor hash q = record {
    tool_call_id = call_id;
    actor_user_id = actor;
    response_text = answer;
    action = q.action;
    resource_ref = q.resource_ref;
    payload_hash = hash;
    created_at = now;
    expires_at = now + confirmation_receipt_ttl;
    consumed_at = none;
  }

  -- The result of the call is appended, and the run is no longer suspended on it.
  unfoldable pub give_result :
      (call_id answer receipt_id : String)
      → ApprovalOutcome
      → Approvals
      → Approvals × Result AnswerError ApprovalOutcome
  give_result call_id answer receipt_id outcome a = elim (d.tool_result answer receipt_id) [
    | none ↦ (a, err bad_result)
    | some content ↦ (
      record a {
        history =
            a.history
            ++ record {
              role = "tool";
              content = content;
              tool_calls = [];
              tool_call_id = call_id;
              tool_call_name = "";
            }
              ∷ [];
        pending_suspension_id =
            (if a.pending_suspension_id == call_id then "" else a.pending_suspension_id);
      },
      ok outcome,
    )
  ]

  abbrev pub outcome_of : Bool → ApprovalRequest → ApprovalOutcome
  outcome_of approved q = record {
    requested = true;
    approved = approved;
    action = q.action;
    resource_ref = q.resource_ref;
  }

  -- The answer to a question that asks for an authorization.
  unfoldable pub answer_authorization :
      (now : ℕ)
      → (new_id answer actor call_id : String) → ApprovalRequest
      → Approvals
      → Approvals × Result AnswerError ApprovalOutcome
  answer_authorization now new_id answer actor call_id q a =
      elim (authorization_response_approved answer q) [
        | err e ↦ (a, err e)
        | ok false ↦ give_result call_id answer "" (outcome_of false q) a
        | ok true ↦ elim (d.payload_hash q.payload_json) [
          | none ↦ (a, err bad_payload)
          | some h ↦ give_result call_id answer new_id (outcome_of true q) (record a {
            confirmation_receipts =
                insert new_id (receipt_of now call_id answer actor h q) a.confirmation_receipts;
          })
        ]
      ]

  -- The loop over the only pending question.
  unfoldable pub answer_question :
      (now : ℕ)
      → (new_id answer actor call_id : String) → Option ApprovalRequest
      → Approvals
      → Approvals × Result AnswerError ApprovalOutcome
  answer_question now new_id answer actor call_id q a =
      if is_answered_call call_id a.history then (a, err already_answered) else (elim q [
        | none ↦
            give_result call_id answer ""
              (record { requested = false; approved = false; action = ""; resource_ref = "" }) a
        | some r ↦ answer_authorization now new_id answer actor call_id r a
      ])

  abbrev pub purged : ℕ → Approvals → Approvals
  purged now a = record a {
    confirmation_receipts = purge_expired_receipts now a.confirmation_receipts;
  }

  -- `ProvideAskUserResult`.
  unfoldable pub provide_ask_user_result :
      (now : ℕ)
      → (new_id answer actor : String) → Approvals
      → Approvals × Result AnswerError ApprovalOutcome
  provide_ask_user_result now new_id answer actor a =
      if actor == "" || not (is_exact actor)
      then (a, err no_actor)
      else (elim (pending_questions (reverse a.history)) [
        | err e ↦ (purged now a, err e)
        | ok [] ↦ (purged now a, err no_question)
        | ok ((id, q) ∷ []) ↦ answer_question now new_id answer actor id q (purged now a)
        | ok ((id, q) ∷ r ∷ rs) ↦ (purged now a, err many_questions)
      ])
