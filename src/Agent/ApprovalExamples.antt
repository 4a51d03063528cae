-- ===== src/Agent/ApprovalExamples.antt =====
-- A session with an authorization, and the theorems about receipts at that input.
use open_data_analysis.Common.{
  arith, true, none, some, [], ◌∷◌, ◌≡◌, refl, err, lookup, insert, remove, trim_space, ◌==◌,
  if◌then◌else◌,
}
use open_data_analysis.Tools.Admission.{
  ApprovalRequest, ApprovalGate, ask, deny, decide_request, decide_tool_call,
}
use open_data_analysis.Agent.Approvals.{
  Approvals, already_used, receipt_expired, other_payload, compare_receipt, check_receipt,
  verify_approval, commit_receipt, commit_with_confirmation_receipt, purge_receipts,
}
use open_data_analysis.Agent.Approvals.Answers.{
  Decoders, questions, pending_questions, authorization_response_approved, give_result,
  answer_authorization, answer_question, provide_ask_user_result,
}
use open_data_analysis.Agent.Approvals.Receipts.{answered, is_issued, is_used}
use open_data_analysis.Agent.Approvals.Made.{asked}
use open_data_analysis.Agent.Approvals.Traces.{
  Session, opened, answers, IsAuthorized, approval_store, committed_once_approved,
}

-- Opens all that the runs compute with.
approval_run : Unit {0}
unfolding lookup insert remove compare_receipt check_receipt verify_approval commit_receipt
    commit_with_confirmation_receipt purge_receipts questions pending_questions
    authorization_response_approved give_result answer_authorization answer_question trim_space
    provide_ask_user_result is_issued is_used decide_request decide_tool_call
approval_run = tt

abbrev request : ApprovalRequest
request = record { action = "drop"; resource_ref = "table:t"; payload_json = "{}" }

abbrev decoders : Decoders
decoders = record {
  accepts_user_response = λ name. name == "user_request_input";
  arguments = λ args. some (some request);
  decision = λ answer.
      if answer == "yes"
      then some (record {
        response_type = "authorization";
        authorization_decision = "approve";
        action = "drop";
        resource_ref = "table:t";
      })
      else none;
  payload_hash = λ payload. some payload;
  tool_result = λ answer id. some answer;
}

abbrev start : Approvals
start = record {
  history =
      record {
        role = "assistant";
        content = "";
        tool_calls = record { id = "c1"; name = "user_request_input"; arguments = "{}" } ∷ [];
        tool_call_id = "";
        tool_call_name = "";
      }
      ∷ [];
  pending_suspension_id = "c1";
  confirmation_receipts = [];
}

abbrev approved : Approvals
approved = (provide_ask_user_result decoders 5 "ucr_1" "yes" "ann" start).0

approved_session :
    Session decoders (answered 5 "ucr_1" "yes" "ann" (asked decoders start) ∷ []) 5 approved
unfolding approval_run
approved_session = answers [] 0 5 "ucr_1" "yes" "ann" start (opened 0 start refl) (omega arith) refl

-- A second commit with the receipt, a late one, and one with another payload are refused.
commit_twice :
    (commit_with_confirmation_receipt decoders.payload_hash 8 "ucr_1" request
      (λ u. true)
      (commit_with_confirmation_receipt decoders.payload_hash 7 "ucr_1" request
        (λ u. true)
        approved).0).1
    ≡ err already_used
unfolding approval_run
commit_twice = refl

commit_late :
    (commit_with_confirmation_receipt decoders.payload_hash 1800000000006 "ucr_1" request
      (λ u. true)
      approved).1
    ≡ err receipt_expired
unfolding approval_run
commit_late = refl

commit_other :
    (commit_with_confirmation_receipt decoders.payload_hash 7 "ucr_1"
      (record request { payload_json = "[]" })
      (λ u. true)
      approved).1
    ≡ err other_payload
unfolding approval_run
commit_other = refl

committed_once_approved_example :
    IsAuthorized decoders
      (answered 5 "ucr_1" "yes" "ann" (asked decoders start) ∷ [])
      7
      "ucr_1"
      "ann"
      request
unfolding approval_run
committed_once_approved_example =
    committed_once_approved decoders (answered 5 "ucr_1" "yes" "ann" (asked decoders start) ∷ []) 5
      7 "ucr_1" "ann" request (λ u. true) approved approved_session (omega arith) refl

abbrev gate : ApprovalGate
gate = record { approval_request = λ args. some request; approval_receipt_id = λ args. args }

ask_without : (decide_tool_call (approval_store decoders 7) (some gate) "" (some approved)).1 ≡ ask
unfolding approval_run
ask_without = refl

deny_unknown :
    (decide_tool_call (approval_store decoders 7) (some gate) "ucr_2" (some approved)).1 ≡ deny
unfolding approval_run
deny_unknown = refl
