-- ===== src/Tools/Admission.antt =====
-- The decision whether a tool call may run (server/tools/admission.go). The gate of a tool is a
-- parameter, and so is the store of approvals, which `Agent.Approvals` implements.
use open_data_analysis.Common.{
  String, Bool, ◌||◌, ◌==◌, Option, none, some, if◌then◌else◌, trim_space,
}

-- `ApprovalRequest`, and `ActionAuthorizationRequest`.
pub record ApprovalRequest : Type 0 where
  pub action : String
  pub resource_ref : String
  pub payload_json : String

-- `AdmissionKind`.
pub data AdmissionKind : Type 0 where
  allow : AdmissionKind
  ask : AdmissionKind
  deny : AdmissionKind

-- `ApprovalGate`.
pub record ApprovalGate : Type 0 where
  pub approval_request : String → Option ApprovalRequest
  pub approval_receipt_id : String → String

module _ {ℓ} {S : Type ℓ}
    (verify_approval : (receipt_id : String) → ApprovalRequest → S → S × Bool) where
  -- The rest of `DecideToolCall` once a gate has given the request.
  unfoldable pub decide_request :
      (receipt_id : String) → ApprovalRequest → Option S → Option S × AdmissionKind
  decide_request receipt_id q store =
      if trim_space q.action == "" || trim_space q.resource_ref == ""
      then (store, deny)
      else if receipt_id == ""
      then (store, ask)
      else (elim store [
        | none ↦ (none, deny)
        | some s ↦
            let (t, verified) = verify_approval receipt_id q s in
            (some t, if verified then allow else deny)
      ])

  -- `DecideToolCall`, for a tool with or without a gate, and a store or none.
  unfoldable pub decide_tool_call :
      Option ApprovalGate → (args : String) → Option S → Option S × AdmissionKind
  decide_tool_call none args store = (store, allow)
  decide_tool_call (some g) args store = elim (g.approval_request args) [
    | none ↦ (store, deny)
    | some q ↦ decide_request (trim_space (g.approval_receipt_id args)) q store
  ]
