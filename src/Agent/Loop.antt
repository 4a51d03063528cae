-- ===== src/Agent/Loop.antt =====
-- The tool calls of a turn (server/agent/engine.go, parallel_tools.go): the tools that the registry
-- gives, the count of failures, and the plan of a batch. The tools are parameters.
pub mod Failures
pub mod Batch
pub mod Steps
pub mod Admitted
pub mod Granted
pub mod Overlap
pub mod Ahead
pub mod Barrier
pub mod Sequential
pub mod Ready
pub mod Matched
pub mod InOrder
pub mod Blocked
pub mod Turns
pub mod Endings
pub mod Rounds
use open_data_analysis.Common.{
  ℕ, String, Bool, true, false, not, ◌&&◌, Option, none, some, List, [], ◌∷◌, ltb, eqb, length,
  if◌then◌else◌, is_some,
}
use open_data_analysis.Tools.Admission.{
  ApprovalRequest, ApprovalGate, AdmissionKind, allow, deny, decide_tool_call,
}
use open_data_analysis.Agent.History.{ToolCall}
use open_data_analysis.Agent.Loop.Failures.{Streak, repeated_failure_block}

-- A tool as the loop sees it: its gate, `RunControl == "suspend"`, `DeliveryBoundary`, the answer of
-- `IsConcurrencySafe`, whether the probe finds it available, and `SuspensionEvent`, if it has one,
-- which accepts arguments or gives an error.
pub record Tool : Type 0 where
  pub gate : Option ApprovalGate
  pub suspends : Bool
  pub delivery_boundary : Bool
  pub is_concurrency_safe : String → Bool
  pub available : Bool
  pub suspension_event : Option (String → Option String)

-- `Admission`, without its reason.
pub record Admission : Type 0 where
  pub kind : AdmissionKind
  pub code : String

abbrev pub is_allowed : AdmissionKind → Bool
is_allowed allow = true
is_allowed other = false

-- `plannedToolCall`.
pub record PlannedToolCall : Type 0 where
  pub call : ToolCall
  pub tool : Option Tool
  pub admission : Admission
  pub safe : Bool

pub data BatchError : Type 0 where
  suspension_not_alone : BatchError

module _ (registry : String → Option Tool) where
  abbrev pub call_suspends : ToolCall → Bool
  call_suspends c = elim (registry c.name) [ none ↦ false | some t ↦ t.suspends ]

  unfoldable pub suspending : List ToolCall → Bool
  suspending [] = false
  suspending (c ∷ cs) = let rest = suspending cs in if call_suspends c then true else rest

  -- `validateToolCallBatch`.
  unfoldable pub validate_tool_call_batch : List ToolCall → Bool
  validate_tool_call_batch calls = not (suspending calls && not (eqb (length calls) 1))

  module _ {S : Type 0} (verify_approval : (receipt_id : String) → ApprovalRequest → S → S × Bool)
      (is_object : String → Bool) (threshold : ℕ) where
    -- What refuses a call that its gate allows: a failure that repeats, arguments that are no strict
    -- object, and, over both of these, a tool that is down.
    unfoldable pub check_call : List Streak → Tool → ToolCall → Admission
    check_call streaks t c =
        let checked =
          if is_some (repeated_failure_block threshold c.name streaks)
          then (record { kind = deny; code = "repeated_failure_blocked" })
          else if not (is_object c.arguments)
          then (record { kind = deny; code = "invalid_tool_arguments" })
          else (record { kind = allow; code = "" }) in
        if not t.available then (record { kind = deny; code = "tool_unavailable" }) else checked

    -- The admission of a call of a known tool, and the store of approvals after it.
    unfoldable pub admit_call : List Streak → Tool → ToolCall → S → Option S × Admission
    admit_call streaks t c s =
        let (after, kind) = decide_tool_call verify_approval t.gate c.arguments (some s) in
        (
          after,
          if is_allowed kind then check_call streaks t c else (record { kind = kind; code = "" }),
        )

    abbrev pub planned : Tool → ToolCall → Admission → PlannedToolCall
    planned t c a = record {
      call = c;
      tool = some t;
      admission = a;
      safe = is_allowed a.kind && (not t.suspends && t.is_concurrency_safe c.arguments);
    }

    -- The body of the loop of `planToolCalls`.
    unfoldable pub plan_call : List Streak → ToolCall → S → S × PlannedToolCall
    plan_call streaks c s = elim (registry c.name) [
      | none ↦ (
        s,
        record {
          call = c;
          tool = none;
          admission = record { kind = deny; code = "unknown_tool" };
          safe = false;
        },
      )
      | some t ↦
          let (after, a) = admit_call streaks t c s in
          (elim after [ none ↦ s | some next ↦ next ], planned t c a)
    ]

    -- `planToolCalls`.
    unfoldable pub plan_tool_calls : List Streak → List ToolCall → S → S × List PlannedToolCall
    plan_tool_calls streaks [] s = (s, [])
    plan_tool_calls streaks (c ∷ cs) s =
        let (next, p) = plan_call streaks c s in
        let (last, ps) = plan_tool_calls streaks cs next in (last, p ∷ ps)
