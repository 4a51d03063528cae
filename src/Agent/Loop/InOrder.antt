-- ===== src/Agent/Loop/InOrder.antt =====
-- Starting calls ahead of their turn gives the same as executing each in its turn
-- (server/agent/engine.go `Run`, parallel_tools.go).
use open_data_analysis.Common.{String, Bool, false, Option, none, some}
use open_data_analysis.Agent.History.{ToolCall}
use open_data_analysis.Agent.Loop.{Tool}

-- The tool of the registry declares the call safe to run with others.
abbrev pub is_harmless : (String → Option Tool) → ToolCall → Bool
is_harmless registry c = elim (registry c.name) [
  | none ↦ false
  | some t ↦ t.is_concurrency_safe c.arguments
]
