-- ===== src/Tools.antt =====
-- server/tools: the tools that the agent calls.
pub mod Admission
pub mod Report
