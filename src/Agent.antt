-- ===== src/Agent.antt =====
-- The agent (server/agent): its background jobs and delegated conversations.
pub mod Jobs
pub mod History
pub mod Compaction
pub mod Rebuild
pub mod ChildAgents
pub mod Goals
pub mod Memory
pub mod Approvals
pub mod Loop
mod Examples
mod HistoryExamples
mod GoalExamples
mod ApprovalExamples
mod LoopExamples
mod MemoryExamples
