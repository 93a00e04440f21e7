-- ===== src/Agent.antt =====
-- pkg/workflow/builtin/agent: the agent's turn.
pub mod Stream
pub mod Types
pub mod Messages
pub mod Charts
pub mod Setup
pub mod Run
pub mod Reply
pub mod Tools
pub mod Ending
pub mod Process
pub mod Scenario
