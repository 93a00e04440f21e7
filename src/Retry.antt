-- ===== src/Retry.antt =====
-- pkg/workflow/engine/retry: the bounded retry helper that the agent loop wraps around tool calls
-- and model streams.
pub mod Types
pub mod Classify
pub mod Policy
pub mod Jitter
pub mod Delay
pub mod Loop
