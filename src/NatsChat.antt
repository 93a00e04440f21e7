-- ===== src/NatsChat.antt =====
-- pkg/workflow/builtin/natschat: the chat trigger.
pub mod Collect
pub mod Access
pub mod Trigger
pub mod Factory
