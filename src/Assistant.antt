-- ===== src/Assistant.antt =====
-- pkg/rsassistant: a workflow published as an agent of another service.
pub mod Relay
pub mod Publish
