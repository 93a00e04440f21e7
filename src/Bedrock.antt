-- ===== src/Bedrock.antt =====
-- pkg/workflow/builtin/bedrock: the daily update of the model that a node calls.
pub mod ModelId
pub mod State
pub mod Catalog
pub mod Chunks
pub mod Probe
pub mod Upgrade
pub mod Updater
