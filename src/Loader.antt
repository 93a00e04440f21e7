-- ===== src/Loader.antt =====
-- pkg/workflow/engine/loader: how a workflow file becomes a checked graph of nodes.
pub mod Types
pub mod Topo
pub mod Nodes
pub mod Connections
pub mod Envelope
pub mod Derive
pub mod Sensitive
pub mod Env
pub mod RetryBlocks
pub mod Overrides
pub mod Load
