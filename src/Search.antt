-- ===== src/Search.antt =====
-- pkg/workflow/builtin/opensearch: the guard on the aggregations that a model asks for.
pub mod Aggregations
