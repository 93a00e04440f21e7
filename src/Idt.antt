-- ===== src/Idt.antt =====
-- pkg/idt: whether a token allows a request.
pub mod Cache
pub mod Validator
pub mod Settings
