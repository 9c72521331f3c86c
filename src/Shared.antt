-- ===== src/Shared.antt =====
-- The shared kernel of the repository (shared/): errors, actor context, time.
pub mod Errors
pub mod Context
pub mod Clock
pub mod Resilience
pub mod Triples
