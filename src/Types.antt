-- ===== src/Types.antt =====
-- types.rs
pub mod State
pub mod Options
pub mod Backoff
pub mod Worker
pub mod Wire
pub mod Builders
