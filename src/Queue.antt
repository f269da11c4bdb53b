-- ===== src/Queue.antt =====
-- queue.rs: the producer's handle on one queue.
pub mod Builder
pub mod States
pub mod Add
pub mod Loops
pub mod Listing
pub mod Counts
pub mod Control
pub mod Scheduling
