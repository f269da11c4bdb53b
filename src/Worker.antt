-- ===== src/Worker.antt =====
-- worker.rs
pub mod Machine
pub mod Fetch
pub mod Pickup
pub mod Handle
pub mod Departures
pub mod Schedule
pub mod Settle
