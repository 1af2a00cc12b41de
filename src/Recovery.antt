-- ===== src/Recovery.antt =====
-- The recovery from a worker's crash: internal/reaper takes its jobs back, and internal/outbox offers
-- them to the workers that are left.
pub mod Served
pub mod Returned
pub mod Offered
pub mod Crash
