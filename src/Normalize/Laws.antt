-- ===== src/Normalize/Laws.antt =====
-- The visible text of normalize.rs: its length, and the elements that are skipped.
pub mod Bound
pub mod Skip
