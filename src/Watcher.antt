-- ===== src/Watcher.antt =====
-- src/watcher: restarts of processes whose watched files change.
pub mod Debounce
pub mod Bursts
pub mod Coalesce
pub mod Flap
pub mod Window
pub mod Registry
pub mod Sections
pub mod Budget
pub mod Retain
pub mod Removal
pub mod Gone
pub mod Reclaim
pub mod Dispatch
pub mod Cascade
pub mod Causality
pub mod Off
pub mod Suspension
mod Tests
