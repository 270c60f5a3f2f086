-- ===== src/Types.antt =====
-- src/types: the configuration and the state of one process, and what is read off them.
pub mod Namespaces
pub mod Enums
pub mod Config
pub mod State
pub mod Samples
mod Tests
