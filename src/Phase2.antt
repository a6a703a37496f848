-- ===== src/Phase2.antt =====
-- The second phase: functions, additions, references and asterisks, until nothing changes.
pub mod Additions
pub mod Access
pub mod References
pub mod Asterisks
pub mod Functions
pub mod Everything
