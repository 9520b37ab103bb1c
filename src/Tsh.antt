-- ===== src/Tsh.antt =====
-- The tiny shell, tsh/.
pub mod Jobs
pub mod Signals
pub mod Parse
pub mod Eval
pub mod Session
pub mod Tests
