-- ===== src/Shell.antt =====
-- The command shell, src/shell.rs.
pub mod Line
pub mod History
pub mod Arguments
pub mod Output
pub mod Commands
pub mod Session
pub mod Loop
mod Tests
