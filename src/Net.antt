-- ===== src/Net.antt =====
-- The network code of src/net/.
pub mod Web
pub mod Url
mod Tests
