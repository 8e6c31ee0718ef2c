-- ===== src/Vga.antt =====
-- The console and the screen, src/vga_buffer.rs.
pub mod Console
mod Tests
