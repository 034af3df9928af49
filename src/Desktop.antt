-- ===== src/Desktop.antt =====
-- The parts of src/desktop.
pub mod Cache
