-- ===== src/System.antt =====
-- The parts of the program together.
pub mod Link
pub mod Tests
