-- ===== src/Client/Tui/Safe.antt =====
-- When no message makes the interface panic.
pub mod Fields
pub mod Ready
pub mod Opening
pub mod Editing
pub mod Messages
pub mod Update
