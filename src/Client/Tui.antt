-- ===== src/Client/Tui.antt =====
-- internal/client/tui: the terminal interface.
pub mod Input
pub mod Form
pub mod Model
pub mod Editing
pub mod Update
pub mod Safe
pub mod Faults
pub mod Deletion
