-- ===== src/Client/Syncer.antt =====
-- internal/client/service/syncer.go: pull, the resolution of conflicts, and push.
pub mod Local
pub mod Run
pub mod Chunks
pub mod Merge
pub mod Edits
pub mod Winner
pub mod Cursor
pub mod Push
pub mod Replay
pub mod Pending
pub mod Dirty
pub mod Contract
pub mod Converge
pub mod Report
