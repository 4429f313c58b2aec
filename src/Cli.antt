-- ===== src/Cli.antt =====
-- internal/cli: the commands, as far as they are more than printing.
pub mod Common
pub mod Prune
pub mod Guarded
pub mod Rechecked
pub mod Pruned
pub mod Unused
pub mod Images
pub mod Fresh
pub mod BackupFile
pub mod Backup
pub mod Paired
pub mod Resumed
pub mod Archived
pub mod Restored
pub mod Import
pub mod Imported
pub mod Undone
pub mod Mount
pub mod Gentle
pub mod Awake
pub mod Roused
pub mod Limits
pub mod Transact
pub mod Live
pub mod SetBack
pub mod Atomic
mod LimitExamples
mod Examples
mod BackupExamples
mod MountExamples
mod ImportExamples
