-- ===== src/Mounts.antt =====
-- internal/box/agent_mounts.go: the host directories that the agent container sees. `Validate` has
-- the checks on a mount's text, `Access` the permission rules, `Prepare` the checks against the host.
pub mod Clean
pub mod Validate
pub mod Access
pub mod Prepare
pub mod Granted
pub mod Groups
pub mod Safe
mod Examples
use tx.Base.{ℕ, ◌<◌, ◌≡◌, Bool, Option, some, List, Result}
use tx.Text.{Text}

-- `agentUID` and `agentGID`.
abbrev pub agent_uid : ℕ
agent_uid = 1001

abbrev pub agent_gid : ℕ
agent_gid = 1001

pub record AgentMount : Type 0 where
  pub source : Text
  pub target : Text
  pub read_only : Bool
  pub require_mountpoint : Bool

-- What the program reads of os.FileInfo; `stat` is info.Sys() as *syscall.Stat_t, with the uid and
-- the gid, or nothing where the platform gives another value.
pub record FileInfo : Type 0 where
  pub is_dir : Bool
  pub perm : ℕ
  pub stat : Option (ℕ × ℕ)

-- The host, as far as it is read: os.Stat, filepath.Abs, filepath.EvalSymlinks, and the lines of
-- /proc/self/mountinfo, if they can be read. `info.Mode().Perm()` has nine bits.
pub record Host : Type 0 where
  pub stat : Text → Option FileInfo
  pub perm_bits : (p : Text) (info : FileInfo) → stat p ≡ some info → info.perm < 512
  pub abs : Text → Option Text
  pub eval_symlinks : Text → Option Text
  pub mountinfo : Option (List Text)

pub data MountFault : Type 0 where
  source_not_clean source_not_representable target_not_clean target_not_below_mnt : MountFault
  target_not_representable duplicate_target : MountFault
  no_absolute_path source_unavailable source_not_directory mountinfo_unreadable : MountFault
  not_a_mountpoint no_access no_access_combined : MountFault

abbrev pub Mounted {ℓ} : Type ℓ → Type ℓ
Mounted A = Result MountFault A
