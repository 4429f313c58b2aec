-- ===== src/Cli/Mount.antt =====
-- internal/cli/cmd_mount.go: mounts that are added and removed, once their flags are read. What is
-- printed is left out.
use tx.Base.{
  ℕ, Bool, true, false, not, ◌&&◌, Option, none, some, List, [], ◌∷◌, ◌++◌, if◌then◌else◌, ok, err,
}
use tx.Box.Listing.{get, token}
use tx.Box.Recreate.{recreate_agent}
use tx.Box.Runtime.{agent_quiesced, prepare_runtime}
use tx.Box.Saving.{MountJson, save_agent_mounts, load_agent_mounts, in_mounts}
use tx.Box.{Box, Fault, lock_busy, mount_conflict}
use tx.Cli.Common.{with_box_lock}
use tx.Docker.Exec.{Exec, pure, lift, ◌>>=◌, ◌>>◌}
use tx.Docker.{Engine}
use tx.Mounts.Clean.{clean}
use tx.Mounts.Prepare.{new_agent_mount}
use tx.Mounts.{AgentMount, Host}
use tx.Text.{Text, text_eq}

unfoldable pub same_bool : Bool → Bool → Bool
same_bool true b = b
same_bool false b = not b

-- existing == mount
unfoldable pub same_mount : AgentMount → AgentMount → Bool
same_mount a b =
    text_eq a.source b.source
    && text_eq a.target b.target
    && same_bool a.read_only b.read_only
    && same_bool a.require_mountpoint b.require_mountpoint

-- The first mount at the target of this one.
unfoldable pub configured_at : Text → List AgentMount → Option AgentMount
configured_at target [] = none
configured_at target (m ∷ ms) =
    let rest = configured_at target ms in if text_eq m.target target then some m else rest

-- The mounts at other targets.
unfoldable pub kept_mounts : Text → List AgentMount → List AgentMount
kept_mounts target [] = []
kept_mounts target (m ∷ ms) =
    let rest = kept_mounts target ms in if text_eq m.target target then rest else m ∷ rest

module _ (engine : Engine) (canceled_in : ℕ → Bool) (host : Host) (json : MountJson) where
  -- A quiesced box stays quiesced.
  unfoldable pub prepare_unless : Box → Text → Bool → Exec engine Fault (Unit {0})
  prepare_unless b tok true = pure tt
  prepare_unless b tok false = prepare_runtime engine canceled_in b tok

  unfoldable pub recreated : Box → Text → Bool → Exec engine Fault (Unit {0})
  recreated b tok false = pure tt
  recreated b tok true = do quiesced ← agent_quiesced engine b tok; prepare_unless b tok quiesced

  unfoldable pub apply_agent_mounts : Box → Text → List AgentMount → Exec engine Fault (Unit {0})
  apply_agent_mounts b name mounts = do
    tok ← token engine b.name
    out ← recreate_agent engine host b tok mounts
    save_agent_mounts engine json name mounts
    recreated out.0 tok out.1

  unfoldable pub add_unless :
      Box → Text → AgentMount → List AgentMount → Option AgentMount → Exec engine Fault (Unit {0})
  add_unless b name mount mounts none = apply_agent_mounts b name (mounts ++ mount ∷ [])
  add_unless b name mount mounts (some there) =
      lift (if same_mount there mount then ok tt else err mount_conflict)

  unfoldable pub add_mount : Text → AgentMount → Exec engine Fault (Unit {0})
  add_mount name mount = do
    b ← get engine name
    mounts ← load_agent_mounts engine json name
    add_unless b name mount mounts (configured_at mount.target mounts)

  unfoldable pub cmd_mount_add : Text → Text → Text → Bool → Bool → Exec engine Fault (Unit {0})
  cmd_mount_add name source target read_only require_mountpoint = do
    mount ← lift (in_mounts (new_agent_mount host source target read_only require_mountpoint))
    with_box_lock engine lock_busy name (add_mount name mount)

  unfoldable pub remove_if_found :
      Box → Text → Text → List AgentMount → Option AgentMount → Exec engine Fault (Unit {0})
  remove_if_found b name target mounts none = pure tt
  remove_if_found b name target mounts (some there) =
      apply_agent_mounts b name (kept_mounts target mounts)

  unfoldable pub remove_mount : Text → Text → Exec engine Fault (Unit {0})
  remove_mount name target = do
    b ← get engine name
    mounts ← load_agent_mounts engine json name
    remove_if_found b name target mounts (configured_at target mounts)

  unfoldable pub cmd_mount_remove : Text → Text → Exec engine Fault (Unit {0})
  cmd_mount_remove name target =
      with_box_lock engine lock_busy name (remove_mount name (clean target))

  unfoldable pub cmd_mount_list : Text → Exec engine Fault (List AgentMount)
  cmd_mount_list name = do b ← get engine name; load_agent_mounts engine json name
