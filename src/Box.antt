-- ===== src/Box.antt =====
-- internal/box/box.go: a box as its containers show it, and the names of its objects. Of the
-- children, `Objects`, `Listing`, `Destroy`, `Specs`, `Config`, `Create`, `Runtime` and `Recreate`
-- model the package; the others prove what they do.
pub mod Objects
pub mod Listing
pub mod Destroy
pub mod Backed
pub mod Inspected
pub mod Destroyed
pub mod Kept
pub mod Specs
pub mod Config
pub mod Saved
pub mod Create
pub mod Runtime
pub mod Recreate
pub mod Saving
pub mod Ready
pub mod Stopped
pub mod Created
pub mod Fresh
mod Examples
mod RuntimeExamples
use tx.Base.{
  ℕ, Bool, true, false, not, ◌&&◌, ◌||◌, Option, none, some, List, [], ◌∷◌, ◌++◌, if◌then◌else◌,
  Result, ok, err,
}
use tx.Dict.{lookup}
use tx.Docker.{Labels, label_managed, label_box}
use tx.Mounts.{MountFault}
use tx.Names.{NameFault}
use tx.Resources.{ResourceFault}
use tx.Text.{Text, codes, is_empty, text_eq}

pub record Box : Type 0 where
  pub name : Text
  pub agent_id : Text
  pub executor_id : Text
  pub agent_state : Text
  pub executor_state : Text
  pub executor_web_base_url : Text
  pub version : Text

pub data ObjectKind : Type 0 where
  container network volume : ObjectKind

pub data Fault : Type 0 where
  bad_name : NameFault → Fault
  bad_mounts : MountFault → Fault
  bad_resources : ResourceFault → Fault
  engine_failed box_not_found missing_container canceled no_fresh_name lock_busy mount_conflict :
      Fault
  no_token no_image no_state no_host_config stopped_old_image : Fault
  exited : ℕ → Fault
  unexpected_output : Text → Fault
  objects_exist not_owned missing_id : ObjectKind → Text → Fault

pub data DerivedState : Type 0 where
  crashed running stopped mixed : DerivedState

abbrev is_running : Text → Bool
is_running state = text_eq state (codes "running")

unfoldable pub derived_state : Box → DerivedState
derived_state b =
    if is_empty b.agent_id || is_empty b.executor_id
    then crashed
    else if is_running b.agent_state && is_running b.executor_state
    then running
    else if not (is_running b.agent_state) && not (is_running b.executor_state)
    then stopped
    else mixed

-- ContainerNames, NetworkName and VolumeNames
unfoldable pub agent_name : Text → Text
agent_name name = codes "tx9-" ++ (name ++ codes "-agent")

unfoldable pub executor_name : Text → Text
executor_name name = codes "tx9-" ++ (name ++ codes "-executor")

unfoldable pub network_name : Text → Text
network_name name = codes "tx9-" ++ name

unfoldable pub agent_volume : Text → Text
agent_volume name = codes "tx9-" ++ (name ++ codes "-agent-data")

unfoldable pub executor_volume : Text → Text
executor_volume name = codes "tx9-" ++ (name ++ codes "-exec-data")

abbrev label_is : Option Text → Text → Bool
label_is none value = is_empty value
label_is (some v) value = text_eq v value

-- ownedByBox; a missing label reads as the empty text.
unfoldable pub owned_by_box : Labels → Text → Bool
owned_by_box labels name =
    label_is (lookup label_managed labels) (codes "1") && label_is (lookup label_box labels) name
