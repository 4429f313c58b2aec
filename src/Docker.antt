-- ===== src/Docker.antt =====
-- internal/docker: the Docker Engine as the box package calls it. The engine itself, with its API
-- client, is a parameter: for each call, what it replies in a state, and the state that it leaves. No
-- law is assumed of it. A world is the engine's state with the calls made so far, newest first.
pub mod Exec
pub mod Keeps
pub mod Fixed
use tx.Base.{ℕ, Bool, Option, some, List, [], ◌∷◌, if◌then◌else◌}
use tx.Decimal.{ℤ}
use tx.Dict.{Dict, insert}
use tx.Text.{Text, codes, is_empty}

abbrev pub Labels : Type 0
Labels = Dict Text

-- labels.go
abbrev pub label_managed : Text
label_managed = codes "tx9"

abbrev pub label_box : Text
label_box = codes "tx9.box"

abbrev pub label_version : Text
label_version = codes "tx9.version"

abbrev pub label_role : Text
label_role = codes "tx9.role"

abbrev pub label_executor_web_base_url : Text
label_executor_web_base_url = codes "tx9.executor-web-base-url"

abbrev pub role_agent : Text
role_agent = codes "agent"

abbrev pub role_executor : Text
role_executor = codes "executor"

unfoldable pub box_labels : Text → Text → Text → Labels
unfolding insert is_empty
box_labels name version role =
    let labels : Labels =
      (label_managed, codes "1") ∷ (label_box, name) ∷ (label_version, version) ∷ [] in
    if is_empty role then labels else insert label_role role labels

-- Answers: the value, a not-found error, or another error.
pub data Reply {ℓ} (A : Type ℓ) : Type ℓ where
  done : A → Reply A
  not_found failed : Reply A

-- An entry of a container list.
pub record Summary : Type 0 where
  pub id : Text
  pub labels : Labels
  pub state : Text
  pub image : Text
  pub image_id : Text

-- What is read of a container's inspection: Config.Labels, if there is a Config; the ID and the
-- Image, empty if there is no ContainerJSONBase; State.Running, if there is a State; and NanoCPUs
-- and Memory, if there is a HostConfig.
pub record ContainerInfo : Type 0 where
  pub config : Option Labels
  pub id : Text
  pub image : Text
  pub running : Option Bool
  pub host_config : Option (ℤ × ℤ)

-- docker.ExecResult, whose exit code is never negative; an output is bytes where a caller keeps it as
-- a file, and otherwise a text.
pub record ExecResult : Type 0 where
  pub stdout : Text
  pub stderr : Text
  pub exit_code : ℕ

-- docker.EphemeralOpts; `stdin` is the path of the file that is read, empty for none.
pub record EphemeralOpts : Type 0 where
  pub image : Text
  pub entrypoint : List Text
  pub cmd : List Text
  pub binds : List Text
  pub stdin : Text

-- What is read of an entry of an image list.
pub record ImageSummary : Type 0 where
  pub id : Text
  pub repo_tags : List Text

-- An entry of a directory.
pub record DirEntry : Type 0 where
  pub name : Text
  pub is_dir : Bool

pub record NetworkInfo : Type 0 where
  pub labels : Labels
  pub id : Text

-- docker.ContainerSpec without the Hostname, which the box package leaves empty; a port of ExposedPorts is a text, and so is one of PortBindings.
pub record ContainerSpec : Type 0 where
  pub name : Text
  pub image : Text
  pub entrypoint : List Text
  pub env : List Text
  pub labels : Labels
  pub network_id : Text
  pub network_aliases : List Text
  pub binds : List Text
  pub group_add : List Text
  pub exposed_ports : List Text
  -- The port, the host's IP and the host's port.
  pub port_bindings : List (Text × (Text × Text))
  pub dns : List Text
  pub sysctls : List (Text × Text)
  pub nano_cpus : ℤ
  pub memory_bytes : ℤ

pub data Event : Type 0 where
  listed : Reply (List Summary) → Event
  container_inspected : Text → Reply ContainerInfo → Event
  network_inspected : Text → Reply NetworkInfo → Event
  volume_inspected : Text → Reply Labels → Event
  container_removed network_removed volume_removed : Text → Event
  network_created volume_created : Text → Labels → Event
  container_created : ContainerSpec → Reply Text → Event
  container_started container_stopped : Text → Event
  resources_updated : Text → ℤ × ℤ → Reply (Unit {0}) → Event
  env_removed : Text → Event
  env_read : Text → Event
  env_written : Text → Dict Text → Event
  dir_read : Event
  exec_ran : Text → List Text → Reply ExecResult → Event
  ephemeral_ran : EphemeralOpts → Event
  images_listed : Event
  image_removed image_sought image_built : Text → Event
  lock_taken : Text → Reply (Unit {0}) → Event
  lock_released : Text → Event
  env_file_removed : Text → Reply (Unit {0}) → Event

pub record Engine : Type 1 where
  pub State : Type 0
  pub list_box_containers : State → Reply (List Summary) × State
  pub container_inspect : Text → State → Reply ContainerInfo × State
  pub network_inspect : Text → State → Reply NetworkInfo × State
  pub volume_inspect : Text → State → Reply Labels × State
  pub container_remove : Text → State → Reply (Unit {0}) × State
  pub network_remove : Text → State → Reply (Unit {0}) × State
  pub volume_remove : Text → State → Reply (Unit {0}) × State
  pub network_create : Text → Labels → State → Reply Text × State
  pub volume_create : Text → Labels → State → Reply Text × State
  pub container_create : ContainerSpec → State → Reply Text × State
  pub container_start : Text → State → Reply (Unit {0}) × State
  pub container_stop : Text → State → Reply (Unit {0}) × State
  -- docker.Client.ContainerUpdateResources, without the warnings that are printed: the CPUs and the
  -- memory.
  pub container_update_resources : Text → ℤ × ℤ → State → Reply (Unit {0}) × State
  -- state.RemoveBoxEnv: a missing file is no error.
  pub remove_box_env : Text → State → Reply (Unit {0}) × State
  -- os.Remove on state.BoxEnvPath, with `not_found` for a missing file.
  pub remove_env_file : Text → State → Reply (Unit {0}) × State
  -- state.ReadBoxEnv and state.WriteBoxEnv, of the env file of a box; os.ReadDir of its directory.
  pub read_box_env : Text → State → Reply (Dict Text) × State
  pub write_box_env : Text → Dict Text → State → Reply (Unit {0}) × State
  pub read_boxes_dir : State → Reply (List DirEntry) × State
  -- docker.Client.Exec, with the container, the command and the user.
  pub exec : Text → List Text → Text → State → Reply ExecResult × State
  -- docker.Client.RunEphemeral: the exit code.
  pub run_ephemeral : EphemeralOpts → State → Reply ℕ × State
  pub image_list : Text → State → Reply (List ImageSummary) × State
  pub image_remove : Text → State → Reply (Unit {0}) × State
  pub image_exists : Text → State → Reply Bool × State
  -- assets.BuildContextTar with docker.Client.BuildImage.
  pub build_image : Text → State → Reply (Unit {0}) × State
  -- state.LockPath and lock.Acquire on the lock of a box, with `not_found` for ErrBusy, and the
  -- function that Acquire returns.
  pub acquire_lock : Text → State → Reply (Unit {0}) × State
  pub release_lock : Text → State → Reply (Unit {0}) × State

pub record World (engine : Engine) : Type 0 where
  pub state : engine.State
  pub trace : List Event
