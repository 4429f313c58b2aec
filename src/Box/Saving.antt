-- ===== src/Box/Saving.antt =====
-- The settings of a box in its env file: SaveExecutorConfig, LoadAgentMounts, SaveAgentMounts,
-- LoadResources, SaveResources and InspectResources of internal/box, as calls. encoding/json is a
-- parameter where mounts are stored.
use tx.Base.{
  Bool, true, false, Option, none, some, List, [], ◌∷◌, ◌++◌, if◌then◌else◌, Result, ok, err,
}
use tx.Box.Config.{Net, save_executor_config, set_or_delete, stored_value}
use tx.Box.Create.{needed, checked_resources}
use tx.Box.Specs.{ExecutorConfig}
use tx.Box.{Box, Fault, bad_mounts, bad_resources, engine_failed, no_host_config}
use tx.Docker.Exec.{Exec, pure, lift, ◌>>=◌, ◌>>◌, read_box_env, write_box_env, container_inspect}
use tx.Docker.{Engine, Reply, done, not_found, failed, ContainerInfo}
use tx.Mounts.Validate.{validate_agent_mount_set}
use tx.Mounts.{AgentMount, MountFault}
use tx.Resources.{Resources, ContainerResources, ResourceFault, load_resources, save_resources}
use tx.State.{Env}
use tx.Text.{Text, codes, is_empty}

-- json.Marshal and json.Unmarshal of mounts.
pub record MountJson : Type 0 where
  pub marshal : List AgentMount → Option Text
  pub unmarshal : Text → Option (List AgentMount)

abbrev agent_mounts_env : Text
agent_mounts_env = codes "TX9_AGENT_MOUNTS"

unfoldable pub in_mounts : {A : Type 0} → Result MountFault A → Result Fault A
in_mounts (ok a) = ok a
in_mounts (err e) = err (bad_mounts e)

unfoldable pub in_resources : {A : Type 0} → Result ResourceFault A → Result Fault A
in_resources (ok a) = ok a
in_resources (err e) = err (bad_resources e)

unfoldable pub json_or_fail : {A : Type 0} → Option A → Result Fault A
json_or_fail none = err engine_failed
json_or_fail (some a) = ok a

unfoldable pub encoded : MountJson → List AgentMount → Result Fault Text
encoded json [] = ok []
encoded json (m ∷ ms) = json_or_fail (json.marshal (m ∷ ms))

unfoldable pub with_mounts : MountJson → List AgentMount → Env → Result Fault Env
with_mounts json mounts env =
    tx.Base.◌>>=◌ (encoded json mounts) (λ text. ok (set_or_delete env agent_mounts_env text))

unfoldable pub valid_mounts : List AgentMount → Result Fault (List AgentMount)
valid_mounts mounts = tx.Base.◌>>=◌ (in_mounts (validate_agent_mount_set mounts)) (λ u. ok mounts)

unfoldable pub stored_mounts : MountJson → Text → Result Fault (List AgentMount)
stored_mounts json raw =
    if is_empty raw then ok [] else tx.Base.◌>>=◌ (json_or_fail (json.unmarshal raw)) valid_mounts

-- What an inspection says of the limits of a container: them, or the error.
unfoldable pub limits_of :
    ContainerResources → Reply ContainerInfo → List Fault × ContainerResources
limits_of stored not_found = (engine_failed ∷ [], stored)
limits_of stored failed = (engine_failed ∷ [], stored)
limits_of stored (done info) = elim info.host_config [
  | none ↦ (no_host_config ∷ [], stored)
  | some (cpus, memory) ↦ ([], record { nano_cpus = cpus; memory_bytes = memory })
]

-- The first error stands for all of them.
unfoldable pub all_inspected : List Fault → Resources → Result Fault Resources
all_inspected [] r = ok r
all_inspected (f ∷ fs) r = err f

module _ (engine : Engine) where
  -- The env file is read, changed and written.
  unfoldable pub update_env : Text → (Env → Result Fault Env) → Exec engine Fault (Unit {0})
  update_env name change = do
    reply ← read_box_env engine name
    env ← lift (needed reply)
    changed ← lift (change env)
    written ← write_box_env engine name changed
    lift (needed written)

  unfoldable pub save_config : Net → Text → Text → ExecutorConfig → Exec engine Fault (Unit {0})
  save_config net name token c = update_env name (λ env. ok (save_executor_config net token c env))

  unfoldable pub save_agent_mounts :
      MountJson → Text → List AgentMount → Exec engine Fault (Unit {0})
  save_agent_mounts json name mounts = do
    valid ← lift (valid_mounts mounts)
    update_env name (with_mounts json valid)

  unfoldable pub load_agent_mounts : MountJson → Text → Exec engine Fault (List AgentMount)
  load_agent_mounts json name = do
    reply ← read_box_env engine name
    env ← lift (needed reply)
    lift (stored_mounts json (stored_value agent_mounts_env env))

  unfoldable pub save_box_resources : Text → Resources → Exec engine Fault (Unit {0})
  save_box_resources name r = do
    lift (checked_resources r)
    update_env name (λ env. in_resources (save_resources r env))

  unfoldable pub load_box_resources : Text → Exec engine Fault Resources
  load_box_resources name = do
    reply ← read_box_env engine name
    env ← lift (needed reply)
    lift (in_resources (load_resources env))

  unfoldable pub inspect_limits :
      Text → ContainerResources → Exec engine Fault (List Fault × ContainerResources)
  inspect_limits id stored w = elim (is_empty id) [
    | true ↦ (ok ([], stored), w)
    | false ↦ (container_inspect engine id >>= λ reply. pure (limits_of stored reply)) w
  ]

  unfoldable pub inspect_resources : Box → Exec engine Fault Resources
  inspect_resources b = do
    stored ← load_box_resources b.name
    agent ← inspect_limits b.agent_id stored.agent
    executor ← inspect_limits b.executor_id stored.executor
    lift (
        all_inspected (agent.0 ++ executor.0)
          (record stored { agent = agent.1; executor = executor.1 }))
