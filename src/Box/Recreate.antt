-- ===== src/Box/Recreate.antt =====
-- RecreateAgent with imageConfiguresMountGroups and configureAgentMountGroups
-- (internal/box/create.go). The box that Go updates in place is
-- part of the result; an error is returned alone.
use tx.Base.{
  ℕ, ◌==◌, Bool, true, false, not, ◌&&◌, Option, none, some, List, [], ◌∷◌, if◌then◌else◌, Result,
  ok, err,
}
use tx.Box.Create.{needed, ensure_network, ensure_volume, prepared_mounts}
use tx.Box.Objects.{config_owned}
use tx.Box.Specs.{new_agent_container_spec}
use tx.Box.{
  Box, Fault, engine_failed, missing_container, not_owned, container, no_image, no_state,
  no_host_config, stopped_old_image, exited, network_name, agent_volume,
}
use tx.Decimal.{ℤ}
use tx.Docker.Exec.{
  Exec, pure, lift, ◌>>=◌, ◌>>◌, container_inspect, container_stop, container_remove,
  container_create, container_start, exec, run_ephemeral,
}
use tx.Docker.{Engine, Reply, done, not_found, failed, ContainerInfo, ExecResult}
use tx.Mounts.{AgentMount, Host}
use tx.Resources.{ContainerResources}
use tx.Text.{Text, codes, is_empty}

-- What is kept of the container that is replaced.
pub record Existing : Type 0 where
  pub image : Text
  pub running : Bool
  pub resources : ContainerResources

unfoldable pub with_state : Text → Text → Option Bool → Option (ℤ × ℤ) → Result Fault Existing
with_state id image none host_config = err no_state
with_state id image (some running) none = err no_host_config
with_state id image (some running) (some (cpus, memory)) = ok (record {
  image = image;
  running = running;
  resources = record { nano_cpus = cpus; memory_bytes = memory };
})

unfoldable pub existing : Text → Text → ContainerInfo → Result Fault Existing
existing id name info =
    if not (config_owned info.config name)
    then err (not_owned container id)
    else if is_empty info.image
    then err no_image
    else with_state id info.image info.running info.host_config

unfoldable pub existing_reply : Text → Text → Reply ContainerInfo → Result Fault Existing
existing_reply id name (done info) = existing id name info
existing_reply id name not_found = err engine_failed
existing_reply id name failed = err engine_failed

-- The exit code of grep.
unfoldable pub probe_result : Reply ℕ → Result Fault Bool
probe_result (done code) =
    if code == 0 then ok true else if code == 1 then ok false else err (exited code)
probe_result not_found = err engine_failed
probe_result failed = err engine_failed

unfoldable pub group_result : Reply ExecResult → Result Fault (Unit {0})
group_result (done r) = if not (r.exit_code == 0) then err (exited r.exit_code) else ok tt
group_result not_found = err engine_failed
group_result failed = err engine_failed

abbrev pub has_groups : List Text → Bool
has_groups [] = false
has_groups (g ∷ gs) = true

-- The box with its new agent container.
abbrev pub with_agent : Box → Text → Text → Box
with_agent b id state = record b { agent_id = id; agent_state = state }

abbrev configure_agent_mount_group_script : Text
configure_agent_mount_group_script =
    codes
      "set -euo pipefail\ngid=\"$1\"\ngroup=\"$(getent group \"$gid\" | cut -d: -f1 || true)\"\nif [ -z \"$group\" ]; then\n  group=\"tx9-mount-$gid\"\n  groupadd --gid \"$gid\" \"$group\"\nfi\nusermod --append --groups \"$group\" agent\n"

module _ (engine : Engine) where
  unfoldable pub image_configures_mount_groups : Text → Exec engine Fault Bool
  image_configures_mount_groups image = do
    reply ← run_ephemeral engine (record {
      image = image;
      entrypoint = codes "grep" ∷ [];
      cmd = codes "-q" ∷ codes "TX9_AGENT_MOUNT_GIDS" ∷ codes "/opt/hermes-box/bin/entrypoint" ∷ [];
      binds = [];
      stdin = [];
    })
    lift (probe_result reply)

  -- Whether the entrypoint does it; a stopped box cannot be set up by `exec`.
  unfoldable pub entrypoint_configures : List Text → Existing → Exec engine Fault Bool
  entrypoint_configures groups old w = elim (has_groups groups) [
    | false ↦ (ok true, w)
    | true ↦
        (do
          configures ← image_configures_mount_groups old.image
          lift (if not configures && not old.running then err stopped_old_image else ok configures))
          w
  ]

  unfoldable pub configure_agent_mount_groups : Text → List Text → Exec engine Fault (Unit {0})
  configure_agent_mount_groups id [] = pure tt
  configure_agent_mount_groups id (group ∷ groups) = do
    reply ←
        exec engine id
          (codes "bash"
            ∷ codes "-c"
            ∷ configure_agent_mount_group_script
            ∷ codes "tx9-mount-group"
            ∷ group
            ∷ [])
          (codes "root")
    lift (group_result reply)
    configure_agent_mount_groups id groups

  unfoldable pub stop_if : Bool → Text → Exec engine Fault (Unit {0})
  stop_if false id = pure tt
  stop_if true id = do reply ← container_stop engine id; lift (needed reply)

  unfoldable pub start_if : Bool → Text → Exec engine Fault (Unit {0})
  start_if false id = pure tt
  start_if true id = do reply ← container_start engine id; lift (needed reply)

  -- The set-up by `exec`, with the restart behind it.
  unfoldable pub late_groups : Bool → Text → List Text → Exec engine Fault (Unit {0})
  late_groups false id groups = pure tt
  late_groups true id groups = do
    configure_agent_mount_groups id groups
    stopped ← container_stop engine id
    lift (needed stopped)
    started ← container_start engine id
    lift (needed started)

  unfoldable pub replace_agent :
      Box → Text → List Text → List Text → Existing → Bool → Text → Exec engine Fault (Box × Bool)
  replace_agent b token binds groups old configures net_id = do
    stop_if old.running b.agent_id
    removed ← container_remove engine b.agent_id
    lift (needed removed)
    created ← container_create engine (
        new_agent_container_spec b.name old.image token b.version net_id (agent_volume b.name) binds
          groups old.resources)
    id ← lift (needed created)
    start_if old.running id
    late_groups (has_groups groups && not configures) id groups
    pure (with_agent b id (if old.running then codes "running" else codes "created"), old.running)

  unfoldable pub recreate_agent :
      Host → Box → Text → List AgentMount → Exec engine Fault (Box × Bool)
  recreate_agent host b token mounts w = elim (is_empty b.agent_id) [
    | true ↦ (err missing_container, w)
    | false ↦
        (do
          prepared ← lift (prepared_mounts host mounts)
          reply ← container_inspect engine b.agent_id
          old ← lift (existing_reply b.agent_id b.name reply)
          configures ← entrypoint_configures prepared.1 old
          net_id ← ensure_network engine (network_name b.name) b.name b.version
          volume_name ← ensure_volume engine (agent_volume b.name) b.name b.version
          replace_agent b token prepared.0 prepared.1 old configures net_id)
          w
  ]
