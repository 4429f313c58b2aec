-- ===== src/Box/Create.antt =====
-- internal/box: Create (create.go) with ensureNetwork, ensureVolume, Start and Stop (box.go). The
-- version is version.Version, set by the build; the host is the one of `Mounts`.
use tx.Base.{true, false, not, ◌||◌, List, [], ◌∷◌, ◌++◌, if◌then◌else◌, Result, ok, err}
use tx.Docker.Exec.{
  Exec, pure, raise, lift, ◌>>=◌, ◌>>◌, network_inspect, volume_inspect, network_create,
  volume_create, container_create, container_remove, container_start, container_stop,
}
use tx.Docker.{
  Engine, Reply, done, not_found, failed, NetworkInfo, Labels, ContainerSpec, box_labels,
}
use tx.Box.{
  Box, Fault, bad_mounts, bad_resources, engine_failed, not_owned, network, volume,
  missing_container, network_name, agent_volume, executor_volume, owned_by_box,
}
use tx.Mounts.Prepare.{prepare_agent_mounts}
use tx.Mounts.{AgentMount, Host}
use tx.Resources.{Resources, validate}
use tx.Text.{Text, codes, is_empty}
use tx.Box.Specs.{CreateOpts, new_agent_container_spec, executor_spec}

-- The error of Create: before or while the containers are created; in removing the agent container
-- again; or in starting the box, which is returned then too.
pub data CreateFault : Type 0 where
  not_created : Fault → CreateFault
  not_rolled_back : Fault → CreateFault
  not_started : Box → Fault → CreateFault

-- A reply that must be a value.
unfoldable pub needed : {A : Type 0} → Reply A → Result Fault A
needed (done a) = ok a
needed not_found = err engine_failed
needed failed = err engine_failed

unfoldable pub checked_resources : Resources → Result Fault (Unit {0})
checked_resources r = elim (validate r) [ ok u ↦ ok u | err e ↦ err (bad_resources e) ]

unfoldable pub prepared_mounts : Host → List AgentMount → Result Fault (List Text × List Text)
prepared_mounts host mounts = elim (prepare_agent_mounts host mounts) [
  | ok p ↦ ok p
  | err e ↦ err (bad_mounts e)
]

module _ (engine : Engine) where
  unfoldable pub ensured_network : Text → Text → Text → Reply NetworkInfo → Exec engine Fault Text
  ensured_network net_name box_name ver (done info) = lift (
      if not (owned_by_box info.labels box_name)
      then err (not_owned network net_name)
      else ok info.id)
  ensured_network net_name box_name ver not_found = do
    reply ← network_create engine net_name (box_labels box_name ver [])
    lift (needed reply)
  ensured_network net_name box_name ver failed = raise engine_failed

  unfoldable pub ensure_network : Text → Text → Text → Exec engine Fault Text
  ensure_network net_name box_name ver = do
    reply ← network_inspect engine net_name
    ensured_network net_name box_name ver reply

  unfoldable pub ensured_volume : Text → Text → Text → Reply Labels → Exec engine Fault Text
  ensured_volume vol_name box_name ver (done labels) =
      lift (
        if not (owned_by_box labels box_name) then err (not_owned volume vol_name) else ok vol_name)
  ensured_volume vol_name box_name ver not_found = do
    reply ← volume_create engine vol_name (box_labels box_name ver [])
    lift (needed reply)
  ensured_volume vol_name box_name ver failed = raise engine_failed

  unfoldable pub ensure_volume : Text → Text → Text → Exec engine Fault Text
  ensure_volume vol_name box_name ver = do
    reply ← volume_inspect engine vol_name
    ensured_volume vol_name box_name ver reply

  -- The executor is started first.
  unfoldable pub start : Box → Exec engine Fault (Unit {0})
  start b w = elim (is_empty b.agent_id || is_empty b.executor_id) [
    | true ↦ (err (missing_container), w)
    | false ↦
        (do
          executor ← container_start engine b.executor_id
          lift (needed executor)
          agent ← container_start engine b.agent_id
          lift (needed agent))
          w
  ]

  stop_error : Reply (Unit {0}) → List Fault
  stop_error (done u) = []
  stop_error not_found = engine_failed ∷ []
  stop_error failed = engine_failed ∷ []

  stop_one : Text → Exec engine (List Fault) (List Fault)
  stop_one id w = elim (is_empty id) [
    | true ↦ (ok [], w)
    | false ↦ (container_stop engine id >>= λ reply. pure (stop_error reply)) w
  ]

  no_errors : List Fault → Result (List Fault) (Unit {0})
  no_errors [] = ok tt
  no_errors (e ∷ es) = err (e ∷ es)

  -- The agent is stopped first, and an error does not keep the executor from being stopped.
  unfoldable pub stop : Box → Exec engine (List Fault) (Unit {0})
  unfolding stop_one stop_error no_errors
  stop b = do
    agent ← stop_one b.agent_id
    executor ← stop_one b.executor_id
    lift (no_errors (agent ++ executor))

  -- The objects that the containers need: the network's ID, the binds and the groups.
  unfoldable pub create_objects :
      Host → Text → CreateOpts → Exec engine Fault (Text × (List Text × List Text))
  create_objects host ver opts = do
    lift (checked_resources opts.resources)
    mounts ← lift (prepared_mounts host opts.agent_mounts)
    net_id ← ensure_network (network_name opts.name) opts.name ver
    agent_vol ← ensure_volume (agent_volume opts.name) opts.name ver
    executor_vol ← ensure_volume (executor_volume opts.name) opts.name ver
    pure (net_id, mounts)

  -- The executor container was not created: the agent container goes again.
  unfoldable pub roll_back : Reply (Unit {0}) → CreateFault
  roll_back (done u) = not_created engine_failed
  roll_back not_found = not_created engine_failed
  roll_back failed = not_rolled_back engine_failed

  unfoldable pub created_box : CreateOpts → Text → Text → Text → Text → Box
  created_box opts ver agent_id executor_id state = record {
    name = opts.name;
    agent_id = agent_id;
    executor_id = executor_id;
    agent_state = state;
    executor_state = state;
    executor_web_base_url = opts.executor.web_base_url;
    version = ver;
  }

  -- The box is started, unless it is not to be.
  unfoldable pub finish : CreateOpts → Text → Text → Text → Exec engine CreateFault Box
  finish opts ver agent_id executor_id w =
      let b = created_box opts ver agent_id executor_id (codes "created") in
      elim opts.no_start [
        | true ↦ (ok b, w)
        | false ↦
            let (r, w') = start b w in
            (
              elim r [
                | ok u ↦ ok (created_box opts ver agent_id executor_id (codes "running"))
                | err e ↦ err (not_started b e)
              ],
              w',
            )
      ]

  -- What follows the creation of the executor container.
  unfoldable pub executor_created :
      CreateOpts → Text → Text → Result Fault Text → Exec engine CreateFault Box
  executor_created opts ver agent_id (ok executor_id) = finish opts ver agent_id executor_id
  executor_created opts ver agent_id (err e) = do
    removal ← container_remove engine agent_id
    raise (roll_back removal)

  unfoldable pub create_executor : CreateOpts → Text → Text → Text → Exec engine CreateFault Box
  create_executor opts ver net_id agent_id = do
    reply ← container_create engine (executor_spec opts ver net_id)
    executor_created opts ver agent_id (needed reply)

  -- What follows the creation of the agent container.
  unfoldable pub agent_created :
      CreateOpts → Text → Text → Result Fault Text → Exec engine CreateFault Box
  agent_created opts ver net_id (ok agent_id) = create_executor opts ver net_id agent_id
  agent_created opts ver net_id (err e) = raise (not_created e)

  abbrev pub agent_spec : CreateOpts → Text → Text × (List Text × List Text) → ContainerSpec
  agent_spec opts ver (net_id, (binds, groups)) =
      new_agent_container_spec opts.name opts.image opts.token ver net_id (agent_volume opts.name)
        binds groups opts.resources.agent

  unfoldable pub create_containers :
      CreateOpts → Text → Text × (List Text × List Text) → Exec engine CreateFault Box
  create_containers opts ver objects = do
    reply ← container_create engine (agent_spec opts ver objects)
    agent_created opts ver objects.0 (needed reply)

  unfoldable pub objects_created :
      CreateOpts
      → Text
      → Result Fault (Text × (List Text × List Text))
      → Exec engine CreateFault Box
  objects_created opts ver (ok objects) = create_containers opts ver objects
  objects_created opts ver (err e) = raise (not_created e)

  unfoldable pub create : Host → Text → CreateOpts → Exec engine CreateFault Box
  create host ver opts w =
      let (r, w') = create_objects host ver opts w in objects_created opts ver r w'
