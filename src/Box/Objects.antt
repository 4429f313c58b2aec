-- ===== src/Box/Objects.antt =====
-- internal/box/objects.go: what is looked at before a box is created, upgraded or destroyed.
use tx.Base.{
  Bool, true, false, not, ◌&&◌, ◌||◌, Option, none, some, List, [], ◌∷◌, ◌++◌, if◌then◌else◌,
  Result, ok, err,
}
use tx.Dict.{elem}
use tx.Docker.Exec.{
  Exec, pure, raise, lift, ◌>>=◌, ◌>>◌, list_box_containers, container_inspect, network_inspect,
  volume_inspect,
}
use tx.Docker.{Engine, Reply, done, not_found, failed, Summary, ContainerInfo, NetworkInfo, Labels}
use tx.Names.{NameFault, validate}
use tx.Box.{
  ObjectKind, container, network, volume, Fault, bad_name, engine_failed, objects_exist, not_owned,
  missing_id, agent_name, executor_name, network_name, agent_volume, executor_volume, owned_by_box,
}
use tx.Text.{Text, is_empty}

pub record DestroyTargets : Type 0 where
  pub container_ids : List Text
  pub network_id : Text
  pub volumes : List Text

unfoldable pub named : Result NameFault (Unit {0}) → Result Fault (Unit {0})
named (ok u) = ok u
named (err e) = err (bad_name e)

unfoldable pub config_owned : Option Labels → Text → Bool
config_owned none name = false
config_owned (some labels) name = owned_by_box labels name

-- The answer of inspectOwnedContainer to a reply: the ID, "" for a missing container.
unfoldable pub owned_container : Text → Text → Reply ContainerInfo → Result Fault Text
owned_container id name not_found = ok []
owned_container id name failed = err engine_failed
owned_container id name (done info) =
    if not (config_owned info.config name)
    then err (not_owned container id)
    else if is_empty info.id
    then err (missing_id container id)
    else ok info.id

unfoldable pub owned_network : Text → Text → Reply NetworkInfo → Result Fault Text
owned_network ref name not_found = ok []
owned_network ref name failed = err engine_failed
owned_network ref name (done info) =
    if not (owned_by_box info.labels name)
    then err (not_owned network ref)
    else if is_empty info.id
    then err (missing_id network ref)
    else ok info.id

unfoldable pub owned_volume : Text → Text → Reply Labels → Result Fault Text
owned_volume ref name not_found = ok []
owned_volume ref name failed = err engine_failed
owned_volume ref name (done labels) =
    if not (owned_by_box labels name) then err (not_owned volume ref) else ok ref

-- The IDs of the containers whose labels say that they are the box's.
unfoldable pub labelled_ids : Text → List Summary → List Text
labelled_ids name [] = []
labelled_ids name (c ∷ cs) =
    let rest = labelled_ids name cs in if owned_by_box c.labels name then c.id ∷ rest else rest

unfoldable pub list_or_fail : Reply (List Summary) → Result Fault (List Summary)
list_or_fail (done cs) = ok cs
list_or_fail not_found = err engine_failed
list_or_fail failed = err engine_failed

-- Enters the ID that an inspection found, unless it is missing or entered already.
unfoldable pub enter : List Text → Text → List Text
enter ids id = if not (is_empty id) && not (elem id ids) then ids ++ id ∷ [] else ids

unfoldable pub present : Text → List Text
present v = if is_empty v then [] else v ∷ []

module _ (engine : Engine) where
  -- The name is checked first.
  unfoldable pub check_name : Text → Exec engine Fault (Unit {0})
  check_name name w = (named (validate name), w)

  -- A reply that must be a not-found error.
  unfoldable pub must_be_missing :
      {A : Type 0} → ObjectKind → Text → Reply A → Exec engine Fault (Unit {0})
  must_be_missing kind ref (done a) = raise (objects_exist kind ref)
  must_be_missing kind ref not_found = pure tt
  must_be_missing kind ref failed = raise engine_failed

  -- PreflightFreshObjects
  unfoldable pub preflight_fresh_objects : Text → Exec engine Fault (Unit {0})
  preflight_fresh_objects name = do
    check_name name
    agent ← container_inspect engine (agent_name name)
    must_be_missing container (agent_name name) agent
    executor ← container_inspect engine (executor_name name)
    must_be_missing container (executor_name name) executor
    net ← network_inspect engine (network_name name)
    must_be_missing network (network_name name) net
    agent_vol ← volume_inspect engine (agent_volume name)
    must_be_missing volume (agent_volume name) agent_vol
    executor_vol ← volume_inspect engine (executor_volume name)
    must_be_missing volume (executor_volume name) executor_vol

  unfoldable pub inspect_owned_container : Text → Text → Exec engine Fault Text
  inspect_owned_container id name = do
    reply ← container_inspect engine id
    λ w. (owned_container id name reply, w)

  unfoldable pub inspect_owned_network : Text → Text → Exec engine Fault Text
  inspect_owned_network ref name = do
    reply ← network_inspect engine ref
    λ w. (owned_network ref name reply, w)

  unfoldable pub inspect_owned_volume : Text → Text → Exec engine Fault Text
  inspect_owned_volume ref name = do
    reply ← volume_inspect engine ref
    λ w. (owned_volume ref name reply, w)

  -- The loop over the references; the IDs found so far are those seen.
  unfoldable pub collect_containers : Text → List Text → List Text → Exec engine Fault (List Text)
  collect_containers name ids [] w = (ok ids, w)
  collect_containers name ids (ref ∷ refs) w = elim (is_empty ref || elem ref ids) [
    | true ↦ collect_containers name ids refs w
    | false ↦
        (inspect_owned_container ref name >>= λ id. collect_containers name (enter ids id) refs) w
  ]

  unfoldable pub inspect_destroy_targets : Text → Exec engine Fault DestroyTargets
  inspect_destroy_targets name = do
    check_name name
    reply ← list_box_containers engine
    containers ← lift (list_or_fail reply)
    ids ←
        collect_containers name []
          (agent_name name ∷ executor_name name ∷ labelled_ids name containers)
    network_id ← inspect_owned_network (network_name name) name
    agent_vol ← inspect_owned_volume (agent_volume name) name
    executor_vol ← inspect_owned_volume (executor_volume name) name
    pure (record {
      container_ids = ids;
      network_id = network_id;
      volumes = present agent_vol ++ present executor_vol;
    })

  unfoldable pub preflight_existing_objects : Text → Exec engine Fault (List Text)
  preflight_existing_objects name = do
    targets ← inspect_destroy_targets name
    pure (targets.container_ids)
