-- ===== src/Box/Destroy.antt =====
-- internal/box/create.go, Destroy: every object is inspected, then removed, and the errors of the
-- removals are collected.
use tx.Base.{true, false, List, [], ◌∷◌, ◌++◌, Result, ok, err}
use tx.Docker.Exec.{
  Exec, pure, raise, ◌>>=◌, container_remove, network_remove, volume_remove, remove_box_env,
}
use tx.Docker.{Engine, Reply, done, not_found, failed}
use tx.Box.{Fault, engine_failed}
use tx.Box.Objects.{DestroyTargets, inspect_destroy_targets, inspect_owned_volume}
use tx.Text.{Text, is_empty}

pub data DestroyFault : Type 0 where
  refused : Fault → DestroyFault
  cleanup : List Fault → DestroyFault
  env_kept : DestroyFault

-- The error of a removal: a missing object is none.
unfoldable pub removal_errors : Reply (Unit {0}) → List Fault
removal_errors (done u) = []
removal_errors not_found = []
removal_errors failed = engine_failed ∷ []

module _ (engine : Engine) where
  unfoldable pub remove_containers : List Text → Exec engine DestroyFault (List Fault)
  remove_containers [] = pure []
  remove_containers (id ∷ ids) = do
    reply ← container_remove engine id
    rest ← remove_containers ids
    pure (removal_errors reply ++ rest)

  unfoldable pub remove_network : Text → Exec engine DestroyFault (List Fault)
  remove_network id w = elim (is_empty id) [
    | true ↦ (ok [], w)
    | false ↦ (network_remove engine id >>= λ reply. pure (removal_errors reply)) w
  ]

  -- The answer of the inspection right before the removal decides.
  unfoldable pub remove_if_owned : Text → Result Fault Text → Exec engine DestroyFault (List Fault)
  remove_if_owned volume (err e) w = (ok (e ∷ []), w)
  remove_if_owned volume (ok owned) w = elim (is_empty owned) [
    | true ↦ (ok [], w)
    | false ↦ (volume_remove engine volume >>= λ reply. pure (removal_errors reply)) w
  ]

  unfoldable pub remove_volume : Text → Text → Exec engine DestroyFault (List Fault)
  remove_volume name volume w =
      let (r, w') = inspect_owned_volume engine volume name w in remove_if_owned volume r w'

  unfoldable pub remove_volumes : Text → List Text → Exec engine DestroyFault (List Fault)
  remove_volumes name [] = pure []
  remove_volumes name (v ∷ vs) = do
    errors ← remove_volume name v
    rest ← remove_volumes name vs
    pure (errors ++ rest)

  unfoldable pub env_reply : Reply (Unit {0}) → Exec engine DestroyFault (Unit {0})
  env_reply (done u) = pure tt
  env_reply not_found = pure tt
  env_reply failed = raise env_kept

  -- The token is dropped only once every removal has succeeded.
  unfoldable pub drop_env : Text → List Fault → Exec engine DestroyFault (Unit {0})
  drop_env name [] = do reply ← remove_box_env engine name; env_reply reply
  drop_env name (e ∷ es) = raise (cleanup (e ∷ es))

  unfoldable pub remove_targets :
      Text → Result Fault DestroyTargets → Exec engine DestroyFault (Unit {0})
  remove_targets name (err e) = raise (refused e)
  remove_targets name (ok targets) = do
    containers ← remove_containers targets.container_ids
    network ← remove_network targets.network_id
    volumes ← remove_volumes name targets.volumes
    drop_env name (containers ++ (network ++ volumes))

  unfoldable pub destroy : Text → Exec engine DestroyFault (Unit {0})
  destroy name w = let (r, w') = inspect_destroy_targets engine name w in remove_targets name r w'
