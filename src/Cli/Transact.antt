-- ===== src/Cli/Transact.antt =====
-- applyResourcesTransaction, cmdResourcesSet and cmdResourcesReset (internal/cli/cmd_resources.go).
use tx.Base.{Bool, true, false, List, [], ◌++◌, Result, ok, err, refuse_if, not}
use tx.Box.Listing.{get}
use tx.Box.Saving.{in_resources, inspect_resources, save_box_resources, update_env}
use tx.Box.{Box, Fault, missing_container, lock_busy}
use tx.Cli.Common.{attempt, with_box_lock}
use tx.Cli.Limits.{
  ResourceFlagValues, LimitFault, of_box, no_override, not_updated, not_persisted, has_overrides,
  apply, validate_live_resource_transition, differs, limits, not_set_back, boxed, complete,
}
use tx.Docker.Exec.{Exec, pure, raise, lift, ◌>>=◌, ◌>>◌, container_update_resources}
use tx.Docker.{Engine, Reply, done, not_found, failed}
use tx.Resources.Sizes.{Units}
use tx.Resources.{
  Resources, ContainerResources, Role, agent_role, executor_role, validate, default_resources,
  reset_resources,
}
use tx.Text.{Text}

module _ (engine : Engine) where
  -- An update that is skipped has come through.
  unfoldable pub update_if :
      Bool → Text → ContainerResources → Exec engine LimitFault (Reply (Unit {0}))
  update_if false id c = pure (done tt)
  update_if true id c = container_update_resources engine id (limits c)

  -- The roles whose limits could not be set back.
  unfoldable pub set_back_if :
      Bool → Role → Text → ContainerResources → Exec engine LimitFault (List Role)
  set_back_if false role id c = pure []
  set_back_if true role id c = do
    reply ← container_update_resources engine id (limits c)
    pure (not_set_back role reply)

  module _ (b : Box) (old updated : Resources) where
    unfoldable pub agent_differs : Bool
    agent_differs = differs old.agent updated.agent

    unfoldable pub executor_differs : Bool
    executor_differs = differs old.executor updated.executor

    unfoldable pub after_persist : Result Fault (Unit {0}) → Exec engine LimitFault (Unit {0})
    after_persist (ok u) = pure tt
    after_persist (err f) = do
      executor ← set_back_if executor_differs executor_role b.executor_id old.executor
      agent ← set_back_if agent_differs agent_role b.agent_id old.agent
      raise (not_persisted f (executor ++ agent))

    unfoldable pub executor_failed : Exec engine LimitFault (Unit {0})
    executor_failed = do
      agent ← set_back_if agent_differs agent_role b.agent_id old.agent
      raise (not_updated executor_role agent)

    module _ (persist : Exec engine Fault (Unit {0})) where
      unfoldable pub after_executor : Reply (Unit {0}) → Exec engine LimitFault (Unit {0})
      after_executor (done u) = do persisted ← attempt engine persist; after_persist persisted
      after_executor not_found = executor_failed
      after_executor failed = executor_failed

      unfoldable pub after_agent : Reply (Unit {0}) → Exec engine LimitFault (Unit {0})
      after_agent (done u) = do
        reply ← update_if executor_differs b.executor_id updated.executor
        after_executor reply
      after_agent not_found = raise (not_updated agent_role [])
      after_agent failed = raise (not_updated agent_role [])

      unfoldable pub apply_resources_transaction : Exec engine LimitFault (Unit {0})
      apply_resources_transaction = do
        lift (validate_live_resource_transition old updated)
        reply ← update_if agent_differs b.agent_id updated.agent
        after_agent reply

  unfoldable pub in_command : {A : Type 0} → Exec engine Fault A → Exec engine LimitFault A
  in_command m w = let (r, w') = m w in (boxed r, w')

  unfoldable pub reset_box_resources : Text → Exec engine Fault (Unit {0})
  reset_box_resources name = update_env engine name (λ env. ok (reset_resources env))

  unfoldable pub require_complete_resources : Box → Exec engine Fault Resources
  require_complete_resources b = do
    lift (refuse_if (not (complete b)) missing_container)
    resources ← inspect_resources engine b
    lift (in_resources (validate resources))
    pure resources

  unfoldable pub set_resources :
      Units → ResourceFlagValues → Text → Exec engine LimitFault (Unit {0})
  set_resources units flags name = do
    b ← in_command (get engine name)
    old ← in_command (require_complete_resources b)
    updated ← lift (boxed (in_resources (apply units flags old)))
    apply_resources_transaction b old updated (save_box_resources engine name updated)

  unfoldable pub cmd_resources_set :
      Units → ResourceFlagValues → Text → Exec engine LimitFault (Unit {0})
  cmd_resources_set units flags name = do
    lift (refuse_if (not (has_overrides flags)) no_override)
    with_box_lock engine (of_box lock_busy) name (set_resources units flags name)

  unfoldable pub reset : Text → Exec engine LimitFault (Unit {0})
  reset name = do
    b ← in_command (get engine name)
    old ← in_command (require_complete_resources b)
    apply_resources_transaction b old default_resources (reset_box_resources name)

  unfoldable pub cmd_resources_reset : Text → Exec engine LimitFault (Unit {0})
  cmd_resources_reset name = with_box_lock engine (of_box lock_busy) name (reset name)
