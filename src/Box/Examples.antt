-- ===== src/Box/Examples.antt =====
-- Runs on engines for tests.
use tx.Base.{
  false, All, ◌++◌, ◌<◌, if◌then◌else◌, Result, true, Option, none, some, [], ◌∷◌, ok, err, ◌≡◌,
  ◌≢◌, ◌⊎◌, refl,
}
use tx.Box.Backed.{backed, changes, any_event}
use tx.Box.Create.{
  create, CreateFault, not_created, needed, roll_back, create_objects, checked_resources,
  prepared_mounts, ensure_network, ensure_volume, ensured_network, ensured_volume, objects_created,
  create_containers, agent_created, create_executor, executor_created,
}
use tx.Box.Config.{
  Net, save_executor_config, publish_address, web_base_url_env, publish_env, dns_env,
}
use tx.Box.Saved.{IsStored, save_executor_config-IsStored}
use tx.State.{Env}
use tx.Text.Split.{join}
use tx.Box.Created.{creates, removes, create-no_leak}
use tx.Box.Destroy.{
  destroy, DestroyFault, refused, cleanup, env_kept, remove_targets, removal_errors, env_reply,
  drop_env, remove_containers, remove_network, remove_volumes, remove_volume, remove_if_owned,
}
use tx.Box.Destroyed.{destroy-backed, destroy-refused}
use tx.Box.Fresh.{preflight_fresh_objects-missing}
use tx.Box.Kept.{is_env_removal, destroy-keeps_env}
use tx.Box.Objects.{
  DestroyTargets, inspect_destroy_targets, preflight_fresh_objects, check_name, must_be_missing,
  named, list_or_fail, labelled_ids, collect_containers, enter, present, config_owned,
  owned_container, owned_network, owned_volume, inspect_owned_container, inspect_owned_network,
  inspect_owned_volume,
}
use tx.Box.{
  Fault, container, Box, not_owned, engine_failed, agent_name, executor_name, network_name,
  agent_volume, executor_volume, owned_by_box,
}
use tx.Dict.{lookup, elem}
use tx.Docker.Exec.{call}
use tx.Docker.Fixed.{labels_of, fixed_engine, new_world}
use tx.Docker.{
  Engine, World, Reply, done, not_found, failed, ContainerSpec, volume_inspected, network_inspected,
  container_inspected,
}
use tx.Mounts.{Host, FileInfo}
use tx.Mounts.Prepare.{prepare_agent_mounts, prepare_each, group_set, recheck, sort_texts}
use tx.Mounts.Validate.{validate_agent_mount_set, validate_targets}
use tx.Resources.{default_resources, validate_allocation, is_too_small, is_too_large}
use tx.Resources
use tx.Box.Specs.{ExecutorConfig, CreateOpts, new_agent_container_spec, executor_spec}
use tx.Names.{validate, matches_pattern, all_name_chars}
use tx.Text.{len, Text, codes, text_eq, is_empty}

abbrev fox : Text
fox = codes "fox"

abbrev none_created : ContainerSpec → Reply Text
none_created spec = failed

-- The box's own containers, which are removed.
abbrev own_engine : Engine
own_engine = fixed_engine (some fox) (done (labels_of fox)) (done tt) none_created

-- Another box's containers under this box's names.
abbrev foreign_engine : Engine
foreign_engine = fixed_engine (some (codes "owl")) not_found (done tt) none_created

-- The box's own containers, whose removal fails.
abbrev stuck_engine : Engine
stuck_engine = fixed_engine (some fox) not_found failed none_created

-- No object; the agent container can be created, the executor container cannot.
abbrev half_engine : Engine
half_engine = fixed_engine none not_found (done tt) only_agent
  where
    only_agent : ContainerSpec → Reply Text
    only_agent spec =
        if text_eq spec.name (codes "tx9-fox-agent") then done (codes "a1") else failed

destroy-backed_example :
    backed fox (destroy own_engine fox (new_world own_engine tt)).1.trace ≡ true
destroy-backed_example =
    destroy-backed own_engine fox (new_world own_engine tt) (unfold backed in refl)

-- Runs with all that they call open.
inspects : (engine : Engine) → World engine → Result Fault DestroyTargets
unfolding inspect_destroy_targets check_name named validate list_or_fail labelled_ids
    collect_containers enter present config_owned owned_container owned_network owned_volume
    inspect_owned_container inspect_owned_network inspect_owned_volume owned_by_box agent_name
    executor_name network_name agent_volume executor_volume lookup elem text_eq is_empty call len
    matches_pattern all_name_chars
inspects engine w = (inspect_destroy_targets engine fox w).0

destroys : (engine : Engine) → World engine → Result DestroyFault (Unit {0})
unfolding inspects destroy remove_targets remove_containers remove_network remove_volumes
    remove_volume remove_if_owned removal_errors drop_env env_reply
destroys engine w = (destroy engine fox w).0

creation : (engine : Engine) → Host → CreateOpts → World engine → Result CreateFault Box
unfolding create create_objects checked_resources prepared_mounts ensure_network ensured_network
    ensure_volume ensured_volume objects_created create_containers agent_created create_executor
    executor_created needed roll_back agent_name new_agent_container_spec executor_spec
    executor_name network_name agent_volume text_eq call tx.Resources.validate validate_allocation
    is_too_small is_too_large prepare_agent_mounts validate_agent_mount_set validate_targets
    prepare_each group_set recheck sort_texts
creation engine host opts w = (create engine host (codes "1.0") opts w).0

preflights : (engine : Engine) → World engine → Result Fault (Unit {0})
unfolding preflight_fresh_objects inspects must_be_missing
preflights engine w = (preflight_fresh_objects engine fox w).0

foreign_is_seen :
    (inspect_destroy_targets foreign_engine fox (new_world foreign_engine tt)).0
    ≡ err (not_owned container (codes "tx9-fox-agent"))
unfolding inspects
foreign_is_seen = refl

destroy-refused_example :
    ((destroy foreign_engine fox (new_world foreign_engine tt)).0
      ≡ err (refused (not_owned container (codes "tx9-fox-agent"))))
    × (changes (destroy foreign_engine fox (new_world foreign_engine tt)).1.trace ≡ changes [])
destroy-refused_example =
    destroy-refused foreign_engine fox (new_world foreign_engine tt)
      (not_owned container (codes "tx9-fox-agent")) foreign_is_seen

removal_fails :
    (destroy stuck_engine fox (new_world stuck_engine tt)).0
    ≡ err (cleanup (engine_failed ∷ engine_failed ∷ []))
unfolding destroys
removal_fails = refl

cleanup_is_not_env_kept : cleanup (engine_failed ∷ engine_failed ∷ []) ≢ env_kept
cleanup_is_not_env_kept e = cc

destroy-keeps_env_example :
    any_event is_env_removal (destroy stuck_engine fox (new_world stuck_engine tt)).1.trace
    ≡ any_event is_env_removal []
destroy-keeps_env_example =
    destroy-keeps_env stuck_engine fox (new_world stuck_engine tt)
      (cleanup (engine_failed ∷ engine_failed ∷ [])) removal_fails cleanup_is_not_env_kept

nothing_there : (preflight_fresh_objects half_engine fox (new_world half_engine tt)).0 ≡ ok tt
unfolding preflights
nothing_there = refl

preflight_fresh_objects-missing_example :
    (validate fox ≡ ok tt)
    × ((preflight_fresh_objects half_engine fox (new_world half_engine tt)).1.trace
        ≡ volume_inspected (executor_volume fox) not_found
          ∷ volume_inspected (agent_volume fox) not_found
          ∷ network_inspected (network_name fox) not_found
          ∷ container_inspected (executor_name fox) not_found
          ∷ container_inspected (agent_name fox) not_found
          ∷ [])
preflight_fresh_objects-missing_example =
    preflight_fresh_objects-missing half_engine fox (new_world half_engine tt) nothing_there

no_perm : (info : FileInfo) → ◌≡◌ {A = Option FileInfo} none (some info) → info.perm < 512
no_perm info e = cc

abbrev bare_host : Host
bare_host = record {
  stat = λ p. none;
  perm_bits = λ p. no_perm;
  abs = λ p. some p;
  eval_symlinks = λ p. some p;
  mountinfo = none;
}

abbrev fox_opts : CreateOpts
fox_opts = record {
  name = fox;
  image = codes "tx9-box:dev";
  token = codes "t";
  executor = record { web_base_url = []; publish_ip = []; publish_port = []; dns = [] };
  resources = default_resources;
  agent_mounts = [];
  no_start = true;
}

executor_fails :
    (create half_engine bare_host (codes "1.0") fox_opts (new_world half_engine tt)).0
    ≡ err (not_created engine_failed)
unfolding creation
executor_fails = refl

agent_is_created :
    any_event
      (creates (codes "a1"))
      (create half_engine bare_host (codes "1.0") fox_opts (new_world half_engine tt)).1.trace
    ≡ true
unfolding creation any_event
agent_is_created = refl

create-no_leak_example :
    (any_event (creates (codes "a1")) [] ≡ true)
    ⊎ (any_event
          (removes (codes "a1"))
          (create half_engine bare_host (codes "1.0") fox_opts (new_world half_engine tt)).1.trace
        ≡ true)
create-no_leak_example =
    create-no_leak half_engine bare_host (codes "1.0") fox_opts (new_world half_engine tt)
      (not_created engine_failed) executor_fails refl (codes "a1") agent_is_created

abbrev plain_net : Net
plain_net = record {
  parse_url = λ u. none;
  split_host_port = λ a. none;
  join_host_port = λ h p. h ++ (b':' ∷ p);
  parse_ipv4 = λ a. some a;
  getenv = λ k. [];
}

abbrev local_config : ExecutorConfig
local_config = record {
  web_base_url = [];
  publish_ip = codes "127.0.0.1";
  publish_port = codes "32770";
  dns = codes "1.1.1.1" ∷ [];
}

abbrev other_env : Env
other_env = (codes "OTHER", codes "x") ∷ []

not_other :
    All
      (λ k. text_eq k (codes "OTHER") ≡ false)
      (codes "EXECUTOR_MCP_TOKEN" ∷ web_base_url_env ∷ publish_env ∷ dns_env ∷ [])
unfolding text_eq
not_other = (refl, (refl, (refl, (refl, tt))))

save_executor_config-IsStored_example :
    IsStored web_base_url_env [] (save_executor_config plain_net (codes "t") local_config other_env)
    × IsStored publish_env
        (publish_address plain_net local_config)
        (save_executor_config plain_net (codes "t") local_config other_env)
    × IsStored dns_env
        (join (codes ",") (codes "1.1.1.1" ∷ []))
        (save_executor_config plain_net (codes "t") local_config other_env)
    × (lookup
          (codes "EXECUTOR_MCP_TOKEN")
          (save_executor_config plain_net (codes "t") local_config other_env)
        ≡ some (codes "t"))
    × (lookup (codes "OTHER") (save_executor_config plain_net (codes "t") local_config other_env)
        ≡ lookup (codes "OTHER") other_env)
save_executor_config-IsStored_example =
    save_executor_config-IsStored plain_net (codes "t") local_config other_env (codes "OTHER")
      not_other
