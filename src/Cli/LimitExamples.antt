-- ===== src/Cli/LimitExamples.antt =====
-- Limits that are changed, on engines for tests.
use tx.Base.{arith, ◌≡◌, refl, false, none, [], ◌∷◌, err, ok}
use tx.Box.Create.{checked_resources, needed}
use tx.Box.Saving.{save_box_resources, update_env, in_resources}
use tx.Box.{Box, engine_failed}
use tx.Cli.Limits.{
  limits, differs, same_int, not_set_back, xor, is_unlimited, validate_transition,
  validate_live_resource_transition, not_persisted,
}
use tx.Cli.Transact.{
  apply_resources_transaction, after_agent, after_executor, after_persist, update_if, set_back_if,
  agent_differs, executor_differs,
}
use tx.Decimal.{ℤ, pos}
use tx.Docker.Exec.{call}
use tx.Docker.Fixed.{fixed_engine, new_world}
use tx.Docker.{Engine, done, not_found, failed}
use tx.Resources.{
  Resources, default_resources, validate, validate_allocation, is_too_small, is_too_large,
  save_resources, write_settings,
}
use tx.Text.{Text, codes, text_eq}

abbrev fox_box : Box
fox_box = record {
  name = codes "fox";
  agent_id = codes "a1";
  executor_id = codes "e1";
  agent_state = codes "running";
  executor_state = codes "running";
  executor_web_base_url = [];
  version = codes "1.0";
}

-- Both containers get a CPU more than the default.
abbrev more_cpus : Resources
more_cpus = record default_resources {
  agent = record default_resources.agent { nano_cpus = pos 5_000_000_000 };
  executor = record default_resources.executor { nano_cpus = pos 3_000_000_000 };
}

-- Limits are updated; the env file cannot be written.
abbrev full_disk : Engine
full_disk = record (fixed_engine none not_found (done tt) (λ spec. failed)) {
  write_box_env = λ name env s. (failed, s);
}

abbrev live_defaults : Text → ℤ × ℤ
live_defaults id = elim (text_eq id (codes "a1")) [
  | tx.Base.true ↦ limits default_resources.agent
  | tx.Base.false ↦ limits default_resources.executor
]

set_back_after_failure :
    (apply_resources_transaction full_disk fox_box default_resources more_cpus
      (save_box_resources full_disk (codes "fox") more_cpus)
      (new_world full_disk tt)).0
    ≡ err (not_persisted engine_failed [])
unfolding apply_resources_transaction after_agent after_executor after_persist update_if set_back_if
    agent_differs executor_differs differs same_int not_set_back xor is_unlimited
    validate_transition validate_live_resource_transition save_box_resources update_env
    checked_resources needed call validate validate_allocation is_too_small is_too_large
    save_resources write_settings in_resources
set_back_after_failure = refl
