-- ===== src/Resources/Examples.antt =====
-- The default configuration, saved and loaded again.
use tx.Base.{◌≡◌, false, refl, arith, All, ok}
use tx.Dict.{lookup}
use tx.Resources.ReadBack.{IsInRange}
use tx.Resources.Persist.{load_resources-save_resources, resource_keys_only}
use tx.Resources.{
  default_resources, settings, validate, validate_allocation, is_too_small, is_too_large,
  write_settings, save_resources, load_resources, reset_resources, resource_env_keys,
}
use tx.State.Examples.{token_env, token_env-IsMap, token_env-IsPair}
use tx.State.{Env, read_env, print_env}
use tx.Text.{Text, text_eq}

abbrev saved_env : Env
saved_env = write_settings token_env (settings default_resources)

defaults-saved : save_resources default_resources token_env ≡ ok saved_env
unfolding save_resources validate validate_allocation is_too_small is_too_large
defaults-saved = refl

defaults-IsInRange : IsInRange default_resources
defaults-IsInRange = record {
  agent_cpus = omega arith;
  agent_memory = omega arith;
  executor_cpus = omega arith;
  executor_memory = omega arith;
  agent_budget = omega arith;
  executor_budget = omega arith;
}

load_resources-save_resources_example :
    load_resources (read_env (print_env saved_env)) ≡ ok default_resources
load_resources-save_resources_example =
    load_resources-save_resources default_resources token_env defaults-IsInRange token_env-IsMap
      token_env-IsPair defaults-saved

resource_keys_only_example :
    ((j : Text)
      → All (λ k. text_eq k j ≡ false) resource_env_keys
      → (lookup j saved_env ≡ lookup j token_env)
        × (lookup j (reset_resources token_env) ≡ lookup j token_env))
    × (load_resources (reset_resources token_env) ≡ ok default_resources)
resource_keys_only_example = resource_keys_only default_resources token_env defaults-saved
