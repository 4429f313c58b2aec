-- ===== src/Resources/ReadBack.antt =====
-- Limits that are stored in an env file are read back as they are.
use tx.Base.{ℕ, ◌≤◌, ◌≡◌, false, some, [], ◌∷◌, arith, ok}
use tx.Decimal.{
  ℤ, is_negative, IsInt64, format_int, parse_int-format_int, IsPlain, format_int-IsPlain,
}
use tx.Dict.{lookup, lookup-insert}
use tx.Resources.{
  agent_nano_cpus_env, agent_memory_bytes_env, executor_nano_cpus_env, executor_memory_bytes_env,
  agent_volume_budget_bytes_env, executor_volume_budget_bytes_env, Resources, default_resources,
  ContainerResources, is_too_small, validate_allocation, validate, read_field, load_resources,
  settings, write_settings, agent_role, executor_role, Role,
}
use tx.State.{Env}
use tx.Text.Trim.{NoSpace, trim_space-NoSpace}
use tx.Text.{Text, is_space, text_eq}

plain_not_space : (c : ℕ) → 45 ≤ c → c ≤ 57 → is_space c ≡ false
unfolding is_space
plain_not_space c h k = ground arith

IsPlain-NoSpace : (s : Text) → IsPlain s → NoSpace s
IsPlain-NoSpace [] h = tt
IsPlain-NoSpace (c ∷ s) h = (plain_not_space c h.0.0 h.0.1, IsPlain-NoSpace s h.1)

-- A kept value is read back.
read_field-kept :
    (env : Env) (key : Text) (v default : ℤ)
    → lookup key env ≡ some (format_int v)
    → IsInt64 v
    → is_negative v ≡ false
    → read_field env key default ≡ ok v
unfolding read_field
read_field-kept env key v default e i n =
    rw (e, read_field)
      (rw
        (trim_space-NoSpace (format_int v) (IsPlain-NoSpace (format_int v) (format_int-IsPlain v)))
        (rw (parse_int-format_int v i) (rw n)))

-- The values that a valid configuration has.
record IsSane (r : Resources) : Type 0 where
  pub agent_cpus : is_negative r.agent.nano_cpus ≡ false
  pub agent_memory : is_negative r.agent.memory_bytes ≡ false
  pub executor_cpus : is_negative r.executor.nano_cpus ≡ false
  pub executor_memory : is_negative r.executor.memory_bytes ≡ false
  pub agent_budget : is_negative r.agent_volume_budget_bytes ≡ false
  pub executor_budget : is_negative r.executor_volume_budget_bytes ≡ false

allocation_is_sane :
    (role : Role) (c : ContainerResources)
    → validate_allocation role c ≡ ok tt
    → (is_negative c.nano_cpus ≡ false) × (is_negative c.memory_bytes ≡ false)
unfolding validate_allocation is_too_small
allocation_is_sane role c h = ground arith

validate-IsSane : (r : Resources) → validate r ≡ ok tt → IsSane r
unfolding validate
validate-IsSane r h =
    let a = allocation_is_sane agent_role r.agent (ground arith) in
    let e = allocation_is_sane executor_role r.executor (ground arith) in
    record {
      agent_cpus = a.0;
      agent_memory = a.1;
      executor_cpus = e.0;
      executor_memory = e.1;
      agent_budget = ground arith;
      executor_budget = ground arith;
    }

-- Every number of the configuration is an int64.
pub record IsInRange (r : Resources) : Type 0 where
  pub agent_cpus : IsInt64 r.agent.nano_cpus
  pub agent_memory : IsInt64 r.agent.memory_bytes
  pub executor_cpus : IsInt64 r.executor.nano_cpus
  pub executor_memory : IsInt64 r.executor.memory_bytes
  pub agent_budget : IsInt64 r.agent_volume_budget_bytes
  pub executor_budget : IsInt64 r.executor_volume_budget_bytes

-- `env` shows the settings of `r`.
pub record Shows (env : Env) (r : Resources) : Type 0 where
  pub agent_cpus : lookup agent_nano_cpus_env env ≡ some (format_int r.agent.nano_cpus)
  pub agent_memory : lookup agent_memory_bytes_env env ≡ some (format_int r.agent.memory_bytes)
  pub executor_cpus : lookup executor_nano_cpus_env env ≡ some (format_int r.executor.nano_cpus)
  pub executor_memory :
      lookup executor_memory_bytes_env env ≡ some (format_int r.executor.memory_bytes)
  pub agent_budget :
      lookup agent_volume_budget_bytes_env env ≡ some (format_int r.agent_volume_budget_bytes)
  pub executor_budget :
      lookup executor_volume_budget_bytes_env env ≡ some (format_int r.executor_volume_budget_bytes)

pub write_settings-Shows : (env : Env) (r : Resources) → Shows (write_settings env (settings r)) r
unfolding write_settings text_eq
write_settings-Shows env r = record {
  agent_cpus = simp lookup-insert;
  agent_memory = simp lookup-insert;
  executor_cpus = simp lookup-insert;
  executor_memory = simp lookup-insert;
  agent_budget = simp lookup-insert;
  executor_budget = simp lookup-insert;
}

pub load_resources-Shows :
    (env : Env) (r : Resources)
    → Shows env r
    → IsInRange r
    → validate r ≡ ok tt
    → load_resources env ≡ ok r
unfolding load_resources
load_resources-Shows env r s i h =
    let sane = validate-IsSane r h in
    rw
      (read_field-kept env _ _ default_resources.agent.nano_cpus s.agent_cpus i.agent_cpus
        sane.agent_cpus)
      (rw
        (read_field-kept env _ _ default_resources.agent.memory_bytes s.agent_memory i.agent_memory
          sane.agent_memory)
        (rw
          (read_field-kept env _ _ default_resources.executor.nano_cpus s.executor_cpus
            i.executor_cpus sane.executor_cpus)
          (rw
            (read_field-kept env _ _ default_resources.executor.memory_bytes s.executor_memory
              i.executor_memory sane.executor_memory)
            (rw
              (read_field-kept env _ _ default_resources.agent_volume_budget_bytes s.agent_budget
                i.agent_budget sane.agent_budget)
              (rw
                (read_field-kept env _ _ default_resources.executor_volume_budget_bytes
                  s.executor_budget i.executor_budget sane.executor_budget)
                (rw h))))))
