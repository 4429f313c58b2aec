-- ===== src/Resources.antt =====
-- internal/box/resources.go: CPU, memory and volume settings, their checks, and how they are kept in
-- the env file of a box; `Sizes` has the parsers. The printers of sizes are not modelled.
pub mod ReadBack
pub mod Persist
pub mod Sizes
mod Examples
use tx.Base.{
  ℕ, ◌+◌, ◌*◌, ◌/◌, Bool, true, false, not, ◌&&◌, ◌||◌, Option, none, some, List, [], ◌∷◌, ltb,
  if◌then◌else◌, Result, ok, err, ◌>>=◌, ◌>>◌, refuse_if,
}
use tx.Decimal.{ℤ, pos, negsuc, is_negative, max_int64, format_int, parse_int}
use tx.Dict.{lookup, insert, delete}
use tx.State.{Env}
use tx.Text.Trim.{trim_space}
use tx.Text.{Text, codes}

abbrev pub agent_nano_cpus_env : Text
agent_nano_cpus_env = codes "TX9_AGENT_NANO_CPUS"

abbrev pub agent_memory_bytes_env : Text
agent_memory_bytes_env = codes "TX9_AGENT_MEMORY_BYTES"

abbrev pub executor_nano_cpus_env : Text
executor_nano_cpus_env = codes "TX9_EXECUTOR_NANO_CPUS"

abbrev pub executor_memory_bytes_env : Text
executor_memory_bytes_env = codes "TX9_EXECUTOR_MEMORY_BYTES"

abbrev pub agent_volume_budget_bytes_env : Text
agent_volume_budget_bytes_env = codes "TX9_AGENT_VOLUME_BUDGET_BYTES"

abbrev pub executor_volume_budget_bytes_env : Text
executor_volume_budget_bytes_env = codes "TX9_EXECUTOR_VOLUME_BUDGET_BYTES"

-- units.GiB and units.MiB
abbrev gib : ℕ
gib = 1024 * 1024 * 1024

abbrev pub minimum_memory_bytes : ℕ
minimum_memory_bytes = 6 * 1024 * 1024

abbrev pub resource_env_keys : List Text
resource_env_keys =
    agent_nano_cpus_env ∷ agent_memory_bytes_env ∷ executor_nano_cpus_env
    ∷ executor_memory_bytes_env ∷ agent_volume_budget_bytes_env ∷ executor_volume_budget_bytes_env
    ∷ []

pub record ContainerResources : Type 0 where
  pub nano_cpus : ℤ
  pub memory_bytes : ℤ

pub record Resources : Type 0 where
  pub agent : ContainerResources
  pub executor : ContainerResources
  pub agent_volume_budget_bytes : ℤ
  pub executor_volume_budget_bytes : ℤ

abbrev pub default_resources : Resources
default_resources = record {
  agent = record { nano_cpus = pos 4_000_000_000; memory_bytes = pos (8 * gib) };
  executor = record { nano_cpus = pos 2_000_000_000; memory_bytes = pos (2 * gib) };
  agent_volume_budget_bytes = pos 0;
  executor_volume_budget_bytes = pos 0;
}

pub data Role : Type 0 where
  agent_role executor_role : Role

pub data ResourceFault : Type 0 where
  negative_cpus memory_too_small memory_too_large : Role → ResourceFault
  negative_agent_budget negative_executor_budget : ResourceFault
  invalid_value : Text → ResourceFault

-- MemoryBytes < 0 || (MemoryBytes > 0 && MemoryBytes < MinimumMemoryBytes)
unfoldable pub is_too_small : ℤ → Bool
is_too_small (pos n) = ltb 0 n && ltb n minimum_memory_bytes
is_too_small (negsuc n) = true

-- MemoryBytes > math.MaxInt64/2
unfoldable pub is_too_large : ℤ → Bool
is_too_large (pos n) = ltb (max_int64 / 2) n
is_too_large (negsuc n) = false

-- One round of the loop of Validate.
unfoldable pub validate_allocation : Role → ContainerResources → Result ResourceFault (Unit {0})
validate_allocation role c = do
  refuse_if (is_negative c.nano_cpus) (negative_cpus role)
  refuse_if (is_too_small c.memory_bytes) (memory_too_small role)
  refuse_if (is_too_large c.memory_bytes) (memory_too_large role)

unfoldable pub validate : Resources → Result ResourceFault (Unit {0})
validate r = do
  validate_allocation agent_role r.agent
  validate_allocation executor_role r.executor
  refuse_if (is_negative r.agent_volume_budget_bytes) negative_agent_budget
  refuse_if (is_negative r.executor_volume_budget_bytes) negative_executor_budget

not_negative : Text → Option ℤ → Result ResourceFault ℤ
not_negative key none = err (invalid_value key)
not_negative key (some v) = if is_negative v then err (invalid_value key) else ok v

-- One round of the loop of LoadResources: the value of a key, or its default.
unfoldable pub read_field : Env → Text → ℤ → Result ResourceFault ℤ
unfolding not_negative
read_field env key default = elim (lookup key env) [
  | none ↦ ok default
  | some raw ↦ not_negative key (parse_int (trim_space raw))
]

-- LoadResources, on the env file's contents
unfoldable pub load_resources : Env → Result ResourceFault Resources
load_resources env = do
  agent_cpus ← read_field env agent_nano_cpus_env default_resources.agent.nano_cpus
  agent_memory ← read_field env agent_memory_bytes_env default_resources.agent.memory_bytes
  executor_cpus ← read_field env executor_nano_cpus_env default_resources.executor.nano_cpus
  executor_memory ← read_field env executor_memory_bytes_env default_resources.executor.memory_bytes
  agent_budget ←
      read_field env agent_volume_budget_bytes_env default_resources.agent_volume_budget_bytes
  executor_budget ←
      read_field env executor_volume_budget_bytes_env default_resources.executor_volume_budget_bytes
  let resources : Resources = record {
    agent = record { nano_cpus = agent_cpus; memory_bytes = agent_memory };
    executor = record { nano_cpus = executor_cpus; memory_bytes = executor_memory };
    agent_volume_budget_bytes = agent_budget;
    executor_volume_budget_bytes = executor_budget;
  }
  validate resources
  ok resources

-- The settings that SaveResources writes, in the order of its assignments.
abbrev pub settings : Resources → List (Text × ℤ)
settings r =
    (agent_nano_cpus_env, r.agent.nano_cpus)
    ∷ (agent_memory_bytes_env, r.agent.memory_bytes)
    ∷ (executor_nano_cpus_env, r.executor.nano_cpus)
    ∷ (executor_memory_bytes_env, r.executor.memory_bytes)
    ∷ (agent_volume_budget_bytes_env, r.agent_volume_budget_bytes)
    ∷ (executor_volume_budget_bytes_env, r.executor_volume_budget_bytes)
    ∷ []

unfoldable pub write_settings : Env → List (Text × ℤ) → Env
write_settings env [] = env
write_settings env ((k, v) ∷ rest) = write_settings (insert k (format_int v) env) rest

-- SaveResources: the contents of the env file, before and after
unfoldable pub save_resources : Resources → Env → Result ResourceFault Env
save_resources r env = do validate r; ok (write_settings env (settings r))

unfoldable pub delete_keys : Env → List Text → Env
delete_keys env [] = env
delete_keys env (k ∷ ks) = delete_keys (delete k env) ks

-- ResetResources
unfoldable pub reset_resources : Env → Env
reset_resources env = delete_keys env resource_env_keys
