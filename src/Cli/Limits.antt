-- ===== src/Cli/Limits.antt =====
-- internal/cli/cmd_resources.go: `resources set` and `resources reset`, once their flags are split
-- off. What is printed is left out.
use tx.Base.{
  ◌==◌, Bool, true, false, not, ◌&&◌, ◌||◌, List, [], ◌∷◌, if◌then◌else◌, Result, ok, err, ◌>>=◌,
  ◌>>◌, refuse_if,
}
use tx.Box.{Box, Fault}
use tx.Decimal.{ℤ, pos, negsuc}
use tx.Docker.{Reply, done, not_found, failed}
use tx.Resources.Sizes.{Units, parse_cpus, parse_memory_bytes, parse_volume_budget_bytes}
use tx.Resources.{
  Resources, ContainerResources, ResourceFault, Role, agent_role, executor_role, validate,
}
use tx.Text.{Text, is_empty}

pub record ResourceFlagValues : Type 0 where
  pub agent_cpus : Text
  pub agent_memory : Text
  pub executor_cpus : Text
  pub executor_memory : Text
  pub agent_volume_budget : Text
  pub executor_volume_budget : Text

pub data Limit : Type 0 where
  cpu_limit memory_limit : Limit

-- The errors; the roles are those whose limits could not be set back.
pub data LimitFault : Type 0 where
  of_box : Fault → LimitFault
  no_override : LimitFault
  cannot_change : Role → Limit → LimitFault
  not_updated : Role → List Role → LimitFault
  not_persisted : Fault → List Role → LimitFault

unfoldable pub has_overrides : ResourceFlagValues → Bool
has_overrides f =
    not (is_empty f.agent_cpus)
    || not (is_empty f.agent_memory)
    || not (is_empty f.executor_cpus)
    || not (is_empty f.executor_memory)
    || not (is_empty f.agent_volume_budget)
    || not (is_empty f.executor_volume_budget)

-- A flag that is given replaces the value.
unfoldable pub flag_or : (Text → Result ResourceFault ℤ) → Text → ℤ → Result ResourceFault ℤ
flag_or parse flag old = if is_empty flag then ok old else parse flag

unfoldable pub apply : Units → ResourceFlagValues → Resources → Result ResourceFault Resources
apply units f base = do
  agent_cpus ← flag_or (parse_cpus units) f.agent_cpus base.agent.nano_cpus
  agent_memory ← flag_or (parse_memory_bytes units) f.agent_memory base.agent.memory_bytes
  executor_cpus ← flag_or (parse_cpus units) f.executor_cpus base.executor.nano_cpus
  executor_memory ← flag_or (parse_memory_bytes units) f.executor_memory base.executor.memory_bytes
  agent_budget ←
      flag_or (parse_volume_budget_bytes units) f.agent_volume_budget base.agent_volume_budget_bytes
  executor_budget ←
      flag_or (parse_volume_budget_bytes units) f.executor_volume_budget
        base.executor_volume_budget_bytes
  let result : Resources = record {
    agent = record { nano_cpus = agent_cpus; memory_bytes = agent_memory };
    executor = record { nano_cpus = executor_cpus; memory_bytes = executor_memory };
    agent_volume_budget_bytes = agent_budget;
    executor_volume_budget_bytes = executor_budget;
  }
  validate result
  ok result

unfoldable pub is_unlimited : ℤ → Bool
is_unlimited (pos n) = n == 0
is_unlimited (negsuc n) = false

unfoldable pub xor : Bool → Bool → Bool
xor true b = not b
xor false b = b

unfoldable pub validate_transition :
    Role → ContainerResources → ContainerResources → Result LimitFault (Unit {0})
validate_transition role old updated = do
  refuse_if (xor (is_unlimited old.nano_cpus) (is_unlimited updated.nano_cpus))
      (cannot_change role cpu_limit)
  refuse_if (xor (is_unlimited old.memory_bytes) (is_unlimited updated.memory_bytes))
      (cannot_change role memory_limit)

unfoldable pub validate_live_resource_transition :
    Resources → Resources → Result LimitFault (Unit {0})
validate_live_resource_transition old updated = do
  validate_transition agent_role old.agent updated.agent
  validate_transition executor_role old.executor updated.executor

unfoldable pub same_int : ℤ → ℤ → Bool
same_int (pos m) (pos n) = m == n
same_int (negsuc m) (negsuc n) = m == n
same_int (pos m) (negsuc n) = false
same_int (negsuc m) (pos n) = false

-- !=
unfoldable pub differs : ContainerResources → ContainerResources → Bool
differs a b = not (same_int a.nano_cpus b.nano_cpus && same_int a.memory_bytes b.memory_bytes)

abbrev pub limits : ContainerResources → ℤ × ℤ
limits c = (c.nano_cpus, c.memory_bytes)

unfoldable pub not_set_back : Role → Reply (Unit {0}) → List Role
not_set_back role (done u) = []
not_set_back role not_found = role ∷ []
not_set_back role failed = role ∷ []

-- What is no error of these commands' own.
unfoldable pub boxed : {A : Type 0} → Result Fault A → Result LimitFault A
boxed (ok a) = ok a
boxed (err f) = err (of_box f)

unfoldable pub complete : Box → Bool
complete b = not (is_empty b.agent_id || is_empty b.executor_id)
