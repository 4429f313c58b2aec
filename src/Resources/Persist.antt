-- ===== src/Resources/Persist.antt =====
-- What SaveResources keeps, LoadResources finds again.
use tx.Base.{◌≡◌, ◌≢◌, refl, sym, ◌∙◌, subst, false, none, List, [], ◌∷◌, ◌++◌, arith, ok, All}
use tx.Decimal.{ℤ, format_int, IsPlain, format_int-IsPlain}
use tx.Dict.{IsMap, IsMap-insert, All-insert, lookup, insert, lookup-insert, delete, lookup-delete}
use tx.Resources.{
  agent_nano_cpus_env, agent_memory_bytes_env, executor_nano_cpus_env, executor_memory_bytes_env,
  agent_volume_budget_bytes_env, executor_volume_budget_bytes_env, resource_env_keys, Resources,
  default_resources, is_too_small, is_too_large, validate_allocation, validate, read_field,
  load_resources, settings, write_settings, save_resources, delete_keys, reset_resources,
}
use tx.State.RoundTrip.{key_is_fine, IsKey-tested, IsKey, IsValue, IsPair, read_env-print_env}
use tx.State.{Env, read_env, print_env, newline}
use tx.Text.{Text, is_space, text_eq, text_eq→eq}
use tx.Resources.ReadBack.{IsInRange, Shows, write_settings-Shows, load_resources-Shows}

plain_no_return : (s u : Text) → IsPlain s → s ≢ u ++ b'\r' ∷ []
plain_no_return [] [] h e = cc
plain_no_return [] (x ∷ u) h e = cc
plain_no_return (c ∷ s) [] h e = let same : c ≡ b'\r' = cc in absurd (omega arith)
plain_no_return (c ∷ s) (x ∷ u) h e = plain_no_return s u h.1 (cc)

plain_one_line : (s : Text) → IsPlain s → All (λ c. c ≢ newline) s
plain_one_line [] h = tt
plain_one_line (c ∷ s) h = ((λ e. absurd (omega arith)), plain_one_line s h.1)

format_int-IsValue : (v : ℤ) → IsValue (format_int v)
format_int-IsValue v = (
  plain_one_line (format_int v) (format_int-IsPlain v),
  λ u. plain_no_return (format_int v) u (format_int-IsPlain v),
)

-- A setting may be written into a well-formed env.
write_settings-formed :
    (env : Env) (s : List (Text × ℤ))
    → All (λ kv. IsKey kv.0) s
    → IsMap env × All IsPair env
    → IsMap (write_settings env s) × All IsPair (write_settings env s)
unfolding write_settings
write_settings-formed env [] a h = h
write_settings-formed env ((k, v) ∷ rest) a h =
    write_settings-formed (insert k (format_int v) env) rest a.1 (
      IsMap-insert k (format_int v) env h.0,
      All-insert IsPair k (format_int v) env
          (λ j same p. (subst IsKey (sym (text_eq→eq j k same)) p.0, p.1))
          (a.0, format_int-IsValue v) h.1,
    )

settings-IsKey : (r : Resources) → All (λ kv. IsKey kv.0) (settings r)
settings-IsKey r = (
  IsKey-tested agent_nano_cpus_env (unfold key_is_fine is_space in refl),
  (
    IsKey-tested agent_memory_bytes_env (unfold key_is_fine is_space in refl),
    (
      IsKey-tested executor_nano_cpus_env (unfold key_is_fine is_space in refl),
      (
        IsKey-tested executor_memory_bytes_env (unfold key_is_fine is_space in refl),
        (
          IsKey-tested agent_volume_budget_bytes_env (unfold key_is_fine is_space in refl),
          (IsKey-tested executor_volume_budget_bytes_env (unfold key_is_fine is_space in refl), tt),
        ),
      ),
    ),
  ),
)

lookup-write_settings_other :
    (env : Env) (s : List (Text × ℤ)) (j : Text)
    → All (λ kv. text_eq kv.0 j ≡ false) s
    → lookup j (write_settings env s) ≡ lookup j env
unfolding write_settings
lookup-write_settings_other env [] j a = refl
lookup-write_settings_other env ((k, v) ∷ rest) j a =
    lookup-write_settings_other (insert k (format_int v) env) rest j a.1
    ∙ rw (lookup-insert k j (format_int v) env) (rw a.0)

save_resources-written :
    (r : Resources) (env : Env) {env' : Env}
    → save_resources r env ≡ ok env'
    → (validate r ≡ ok tt) × (write_settings env (settings r) ≡ env')
unfolding save_resources
save_resources-written r env e = ground arith

-- What SaveResources saves, LoadResources loads, by way of the text of the env file: from a
-- well-formed file (each key once, no blank, "#" or "=" in a key, every value one line without a
-- carriage return at its end), the configuration that is saved is the one that is loaded.
pub load_resources-save_resources :
    (r : Resources) (env : Env) {env' : Env}
    → IsInRange r
    → IsMap env
    → All IsPair env
    → save_resources r env ≡ ok env'
    → load_resources (read_env (print_env env')) ≡ ok r
load_resources-save_resources r env {env'} i m a e =
    let (valid, is) = save_resources-written r env e in
    let formed = write_settings-formed env (settings r) (settings-IsKey r) (m, a) in
    subst (λ w. load_resources (read_env (print_env w)) ≡ ok r) is
      (load_resources-Shows (read_env (print_env (write_settings env (settings r)))) r
        (Shows-read (write_settings env (settings r)) r formed (write_settings-Shows env r)) i
        valid)
  where
    Shows-read :
        (w : Env) (q : Resources)
        → IsMap w × All IsPair w
        → Shows w q
        → Shows (read_env (print_env w)) q
    Shows-read w q f s = record {
      agent_cpus = read_env-print_env w agent_nano_cpus_env f.0 f.1 ∙ s.agent_cpus;
      agent_memory = read_env-print_env w agent_memory_bytes_env f.0 f.1 ∙ s.agent_memory;
      executor_cpus = read_env-print_env w executor_nano_cpus_env f.0 f.1 ∙ s.executor_cpus;
      executor_memory = read_env-print_env w executor_memory_bytes_env f.0 f.1 ∙ s.executor_memory;
      agent_budget = read_env-print_env w agent_volume_budget_bytes_env f.0 f.1 ∙ s.agent_budget;
      executor_budget =
          read_env-print_env w executor_volume_budget_bytes_env f.0 f.1 ∙ s.executor_budget;
    }

lookup-delete_keys_other :
    (env : Env) (ks : List Text) (j : Text)
    → All (λ k. text_eq k j ≡ false) ks
    → lookup j (delete_keys env ks) ≡ lookup j env
unfolding delete_keys
lookup-delete_keys_other env [] j a = refl
lookup-delete_keys_other env (k ∷ ks) j a =
    lookup-delete_keys_other (delete k env) ks j a.1 ∙ rw (lookup-delete k j env) (rw a.0)

read_field-missing :
    (env : Env) (key : Text) (default : ℤ)
    → lookup key env ≡ none
    → read_field env key default ≡ ok default
unfolding read_field
read_field-missing env key default e = rw (e, read_field)

validate-default : validate default_resources ≡ ok tt
unfolding validate validate_allocation is_too_small is_too_large
validate-default = refl

abbrev IsUnset : Env → Text → Type 0
IsUnset env k = lookup k env ≡ none

reset_resources-IsUnset : (env : Env) → All (IsUnset (reset_resources env)) resource_env_keys
unfolding reset_resources delete_keys text_eq
reset_resources-IsUnset env = (
  simp lookup-delete,
  (
    simp lookup-delete,
    (simp lookup-delete, (simp lookup-delete, (simp lookup-delete, (simp lookup-delete, tt)))),
  ),
)

load_resources-IsUnset :
    (env : Env) → All (IsUnset env) resource_env_keys → load_resources env ≡ ok default_resources
unfolding load_resources
load_resources-IsUnset env (a, (b, (c, (d, (e, (f, _)))))) =
    rw (read_field-missing env _ default_resources.agent.nano_cpus a) (
      rw (read_field-missing env _ default_resources.agent.memory_bytes b) (
        rw (read_field-missing env _ default_resources.executor.nano_cpus c) (
          rw (read_field-missing env _ default_resources.executor.memory_bytes d) (
            rw (read_field-missing env _ default_resources.agent_volume_budget_bytes e) (
              rw (read_field-missing env _ default_resources.executor_volume_budget_bytes f)
                (rw validate-default))))))

-- SaveResources and ResetResources touch no key but those of the resources; and behind
-- ResetResources the defaults are loaded.
pub resource_keys_only :
    (r : Resources) (env : Env) {env' : Env}
    → save_resources r env ≡ ok env'
    → ((j : Text)
        → All (λ k. text_eq k j ≡ false) resource_env_keys
        → (lookup j env' ≡ lookup j env) × (lookup j (reset_resources env) ≡ lookup j env))
      × (load_resources (reset_resources env) ≡ ok default_resources)
resource_keys_only r env {env'} e = (
  λ j a. (
    rw (← (save_resources-written r env e).1) (lookup-write_settings_other env (settings r) j a),
    unfold reset_resources in lookup-delete_keys_other env resource_env_keys j a,
  ),
  load_resources-IsUnset (reset_resources env) (reset_resources-IsUnset env),
)
