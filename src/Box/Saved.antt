-- ===== src/Box/Saved.antt =====
-- What SaveExecutorConfig stores, for LoadExecutorConfig to fall back on.
use tx.Base.{
  Option, if◌then◌else◌, sym, ◌≡◌, refl, ◌∙◌, false, Bool-cases, none, some, [], ◌∷◌, All, inl, inr,
}
use tx.Box.Config.{
  Net, stored_value, set_or_delete, save_executor_config, publish_address, web_base_url_env,
  publish_env, dns_env,
}
use tx.Box.Specs.{ExecutorConfig}
use tx.Dict.{lookup, lookup-insert, lookup-delete, lookup-insert_self}
use tx.State.{Env}
use tx.Text.Split.{join}
use tx.Text.{Text, codes, is_empty, is_empty-nil, text_eq, text_eq_refl}

abbrev pub token_env : Text
token_env = codes "EXECUTOR_MCP_TOKEN"

stored_none : (env : Env) (k : Text) → lookup k env ≡ none → stored_value k env ≡ []
unfolding stored_value
stored_none env k e = rw (stored_value, e) refl

stored_some : (env : Env) (k v : Text) → lookup k env ≡ some v → stored_value k env ≡ v
unfolding stored_value
stored_some env k v e = rw (stored_value, e) refl

-- What the env file has under a key for a setting: an empty one is not there.
abbrev pub kept_value : Text → Option Text
kept_value v = if is_empty v then none else some v

-- The setting is in the env file, or missing there if it is empty, and it is what is read again.
pub record IsStored (k v : Text) (env : Env) : Type 0 where
  pub in_file : lookup k env ≡ kept_value v
  pub read_again : stored_value k env ≡ v

lookup-set_or_delete_self :
    (env : Env) (k v : Text) → lookup k (set_or_delete env k v) ≡ kept_value v
unfolding set_or_delete
lookup-set_or_delete_self env k v = elim (Bool-cases (is_empty v)) [
  | inl e ↦ rw (set_or_delete, e) (lookup-delete k k env ∙ rw (text_eq_refl k) refl)
  | inr e ↦ rw (set_or_delete, e) (lookup-insert_self k v env)
]

kept_value-IsStored : (env : Env) (k v : Text) → lookup k env ≡ kept_value v → IsStored k v env
kept_value-IsStored env k v h = record {
  in_file = h;
  read_again = elim (Bool-cases (is_empty v)) [
    | inl e ↦ stored_none env k (rw e at h) ∙ sym (is_empty-nil v e)
    | inr e ↦ stored_some env k v (rw e at h)
  ];
}

lookup-set_or_delete :
    (env : Env) (k v j : Text)
    → text_eq k j ≡ false
    → lookup j (set_or_delete env k v) ≡ lookup j env
unfolding set_or_delete
lookup-set_or_delete env k v j n = elim (Bool-cases (is_empty v)) [
  | inl e ↦ rw e (rw (lookup-delete, n) refl)
  | inr e ↦ rw e (rw (lookup-insert, n) refl)
]

lookup-save_executor_config :
    (net : Net) (token : Text) (c : ExecutorConfig) (env : Env) (j : Text)
    → All (λ k. text_eq k j ≡ false) (token_env ∷ web_base_url_env ∷ publish_env ∷ dns_env ∷ [])
    → lookup j (save_executor_config net token c env) ≡ lookup j env
unfolding save_executor_config
lookup-save_executor_config net token c env j (t, (w, (p, (d, _)))) =
    lookup-set_or_delete _ dns_env _ j d
    ∙ (lookup-set_or_delete _ publish_env _ j p
        ∙ (lookup-set_or_delete _ web_base_url_env _ j w
            ∙ (lookup-insert token_env j token env ∙ rw t refl)))

-- SaveExecutorConfig stores the web base URL, the publish address and the DNS servers of the
-- configuration where LoadExecutorConfig looks for them: a setting that is empty has no entry in the
-- env file, the others have theirs. It stores the token, and it changes no other key.
pub save_executor_config-IsStored :
    (net : Net) (token : Text) (c : ExecutorConfig) (env : Env) (j : Text)
    → All (λ k. text_eq k j ≡ false) (token_env ∷ web_base_url_env ∷ publish_env ∷ dns_env ∷ [])
    → IsStored web_base_url_env c.web_base_url (save_executor_config net token c env)
      × IsStored publish_env (publish_address net c) (save_executor_config net token c env)
      × IsStored dns_env (join (codes ",") c.dns) (save_executor_config net token c env)
      × (lookup token_env (save_executor_config net token c env) ≡ some token)
      × (lookup j (save_executor_config net token c env) ≡ lookup j env)
unfolding save_executor_config text_eq
save_executor_config-IsStored net token c env j other = (
  kept_value-IsStored _ web_base_url_env _ (
      lookup-set_or_delete _ dns_env _ web_base_url_env refl
      ∙ (lookup-set_or_delete _ publish_env _ web_base_url_env refl
          ∙ lookup-set_or_delete_self _ web_base_url_env c.web_base_url)),
  kept_value-IsStored _ publish_env _ (
      lookup-set_or_delete _ dns_env _ publish_env refl
      ∙ lookup-set_or_delete_self _ publish_env (publish_address net c)),
  kept_value-IsStored _ dns_env _ (lookup-set_or_delete_self _ dns_env (join (codes ",") c.dns)),
  lookup-set_or_delete _ dns_env _ token_env refl
      ∙ (lookup-set_or_delete _ publish_env _ token_env refl
          ∙ (lookup-set_or_delete _ web_base_url_env _ token_env refl
              ∙ lookup-insert_self token_env token env)),
  lookup-save_executor_config net token c env j other,
)
