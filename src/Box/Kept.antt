-- ===== src/Box/Kept.antt =====
-- When the env file of a box, and so its token, stays.
use tx.Base.{
  ◌≢◌, ap, arith, sym, Bool, true, false, ◌≡◌, refl, ◌∙◌, List, [], ◌∷◌, ◌++◌, Result, ok, err, inl,
  inr, Bool-cases,
}
use tx.Box.Backed.{any_event, looks, changes}
use tx.Box.Destroy.{
  DestroyFault, env_kept, remove_containers, remove_network, remove_if_owned, remove_volume,
  remove_volumes, drop_env, env_reply, remove_targets, destroy,
}
use tx.Docker.Keeps.{continue-keeps}
use tx.Box.Inspected.{inspect_destroy_targets-Sees}
use tx.Box.Objects.{DestroyTargets, inspect_destroy_targets, inspect_owned_volume}
use tx.Box.{Fault}
use tx.Docker.Exec.{Exec, call, continue}
use tx.Docker.{Engine, World, Event, Reply, done, not_found, failed, env_removed}
use tx.Text.{Text, is_empty}

abbrev pub is_env_removal : Event → Bool
is_env_removal (env_removed name) = true
is_env_removal _ = false

any_env-changes :
    (t : List Event) → any_event is_env_removal (changes t) ≡ any_event is_env_removal t
unfolding any_event changes looks
any_env-changes [] = refl
any_env-changes (e ∷ es) = ground (arith, any_env-changes es)

module _ (engine : Engine) (name : Text) where
  -- The env removals among the calls are those of `t`.
  unfoldable SameEnv : List Event → List Event → Type 0
  SameEnv t u = any_event is_env_removal u ≡ any_event is_env_removal t

  remove_containers-SameEnv :
      (ids : List Text) (w : World engine)
      → SameEnv w.trace (remove_containers engine ids w).1.trace
  unfolding remove_containers call SameEnv any_event
  remove_containers-SameEnv [] w = refl
  remove_containers-SameEnv (id ∷ ids) w =
      let rest = remove_containers-SameEnv ids _ in
      continue-keeps (SameEnv w.trace) (remove_containers engine ids _) _ rest (λ errors. rest)

  remove_network-SameEnv :
      (id : Text) (w : World engine) → SameEnv w.trace (remove_network engine id w).1.trace
  unfolding remove_network call SameEnv any_event
  remove_network-SameEnv id w = elim (Bool-cases (is_empty id)) [
    | inl e ↦ rw (e, remove_network) refl
    | inr e ↦ rw (e, remove_network) refl
  ]

  remove_if_owned-SameEnv :
      (volume : Text) (r : Result Fault Text) (w : World engine)
      → SameEnv w.trace (remove_if_owned engine volume r w).1.trace
  unfolding remove_if_owned call SameEnv any_event
  remove_if_owned-SameEnv volume (err f) w = refl
  remove_if_owned-SameEnv volume (ok v) w = elim (Bool-cases (is_empty v)) [
    | inl e ↦ rw (remove_if_owned, e) refl
    | inr e ↦ rw (remove_if_owned, e) refl
  ]

  remove_volume-SameEnv :
      (volume : Text) (w : World engine)
      → SameEnv w.trace (remove_volume engine name volume w).1.trace
  unfolding remove_volume inspect_owned_volume call SameEnv any_event
  remove_volume-SameEnv volume w = remove_if_owned-SameEnv volume _ _

  remove_volumes-SameEnv :
      (volumes : List Text) (w : World engine)
      → SameEnv w.trace (remove_volumes engine name volumes w).1.trace
  unfolding remove_volumes SameEnv
  remove_volumes-SameEnv [] w = refl
  remove_volumes-SameEnv (v ∷ vs) w =
      let first = remove_volume-SameEnv v w in
      continue-keeps (SameEnv w.trace) (remove_volume engine name v w) _ first (λ errors.
        let rest = remove_volumes-SameEnv vs _ ∙ first in
        continue-keeps (SameEnv w.trace) (remove_volumes engine name vs _) _ rest (λ errors'. rest))

  -- A run from `t` that fails for another reason than the env file has not removed the env file.
  unfoldable KeepsEnv : List Event → Result DestroyFault (Unit {0}) × World engine → Type 0
  KeepsEnv t out = (f : DestroyFault) → out.0 ≡ err f → f ≢ env_kept → SameEnv t out.1.trace

  continue-KeepsEnv :
      {A : Type 0} (t : List Event) (out : Result DestroyFault A × World engine)
      (f : A → Exec engine DestroyFault (Unit {0}))
      → SameEnv t out.1.trace
      → ((a : A) → KeepsEnv t (f a out.1))
      → KeepsEnv t (continue out.0 f out.1)
  unfolding KeepsEnv
  continue-KeepsEnv t (ok a, w) f h next = next a
  continue-KeepsEnv t (err e, w) f h next = λ g e' ne. h

  env_reply-env_kept :
      (reply : Reply (Unit {0})) (w : World engine) (f : DestroyFault)
      → (env_reply engine reply w).0 ≡ err f
      → f ≡ env_kept
  unfolding env_reply
  env_reply-env_kept (done u) w f e = cc
  env_reply-env_kept not_found w f e = cc
  env_reply-env_kept failed w f e = cc

  drop_env-keeps :
      (t : List Event) (errors : List Fault) (w : World engine)
      → SameEnv t w.trace
      → KeepsEnv t (drop_env engine name errors w)
  unfolding KeepsEnv drop_env call
  drop_env-keeps t [] w h = λ f e ne. absurd (ne (env_reply-env_kept _ _ f e))
  drop_env-keeps t (x ∷ xs) w h = λ f e ne. h

  remove_targets-keeps :
      (r : Result Fault DestroyTargets) (w : World engine)
      → KeepsEnv w.trace (remove_targets engine name r w)
  unfolding remove_targets SameEnv
  remove_targets-keeps (err f) w = unfold KeepsEnv in (λ g e ne. refl)
  remove_targets-keeps (ok targets) w =
      let containers = remove_containers-SameEnv targets.container_ids w in
      continue-KeepsEnv w.trace (remove_containers engine targets.container_ids w) _ containers
        (λ e.
          let network = remove_network-SameEnv targets.network_id _ ∙ containers in
          continue-KeepsEnv w.trace (remove_network engine targets.network_id _) _ network (λ e'.
            let volumes = remove_volumes-SameEnv targets.volumes _ ∙ network in
            continue-KeepsEnv w.trace (remove_volumes engine name targets.volumes _) _ volumes
              (λ e''. drop_env-keeps w.trace (e ++ (e' ++ e'')) _ volumes)))

  inspect-SameEnv :
      (w : World engine) → SameEnv w.trace (inspect_destroy_targets engine name w).1.trace
  unfolding SameEnv
  inspect-SameEnv w =
      sym (any_env-changes _)
      ∙ (ap (any_event is_env_removal)
            (inspect_destroy_targets-Sees engine name w).looked.same_changes
          ∙ any_env-changes _)

  -- When destroying a box fails, and not in the removal of the env file itself, the env file with
  -- the box's token was not removed.
  pub destroy-keeps_env :
      (w : World engine) (f : DestroyFault)
      → (destroy engine name w).0 ≡ err f
      → f ≢ env_kept
      → any_event is_env_removal (destroy engine name w).1.trace ≡ any_event is_env_removal w.trace
  unfolding destroy SameEnv KeepsEnv
  destroy-keeps_env w f e ne =
      remove_targets-keeps (inspect_destroy_targets engine name w).0
        (inspect_destroy_targets engine name w).1 f e ne
      ∙ inspect-SameEnv w
