-- ===== src/Box/Destroyed.antt =====
-- What Destroy does to the objects of a box, and to those that are not the box's.
use tx.Base.{
  subst, sym, arith, true, false, Bool-cases, ◌≡◌, refl, List, [], ◌∷◌, ◌++◌, All, ok, err,
  Result-cases, ok-injective, inl, inr,
}
use tx.Box.Backed.{
  Grows, Grows-refl, Grows-trans, Grows-permitted, backed, changes, permitted, last_event,
}
use tx.Box.Destroy.{
  refused, remove_containers, remove_network, remove_if_owned, remove_volume, remove_volumes,
  drop_env, env_reply, remove_targets, destroy,
}
use tx.Box.Inspected.{
  ContainerKnown, NetworkShown, Grows-known, Grows-network, inspect_destroy_targets-Sees,
  TargetsShown, inspect_owned_volume-Looked,
}
use tx.Box.Objects.{DestroyTargets, inspect_destroy_targets, inspect_owned_volume, owned_volume}
use tx.Box.{Fault}
use tx.Docker.Keeps.{continue-keeps}
use tx.Docker.Exec.{call}
use tx.Docker.{
  Engine, World, Event, env_removed, Reply, done, not_found, failed, Labels, container_removed,
  network_removed, volume_removed, volume_inspected,
}
use tx.Text.{Text, is_empty, text_eq_refl}

-- The inspection of a volume that finds it to be the box's permits its removal.
owned_volume-permitted :
    (name volume : Text) (reply : Reply Labels) (t : List Event) {v : Text}
    → owned_volume volume name reply ≡ ok v
    → is_empty v ≡ false
    → permitted name (volume_removed volume) (volume_inspected volume reply ∷ t) ≡ true
unfolding owned_volume permitted last_event is_empty
owned_volume-permitted name volume not_found t e n = absurd (cc (rw (← ok-injective e) at n))
owned_volume-permitted name volume failed t e n = cc
owned_volume-permitted name volume (done labels) t e n = ground (arith, text_eq_refl volume)

module _ (engine : Engine) (name : Text) where
  remove_containers-Grows :
      (ids : List Text) (w : World engine)
      → All (ContainerKnown name w.trace) ids
      → Grows name w.trace (remove_containers engine ids w).1.trace
  unfolding remove_containers call ContainerKnown permitted
  remove_containers-Grows [] w all = Grows-refl name w.trace
  remove_containers-Grows (id ∷ ids) w (a, all) =
      let removal = Grows-permitted name (container_removed id) w.trace a in
      let rest =
        Grows-trans removal
          (remove_containers-Grows ids _ (Grows-known engine name ids removal all)) in
      continue-keeps (Grows name w.trace) (remove_containers engine ids _) _ rest (λ errors. rest)

  remove_network-Grows :
      (id : Text) (w : World engine)
      → NetworkShown name w.trace id
      → Grows name w.trace (remove_network engine id w).1.trace
  unfolding NetworkShown remove_network call permitted
  remove_network-Grows id w shown = elim (Bool-cases (is_empty id)) [
    | inl e ↦ rw (e, remove_network) (Grows-refl name w.trace)
    | inr e ↦
        rw (e, remove_network) (Grows-permitted name (network_removed id) w.trace (ground arith))
  ]

  remove_if_owned-Grows :
      (volume : Text) (reply : Reply Labels) (w : World engine) (before : List Event)
      → w.trace ≡ volume_inspected volume reply ∷ before
      → Grows name w.trace
          (remove_if_owned engine volume (owned_volume volume name reply) w).1.trace
  unfolding remove_if_owned call
  remove_if_owned-Grows volume reply w before at_inspection =
      elim (Result-cases (owned_volume volume name reply)) [
        | inr (f, e) ↦ rw (e, remove_if_owned) (Grows-refl name w.trace)
        | inl (v, e) ↦ elim (Bool-cases (is_empty v)) [
          | inl n ↦ rw (e, remove_if_owned, n) (Grows-refl name w.trace)
          | inr n ↦
              rw (e, remove_if_owned, n)
                (Grows-permitted name (volume_removed volume) w.trace
                  (rw at_inspection (owned_volume-permitted name volume reply before e n)))
        ]
      ]

  remove_after_inspection :
      (volume : Text) (w : World engine)
      → Grows name
          (inspect_owned_volume engine volume name w).1.trace
          (remove_volume engine name volume w).1.trace
  unfolding remove_volume inspect_owned_volume call
  remove_after_inspection volume w = remove_if_owned-Grows volume _ _ w.trace refl

  remove_volume-Grows :
      (volume : Text) (w : World engine)
      → Grows name w.trace (remove_volume engine name volume w).1.trace
  remove_volume-Grows volume w =
      Grows-trans (inspect_owned_volume-Looked engine name volume w).grows
        (remove_after_inspection volume w)

  remove_volumes-Grows :
      (volumes : List Text) (w : World engine)
      → Grows name w.trace (remove_volumes engine name volumes w).1.trace
  unfolding remove_volumes
  remove_volumes-Grows [] w = Grows-refl name w.trace
  remove_volumes-Grows (v ∷ vs) w =
      let first = remove_volume-Grows v w in
      continue-keeps (Grows name w.trace) (remove_volume engine name v w) _ first (λ errors.
        let rest = Grows-trans first (remove_volumes-Grows vs _) in
        continue-keeps (Grows name w.trace) (remove_volumes engine name vs _) _ rest
          (λ errors'. rest))

  env_reply-same : (reply : Reply (Unit {0})) (w : World engine) → (env_reply engine reply w).1 ≡ w
  unfolding env_reply
  env_reply-same (done u) w = refl
  env_reply-same not_found w = refl
  env_reply-same failed w = refl

  drop_env-Grows :
      (errors : List Fault) (w : World engine)
      → Grows name w.trace (drop_env engine name errors w).1.trace
  unfolding drop_env call permitted
  drop_env-Grows [] w =
      subst (λ v. Grows name w.trace v.trace) (sym (env_reply-same _ _))
        (Grows-permitted name (env_removed name) w.trace refl)
  drop_env-Grows (e ∷ es) w = Grows-refl name w.trace

  remove_targets-Grows :
      (targets : DestroyTargets) (w : World engine)
      → TargetsShown engine name w.trace targets
      → Grows name w.trace (remove_targets engine name (ok targets) w).1.trace
  unfolding remove_targets TargetsShown
  remove_targets-Grows targets w (known, shown) =
      let containers = remove_containers-Grows targets.container_ids w known in
      continue-keeps (Grows name w.trace) (remove_containers engine targets.container_ids w) _
        containers
        (λ e.
          let network = Grows-trans containers (
            remove_network-Grows targets.network_id _
              (Grows-network engine name targets.network_id containers shown)) in
          continue-keeps (Grows name w.trace) (remove_network engine targets.network_id _) _ network
            (λ e'.
              let volumes = Grows-trans network (remove_volumes-Grows targets.volumes _) in
              continue-keeps (Grows name w.trace) (remove_volumes engine name targets.volumes _) _
                volumes (λ e''. Grows-trans volumes (drop_env-Grows (e ++ (e' ++ e'')) _))))

  destroy-Grows : (w : World engine) → Grows name w.trace (destroy engine name w).1.trace
  unfolding destroy remove_targets
  destroy-Grows w =
      let seen = inspect_destroy_targets-Sees engine name w in
      elim (Result-cases (inspect_destroy_targets engine name w).0) [
        | inl (targets, e) ↦
            rw e (
              Grows-trans seen.looked.grows (remove_targets-Grows targets _ (seen.holds targets e)))
        | inr (f, e) ↦ rw (e, remove_targets) seen.looked.grows
      ]

  -- Destroying a box removes a container or a network only by an ID that an earlier inspection
  -- showed to have the box's labels, and a volume only right after an inspection that showed the
  -- volume to have them, whatever the engine replies to the calls, if the calls before were so.
  pub destroy-backed :
      (w : World engine)
      → backed name w.trace ≡ true
      → backed name (destroy engine name w).1.trace ≡ true
  destroy-backed w h = (destroy-Grows w).keeps_backed h

  -- When the inspection of the objects of a box fails, for a foreign object or for an error of the
  -- engine, then destroying it reports that error and has changed nothing.
  pub destroy-refused :
      (w : World engine) (f : Fault)
      → (inspect_destroy_targets engine name w).0 ≡ err f
      → ((destroy engine name w).0 ≡ err (refused f))
        × (changes (destroy engine name w).1.trace ≡ changes w.trace)
  unfolding destroy remove_targets
  destroy-refused w f e =
      (rw e refl, rw e (inspect_destroy_targets-Sees engine name w).looked.same_changes)
