-- ===== src/Box/Created.antt =====
-- What Create leaves behind when it fails.
use tx.Base.{
  arith, ap, sym, Bool, true, false, ◌≡◌, ◌⊎◌, refl, ◌∙◌, List, ◌∷◌, Result, ok, err, Result-cases,
  ok-injective, inl, inr,
}
use tx.Box.Backed.{any_event}
use tx.Box.Create.{
  CreateFault, not_started, needed, ensure_network, ensure_volume, create_objects,
  checked_resources, prepared_mounts, ensured_network, ensured_volume, finish, executor_created,
  agent_created, objects_created, agent_spec, create_executor, create_containers, create,
}
use tx.Docker.Keeps.{continue-keeps}
use tx.Box.Specs.{CreateOpts, executor_spec}
use tx.Box.{Fault, Box}
use tx.Docker.Exec.{call, lift}
use tx.Docker.{
  Engine, World, Event, Reply, done, not_found, failed, NetworkInfo, Labels, ContainerSpec,
  container_created, container_removed,
}
use tx.Mounts.{Host}
use tx.Text.{Text, text_eq}

abbrev pub creates : Text → Event → Bool
creates id (container_created spec (done new_id)) = text_eq new_id id
creates id _ = false

abbrev pub removes : Text → Event → Bool
removes id (container_removed old_id) = text_eq old_id id
removes id _ = false

abbrev pub is_start_fault : CreateFault → Bool
is_start_fault (not_started b e) = true
is_start_fault _ = false

created-none :
    (id : Text) (spec : ContainerSpec) (r : Reply Text) {e : Fault}
    → needed r ≡ err e
    → creates id (container_created spec r) ≡ false
unfolding needed
created-none id spec (done a) e = cc
created-none id spec not_found e = refl
created-none id spec failed e = refl

created-one :
    (id : Text) (spec : ContainerSpec) (r : Reply Text) {new_id : Text}
    → needed r ≡ ok new_id
    → creates id (container_created spec r) ≡ text_eq new_id id
unfolding needed
created-one id spec (done a) e = ap (λ t. text_eq t id) (ok-injective e)
created-one id spec not_found e = cc
created-one id spec failed e = cc

module _ (engine : Engine) where
  -- No container was created between the two lists of calls.
  unfoldable SameCreated : List Event → List Event → Type 0
  SameCreated t u = (id : Text) → any_event (creates id) u ≡ any_event (creates id) t

  ensured_network-same :
      (net_name box_name ver : Text) (r : Reply NetworkInfo) (w : World engine)
      → SameCreated w.trace (ensured_network engine net_name box_name ver r w).1.trace
  unfolding SameCreated ensured_network call any_event
  ensured_network-same net_name box_name ver (done info) w = λ id. refl
  ensured_network-same net_name box_name ver not_found w = λ id. refl
  ensured_network-same net_name box_name ver failed w = λ id. refl

  ensured_volume-same :
      (vol_name box_name ver : Text) (r : Reply Labels) (w : World engine)
      → SameCreated w.trace (ensured_volume engine vol_name box_name ver r w).1.trace
  unfolding SameCreated ensured_volume call any_event
  ensured_volume-same vol_name box_name ver (done info) w = λ id. refl
  ensured_volume-same vol_name box_name ver not_found w = λ id. refl
  ensured_volume-same vol_name box_name ver failed w = λ id. refl

  ensure_network-same :
      (net_name box_name ver : Text) (w : World engine)
      → SameCreated w.trace (ensure_network engine net_name box_name ver w).1.trace
  unfolding SameCreated ensure_network call any_event
  ensure_network-same net_name box_name ver w = ensured_network-same net_name box_name ver _ _

  ensure_volume-same :
      (vol_name box_name ver : Text) (w : World engine)
      → SameCreated w.trace (ensure_volume engine vol_name box_name ver w).1.trace
  unfolding SameCreated ensure_volume call any_event
  ensure_volume-same vol_name box_name ver w = ensured_volume-same vol_name box_name ver _ _

  same_trans : (t u v : List Event) → SameCreated t u → SameCreated u v → SameCreated t v
  unfolding SameCreated
  same_trans t u v f g = λ id. g id ∙ f id

  same_refl : (t : List Event) → SameCreated t t
  unfolding SameCreated
  same_refl t = λ id. refl

  create_objects-same :
      (host : Host) (ver : Text) (opts : CreateOpts) (w : World engine)
      → SameCreated w.trace (create_objects engine host ver opts w).1.trace
  unfolding create_objects
  create_objects-same host ver opts w =
      let keeps = SameCreated w.trace in
      continue-keeps keeps (lift (checked_resources opts.resources) w) _ (same_refl _) (λ u.
        continue-keeps keeps (lift (prepared_mounts host opts.agent_mounts) w) _ (same_refl _)
          (λ mounts.
            let net = ensure_network-same _ _ _ w in
            continue-keeps keeps (ensure_network engine _ _ _ w) _ net (λ net_id.
              let vol = same_trans _ _ _ net (ensure_volume-same _ _ _ _) in
              continue-keeps keeps (ensure_volume engine _ _ _ _) _ vol (λ v.
                let vols = same_trans _ _ _ vol (ensure_volume-same _ _ _ _) in
                continue-keeps keeps (ensure_volume engine _ _ _ _) _ vols (λ v'. vols)))))

  finish-fault :
      (opts : CreateOpts) (ver agent_id executor_id : Text) (w : World engine) (f : CreateFault)
      → (finish engine opts ver agent_id executor_id w).0 ≡ err f
      → is_start_fault f ≡ true
  unfolding finish
  finish-fault opts ver agent_id executor_id w f e = ground arith

  -- The containers created since `t` are removed when the run fails before the start.
  unfoldable NoLeak : List Event → Result CreateFault Box × World engine → Type 0
  NoLeak t out =
      (f : CreateFault)
      → out.0 ≡ err f
      → is_start_fault f ≡ false
      → (id : Text) → any_event (creates id) out.1.trace ≡ true
      → (any_event (creates id) t ≡ true) ⊎ (any_event (removes id) out.1.trace ≡ true)

  executor_created-NoLeak :
      (opts : CreateOpts) (ver agent_id : Text) (spec : ContainerSpec) (reply : Reply Text)
      (t u : List Event) (w : World engine)
      → w.trace ≡ container_created spec reply ∷ u
      → ((id : Text)
          → any_event (creates id) u ≡ true
          → (any_event (creates id) t ≡ true) ⊎ (text_eq agent_id id ≡ true))
      → NoLeak t (executor_created engine opts ver agent_id (needed reply) w)
  unfolding executor_created call any_event NoLeak
  executor_created-NoLeak opts ver agent_id spec reply t u w at_reply only =
      elim (Result-cases (needed reply)) [
        | inl (id, n) ↦ λ f e s. absurd (cc (finish-fault opts ver agent_id id w f (rw n at e), s))
        | inr (x, n) ↦
            rw (n, at_reply) (λ f e s id c. ground (arith, only id, created-none id spec reply n))
      ]

  create_executor-NoLeak :
      (opts : CreateOpts) (ver net_id agent_id : Text) (t : List Event) (w : World engine)
      → ((id : Text)
          → any_event (creates id) w.trace ≡ true
          → (any_event (creates id) t ≡ true) ⊎ (text_eq agent_id id ≡ true))
      → NoLeak t (create_executor engine opts ver net_id agent_id w)
  unfolding create_executor call
  create_executor-NoLeak opts ver net_id agent_id t w only =
      executor_created-NoLeak opts ver agent_id (executor_spec opts ver net_id) _ t w.trace _ refl
        only

  agent_created-NoLeak :
      (opts : CreateOpts) (ver net_id : Text) (spec : ContainerSpec) (reply : Reply Text)
      (t : List Event) (w : World engine)
      → w.trace ≡ container_created spec reply ∷ t
      → NoLeak t (agent_created engine opts ver net_id (needed reply) w)
  unfolding agent_created any_event
  agent_created-NoLeak opts ver net_id spec reply t w at_reply =
      elim (Result-cases (needed reply)) [
        | inl (agent_id, n) ↦ rw n (
            create_executor-NoLeak opts ver net_id agent_id t w
              (λ id. rw at_reply (λ c. ground (arith, created-one id spec reply n))))
        | inr (x, n) ↦ rw n (
            unfold NoLeak in
            (λ f e s id. rw at_reply (λ c. ground (arith, created-none id spec reply n))))
      ]

  create_containers-NoLeak :
      (opts : CreateOpts) (ver : Text) (objects : Text × (List Text × List Text)) (w : World engine)
      → NoLeak w.trace (create_containers engine opts ver objects w)
  unfolding create_containers call
  create_containers-NoLeak opts ver objects w =
      agent_created-NoLeak opts ver objects.0 (agent_spec engine opts ver objects) _ w.trace _ refl

  objects_created-NoLeak :
      (opts : CreateOpts) (ver : Text) (r : Result Fault (Text × (List Text × List Text)))
      (w : World engine)
      → NoLeak w.trace (objects_created engine opts ver r w)
  unfolding objects_created
  objects_created-NoLeak opts ver (ok objects) w = create_containers-NoLeak opts ver objects w
  objects_created-NoLeak opts ver (err x) w = unfold NoLeak in (λ f e s id c. inl c)

  -- When creating a box fails before the box is started, every container that the run created has
  -- been asked to be removed.
  pub create-no_leak :
      (host : Host) (ver : Text) (opts : CreateOpts) (w : World engine) (f : CreateFault)
      → (create engine host ver opts w).0 ≡ err f
      → is_start_fault f ≡ false
      → (id : Text) → any_event (creates id) (create engine host ver opts w).1.trace ≡ true
      → (any_event (creates id) w.trace ≡ true)
        ⊎ (any_event (removes id) (create engine host ver opts w).1.trace ≡ true)
  unfolding create NoLeak SameCreated
  create-no_leak host ver opts w f e s id c =
      let (r, v) = create_objects engine host ver opts w in
      elim (objects_created-NoLeak opts ver r v f e s id c) [
        | inl before ↦ inl (sym (create_objects-same host ver opts w id) ∙ before)
        | inr removed ↦ inr removed
      ]
