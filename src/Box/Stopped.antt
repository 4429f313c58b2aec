-- ===== src/Box/Stopped.antt =====
-- What RecreateAgent does to a box that is stopped.
use tx.Base.{
  arith, Bool, true, false, not, ◌&&◌, if◌then◌else◌, ◌≡◌, refl, ◌∙◌, Option, none, some, List, [],
  ◌∷◌, ok, Result-cases, Bool-cases, inl, inr,
}
use tx.Box.Create.{
  needed, ensure_network, ensure_volume, ensured_network, ensured_volume, prepared_mounts,
}
use tx.Box.Recreate.{
  Existing, with_state, existing, existing_reply, has_groups, image_configures_mount_groups,
  entrypoint_configures, stop_if, start_if, late_groups, replace_agent, recreate_agent,
}
use tx.Box.Objects.{config_owned}
use tx.Box.{Box}
use tx.Decimal.{ℤ}
use tx.Docker.Exec.{call, lift}
use tx.Docker.Keeps.{continue-keeps, continue-ok}
use tx.Docker.{
  Engine, World, Event, Reply, done, not_found, failed, ContainerInfo, NetworkInfo, Labels,
  EphemeralOpts, ephemeral_ran, container_started, container_stopped, exec_ran, container_inspected,
}
use tx.Mounts.{Host, AgentMount}
use tx.Text.{codes, text_eq, Text, is_empty}

-- A container of its own that runs grep and has no file of the host: the probe of an image.
abbrev pub is_probe : EphemeralOpts → Bool
is_probe opts = is_grep opts.entrypoint && is_unbound opts.binds
  where
    is_grep : List Text → Bool
    is_grep (program ∷ []) = text_eq program (codes "grep")
    is_grep _ = false

    is_unbound : List Text → Bool
    is_unbound [] = true
    is_unbound (bind ∷ binds) = false

-- The calls that start or stop a container, or run something, the probe of an image aside.
abbrev pub is_run : Event → Bool
is_run (ephemeral_ran opts) = not (is_probe opts)
is_run (container_started id) = true
is_run (container_stopped id) = true
is_run (exec_ran id cmd reply) = true
is_run _ = false

unfoldable pub runs : List Event → List Event
runs [] = []
runs (e ∷ es) = if is_run e then e ∷ runs es else runs es

with_state-running :
    (id image : Text) (running : Option Bool) (host_config : Option (ℤ × ℤ)) {old : Existing}
    → with_state id image running host_config ≡ ok old
    → running ≡ some false
    → old.running ≡ false
unfolding with_state
with_state-running id image none host_config e r = cc
with_state-running id image (some x) none e r = cc
with_state-running id image (some x) (some limits) e r =
    let same : some x ≡ some false = r in ground arith

existing-running :
    (id name : Text) (info : ContainerInfo) {old : Existing}
    → existing id name info ≡ ok old
    → info.running ≡ some false
    → old.running ≡ false
unfolding existing
existing-running id name info e r = elim (Bool-cases (config_owned info.config name)) [
  | inr foreign ↦ absurd (cc (rw (existing, foreign) at e))
  | inl own ↦ elim (Bool-cases (is_empty info.image)) [
    | inl bare ↦ absurd (cc (rw (existing, own, bare) at e))
    | inr full ↦
        with_state-running id info.image info.running info.host_config
          (rw (existing, own, full) at e) r
  ]
]

module _ (engine : Engine) where
  SameRuns : List Event → World engine → Type 0
  SameRuns t w = runs w.trace ≡ runs t

  ensured_network-runs :
      (net_name box_name ver : Text) (r : Reply NetworkInfo) (w : World engine)
      → runs (ensured_network engine net_name box_name ver r w).1.trace ≡ runs w.trace
  unfolding ensured_network call runs
  ensured_network-runs net_name box_name ver (done info) w = refl
  ensured_network-runs net_name box_name ver not_found w = refl
  ensured_network-runs net_name box_name ver failed w = refl

  ensured_volume-runs :
      (vol_name box_name ver : Text) (r : Reply Labels) (w : World engine)
      → runs (ensured_volume engine vol_name box_name ver r w).1.trace ≡ runs w.trace
  unfolding ensured_volume call runs
  ensured_volume-runs vol_name box_name ver (done info) w = refl
  ensured_volume-runs vol_name box_name ver not_found w = refl
  ensured_volume-runs vol_name box_name ver failed w = refl

  ensure_network-runs :
      (net_name box_name ver : Text) (w : World engine)
      → runs (ensure_network engine net_name box_name ver w).1.trace ≡ runs w.trace
  unfolding ensure_network call runs
  ensure_network-runs net_name box_name ver w = ensured_network-runs net_name box_name ver _ _

  ensure_volume-runs :
      (vol_name box_name ver : Text) (w : World engine)
      → runs (ensure_volume engine vol_name box_name ver w).1.trace ≡ runs w.trace
  unfolding ensure_volume call runs
  ensure_volume-runs vol_name box_name ver w = ensured_volume-runs vol_name box_name ver _ _

  entrypoint_configures-runs :
      (groups : List Text) (old : Existing) (w : World engine)
      → runs (entrypoint_configures engine groups old w).1.trace ≡ runs w.trace
  unfolding entrypoint_configures image_configures_mount_groups call runs text_eq
  entrypoint_configures-runs [] old w = refl
  entrypoint_configures-runs (g ∷ gs) old w =
      let out = image_configures_mount_groups engine old.image w in
      continue-keeps (λ t. runs t ≡ runs w.trace) out _ refl (λ c. refl)

  -- For a stopped box, nothing is left to be set up by `exec`.
  entrypoint_configures-stopped :
      (groups : List Text) (old : Existing) (w : World engine) {configures : Bool}
      → old.running ≡ false
      → (entrypoint_configures engine groups old w).0 ≡ ok configures
      → (has_groups groups && not configures) ≡ false
  unfolding entrypoint_configures
  entrypoint_configures-stopped [] old w stopped e = refl
  entrypoint_configures-stopped (g ∷ gs) old w stopped e =
      elim (Result-cases (image_configures_mount_groups engine old.image w).0) [
        | inl (c, found) ↦ ground (arith)
        | inr (f, found) ↦ absurd (cc (rw found at e))
      ]

  replace_agent-stopped :
      (b : Box) (token : Text) (binds groups : List Text) (old : Existing) (configures : Bool)
      (net_id : Text) (w : World engine)
      → old.running ≡ false
      → (has_groups groups && not configures) ≡ false
      → runs (replace_agent engine b token binds groups old configures net_id w).1.trace
        ≡ runs w.trace
  unfolding replace_agent call stop_if start_if late_groups runs
  replace_agent-stopped b token binds groups old configures net_id w stopped none_late =
      rw (stopped, none_late)
        (continue-keeps (λ t. runs t ≡ runs w.trace)
          (lift (needed (engine.container_remove b.agent_id w.state).0) _) _ refl
          (λ u.
            continue-keeps (λ t. runs t ≡ runs w.trace) (lift (needed _) _) _ refl (λ id. refl)))

  inspected : Box → World engine → World engine
  inspected b w = record {
    state = (engine.container_inspect b.agent_id w.state).1;
    trace =
        container_inspected b.agent_id (engine.container_inspect b.agent_id w.state).0 ∷ w.trace;
  }

  -- Recreating the agent of a box whose inspection shows that it is not running leaves it so: however
  -- the run ends, no container is started or stopped and nothing is executed, but that a container of
  -- its own, with no file of the host, may run grep to probe the image.
  pub recreate_agent-stopped :
      (host : Host) (b : Box) (token : Text) (mounts : List AgentMount) (info : ContainerInfo)
      (w : World engine)
      → (engine.container_inspect b.agent_id w.state).0 ≡ done info
      → info.running ≡ some false
      → runs (recreate_agent engine host b token mounts w).1.trace ≡ runs w.trace
  unfolding recreate_agent call existing_reply runs inspected
  recreate_agent-stopped host b token mounts info w shown stopped =
      let keeps : List Event → Type 0 = λ t. runs t ≡ runs w.trace in
      elim (Bool-cases (is_empty b.agent_id)) [
        | inl missing ↦ rw (missing, recreate_agent) refl
        | inr there ↦
            rw (there, recreate_agent)
              (continue-keeps keeps (lift (prepared_mounts host mounts) w) _ refl (λ prepared.
                continue-ok keeps
                  (lift
                    (existing_reply b.agent_id b.name
                      (engine.container_inspect b.agent_id w.state).0)
                    (inspected b w))
                  _ refl
                  (λ old is_old.
                    let off =
                      existing-running b.agent_id b.name info (rw (shown, existing_reply) at is_old)
                        stopped in
                    let probed = entrypoint_configures-runs prepared.1 old _ in
                    continue-ok keeps (entrypoint_configures engine prepared.1 old _) _ probed
                      (λ configures ran.
                        let late = entrypoint_configures-stopped prepared.1 old _ off ran in
                        let net = ensure_network-runs _ _ _ _ ∙ probed in
                        continue-keeps keeps (ensure_network engine _ _ _ _) _ net (λ net_id.
                          let vol = ensure_volume-runs _ _ _ _ ∙ net in
                          continue-keeps keeps (ensure_volume engine _ _ _ _) _ vol (λ v.
                            replace_agent-stopped b token prepared.0 prepared.1 old configures
                              net_id _ off late
                            ∙ vol))))))
      ]
