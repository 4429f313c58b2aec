-- ===== src/Box/Fresh.antt =====
-- What PreflightFreshObjects has seen when it finds nothing wrong.
use tx.Base.{◌≡◌, refl, ◌∙◌, List, ◌∷◌, Result, ok, err}
use tx.Box.Objects.{check_name, must_be_missing, preflight_fresh_objects, named}
use tx.Box.{
  container, network, volume, Fault, ObjectKind, agent_name, executor_name, network_name,
  agent_volume, executor_volume,
}
use tx.Docker.Exec.{Exec, call, continue}
use tx.Docker.{
  Engine, World, Event, Reply, done, not_found, failed, container_inspected, network_inspected,
  volume_inspected,
}
use tx.Names.{validate, NameFault}
use tx.Text.{Text}

module _ (engine : Engine) where
  -- If the run succeeds, these are the calls after it.
  unfoldable Leaves : {B : Type 0} → List Event → Result Fault B × World engine → Type 0
  Leaves {B} t out = (b : B) → out.0 ≡ ok b → out.1.trace ≡ t

  must_be_missing-Leaves :
      {A B : Type 0} (kind : ObjectKind) (ref : Text) (event : Reply A → Event) (r : Reply A)
      (t u : List Event) (k : Exec engine Fault B) (w : World engine)
      → w.trace ≡ event r ∷ u
      → ((v : World engine) → v.trace ≡ event not_found ∷ u → Leaves t (k v))
      → Leaves t (
          continue
            (must_be_missing engine kind ref r w).0
            (λ _. k)
            (must_be_missing engine kind ref r w).1)
  unfolding must_be_missing Leaves
  must_be_missing-Leaves kind ref event (done a) t u k w at_reply next = λ b e. cc
  must_be_missing-Leaves kind ref event not_found t u k w at_reply next = next w at_reply
  must_be_missing-Leaves kind ref event failed t u k w at_reply next = λ b e. cc

  last_missing-Leaves :
      {A : Type 0} (kind : ObjectKind) (ref : Text) (event : Reply A → Event) (r : Reply A)
      (t u : List Event) (w : World engine)
      → w.trace ≡ event r ∷ u
      → event not_found ∷ u ≡ t
      → Leaves t (must_be_missing engine kind ref r w)
  unfolding must_be_missing Leaves
  last_missing-Leaves kind ref event (done a) t u w at_reply h = λ b e. cc
  last_missing-Leaves kind ref event not_found t u w at_reply h = λ b e. at_reply ∙ h
  last_missing-Leaves kind ref event failed t u w at_reply h = λ b e. cc

  named-Leaves :
      {B : Type 0} (r : Result NameFault (Unit {0})) (t : List Event) (k : Exec engine Fault B)
      (w : World engine)
      → Leaves t (k w)
      → Leaves t (continue (named r) (λ _. k) w)
  unfolding named Leaves
  named-Leaves (ok u) t k w next = next
  named-Leaves (err f) t k w next = λ b e. cc

  named-valid :
      {B : Type 0} (r : Result NameFault (Unit {0})) (k : Exec engine Fault B) (w : World engine)
      {b : B}
      → (continue (named r) (λ _. k) w).0 ≡ ok b
      → r ≡ ok tt
  unfolding named
  named-valid (ok u) k w e = refl
  named-valid (err f) k w e = cc

  -- The calls of a run that finds every object missing, newest first.
  abbrev all_missing : Text → List Event → List Event
  all_missing name before =
      volume_inspected (executor_volume name) not_found
      ∷ volume_inspected (agent_volume name) not_found
      ∷ network_inspected (network_name name) not_found
      ∷ container_inspected (executor_name name) not_found
      ∷ container_inspected (agent_name name) not_found
      ∷ before

  preflight_fresh_objects-Leaves :
      (name : Text) (w : World engine)
      → Leaves (all_missing name w.trace) (preflight_fresh_objects engine name w)
  unfolding preflight_fresh_objects check_name call
  preflight_fresh_objects-Leaves name w =
      let t = all_missing name w.trace in
      named-Leaves (validate name) t _ w (
        must_be_missing-Leaves container (agent_name name) (container_inspected (agent_name name)) _
          t w.trace _ _ refl
          (λ v1 e1.
            must_be_missing-Leaves container (executor_name name)
              (container_inspected (executor_name name)) _ t v1.trace _ _ refl
              (λ v2 e2.
                must_be_missing-Leaves network (network_name name)
                  (network_inspected (network_name name)) _ t v2.trace _ _ refl
                  (λ v3 e3.
                    must_be_missing-Leaves volume (agent_volume name)
                      (volume_inspected (agent_volume name)) _ t v3.trace _ _ refl
                      (λ v4 e4.
                        last_missing-Leaves volume (executor_volume name)
                          (volume_inspected (executor_volume name)) _ t v4.trace _ refl cc)))))

  preflight_fresh_objects-valid :
      (name : Text) (w : World engine)
      → (preflight_fresh_objects engine name w).0 ≡ ok tt
      → validate name ≡ ok tt
  unfolding preflight_fresh_objects check_name
  preflight_fresh_objects-valid name w e = named-valid (validate name) _ w e

  -- When PreflightFreshObjects succeeds, the name of the box is valid, and the calls it made are just
  -- these: each of the five objects that a box of that name has was looked for and not found, one
  -- after another.
  pub preflight_fresh_objects-missing :
      (name : Text) (w : World engine)
      → (preflight_fresh_objects engine name w).0 ≡ ok tt
      → (validate name ≡ ok tt)
        × ((preflight_fresh_objects engine name w).1.trace
            ≡ volume_inspected (executor_volume name) not_found
              ∷ volume_inspected (agent_volume name) not_found
              ∷ network_inspected (network_name name) not_found
              ∷ container_inspected (executor_name name) not_found
              ∷ container_inspected (agent_name name) not_found
              ∷ w.trace)
  unfolding Leaves
  preflight_fresh_objects-missing name w e =
      (preflight_fresh_objects-valid name w e, preflight_fresh_objects-Leaves name w tt e)
