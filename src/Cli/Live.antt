-- ===== src/Cli/Live.antt =====
-- The limits of the containers of a box, as the calls have left them.
use tx.Base.{
  arith, Bool, true, false, ◌≡◌, refl, ◌∙◌, ap, Option, none, some, List, [], ◌∷◌, Result, ok,
  if◌then◌else◌, Bool-cases, inl, inr,
}
use tx.Box.{Box, Fault}
use tx.Cli.Limits.{differs, same_int, limits}
use tx.Cli.Transact.{update_if, reset_box_resources}
use tx.Decimal.{ℤ, pos, negsuc}
use tx.Docker.Exec.{lift, Exec, call}
use tx.Docker.{Engine, World, Event, Reply, done, not_found, failed, resources_updated}
use tx.Resources.{Resources, ContainerResources}
use tx.Text.{Text, text_eq, text_eq→eq, text_eq_refl}
use tx.Box.Create.{needed, checked_resources}
use tx.Box.Saving.{update_env, save_box_resources, in_resources}
use tx.Docker.Keeps.{continue-keeps}
use tx.Resources.{save_resources, reset_resources}
use tx.State.{Env}

-- The limits that an update of this container has set, if it came through.
abbrev pub update_of : Text → Event → Option (ℤ × ℤ)
update_of id (resources_updated ref new (done u)) = if text_eq ref id then some new else none
update_of id _ = none

abbrev latest : Option (ℤ × ℤ) → ℤ × ℤ → ℤ × ℤ
latest (some new) before = new
latest none before = before

abbrev pub is_done : Reply (Unit {0}) → Bool
is_done (done u) = true
is_done _ = false

-- The limits of a container after these calls, the newest of which comes first.
unfoldable pub current : (Text → ℤ × ℤ) → Text → List Event → ℤ × ℤ
current live id [] = live id
current live id (e ∷ es) = latest (update_of id e) (current live id es)

-- The containers of the box have these limits.
pub record HaveLimits (live : Text → ℤ × ℤ) (b : Box) (agent executor : ContainerResources)
    (t : List Event) : Type 0 where
  pub agent_is : current live b.agent_id t ≡ limits agent
  pub executor_is : current live b.executor_id t ≡ limits executor

-- An action that updates no limits of a container.
unfoldable pub LeavesLimits : (engine : Engine) → Exec engine Fault (Unit {0}) → Type 0
LeavesLimits engine m =
    (live : Text → ℤ × ℤ) (id : Text) (w : World engine)
    → current live id (m w).1.trace ≡ current live id w.trace

same_int→eq : (a b : ℤ) → same_int a b ≡ true → a ≡ b
unfolding same_int
same_int→eq (pos m) (pos n) e = ap pos (ground arith)
same_int→eq (negsuc m) (negsuc n) e = ap negsuc (ground arith)
same_int→eq (pos m) (negsuc n) e = cc
same_int→eq (negsuc m) (pos n) e = cc

pub limits-differs : (a b : ContainerResources) → differs a b ≡ false → limits a ≡ limits b
unfolding differs
limits-differs a b e =
    let cpus = same_int→eq a.nano_cpus b.nano_cpus (ground arith) in
    let memory = same_int→eq a.memory_bytes b.memory_bytes (ground arith) in cc

module _ (live : Text → ℤ × ℤ) where
  pub current-other :
      (ref id : Text) (new : ℤ × ℤ) (r : Reply (Unit {0})) (t : List Event)
      → text_eq ref id ≡ false
      → current live id (resources_updated ref new r ∷ t) ≡ current live id t
  unfolding current
  current-other ref id new (done u) t e = rw e refl
  current-other ref id new not_found t e = refl
  current-other ref id new failed t e = refl

  pub current-own :
      (id : Text) (new : ℤ × ℤ) (t : List Event)
      → current live id (resources_updated id new (done tt) ∷ t) ≡ new
  unfolding current
  current-own id new t = rw (text_eq_refl id) refl

pub apart_sym : (a b : Text) → text_eq a b ≡ false → text_eq b a ≡ false
apart_sym a b e = elim (Bool-cases (text_eq b a)) [
  | inl same ↦ absurd (cc (rw (text_eq→eq b a same) at e, text_eq_refl a))
  | inr other ↦ other
]

module _ (engine : Engine) (live : Text → ℤ × ℤ) (b : Box)
    (apart : text_eq b.agent_id b.executor_id ≡ false) where
  pub have_agent :
      (new agent executor : ContainerResources) (t : List Event)
      → HaveLimits live b agent executor t
      → HaveLimits live b new executor (resources_updated b.agent_id (limits new) (done tt) ∷ t)
  have_agent new agent executor t h = record {
    agent_is = current-own live b.agent_id (limits new) t;
    executor_is =
        current-other live b.agent_id b.executor_id (limits new) (done tt) t apart ∙ h.executor_is;
  }

  pub have_executor :
      (new agent executor : ContainerResources) (t : List Event)
      → HaveLimits live b agent executor t
      → HaveLimits live b agent new (resources_updated b.executor_id (limits new) (done tt) ∷ t)
  have_executor new agent executor t h = record {
    agent_is =
        current-other live b.executor_id b.agent_id (limits new) (done tt) t (apart_sym _ _ apart)
        ∙ h.agent_is;
    executor_is = current-own live b.executor_id (limits new) t;
  }

  pub refused :
      (ref : Text) (new : ℤ × ℤ) (agent executor : ContainerResources) (r : Reply (Unit {0}))
      (t : List Event)
      → is_done r ≡ false
      → HaveLimits live b agent executor t
      → HaveLimits live b agent executor (resources_updated ref new r ∷ t)
  unfolding current
  refused ref new agent executor (done u) t e h = cc
  refused ref new agent executor not_found t e h = record {
    agent_is = h.agent_is;
    executor_is = h.executor_is;
  }
  refused ref new agent executor failed t e h = record {
    agent_is = h.agent_is;
    executor_is = h.executor_is;
  }

module _ (engine : Engine) where
  pub update_if-runs :
      (Before After : List Event → Type 0) (changed : Bool) (id : Text) (c : ContainerResources)
      (w : World engine)
      → (changed ≡ false → After w.trace)
      → After (resources_updated id (limits c) (done tt) ∷ w.trace)
      → ((r : Reply (Unit {0}))
          → is_done r ≡ false
          → Before (resources_updated id (limits c) r ∷ w.trace))
      → (reply : Reply (Unit {0})) × (w' : World engine) × (update_if engine changed id c w
          ≡ (ok reply, w'))
        × (reply ≡ done tt → After w'.trace)
        × (is_done reply ≡ false → Before w'.trace)
  unfolding update_if call
  update_if-runs Before After false id c w same set kept =
      (done tt, w, refl, (λ e. same refl), λ e. absurd (cc e))
  update_if-runs Before After true id c w same set kept =
      let (r, s) = engine.container_update_resources id (limits c) w.state in
      (
        r,
        record { state = s; trace = resources_updated id (limits c) r ∷ w.trace },
        refl,
        (λ e. rw e set),
        λ e. kept r e,
      )

module _ (engine : Engine) where
  update_env-LeavesLimits :
      (name : Text) (change : Env → Result Fault Env)
      → LeavesLimits engine (update_env engine name change)
  unfolding LeavesLimits update_env current call
  update_env-LeavesLimits name change live id w =
      let same : List Event → Type 0 = λ t. current live id t ≡ current live id w.trace in
      continue-keeps same (lift (needed (engine.read_box_env name w.state).0) _) _ refl
        (λ env. continue-keeps same (lift (change env) _) _ refl (λ changed. refl))

  -- Storing limits updates none.
  pub save_box_resources-LeavesLimits :
      (name : Text) (r : Resources) → LeavesLimits engine (save_box_resources engine name r)
  unfolding LeavesLimits save_box_resources
  save_box_resources-LeavesLimits name r live id w =
      let same : List Event → Type 0 = λ t. current live id t ≡ current live id w.trace in
      continue-keeps same (lift (checked_resources r) w) _ refl
        (λ u. update_env-LeavesLimits name (λ env. in_resources (save_resources r env)) live id w)

  pub reset_box_resources-LeavesLimits :
      (name : Text) → LeavesLimits engine (reset_box_resources engine name)
  unfolding reset_box_resources
  reset_box_resources-LeavesLimits name =
      update_env-LeavesLimits name (λ env. ok (reset_resources env))
