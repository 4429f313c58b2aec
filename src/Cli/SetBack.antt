-- ===== src/Cli/SetBack.antt =====
-- How the limits of a container are set back, and when the error says that they were not.
use tx.Base.{
  arith, Bool, true, false, ◌||◌, ◌≡◌, ◌⊎◌, refl, ◌∙◌, Option, none, some, List, [], ◌∷◌, ◌++◌, ok,
  if◌then◌else◌, inl, inr,
}
use tx.Cli.Limits.{limits, not_set_back}
use tx.Cli.Live.{current, current-own, current-other, is_done}
use tx.Cli.Transact.{set_back_if}
use tx.Decimal.{ℤ}
use tx.Docker.Exec.{call}
use tx.Docker.{Engine, World, Event, Reply, done, not_found, failed, resources_updated}
use tx.Resources.{ContainerResources, Role, agent_role, executor_role}
use tx.Text.{Text, text_eq, text_eq_refl}

-- The limits that an update of this container asks for, and whether it came through.
abbrev asked_of : Text → Event → Option ((ℤ × ℤ) × Bool)
asked_of id (resources_updated ref new reply) =
    if text_eq ref id then some (new, is_done reply) else none
asked_of id _ = none

abbrev asked_or : Option ((ℤ × ℤ) × Bool) → Option ((ℤ × ℤ) × Bool) → Option ((ℤ × ℤ) × Bool)
asked_or (some asked) before = some asked
asked_or none before = before

-- The newest update of a container.
unfoldable pub last_update : Text → List Event → Option ((ℤ × ℤ) × Bool)
last_update id [] = none
last_update id (e ∷ es) = asked_or (asked_of id e) (last_update id es)

abbrev pub same_role : Role → Role → Bool
same_role agent_role agent_role = true
same_role executor_role executor_role = true
same_role agent_role executor_role = false
same_role executor_role agent_role = false

unfoldable pub names : Role → List Role → Bool
names role [] = false
names role (r ∷ rs) = same_role r role || names role rs

pub names-skip :
    (role : Role) (xs ys : List Role)
    → names role xs ≡ false
    → names role (xs ++ ys) ≡ names role ys
unfolding names
names-skip role [] ys e = refl
names-skip role (x ∷ xs) ys e = ground (arith, names-skip role xs ys)

pub names-drop :
    (role : Role) (xs ys : List Role)
    → names role ys ≡ false
    → names role (xs ++ ys) ≡ names role xs
unfolding names
names-drop role [] ys e = e
names-drop role (x ∷ xs) ys e = ground (arith, names-drop role xs ys e)

-- The container has these limits and its role is not among those that the error names; or its role is
-- named, and the newest update of the container asked for these limits and failed.
abbrev pub IsSetBack :
    (Text → ℤ × ℤ) → Role → Text → ContainerResources → List Role → List Event → Type 0
IsSetBack live role id c roles t =
    ((names role roles ≡ false) × (current live id t ≡ limits c))
    ⊎ ((names role roles ≡ true) × (last_update id t ≡ some (limits c, false)))

-- The calls `u` leave the limits of this container, and its newest update, as `t` had them.
pub record SameUpdates (live : Text → ℤ × ℤ) (id : Text) (t u : List Event) : Type 0 where
  pub same_current : current live id u ≡ current live id t
  pub same_last : last_update id u ≡ last_update id t

pub IsSetBack-same :
    (live : Text → ℤ × ℤ) (role : Role) (id : Text) (c : ContainerResources)
    (roles roles' : List Role) {t u : List Event}
    → names role roles' ≡ names role roles
    → SameUpdates live id t u
    → IsSetBack live role id c roles t
    → IsSetBack live role id c roles' u
IsSetBack-same live role id c roles roles' n same (inl (out, h)) =
    inl (n ∙ out, same.same_current ∙ h)
IsSetBack-same live role id c roles roles' n same (inr (named, h)) =
    inr (n ∙ named, same.same_last ∙ h)

pub SameUpdates-refl : (live : Text → ℤ × ℤ) (id : Text) (t : List Event) → SameUpdates live id t t
SameUpdates-refl live id t = record { same_current = refl; same_last = refl }

tried-SameUpdates :
    (live : Text → ℤ × ℤ) (ref other : Text) (new : ℤ × ℤ) (reply : Reply (Unit {0}))
    (t : List Event)
    → text_eq ref other ≡ false
    → SameUpdates live other t (resources_updated ref new reply ∷ t)
unfolding last_update
tried-SameUpdates live ref other new reply t e = record {
  same_current = current-other live ref other new reply t e;
  same_last = rw e refl;
}

tried-IsSetBack :
    (live : Text → ℤ × ℤ) (role : Role) (id : Text) (c : ContainerResources)
    (reply : Reply (Unit {0})) (t : List Event)
    → IsSetBack live role id c (not_set_back role reply) (resources_updated id (limits c) reply ∷ t)
unfolding not_set_back names last_update
tried-IsSetBack live role id c (done u) t = inl (refl, current-own live id (limits c) t)
tried-IsSetBack live agent_role id c not_found t = inr (refl, rw (text_eq_refl id) refl)
tried-IsSetBack live executor_role id c not_found t = inr (refl, rw (text_eq_refl id) refl)
tried-IsSetBack live agent_role id c failed t = inr (refl, rw (text_eq_refl id) refl)
tried-IsSetBack live executor_role id c failed t = inr (refl, rw (text_eq_refl id) refl)

not_set_back-other :
    (role other : Role) (reply : Reply (Unit {0}))
    → same_role role other ≡ false
    → names other (not_set_back role reply) ≡ false
unfolding not_set_back names
not_set_back-other role other (done u) e = refl
not_set_back-other role other not_found e = ground arith
not_set_back-other role other failed e = ground arith

-- A run of `set_back_if`, and what it comes to.
pub record SetsBack (engine : Engine) (live : Text → ℤ × ℤ) (changed : Bool) (role : Role)
    (id : Text) (c : ContainerResources) (w : World engine) : Type 0 where
  pub roles : List Role
  pub after : World engine
  pub ran : set_back_if engine changed role id c w ≡ (ok roles, after)
  pub is_set_back : IsSetBack live role id c roles after.trace
  pub names_no_other : (other : Role) → same_role role other ≡ false → names other roles ≡ false
  pub leaves_others :
      (other : Text) → text_eq id other ≡ false → SameUpdates live other w.trace after.trace

pub set_back_if-SetsBack :
    (engine : Engine) (live : Text → ℤ × ℤ) (changed : Bool) (role : Role) (id : Text)
    (c : ContainerResources) (w : World engine)
    → (changed ≡ false → current live id w.trace ≡ limits c)
    → SetsBack engine live changed role id c w
unfolding set_back_if call names
set_back_if-SetsBack engine live false role id c w same = record {
  roles = [];
  after = w;
  ran = refl;
  is_set_back = inl (refl, same refl);
  names_no_other = λ other e. refl;
  leaves_others = λ other e. SameUpdates-refl live other w.trace;
}
set_back_if-SetsBack engine live true role id c w same =
    let (r, s) = engine.container_update_resources id (limits c) w.state in
    record {
      roles = not_set_back role r;
      after = record { state = s; trace = resources_updated id (limits c) r ∷ w.trace };
      ran = refl;
      is_set_back = tried-IsSetBack live role id c r w.trace;
      names_no_other = λ other e. not_set_back-other role other r e;
      leaves_others = λ other e. tried-SameUpdates live id other (limits c) r w.trace e;
    }
