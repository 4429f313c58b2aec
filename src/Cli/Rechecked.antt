-- ===== src/Cli/Rechecked.antt =====
-- What prune looks at before it removes an env file.
use tx.Base.{
  Bool, true, false, ◌≡◌, refl, ◌∙◌, sym, List, ◌∷◌, ok, err, Result-cases, ap, ap₂, ok-injective,
  inl, inr,
}
use tx.Box.Backed.{any_event}
use tx.Box.Listing.{exists, get, list, find_box, found, boxes_of}
use tx.Box.Objects.{list_or_fail}
use tx.Box.{Fault, engine_failed, agent_volume, executor_volume, network_name}
use tx.Cli.Guarded.{held, guarded, well_removed, rechecked, untags}
use tx.Cli.Prune.{box_state_in_use, or_else, there_or}
use tx.Docker.Exec.{Exec, call, pure, ◌>>=◌, volume_inspect, network_inspect}
use tx.Docker.Keeps.{continue-keeps, continue-eq-ok}
use tx.Docker.{
  dir_read, Summary, Labels, NetworkInfo, Engine, World, Event, Reply, done, not_found, failed,
  listed, lock_taken, volume_inspected, network_inspected,
}
use tx.Text.{Text, text_eq_refl}

-- From the first calls to the second, the same locks are held, no image is untagged, and every
-- removal of an env file is guarded.
pub record IsCareful (t u : List Event) : Type 0 where
  pub same_held : held u ≡ held t
  pub keeps_guarded : guarded t ≡ true → guarded u ≡ true
  pub same_images : (tag : Text) → any_event (untags tag) u ≡ any_event (untags tag) t

pub IsCareful-refl : (t : List Event) → IsCareful t t
IsCareful-refl t = record { same_held = refl; keeps_guarded = λ g. g; same_images = λ tag. refl }

pub IsCareful-trans : {t u v : List Event} → IsCareful t u → IsCareful u v → IsCareful t v
IsCareful-trans a b = record {
  same_held = b.same_held ∙ a.same_held;
  keeps_guarded = λ g. b.keeps_guarded (a.keeps_guarded g);
  same_images = λ tag. b.same_images tag ∙ a.same_images tag;
}

-- One look at the engine.
module _ (t : List Event) where
  pub listed-IsCareful : (r : Reply (List Summary)) → IsCareful t (listed r ∷ t)
  unfolding held guarded well_removed any_event
  listed-IsCareful r = record {
    same_held = refl;
    keeps_guarded = λ g. g;
    same_images = λ tag. refl;
  }

  volume_inspected-IsCareful :
      (ref : Text) (r : Reply Labels) → IsCareful t (volume_inspected ref r ∷ t)
  unfolding held guarded well_removed any_event
  volume_inspected-IsCareful ref r = record {
    same_held = refl;
    keeps_guarded = λ g. g;
    same_images = λ tag. refl;
  }

  network_inspected-IsCareful :
      (ref : Text) (r : Reply NetworkInfo) → IsCareful t (network_inspected ref r ∷ t)
  unfolding held guarded well_removed any_event
  network_inspected-IsCareful ref r = record {
    same_held = refl;
    keeps_guarded = λ g. g;
    same_images = λ tag. refl;
  }

  pub dir_read-IsCareful : IsCareful t (dir_read ∷ t)
  unfolding held guarded well_removed any_event
  dir_read-IsCareful = record {
    same_held = refl;
    keeps_guarded = λ g. g;
    same_images = λ tag. refl;
  }

module _ (engine : Engine) where
  there_or-keeps :
      {A : Type 0} (P : List Event → Type 0) (r : Reply A) (next : Exec engine Fault Bool)
      (w : World engine)
      → P w.trace
      → P (next w).1.trace
      → P (there_or engine r next w).1.trace
  unfolding there_or
  there_or-keeps P (done a) next w p q = p
  there_or-keeps P not_found next w p q = q
  there_or-keeps P failed next w p q = p

  or_else-keeps :
      (P : List Event → Type 0) (b : Bool) (next : Exec engine Fault Bool) (w : World engine)
      → P w.trace
      → P (next w).1.trace
      → P (or_else engine b next w).1.trace
  unfolding or_else
  or_else-keeps P true next w p q = p
  or_else-keeps P false next w p q = q

  or_else-eq-false :
      (b : Bool) (next : Exec engine Fault Bool) (w : World engine)
      → (or_else engine b next w).0 ≡ ok false
      → (b ≡ false) × ((next w).0 ≡ ok false) × (or_else engine b next w ≡ next w)
  unfolding or_else
  or_else-eq-false true next w e = cc
  or_else-eq-false false next w e = (refl, e, refl)

  there_or-eq-false :
      {A : Type 0} (r : Reply A) (next : Exec engine Fault Bool) (w : World engine)
      → (there_or engine r next w).0 ≡ ok false
      → (r ≡ not_found) × ((next w).0 ≡ ok false) × (there_or engine r next w ≡ next w)
  unfolding there_or
  there_or-eq-false (done a) next w e = cc
  there_or-eq-false not_found next w e = (refl, e, refl)
  there_or-eq-false failed next w e = cc

  -- Exists makes one call, and answers from its reply.
  exists-trace :
      (name : Text) (w : World engine)
      → (exists engine name w).1.trace ≡ listed (engine.list_box_containers w.state).0 ∷ w.trace
  unfolding exists get list call
  exists-trace name w = elim (Result-cases (list_or_fail (engine.list_box_containers w.state).0)) [
    | inl (cs, e) ↦ rw (exists, get, list, e) refl
    | inr (f, e) ↦ rw (exists, get, list, e) refl
  ]

  list_or_fail-ok :
      (r : Reply (List Summary)) {cs : List Summary} → list_or_fail r ≡ ok cs → r ≡ done cs
  unfolding list_or_fail
  list_or_fail-ok (done cs) e = ap done (ok-injective e)
  list_or_fail-ok not_found e = cc
  list_or_fail-ok failed e = cc

  list_or_fail-err :
      (r : Reply (List Summary)) {f : Fault} → list_or_fail r ≡ err f → f ≡ engine_failed
  unfolding list_or_fail
  list_or_fail-err (done cs) e = cc
  list_or_fail-err not_found e = cc
  list_or_fail-err failed e = cc

  exists-absent :
      (name : Text) (w : World engine)
      → (exists engine name w).0 ≡ ok false
      → (cs : List Summary) × ((engine.list_box_containers w.state).0 ≡ done cs)
        × (found (find_box name (boxes_of cs)) ≡ ok false)
  unfolding exists get list call found
  exists-absent name w e =
      elim (Result-cases (list_or_fail (engine.list_box_containers w.state).0)) [
        | inl (cs, l) ↦ (cs, list_or_fail-ok _ l, rw l at e)
        | inr (f, l) ↦ absurd (cc (rw (l, list_or_fail-err _ l, found) at e))
      ]

  -- The questions behind Exists, the first of which is asked in `w`.
  objects_in_use : Text → Exec engine Fault Bool
  objects_in_use name = do
    agent ← volume_inspect engine (agent_volume name)
    there_or engine agent (do
      executor ← volume_inspect engine (executor_volume name)
      there_or engine executor
          (do net ← network_inspect engine (network_name name); there_or engine net (pure false)))

  objects_in_use-IsCareful :
      (name : Text) (w : World engine) → IsCareful w.trace (objects_in_use name w).1.trace
  unfolding objects_in_use call
  objects_in_use-IsCareful name w =
      let keeps = IsCareful w.trace in
      let one = volume_inspected-IsCareful w.trace (agent_volume name) _ in
      there_or-keeps keeps (engine.volume_inspect (agent_volume name) w.state).0 _ _ one (
        let two = IsCareful-trans one (volume_inspected-IsCareful _ (executor_volume name) _) in
        there_or-keeps keeps _ _ _ two (
          let three = IsCareful-trans two (network_inspected-IsCareful _ (network_name name) _) in
          there_or-keeps keeps _ _ _ three three))

  pub box_state_in_use-IsCareful :
      (name : Text) (w : World engine) → IsCareful w.trace (box_state_in_use engine name w).1.trace
  unfolding box_state_in_use objects_in_use
  box_state_in_use-IsCareful name w =
      let keeps = IsCareful w.trace in
      let look : keeps (exists engine name w).1.trace =
        rw (exists-trace name w) (listed-IsCareful w.trace _) in
      continue-keeps keeps (exists engine name w) _ look (λ there.
        or_else-keeps keeps there (objects_in_use name) (exists engine name w).1 look
          (IsCareful-trans look (objects_in_use-IsCareful name _)))

  objects_in_use-rechecked :
      (name : Text) (cs : List Summary) (t : List Event) (w : World engine)
      → w.trace ≡ listed (done cs) ∷ lock_taken name (done tt) ∷ t
      → found (find_box name (boxes_of cs)) ≡ ok false
      → (objects_in_use name w).0 ≡ ok false
      → rechecked name (objects_in_use name w).1.trace ≡ true
  unfolding objects_in_use call rechecked
  objects_in_use-rechecked name cs t w before absent e =
      let (r1, e1, same1) =
        there_or-eq-false (engine.volume_inspect (agent_volume name) w.state).0 _ _ e in
      let (r2, e2, same2) = there_or-eq-false _ _ _ e1 in
      let (r3, e3, same3) = there_or-eq-false _ _ _ e2 in
      rw
        (
          same1,
          same2,
          same3,
          r1,
          r2,
          r3,
          before,
          absent,
          text_eq_refl (network_name name),
          text_eq_refl (executor_volume name),
          text_eq_refl (agent_volume name),
          text_eq_refl name,
        )
        refl

  -- An answer that the box is gone follows a recheck of all its objects.
  pub box_state_in_use-rechecked :
      (name : Text) (t : List Event) (w : World engine)
      → w.trace ≡ lock_taken name (done tt) ∷ t
      → (box_state_in_use engine name w).0 ≡ ok false
      → rechecked name (box_state_in_use engine name w).1.trace ≡ true
  unfolding box_state_in_use objects_in_use
  box_state_in_use-rechecked name t w at_lock e =
      let out = exists engine name w in
      let (there, is_there, same) =
        continue-eq-ok out (λ b. or_else engine b (objects_in_use name)) e in
      let (gone, none_left, same') =
        or_else-eq-false there (objects_in_use name) out.1 (sym (ap (λ o. o.0) same) ∙ e) in
      let (cs, reply, absent) = exists-absent name w (is_there ∙ ap ok gone) in
      rw (same, same')
        (objects_in_use-rechecked name cs t out.1
          (exists-trace name w ∙ ap₂ (λ r u. listed r ∷ u) reply at_lock) absent none_left)
