-- ===== src/Box/Inspected.antt =====
-- What the inspections of objects.go leave behind: they change nothing, and each object that they
-- return is shown to be the box's by one of the calls.
use tx.Base.{
  not, arith, true, Bool-cases, ◌≡◌, refl, ◌&&◌, ◌||◌, List, [], ◌∷◌, All, All-append, subst,
  Result, ok, err, ok-injective, inl, inr,
}
use tx.Box.Backed.{
  shows_container, shows_network, any_event, Grows, Grows-trans, Looked, Looked-refl, Looked-trans,
  Looked-looks, looks,
}
use tx.Box.Objects.{
  DestroyTargets, owned_container, owned_network, inspect_owned_container, inspect_owned_network,
  inspect_owned_volume, enter, collect_containers, inspect_destroy_targets, check_name,
  list_or_fail,
}
use tx.Box.{Fault}
use tx.Dict.{elem}
use tx.Docker.Exec.{Exec, call, continue, list_box_containers}
use tx.Docker.{
  Engine, World, Event, Reply, done, not_found, failed, Summary, ContainerInfo, NetworkInfo,
  container_inspected, network_inspected,
}
use tx.Text.{Text, is_empty, text_eq_refl}

-- The ID is empty, or a call shows it to be a container of the box.
unfoldable pub ContainerShown : Text → List Event → Text → Type 0
ContainerShown name t id = is_empty id || any_event (shows_container name id) t ≡ true

-- A call shows the ID to be a container of the box.
unfoldable pub ContainerKnown : Text → List Event → Text → Type 0
ContainerKnown name t id = any_event (shows_container name id) t ≡ true

unfoldable pub NetworkShown : Text → List Event → Text → Type 0
NetworkShown name t id = is_empty id || any_event (shows_network name id) t ≡ true

owned_container-shown :
    (ref name : Text) (reply : Reply ContainerInfo) (t : List Event) {id : Text}
    → owned_container ref name reply ≡ ok id
    → ContainerShown name (container_inspected ref reply ∷ t) id
unfolding owned_container ContainerShown any_event is_empty
owned_container-shown ref name not_found t e = cc
owned_container-shown ref name failed t e = cc
owned_container-shown ref name (done info) t e = ground (arith, text_eq_refl info.id)

owned_network-shown :
    (ref name : Text) (reply : Reply NetworkInfo) (t : List Event) {id : Text}
    → owned_network ref name reply ≡ ok id
    → NetworkShown name (network_inspected ref reply ∷ t) id
unfolding owned_network NetworkShown any_event is_empty
owned_network-shown ref name not_found t e = cc
owned_network-shown ref name failed t e = cc
owned_network-shown ref name (done info) t e = ground (arith, text_eq_refl info.id)

module _ (engine : Engine) (name : Text) where
  pub inspect_owned_container-Looked :
      (ref : Text) (w : World engine)
      → Looked name w.trace (inspect_owned_container engine ref name w).1.trace
  unfolding inspect_owned_container call looks
  inspect_owned_container-Looked ref w = Looked-looks name _ _ refl

  pub inspect_owned_network-Looked :
      (ref : Text) (w : World engine)
      → Looked name w.trace (inspect_owned_network engine ref name w).1.trace
  unfolding inspect_owned_network call looks
  inspect_owned_network-Looked ref w = Looked-looks name _ _ refl

  pub inspect_owned_volume-Looked :
      (ref : Text) (w : World engine)
      → Looked name w.trace (inspect_owned_volume engine ref name w).1.trace
  unfolding inspect_owned_volume call looks
  inspect_owned_volume-Looked ref w = Looked-looks name _ _ refl

  inspect_owned_container-shown :
      (ref : Text) (w : World engine) {id : Text}
      → (inspect_owned_container engine ref name w).0 ≡ ok id
      → ContainerShown name (inspect_owned_container engine ref name w).1.trace id
  unfolding inspect_owned_container call
  inspect_owned_container-shown ref w e = owned_container-shown ref name _ w.trace e

  inspect_owned_network-shown :
      (ref : Text) (w : World engine) {id : Text}
      → (inspect_owned_network engine ref name w).0 ≡ ok id
      → NetworkShown name (inspect_owned_network engine ref name w).1.trace id
  unfolding inspect_owned_network call
  inspect_owned_network-shown ref w e = owned_network-shown ref name _ w.trace e

  -- What a call has shown stays shown.
  pub Grows-known :
      {t u : List Event} (ids : List Text)
      → Grows name t u
      → All (ContainerKnown name t) ids
      → All (ContainerKnown name u) ids
  unfolding ContainerKnown
  Grows-known [] g all = tt
  Grows-known (id ∷ ids) g (a, all) =
      (ground (arith, g.keeps_events (shows_container name id)), Grows-known ids g all)

  enter-known :
      (t : List Event) (ids : List Text) (id : Text)
      → All (ContainerKnown name t) ids
      → ContainerShown name t id
      → All (ContainerKnown name t) (enter ids id)
  unfolding enter ContainerKnown ContainerShown
  enter-known t ids id all a = elim (Bool-cases (not (is_empty id) && not (elem id ids))) [
    | inl e ↦ rw e (All-append (ContainerKnown name t) ids (id ∷ []) all (ground arith, tt))
    | inr e ↦ rw e all
  ]

-- The calls of a run from `t` change nothing, and what it returns satisfies `P` of all the calls.
pub record Sees {engine : Engine} {A : Type 0} (name : Text) (t : List Event)
    (P : List Event → A → Type 0) (out : Result Fault A × World engine) : Type 0 where
  pub looked : Looked name t out.1.trace
  pub holds : (a : A) → out.0 ≡ ok a → P out.1.trace a

pub Sees-continue :
    {engine : Engine} {A B : Type 0} {name : Text} {t : List Event} {P : List Event → A → Type 0}
    {Q : List Event → B → Type 0} (out : Result Fault A × World engine)
    (f : A → Exec engine Fault B)
    → Sees name t P out
    → ((a : A) → Looked name t out.1.trace → P out.1.trace a → Sees name out.1.trace Q (f a out.1))
    → Sees name t Q (continue out.0 f out.1)
Sees-continue (ok a, w) f s next =
    let n = next a s.looked (s.holds a refl) in
    record { looked = Looked-trans s.looked n.looked; holds = n.holds }
Sees-continue (err e, w) f s next = record { looked = s.looked; holds = λ a h. cc }

module _ (engine : Engine) (name : Text) where
  Sees-pure :
      {A : Type 0} (P : List Event → A → Type 0) (a : A) (w : World engine)
      → P w.trace a
      → Sees {engine = engine} name w.trace P (ok a, w)
  Sees-pure P a w p = record {
    looked = Looked-refl name w.trace;
    holds = λ b h. subst (P w.trace) (ok-injective h) p;
  }

  Sees-lift :
      {A : Type 0} (r : Result Fault A) (w : World engine)
      → Sees {engine = engine} name w.trace (λ t a. Unit {0}) (r, w)
  Sees-lift r w = record { looked = Looked-refl name w.trace; holds = λ a h. tt }

  Sees-container :
      (ref : Text) (w : World engine)
      → Sees name w.trace (ContainerShown name) (inspect_owned_container engine ref name w)
  Sees-container ref w = record {
    looked = inspect_owned_container-Looked engine name ref w;
    holds = λ id. inspect_owned_container-shown engine name ref w;
  }

  collect_containers-Sees :
      (refs ids : List Text) (w : World engine)
      → All (ContainerKnown name w.trace) ids
      → Sees name w.trace
          (λ t. All (ContainerKnown name t))
          (collect_containers engine name ids refs w)
  unfolding collect_containers
  collect_containers-Sees [] ids w all = Sees-pure (λ t. All (ContainerKnown name t)) ids w all
  collect_containers-Sees (ref ∷ refs) ids w all =
      elim (Bool-cases (is_empty ref || elem ref ids)) [
        | inl e ↦ rw (e, collect_containers) (collect_containers-Sees refs ids w all)
        | inr e ↦
            rw (e, collect_containers)
              (Sees-continue (inspect_owned_container engine ref name w)
                (λ id. collect_containers engine name (enter ids id) refs) (Sees-container ref w)
                (λ id _ shown. collect_containers-Sees refs (enter ids id) _ (
                  enter-known engine name _ ids id
                    (Grows-known engine name ids
                      (inspect_owned_container-Looked engine name ref w).grows all)
                    shown)))
      ]

  -- What the targets of a destruction satisfy.
  unfoldable pub TargetsShown : List Event → DestroyTargets → Type 0
  TargetsShown t targets =
      All (ContainerKnown name t) targets.container_ids × NetworkShown name t targets.network_id

  Sees-network :
      (ref : Text) (w : World engine)
      → Sees name w.trace (NetworkShown name) (inspect_owned_network engine ref name w)
  Sees-network ref w = record {
    looked = inspect_owned_network-Looked engine name ref w;
    holds = λ id. inspect_owned_network-shown engine name ref w;
  }

  Sees-volume :
      (ref : Text) (w : World engine)
      → Sees name w.trace (λ t a. Unit {0}) (inspect_owned_volume engine ref name w)
  Sees-volume ref w = record {
    looked = inspect_owned_volume-Looked engine name ref w;
    holds = λ id h. tt;
  }

  pub Grows-network :
      {t u : List Event} (id : Text)
      → Grows name t u
      → NetworkShown name t id
      → NetworkShown name u id
  unfolding NetworkShown
  Grows-network id g h = ground (arith, g.keeps_events (shows_network name id))

  list_call-Sees :
      (w : World engine)
      → Sees {A = Reply (List Summary)} name w.trace
          (λ t a. Unit {0})
          (list_box_containers engine w)
  unfolding call looks
  list_call-Sees w = record { looked = Looked-looks name _ _ refl; holds = λ a h. tt }

  check_name-Sees :
      (w : World engine) → Sees name w.trace (λ t a. Unit {0}) (check_name engine name w)
  unfolding check_name
  check_name-Sees w = Sees-lift _ w

  -- The inspection of the targets changes nothing, and shows each of them to be the box's.
  pub inspect_destroy_targets-Sees :
      (w : World engine) → Sees name w.trace TargetsShown (inspect_destroy_targets engine name w)
  unfolding inspect_destroy_targets TargetsShown
  inspect_destroy_targets-Sees w =
      Sees-continue (check_name engine name w) _ (check_name-Sees w) (λ u l0 _.
        Sees-continue (list_box_containers engine _) _ (list_call-Sees _) (λ reply l1 _.
          Sees-continue (list_or_fail reply, _) _ (Sees-lift (list_or_fail reply) _)
            (λ cs l2 _.
              Sees-continue (collect_containers engine name [] _ _) _
                (collect_containers-Sees _ [] _ tt)
                (λ ids l3 shown.
                  Sees-continue (inspect_owned_network engine _ name _) _ (Sees-network _ _)
                    (λ net l4 net_shown.
                      Sees-continue (inspect_owned_volume engine _ name _) _ (Sees-volume _ _)
                        (λ v l5 _.
                          Sees-continue (inspect_owned_volume engine _ name _) _ (Sees-volume _ _)
                            (λ v' l6 _. Sees-pure TargetsShown _ _ (
                              Grows-known engine name ids
                                  (Grows-trans l4.grows (Grows-trans l5.grows l6.grows)) shown,
                              Grows-network net (Grows-trans l5.grows l6.grows) net_shown,
                            ))))))))
