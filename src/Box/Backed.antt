-- ===== src/Box/Backed.antt =====
-- What the calls made so far show of the objects of a box: which removals the inspections before
-- them permit.
use tx.Base.{arith, Bool, true, false, ◌≡◌, refl, ◌&&◌, ◌||◌, List, [], ◌∷◌, if◌then◌else◌, ◌∙◌}
use tx.Docker.{
  Event, done, listed, container_inspected, network_inspected, volume_inspected, container_removed,
  network_removed, volume_removed, env_read, dir_read, images_listed, image_sought,
}
use tx.Box.{owned_by_box}
use tx.Box.Objects.{config_owned}
use tx.Text.{Text, text_eq}

-- The event shows that the container with this ID has the box's labels.
abbrev pub shows_container : Text → Text → Event → Bool
shows_container name id (container_inspected ref (done info)) =
    config_owned info.config name && text_eq info.id id
shows_container name id _ = false

abbrev pub shows_network : Text → Text → Event → Bool
shows_network name id (network_inspected ref (done info)) =
    owned_by_box info.labels name && text_eq info.id id
shows_network name id _ = false

abbrev pub shows_volume : Text → Text → Event → Bool
shows_volume name volume (volume_inspected ref (done labels)) =
    owned_by_box labels name && text_eq ref volume
shows_volume name volume _ = false

unfoldable pub any_event : (Event → Bool) → List Event → Bool
any_event p [] = false
any_event p (e ∷ es) = p e || any_event p es

unfoldable pub last_event : (Event → Bool) → List Event → Bool
last_event p [] = false
last_event p (e ∷ es) = p e

-- A container or a network is removed by an ID that an earlier inspection showed to be the box's, a
-- volume right after an inspection that showed it to be the box's; `before` are the calls before.
unfoldable pub permitted : Text → Event → List Event → Bool
permitted name (container_removed id) before = any_event (shows_container name id) before
permitted name (network_removed id) before = any_event (shows_network name id) before
permitted name (volume_removed volume) before = last_event (shows_volume name volume) before
permitted name _ before = true

-- Every removal among the calls is permitted by those before it.
unfoldable pub backed : Text → List Event → Bool
backed name [] = true
backed name (e ∷ es) = permitted name e es && backed name es

-- A call that changes nothing.
unfoldable pub looks : Event → Bool
looks (listed r) = true
looks (container_inspected ref r) = true
looks (network_inspected ref r) = true
looks (volume_inspected ref r) = true
looks (env_read name) = true
looks dir_read = true
looks images_listed = true
looks (image_sought tag) = true
looks _ = false

-- The calls that change something.
unfoldable pub changes : List Event → List Event
changes [] = []
changes (e ∷ es) = let rest = changes es in if looks e then rest else e ∷ rest

-- Between the two lists of calls, nothing was removed that was not permitted.
pub record Grows (name : Text) (before after : List Event) : Type 0 where
  pub keeps_backed : backed name before ≡ true → backed name after ≡ true
  pub keeps_events : (p : Event → Bool) → any_event p before ≡ true → any_event p after ≡ true

-- Between the two lists of calls, nothing was changed.
pub record Looked (name : Text) (before after : List Event) : Type 0 where
  pub grows : Grows name before after
  pub same_changes : changes after ≡ changes before

pub Grows-refl : (name : Text) (t : List Event) → Grows name t t
Grows-refl name t = record { keeps_backed = λ h. h; keeps_events = λ p h. h }

pub Grows-trans :
    {name : Text} {t u v : List Event} → Grows name t u → Grows name u v → Grows name t v
Grows-trans f g = record {
  keeps_backed = λ h. g.keeps_backed (f.keeps_backed h);
  keeps_events = λ p h. g.keeps_events p (f.keeps_events p h);
}

pub Looked-refl : (name : Text) (t : List Event) → Looked name t t
Looked-refl name t = record { grows = Grows-refl name t; same_changes = refl }

pub Looked-trans :
    {name : Text} {t u v : List Event} → Looked name t u → Looked name u v → Looked name t v
Looked-trans f g = record {
  grows = Grows-trans f.grows g.grows;
  same_changes = g.same_changes ∙ f.same_changes;
}

-- One more call that is permitted.
pub Grows-permitted :
    (name : Text) (e : Event) (t : List Event) → permitted name e t ≡ true → Grows name t (e ∷ t)
unfolding backed any_event
Grows-permitted name e t ok_here = record {
  keeps_backed = λ h. ground arith;
  keeps_events = λ p h. ground arith;
}

looks-permitted :
    (name : Text) (e : Event) (t : List Event) → looks e ≡ true → permitted name e t ≡ true
unfolding permitted looks
looks-permitted name e t h = ground arith

pub Looked-looks :
    (name : Text) (e : Event) (t : List Event) → looks e ≡ true → Looked name t (e ∷ t)
unfolding changes
Looked-looks name e t h = record {
  grows = Grows-permitted name e t (looks-permitted name e t h);
  same_changes = ground arith;
}
