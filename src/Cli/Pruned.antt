-- ===== src/Cli/Pruned.antt =====
-- What prune removes, and that it gives its locks back.
use tx.Base.{
  Bool, true, false, ◌≡◌, refl, subst, ◌∙◌, List, [], ◌∷◌, ok, Option, none, some, Result-cases, ap,
  inl, inr,
}
use tx.Box.Backed.{any_event}
use tx.Box.Create.{needed}
use tx.Box.Listing.{list}
use tx.Box.Objects.{list_or_fail}
use tx.Cli.Common.{under_lock}
use tx.Cli.Guarded.{held, guarded, well_removed, rechecked, without}
use tx.Cli.Rechecked.{
  IsCareful, IsCareful-refl, IsCareful-trans, listed-IsCareful, dir_read-IsCareful,
  box_state_in_use-IsCareful, box_state_in_use-rechecked,
}
use tx.Cli.Prune.{
  box_state_in_use, removed_unless, recheck_and_remove, if_locked, prune_state_file, prune_entry,
  prune_entries, prune_state_files, stale_name,
}
use tx.Docker.Exec.{call, lift}
use tx.Docker.Keeps.{continue-keeps, continue-ok}
use tx.Docker.{
  lock_released, Engine, World, Event, Reply, done, not_found, failed, listed, lock_taken, DirEntry,
}
use tx.Text.{Text, text_eq_refl}

module _ (engine : Engine) where
  removed_unless-IsCareful :
      (name : Text) (live : Bool) (w : World engine)
      → (live ≡ false → rechecked name w.trace ≡ true)
      → IsCareful w.trace (removed_unless engine name live w).1.trace
  unfolding removed_unless call held guarded well_removed any_event
  removed_unless-IsCareful name true w h = IsCareful-refl w.trace
  removed_unless-IsCareful name false w h = record {
    same_held = refl;
    keeps_guarded = λ g. rw (h refl, g) refl;
    same_images = λ tag. refl;
  }

  recheck_and_remove-IsCareful :
      (name : Text) (t : List Event) (w : World engine)
      → w.trace ≡ lock_taken name (done tt) ∷ t
      → IsCareful w.trace (recheck_and_remove engine name (box_state_in_use engine name) w).1.trace
  unfolding recheck_and_remove
  recheck_and_remove-IsCareful name t w at_lock =
      let keeps = IsCareful w.trace in
      let looked = box_state_in_use-IsCareful engine name w in
      continue-ok keeps (box_state_in_use engine name w) _ looked (λ live is_live.
        IsCareful-trans looked (
          removed_unless-IsCareful name live _
            (λ off. box_state_in_use-rechecked engine name t w at_lock (is_live ∙ ap ok off))))

  -- The lock that was taken last is given back.
  released-IsCareful :
      (name : Text) (t u : List Event)
      → IsCareful (lock_taken name (done tt) ∷ t) u
      → IsCareful t (lock_released name ∷ u)
  unfolding held guarded well_removed any_event without
  released-IsCareful name t u c = record {
    same_held = rw (c.same_held, text_eq_refl name) refl;
    keeps_guarded = λ g. c.keeps_guarded g;
    same_images = λ tag. c.same_images tag;
  }

  if_locked-IsCareful :
      (name : Text) (r : Reply (Unit {0})) (t : List Event) (w : World engine)
      → w.trace ≡ lock_taken name r ∷ t
      → IsCareful t (if_locked engine name (box_state_in_use engine name) r w).1.trace
  unfolding if_locked under_lock call held guarded well_removed any_event
  if_locked-IsCareful name (done u) t w at_lock =
      let after = (recheck_and_remove engine name (box_state_in_use engine name) w).1.trace in
      released-IsCareful name t after
        (subst (λ v. IsCareful v after) at_lock (recheck_and_remove-IsCareful name t w at_lock))
  if_locked-IsCareful name not_found t w at_lock =
      rw at_lock (record { same_held = refl; keeps_guarded = λ g. g; same_images = λ tag. refl })
  if_locked-IsCareful name failed t w at_lock =
      rw at_lock (record { same_held = refl; keeps_guarded = λ g. g; same_images = λ tag. refl })

  prune_entry-IsCareful :
      (name : Option Text) (w : World engine)
      → IsCareful w.trace (prune_entry engine name w).1.trace
  unfolding prune_entry prune_state_file call
  prune_entry-IsCareful none w = IsCareful-refl w.trace
  prune_entry-IsCareful (some name) w = if_locked-IsCareful name _ w.trace _ refl

  prune_entries-IsCareful :
      (known : List Text) (entries : List DirEntry) (w : World engine)
      → IsCareful w.trace (prune_entries engine known entries w).1.trace
  unfolding prune_entries
  prune_entries-IsCareful known [] w = IsCareful-refl w.trace
  prune_entries-IsCareful known (e ∷ es) w =
      let keeps = IsCareful w.trace in
      let first = prune_entry-IsCareful (stale_name known e) w in
      continue-keeps keeps (prune_entry engine (stale_name known e) w) _ first (λ deleted.
        let rest = IsCareful-trans first (prune_entries-IsCareful known es _) in
        continue-keeps keeps (prune_entries engine known es _) _ rest (λ names. rest))

  list-trace :
      (w : World engine)
      → (list engine w).1.trace ≡ listed (engine.list_box_containers w.state).0 ∷ w.trace
  unfolding list call
  list-trace w = elim (Result-cases (list_or_fail (engine.list_box_containers w.state).0)) [
    | inl (cs, e) ↦ rw (list, e) refl
    | inr (f, e) ↦ rw (list, e) refl
  ]

  pub prune_state_files-IsCareful :
      (w : World engine) → IsCareful w.trace (prune_state_files engine w).1.trace
  unfolding prune_state_files call
  prune_state_files-IsCareful w =
      let keeps = IsCareful w.trace in
      let look : keeps (list engine w).1.trace = rw (list-trace w) (listed-IsCareful w.trace _) in
      continue-keeps keeps (list engine w) _ look (λ boxes.
        let read = IsCareful-trans look (dir_read-IsCareful _) in
        continue-keeps keeps (lift (needed _) _) _ read
          (λ entries. IsCareful-trans read (prune_entries-IsCareful _ entries _)))
