-- ===== src/Cli/Guarded.antt =====
-- What the calls made so far show of the locks that are held and of the env files that prune removed.
use tx.Base.{Bool, true, false, ◌&&◌, List, [], ◌∷◌, if◌then◌else◌, ok, err, Result, not}
use tx.Box.Listing.{boxes_of, find_box, found}
use tx.Box.{agent_volume, executor_volume, network_name}
use tx.Docker.{
  Event, done, not_found, listed, network_inspected, volume_inspected, lock_taken, lock_released,
  env_file_removed, image_removed,
}
use tx.Text.{Text, text_eq}

unfoldable pub without : Text → List Text → List Text
without name [] = []
without name (n ∷ ns) = if text_eq n name then ns else n ∷ without name ns

-- The locks that are held after these calls, the last taken first.
unfoldable pub held : List Event → List Text
held [] = []
held (lock_taken name (done u) ∷ es) = name ∷ held es
held (lock_released name ∷ es) = without name (held es)
held (e ∷ es) = held es

abbrev is_absent : Result tx.Box.Fault Bool → Bool
is_absent (ok there) = not there
is_absent (err f) = false

-- Whether the last calls took the lock of the box, showed no container of it, neither of its volumes
-- and no network of it, in this order and nothing in between.
unfoldable pub rechecked : Text → List Event → Bool
rechecked name
      (network_inspected net not_found
        ∷ volume_inspected executor not_found
        ∷ volume_inspected agent not_found
        ∷ listed (done containers)
        ∷ lock_taken lock (done u)
        ∷ es) =
    text_eq net (network_name name)
    && text_eq executor (executor_volume name)
    && text_eq agent (agent_volume name)
    && is_absent (found (find_box name (boxes_of containers)))
    && text_eq lock name
rechecked name _ = false

unfoldable pub well_removed : Event → List Event → Bool
well_removed (env_file_removed name reply) before = rechecked name before
well_removed _ before = true

-- Every removal of an env file by prune came right after such a recheck.
unfoldable pub guarded : List Event → Bool
guarded [] = true
guarded (e ∷ es) = well_removed e es && guarded es

abbrev pub untags : Text → Event → Bool
untags tag (image_removed old) = text_eq old tag
untags tag _ = false
