-- ===== src/Cli/Prune.antt =====
-- internal/cli/cmd_prune.go: which images and which env files are removed. What is printed is left
-- out; a command that fails returns its error alone.
use tx.Base.{
  Bool, true, false, not, ◌||◌, Option, none, some, List, [], ◌∷◌, ◌++◌, map, if◌then◌else◌, Result,
  ok, err,
}
use tx.Box.Create.{needed}
use tx.Box.Listing.{list, exists}
use tx.Box.{Fault, engine_failed, agent_volume, executor_volume, network_name}
use tx.Cli.Common.{image_tag, under_lock}
use tx.Dict.{elem}
use tx.Docker.Exec.{
  Exec, pure, raise, lift, ◌>>=◌, ◌>>◌, image_list, image_remove, list_box_containers,
  volume_inspect, network_inspect, acquire_lock, read_boxes_dir, remove_env_file,
}
use tx.Docker.{Engine, Reply, done, not_found, failed, Summary, ImageSummary, DirEntry}
use tx.Names.{validate}
use tx.Text.Trim.{has_suffix, trim_suffix}
use tx.Text.{Text, codes, has_prefix}

-- inUse
unfoldable pub images_in_use : List Summary → List Text
images_in_use [] = []
images_in_use (c ∷ cs) = c.image ∷ c.image_id ∷ images_in_use cs

-- usedByTag
unfoldable pub used_by_tag : List Text → List Text → Bool
used_by_tag in_use [] = false
used_by_tag in_use (tag ∷ tags) = elem tag in_use || used_by_tag in_use tags

unfoldable pub keeps_image : Text → List Text → ImageSummary → Bool
keeps_image current_tag in_use image =
    elem image.id in_use || elem current_tag image.repo_tags || used_by_tag in_use image.repo_tags

-- The box whose env file this is, if the entry is the env file of a box that is not known.
unfoldable pub stale_name : List Text → DirEntry → Option Text
stale_name known e =
    let name = trim_suffix e.name (codes ".env") in
    if e.is_dir || not (has_suffix e.name (codes ".env"))
    then none
    else elim (validate name) [ err f ↦ none | ok u ↦ if elem name known then none else some name ]

unfoldable pub removal_result : Reply (Unit {0}) → Result Fault Bool
removal_result (done u) = ok true
removal_result not_found = ok false
removal_result failed = err engine_failed

module _ (engine : Engine) where
  -- The tags of one image; the tags removed are returned.
  unfoldable pub remove_tags : List Text → Exec engine Fault (List Text)
  remove_tags [] w = (ok [], w)
  remove_tags (tag ∷ tags) w = elim (has_prefix tag (codes "tx9-box:")) [
    | false ↦ remove_tags tags w
    | true ↦
        (do
          reply ← image_remove engine tag
          lift (needed reply)
          rest ← remove_tags tags
          pure (tag ∷ rest))
          w
  ]

  unfoldable pub remove_images :
      Text → List Text → List ImageSummary → Exec engine Fault (List Text)
  remove_images current_tag in_use [] w = (ok [], w)
  remove_images current_tag in_use (image ∷ images) w =
      elim (keeps_image current_tag in_use image) [
        | true ↦ remove_images current_tag in_use images w
        | false ↦
            (do
              removed ← remove_tags image.repo_tags
              rest ← remove_images current_tag in_use images
              pure (removed ++ rest))
              w
      ]

  unfoldable pub prune_images : Text → Exec engine Fault (List Text)
  prune_images version = do
    images_reply ← image_list engine (codes "tx9-box:*")
    images ← lift (needed images_reply)
    containers_reply ← list_box_containers engine
    containers ← lift (needed containers_reply)
    remove_images (image_tag version) (images_in_use containers) images

  unfoldable pub or_else : Bool → Exec engine Fault Bool → Exec engine Fault Bool
  or_else true next = pure true
  or_else false next = next

  -- An object that is there is in use; a missing one leaves the question to what follows.
  unfoldable pub there_or : {A : Type 0} → Reply A → Exec engine Fault Bool → Exec engine Fault Bool
  there_or (done a) next = pure true
  there_or not_found next = next
  there_or failed next = raise engine_failed

  unfoldable pub box_state_in_use : Text → Exec engine Fault Bool
  box_state_in_use name = do
    found ← exists engine name
    or_else found (do
      agent ← volume_inspect engine (agent_volume name)
      there_or agent (do
        executor ← volume_inspect engine (executor_volume name)
        there_or executor
            (do net ← network_inspect engine (network_name name); there_or net (pure false))))

  unfoldable pub removed_unless : Text → Bool → Exec engine Fault Bool
  removed_unless name true = pure false
  removed_unless name false = do reply ← remove_env_file engine name; lift (removal_result reply)

  -- What is done under the lock.
  unfoldable pub recheck_and_remove : Text → Exec engine Fault Bool → Exec engine Fault Bool
  recheck_and_remove name in_use = do live ← in_use; removed_unless name live

  -- A box whose lock is taken is left alone.
  unfoldable pub if_locked :
      Text → Exec engine Fault Bool → Reply (Unit {0}) → Exec engine Fault Bool
  if_locked name in_use (done u) = under_lock engine name (recheck_and_remove name in_use)
  if_locked name in_use not_found = pure false
  if_locked name in_use failed = raise engine_failed

  unfoldable pub prune_state_file : Text → Exec engine Fault Bool → Exec engine Fault Bool
  prune_state_file name in_use = do reply ← acquire_lock engine name; if_locked name in_use reply

  unfoldable pub prune_entry : Option Text → Exec engine Fault Bool
  prune_entry none = pure false
  prune_entry (some name) = prune_state_file name (box_state_in_use name)

  unfoldable pub prune_entries : List Text → List DirEntry → Exec engine Fault (List Text)
  prune_entries known [] = pure []
  prune_entries known (e ∷ es) = do
    deleted ← prune_entry (stale_name known e)
    rest ← prune_entries known es
    pure (if deleted then e.name ∷ rest else rest)

  -- The names of the removed files.
  unfoldable pub prune_state_files : Exec engine Fault (List Text)
  prune_state_files = do
    boxes ← list engine
    reply ← read_boxes_dir engine
    entries ← lift (needed reply)
    prune_entries (map (λ b. b.name) boxes) entries

  unfoldable pub cmd_prune : Text → Exec engine Fault (List Text × List Text)
  cmd_prune version = do
    images ← prune_images version
    files ← prune_state_files
    pure (images, files)
