-- ===== src/Cli/Examples.antt =====
-- Runs of prune and of the choice of a name, on engines for tests.
use tx.Base.{ℕ, ◌≡◌, ◌⊎◌, refl, true, false, none, [], ◌∷◌, ok}
use tx.Box.Backed.{any_event}
use tx.Box.Create.{needed}
use tx.Box.Listing.{list, get, exists, found, find_box, boxes_of, add_containers, in_order}
use tx.Box.Objects.{list_or_fail, preflight_fresh_objects, check_name, must_be_missing, named}
use tx.Box.{agent_name, executor_name, agent_volume, executor_volume, network_name}
use tx.Cli.Common.{
  image_tag, under_lock, generate_fresh_box_name, fresh_rounds, fresh_or, generated,
}
use tx.Cli.Fresh.{IsFresh, generate_fresh_box_name-IsFresh}
use tx.Cli.Guarded.{guarded, held, untags}
use tx.Cli.Images.{IsUnused, cmd_prune-IsUnused, cmd_prune-guarded}
use tx.Cli.Prune.{
  cmd_prune, prune_state_files, prune_entries, prune_entry, stale_name, box_state_in_use, if_locked,
  or_else, prune_state_file, recheck_and_remove, removal_result, removed_unless, there_or,
  prune_images, remove_images, remove_tags, keeps_image, used_by_tag, images_in_use,
}
use tx.Dict.{elem}
use tx.Docker.Exec.{call}
use tx.Docker.Fixed.{fixed_engine, new_world}
use tx.Docker.{Engine, done, not_found, failed}
use tx.Mounts.Prepare.{sort_texts}
use tx.Names.{
  Rand, generate, generate_within, validate, random_attempts, word_at, matches_pattern,
  all_name_chars,
}
use tx.Text.Trim.{has_suffix, trim_suffix}
use tx.Text.{Text, codes, has_prefix, text_eq, len, is_empty, trim_prefix}

-- No container; one image with an old tag; the env file of a box that is gone.
abbrev old_engine : Engine
old_engine = record (fixed_engine none not_found (done tt) (λ spec. failed)) {
  image_list = λ reference s. (
    done (record { id = codes "i1"; repo_tags = codes "tx9-box:0.9" ∷ codes "own:1" ∷ [] } ∷ []),
    s,
  );
  read_boxes_dir = λ s. (done (record { name = codes "fox.env"; is_dir = false } ∷ []), s);
}

abbrev old_tag : Text
old_tag = codes "tx9-box:0.9"

old_is_untagged :
    any_event
      (untags old_tag)
      (cmd_prune old_engine (codes "1.0") (new_world old_engine tt)).1.trace
    ≡ true
unfolding cmd_prune prune_images remove_images remove_tags keeps_image used_by_tag images_in_use
    image_tag elem has_prefix text_eq call needed any_event prune_state_files list list_or_fail
    prune_entries prune_entry stale_name has_suffix validate is_empty trim_suffix len
    matches_pattern all_name_chars boxes_of in_order sort_texts add_containers exists find_box found
    get agent_volume executor_volume network_name under_lock box_state_in_use if_locked or_else
    prune_state_file recheck_and_remove removal_result removed_unless there_or trim_prefix
old_is_untagged = refl

cmd_prune-IsUnused_example :
    (any_event (untags old_tag) [] ≡ true)
    ⊎ IsUnused old_engine (codes "1.0") (new_world old_engine tt) old_tag
cmd_prune-IsUnused_example =
    cmd_prune-IsUnused old_engine (codes "1.0") (new_world old_engine tt) old_tag old_is_untagged

-- The env file of the box that is gone is removed.
fox_is_removed :
    (cmd_prune old_engine (codes "1.0") (new_world old_engine tt)).0
    ≡ ok (old_tag ∷ [], codes "fox.env" ∷ [])
unfolding old_is_untagged
fox_is_removed = refl

nothing_yet : guarded [] ≡ true
unfolding guarded
nothing_yet = refl

cmd_prune-guarded_example :
    (held (cmd_prune old_engine (codes "1.0") (new_world old_engine tt)).1.trace ≡ held [])
    × (guarded (cmd_prune old_engine (codes "1.0") (new_world old_engine tt)).1.trace ≡ true)
cmd_prune-guarded_example =
    cmd_prune-guarded old_engine (codes "1.0") (new_world old_engine tt) nothing_yet

-- Draws the first word each time.
abbrev first_words : ℕ → Rand
first_words round = record { int_n = λ call bound. 0; in_range = λ call bound h. h }

cat_is_chosen :
    (generate_fresh_box_name old_engine first_words
      (preflight_fresh_objects old_engine)
      []
      (new_world old_engine tt)).0
    ≡ ok (codes "large-cat")
unfolding generate_fresh_box_name fresh_rounds fresh_or generated generate generate_within
    random_attempts elem word_at preflight_fresh_objects check_name must_be_missing named validate
    matches_pattern all_name_chars len call agent_name executor_name network_name agent_volume
    executor_volume is_empty text_eq
cat_is_chosen = refl

generate_fresh_box_name-IsFresh_example :
    IsFresh old_engine
      (preflight_fresh_objects old_engine)
      []
      (codes "large-cat")
      (generate_fresh_box_name old_engine first_words
        (preflight_fresh_objects old_engine)
        []
        (new_world old_engine tt)).1
generate_fresh_box_name-IsFresh_example =
    generate_fresh_box_name-IsFresh old_engine (preflight_fresh_objects old_engine) first_words []
      (new_world old_engine tt) (codes "large-cat") cat_is_chosen
