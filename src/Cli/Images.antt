-- ===== src/Cli/Images.antt =====
-- Which images prune removes, and what holds of the whole command.
use tx.Base.{
  All, true, false, ◌≡◌, ◌⊎◌, refl, ◌∙◌, sym, List, [], ◌∷◌, ok, subst, ap, ok-injective, In,
  Bool-cases, inl, inr,
}
use tx.Box.Backed.{any_event}
use tx.Box.Create.{needed}
use tx.Cli.Common.{image_tag}
use tx.Cli.Guarded.{held, guarded, well_removed, untags}
use tx.Cli.Pruned.{prune_state_files-IsCareful}
use tx.Cli.Rechecked.{IsCareful}
use tx.Cli.Prune.{
  keeps_image, prune_state_files, images_in_use, remove_tags, remove_images, prune_images,
  cmd_prune,
}
use tx.Docker.Exec.{call, lift}
use tx.Docker.Keeps.{continue-keeps, continue-ok}
use tx.Docker.{
  images_listed, listed, image_removed, Engine, World, Event, ImageSummary, Reply, Summary, done,
  not_found, failed,
}
use tx.Text.{Text, codes, has_prefix, text_eq, text_eq→eq}
use tx.Cli.Unused.{IsOtherImage, keeps_image-false}

-- A tag of tx9 of a listed image that neither is the current one nor is in use.
record IsStale (current_tag : Text) (in_use : List Text) (images : List ImageSummary) (tag : Text)
    : Type 0 where
  image : ImageSummary
  is_listed : In image images
  is_tagged : In tag image.repo_tags
  of_tx9 : has_prefix tag (codes "tx9-box:") ≡ true
  not_kept : keeps_image current_tag in_use image ≡ false

module _ (engine : Engine) where
  -- The removed tags are those of `t` and some of which this holds; locks and env files are left.
  unfoldable Untags : (Text → Type 0) → List Event → List Event → Type 0
  Untags P t u =
      (held u ≡ held t)
      × (guarded t ≡ true → guarded u ≡ true)
      × ((tag : Text) → any_event (untags tag) u ≡ true → (any_event (untags tag) t ≡ true) ⊎ P tag)

  Untags-refl : (P : Text → Type 0) (t : List Event) → Untags P t t
  unfolding Untags
  Untags-refl P t = (refl, λ g. g, λ tag r. inl r)

  Untags-trans :
      (P : Text → Type 0) (t u v : List Event) → Untags P t u → Untags P u v → Untags P t v
  unfolding Untags
  Untags-trans P t u v (h1, g1, s1) (h2, g2, s2) = (
    h2 ∙ h1,
    λ g. g2 (g1 g),
    λ tag r. elim (s2 tag r) [ inl before ↦ s1 tag before | inr p ↦ inr p ],
  )

  IsCareful-Untags : (P : Text → Type 0) {t u : List Event} → IsCareful t u → Untags P t u
  unfolding Untags
  IsCareful-Untags P c = (c.same_held, c.keeps_guarded, λ tag r. inl (sym (c.same_images tag) ∙ r))

  images_listed-Untags : (P : Text → Type 0) (t : List Event) → Untags P t (images_listed ∷ t)
  unfolding Untags held guarded well_removed any_event
  images_listed-Untags P t = (refl, λ g. g, λ tag r. inl r)

  listed-Untags :
      (P : Text → Type 0) (t : List Event) (r : Reply (List Summary)) → Untags P t (listed r ∷ t)
  unfolding Untags held guarded well_removed any_event
  listed-Untags P t r = (refl, λ g. g, λ tag r. inl r)

  image_removed-Untags :
      (P : Text → Type 0) (tag : Text) (t : List Event) → P tag → Untags P t (image_removed tag ∷ t)
  unfolding Untags held guarded well_removed any_event
  image_removed-Untags P tag t p = (
    refl,
    λ g. g,
    λ other r. elim (Bool-cases (text_eq tag other)) [
      | inl same ↦ inr (subst P (text_eq→eq tag other same) p)
      | inr differs ↦ inl (rw differs at r)
    ],
  )

  remove_tags-Untags :
      (P : Text → Type 0) (tags : List Text) (w : World engine)
      → ((tag : Text) → In tag tags → has_prefix tag (codes "tx9-box:") ≡ true → P tag)
      → Untags P w.trace (remove_tags engine tags w).1.trace
  unfolding remove_tags call
  remove_tags-Untags P [] w h = Untags-refl P w.trace
  remove_tags-Untags P (tag ∷ tags) w h = elim (Bool-cases (has_prefix tag (codes "tx9-box:"))) [
    | inr foreign ↦
        rw (foreign, remove_tags) (remove_tags-Untags P tags w (λ other i. h other (inr i)))
    | inl own ↦
        let keeps = Untags P w.trace in
        let first = image_removed-Untags P tag w.trace (h tag (inl refl) own) in
        rw (own, remove_tags)
          (continue-keeps keeps (lift (needed (engine.image_remove tag w.state).0) _) _ first (λ u.
            let rest =
              Untags-trans P w.trace _ _ first
                (remove_tags-Untags P tags _ (λ other i. h other (inr i))) in
            continue-keeps keeps (remove_tags engine tags _) _ rest (λ removed. rest)))
  ]

  remove_images-Untags :
      (P : Text → Type 0) (current_tag : Text) (in_use : List Text) (images : List ImageSummary)
      (w : World engine)
      → ((tag : Text) → IsStale current_tag in_use images tag → P tag)
      → Untags P w.trace (remove_images engine current_tag in_use images w).1.trace
  unfolding remove_images
  remove_images-Untags P current_tag in_use [] w h = Untags-refl P w.trace
  remove_images-Untags P current_tag in_use (image ∷ images) w h =
      let later : (tag : Text) → IsStale current_tag in_use images tag → P tag = λ tag s.
        h tag (record {
          image = s.image;
          is_listed = inr s.is_listed;
          is_tagged = s.is_tagged;
          of_tx9 = s.of_tx9;
          not_kept = s.not_kept;
        }) in
      elim (Bool-cases (keeps_image current_tag in_use image)) [
        | inl kept ↦
            rw (kept, remove_images) (remove_images-Untags P current_tag in_use images w later)
        | inr stale ↦
            let keeps = Untags P w.trace in
            let first = remove_tags-Untags P image.repo_tags w (λ tag i own. h tag (record {
              image = image;
              is_listed = inl refl;
              is_tagged = i;
              of_tx9 = own;
              not_kept = stale;
            })) in
            rw (stale, remove_images)
              (continue-keeps keeps (remove_tags engine image.repo_tags w) _ first (λ removed.
                let rest =
                  Untags-trans P w.trace _ _ first
                    (remove_images-Untags P current_tag in_use images _ later) in
                continue-keeps keeps (remove_images engine current_tag in_use images _) _ rest
                  (λ names. rest)))
      ]

  -- The images and the containers as the first two calls of prune show them.
  abbrev pub shown_images : World engine → Reply (List ImageSummary)
  shown_images w = (engine.image_list (codes "tx9-box:*") w.state).0

  abbrev pub shown_containers : World engine → Reply (List Summary)
  shown_containers w =
      (engine.list_box_containers (engine.image_list (codes "tx9-box:*") w.state).1).0

  -- What prune may untag, with the images and the containers that it was shown.
  pub record IsUnused (version : Text) (w : World engine) (tag : Text) : Type 0 where
    pub images : List ImageSummary
    pub containers : List Summary
    pub images_are : shown_images w ≡ done images
    pub containers_are : shown_containers w ≡ done containers
    pub image : ImageSummary
    pub is_listed : In image images
    pub is_tagged : In tag image.repo_tags
    pub of_tx9 : has_prefix tag (codes "tx9-box:") ≡ true
    pub not_current : All (λ other. text_eq other (image_tag version) ≡ false) image.repo_tags
    pub not_in_use : All (λ ref. All (IsOtherImage ref) containers) (image.id ∷ image.repo_tags)

  needed-eq-ok : {A : Type 0} (r : Reply A) {a : A} → needed r ≡ ok a → r ≡ done a
  unfolding needed
  needed-eq-ok (done a) e = ap done (ok-injective e)
  needed-eq-ok not_found e = cc
  needed-eq-ok failed e = cc

  prune_images-Untags :
      (version : Text) (w : World engine)
      → Untags (IsUnused version w) w.trace (prune_images engine version w).1.trace
  unfolding prune_images call
  prune_images-Untags version w =
      let P = IsUnused version w in
      let keeps = Untags P w.trace in
      let one = images_listed-Untags P w.trace in
      continue-ok keeps (lift (needed (shown_images w)) _) _ one (λ images i.
        let two = Untags-trans P w.trace _ _ one (listed-Untags P _ _) in
        continue-ok keeps (lift (needed (shown_containers w)) _) _ two (λ containers c.
          Untags-trans P w.trace _ _ two (
            remove_images-Untags P (image_tag version) (images_in_use containers) images _ (λ tag s.
              let (current, in_use) =
                keeps_image-false (image_tag version) containers s.image s.not_kept in
              record {
                images = images;
                containers = containers;
                images_are = needed-eq-ok _ i;
                containers_are = needed-eq-ok _ c;
                image = s.image;
                is_listed = s.is_listed;
                is_tagged = s.is_tagged;
                of_tx9 = s.of_tx9;
                not_current = current;
                not_in_use = in_use;
              }))))

  cmd_prune-Untags :
      (version : Text) (w : World engine)
      → Untags (IsUnused version w) w.trace (cmd_prune engine version w).1.trace
  unfolding cmd_prune
  cmd_prune-Untags version w =
      let P = IsUnused version w in
      let keeps = Untags P w.trace in
      let images = prune_images-Untags version w in
      continue-keeps keeps (prune_images engine version w) _ images (λ removed.
        let files =
          Untags-trans P w.trace _ _ images
            (IsCareful-Untags P (prune_state_files-IsCareful engine _)) in
        continue-keeps keeps (prune_state_files engine _) _ files (λ names. files))

  -- Whatever the engine replies, prune untags only tags of tx9 of images that it was shown, such that
  -- no tag of the image is `tx9-box:` with the current version, and no container that it was shown has
  -- the ID or a tag of the image for its image or its image's ID.
  pub cmd_prune-IsUnused :
      (version : Text) (w : World engine) (tag : Text)
      → any_event (untags tag) (cmd_prune engine version w).1.trace ≡ true
      → (any_event (untags tag) w.trace ≡ true) ⊎ IsUnused version w tag
  unfolding Untags
  cmd_prune-IsUnused version w tag = (cmd_prune-Untags version w).2 tag

  -- However prune ends, it holds the locks that it held before and no other, and it removes the env
  -- file of a box only right after it took the lock of the box and then was shown no container of it,
  -- neither of its volumes and no network of it, if the calls before were so.
  pub cmd_prune-guarded :
      (version : Text) (w : World engine)
      → guarded w.trace ≡ true
      → (held (cmd_prune engine version w).1.trace ≡ held w.trace)
        × (guarded (cmd_prune engine version w).1.trace ≡ true)
  unfolding Untags
  cmd_prune-guarded version w g =
      let (same_held, keeps, only) = cmd_prune-Untags version w in (same_held, keeps g)
