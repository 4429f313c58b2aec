-- ===== src/Cli/Unused.antt =====
-- What prune has checked of an image that it does not keep.
use tx.Base.{arith, All, false, ◌≡◌, List, [], ◌∷◌}
use tx.Cli.Prune.{keeps_image, used_by_tag, images_in_use}
use tx.Dict.{elem}
use tx.Docker.{ImageSummary, Summary}
use tx.Text.{Text, text_eq}

-- A container whose image is another one than this reference, by name and by ID.
abbrev pub IsOtherImage : Text → Summary → Type 0
IsOtherImage ref c = (text_eq c.image ref ≡ false) × (text_eq c.image_id ref ≡ false)

elem-false : (k : Text) (js : List Text) → elem k js ≡ false → All (λ j. text_eq j k ≡ false) js
unfolding elem
elem-false k [] e = tt
elem-false k (j ∷ js) e = (ground arith, elem-false k js (ground arith))

images_in_use-false :
    (ref : Text) (cs : List Summary)
    → elem ref (images_in_use cs) ≡ false
    → All (IsOtherImage ref) cs
unfolding elem images_in_use
images_in_use-false ref [] e = tt
images_in_use-false ref (c ∷ cs) e =
    ((ground arith, ground arith), images_in_use-false ref cs (ground arith))

used_by_tag-false :
    (cs : List Summary) (tags : List Text)
    → used_by_tag (images_in_use cs) tags ≡ false
    → All (λ ref. All (IsOtherImage ref) cs) tags
unfolding used_by_tag
used_by_tag-false cs [] e = tt
used_by_tag-false cs (tag ∷ tags) e =
    (images_in_use-false tag cs (ground arith), used_by_tag-false cs tags (ground arith))

pub keeps_image-false :
    (current_tag : Text) (cs : List Summary) (image : ImageSummary)
    → keeps_image current_tag (images_in_use cs) image ≡ false
    → All (λ other. text_eq other current_tag ≡ false) image.repo_tags
      × All (λ ref. All (IsOtherImage ref) cs) (image.id ∷ image.repo_tags)
unfolding keeps_image
keeps_image-false current_tag cs image e = (
  elem-false current_tag image.repo_tags (ground arith),
  (
    images_in_use-false image.id cs (ground arith),
    used_by_tag-false cs image.repo_tags (ground arith),
  ),
)
