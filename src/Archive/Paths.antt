-- ===== src/Archive/Paths.antt =====
-- safeText, posixPartsRaw, linkParts, validateLinkTarget and keyDirParts of validator.go.
use tx.Base.{
  ℕ, Bool, false, not, ◌||◌, List, [], ◌∷◌, ◌++◌, ltb, ◌==◌, if◌then◌else◌, ok, err, ◌>>=◌, ◌>>◌,
  refuse_if,
}
use tx.Text.Split.{split}
use tx.Text.{Text, is_empty, text_eq, has_prefix}
use tx.Archive.{
  TarMember, control_characters, link_is_absolute, link_is_empty, link_escapes, Checked,
}

abbrev pub slash : ℕ
slash = b'/'

abbrev pub slashes : Text
slashes = slash ∷ []

abbrev pub dot : Text
dot = b'.' ∷ []

abbrev pub dotdot : Text
dotdot = b'.' ∷ b'.' ∷ []

unfoldable pub has_control : Text → Bool
has_control [] = false
has_control (c ∷ s) = ltb c 32 || c == 127 || has_control s

unfoldable pub safe_text : Text → Checked (Unit {0})
safe_text value = refuse_if (has_control value) control_characters

-- The segments that the test keeps.
unfoldable pub keep : (Text → Bool) → List Text → List Text
keep test [] = []
keep test (p ∷ ps) = let rest = keep test ps in if test p then p ∷ rest else rest

unfoldable pub posix_parts_raw : Text → List Text
posix_parts_raw p = keep (λ seg. not (is_empty seg)) (split slash p)

unfoldable pub drop_dots : List Text → List Text
drop_dots parts = keep (λ p. not (text_eq p dot)) parts

unfoldable pub link_parts : Text → Checked (List Text)
unfolding safe_text
link_parts value = do
  safe_text value
  refuse_if (has_prefix value slashes) link_is_absolute
  ok (drop_dots (posix_parts_raw value))

-- resolved[:len(resolved)-1]
unfoldable pub drop_last : List Text → List Text
drop_last [] = []
drop_last (p ∷ []) = []
drop_last (p ∷ q ∷ ps) = p ∷ drop_last (q ∷ ps)

unfoldable pub key_dir_parts : Text → List Text
unfolding is_empty drop_last
key_dir_parts key = if is_empty key then [] else drop_last (split slash key)

-- The loop of validateLinkTarget over the segments of the target.
unfoldable pub walk_target : List Text → List Text → Checked (Unit {0})
unfolding text_eq drop_last
walk_target resolved [] = ok tt
walk_target [] (part ∷ parts) =
    let rest = walk_target (part ∷ []) parts in
    if text_eq part dotdot then err link_escapes else rest
walk_target (r ∷ rs) (part ∷ parts) =
    walk_target (if text_eq part dotdot then drop_last (r ∷ rs) else (r ∷ rs) ++ part ∷ []) parts

check_not_empty : List Text → Checked (Unit {0})
check_not_empty [] = err link_is_empty
check_not_empty (p ∷ ps) = ok tt

unfoldable pub validate_link_target : TarMember → Text → Checked (Unit {0})
unfolding check_not_empty
validate_link_target member key = do
  parts ← link_parts member.linkname
  check_not_empty parts
  walk_target (if member.is_symlink then key_dir_parts key else []) parts
