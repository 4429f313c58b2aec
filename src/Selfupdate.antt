-- ===== src/Selfupdate.antt =====
-- internal/selfupdate: the comparison of versions (version.go); the child `Checksums` parses
-- checksums.txt (checksums.go), `Site` asks the release site (site.go), `Update` is Update
-- (selfupdate.go), and the others prove what these do.
pub mod Checksums
pub mod Compare
pub mod Site
pub mod Update
pub mod Verified
pub mod Untouched
mod Examples
mod UpdateExamples
use tx.Base.{
  ℕ, Bool, true, false, ◌||◌, ◌==◌, ltb, Option, none, some, List, [], ◌∷◌, if◌then◌else◌,
}
use tx.Decimal.{ℤ, pos, negsuc, parse_int}
use tx.Text.Split.{split}
use tx.Text.Trim.{trim_space}
use tx.Text.{Text, codes, is_empty, text_eq, text_lt, trim_prefix}

-- The results -1, 0 and 1 of CompareVersions.
pub data Order : Type 0 where
  less equal greater : Order

unfoldable pub normalize_version : Text → Text
normalize_version v = trim_prefix (trim_space v) (codes "v")

component : Option ℤ → Option ℕ
component none = none
component (some (pos n)) = some n
component (some (negsuc n)) = none

put_first : Option ℕ → Option (List ℕ) → Option (List ℕ)
put_first none rest = none
put_first (some n) none = none
put_first (some n) (some ns) = some (n ∷ ns)

components : List Text → Option (List ℕ)
components [] = some []
components (p ∷ ps) = put_first (component (parse_int p)) (components ps)

unfoldable pub split_numeric : Text → Option (List ℕ)
unfolding components put_first component
split_numeric v = if is_empty v then none else components (split b'.' v)

-- A missing component is 0.
unfoldable pub compare_components : List ℕ → List ℕ → Order
compare_components [] [] = equal
compare_components [] (m ∷ ms) =
    let rest = compare_components [] ms in
    if 0 == m then rest else if ltb 0 m then less else greater
compare_components (n ∷ ns) [] =
    let rest = compare_components ns [] in
    if n == 0 then rest else if ltb n 0 then less else greater
compare_components (n ∷ ns) (m ∷ ms) =
    let rest = compare_components ns ms in
    if n == m then rest else if ltb n m then less else greater

-- strings.Compare
unfoldable pub compare_texts : Text → Text → Order
compare_texts a b = if text_eq a b then equal else if text_lt a b then less else greater

unfoldable pub compare_split : Text → Text → Option (List ℕ) → Option (List ℕ) → Order
compare_split na nb none pb = compare_texts na nb
compare_split na nb (some pa) none = compare_texts na nb
compare_split na nb (some pa) (some pb) = compare_components pa pb

unfoldable pub compare_versions : Text → Text → Order
compare_versions a b =
    let na = normalize_version a in
    let nb = normalize_version b in
    if text_eq na nb then equal else compare_split na nb (split_numeric na) (split_numeric nb)

unfoldable pub same_version : Text → Text → Bool
same_version a b = elim (compare_versions a b) [ less ↦ false | equal ↦ true | greater ↦ false ]
