-- ===== src/Selfupdate/Compare.antt =====
-- CompareVersions is symmetric.
use tx.Base.{arith, ℕ, not, ◌≡◌, refl, false, Option, none, some, List, [], ◌∷◌}
use tx.Selfupdate.{
  Order, less, equal, greater, compare_components, compare_texts, compare_split, compare_versions,
  split_numeric, normalize_version,
}
use tx.Text.{Text, text_eq, text_eq_refl, text_lt}

-- The order, seen from the other side.
abbrev pub flip : Order → Order
flip less = greater
flip equal = equal
flip greater = less

compare_components-flip :
    (ns ms : List ℕ) → compare_components ms ns ≡ flip (compare_components ns ms)
unfolding compare_components
compare_components-flip [] [] = refl
compare_components-flip [] (m ∷ ms) = ground (arith, compare_components-flip [] ms)
compare_components-flip (n ∷ ns) [] = ground (arith, compare_components-flip ns [])
compare_components-flip (n ∷ ns) (m ∷ ms) = ground (arith, compare_components-flip ns ms)

text_eq-sym : (a b : Text) → text_eq b a ≡ text_eq a b
unfolding text_eq
text_eq-sym [] [] = refl
text_eq-sym [] (y ∷ ys) = refl
text_eq-sym (x ∷ xs) [] = refl
text_eq-sym (x ∷ xs) (y ∷ ys) = ground (arith, text_eq-sym xs ys)

text_lt-total : (a b : Text) → text_eq a b ≡ false → text_lt b a ≡ not (text_lt a b)
unfolding text_eq text_lt
text_lt-total [] [] e = cc
text_lt-total [] (y ∷ ys) e = refl
text_lt-total (x ∷ xs) [] e = refl
text_lt-total (x ∷ xs) (y ∷ ys) e = ground (arith, text_lt-total xs ys)

compare_texts-flip : (a b : Text) → compare_texts b a ≡ flip (compare_texts a b)
unfolding compare_texts
compare_texts-flip a b = ground (arith, text_eq-sym a b, text_lt-total a b)

compare_split-flip :
    (a b : Text) (pa pb : Option (List ℕ))
    → compare_split b a pb pa ≡ flip (compare_split a b pa pb)
unfolding compare_split
compare_split-flip a b none none = compare_texts-flip a b
compare_split-flip a b none (some ms) = compare_texts-flip a b
compare_split-flip a b (some ns) none = compare_texts-flip a b
compare_split-flip a b (some ns) (some ms) = compare_components-flip ns ms

-- Comparing two versions the other way round gives the opposite answer, and a version equals
-- itself, for all texts, those that are no dotted numbers included.
pub compare_versions-flip :
    (a b : Text)
    → (compare_versions b a ≡ flip (compare_versions a b)) × (compare_versions a a ≡ equal)
unfolding compare_versions
compare_versions-flip a b = (
  ground (
    arith,
    text_eq-sym (normalize_version a) (normalize_version b),
    compare_split-flip (normalize_version a) (normalize_version b)
        (split_numeric (normalize_version a)) (split_numeric (normalize_version b)),
  ),
  rw (text_eq_refl (normalize_version a)) refl,
)
