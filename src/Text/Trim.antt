-- ===== src/Text/Trim.antt =====
-- strings.TrimSpace, strings.Fields, strings.TrimRight, strings.TrimSuffix and strings.ToLower.
use mathlib.Core.List.{reverse-append, reverse-reverse, reverse-cons}
use tx.Base.{
  ℕ, ◌≡◌, ◌≢◌, refl, sym, ap, ◌∙◌, arith, ◌==◌, All, true, false, Bool, Bool-cases, inl, inr,
  append_assoc, ◌+◌, ◌&&◌, List, [], ◌∷◌, ◌++◌, leb, if◌then◌else◌, reverse,
}
use tx.Text.{Text, has_prefix, is_space, is_empty, trim_prefix}

unfoldable pub trim_left : Text → Text
trim_left [] = []
trim_left (c ∷ s) = let rest = trim_left s in if is_space c then rest else c ∷ s

unfoldable pub trim_right : Text → Text
unfolding is_empty
trim_right [] = []
trim_right (c ∷ s) = let rest = trim_right s in if is_empty rest && is_space c then [] else c ∷ rest

unfoldable pub trim_space : Text → Text
unfolding trim_left trim_right
trim_space s = trim_right (trim_left s)

-- strings.TrimSuffix
unfoldable pub trim_suffix : Text → Text → Text
unfolding trim_prefix
trim_suffix s p = reverse (trim_prefix (reverse s) (reverse p))

-- strings.HasSuffix
unfoldable pub has_suffix : Text → Text → Bool
has_suffix s p = has_prefix (reverse s) (reverse p)

abbrev flush : Text → List Text
flush [] = []
flush (c ∷ s) = (c ∷ s) ∷ []

fields_from : Text → Text → List Text
fields_from word [] = flush word
fields_from word (c ∷ s) =
    let blank = is_space c in
    let rest = fields_from (if blank then [] else word ++ c ∷ []) s in
    if blank then flush word ++ rest else rest

unfoldable pub fields : Text → List Text
unfolding fields_from
fields s = fields_from [] s

-- strings.ToLower, on the letters of ASCII; no other letter has one of `0-9a-f` for its lower case.
unfoldable pub to_lower : Text → Text
to_lower [] = []
to_lower (c ∷ s) = (if leb b'A' c && leb c b'Z' then c + 32 else c) ∷ to_lower s

-- A text without blanks is not trimmed.
abbrev pub NoSpace : Text → Type 0
NoSpace s = All (λ c. is_space c ≡ false) s

trim_left-NoSpace : (s : Text) → NoSpace s → trim_left s ≡ s
unfolding trim_left
trim_left-NoSpace [] h = refl
trim_left-NoSpace (c ∷ s) h = rw h.0

trim_right-NoSpace : (s : Text) → NoSpace s → trim_right s ≡ s
unfolding trim_right
trim_right-NoSpace [] h = refl
trim_right-NoSpace (c ∷ s) h = rw (trim_right-NoSpace s h.1) (rw h.0 (ground arith))

pub trim_space-NoSpace : (s : Text) → NoSpace s → trim_space s ≡ s
unfolding trim_space
trim_space-NoSpace s h = rw (trim_left-NoSpace s h) (trim_right-NoSpace s h)

and-false : (b : Bool) → (b && false) ≡ false
and-false true = refl
and-false false = refl

-- The first character that is no blank stays.
trim_right_head : (c : ℕ) (s : Text) → is_space c ≡ false → trim_right (c ∷ s) ≡ c ∷ trim_right s
unfolding trim_right
trim_right_head c s h = rw h (rw (and-false (is_empty (trim_right s))))

pub trim_space_head :
    (c : ℕ) (s : Text) → is_space c ≡ false → (t : Text) × (trim_space (c ∷ s) ≡ c ∷ t)
trim_space_head c s h = (trim_right s, unfold trim_space trim_left in rw h (trim_right_head c s h))

trim_suffix-no_prefix :
    (s : Text) (c : ℕ) → has_prefix (reverse s) (c ∷ []) ≡ false → trim_suffix s (c ∷ []) ≡ s
unfolding trim_suffix trim_prefix
trim_suffix-no_prefix s c h = rw h (reverse-reverse s)

reverse_head :
    (r v : Text) (x c : ℕ) (s : Text)
    → reverse v ≡ r
    → (x == c) ≡ false
    → ((u : Text) → v ≢ u ++ c ∷ [])
    → has_prefix (r ++ (x ∷ s)) (c ∷ []) ≡ false
unfolding has_prefix
reverse_head [] v x c s e ne no_end = rw ne
reverse_head (d ∷ r) v x c s e ne no_end = elim (Bool-cases (d == c)) [
  | inr other ↦ rw other
  | inl same ↦
      let d_is : d ≡ c = ground arith in
      absurd (
        no_end (reverse r) (
          sym (reverse-reverse v)
          ∙ ap reverse e
          ∙ reverse-cons d r
          ∙ ap (λ k. reverse r ++ k ∷ []) d_is))
]

-- What does not end in the character is left alone.
pub trim_suffix-append :
    (s : Text) (x : ℕ) (v : Text) (c : ℕ)
    → (x == c) ≡ false
    → ((u : Text) → v ≢ u ++ c ∷ [])
    → trim_suffix (s ++ (x ∷ v)) (c ∷ []) ≡ s ++ (x ∷ v)
trim_suffix-append s x v c ne no_end = trim_suffix-no_prefix (s ++ (x ∷ v)) c (
    rw (reverse-append s (x ∷ v), reverse-cons x v, append_assoc (reverse v) (x ∷ []) (reverse s))
      (reverse_head (reverse v) v x c (reverse s) refl ne no_end))
