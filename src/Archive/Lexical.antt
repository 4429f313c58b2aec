-- ===== src/Archive/Lexical.antt =====
-- An independent reading of paths, component by component, and what the textual checks of
-- validator.go say in terms of it.
use tx.Base.{
  ◌≡◌, refl, true, false, not, ◌||◌, Option, none, some, List, [], ◌∷◌, ◌++◌, append_assoc,
  append-nil, arith, ok, Bool-cases, inl, inr, if◌then◌else◌, All, All-map,
}
use tx.Dict.{elem}
use tx.Text.Split.{split, join, Lacks, split-join, split-Lacks}
use tx.Text.{Text, is_empty, is_empty-nil, text_eq}
use tx.Archive.Paths.{
  slash, slashes, dot, dotdot, drop_last, keep, posix_parts_raw, drop_dots, walk_target,
}
use tx.Archive.Resolve.{key_parts}

-- One component, from the directory `at` below the root; `none` leaves the root.
unfoldable pub lexical_step : List Text → Text → Option (List Text)
lexical_step at p =
    if is_empty p || text_eq p dot
    then some at
    else if text_eq p dotdot
    then (elim at [ [] ↦ none | q ∷ qs ↦ some (drop_last (q ∷ qs)) ])
    else some (at ++ p ∷ [])

-- The directory that the components lead to, links not followed.
unfoldable pub lexical : List Text → List Text → Option (List Text)
lexical at [] = some at
lexical at (p ∷ ps) = elim (lexical_step at p) [ none ↦ none | some at' ↦ lexical at' ps ]

-- A component that is a name.
pub record IsSegment (p : Text) : Type 0 where
  pub not_empty : is_empty p ≡ false
  pub no_slash : Lacks slash p
  pub not_dot : text_eq p dot ≡ false

-- Without ".." the components are those that `posix_parts_raw` and the filter on "." leave.
pub lexical-drop_dots :
    (at ps : List Text)
    → elem dotdot (keep (λ seg. not (is_empty seg)) ps) ≡ false
    → lexical at ps ≡ some (at ++ drop_dots (keep (λ seg. not (is_empty seg)) ps))
unfolding lexical lexical_step keep drop_dots elem
lexical-drop_dots at [] h = rw append-nil
lexical-drop_dots at (p ∷ ps) h = ground (
  arith,
  append_assoc at (p ∷ []) (drop_dots (keep (λ seg. not (is_empty seg)) ps)),
  lexical-drop_dots at ps,
  lexical-drop_dots (at ++ p ∷ []) ps,
  is_empty-nil p,
)

abbrev kept : List Text → List Text
kept ps = drop_dots (keep (λ seg. not (is_empty seg)) ps)

kept-skip :
    (p : Text) (ps : List Text) → (is_empty p || text_eq p dot) ≡ true → kept (p ∷ ps) ≡ kept ps
unfolding keep drop_dots
kept-skip p ps h = ground arith

kept-name :
    (p : Text) (ps : List Text)
    → (is_empty p || text_eq p dot) ≡ false
    → kept (p ∷ ps) ≡ p ∷ kept ps
unfolding keep drop_dots
kept-name p ps h = ground arith

-- What a round of the loop of validateLinkTarget accepts is a step of the reading.
walk_target-step :
    (at : List Text) (p : Text) (ps : List Text)
    → (is_empty p || text_eq p dot) ≡ false
    → walk_target at (p ∷ ps) ≡ ok tt
    → (to : List Text) × (lexical_step at p ≡ some to) × (walk_target to ps ≡ ok tt)
unfolding lexical_step walk_target
walk_target-step [] p ps n h = elim (Bool-cases (text_eq p dotdot)) [
  | inl up ↦ absurd (ground arith)
  | inr down ↦ (p ∷ [], ground arith, ground arith)
]
walk_target-step (q ∷ qs) p ps n h = elim (Bool-cases (text_eq p dotdot)) [
  | inl up ↦ (drop_last (q ∷ qs), ground arith, ground arith)
  | inr down ↦ ((q ∷ qs) ++ p ∷ [], ground arith, ground arith)
]

lexical_step-skip :
    (at : List Text) (p : Text) → (is_empty p || text_eq p dot) ≡ true → lexical_step at p ≡ some at
unfolding lexical_step
lexical_step-skip at p h = rw h

-- The loop of validateLinkTarget accepts only targets that stay below the root.
pub walk_target-lexical :
    (at ps : List Text)
    → walk_target at (kept ps) ≡ ok tt
    → (to : List Text) × (lexical at ps ≡ some to)
unfolding lexical
walk_target-lexical at [] h = (at, refl)
walk_target-lexical at (p ∷ ps) h = elim (Bool-cases (is_empty p || text_eq p dot)) [
  | inl skip ↦
      rw (lexical_step-skip at p skip, lexical)
        (walk_target-lexical at ps (rw (kept-skip p ps skip) at h))
  | inr name ↦
      let (to, s, rest) = walk_target-step at p (kept ps) name (rw (kept-name p ps name) at h) in
      let (end, l) = walk_target-lexical to ps rest in (end, rw (s, lexical) l)
]

-- The components that are kept are names, apart from "..".
kept-IsSegment : (ps : List Text) → All (Lacks slash) ps → All IsSegment (kept ps)
unfolding keep drop_dots
kept-IsSegment [] h = tt
kept-IsSegment (p ∷ ps) h = elim (Bool-cases (is_empty p)) [
  | inl e ↦ rw e (kept-IsSegment ps h.1)
  | inr e ↦ rw e (elim (Bool-cases (text_eq p dot)) [
    | inl d ↦ rw d (kept-IsSegment ps h.1)
    | inr d ↦ rw d (record { not_empty = e; no_slash = h.0; not_dot = d }, kept-IsSegment ps h.1)
  ])
]

join-cons_ne_empty :
    (p : Text) (ps : List Text) → is_empty p ≡ false → is_empty (join slashes (p ∷ ps)) ≡ false
unfolding is_empty join
join-cons_ne_empty [] [] h = h
join-cons_ne_empty [] (q ∷ ps) h = cc
join-cons_ne_empty (c ∷ p) [] h = refl
join-cons_ne_empty (c ∷ p) (q ∷ ps) h = refl

-- The segments of a key are those that were joined to it.
pub key_parts-join : (ps : List Text) → All IsSegment ps → key_parts (join slashes ps) ≡ ps
unfolding key_parts
key_parts-join [] h = unfold join is_empty in refl
key_parts-join (p ∷ ps) h = rw (join-cons_ne_empty p ps h.0.not_empty) (
    split-join slash (p ∷ ps) (λ e. cc)
      (All-map IsSegment (Lacks slash) (p ∷ ps) (λ a s. s.no_slash) h))

-- The path of a name or a target, without "." and empty elements.
pub parts_of : Text → List Text
parts_of p = kept (split slash p)

pub parts_of-IsSegment : (p : Text) → All IsSegment (parts_of p)
unfolding parts_of
parts_of-IsSegment p = kept-IsSegment (split slash p) (split-Lacks slash p)

pub lexical-parts_of :
    (p : Text)
    → elem dotdot (posix_parts_raw p) ≡ false
    → lexical [] (split slash p) ≡ some (parts_of p)
unfolding parts_of posix_parts_raw
lexical-parts_of p h = lexical-drop_dots [] (split slash p) h

pub drop_dots-parts_of : (p : Text) → drop_dots (posix_parts_raw p) ≡ parts_of p
unfolding parts_of posix_parts_raw
drop_dots-parts_of p = refl

pub walk_target-inside :
    (at : List Text) (p : Text)
    → walk_target at (drop_dots (posix_parts_raw p)) ≡ ok tt
    → (to : List Text) × (lexical at (split slash p) ≡ some to)
unfolding posix_parts_raw
walk_target-inside at p h = walk_target-lexical at (split slash p) h
