-- ===== src/Text/Split.antt =====
-- strings.Split, strings.Join and strings.Cut on a separator of one character, and how they undo
-- one another.
use tx.Base.{
  ℕ, ◌≡◌, ◌≢◌, refl, ap, false, List, [], ◌∷◌, ◌++◌, Option, none, some, arith, ◌==◌, if◌then◌else◌,
  All,
}
use tx.Text.{Text, contains}

abbrev cons_head : ℕ → List Text → List Text
cons_head c [] = (c ∷ []) ∷ []
cons_head c (p ∷ ps) = (c ∷ p) ∷ ps

unfoldable pub split : ℕ → Text → List Text
split sep [] = [] ∷ []
split sep (c ∷ s) = let rest = split sep s in if c == sep then [] ∷ rest else cons_head c rest

unfoldable pub join : Text → List Text → Text
join sep [] = []
join sep (p ∷ []) = p
join sep (p ∷ q ∷ ps) = p ++ (sep ++ join sep (q ∷ ps))

unfoldable pub cut : ℕ → Text → Option (Text × Text)
cut sep [] = none
cut sep (c ∷ s) =
    let rest = cut sep s in
    if c == sep then some ([], s) else (elim rest [ none ↦ none | some (a, b) ↦ some (c ∷ a, b) ])

-- The text holds no separator.
abbrev pub Lacks : ℕ → Text → Type 0
Lacks sep p = contains sep p ≡ false

Lacks-head : (sep c : ℕ) (p : Text) → Lacks sep (c ∷ p) → (c == sep) ≡ false
unfolding contains
Lacks-head sep c p h = ground arith

Lacks-tail : (sep c : ℕ) (p : Text) → Lacks sep (c ∷ p) → Lacks sep p
unfolding contains
Lacks-tail sep c p h = ground arith

pub split-ne-nil : (sep : ℕ) (s : Text) → split sep s ≢ []
unfolding split
split-ne-nil sep [] h = cc
split-ne-nil sep (c ∷ s) h = ground (arith, split-ne-nil sep s)

-- Splitting gives parts that hold no separator.
pub split-Lacks : (sep : ℕ) (s : Text) → All (Lacks sep) (split sep s)
unfolding split contains
split-Lacks sep [] = (refl, tt)
split-Lacks sep (c ∷ s) = ground (arith, split-Lacks sep s)

pub split-append :
    (sep : ℕ) (p s : Text) → Lacks sep p → split sep (p ++ (sep ∷ s)) ≡ p ∷ split sep s
unfolding split
split-append sep [] s h = ground arith
split-append sep (c ∷ p) s h =
    ground (arith, split-append sep p s (Lacks-tail sep c p h), Lacks-head sep c p h)

pub split_single : (sep : ℕ) (p : Text) → Lacks sep p → split sep p ≡ p ∷ []
unfolding split
split_single sep [] h = refl
split_single sep (c ∷ p) h =
    ground (arith, split_single sep p (Lacks-tail sep c p h), Lacks-head sep c p h)

pub split-join :
    (sep : ℕ) (ps : List Text) → ps ≢ [] → All (Lacks sep) ps → split sep (join (sep ∷ []) ps) ≡ ps
unfolding join
split-join sep [] ne h = absurd (ne refl)
split-join sep (p ∷ []) ne h = split_single sep p h.0
split-join sep (p ∷ q ∷ ps) ne h =
    rw (split-append sep p (join (sep ∷ []) (q ∷ ps)) h.0)
      (ap (◌∷◌ p) (split-join sep (q ∷ ps) (λ e. cc) h.1))

join-cons_head :
    (sep c : ℕ) (ps : List Text)
    → ps ≢ []
    → join (sep ∷ []) (cons_head c ps) ≡ c ∷ join (sep ∷ []) ps
unfolding join
join-cons_head sep c [] ne = absurd (ne refl)
join-cons_head sep c (p ∷ []) ne = refl
join-cons_head sep c (p ∷ q ∷ ps) ne = refl

join-nil_cons :
    (sep : ℕ) (ps : List Text) → ps ≢ [] → join (sep ∷ []) ([] ∷ ps) ≡ sep ∷ join (sep ∷ []) ps
unfolding join
join-nil_cons sep [] ne = absurd (ne refl)
join-nil_cons sep (p ∷ ps) ne = refl

pub join-split : (sep : ℕ) (s : Text) → join (sep ∷ []) (split sep s) ≡ s
unfolding split
join-split sep [] = unfold join in refl
join-split sep (c ∷ s) = ground (
  arith,
  join-split sep s,
  split-ne-nil sep s,
  join-cons_head sep c (split sep s),
  join-nil_cons sep (split sep s),
)

-- The first separator is the one behind the part that lacks it.
pub cut-append : (sep : ℕ) (k v : Text) → Lacks sep k → cut sep (k ++ (sep ∷ v)) ≡ some (k, v)
unfolding cut
cut-append sep [] v h = ground arith
cut-append sep (c ∷ k) v h =
    ground (arith, cut-append sep k v (Lacks-tail sep c k h), Lacks-head sep c k h)
