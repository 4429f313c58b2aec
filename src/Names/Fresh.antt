-- ===== src/Names/Fresh.antt =====
-- What Generate returns is not taken, and it returns a name while one is free.
use tx.Base.{
  ℕ, zero, suc, ◌+◌, ◌*◌, ◌≡◌, ◌∙◌, subst, true, false, not, Option, none, some, List, [], ◌∷◌,
  arith, ok, ◌⊎◌, ◌≢◌, inl, inr, Bool-cases, Option-cases, In, if◌then◌else◌,
}
use tx.Dict.{elem}
use tx.Names.{
  adjectives, animals, Rand, random_name, hyphenate, four_digits, random_attempts, scan_animals,
  scan_product, suffix_attempts, generate_within, generate, max_attempts,
}
use tx.Text.{Text}

-- One attempt: a free name is returned.
attempt-free :
    (taken : List Text) (n : Text) (rest : Option Text) {name : Text}
    → (rest ≡ some name → elem name taken ≡ false)
    → (if not (elem n taken) then some n else rest) ≡ some name
    → elem name taken ≡ false
attempt-free taken n rest {name} ih e = elim (Bool-cases (elem n taken)) [
  | inl busy ↦ ih (rw busy at e)
  | inr free ↦
      let same : n ≡ name = cc (rw free at e) in subst (λ t. elem t taken ≡ false) same free
]

random_attempts-free :
    (r : Rand) (taken : List Text) (left call : ℕ) {name : Text}
    → random_attempts r taken left call ≡ some name
    → elem name taken ≡ false
unfolding random_attempts
random_attempts-free r taken zero call e = cc
random_attempts-free r taken (suc left) call e =
    attempt-free taken (random_name r call) (random_attempts r taken left (call + 2))
      (random_attempts-free r taken left (call + 2)) e

suffix_attempts-free :
    (r : Rand) (taken : List Text) (left call : ℕ) {name : Text}
    → suffix_attempts r taken left call ≡ some name
    → elem name taken ≡ false
unfolding suffix_attempts
suffix_attempts-free r taken zero call e = cc
suffix_attempts-free r taken (suc left) call e =
    attempt-free taken (hyphenate (random_name r call) (four_digits (r.int_n (call + 2) 10000)))
      (suffix_attempts r taken left (call + 3)) (suffix_attempts-free r taken left (call + 3)) e

scan_animals-free :
    (taken : List Text) (adj : Text) (ans : List Text) {name : Text}
    → scan_animals taken adj ans ≡ some name
    → elem name taken ≡ false
unfolding scan_animals
scan_animals-free taken adj [] e = cc
scan_animals-free taken adj (an ∷ ans) e =
    attempt-free taken (hyphenate adj an) (scan_animals taken adj ans)
      (scan_animals-free taken adj ans) e

scan_product-free :
    (taken adjs ans : List Text) {name : Text}
    → scan_product taken adjs ans ≡ some name
    → elem name taken ≡ false
unfolding scan_product
scan_product-free taken [] ans e = cc
scan_product-free taken (adj ∷ adjs) ans e = elim (Option-cases (scan_animals taken adj ans)) [
  | inl none_here ↦ scan_product-free taken adjs ans (rw none_here at e)
  | inr (n, found) ↦ scan_animals-free taken adj ans (found ∙ (rw found at e))
]

scan_animals-none :
    (taken : List Text) (adj : Text) (ans : List Text) (an : Text)
    → scan_animals taken adj ans ≡ none
    → In an ans
    → elem (hyphenate adj an) taken ≡ true
unfolding scan_animals
scan_animals-none taken adj [] an e i = absurd i
scan_animals-none taken adj (x ∷ ans) an e (inl same) =
    elim (Bool-cases (elem (hyphenate adj x) taken)) [
      | inl busy ↦ rw same busy
      | inr free ↦ absurd (cc (rw free at e))
    ]
scan_animals-none taken adj (x ∷ ans) an e (inr i) =
    elim (Bool-cases (elem (hyphenate adj x) taken)) [
      | inl busy ↦ scan_animals-none taken adj ans an (rw busy at e) i
      | inr free ↦ absurd (cc (rw free at e))
    ]

scan_product-none :
    (taken adjs ans : List Text) (adj an : Text)
    → scan_product taken adjs ans ≡ none
    → In adj adjs
    → In an ans
    → elem (hyphenate adj an) taken ≡ true
unfolding scan_product
scan_product-none taken [] ans adj an e i j = absurd i
scan_product-none taken (x ∷ adjs) ans adj an e i j =
    elim (Option-cases (scan_animals taken x ans)) [
      | inr (n, found) ↦ absurd (cc (rw found at e))
      | inl none_here ↦ elim i [
        | inl same ↦ rw same (scan_animals-none taken x ans an none_here j)
        | inr i' ↦ scan_product-none taken adjs ans adj an (rw none_here at e) i' j
      ]
    ]

-- Which loop a name comes from.
pub generate_within-origin :
    (n : ℕ) (r : Rand) (taken : List Text) {name : Text}
    → generate_within n r taken ≡ ok name
    → (random_attempts r taken n 0 ≡ some name)
      ⊎ ((scan_product taken adjectives animals ≡ some name)
          ⊎ (suffix_attempts r taken 100 (2 * n) ≡ some name))
unfolding generate_within
generate_within-origin n r taken e = ground arith

-- A name that Generate returns is not among the names that are taken.
pub generate-free :
    (r : Rand) (taken : List Text) {name : Text}
    → generate r taken ≡ ok name
    → elem name taken ≡ false
unfolding generate
generate-free r taken e = elim (generate_within-origin max_attempts r taken e) [
  | inl first ↦ random_attempts-free r taken max_attempts 0 first
  | inr (inl second) ↦ scan_product-free taken adjectives animals second
  | inr (inr third) ↦ suffix_attempts-free r taken 100 (2 * max_attempts) third
]

generate_within-total :
    (n : ℕ) (r : Rand) (taken : List Text)
    → scan_product taken adjectives animals ≢ none
    → (name : Text) × (generate_within n r taken ≡ ok name)
unfolding generate_within
generate_within-total n r taken free = elim (Option-cases (random_attempts r taken n 0)) [
  | inr (name, e) ↦ (name, ground arith)
  | inl e ↦ elim (Option-cases (scan_product taken adjectives animals)) [
    | inr (name, e') ↦ (name, ground arith)
    | inl e' ↦ absurd (free e')
  ]
]

-- While some adjective and animal make a name that is not taken, Generate returns a name, whatever
-- the random numbers are.
pub generate-total :
    (r : Rand) (taken : List Text) (adj an : Text)
    → In adj adjectives
    → In an animals
    → elem (hyphenate adj an) taken ≡ false
    → (name : Text) × (generate r taken ≡ ok name)
unfolding generate
generate-total r taken adj an i j free =
    generate_within-total max_attempts r taken
      (λ e. cc (scan_product-none taken adjectives animals adj an e i j, free))
