-- ===== src/Dict.antt =====
-- Go's maps with text keys, as association lists; a key that is written first is listed last. A
-- map[string]bool that is only ever set to true is a list of its keys.
use tx.Base.{
  ◌≡◌, refl, Bool, true, false, ◌||◌, Option, none, some, List, [], ◌∷◌, arith, if◌then◌else◌,
  Bool-cases, inl, inr, In, All,
}
use tx.Text.{Text, text_eq, text_eq_iff, text_eq→eq, text_eq_refl}

unfoldable pub elem : Text → List Text → Bool
elem k [] = false
elem k (j ∷ js) = text_eq j k || elem k js

pub elem→In : (k : Text) (js : List Text) → elem k js ≡ true → In k js
unfolding elem
elem→In k [] h = cc
elem→In k (j ∷ js) h = elim (Bool-cases (text_eq j k)) [
  | inl e ↦ inl (cc (text_eq→eq j k e))
  | inr e ↦ inr (elem→In k js (rw e at h))
]

pub In→elem : (k : Text) (js : List Text) → In k js → elem k js ≡ true
unfolding elem
In→elem k [] i = absurd i
In→elem k (j ∷ js) (inl e) = ground (arith, text_eq_iff j k)
In→elem k (j ∷ js) (inr i) = ground (arith, In→elem k js i)

abbrev pub Dict {ℓ} : Type ℓ → Type ℓ
Dict V = List (Text × V)

module _ {ℓ} {V : Type ℓ} where
  unfoldable pub lookup : Text → Dict V → Option V
  lookup k [] = none
  lookup k ((j, v) ∷ m) = let rest = lookup k m in if text_eq j k then some v else rest

  -- m[k] = v
  unfoldable pub insert : Text → V → Dict V → Dict V
  insert k v [] = (k, v) ∷ []
  insert k v ((j, w) ∷ m) =
      let rest = insert k v m in if text_eq j k then (j, v) ∷ m else (j, w) ∷ rest

  -- delete(m, k)
  unfoldable pub delete : Text → Dict V → Dict V
  delete k [] = []
  delete k ((j, v) ∷ m) = let rest = delete k m in if text_eq j k then rest else (j, v) ∷ rest

  pub lookup-insert :
      (k j : Text) (v : V) (m : Dict V)
      → lookup j (insert k v m) ≡ (if text_eq k j then some v else lookup j m)
  unfolding lookup insert
  lookup-insert k j v [] = refl
  lookup-insert k j v ((i, w) ∷ m) =
      ground (arith, text_eq_iff k j, text_eq_iff i k, text_eq_iff i j, lookup-insert k j v m)

  pub lookup-delete :
      (k j : Text) (m : Dict V) → lookup j (delete k m) ≡ (if text_eq k j then none else lookup j m)
  unfolding lookup delete
  lookup-delete k j [] = ground arith
  lookup-delete k j ((i, w) ∷ m) =
      ground (arith, text_eq_iff k j, text_eq_iff i k, text_eq_iff i j, lookup-delete k j m)

  pub lookup-insert_self : (k : Text) (v : V) (m : Dict V) → lookup k (insert k v m) ≡ some v
  lookup-insert_self k v m = simp (lookup-insert, text_eq_refl)

-- Each key is listed once, as in every Go map.
abbrev pub IsMap {ℓ} : {V : Type ℓ} → Dict V → Type ℓ
IsMap [] = Unit
IsMap ((k, v) ∷ m) = (lookup k m ≡ none) × IsMap m

-- for k := range m
abbrev pub keys {ℓ} : {V : Type ℓ} → Dict V → List Text
keys [] = []
keys ((k, v) ∷ m) = k ∷ keys m

-- A write keeps every key listed once.
pub IsMap-insert {ℓ} : {V : Type ℓ} (k : Text) (v : V) (m : Dict V) → IsMap m → IsMap (insert k v m)
unfolding insert lookup
IsMap-insert k v [] h = (refl, tt)
IsMap-insert k v ((j, w) ∷ m) h = elim (Bool-cases (text_eq j k)) [
  | inl same ↦ rw same h
  | inr other ↦ rw other (
    ground (arith, lookup-insert k j v m, text_eq_iff k j, text_eq_iff j k, h.0),
    IsMap-insert k v m h.1,
  )
]

pub All-insert {ℓ κ} :
    {V : Type ℓ} (P : Text × V → Type κ) (k : Text) (v : V) (m : Dict V)
    → ((j : Text) → text_eq j k ≡ true → P (k, v) → P (j, v))
    → P (k, v)
    → All P m
    → All P (insert k v m)
unfolding insert
All-insert P k v [] f p a = (p, tt)
All-insert P k v ((j, w) ∷ m) f p a = elim (Bool-cases (text_eq j k)) [
  | inl same ↦ rw same (f j same p, a.1)
  | inr other ↦ rw other (a.0, All-insert P k v m f p a.1)
]
