-- ===== src/Archive/Nesting.antt =====
-- The second pass of ValidateDataTar, and the check of the two home directories.
use tx.Base.{
  ◌≡◌, refl, Bool, true, false, some, List, [], ◌∷◌, ◌++◌, append_assoc, arith, ok, ◌>>◌, refuse_if,
  inl, inr, All, In, Option-cases,
}
use tx.Dict.{lookup}
use tx.Text.Split.{join}
use tx.Text.{Text}
use tx.Archive.Paths.{slashes}
use tx.Archive.Resolve.{key_parts}
use tx.Archive.Validate.{link_entry, beneath_link, check_nesting, check_required}
use tx.Archive.{TarMember, MemberIndex, nested_beneath_link}

beneath_link-false :
    (idx : MemberIndex) (before : List Text) (p : Text) (pre : List Text) (q : Text)
    (rest : List Text)
    → beneath_link idx before (p ∷ (pre ++ q ∷ rest)) ≡ false
    → link_entry (lookup (join slashes (before ++ (p ∷ pre))) idx.by_name) ≡ false
unfolding beneath_link
beneath_link-false idx before p [] q rest h = ground arith
beneath_link-false idx before p (r ∷ pre) q rest h =
    rw (append_assoc before (p ∷ []) (r ∷ pre)) at
      (beneath_link-false idx (before ++ p ∷ []) r pre q rest (ground arith))

-- Behind the second pass no key continues the path of a link.
pub check_nesting-beneath :
    (idx : MemberIndex) (keys : List Text) (key p : Text) (pre : List Text) (q : Text)
    (rest : List Text)
    → check_nesting idx keys ≡ ok tt
    → In key keys
    → key_parts key ≡ p ∷ (pre ++ q ∷ rest)
    → link_entry (lookup (join slashes (p ∷ pre)) idx.by_name) ≡ false
unfolding check_nesting
check_nesting-beneath idx [] key p pre q rest h i e = absurd i
check_nesting-beneath idx (k ∷ keys) key p pre q rest h (inl same) e =
    beneath_link-false idx [] p pre q rest
      (rw e at (rw (← same) at (passed (beneath_link idx [] (key_parts k)) h)))
  where
    passed :
        (b : Bool) → (refuse_if b nested_beneath_link >> check_nesting idx keys) ≡ ok tt → b ≡ false
    passed true h' = cc
    passed false h' = refl
check_nesting-beneath idx (k ∷ keys) key p pre q rest h (inr i) e =
    check_nesting-beneath idx keys key p pre q rest (ground arith) i e

-- What is required is a directory of the archive.
pub check_required-dir :
    (idx : MemberIndex) (required : List Text)
    → check_required idx required ≡ ok tt
    → All (λ k. (m : TarMember) × (lookup k idx.by_name ≡ some m) × (m.is_dir ≡ true)) required
unfolding check_required
check_required-dir idx [] h = tt
check_required-dir idx (k ∷ rest) h = elim (Option-cases (lookup k idx.by_name)) [
  | inl n ↦ absurd (ground arith)
  | inr (m, e) ↦ ((m, e, ground arith), check_required-dir idx rest (ground arith))
]
