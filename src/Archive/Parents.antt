-- ===== src/Archive/Parents.antt =====
-- The third pass of ValidateDataTar with its cache of parents, against the same checks without one.
use tx.Base.{
  ◌≡◌, refl, ap, ◌∙◌, subst, not, some, List, [], ◌∷◌, arith, ok, err, ◌>>=◌, ◌>>◌, refuse_if,
  Result-cases, Option-cases, Bool-cases, inl, inr, if◌then◌else◌,
}
use tx.Dict.{Dict, lookup, insert, lookup-insert}
use tx.Text.{Text, is_empty, text_eq, text_eq→eq}
use tx.Archive.Resolve.{resolve}
use tx.Archive.Validate.{
  parent_of, parent_entry, check_parent, check_target, check_member, check_members,
}
use tx.Archive.{TarMember, MemberIndex, Checked, parent_not_directory}

-- The parent resolves to a directory; the root needs no entry.
unfoldable pub plain_parent : MemberIndex → Text → Checked (Unit {0})
plain_parent idx parent =
    if is_empty parent
    then ok tt
    else do entry ← resolve idx parent; refuse_if (not entry.is_dir) parent_not_directory

-- The checks of one member, each parent resolved anew.
unfoldable pub plain_member : MemberIndex → Text → Checked (Unit {0})
plain_member idx key =
    if is_empty key
    then ok tt
    else (plain_parent idx (parent_of key) >> check_target idx key (lookup key idx.by_name))

unfoldable pub plain_members : MemberIndex → List Text → Checked (Unit {0})
plain_members idx [] = ok tt
plain_members idx (key ∷ rest) = plain_member idx key >> plain_members idx rest

-- The cache holds what `resolve` returns.
abbrev pub IsCache : MemberIndex → Dict TarMember → Type 0
IsCache idx parents = (p : Text) (e : TarMember) → lookup p parents ≡ some e → resolve idx p ≡ ok e

-- A result with a cache, against one without.
abbrev Agrees : MemberIndex → Checked (Dict TarMember) → Checked (Unit {0}) → Type 0
Agrees idx (ok parents) plain = IsCache idx parents × (plain ≡ ok tt)
Agrees idx (err e) plain = plain ≡ err e

insert-IsCache :
    (idx : MemberIndex) (parents : Dict TarMember) (parent : Text) (entry : TarMember)
    → IsCache idx parents
    → resolve idx parent ≡ ok entry
    → IsCache idx (insert parent entry parents)
insert-IsCache idx parents parent entry c r p e f = elim (Bool-cases (text_eq parent p)) [
  | inl same ↦
      let e' : entry ≡ e = ground (arith, lookup-insert parent p entry parents) in
      subst (λ k. resolve idx k ≡ ok e) (text_eq→eq parent p same) (r ∙ ap ok e')
  | inr different ↦ c p e (ground (arith, lookup-insert parent p entry parents))
]

Agrees-dir :
    (idx : MemberIndex) (parents : Dict TarMember) (entry : TarMember)
    → IsCache idx parents
    → Agrees idx
        (do refuse_if (not entry.is_dir) parent_not_directory; ok parents)
        (refuse_if (not entry.is_dir) parent_not_directory)
Agrees-dir idx parents entry c = elim (Bool-cases entry.is_dir) [
  | inl d ↦ rw d (c, refl)
  | inr d ↦ rw d refl
]

check_parent-Agrees :
    (idx : MemberIndex) (parents : Dict TarMember) (parent : Text)
    → IsCache idx parents
    → Agrees idx (check_parent idx parents parent) (plain_parent idx parent)
unfolding check_parent plain_parent parent_entry
check_parent-Agrees idx parents parent c = elim (Bool-cases (is_empty parent)) [
  | inl root ↦ rw root (c, refl)
  | inr below ↦ rw below (elim (Option-cases (lookup parent parents)) [
    | inr (entry, cached) ↦
        rw (cached, parent_entry) (rw (c parent entry cached) (Agrees-dir idx parents entry c))
    | inl missing ↦
        rw (missing, parent_entry)
          (elim (Result-cases (resolve idx parent)) [
            | inl (entry, r) ↦ rw r (
                Agrees-dir idx (insert parent entry parents) entry
                  (insert-IsCache idx parents parent entry c r))
            | inr (e, r) ↦ rw r refl
          ])
  ])
]

Agrees-then :
    (idx : MemberIndex) (r : Checked (Dict TarMember)) (plain next : Checked (Unit {0}))
    → Agrees idx r plain
    → Agrees idx (do parents ← r; next; ok parents) (plain >> next)
Agrees-then idx (ok parents) plain (ok u) a = rw a.1 (a.0, refl)
Agrees-then idx (ok parents) plain (err e) a = rw a.1 refl
Agrees-then idx (err e) plain next a = rw a refl

check_member-Agrees :
    (idx : MemberIndex) (parents : Dict TarMember) (key : Text)
    → IsCache idx parents
    → Agrees idx (check_member idx parents key) (plain_member idx key)
unfolding check_member plain_member
check_member-Agrees idx parents key c = elim (Bool-cases (is_empty key)) [
  | inl root ↦ rw root (c, refl)
  | inr below ↦ rw below (
      Agrees-then idx _ _ (check_target idx key (lookup key idx.by_name))
        (check_parent-Agrees idx parents (parent_of key) c))
]

check_members-IsCache :
    (idx : MemberIndex) (parents : Dict TarMember) (keys : List Text)
    → IsCache idx parents
    → check_members idx parents keys ≡ plain_members idx keys
unfolding check_members plain_members
check_members-IsCache idx parents [] c = refl
check_members-IsCache idx parents (key ∷ rest) c =
    by_result (check_member idx parents key) (check_member-Agrees idx parents key c)
      (λ ps c'. check_members-IsCache idx ps rest c')
  where
    by_result :
        (r : Checked (Dict TarMember))
        → Agrees idx r (plain_member idx key)
        → ((ps : Dict TarMember)
            → IsCache idx ps
            → check_members idx ps rest ≡ plain_members idx rest)
        → (r >>= λ ps. check_members idx ps rest) ≡ (plain_member idx key >> plain_members idx rest)
    by_result (ok ps) a ih = rw a.1 (ih ps a.0)
    by_result (err e) a ih = rw a refl

-- The third pass reports, for every index and every list of keys, exactly what it would report if
-- it kept no cache and resolved the parent of every key anew.
pub check_members-plain :
    (idx : MemberIndex) (keys : List Text) → check_members idx [] keys ≡ plain_members idx keys
check_members-plain idx keys = check_members-IsCache idx [] keys (λ p e f. unfold lookup in (cc))
