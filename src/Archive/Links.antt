-- ===== src/Archive/Links.antt =====
-- Where the links and the parents of an accepted archive lead.
use tx.Base.{
  ℕ, ◌≡◌, refl, sym, ◌∙◌, true, false, List, [], ◌∷◌, map, arith, ok, err, ◌>>◌, ◌⊎◌, Result-cases,
  Bool-cases, inl, inr, All,
}
use tx.Dict.{lookup}
use tx.Text.{Text, is_empty}
use tx.Archive.Accepted.{headers, accepted-Passed}
use tx.Archive.Index.{key_of_header, IsIndexOf, IsIndexed}
use tx.Archive.Parents.{plain_parent, plain_member, plain_members, check_members-plain}
use tx.Archive.RealPath.{NotLink, RealPath, resolve-RealPath}
use tx.Archive.Paths.{slashes}
use tx.Archive.Resolve.{resolve}
use tx.Text.Split.{join}
use tx.Archive.Targets.{flag_is_link, flag_is_hardlink, new_member-IsEntryOf}
use tx.Archive.Validate.{key_of, parent_of, check_target, validate_data_tar}
use tx.Archive.{Checked, Header, Stream, TarMember, MemberIndex, is_link}

-- `path` resolves to `m`, which no link hides: it lies in real directories.
pub record LeadsTo (idx : MemberIndex) (path : Text) (m : TarMember) : Type 0 where
  pub resolves : resolve idx path ≡ ok m
  pub real : List Text
  pub is_real : RealPath idx real m

-- The parent of the key is the root, or leads to a directory.
abbrev pub HasParent : MemberIndex → Text → Type 0
HasParent idx key =
    (is_empty (parent_of key) ≡ true)
    ⊎ ((m : TarMember) × LeadsTo idx (parent_of key) m × (m.is_dir ≡ true))

-- The link leads to a member, to a regular file if it is a hardlink.
pub record HasTarget (idx : MemberIndex) (hdr : Header) : Type 0 where
  pub target : TarMember
  pub leads : LeadsTo idx (key_of hdr.name) target
  pub file : flag_is_hardlink hdr.typeflag ≡ true → target.is_file ≡ true

pub record IsLinked (idx : MemberIndex) (hdr : Header) : Type 0 where
  pub parent : is_empty (key_of hdr.name) ≡ false → HasParent idx (key_of hdr.name)
  pub target :
      is_empty (key_of hdr.name) ≡ false → flag_is_link hdr.typeflag ≡ true → HasTarget idx hdr

then-eq-ok : (m n : Checked (Unit {0})) → (m >> n) ≡ ok tt → (m ≡ ok tt) × (n ≡ ok tt)
then-eq-ok (ok u) n h = (refl, h)
then-eq-ok (err e) n h = cc

module _ (idx : MemberIndex) (root : NotLink (lookup [] idx.by_name)) where
  resolve-LeadsTo : (path : Text) {m : TarMember} → resolve idx path ≡ ok m → LeadsTo idx path m
  resolve-LeadsTo path e =
      let (real, is_real) = resolve-RealPath idx (rw_root) path e in
      record { resolves = e; real = real; is_real = is_real }
    where
      rw_root : NotLink (lookup (join slashes []) idx.by_name)
      rw_root = unfold join in root

  plain_parent-HasParent :
      (key : Text) → plain_parent idx (parent_of key) ≡ ok tt → HasParent idx key
  unfolding plain_parent
  plain_parent-HasParent key h = elim (Bool-cases (is_empty (parent_of key))) [
    | inl e ↦ inl e
    | inr below ↦ elim (Result-cases (resolve idx (parent_of key))) [
      | inl (m, r) ↦ inr (m, resolve-LeadsTo (parent_of key) r, ground arith)
      | inr (f, r) ↦ absurd (ground arith)
    ]
  ]

  check_target-HasTarget :
      (hdr : Header)
      → IsIndexed idx hdr
      → check_target idx (key_of hdr.name) (lookup (key_of hdr.name) idx.by_name) ≡ ok tt
      → flag_is_link hdr.typeflag ≡ true
      → HasTarget idx hdr
  unfolding check_target
  check_target-HasTarget hdr i h l =
      let entry = new_member-IsEntryOf hdr _ i.made in
      let is_linked : is_link i.entry ≡ true = ground arith in
      elim (Result-cases (resolve idx (key_of hdr.name))) [
        | inl (m, r) ↦ record {
          target = m;
          leads = resolve-LeadsTo (key_of hdr.name) r;
          file = λ hard. ground (arith, i.found);
        }
        | inr (f, r) ↦ absurd (ground (arith, i.found))
      ]

  plain_member-IsLinked :
      (hdr : Header)
      → IsIndexed idx hdr
      → plain_member idx (key_of hdr.name) ≡ ok tt
      → IsLinked idx hdr
  unfolding plain_member
  plain_member-IsLinked hdr i h = record {
    parent = λ below. plain_parent-HasParent (key_of hdr.name) (parts below).0;
    target = λ below l. check_target-HasTarget hdr i (parts below).1 l;
  }
    where
      parts :
          is_empty (key_of hdr.name) ≡ false
          → (plain_parent idx (parent_of (key_of hdr.name)) ≡ ok tt)
            × (check_target idx (key_of hdr.name) (lookup (key_of hdr.name) idx.by_name) ≡ ok tt)
      parts below = then-eq-ok _ _ (rw below at h)

  plain_members-IsLinked :
      (hdrs : List Header)
      → All (IsIndexed idx) hdrs
      → plain_members idx (map key_of_header hdrs) ≡ ok tt
      → All (IsLinked idx) hdrs
  unfolding plain_members
  plain_members-IsLinked [] i h = tt
  plain_members-IsLinked (hdr ∷ hdrs) i h =
      let (here, rest) =
        then-eq-ok (plain_member idx (key_of hdr.name)) (plain_members idx (map key_of_header hdrs))
          h in
      (plain_member-IsLinked hdr i.0 here, plain_members-IsLinked hdrs i.1 rest)

-- In an accepted archive the parent of every member but the root is the root or resolves, links
-- followed, to a directory; every link resolves, a hardlink to a regular file; and what they
-- resolve to is no link and is indexed below directories of the archive only.
pub accepted_links :
    (limit : ℕ) (s : Stream)
    → validate_data_tar limit s ≡ ok tt
    → (idx : MemberIndex) × IsIndexOf idx (headers s) × All (IsLinked idx) (headers s)
accepted_links limit s accepted =
    let p = accepted-Passed limit s accepted in
    (
      p.idx,
      p.indexed,
      plain_members-IsLinked p.idx p.indexed.root_no_link (headers s) p.indexed.indexed
          (rw p.indexed.order_is at (sym (check_members-plain p.idx p.idx.order) ∙ p.members)),
    )
