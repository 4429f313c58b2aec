-- ===== src/Archive/Targets.antt =====
-- The link targets that the first pass of ValidateDataTar lets through.
use tx.Base.{
  ◌≡◌, ap, ◌∙◌, subst, some, Bool, true, false, ◌||◌, List, [], arith, ok, Bool-cases, inl, inr,
  if◌then◌else◌,
}
use tx.Text.Split.{split}
use tx.Text.{Text, has_prefix, is_empty}
use tx.Archive.Lexical.{lexical, parts_of, walk_target-inside}
use tx.Archive.Members.{IsAdmitted, IsSafeText, has_control-IsSafeText, key_parts-key_of}
use tx.Archive.Paths.{
  slash, slashes, drop_last, link_parts, key_dir_parts, walk_target, validate_link_target,
  has_control, drop_dots, posix_parts_raw,
}
use tx.Archive.Resolve.{key_parts}
use tx.Archive.Validate.{key_of, new_member, check_links}
use tx.Archive.{Typeflag, reg, rega, dir, symlink, link, Header, TarMember, is_link}

abbrev pub flag_is_symlink : Typeflag → Bool
flag_is_symlink symlink = true
flag_is_symlink _ = false

abbrev pub flag_is_hardlink : Typeflag → Bool
flag_is_hardlink link = true
flag_is_hardlink _ = false

abbrev pub flag_is_dir : Typeflag → Bool
flag_is_dir dir = true
flag_is_dir _ = false

abbrev pub flag_is_file : Typeflag → Bool
flag_is_file reg = true
flag_is_file rega = true
flag_is_file _ = false

abbrev pub flag_is_link : Typeflag → Bool
flag_is_link t = flag_is_symlink t || flag_is_hardlink t

-- The entry of a header has its kind.
pub record IsEntryOf (hdr : Header) (m : TarMember) : Type 0 where
  pub symlink_is : m.is_symlink ≡ flag_is_symlink hdr.typeflag
  pub hardlink_is : m.is_hardlink ≡ flag_is_hardlink hdr.typeflag
  pub dir_is : m.is_dir ≡ flag_is_dir hdr.typeflag
  pub file_is : m.is_file ≡ flag_is_file hdr.typeflag
  pub linkname_is : m.linkname ≡ hdr.linkname

pub new_member-IsEntryOf :
    (hdr : Header) (key : Text) {m : TarMember} → new_member hdr key ≡ ok m → IsEntryOf hdr m
unfolding new_member
new_member-IsEntryOf hdr key e = ground arith

-- The directory in which a link's target is read: its own for a symlink, the root for a hardlink.
abbrev pub target_base : Header → List Text
target_base hdr = if flag_is_symlink hdr.typeflag then drop_last (parts_of hdr.name) else []

-- The target of the header is a relative path that does not leave the root, links not followed.
pub record IsTargetInside (hdr : Header) : Type 0 where
  pub safe : IsSafeText hdr.linkname
  pub relative : has_prefix hdr.linkname slashes ≡ false
  pub to : List Text
  pub lands : lexical (target_base hdr) (split slash hdr.linkname) ≡ some to

key_dir_parts-key_of : (name : Text) → key_dir_parts (key_of name) ≡ drop_last (parts_of name)
key_dir_parts-key_of name = by_key (key_of name) ∙ ap drop_last (key_parts-key_of name)
  where
    by_key : (key : Text) → key_dir_parts key ≡ drop_last (key_parts key)
    by_key key = elim (Bool-cases (is_empty key)) [
      | inl e ↦ unfold key_dir_parts key_parts drop_last in rw e
      | inr e ↦ unfold key_dir_parts key_parts in rw e
    ]

record IsWalked (base : List Text) (target : Text) : Type 0 where
  no_control : has_control target ≡ false
  relative : has_prefix target slashes ≡ false
  walked : walk_target base (drop_dots (posix_parts_raw target)) ≡ ok tt

check_links-IsWalked :
    (m : TarMember) (key : Text)
    → check_links m key ≡ ok tt
    → is_link m ≡ true
    → IsWalked (if m.is_symlink then key_dir_parts key else []) m.linkname
unfolding check_links validate_link_target link_parts
check_links-IsWalked m key h l = ground arith

pub IsAdmitted-IsTargetInside :
    (hdr : Header) → IsAdmitted hdr → flag_is_link hdr.typeflag ≡ true → IsTargetInside hdr
IsAdmitted-IsTargetInside hdr a l =
    let e = new_member-IsEntryOf hdr _ a.kind in
    let w = check_links-IsWalked a.member (key_of hdr.name) a.links (ground arith) in
    let base : (if a.member.is_symlink then key_dir_parts (key_of hdr.name) else [])
        ≡ target_base hdr =
      ground (arith, key_dir_parts-key_of hdr.name) in
    let w' =
      subst (λ n. IsWalked (target_base hdr) n) e.linkname_is
        (subst (λ b. IsWalked b a.member.linkname) base w) in
    let (to, lands) = walk_target-inside (target_base hdr) hdr.linkname w'.walked in
    record {
      safe = has_control-IsSafeText hdr.linkname w'.no_control;
      relative = w'.relative;
      to = to;
      lands = lands;
    }
