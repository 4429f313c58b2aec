-- ===== src/Archive/Validate.antt =====
-- ValidateDataTar of validator.go, pass by pass.
use tx.Base.{
  ℕ, ◌+◌, Bool, true, false, not, ◌&&◌, ◌||◌, Option, none, some, List, [], ◌∷◌, ◌++◌, ltb,
  if◌then◌else◌, ok, err, ◌>>=◌, ◌>>◌, refuse_if,
}
use tx.Dict.{Dict, elem, lookup, insert}
use tx.Text.Split.{split, join}
use tx.Text.{Text, is_empty, has_prefix, codes}
use tx.Archive.{
  Typeflag, reg, rega, dir, symlink, link, other, Header, Entries, eof, corrupt, next, Stream,
  TarMember, is_link, MemberIndex, empty_index, not_gzip, corrupt_archive, too_many_members,
  empty_archive, escapes_root, duplicate_path, special_file, root_not_directory,
  nested_beneath_link, required_directory, parent_not_directory, hardlink_not_file, Checked,
}
use tx.Archive.Paths.{
  slash, slashes, dotdot, safe_text, posix_parts_raw, drop_dots, drop_last, validate_link_target,
}
use tx.Archive.Resolve.{key_parts, resolve}

-- `maxArchiveMembers`, which tests lower.
abbrev pub max_archive_members : ℕ
max_archive_members = 1000000

-- The loop over tr.Next(); `count` is len(headers).
unfoldable pub read_headers : ℕ → ℕ → Entries → Checked (List Header)
read_headers limit count eof = ok []
read_headers limit count corrupt = err corrupt_archive
read_headers limit count (next hdr rest) =
    let headers = read_headers limit (count + 1) rest in
    if ltb limit (count + 1) then err too_many_members else (do hs ← headers; ok (hdr ∷ hs))

-- The key under which a member is indexed.
unfoldable pub key_of : Text → Text
key_of name = join slashes (drop_dots (posix_parts_raw name))

unfoldable pub new_member : Header → Text → Checked TarMember
new_member hdr key = of_kind hdr.typeflag
  where
    plain : TarMember
    plain = record {
      name = key;
      is_dir = false;
      is_file = false;
      is_symlink = false;
      is_hardlink = false;
      linkname = hdr.linkname;
    }

    of_kind : Typeflag → Checked TarMember
    of_kind reg = ok (record plain { is_file = true })
    of_kind rega = ok (record plain { is_file = true })
    of_kind dir = ok (record plain { is_dir = true })
    of_kind symlink = ok (record plain { is_symlink = true })
    of_kind link = ok (record plain { is_hardlink = true })
    of_kind (other _) = err special_file

abbrev pub is_known : Option TarMember → Bool
is_known none = false
is_known (some _) = true

unfoldable pub check_links : TarMember → Text → Checked (Unit {0})
check_links m key = if is_link m then validate_link_target m key else ok tt

-- One round of the first pass.
unfoldable pub add_member : MemberIndex → Header → Checked MemberIndex
add_member idx hdr = do
  safe_text hdr.name
  let raw_parts = posix_parts_raw hdr.name
  refuse_if (elem dotdot raw_parts) escapes_root
  refuse_if (has_prefix hdr.name slashes) escapes_root
  let key = key_of hdr.name
  refuse_if (is_known (lookup key idx.by_name)) duplicate_path
  m ← new_member hdr key
  refuse_if (is_empty key && not m.is_dir) root_not_directory
  check_links m key
  ok (record { order = idx.order ++ key ∷ []; by_name = insert key m idx.by_name })

unfoldable pub add_members : MemberIndex → List Header → Checked MemberIndex
add_members idx [] = ok idx
add_members idx (hdr ∷ hdrs) = do idx' ← add_member idx hdr; add_members idx' hdrs

abbrev pub link_entry : Option TarMember → Bool
link_entry none = false
link_entry (some m) = is_link m

-- Whether a proper prefix `parts[:length]` with 1 <= length names a link; `before` is the prefix
-- that was looked at last.
unfoldable pub beneath_link : MemberIndex → List Text → List Text → Bool
beneath_link idx before [] = false
beneath_link idx before (p ∷ []) = false
beneath_link idx before (p ∷ q ∷ ps) =
    let here = before ++ p ∷ [] in
    link_entry (lookup (join slashes here) idx.by_name) || beneath_link idx here (q ∷ ps)

-- The second pass.
unfoldable pub check_nesting : MemberIndex → List Text → Checked (Unit {0})
check_nesting idx [] = ok tt
check_nesting idx (key ∷ rest) =
    refuse_if (beneath_link idx [] (key_parts key)) nested_beneath_link >> check_nesting idx rest

abbrev pub is_real_dir : Option TarMember → Bool
is_real_dir none = false
is_real_dir (some entry) = entry.is_dir && not entry.is_symlink && not entry.is_hardlink

unfoldable pub check_required : MemberIndex → List Text → Checked (Unit {0})
check_required idx [] = ok tt
check_required idx (required ∷ rest) =
    refuse_if (not (is_real_dir (lookup required idx.by_name))) (required_directory required)
    >> check_required idx rest

-- key[:strings.LastIndex(key, "/")], or "" without a slash
unfoldable pub parent_of : Text → Text
parent_of key = join slashes (drop_last (split slash key))

-- The entry of a parent, from the cache `parents` or by `resolve`, and the new cache.
unfoldable pub parent_entry :
    MemberIndex → Dict TarMember → Text → Checked (TarMember × Dict TarMember)
parent_entry idx parents parent = elim (lookup parent parents) [
  | some entry ↦ ok (entry, parents)
  | none ↦ do entry ← resolve idx parent; ok (entry, insert parent entry parents)
]

unfoldable pub check_parent : MemberIndex → Dict TarMember → Text → Checked (Dict TarMember)
check_parent idx parents parent = if is_empty parent then ok parents else do
  (entry, parents') ← parent_entry idx parents parent
  refuse_if (not entry.is_dir) parent_not_directory
  ok parents'

unfoldable pub check_target : MemberIndex → Text → Option TarMember → Checked (Unit {0})
check_target idx key none = ok tt
check_target idx key (some member) =
    if is_link member
    then (do
      target ← resolve idx key
      refuse_if (member.is_hardlink && not target.is_file) hardlink_not_file)
    else ok tt

-- One round of the third pass.
unfoldable pub check_member : MemberIndex → Dict TarMember → Text → Checked (Dict TarMember)
check_member idx parents key = if is_empty key then ok parents else do
  parents' ← check_parent idx parents (parent_of key)
  check_target idx key (lookup key idx.by_name)
  ok parents'

unfoldable pub check_members : MemberIndex → Dict TarMember → List Text → Checked (Unit {0})
check_members idx parents [] = ok tt
check_members idx parents (key ∷ rest) = do
  parents' ← check_member idx parents key
  check_members idx parents' rest

abbrev pub home : Text
home = codes "home"

abbrev pub home_agent : Text
home_agent = codes "home/agent"

-- The passes over the complete index.
unfoldable pub check_index : MemberIndex → Checked (Unit {0})
check_index idx = do
  check_nesting idx idx.order
  check_required idx (home ∷ home_agent ∷ [])
  check_members idx [] idx.order

abbrev pub no_headers : List Header → Bool
no_headers [] = true
no_headers (_ ∷ _) = false

unfoldable pub validate_data_tar : ℕ → Stream → Checked (Unit {0})
validate_data_tar limit s = do
  refuse_if (not s.is_gzip) not_gzip
  headers ← read_headers limit 0 s.entries
  refuse_if (not s.drains) corrupt_archive
  refuse_if (not s.closes) corrupt_archive
  refuse_if (no_headers headers) empty_archive
  idx ← add_members empty_index headers
  check_index idx
