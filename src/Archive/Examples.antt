-- ===== src/Archive/Examples.antt =====
-- Test runs of the validator.
use tx.Base.{
  ◌≢◌, All, inl, inr, map, length, ◌≤◌, ◌++◌, false, ◌≡◌, refl, true, List, [], ◌∷◌, ok, err,
}
use tx.Text.{Text, codes, text_eq, has_prefix}
use tx.Archive.Accepted.{Ends, headers}
use tx.Archive.Index.{key_of_header, Distinct, IsIndexOf}
use tx.Archive.Lexical.{parts_of}
use tx.Archive.Links.{IsLinked, accepted_links}
use tx.Archive.Parents.{plain_members, check_members-plain}
use tx.Archive.RealPath.{RealPath, NotLink, entry_at, resolve-RealPath}
use tx.Archive.Safety.{
  IsInside, HasDir, accepted-IsInside, accepted_nesting, accepted-Distinct, accepted_homes,
}
use tx.Archive.{
  MemberIndex, TarMember, Typeflag, reg, dir, symlink, Header, Checked, Entries, eof, next, Stream,
  link_escapes, nested_beneath_link, link_cycle,
}
use tx.Archive.Paths.{
  posix_parts_raw, drop_dots, safe_text, has_control, keep, validate_link_target, link_parts,
  walk_target, key_dir_parts,
}
use tx.Archive.Resolve.{candidate_of, resolve_state_key, resolve, resolve_step, resolve_loop}
use tx.Archive.Validate.{
  new_member, key_of, check_links, beneath_link, check_parent, parent_of, check_target,
  validate_data_tar, read_headers, add_members, add_member, check_index, check_nesting,
  check_required, check_members, check_member, parent_entry,
}
use tx.Dict.{elem, lookup, insert}
use tx.Text.Split.{split, join}

abbrev entry : Typeflag → Text → Text → Header
entry t n l = record { name = n; linkname = l; typeflag = t }

abbrev entries : List Header → Entries
entries [] = eof
entries (h ∷ hs) = next h (entries hs)

abbrev stream : List Header → Stream
stream hs = record { is_gzip = true; entries = entries hs; drains = true; closes = true }

abbrev base : List Header → List Header
base hs =
    entry dir (codes "./") []
    ∷ entry dir (codes "./home/") []
    ∷ entry dir (codes "./home/agent/") []
    ∷ hs

-- The validator with all that it calls open, for test runs.
run : List Header → Checked (Unit {0})
unfolding posix_parts_raw new_member key_of drop_dots check_links beneath_link check_parent
    parent_of check_target candidate_of resolve_state_key validate_data_tar read_headers add_members
    add_member safe_text has_control elem keep split text_eq has_prefix lookup insert
    validate_link_target link_parts walk_target key_dir_parts check_index resolve resolve_step
    check_nesting check_required check_members check_member parent_entry resolve_loop
run hs = validate_data_tar 100 (stream hs)

accepts_link :
    run (
      base (
        entry reg (codes "./home/agent/a") []
        ∷ entry symlink (codes "./home/agent/l") (codes "../agent/a")
        ∷ []))
    ≡ ok tt
unfolding run
accepts_link = refl

refuses_escape :
    run (base (entry symlink (codes "home/l") (codes "../../etc") ∷ [])) ≡ err link_escapes
unfolding run
refuses_escape = refl

refuses_nesting :
    run
      (base (entry symlink (codes "home/l") (codes "agent") ∷ entry reg (codes "home/l/x") [] ∷ []))
    ≡ err nested_beneath_link
unfolding run
refuses_nesting = refl

refuses_cycle :
    run (
      base (
        entry symlink (codes "home/a") (codes "b")
        ∷ entry symlink (codes "home/b") (codes "a")
        ∷ []))
    ≡ err link_cycle
unfolding run
refuses_cycle = refl

abbrev file_header : Header
file_header = entry reg (codes "./home/agent/a") []

abbrev link_header : Header
link_header = entry symlink (codes "./home/agent/l") (codes "../agent/a")

-- An archive with a file and a symlink to it.
abbrev linked : Stream
linked = stream (base (file_header ∷ link_header ∷ []))

linked_is_accepted : validate_data_tar 100 linked ≡ ok tt
unfolding run
linked_is_accepted = accepts_link

accepted-IsInside_example : All IsInside (headers linked)
accepted-IsInside_example = accepted-IsInside 100 linked linked_is_accepted

accepted_links_example :
    (idx : MemberIndex) × IsIndexOf idx (headers linked) × All (IsLinked idx) (headers linked)
accepted_links_example = accepted_links 100 linked linked_is_accepted

accepted_nesting_example : parts_of file_header.name ≢ parts_of link_header.name ++ codes "x" ∷ []
accepted_nesting_example =
    accepted_nesting 100 linked linked_is_accepted link_header file_header (codes "x") []
      (inr (inr (inr (inr (inl refl))))) (inr (inr (inr (inl refl)))) refl

accepted-Distinct_example :
    Ends linked.entries
    × (length (headers linked) ≤ 100)
    × (headers linked ≢ [])
    × Distinct (map key_of_header (headers linked))
accepted-Distinct_example = accepted-Distinct 100 linked linked_is_accepted

accepted_homes_example :
    HasDir (headers linked) (codes "home" ∷ [])
    × HasDir (headers linked) (codes "home" ∷ codes "agent" ∷ [])
accepted_homes_example = accepted_homes 100 linked linked_is_accepted

abbrev dir_member : Text → TarMember
dir_member n = record {
  name = n;
  is_dir = true;
  is_file = false;
  is_symlink = false;
  is_hardlink = false;
  linkname = [];
}

abbrev file_member : TarMember
file_member = record {
  name = codes "d/a";
  is_dir = false;
  is_file = true;
  is_symlink = false;
  is_hardlink = false;
  linkname = [];
}

abbrev link_member : TarMember
link_member = record {
  name = codes "l";
  is_dir = false;
  is_file = false;
  is_symlink = true;
  is_hardlink = false;
  linkname = codes "d/a";
}

abbrev small_index : MemberIndex
small_index = record {
  order = [] ∷ codes "d" ∷ codes "d/a" ∷ codes "l" ∷ [];
  by_name =
      ([], dir_member [])
      ∷ (codes "d", dir_member (codes "d"))
      ∷ (codes "d/a", file_member)
      ∷ (codes "l", link_member)
      ∷ [];
}

check_members-plain_example :
    check_members small_index [] (codes "l" ∷ codes "d/a" ∷ [])
    ≡ plain_members small_index (codes "l" ∷ codes "d/a" ∷ [])
check_members-plain_example = check_members-plain small_index (codes "l" ∷ codes "d/a" ∷ [])

small_root : NotLink (entry_at small_index [])
unfolding lookup text_eq join
small_root = refl

resolves_link : resolve small_index (codes "l") ≡ ok file_member
unfolding run
resolves_link = refl

resolve-RealPath_example : (ps : List Text) × RealPath small_index ps file_member
resolve-RealPath_example = resolve-RealPath small_index small_root (codes "l") resolves_link
