-- ===== src/Archive/Safety.antt =====
-- What every archive is that ValidateDataTar accepts.
use tx.Base.{
  ℕ, ◌≤◌, ◌≡◌, ◌≢◌, refl, sym, ap, ◌∙◌, Bool, true, false, not, ◌&&◌, some, List, [], ◌∷◌, ◌++◌,
  map, arith, ok, inl, inr, All, All-map, All-In, In, length,
}
use tx.Dict.{lookup}
use tx.Text.Split.{split, join}
use tx.Text.{Text, has_prefix, is_empty, codes}
use tx.Archive.Accepted.{headers, Ends, Passed, accepted-Passed}
use tx.Archive.Index.{key_of_header, Distinct, IsIndexed, Origin}
use tx.Archive.Lexical.{lexical, parts_of, lexical-parts_of}
use tx.Archive.Members.{
  IsAdmitted, IsSafeText, has_control-IsSafeText, key_parts-key_of, key_of-join,
}
use tx.Archive.Nesting.{check_nesting-beneath, check_required-dir}
use tx.Archive.Paths.{slash, slashes}
use tx.Archive.Resolve.{key_parts}
use tx.Archive.Targets.{
  flag_is_link, flag_is_dir, IsTargetInside, IsAdmitted-IsTargetInside, new_member-IsEntryOf,
}
use tx.Archive.Validate.{
  new_member, no_headers, key_of, link_entry, validate_data_tar, home, home_agent,
}
use tx.Archive.{Typeflag, dir, other, Header, Stream, TarMember, MemberIndex}

-- The member is of a known kind and is extracted below the root; if it is a link, it points below
-- the root, links not followed.
pub record IsInside (hdr : Header) : Type 0 where
  pub safe : IsSafeText hdr.name
  pub relative : has_prefix hdr.name slashes ≡ false
  pub lands : lexical [] (split slash hdr.name) ≡ some (parts_of hdr.name)
  pub known : (k : ℕ) → hdr.typeflag ≢ other k
  pub target : flag_is_link hdr.typeflag ≡ true → IsTargetInside hdr

IsAdmitted-known : (hdr : Header) → IsAdmitted hdr → (k : ℕ) → hdr.typeflag ≢ other k
unfolding new_member
IsAdmitted-known hdr a k e = ground (arith, a.kind)

IsAdmitted-IsInside : (hdr : Header) → IsAdmitted hdr → IsInside hdr
IsAdmitted-IsInside hdr a = record {
  safe = has_control-IsSafeText hdr.name a.safe;
  relative = a.relative;
  lands = lexical-parts_of hdr.name a.no_dotdot;
  known = IsAdmitted-known hdr a;
  target = IsAdmitted-IsTargetInside hdr a;
}

module _ (limit : ℕ) (s : Stream) (accepted : validate_data_tar limit s ≡ ok tt) where
  -- In an accepted archive every member has a relative name without control characters, which
  -- leads below the extraction root; it is a file, a directory, a symlink or a hardlink; and the
  -- target of each link is a relative path without control characters that, read from the link's
  -- directory for a symlink and from the root for a hardlink, never leaves the root.
  pub accepted-IsInside : All IsInside (headers s)
  accepted-IsInside =
      All-map IsAdmitted IsInside (headers s) IsAdmitted-IsInside
        (accepted-Passed limit s accepted).indexed.admitted

  -- An accepted archive is a complete one, of at least one and at most `limit` members, and names
  -- no path twice.
  pub accepted-Distinct :
      Ends s.entries
      × (length (headers s) ≤ limit)
      × (headers s ≢ [])
      × Distinct (map key_of_header (headers s))
  accepted-Distinct =
      let p = accepted-Passed limit s accepted in
      (p.complete, p.fits, ne p.some_header, p.indexed.distinct)
    where
      ne : no_headers (headers s) ≡ false → headers s ≢ []
      ne h e = cc (rw e at h)

In-map : (h : Header) (hs : List Header) → In h hs → In (key_of_header h) (map key_of_header hs)
In-map h [] i = i
In-map h (x ∷ hs) (inl e) = inl (ap key_of_header e)
In-map h (x ∷ hs) (inr i) = inr (In-map h hs i)

root_is_dir : (key : Text) (b : Bool) → key ≡ [] → (is_empty key && not b) ≡ false → b ≡ true
unfolding is_empty
root_is_dir key b e h = ground arith

link_not_dir : (t : Typeflag) → flag_is_link t ≡ true → flag_is_dir t ≡ true → ⊥
link_not_dir t l d = ground arith

-- A link is not the root.
link_has_path :
    (hdr : Header) (a : IsAdmitted hdr) → flag_is_link hdr.typeflag ≡ true → parts_of hdr.name ≢ []
link_has_path hdr a l e =
    let entry = new_member-IsEntryOf hdr _ a.kind in
    let root : key_of hdr.name ≡ [] =
      key_of-join hdr.name ∙ ap (join slashes) e ∙ (unfold join in refl) in
    let is_dir = root_is_dir _ a.member.is_dir root a.root_is_dir in
    absurd (link_not_dir hdr.typeflag l (sym entry.dir_is ∙ is_dir))

link_entry_of_header :
    (idx : MemberIndex) (hdr : Header)
    → IsIndexed idx hdr
    → flag_is_link hdr.typeflag ≡ true
    → link_entry (lookup (join slashes (parts_of hdr.name)) idx.by_name) ≡ true
link_entry_of_header idx hdr i l =
    let entry = new_member-IsEntryOf hdr _ i.made in
    rw (← key_of-join hdr.name) (rw i.found (ground arith))

module _ (limit : ℕ) (s : Stream) (accepted : validate_data_tar limit s ≡ ok tt) where
  -- In an accepted archive no member lies beneath a link: the path of no member continues the path
  -- of a symlink or a hardlink.
  pub accepted_nesting :
      (g h : Header) (q : Text) (rest : List Text)
      → In g (headers s)
      → In h (headers s)
      → flag_is_link g.typeflag ≡ true
      → parts_of h.name ≢ parts_of g.name ++ q ∷ rest
  accepted_nesting g h q rest ig ih l e = by_path (parts_of g.name) refl
    where
      p : Passed limit s
      p = accepted-Passed limit s accepted

      in_order : In (key_of h.name) p.idx.order
      in_order = rw p.indexed.order_is (In-map h (headers s) ih)

      is_link_entry : link_entry (lookup (join slashes (parts_of g.name)) p.idx.by_name) ≡ true
      is_link_entry =
          link_entry_of_header p.idx g (All-In (IsIndexed p.idx) (headers s) p.indexed.indexed ig) l

      by_path : (path : List Text) → parts_of g.name ≡ path → ⊥
      by_path [] e' = link_has_path g (All-In IsAdmitted (headers s) p.indexed.admitted ig) l e'
      by_path (x ∷ xs) e' =
          let no_link =
            check_nesting-beneath p.idx p.idx.order (key_of h.name) x xs q rest p.nesting in_order
              (key_parts-key_of h.name ∙ e ∙ ap (λ ps. ps ++ q ∷ rest) e') in
          cc (rw e' at is_link_entry, no_link)

-- One of the headers is a directory at `path`.
pub record HasDir (hdrs : List Header) (path : List Text) : Type 0 where
  pub header : Header
  pub among : In header hdrs
  pub at_path : parts_of header.name ≡ path
  pub is_directory : header.typeflag ≡ dir

flag_is_dir-dir : (t : Typeflag) → flag_is_dir t ≡ true → t ≡ dir
flag_is_dir-dir t h = ground arith

Origin-HasDir :
    (hdrs : List Header) (k : Text) (m : TarMember)
    → Origin hdrs k m
    → m.is_dir ≡ true
    → HasDir hdrs (key_parts k)
Origin-HasDir hdrs k m o d =
    let entry = new_member-IsEntryOf o.header k o.made in
    record {
      header = o.header;
      among = o.among;
      at_path = sym (key_parts-key_of o.header.name) ∙ ap key_parts o.key_is;
      is_directory = flag_is_dir-dir o.header.typeflag (sym entry.dir_is ∙ d);
    }

module _ (limit : ℕ) (s : Stream) (accepted : validate_data_tar limit s ≡ ok tt) where
  -- An accepted archive has `home` and `home/agent` among its members, as directories.
  pub accepted_homes :
      HasDir (headers s) (codes "home" ∷ [])
      × HasDir (headers s) (codes "home" ∷ codes "agent" ∷ [])
  unfolding key_parts split
  accepted_homes =
      let p = accepted-Passed limit s accepted in
      let (h, (a, _)) = check_required-dir p.idx (home ∷ home_agent ∷ []) p.required in
      let (m, e, d) = h in
      let (m', e', d') = a in
      (
        Origin-HasDir (headers s) home m (p.indexed.origin home m e) d,
        Origin-HasDir (headers s) home_agent m' (p.indexed.origin home_agent m' e') d',
      )
