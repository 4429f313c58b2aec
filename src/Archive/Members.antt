-- ===== src/Archive/Members.antt =====
-- The first pass of ValidateDataTar: what it says of the members that it lets through, and what the
-- index holds behind it.
use tx.Base.{
  ◌≤◌, ◌≡◌, ◌≢◌, ap, false, not, ◌&&◌, Option, none, [], ◌∷◌, ◌++◌, arith, ok, Result-cases, inl,
  inr, All,
}
use tx.Dict.{elem, lookup, insert}
use tx.Text.Split.{join}
use tx.Text.{Text, is_empty, has_prefix}
use tx.Archive.{Header, TarMember, MemberIndex}
use tx.Archive.Lexical.{parts_of, parts_of-IsSegment, drop_dots-parts_of, key_parts-join}
use tx.Archive.Paths.{slashes, dotdot, has_control, safe_text, posix_parts_raw}
use tx.Archive.Resolve.{key_parts}
use tx.Archive.Validate.{key_of, new_member, is_known, check_links, add_member}

-- A text without control characters.
abbrev pub IsSafeText : Text → Type 0
IsSafeText s = All (λ c. (32 ≤ c) × (c ≢ 127)) s

pub has_control-IsSafeText : (s : Text) → has_control s ≡ false → IsSafeText s
unfolding has_control
has_control-IsSafeText [] h = tt
has_control-IsSafeText (c ∷ s) h = (ground arith, has_control-IsSafeText s (ground arith))

pub key_of-join : (name : Text) → key_of name ≡ join slashes (parts_of name)
unfolding key_of
key_of-join name = ap (join slashes) (drop_dots-parts_of name)

-- The key of a member names the components of its path.
pub key_parts-key_of : (name : Text) → key_parts (key_of name) ≡ parts_of name
key_parts-key_of name =
    rw (key_of-join name) (key_parts-join (parts_of name) (parts_of-IsSegment name))

-- The entry that the first pass makes of a header, and all that it checked.
pub record IsAdmitted (hdr : Header) : Type 0 where
  pub safe : has_control hdr.name ≡ false
  pub no_dotdot : elem dotdot (posix_parts_raw hdr.name) ≡ false
  pub relative : has_prefix hdr.name slashes ≡ false
  pub member : TarMember
  pub kind : new_member hdr (key_of hdr.name) ≡ ok member
  pub root_is_dir : (is_empty (key_of hdr.name) && not member.is_dir) ≡ false
  pub links : check_links member (key_of hdr.name) ≡ ok tt

pub record Adds (idx : MemberIndex) (hdr : Header) (idx' : MemberIndex) : Type 0 where
  pub admitted : IsAdmitted hdr
  pub fresh : lookup (key_of hdr.name) idx.by_name ≡ none
  pub order_is : idx'.order ≡ idx.order ++ key_of hdr.name ∷ []
  pub by_name_is : idx'.by_name ≡ insert (key_of hdr.name) admitted.member idx.by_name

is_known-none : (o : Option TarMember) → is_known o ≡ false → o ≡ none
is_known-none o h = ground arith

pub add_member-Adds :
    (idx : MemberIndex) (hdr : Header) {idx' : MemberIndex}
    → add_member idx hdr ≡ ok idx'
    → Adds idx hdr idx'
unfolding add_member safe_text
add_member-Adds idx hdr {idx'} e = elim (Result-cases (new_member hdr (key_of hdr.name))) [
  | inl (m, k) ↦ record {
    admitted = record {
      safe = ground arith;
      no_dotdot = ground arith;
      relative = ground arith;
      member = m;
      kind = k;
      root_is_dir = ground arith;
      links = ground arith;
    };
    fresh = is_known-none _ (ground arith);
    order_is = ground arith;
    by_name_is = ground arith;
  }
  | inr (f, k) ↦ absurd (ground arith)
]
