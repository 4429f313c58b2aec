-- ===== src/Mounts/Access.antt =====
-- supplementalGroup and supplementalGroupWithMembership of agent_mounts.go.
use Prim.Native.Nat.{bit_and}
use tx.Base.{ℕ, ◌/◌, Bool, not, ◌&&◌, ◌||◌, none, some, List, [], ◌==◌, if◌then◌else◌, ok, err}
use tx.Decimal.{format_uint}
use tx.Dict.{elem}
use tx.Mounts.{FileInfo, agent_uid, agent_gid, no_access, Mounted}
use tx.Text.{Text}

-- needed: 0o5 to read a directory, 0o7 to write in it too
abbrev pub needed : Bool → ℕ
needed read_only = if read_only then 5 else 7

-- class&needed == needed
unfoldable pub grants : ℕ → Bool → Bool
grants class read_only = bit_and class (needed read_only) == needed read_only

-- The rules by the classes of the directory: the group to join, "" for none.
unfoldable pub group_for : ℕ → ℕ → ℕ → Bool → List Text → Mounted Text
group_for perm uid gid read_only groups =
    if uid == agent_uid
    then (if grants (perm / 64) read_only then ok [] else err no_access)
    else if gid == agent_gid || elem (format_uint gid) groups
    then (if grants (perm / 8) read_only then ok [] else err no_access)
    else if grants perm read_only
    then ok []
    else if not (gid == 0) && grants (perm / 8) read_only
    then ok (format_uint gid)
    else err no_access

unfoldable pub supplemental_group_with_membership : FileInfo → Bool → List Text → Mounted Text
supplemental_group_with_membership info read_only groups = elim info.stat [
  | none ↦ ok []
  | some (uid, gid) ↦ group_for info.perm uid gid read_only groups
]

unfoldable pub supplemental_group : FileInfo → Bool → Mounted Text
supplemental_group info read_only = supplemental_group_with_membership info read_only []
