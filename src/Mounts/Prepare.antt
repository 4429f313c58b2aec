-- ===== src/Mounts/Prepare.antt =====
-- prepareAgentMount, prepareAgentMounts, isMountpoint, PreflightAgentMounts and NewAgentMount of
-- agent_mounts.go.
use tx.Base.{
  Bool, false, not, ◌||◌, Option, none, some, List, [], ◌∷◌, ◌++◌, if◌then◌else◌, ok, err, ◌>>=◌,
  ◌>>◌, refuse_if,
}
use tx.Dict.{elem}
use tx.Mounts.Access.{supplemental_group, supplemental_group_with_membership}
use tx.Mounts.Clean.{clean}
use tx.Mounts.Validate.{validate_agent_mount, validate_agent_mount_set}
use tx.Mounts.{
  AgentMount, FileInfo, Host, no_absolute_path, source_unavailable, source_not_directory,
  mountinfo_unreadable, not_a_mountpoint, no_access_combined, Mounted,
}
use tx.Text.Trim.{fields}
use tx.Text.{Text, codes, is_empty, text_eq, text_lt}

-- The replacer of unescapeMountInfoPath, at the start of a text.
unfoldable pub unescape_mount_info_path : Text → Text
unescape_mount_info_path (b0 ∷ b1 ∷ b2 ∷ b3 ∷ s) =
    let rest = unescape_mount_info_path s in
    let later = unescape_mount_info_path (b1 ∷ b2 ∷ b3 ∷ s) in
    let here = b0 ∷ b1 ∷ b2 ∷ b3 ∷ [] in
    if text_eq here (codes "\\040")
    then b' ' ∷ rest
    else if text_eq here (codes "\\011")
    then b'\t' ∷ rest
    else if text_eq here (codes "\\012")
    then b'\n' ∷ rest
    else if text_eq here (codes "\\134")
    then b'\\' ∷ rest
    else b0 ∷ later
unescape_mount_info_path s = s

-- fields[4], where there are more than four
fifth : List Text → Option Text
fifth (a ∷ b ∷ c ∷ d ∷ e ∷ _) = some e
fifth _ = none

names_target : Text → Option Text → Bool
names_target target none = false
names_target target (some path) = text_eq (unescape_mount_info_path path) target

any_line : Text → List Text → Bool
any_line target [] = false
any_line target (line ∷ lines) = names_target target (fifth (fields line)) || any_line target lines

unfoldable pub is_mountpoint : Host → Text → Mounted Bool
unfolding any_line names_target fifth
is_mountpoint host target = elim host.mountinfo [
  | none ↦ err mountinfo_unreadable
  | some lines ↦ ok (any_line target lines)
]

pub record PreparedAgentMount : Type 0 where
  pub bind : Text
  pub group : Text
  pub info : FileInfo

unfoldable pub check_mountpoint : Host → AgentMount → Mounted (Unit {0})
check_mountpoint host mount =
    if mount.require_mountpoint
    then (do mounted ← is_mountpoint host mount.source; refuse_if (not mounted) not_a_mountpoint)
    else ok tt

-- source:target or source:target:ro
unfoldable pub bind_of : AgentMount → Text
bind_of mount =
    mount.source ++ (b':' ∷ (mount.target ++ (if mount.read_only then codes ":ro" else [])))

stat_source : Option FileInfo → Mounted FileInfo
stat_source none = err source_unavailable
stat_source (some info) = ok info

unfoldable pub prepare_agent_mount : Host → AgentMount → Mounted PreparedAgentMount
unfolding stat_source
prepare_agent_mount host mount = do
  info ← stat_source (host.stat mount.source)
  refuse_if (not info.is_dir) source_not_directory
  check_mountpoint host mount
  group ← supplemental_group info mount.read_only
  ok (record { bind = bind_of mount; group = group; info = info })

-- The first loop of prepareAgentMounts.
unfoldable pub prepare_each : Host → List AgentMount → Mounted (List PreparedAgentMount)
prepare_each host [] = ok []
prepare_each host (mount ∷ mounts) = do
  prepared ← prepare_agent_mount host mount
  rest ← prepare_each host mounts
  ok (prepared ∷ rest)

-- The keys of `groupSet`.
unfoldable pub group_set : List PreparedAgentMount → List Text
group_set [] = []
group_set (p ∷ ps) =
    let rest = group_set ps in
    if is_empty p.group || elem p.group rest then rest else p.group ∷ rest

combined : Mounted Text → Mounted (Unit {0})
combined (ok group) = ok tt
combined (err e) = err no_access_combined

-- The second loop of prepareAgentMounts.
unfoldable pub recheck : List Text → List PreparedAgentMount → List AgentMount → Mounted (Unit {0})
unfolding combined
recheck groups [] mounts = ok tt
recheck groups (p ∷ ps) [] = ok tt
recheck groups (p ∷ ps) (mount ∷ mounts) =
    combined (supplemental_group_with_membership p.info mount.read_only groups)
    >> recheck groups ps mounts

-- sort.Strings
unfoldable pub insert_text : Text → List Text → List Text
insert_text k [] = k ∷ []
insert_text k (j ∷ js) = let rest = insert_text k js in if text_lt j k then j ∷ rest else k ∷ j ∷ js

unfoldable pub sort_texts : List Text → List Text
sort_texts [] = []
sort_texts (k ∷ ks) = insert_text k (sort_texts ks)

abbrev pub binds_of : List PreparedAgentMount → List Text
binds_of [] = []
binds_of (p ∷ ps) = p.bind ∷ binds_of ps

-- The binds and the supplemental groups of the agent container.
unfoldable pub prepare_agent_mounts : Host → List AgentMount → Mounted (List Text × List Text)
prepare_agent_mounts host mounts = do
  validate_agent_mount_set mounts
  prepared ← prepare_each host mounts
  recheck (group_set prepared) prepared mounts
  ok (binds_of prepared, sort_texts (group_set prepared))

unfoldable pub preflight_agent_mounts : Host → List AgentMount → Mounted (Unit {0})
preflight_agent_mounts host mounts = do prepared ← prepare_agent_mounts host mounts; ok tt

or_text : Option Text → Text → Text
or_text none s = s
or_text (some t) s = t

abs_source : Option Text → Mounted Text
abs_source none = err no_absolute_path
abs_source (some p) = ok p

unfoldable pub new_agent_mount : Host → Text → Text → Bool → Bool → Mounted AgentMount
unfolding or_text abs_source
new_agent_mount host source target read_only require_mountpoint = do
  abs ← abs_source (host.abs source)
  let mount : AgentMount = record {
    source = clean (or_text (host.eval_symlinks abs) abs);
    target = clean target;
    read_only = read_only;
    require_mountpoint = require_mountpoint;
  }
  validate_agent_mount mount
  prepared ← prepare_agent_mount host mount
  ok mount
