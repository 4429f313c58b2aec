-- ===== src/Mounts/Validate.antt =====
-- validateAgentMount and validateAgentMountSet of agent_mounts.go.
use tx.Base.{Bool, not, ◌||◌, List, [], ◌∷◌, ok, ◌>>◌, refuse_if}
use tx.Dict.{elem}
use tx.Mounts.Clean.{clean, is_abs}
use tx.Mounts.{
  AgentMount, source_not_clean, source_not_representable, target_not_clean, target_not_below_mnt,
  target_not_representable, duplicate_target, Mounted,
}
use tx.Text.{Text, codes, is_empty, text_eq, has_prefix, contains_any}

-- The characters that a Docker bind cannot hold.
abbrev pub unrepresentable : Text
unrepresentable = b':' ∷ b'\n' ∷ b'\r' ∷ 0 ∷ []

abbrev pub is_clean_abs : Text → Bool
is_clean_abs p = not (is_empty p || not (is_abs p) || not (text_eq (clean p) p))

unfoldable pub validate_agent_mount : AgentMount → Mounted (Unit {0})
validate_agent_mount mount = do
  refuse_if (not (is_clean_abs mount.source)) source_not_clean
  refuse_if (contains_any mount.source unrepresentable) source_not_representable
  refuse_if (not (is_clean_abs mount.target)) target_not_clean
  refuse_if (text_eq mount.target (codes "/mnt") || not (has_prefix mount.target (codes "/mnt/")))
      target_not_below_mnt
  refuse_if (contains_any mount.target unrepresentable) target_not_representable

-- The loop of validateAgentMountSet; `targets` are those that were seen.
unfoldable pub validate_targets : List Text → List AgentMount → Mounted (Unit {0})
validate_targets targets [] = ok tt
validate_targets targets (mount ∷ mounts) = do
  validate_agent_mount mount
  refuse_if (elem mount.target targets) duplicate_target
  validate_targets (mount.target ∷ targets) mounts

unfoldable pub validate_agent_mount_set : List AgentMount → Mounted (Unit {0})
validate_agent_mount_set mounts = validate_targets [] mounts
