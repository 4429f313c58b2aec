-- ===== src/Mounts/Examples.antt =====
-- A directory of another user, which the agent may use as a member of its group.
use tx.Base.{◌≡◌, ◌<◌, refl, subst, arith, true, false, Option, none, some, List, [], ◌∷◌, ok, All}
use tx.Dict.{elem}
use tx.Mounts.Granted.{IsGranted, prepare_agent_mounts-IsGranted}
use tx.Mounts.Groups.{HasNeed, prepare_agent_mounts-needed}
use tx.Decimal.{format_uint}
use tx.Mounts.Access.{supplemental_group, supplemental_group_with_membership, group_for, grants}
use tx.Mounts.Clean.{
  is_abs, clean, clean_elements, clean_element, drop_last, go_back, last_is_dotdot,
}
use tx.Text.Split.{split, join}
use tx.Mounts.Prepare.{
  prepare_agent_mounts, prepare_each, prepare_agent_mount, check_mountpoint, group_set, recheck,
  sort_texts, insert_text, bind_of,
}
use tx.Mounts.Safe.{IsBelowMnt, Apart, validate_agent_mount_set-IsBelowMnt}
use tx.Mounts.Validate.{validate_agent_mount_set, validate_targets, validate_agent_mount}
use tx.Mounts.{AgentMount, FileInfo, Host}
use tx.Text.{codes, is_empty, has_prefix, text_eq, contains_any}

abbrev shared_info : FileInfo
shared_info = record { is_dir = true; perm = 56; stat = some (0, 2000) }

same_info :
    (info : FileInfo)
    → ◌≡◌ {A = Option FileInfo} (some shared_info) (some info)
    → shared_info ≡ info
same_info info e = cc

shared_perm :
    (info : FileInfo) → ◌≡◌ {A = Option FileInfo} (some shared_info) (some info) → info.perm < 512
shared_perm info e = subst (λ i. i.perm < 512) (same_info info e) (omega arith)

-- Every path is that directory.
abbrev shared_host : Host
shared_host = record {
  stat = λ p. some shared_info;
  perm_bits = λ p. shared_perm;
  abs = λ p. some p;
  eval_symlinks = λ p. some p;
  mountinfo = none;
}

abbrev shared_mounts : List AgentMount
shared_mounts =
    record {
      source = codes "/srv/x";
      target = codes "/mnt/x";
      read_only = false;
      require_mountpoint = false;
    }
    ∷ []

is_prepared :
    prepare_agent_mounts shared_host shared_mounts
    ≡ ok (codes "/srv/x:/mnt/x" ∷ [], codes "2000" ∷ [])
unfolding prepare_agent_mounts validate_agent_mount_set validate_targets validate_agent_mount
    is_empty is_abs has_prefix text_eq clean join clean_elements split clean_element contains_any
    elem drop_last go_back last_is_dotdot prepare_each prepare_agent_mount check_mountpoint
    supplemental_group supplemental_group_with_membership group_for grants group_set recheck
    sort_texts insert_text bind_of format_uint
is_prepared = refl

is_valid : validate_agent_mount_set shared_mounts ≡ ok tt
unfolding validate_agent_mount_set validate_targets validate_agent_mount is_empty is_abs has_prefix
    text_eq clean join clean_elements split clean_element contains_any elem drop_last go_back
    last_is_dotdot
is_valid = refl

has_group : elem (codes "2000") (codes "2000" ∷ []) ≡ true
unfolding elem text_eq
has_group = refl

prepare_agent_mounts-IsGranted_example :
    All (IsGranted shared_host (codes "2000" ∷ [])) shared_mounts
prepare_agent_mounts-IsGranted_example =
    prepare_agent_mounts-IsGranted shared_host shared_mounts is_prepared

prepare_agent_mounts-needed_example : HasNeed shared_host shared_mounts (codes "2000")
prepare_agent_mounts-needed_example =
    prepare_agent_mounts-needed shared_host shared_mounts (codes "2000") is_prepared has_group

validate_agent_mount_set-IsBelowMnt_example :
    All (λ m. IsBelowMnt m.target) shared_mounts × Apart shared_mounts
validate_agent_mount_set-IsBelowMnt_example =
    validate_agent_mount_set-IsBelowMnt shared_mounts is_valid
