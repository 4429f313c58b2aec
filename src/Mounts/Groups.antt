-- ===== src/Mounts/Groups.antt =====
-- Which groups prepareAgentMounts adds to the agent.
use tx.Base.{
  ℕ, ◌/◌, ◌<◌, ◌≡◌, ◌≢◌, refl, sym, ap, ◌∙◌, subst, Bool, true, false, some, List, [], ◌∷◌, arith,
  ok, Result-cases, Option-cases, Bool-cases, inl, inr, In,
}
use tx.Decimal.{format_uint}
use tx.Dict.{elem}
use tx.Mounts.Access.{grants, group_for, supplemental_group, supplemental_group_with_membership}
use tx.Mounts.Granted.{
  AllPrepared, prepare_each-AllPrepared, can_use, grants-can_use, elem-sort_texts,
}
use tx.Mounts.Prepare.{
  PreparedAgentMount, prepare_each, group_set, sort_texts, prepare_agent_mounts,
}
use tx.Mounts.{AgentMount, FileInfo, Host, agent_uid, agent_gid}
use tx.Text.{Text, is_empty, text_eq, text_eq→eq}

-- The group is that of the directory `info`, and joining it is what gives the agent access: it is
-- neither the root group nor the agent's own, the agent does not own the directory, and the bits
-- for others do not suffice while those for the group do.
pub record IsNeeded (read_only : Bool) (info : FileInfo) (group : Text) : Type 0 where
  pub uid : ℕ
  pub gid : ℕ
  pub stat_is : info.stat ≡ some (uid, gid)
  pub group_is : group ≡ format_uint gid
  pub not_root : gid ≢ 0
  pub not_own : (uid ≢ agent_uid) × (gid ≢ agent_gid)
  pub others_refused : grants info.perm read_only ≡ false
  pub group_granted : can_use (info.perm / 8) read_only ≡ true

-- A mount of the list needs the group.
pub record HasNeed (host : Host) (mounts : List AgentMount) (group : Text) : Type 0 where
  pub mount : AgentMount
  pub among : In mount mounts
  pub info : FileInfo
  pub found : host.stat mount.source ≡ some info
  pub needed : IsNeeded mount.read_only info group

group_for-needed :
    (perm uid gid : ℕ) (ro : Bool) (group : Text)
    → group_for perm uid gid ro [] ≡ ok group
    → is_empty group ≡ false
    → (group ≡ format_uint gid)
      × (gid ≢ 0)
      × (uid ≢ agent_uid)
      × (gid ≢ agent_gid)
      × (grants perm ro ≡ false)
      × (grants (perm / 8) ro ≡ true)
unfolding group_for elem is_empty
group_for-needed perm uid gid ro group e ne = ground arith

supplemental_group-stat :
    (info : FileInfo) (ro : Bool) (group : Text)
    → supplemental_group info ro ≡ ok group
    → is_empty group ≡ false
    → (uid : ℕ) × (gid : ℕ) × (info.stat ≡ some (uid, gid))
      × (group_for info.perm uid gid ro [] ≡ ok group)
unfolding supplemental_group supplemental_group_with_membership is_empty
supplemental_group-stat info ro group e ne = elim (Option-cases info.stat) [
  | inl n ↦ absurd (ground arith)
  | inr ((uid, gid), s) ↦ (uid, gid, s, ground arith)
]

supplemental_group-IsNeeded :
    (info : FileInfo) (ro : Bool) (group : Text)
    → info.perm < 512
    → supplemental_group info ro ≡ ok group
    → is_empty group ≡ false
    → IsNeeded ro info group
supplemental_group-IsNeeded info ro group small e ne =
    let (uid, gid, s, g) = supplemental_group-stat info ro group e ne in
    let (is, root, not_uid, not_gid, others, class) =
      group_for-needed info.perm uid gid ro group g ne in
    record {
      uid = uid;
      gid = gid;
      stat_is = s;
      group_is = is;
      not_root = root;
      not_own = (not_uid, not_gid);
      others_refused = others;
      group_granted = grants-can_use (info.perm / 8) ro (omega arith) class;
    }

group_set-HasNeed :
    (host : Host) (ms : List AgentMount) (ps : List PreparedAgentMount) (group : Text)
    → AllPrepared host ms ps
    → elem group (group_set ps) ≡ true
    → HasNeed host ms group
unfolding AllPrepared group_set elem
group_set-HasNeed host [] [] group a e = cc
group_set-HasNeed host [] (p ∷ ps) group a e = absurd a
group_set-HasNeed host (m ∷ ms) [] group a e = absurd a
group_set-HasNeed host (m ∷ ms) (p ∷ ps) group a e = elim (Bool-cases (elem group (group_set ps))) [
  | inl later ↦
      let n = group_set-HasNeed host ms ps group a.1 later in
      record {
        mount = n.mount;
        among = inr n.among;
        info = n.info;
        found = n.found;
        needed = n.needed;
      }
  | inr here ↦
      let same : text_eq p.group group ≡ true = ground arith in
      let filled : is_empty p.group ≡ false = ground arith in
      let is_group = text_eq→eq p.group group same in
      record {
        mount = m;
        among = inl refl;
        info = p.info;
        found = a.0.found;
        needed =
            subst (λ g. IsNeeded m.read_only p.info g) is_group
              (supplemental_group-IsNeeded p.info m.read_only p.group
                (host.perm_bits m.source p.info a.0.found) a.0.group_is filled);
      }
]

-- Every supplemental group that prepareAgentMounts returns is needed for a mount of the set: it is
-- the group of that mount's source, which the agent could not use without it, and it is neither the
-- root group nor the agent's own.
pub prepare_agent_mounts-needed :
    (host : Host) (mounts : List AgentMount) {binds groups : List Text} (group : Text)
    → prepare_agent_mounts host mounts ≡ ok (binds, groups)
    → elem group groups ≡ true
    → HasNeed host mounts group
unfolding prepare_agent_mounts
prepare_agent_mounts-needed host mounts {binds} {groups} group e i =
    elim (Result-cases (prepare_each host mounts)) [
      | inr (f, r) ↦ absurd (ground arith)
      | inl (ps, r) ↦
          let same : sort_texts (group_set ps) ≡ groups = ground arith in
          group_set-HasNeed host mounts ps group (prepare_each-AllPrepared host mounts r)
            (sym (elem-sort_texts group (group_set ps)) ∙ ap (elem group) same ∙ i)
    ]
