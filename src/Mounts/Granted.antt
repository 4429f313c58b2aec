-- ===== src/Mounts/Granted.antt =====
-- The kernel's rule for a directory, and that a prepared set of mounts satisfies it.
use tx.Base.{
  ℕ, zero, suc, ◌/◌, ◌%◌, ◌<◌, ◌≡◌, refl, subst, Bool, true, false, not, ◌&&◌, ◌||◌, none, some,
  List, [], ◌∷◌, ◌++◌, arith, ok-injective, append_assoc, ◌==◌, if◌then◌else◌, ok, ◌>>=◌,
  bind-eq-ok, Result-cases, Option-cases, Bool-cases, inl, inr, All, All-map,
}
use tx.Decimal.{format_uint, is_empty-format_uint}
use tx.Dict.{elem}
use tx.Mounts.Access.{grants, group_for, supplemental_group, supplemental_group_with_membership}
use tx.Mounts.Prepare.{
  PreparedAgentMount, prepare_agent_mount, prepare_each, group_set, recheck, insert_text,
  sort_texts, prepare_agent_mounts,
}
use tx.Mounts.{AgentMount, FileInfo, Host, agent_uid, agent_gid}
use tx.Text.{Text, is_empty, text_eq, text_eq_iff}

-- A class of permission bits lets its members list and enter the directory, and change it too
-- unless the mount is read-only: the bits 4, 1 and 2.
unfoldable pub can_use : ℕ → Bool → Bool
can_use class read_only =
    (class / 4 % 2 == 1) && (class % 2 == 1) && (read_only || (class / 2 % 2 == 1))

-- The one class that governs: of the owner, of the group, or of all others.
unfoldable pub governing : ℕ → ℕ → ℕ → List Text → ℕ
governing perm uid gid groups =
    if uid == agent_uid
    then perm / 64
    else if gid == agent_gid || elem (format_uint gid) groups
    then perm / 8
    else perm

-- The agent, a member of its own group and of `groups`, may use the directory as the mount wants.
pub data AgentCanUse (read_only : Bool) (groups : List Text) (info : FileInfo) : Type 0 where
  no_stat : info.stat ≡ none → AgentCanUse read_only groups info
  by_class :
      (uid gid : ℕ)
      → info.stat ≡ some (uid, gid)
      → can_use (governing info.perm uid gid groups) read_only ≡ true
      → AgentCanUse read_only groups info

agrees_below : ℕ → Bool
agrees_below zero = true
agrees_below (suc n) =
    (not (grants n true) || can_use n true)
    && (not (grants n false) || can_use n false)
    && agrees_below n

agrees_below-can_use :
    (n c : ℕ) (ro : Bool) → agrees_below n ≡ true → c < n → grants c ro ≡ true → can_use c ro ≡ true
unfolding agrees_below
agrees_below-can_use zero c ro h lt g = absurd (omega arith)
agrees_below-can_use (suc n) c true h lt g = elim (Bool-cases (c == n)) [
  | inl same ↦ let e : c ≡ n = ground arith in rw e (ground (arith, rw e at g))
  | inr below ↦ agrees_below-can_use n c true (ground arith) (ground arith) g
]
agrees_below-can_use (suc n) c false h lt g = elim (Bool-cases (c == n)) [
  | inl same ↦ let e : c ≡ n = ground arith in rw e (ground (arith, rw e at g))
  | inr below ↦ agrees_below-can_use n c false (ground arith) (ground arith) g
]

pub grants-can_use : (c : ℕ) (ro : Bool) → c < 512 → grants c ro ≡ true → can_use c ro ≡ true
grants-can_use c ro lt g =
    agrees_below-can_use 512 c ro (unfold agrees_below grants can_use in refl) lt g

elem-insert_text :
    (g k : Text) (ks : List Text) → elem g (insert_text k ks) ≡ (text_eq k g || elem g ks)
unfolding insert_text elem
elem-insert_text g k [] = refl
elem-insert_text g k (j ∷ js) = ground (arith, elem-insert_text g k js)

-- Sorting keeps the groups.
pub elem-sort_texts : (g : Text) (ks : List Text) → elem g (sort_texts ks) ≡ elem g ks
unfolding sort_texts elem
elem-sort_texts g [] = refl
elem-sort_texts g (k ∷ ks) = rw (elem-insert_text g k (sort_texts ks)) (rw (elem-sort_texts g ks))

-- If the directory's own answer is among the groups, and the answer with the groups is no error,
-- the class that governs grants the access.
grants-governing :
    (perm uid gid : ℕ) (ro : Bool) (groups : List Text) {own final : Text}
    → group_for perm uid gid ro [] ≡ ok own
    → group_for perm uid gid ro groups ≡ ok final
    → (is_empty own ≡ false → elem own groups ≡ true)
    → grants (governing perm uid gid groups) ro ≡ true
unfolding group_for governing elem
grants-governing perm uid gid ro groups first second link = ground (arith, is_empty-format_uint gid)

governing_small :
    (perm uid gid : ℕ) (groups : List Text) → perm < 512 → governing perm uid gid groups < 512
unfolding governing
governing_small perm uid gid groups h = ground arith

-- A prepared mount, as the host shows its source.
pub record IsPrepared (host : Host) (mount : AgentMount) (p : PreparedAgentMount) : Type 0 where
  pub found : host.stat mount.source ≡ some p.info
  pub directory : p.info.is_dir ≡ true
  pub group_is : supplemental_group p.info mount.read_only ≡ ok p.group

prepare_agent_mount-IsPrepared :
    (host : Host) (mount : AgentMount) {p : PreparedAgentMount}
    → prepare_agent_mount host mount ≡ ok p
    → IsPrepared host mount p
unfolding prepare_agent_mount
prepare_agent_mount-IsPrepared host mount {p} e = elim (Option-cases (host.stat mount.source)) [
  | inl gone ↦ absurd (ground arith)
  | inr (info, found) ↦ elim (Result-cases (supplemental_group info mount.read_only)) [
    | inr (f, g) ↦ absurd (ground arith)
    | inl (group, g) ↦ record {
      found = ground arith;
      directory = ground arith;
      group_is = ground arith;
    }
  ]
]

-- The facts of every mount of a set.
unfoldable pub AllPrepared : Host → List AgentMount → List PreparedAgentMount → Type 0
AllPrepared host [] [] = Unit
AllPrepared host [] (p ∷ ps) = ⊥
AllPrepared host (m ∷ ms) [] = ⊥
AllPrepared host (m ∷ ms) (p ∷ ps) = IsPrepared host m p × AllPrepared host ms ps

pub prepare_each-AllPrepared :
    (host : Host) (mounts : List AgentMount) {ps : List PreparedAgentMount}
    → prepare_each host mounts ≡ ok ps
    → AllPrepared host mounts ps
unfolding prepare_each AllPrepared
prepare_each-AllPrepared host [] {ps = []} e = tt
prepare_each-AllPrepared host [] {ps = p ∷ ps} e = cc
prepare_each-AllPrepared host (m ∷ ms) {ps} e =
    let (p, prepared, later) =
      bind-eq-ok (prepare_agent_mount host m) (λ q. do rest ← prepare_each host ms; ok (q ∷ rest))
        e in
    let (rest, each, same) = bind-eq-ok (prepare_each host ms) (λ r. ok (p ∷ r)) later in
    subst (λ l. AllPrepared host (m ∷ ms) l) (ok-injective same)
      (prepare_agent_mount-IsPrepared host m prepared, prepare_each-AllPrepared host ms each)

-- The group set holds the group of each mount.
group_set-elem :
    (before : List PreparedAgentMount) (p : PreparedAgentMount) (after : List PreparedAgentMount)
    → is_empty p.group ≡ false
    → elem p.group (group_set (before ++ p ∷ after)) ≡ true
unfolding group_set elem
group_set-elem [] p after h = ground (arith, text_eq_iff p.group p.group)
group_set-elem (q ∷ before) p after h = ground (arith, group_set-elem before p after h)

mount_is_granted :
    (host : Host) (m : AgentMount) (p : PreparedAgentMount) (groups : List Text) {final : Text}
    → IsPrepared host m p
    → supplemental_group_with_membership p.info m.read_only groups ≡ ok final
    → (is_empty p.group ≡ false → elem p.group groups ≡ true)
    → AgentCanUse m.read_only groups p.info
unfolding supplemental_group supplemental_group_with_membership
mount_is_granted host m p groups {final} i second link = elim (Option-cases p.info.stat) [
  | inl n ↦ no_stat n
  | inr ((uid, gid), s) ↦ by_class uid gid s (
      grants-can_use (governing p.info.perm uid gid groups) m.read_only
        (governing_small p.info.perm uid gid groups (host.perm_bits m.source p.info i.found))
        (grants-governing p.info.perm uid gid m.read_only groups {own = p.group} {final = final}
          (ground (arith, i.group_is)) (ground arith) link))
]

-- The source is a directory that the agent may use.
pub record IsGranted (host : Host) (groups : List Text) (mount : AgentMount) : Type 0 where
  pub info : FileInfo
  pub found : host.stat mount.source ≡ some info
  pub directory : info.is_dir ≡ true
  pub access : AgentCanUse mount.read_only groups info

recheck-IsGranted :
    (host : Host) (before : List PreparedAgentMount) (ms : List AgentMount)
    (ps : List PreparedAgentMount)
    → AllPrepared host ms ps
    → recheck (group_set (before ++ ps)) ps ms ≡ ok tt
    → All (IsGranted host (group_set (before ++ ps))) ms
unfolding AllPrepared recheck
recheck-IsGranted host before [] [] a e = tt
recheck-IsGranted host before [] (p ∷ ps) a e = absurd a
recheck-IsGranted host before (m ∷ ms) [] a e = absurd a
recheck-IsGranted host before (m ∷ ms) (p ∷ ps) a e =
    elim (Result-cases
      (supplemental_group_with_membership p.info m.read_only (group_set (before ++ p ∷ ps)))) [
        | inr (f, r) ↦ absurd (cc (rw r at e))
        | inl (final, r) ↦ (
          record {
            info = p.info;
            found = a.0.found;
            directory = a.0.directory;
            access =
                mount_is_granted host m p (group_set (before ++ p ∷ ps)) a.0 r
                  (group_set-elem before p ps);
          },
          rw (append_assoc before (p ∷ []) ps) at (
              recheck-IsGranted host (before ++ p ∷ []) ms ps a.1
                (rw (append_assoc before (p ∷ []) ps) (rw r at e))),
        )
      ]

AgentCanUse-sorted :
    (ro : Bool) (groups : List Text) (info : FileInfo)
    → AgentCanUse ro groups info
    → AgentCanUse ro (sort_texts groups) info
unfolding governing
AgentCanUse-sorted ro groups info (no_stat n) = no_stat n
AgentCanUse-sorted ro groups info (by_class uid gid s c) =
    by_class uid gid s (rw (elem-sort_texts (format_uint gid) groups) c)

IsGranted-sorted :
    (host : Host) (groups : List Text) (m : AgentMount)
    → IsGranted host groups m
    → IsGranted host (sort_texts groups) m
IsGranted-sorted host groups m g = record {
  info = g.info;
  found = g.found;
  directory = g.directory;
  access = AgentCanUse-sorted m.read_only groups g.info g.access;
}

-- When the mounts are prepared, every source is a directory, and with the supplemental groups that
-- prepareAgentMounts returns for the whole set, the one permission class that the kernel applies
-- to the agent (owner, else group, else others) lets it list and enter the directory, and write in
-- it unless the mount is read-only. Where the platform shows no owner, only the first is claimed.
pub prepare_agent_mounts-IsGranted :
    (host : Host) (mounts : List AgentMount) {binds groups : List Text}
    → prepare_agent_mounts host mounts ≡ ok (binds, groups)
    → All (IsGranted host groups) mounts
unfolding prepare_agent_mounts
prepare_agent_mounts-IsGranted host mounts {binds} {groups} e =
    elim (Result-cases (prepare_each host mounts)) [
      | inr (f, r) ↦ absurd (ground arith)
      | inl (ps, r) ↦
          let rechecked : recheck (group_set ps) ps mounts ≡ ok tt = ground arith in
          let same : sort_texts (group_set ps) ≡ groups = ground arith in
          subst (λ g. All (IsGranted host g) mounts) same
            (All-map (IsGranted host (group_set ps)) (IsGranted host (sort_texts (group_set ps)))
              mounts (IsGranted-sorted host (group_set ps))
              (recheck-IsGranted host [] mounts ps (prepare_each-AllPrepared host mounts r)
                rechecked))
    ]
