-- ===== src/Archive/RealPath.antt =====
-- What `resolve` returns: the member behind a path of real directories, never a link.
use tx.Base.{
  ℕ, zero, suc, ◌+◌, ltb, Result-cases, ◌≡◌, refl, sym, ap, subst, true, false, ◌||◌, Option, none,
  some, List, [], ◌∷◌, ◌++◌, append_assoc, append-nil, arith, ok, err, bind-eq-ok, Bool-cases, inl,
  inr,
}
use tx.Dict.{lookup, elem}
use tx.Text.Split.{join}
use tx.Text.{Text, is_empty, text_eq}
use tx.Archive.{TarMember, is_link, MemberIndex, Checked}
use tx.Archive.Paths.{slashes, dot, dotdot, drop_last, link_parts}
use tx.Archive.Resolve.{
  max_archive_link_hops, candidate_of, Walk, follow_link, descend, enter_entry, go_up, resolve_step,
  resolve_final, resolve_loop, resolve, start_walk, key_parts, resolve_state_key,
}

-- There is an entry, and it is no link.
pub data IsDirEntry : Option TarMember → Type 0 where
  is_dir_entry : {m : TarMember} → m.is_dir ≡ true → is_link m ≡ false → IsDirEntry (some m)

abbrev pub NotLink : Option TarMember → Type 0
NotLink none = Unit
NotLink (some m) = is_link m ≡ false

NotLink-of_dir : {o : Option TarMember} → IsDirEntry o → NotLink o
NotLink-of_dir (is_dir_entry d l) = l

join-snoc :
    (sep p q : Text) (ps : List Text)
    → join sep ((p ∷ ps) ++ q ∷ []) ≡ join sep (p ∷ ps) ++ (sep ++ q)
unfolding join
join-snoc sep p q [] = refl
join-snoc sep p q (r ∷ ps) = rw (join-snoc sep r q ps) (simp append_assoc)

candidate_of-join : (ps : List Text) (p : Text) → candidate_of ps p ≡ join slashes (ps ++ p ∷ [])
unfolding candidate_of join
candidate_of-join [] p = refl
candidate_of-join (q ∷ ps) p = sym (join-snoc slashes q p ps)

pub drop_last-snoc : (ps : List Text) (p : Text) → drop_last (ps ++ p ∷ []) ≡ ps
unfolding drop_last
drop_last-snoc [] p = refl
drop_last-snoc (q ∷ []) p = refl
drop_last-snoc (q ∷ r ∷ ps) p = ap (◌∷◌ q) (drop_last-snoc (r ∷ ps) p)

resolve_final-eq-ok :
    (idx : MemberIndex) (resolved : List Text) {m : TarMember}
    → resolve_final idx resolved ≡ ok m
    → lookup (join slashes resolved) idx.by_name ≡ some m
unfolding resolve_final
resolve_final-eq-ok idx resolved e = ground arith

module _ (idx : MemberIndex) where
  abbrev pub entry_at : List Text → Option TarMember
  entry_at ps = lookup (join slashes ps) idx.by_name

  -- Every prefix of `ps`, read behind `before`, is a directory of the archive.
  abbrev pub DirPath : List Text → List Text → Type 0
  DirPath before [] = Unit
  DirPath before (p ∷ ps) = IsDirEntry (entry_at (before ++ p ∷ [])) × DirPath (before ++ p ∷ []) ps

  -- `m` is indexed at `ps`, is no link, and lies in real directories up to the root.
  pub record RealPath (ps : List Text) (m : TarMember) : Type 0 where
    pub here : entry_at ps ≡ some m
    pub no_link : is_link m ≡ false
    pub within : DirPath [] (drop_last ps)

  DirPath-drop_last : (before ps : List Text) → DirPath before ps → DirPath before (drop_last ps)
  unfolding drop_last
  DirPath-drop_last before [] h = tt
  DirPath-drop_last before (p ∷ []) h = tt
  DirPath-drop_last before (p ∷ q ∷ ps) h = (h.0, DirPath-drop_last (before ++ p ∷ []) (q ∷ ps) h.1)

  DirPath-snoc :
      (before ps : List Text) (p : Text)
      → DirPath before ps
      → IsDirEntry (entry_at (before ++ (ps ++ p ∷ [])))
      → DirPath before (ps ++ p ∷ [])
  DirPath-snoc before [] p h d = (d, tt)
  DirPath-snoc before (q ∷ ps) p h d = (
    h.0,
    DirPath-snoc (before ++ q ∷ []) ps p h.1 (rw (append_assoc before (q ∷ []) (ps ++ p ∷ [])) d),
  )

  DirPath-NotLink :
      (before ps : List Text)
      → NotLink (entry_at before)
      → DirPath before ps
      → NotLink (entry_at (before ++ ps))
  DirPath-NotLink before [] n h = rw append-nil n
  DirPath-NotLink before (p ∷ ps) n h =
      rw (append_assoc before (p ∷ []) ps) at
        (DirPath-NotLink (before ++ p ∷ []) ps (NotLink-of_dir h.0) h.1)

  -- What holds between two rounds of the loop.
  abbrev Inv : List Text → List Text → Type 0
  Inv [] resolved = DirPath [] (drop_last resolved) × NotLink (entry_at resolved)
  Inv (p ∷ pending) resolved = DirPath [] resolved

  abbrev InvOf : Checked (List Text × Walk) → Type 0
  InvOf (ok (pending, w)) = Inv pending w.resolved
  InvOf (err e) = Unit

  module _ (root : NotLink (entry_at [])) where
    Inv-of_dirs : (pending resolved : List Text) → DirPath [] resolved → Inv pending resolved
    Inv-of_dirs [] resolved h =
        (DirPath-drop_last [] resolved h, DirPath-NotLink [] resolved root h)
    Inv-of_dirs (p ∷ pending) resolved h = h

    descend-Inv :
        (w : Walk) (entry : Option TarMember) (part : Text) (pending : List Text)
        → DirPath [] w.resolved
        → entry ≡ entry_at (w.resolved ++ part ∷ [])
        → NotLink entry
        → InvOf (descend w entry part pending)
    unfolding descend
    descend-Inv w entry part [] h e n = (rw (drop_last-snoc w.resolved part) h, rw (← e) n)
    descend-Inv w none part (q ∷ pending) h e n = tt
    descend-Inv w (some m) part (q ∷ pending) h e n = elim (Bool-cases m.is_dir) [
      | inl d ↦ rw d (DirPath-snoc [] w.resolved part h (rw (← e) (is_dir_entry d n)))
      | inr d ↦ rw d tt
    ]

    follow_link-Inv :
        (w : Walk) (entry : TarMember) (pending : List Text) → InvOf (follow_link w entry pending)
    unfolding follow_link
    follow_link-Inv w entry pending =
        elim (Bool-cases (ltb max_archive_link_hops (w.link_hops + 1))) [
          | inl t ↦ rw t tt
          | inr t ↦ rw t (elim (Result-cases (link_parts entry.linkname)) [
            | inl (target, e) ↦ rw e (Inv-of_dirs _ [] tt)
            | inr (f, e) ↦ rw e tt
          ])
        ]

    enter_entry-Inv :
        (w : Walk) (entry : Option TarMember) (part : Text) (pending : List Text)
        → DirPath [] w.resolved
        → entry ≡ entry_at (w.resolved ++ part ∷ [])
        → InvOf (enter_entry w entry part pending)
    unfolding enter_entry
    enter_entry-Inv w none part pending h e = descend-Inv w none part pending h e tt
    enter_entry-Inv w (some m) part pending h e = elim (Bool-cases (is_link m)) [
      | inl l ↦ rw l (follow_link-Inv w m pending)
      | inr l ↦ rw l (descend-Inv w (some m) part pending h e l)
    ]

    go_up-Inv :
        (w : Walk) (pending resolved : List Text)
        → w.resolved ≡ resolved
        → DirPath [] resolved
        → InvOf (go_up w pending)
    unfolding go_up
    go_up-Inv w pending [] e h = rw e tt
    go_up-Inv w pending (r ∷ rs) e h =
        rw e (Inv-of_dirs pending (drop_last (r ∷ rs)) (DirPath-drop_last [] (r ∷ rs) h))

    resolve_step-Inv :
        (w : Walk) (part : Text) (pending : List Text)
        → DirPath [] w.resolved
        → InvOf (resolve_step idx w part pending)
    unfolding resolve_step
    resolve_step-Inv w part pending h =
        elim (Bool-cases (elem (resolve_state_key w.resolved (part ∷ pending)) w.seen_states)) [
          | inl seen ↦ rw seen tt
          | inr new ↦ rw new (elim (Bool-cases (is_empty part || text_eq part dot)) [
            | inl skip ↦ rw skip (Inv-of_dirs pending w.resolved h)
            | inr go ↦ rw go (elim (Bool-cases (text_eq part dotdot)) [
              | inl up ↦ rw up (go_up-Inv _ pending w.resolved refl h)
              | inr down ↦ rw down (
                  enter_entry-Inv _ _ part pending h
                    (ap (λ k. lookup k idx.by_name) (candidate_of-join w.resolved part)))
            ])
          ])
        ]

    resolve_final-RealPath :
        (resolved : List Text) {m : TarMember}
        → Inv [] resolved
        → resolve_final idx resolved ≡ ok m
        → (ps : List Text) × RealPath ps m
    resolve_final-RealPath resolved h e =
        let found = resolve_final-eq-ok idx resolved e in
        (
          resolved,
          record { here = found; no_link = subst (λ o. NotLink o) found h.1; within = h.0 },
        )

    resolve_loop-RealPath :
        (left : ℕ) (w : Walk) (pending : List Text) {m : TarMember}
        → Inv pending w.resolved
        → resolve_loop left idx w pending ≡ ok m
        → (ps : List Text) × RealPath ps m
    unfolding resolve_loop
    resolve_loop-RealPath zero w [] h e = resolve_final-RealPath w.resolved h e
    resolve_loop-RealPath (suc left) w [] h e = resolve_final-RealPath w.resolved h e
    resolve_loop-RealPath zero w (part ∷ pending) h e = absurd (cc)
    resolve_loop-RealPath (suc left) w (part ∷ pending) h e =
        let ((pending', w'), s, later) =
          bind-eq-ok (resolve_step idx w part pending) (λ r. resolve_loop left idx r.1 r.0) e in
        resolve_loop-RealPath left w' pending' (rw s at (resolve_step-Inv w part pending h)) later

    -- In an index whose entry for the root itself, if it has one, is no symlink and no hardlink: a
    -- member that `resolve` returns is indexed, is no symlink and no hardlink, and each proper prefix
    -- of the path at which it is indexed is a directory of the archive.
    pub resolve-RealPath :
        (key : Text) {m : TarMember} → resolve idx key ≡ ok m → (ps : List Text) × RealPath ps m
    unfolding resolve
    resolve-RealPath key = resolve_loop-RealPath _ start_walk (key_parts key) (Inv-of_dirs _ [] tt)
