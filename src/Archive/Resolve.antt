-- ===== src/Archive/Resolve.antt =====
-- memberIndex.resolve and resolveStateKey of validator.go.
use tx.Base.{
  ℕ, zero, suc, ◌+◌, ◌*◌, Bool, true, false, not, ◌&&◌, ◌||◌, Option, none, some, List, [], ◌∷◌,
  ◌++◌, ltb, if◌then◌else◌, length, ok, err, ◌>>=◌,
}
use tx.Dict.{elem, lookup}
use tx.Text.Split.{split, join}
use tx.Text.{Text, is_empty, text_eq}
use tx.Archive.{
  TarMember, is_link, MemberIndex, chain_too_long, link_cycle, walk_escapes, through_non_directory,
  missing_member, Checked,
}
use tx.Archive.Paths.{slash, slashes, dot, dotdot, link_parts, drop_last}

abbrev pub max_archive_link_hops : ℕ
max_archive_link_hops = 40

unfoldable pub resolve_state_key : List Text → List Text → Text
unfolding join
resolve_state_key resolved pending = join (0 ∷ []) resolved ++ (1 ∷ join (0 ∷ []) pending)

-- strings.Split(key, "/"), or nothing for the empty key
unfoldable pub key_parts : Text → List Text
unfolding is_empty
key_parts key = if is_empty key then [] else split slash key

-- The path that the lookup of one more segment reads.
unfoldable pub candidate_of : List Text → Text → Text
unfolding join
candidate_of [] part = part
candidate_of (r ∷ rs) part = join slashes (r ∷ rs) ++ (slash ∷ part)

-- The variables of the loop; `linkHops` counts the links that were followed.
pub record Walk : Type 0 where
  pub resolved : List Text
  pub seen_states : List Text
  pub link_hops : ℕ

-- What one round of the loop does with the segment that it takes off `pending`: the new `pending`
-- and the new variables.
unfoldable pub follow_link : Walk → TarMember → List Text → Checked (List Text × Walk)
follow_link w entry pending =
    if ltb max_archive_link_hops (w.link_hops + 1) then err chain_too_long else do
      target ← link_parts entry.linkname
      ok (
        (if entry.is_symlink then w.resolved else []) ++ (target ++ pending),
        record w { resolved = []; link_hops = w.link_hops + 1 },
      )

abbrev pub is_dir_member : Option TarMember → Bool
is_dir_member none = false
is_dir_member (some m) = m.is_dir

abbrev pub has_more : List Text → Bool
has_more [] = false
has_more (_ ∷ _) = true

-- The segment names no link: it must be a directory if more segments follow.
unfoldable pub descend : Walk → Option TarMember → Text → List Text → Checked (List Text × Walk)
descend w entry part pending =
    if has_more pending && not (is_dir_member entry)
    then err through_non_directory
    else ok (pending, record w { resolved = w.resolved ++ part ∷ [] })

unfoldable pub enter_entry : Walk → Option TarMember → Text → List Text → Checked (List Text × Walk)
unfolding follow_link descend
enter_entry w none part pending = descend w none part pending
enter_entry w (some entry) part pending =
    if is_link entry then follow_link w entry pending else descend w (some entry) part pending

unfoldable pub go_up : Walk → List Text → Checked (List Text × Walk)
go_up w pending = elim w.resolved [
  | [] ↦ err walk_escapes
  | r ∷ rs ↦ ok (pending, record w { resolved = drop_last (r ∷ rs) })
]

unfoldable pub resolve_step : MemberIndex → Walk → Text → List Text → Checked (List Text × Walk)
unfolding enter_entry go_up
resolve_step idx w part pending =
    let state = resolve_state_key w.resolved (part ∷ pending) in
    if elem state w.seen_states
    then err link_cycle
    else let w' = record w { seen_states = state ∷ w.seen_states } in
      if is_empty part || text_eq part dot
      then ok (pending, w')
      else if text_eq part dotdot
      then go_up w' pending
      else enter_entry w' (lookup (candidate_of w.resolved part) idx.by_name) part pending

-- Behind the loop.
unfoldable pub resolve_final : MemberIndex → List Text → Checked TarMember
resolve_final idx resolved = elim (lookup (join slashes resolved) idx.by_name) [
  | none ↦ err missing_member
  | some entry ↦ ok entry
]

-- The loop; the first argument is `maxSteps - steps`.
unfoldable pub resolve_loop : ℕ → MemberIndex → Walk → List Text → Checked TarMember
unfolding resolve_step resolve_final
resolve_loop left idx w [] = resolve_final idx w.resolved
resolve_loop zero idx w (part ∷ pending) = err chain_too_long
resolve_loop (suc left) idx w (part ∷ pending) = do
  (pending', w') ← resolve_step idx w part pending
  resolve_loop left idx w' pending'

abbrev pub start_walk : Walk
start_walk = record { resolved = []; seen_states = []; link_hops = 0 }

unfoldable pub resolve : MemberIndex → Text → Checked TarMember
unfolding resolve_loop key_parts
resolve idx key = resolve_loop (length idx.order * 8 + 32) idx start_walk (key_parts key)
