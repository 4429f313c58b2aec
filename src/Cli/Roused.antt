-- ===== src/Cli/Roused.antt =====
-- Mount commands do not wake a quiesced box.
use tx.Base.{ℕ, Bool, true, false, ◌≡◌, refl, ap, ◌∙◌, List, [], ◌∷◌, ◌++◌, ok, Option, none, some}
use tx.Box.Backed.{any_event}
use tx.Box.Create.{needed}
use tx.Box.Recreate.{recreate_agent}
use tx.Box.Runtime.{agent_quiesced}
use tx.Box.Saving.{MountJson, in_mounts, load_agent_mounts, save_agent_mounts}
use tx.Box.Listing.{token, get, list}
use tx.Box.{Box, Fault, lock_busy}
use tx.Box.Objects.{list_or_fail}
use tx.Cli.Common.{with_box_lock, locked, under_lock}
use tx.Cli.Gentle.{
  says_active, roused, IsGentle, recreate_agent-IsGentle, save_agent_mounts-IsGentle,
}
use tx.Cli.Mount.{
  prepare_unless, recreated, apply_agent_mounts, add_unless, add_mount, remove_if_found,
  remove_mount, cmd_mount_add, cmd_mount_remove, configured_at, kept_mounts,
}
use tx.Mounts.Clean.{clean}
use tx.Mounts.Prepare.{new_agent_mount}
use tx.Docker.Exec.{Exec, call, lift, continue}
use tx.Docker.Keeps.{continue-keeps, continue-ok}
use tx.Docker.{Engine, World, Event, Reply, done, not_found, failed}
use tx.Mounts.{AgentMount, Host}
use tx.Text.{Text}
use tx.Cli.Awake.{agent_quiesced-IsGentle, agent_quiesced-active, prepare_runtime-IsAwake}

module _ (engine : Engine) where
  token-IsGentle : (name : Text) (w : World engine) → IsGentle w.trace (token engine name w).1.trace
  unfolding token call roused any_event
  token-IsGentle name w = record { keeps_roused = λ r. r; keeps_active = λ a. a }

  get-IsGentle : (name : Text) (w : World engine) → IsGentle w.trace (get engine name w).1.trace
  unfolding get list call roused any_event
  get-IsGentle name w =
      let keeps = IsGentle w.trace in
      let look : keeps _ = record { keeps_roused = λ r. r; keeps_active = λ a. a } in
      let all : keeps (list engine w).1.trace =
        continue-keeps keeps (lift (list_or_fail (engine.list_box_containers w.state).0) _) _ look
          (λ cs. look) in
      continue-keeps keeps (list engine w) _ all (λ boxes. all)

  load_agent_mounts-IsGentle :
      (json : MountJson) (name : Text) (w : World engine)
      → IsGentle w.trace (load_agent_mounts engine json name w).1.trace
  unfolding load_agent_mounts call roused any_event
  load_agent_mounts-IsGentle json name w =
      let keeps = IsGentle w.trace in
      let look : keeps _ = record { keeps_roused = λ r. r; keeps_active = λ a. a } in
      continue-keeps keeps (lift (needed _) _) _ look (λ env. look)

  locked-roused :
      {A : Type 0} (name : Text) (body : Exec engine Fault A) (r : Reply (Unit {0}))
      (w : World engine)
      → ((v : World engine) → roused v.trace ≡ true → roused (body v).1.trace ≡ true)
      → roused w.trace ≡ true
      → roused (locked engine lock_busy name body r w).1.trace ≡ true
  unfolding locked under_lock call roused
  locked-roused name body (done u) w h p = h w p
  locked-roused name body not_found w h p = p
  locked-roused name body failed w h p = p

module _ (engine : Engine) (canceled_in : ℕ → Bool) (host : Host) (json : MountJson) where
  prepare_unless-roused :
      (b : Box) (tok : Text) (paused : Bool) (w : World engine)
      → roused w.trace ≡ true
      → (paused ≡ false → any_event says_active w.trace ≡ true)
      → roused (prepare_unless engine canceled_in host json b tok paused w).1.trace ≡ true
  unfolding prepare_unless
  prepare_unless-roused b tok true w r active = r
  prepare_unless-roused b tok false w r active =
      (prepare_runtime-IsAwake engine b tok canceled_in w
        (record { is_roused = r; was_active = active refl })).is_roused

  recreated-roused :
      (b : Box) (tok : Text) (was_running : Bool) (w : World engine)
      → roused w.trace ≡ true
      → roused (recreated engine canceled_in host json b tok was_running w).1.trace ≡ true
  unfolding recreated
  recreated-roused b tok false w r = r
  recreated-roused b tok true w r =
      let checked = (agent_quiesced-IsGentle engine b tok w).keeps_roused r in
      continue-ok (λ t. roused t ≡ true) (agent_quiesced engine b tok w) _ checked
        (λ paused is_paused.
          prepare_unless-roused b tok paused _ checked
            (λ off. agent_quiesced-active engine b tok w (is_paused ∙ ap ok off)))

  apply_agent_mounts-roused :
      (b : Box) (name : Text) (mounts : List AgentMount) (w : World engine)
      → roused w.trace ≡ true
      → roused (apply_agent_mounts engine canceled_in host json b name mounts w).1.trace ≡ true
  unfolding apply_agent_mounts
  apply_agent_mounts-roused b name mounts w r =
      let keeps : List Event → Type 0 = λ t. roused t ≡ true in
      let one = (token-IsGentle engine b.name w).keeps_roused r in
      continue-keeps keeps (token engine b.name w) _ one (λ tok.
        let two = (recreate_agent-IsGentle engine host b tok mounts _).keeps_roused one in
        continue-keeps keeps (recreate_agent engine host b tok mounts _) _ two (λ out.
          let three = (save_agent_mounts-IsGentle engine json name mounts _).keeps_roused two in
          continue-keeps keeps (save_agent_mounts engine json name mounts _) _ three
            (λ u. recreated-roused out.0 tok out.1 _ three)))

  -- What both commands do under the lock, up to the choice of what is applied.
  loaded-roused :
      (name : Text) (next : Box → List AgentMount → Exec engine Fault (Unit {0})) (w : World engine)
      → ((b : Box) (mounts : List AgentMount) (v : World engine)
          → roused v.trace ≡ true
          → roused (next b mounts v).1.trace ≡ true)
      → roused w.trace ≡ true
      → roused
          (continue
            (get engine name w).0
            (λ b v.
              continue
                (load_agent_mounts engine json name v).0
                (next b)
                (load_agent_mounts engine json name v).1)
            (get engine name w).1).1.trace
        ≡ true
  loaded-roused name next w h r =
      let keeps : List Event → Type 0 = λ t. roused t ≡ true in
      let one = (get-IsGentle engine name w).keeps_roused r in
      continue-keeps keeps (get engine name w) _ one (λ b.
        let two = (load_agent_mounts-IsGentle engine json name _).keeps_roused one in
        continue-keeps keeps (load_agent_mounts engine json name _) _ two
          (λ mounts. h b mounts _ two))

  add_unless-roused :
      (b : Box) (name : Text) (mount : AgentMount) (mounts : List AgentMount)
      (there : Option AgentMount) (w : World engine)
      → roused w.trace ≡ true
      → roused (add_unless engine canceled_in host json b name mount mounts there w).1.trace ≡ true
  unfolding add_unless
  add_unless-roused b name mount mounts none w r =
      apply_agent_mounts-roused b name (mounts ++ mount ∷ []) w r
  add_unless-roused b name mount mounts (some there) w r = r

  remove_if_found-roused :
      (b : Box) (name target : Text) (mounts : List AgentMount) (there : Option AgentMount)
      (w : World engine)
      → roused w.trace ≡ true
      → roused (remove_if_found engine canceled_in host json b name target mounts there w).1.trace
        ≡ true
  unfolding remove_if_found
  remove_if_found-roused b name target mounts none w r = r
  remove_if_found-roused b name target mounts (some there) w r =
      apply_agent_mounts-roused b name (kept_mounts target mounts) w r

  -- Neither adding a mount nor removing one wakes a quiesced box: `hb up` is run only after a check
  -- has answered that the box is not quiesced, however the run ends, if the calls before were so.
  pub cmd_mount-roused :
      (name source target : Text) (read_only require_mountpoint : Bool) (w : World engine)
      → roused w.trace ≡ true
      → (roused
            (cmd_mount_add engine canceled_in host json name source target read_only
              require_mountpoint w).1.trace
          ≡ true)
        × (roused (cmd_mount_remove engine canceled_in host json name target w).1.trace ≡ true)
  unfolding cmd_mount_add cmd_mount_remove with_box_lock call roused add_mount remove_mount
  cmd_mount-roused name source target read_only require_mountpoint w r = (
    continue-keeps (λ t. roused t ≡ true)
        (lift (in_mounts (new_agent_mount host source target read_only require_mountpoint)) w) _ r
        (λ mount.
          locked-roused engine name (add_mount engine canceled_in host json name mount) _ _
            (λ v.
              loaded-roused name
                (λ b mounts.
                  add_unless engine canceled_in host json b name mount mounts
                    (configured_at mount.target mounts))
                v (λ b mounts. add_unless-roused b name mount mounts _))
            r),
    locked-roused engine name (remove_mount engine canceled_in host json name (clean target)) _ _
        (λ v.
          loaded-roused name
            (λ b mounts.
              remove_if_found engine canceled_in host json b name (clean target) mounts
                (configured_at (clean target) mounts))
            v (λ b mounts. remove_if_found-roused b name (clean target) mounts _))
        r,
  )
