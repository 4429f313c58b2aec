-- ===== src/Cli/Gentle.antt =====
-- The steps of a mount command that run no `hb up`.
use tx.Base.{
  arith, Bool, true, false, not, ◌&&◌, ◌≡◌, refl, List, [], ◌∷◌, Result, ok, err, Bool-cases, inl,
  inr, if◌then◌else◌,
}
use tx.Box.Backed.{any_event}
use tx.Box.Create.{
  needed, ensure_network, ensure_volume, ensured_network, ensured_volume, prepared_mounts,
}
use tx.Box.Recreate.{
  Existing, existing_reply, image_configures_mount_groups, entrypoint_configures, stop_if, start_if,
  late_groups, replace_agent, recreate_agent, configure_agent_mount_groups, group_result,
}
use tx.Box.Runtime.{quiesced_result, quiesce_script}
use tx.Box.Saving.{MountJson, save_agent_mounts, update_env, valid_mounts, with_mounts}
use tx.Box.{Box, Fault}
use tx.Cli.Paired.{last_word}
use tx.Docker.Exec.{call, lift}
use tx.Docker.Keeps.{continue-keeps}
use tx.Docker.{
  Engine, World, Event, Reply, done, not_found, failed, exec_ran, NetworkInfo, Labels, ExecResult,
}
use tx.Mounts.{AgentMount, Host}
use tx.Text.{Text, codes, text_eq, is_empty}

abbrev first_word : List Text → Text
first_word [] = []
first_word (word ∷ words) = word

-- A run of `hb up`.
abbrev pub wakes : Event → Bool
wakes (exec_ran id cmd reply) =
    text_eq (first_word cmd) (codes "runuser") && text_eq (last_word cmd) (codes "up")
wakes _ = false

abbrev is_active : Result Fault Bool → Bool
is_active (ok paused) = not paused
is_active (err f) = false

-- A check of whether the box is quiesced, with the answer that it is not.
abbrev pub says_active : Event → Bool
says_active (exec_ran id cmd reply) =
    is_active (quiesced_result reply) && text_eq (last_word cmd) quiesce_script
says_active _ = false

-- Every `hb up` comes after a check that the box is not quiesced.
unfoldable pub roused : List Event → Bool
roused [] = true
roused (e ∷ es) = (if wakes e then any_event says_active es else true) && roused es

-- From the first calls to the second, `hb up` is run only after a check, and checks stay.
pub record IsGentle (t u : List Event) : Type 0 where
  pub keeps_roused : roused t ≡ true → roused u ≡ true
  pub keeps_active : any_event says_active t ≡ true → any_event says_active u ≡ true

pub IsGentle-refl : (t : List Event) → IsGentle t t
IsGentle-refl t = record { keeps_roused = λ r. r; keeps_active = λ a. a }

IsGentle-trans : {t u v : List Event} → IsGentle t u → IsGentle u v → IsGentle t v
IsGentle-trans a b = record {
  keeps_roused = λ r. b.keeps_roused (a.keeps_roused r);
  keeps_active = λ x. b.keeps_active (a.keeps_active x);
}

-- An exec that is no `hb up`.
pub exec_ran-IsGentle :
    (id : Text) (cmd : List Text) (reply : Reply ExecResult) (t : List Event)
    → wakes (exec_ran id cmd reply) ≡ false
    → IsGentle t (exec_ran id cmd reply ∷ t)
unfolding roused any_event
exec_ran-IsGentle id cmd reply t sleeps = record {
  keeps_roused = λ r. rw (sleeps, r) refl;
  keeps_active = λ a. ground arith;
}

module _ (engine : Engine) where
  ensured_network-IsGentle :
      (net_name box_name ver : Text) (r : Reply NetworkInfo) (w : World engine)
      → IsGentle w.trace (ensured_network engine net_name box_name ver r w).1.trace
  unfolding ensured_network call roused any_event
  ensured_network-IsGentle net_name box_name ver (done info) w = IsGentle-refl w.trace
  ensured_network-IsGentle net_name box_name ver not_found w = record {
    keeps_roused = λ r. r;
    keeps_active = λ a. a;
  }
  ensured_network-IsGentle net_name box_name ver failed w = IsGentle-refl w.trace

  ensured_volume-IsGentle :
      (vol_name box_name ver : Text) (r : Reply Labels) (w : World engine)
      → IsGentle w.trace (ensured_volume engine vol_name box_name ver r w).1.trace
  unfolding ensured_volume call roused any_event
  ensured_volume-IsGentle vol_name box_name ver (done info) w = IsGentle-refl w.trace
  ensured_volume-IsGentle vol_name box_name ver not_found w = record {
    keeps_roused = λ r. r;
    keeps_active = λ a. a;
  }
  ensured_volume-IsGentle vol_name box_name ver failed w = IsGentle-refl w.trace

  ensure_network-IsGentle :
      (net_name box_name ver : Text) (w : World engine)
      → IsGentle w.trace (ensure_network engine net_name box_name ver w).1.trace
  unfolding ensure_network call roused any_event
  ensure_network-IsGentle net_name box_name ver w =
      let look : IsGentle w.trace _ = record { keeps_roused = λ r. r; keeps_active = λ a. a } in
      IsGentle-trans look (ensured_network-IsGentle net_name box_name ver _ _)

  ensure_volume-IsGentle :
      (vol_name box_name ver : Text) (w : World engine)
      → IsGentle w.trace (ensure_volume engine vol_name box_name ver w).1.trace
  unfolding ensure_volume call roused any_event
  ensure_volume-IsGentle vol_name box_name ver w =
      let look : IsGentle w.trace _ = record { keeps_roused = λ r. r; keeps_active = λ a. a } in
      IsGentle-trans look (ensured_volume-IsGentle vol_name box_name ver _ _)

  entrypoint_configures-IsGentle :
      (groups : List Text) (old : Existing) (w : World engine)
      → IsGentle w.trace (entrypoint_configures engine groups old w).1.trace
  unfolding entrypoint_configures image_configures_mount_groups call roused any_event
  entrypoint_configures-IsGentle [] old w = IsGentle-refl w.trace
  entrypoint_configures-IsGentle (g ∷ gs) old w =
      let out = image_configures_mount_groups engine old.image w in
      let probed : IsGentle w.trace out.1.trace = record {
        keeps_roused = λ r. r;
        keeps_active = λ a. a;
      } in
      continue-keeps (IsGentle w.trace) out _ probed (λ c. probed)

  stop_if-IsGentle :
      (running : Bool) (id : Text) (w : World engine)
      → IsGentle w.trace (stop_if engine running id w).1.trace
  unfolding stop_if call roused any_event
  stop_if-IsGentle false id w = IsGentle-refl w.trace
  stop_if-IsGentle true id w = record { keeps_roused = λ r. r; keeps_active = λ a. a }

  start_if-IsGentle :
      (running : Bool) (id : Text) (w : World engine)
      → IsGentle w.trace (start_if engine running id w).1.trace
  unfolding start_if call roused any_event
  start_if-IsGentle false id w = IsGentle-refl w.trace
  start_if-IsGentle true id w = record { keeps_roused = λ r. r; keeps_active = λ a. a }

  configure_agent_mount_groups-IsGentle :
      (id : Text) (groups : List Text) (w : World engine)
      → IsGentle w.trace (configure_agent_mount_groups engine id groups w).1.trace
  unfolding configure_agent_mount_groups call text_eq
  configure_agent_mount_groups-IsGentle id [] w = IsGentle-refl w.trace
  configure_agent_mount_groups-IsGentle id (group ∷ groups) w =
      let ran = exec_ran-IsGentle id _ _ w.trace refl in
      continue-keeps (IsGentle w.trace) (lift (group_result _) _) _ ran
        (λ u. IsGentle-trans ran (configure_agent_mount_groups-IsGentle id groups _))

  late_groups-IsGentle :
      (late : Bool) (id : Text) (groups : List Text) (w : World engine)
      → IsGentle w.trace (late_groups engine late id groups w).1.trace
  unfolding late_groups call roused any_event
  late_groups-IsGentle false id groups w = IsGentle-refl w.trace
  late_groups-IsGentle true id groups w =
      let keeps = IsGentle w.trace in
      let set = configure_agent_mount_groups-IsGentle id groups w in
      continue-keeps keeps (configure_agent_mount_groups engine id groups w) _ set (λ u.
        let stopped : keeps _ =
          IsGentle-trans set (record { keeps_roused = λ r. r; keeps_active = λ a. a }) in
        continue-keeps keeps (lift (needed _) _) _ stopped
          (λ u'. IsGentle-trans stopped (record { keeps_roused = λ r. r; keeps_active = λ a. a })))

  replace_agent-IsGentle :
      (b : Box) (tok : Text) (binds groups : List Text) (old : Existing) (configures : Bool)
      (net_id : Text) (w : World engine)
      → IsGentle w.trace (replace_agent engine b tok binds groups old configures net_id w).1.trace
  unfolding replace_agent call roused any_event
  replace_agent-IsGentle b tok binds groups old configures net_id w =
      let keeps = IsGentle w.trace in
      let one = stop_if-IsGentle old.running b.agent_id w in
      continue-keeps keeps (stop_if engine old.running b.agent_id w) _ one (λ u.
        let two : keeps _ =
          IsGentle-trans one (record { keeps_roused = λ r. r; keeps_active = λ a. a }) in
        continue-keeps keeps (lift (needed _) _) _ two (λ u'.
          let three : keeps _ =
            IsGentle-trans two (record { keeps_roused = λ r. r; keeps_active = λ a. a }) in
          continue-keeps keeps (lift (needed _) _) _ three (λ id.
            let four = IsGentle-trans three (start_if-IsGentle old.running id _) in
            continue-keeps keeps (start_if engine old.running id _) _ four (λ u''.
              let five = IsGentle-trans four (late_groups-IsGentle _ id groups _) in
              continue-keeps keeps (late_groups engine _ id groups _) _ five (λ u3. five)))))

  pub recreate_agent-IsGentle :
      (host : Host) (b : Box) (tok : Text) (mounts : List AgentMount) (w : World engine)
      → IsGentle w.trace (recreate_agent engine host b tok mounts w).1.trace
  unfolding recreate_agent call roused any_event
  recreate_agent-IsGentle host b tok mounts w =
      let keeps = IsGentle w.trace in
      let none = IsGentle-refl w.trace in
      elim (Bool-cases (is_empty b.agent_id)) [
        | inl missing ↦ rw (missing, recreate_agent) none
        | inr there ↦
            rw (there, recreate_agent)
              (continue-keeps keeps (lift (prepared_mounts host mounts) w) _ none (λ prepared.
                let look : keeps _ = record { keeps_roused = λ r. r; keeps_active = λ a. a } in
                continue-keeps keeps (lift (existing_reply b.agent_id b.name _) _) _ look (λ old.
                  let one = IsGentle-trans look (entrypoint_configures-IsGentle prepared.1 old _) in
                  continue-keeps keeps (entrypoint_configures engine prepared.1 old _) _ one
                    (λ configures.
                      let two = IsGentle-trans one (ensure_network-IsGentle _ _ _ _) in
                      continue-keeps keeps (ensure_network engine _ _ _ _) _ two (λ net_id.
                        let three = IsGentle-trans two (ensure_volume-IsGentle _ _ _ _) in
                        continue-keeps keeps (ensure_volume engine _ _ _ _) _ three (λ v.
                          IsGentle-trans three (
                            replace_agent-IsGentle b tok prepared.0 prepared.1 old configures net_id
                              _)))))))
      ]

  pub save_agent_mounts-IsGentle :
      (json : MountJson) (name : Text) (mounts : List AgentMount) (w : World engine)
      → IsGentle w.trace (save_agent_mounts engine json name mounts w).1.trace
  unfolding save_agent_mounts update_env call roused any_event
  save_agent_mounts-IsGentle json name mounts w =
      let keeps = IsGentle w.trace in
      continue-keeps keeps (lift (valid_mounts mounts) w) _ (IsGentle-refl w.trace) (λ valid.
        let one : keeps _ = record { keeps_roused = λ r. r; keeps_active = λ a. a } in
        continue-keeps keeps (lift (needed _) _) _ one (λ env.
          continue-keeps keeps (lift (with_mounts json valid env) _) _ one (λ changed.
            IsGentle-trans one (record { keeps_roused = λ r. r; keeps_active = λ a. a }))))
