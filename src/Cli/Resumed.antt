-- ===== src/Cli/Resumed.antt =====
-- A backup that paused the box resumes it.
use tx.Base.{false, not, ◌≡◌, refl, [], refuse_if, refuse_if-eq-ok}
use tx.Archive.Format.{Json}
use tx.Archive.Gpg.{Gpg}
use tx.Box.Listing.{get, list, token}
use tx.Box.Objects.{list_or_fail}
use tx.Box.Runtime.{hb}
use tx.Box.{Box, missing_container}
use tx.Cli.Backup.{
  of_box, is_paused, quiesce_for_backup, resuming, backup_quiesced, backup_box, cmd_backup,
  passphrase_of,
}
use tx.Cli.BackupFile.{BackupFault, in_box, lock_busy, file_failed, Prompts, Files, BackupOptions}
use tx.Cli.Common.{with_box_lock, locked, under_lock}
use tx.Docker.Exec.{Exec, call, lift, continue}
use tx.Docker.Keeps.{continue-keeps, continue-ok}
use tx.Docker.{Engine, World, Reply, done, not_found, failed}
use tx.Text.{Text, codes, text_eq, is_empty}
use tx.Cli.Paired.{
  pending, proper, IsPaired, IsQuiet, IsPaired-IsQuiet, hb-IsQuiet, resuming-IsPaired,
}

module _ (engine : Engine) where
  get-IsQuiet : (name : Text) (w : World engine) → IsQuiet w.trace (get engine name w).1.trace
  unfolding get list call pending proper
  get-IsQuiet name w =
      let keeps = IsQuiet w.trace in
      let look : keeps (list engine w).1.trace =
        continue-keeps keeps (lift (list_or_fail (engine.list_box_containers w.state).0) _) _
          (record { same_pending = refl; keeps_proper = λ p. p })
          (λ cs. record { same_pending = refl; keeps_proper = λ p. p }) in
      continue-keeps keeps (list engine w) _ look (λ boxes. look)

  token-IsQuiet : (name : Text) (w : World engine) → IsQuiet w.trace (token engine name w).1.trace
  unfolding token call pending proper
  token-IsQuiet name w = record { same_pending = refl; keeps_proper = λ p. p }

  quiesce-IsPaired :
      (json : Json) (g : Gpg) (files : Files) (opts : BackupOptions) (b : Box)
      (tok passphrase : Text) (w : World engine)
      → is_empty b.agent_id ≡ false
      → IsPaired w.trace
      → IsPaired
          (continue
            (quiesce_for_backup engine b tok w).0
            (λ q.
              resuming engine q.0 b tok
                (backup_quiesced engine json g files opts b tok passphrase q.1))
            (quiesce_for_backup engine b tok w).1).1.trace
  unfolding quiesce_for_backup text_eq
  quiesce-IsPaired json g files opts b tok passphrase w there p =
      let out = hb engine b tok (is_paused engine) w in
      resuming-IsPaired engine b tok json g files opts passphrase out.0 out.1 there
        (IsPaired-IsQuiet (hb-IsQuiet engine b tok (codes "is-paused") [] w there refl refl) p)

  backup_box-IsPaired :
      (json : Json) (g : Gpg) (files : Files) (opts : BackupOptions) (passphrase : Text)
      (w : World engine)
      → IsPaired w.trace
      → IsPaired (backup_box engine json g files opts passphrase w).1.trace
  unfolding backup_box
  backup_box-IsPaired json g files opts passphrase w p =
      let one = IsPaired-IsQuiet (get-IsQuiet opts.name w) p in
      continue-keeps IsPaired (of_box engine (get engine opts.name) w) _ one (λ b.
        continue-ok IsPaired
          (lift (refuse_if (is_empty b.agent_id) (in_box missing_container))
            (get engine opts.name w).1)
          _ one
          (λ u passed.
            let there = refuse_if-eq-ok (is_empty b.agent_id) _ passed in
            let two = IsPaired-IsQuiet (token-IsQuiet opts.name _) one in
            continue-keeps IsPaired (of_box engine (token engine opts.name) _) _ two
              (λ tok. quiesce-IsPaired json g files opts b tok passphrase _ there two)))

  locked-IsPaired :
      {A : Type 0} (name : Text) (body : Exec engine BackupFault A) (r : Reply (Unit {0}))
      (w : World engine)
      → ((v : World engine) → IsPaired v.trace → IsPaired (body v).1.trace)
      → IsPaired w.trace
      → IsPaired (locked engine lock_busy name body r w).1.trace
  unfolding locked under_lock call pending proper
  locked-IsPaired name body (done u) w h p =
      let after = h w p in record { none_pending = after.none_pending; is_proper = after.is_proper }
  locked-IsPaired name body not_found w h p = p
  locked-IsPaired name body failed w h p = p

  -- A backup that paused the box has resumed it when it ends, also where it fails, and it resumes
  -- no box that it did not pause: whatever the engine replies, every run of `hb resume` has a run of
  -- `hb pause` before it with no other `hb resume` between them, and none of `hb pause` is left
  -- without one, if the calls before were so.
  pub cmd_backup-IsPaired :
      (json : Json) (g : Gpg) (files : Files) (prompts : Prompts) (opts : BackupOptions)
      (w : World engine)
      → IsPaired w.trace
      → IsPaired (cmd_backup engine json g files prompts opts w).1.trace
  unfolding cmd_backup with_box_lock call pending proper
  cmd_backup-IsPaired json g files prompts opts w p =
      continue-keeps IsPaired (lift (refuse_if (not files.can_make_dir) file_failed) w) _ p (λ u.
        continue-keeps IsPaired (lift (passphrase_of engine prompts opts) w) _ p (λ passphrase.
          locked-IsPaired opts.name (backup_box engine json g files opts passphrase) _ _
            (backup_box-IsPaired json g files opts passphrase)
            (record { none_pending = p.none_pending; is_proper = p.is_proper })))
