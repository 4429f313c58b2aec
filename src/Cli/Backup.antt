-- ===== src/Cli/Backup.antt =====
-- internal/cli/cmd_backup.go: what a backup runs in the box. What is printed is left out.
use tx.Base.{Bool, true, false, not, List, [], ◌∷◌, if◌then◌else◌, Result, ok, err, refuse_if}
use tx.Archive.Format.{Json, Members}
use tx.Archive.Gpg.{Gpg}
use tx.Box.Listing.{get, token}
use tx.Box.Runtime.{hb}
use tx.Box.{Box, Fault, missing_container}
use tx.Cli.Common.{with_box_lock, attempt}
use tx.Docker.Exec.{Exec, pure, lift, ◌>>=◌, ◌>>◌, exec}
use tx.Docker.{Engine}
use tx.Text.{Text, codes, is_empty}
use tx.Cli.BackupFile.{
  BackupFault, in_box, lock_busy, file_failed, Prompts, Files, BackupOptions, resolve_password,
  build_tar_script, tar_result, archived,
}

module _ (engine : Engine) where
  unfoldable pub boxed : {A : Type 0} → Result Fault A → Result BackupFault A
  boxed (ok a) = ok a
  boxed (err f) = err (in_box f)

  -- An action of the box package.
  abbrev pub of_box : {A : Type 0} → Exec engine Fault A → Exec engine BackupFault A
  of_box m w = let (r, w') = m w in (boxed r, w')

  abbrev pub is_paused : List Text
  is_paused = codes "is-paused" ∷ []

  abbrev pub pause : List Text
  pause = codes "pause" ∷ []

  abbrev pub resume : List Text
  resume = codes "resume" ∷ []

  -- What quiesceForBackup does once it is known whether the box is paused: whether the box is to be
  -- resumed, and the error.
  unfoldable pub quiesced :
      Box
      → Text
      → Result Fault (Unit {0})
      → Exec engine BackupFault (Bool × Result Fault (Unit {0}))
  quiesced b tok (ok u) = pure (false, ok tt)
  quiesced b tok (err f) = do r ← attempt engine (hb engine b tok pause); pure (true, r)

  unfoldable pub quiesce_for_backup :
      Box → Text → Exec engine BackupFault (Bool × Result Fault (Unit {0}))
  quiesce_for_backup b tok = do
    paused ← attempt engine (hb engine b tok is_paused)
    quiesced b tok paused

  -- The deferred resume, whose failure is only a warning.
  unfoldable pub resuming :
      {A : Type 0} → Bool → Box → Text → Exec engine BackupFault A → Exec engine BackupFault A
  resuming false b tok body w = body w
  resuming true b tok body w =
      let (r, w') = body w in let (r', w'') = hb engine b tok resume w' in (r, w'')

  unfoldable pub capture : Files → Box → Exec engine BackupFault Text
  capture files b = do
    lift (refuse_if (not files.can_open_raw) file_failed)
    reply ← exec engine b.agent_id (codes "bash" ∷ codes "-c" ∷ build_tar_script ∷ []) []
    lift (tar_result files.can_close_raw reply)

  -- What follows the quiescing.
  unfoldable pub backup_quiesced :
      Json
      → Gpg
      → Files
      → BackupOptions
      → Box
      → Text
      → Text
      → Result Fault (Unit {0})
      → Exec engine BackupFault Members
  backup_quiesced json g files opts b tok passphrase quiet = do
    lift (boxed quiet)
    of_box (hb engine b tok (codes "verify-state" ∷ codes "--checkpoint" ∷ []))
    of_box (hb engine b tok (codes "write-manifest" ∷ []))
    raw ← capture files b
    lift (archived json g files opts b passphrase raw)

  unfoldable pub backup_box :
      Json → Gpg → Files → BackupOptions → Text → Exec engine BackupFault Members
  backup_box json g files opts passphrase = do
    b ← of_box (get engine opts.name)
    lift (refuse_if (is_empty b.agent_id) (in_box missing_container))
    tok ← of_box (token engine opts.name)
    (we_quiesced, quiet) ← quiesce_for_backup b tok
    resuming we_quiesced b tok (backup_quiesced json g files opts b tok passphrase quiet)

  unfoldable pub passphrase_of : Prompts → BackupOptions → Result BackupFault Text
  passphrase_of prompts opts =
      if opts.encrypted then resolve_password prompts opts.password true else ok []

  -- cmdBackup, after its flags: the archive that is at the final path.
  unfoldable pub cmd_backup :
      Json → Gpg → Files → Prompts → BackupOptions → Exec engine BackupFault Members
  cmd_backup json g files prompts opts = do
    lift (refuse_if (not files.can_make_dir) file_failed)
    passphrase ← lift (passphrase_of prompts opts)
    with_box_lock engine lock_busy opts.name (backup_box json g files opts passphrase)
