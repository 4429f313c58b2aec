-- ===== src/Cli/BackupFile.antt =====
-- internal/cli/cmd_backup.go: the archive that is made of the captured data, and the passphrase. The
-- calls of the operating system succeed or not as `Files` says.
use tx.Base.{
  length, ℕ, Bool, true, false, not, ◌||◌, ◌==◌, Option, none, some, List, [], ◌∷◌, ◌++◌,
  if◌then◌else◌, Result, ok, err, refuse_if, ◌>>=◌, ◌>>◌,
}
use tx.Archive.Format.{Json, Metadata, Members, DataFile, Output, FormatFault, write_tx9}
use tx.Archive.Gpg.{Gpg, GpgFault, encrypt, verify_encrypted}
use tx.Archive.Validate.{validate_data_tar, max_archive_members}
use tx.Box.{Box, Fault, engine_failed}
use tx.Decimal.{pos}
use tx.Docker.{Reply, done, not_found, failed, ExecResult}
use tx.Text.{Text, codes, Bytes, is_empty, text_eq}

pub data BackupFault : Type 0 where
  in_box : Fault → BackupFault
  unsafe_archive : tx.Archive.Fault → BackupFault
  in_gpg : GpgFault → BackupFault
  in_format : FormatFault → BackupFault
  tar_exited : ℕ → BackupFault
  lock_busy file_failed : BackupFault
  no_password empty_password password_mismatch : BackupFault

-- What the operator types and TX9_PASSWORD; a prompt that cannot be read is none.
pub record Prompts : Type 0 where
  pub env_password : Text
  pub first : Option Text
  pub second : Option Text

unfoldable pub typed : Option Text → Result BackupFault Text
typed none = err no_password
typed (some pw) = ok pw

unfoldable pub confirmed : Bool → Option Text → Text → Result BackupFault Text
confirmed false again pw = ok pw
confirmed true none pw = err no_password
confirmed true (some pw2) pw = if not (text_eq pw2 pw) then err password_mismatch else ok pw

unfoldable pub prompted : Prompts → Bool → Result BackupFault Text → Result BackupFault Text
prompted prompts confirm (err f) = err f
prompted prompts confirm (ok pw) =
    if is_empty pw then err empty_password else confirmed confirm prompts.second pw

-- resolvePassword
unfoldable pub resolve_password : Prompts → Text → Bool → Result BackupFault Text
resolve_password prompts flag_val confirm =
    if not (is_empty flag_val)
    then ok flag_val
    else if not (is_empty prompts.env_password)
    then ok prompts.env_password
    else prompted prompts confirm (typed prompts.first)

abbrev tar_exclusions : List Text
tar_exclusions =
    codes "./home/agent/.config/hermes-box/quiesced"
    ∷ codes "./home/agent/.codex/tmp"
    ∷ codes "./home/agent/.hermes/tmp"
    ∷ codes "./home/agent/.local/bin/claude"
    ∷ codes "./home/agent/.local/bin/codex"
    ∷ codes "*/node_modules"
    ∷ codes "*/.venv"
    ∷ codes "*/venv"
    ∷ codes "*/__pycache__"
    ∷ codes "*/.cache"
    ∷ codes "*.pyc"
    ∷ codes "*.pyo"
    ∷ codes "*/.hermes/*.db-wal"
    ∷ codes "*/.hermes/*.db-shm"
    ∷ codes "*/.hermes/*.db-journal"
    ∷ codes "*/gateway.pid"
    ∷ codes "*/cron.pid"
    ∷ codes "*/gateway.lock"
    ∷ codes "*/processes.json"
    ∷ []

-- %q of these texts, which have no character that it escapes.
unfoldable pub exclude_args : List Text → Text
exclude_args [] = []
exclude_args (ex ∷ exs) = codes " --exclude=\"" ++ (ex ++ (codes "\"" ++ exclude_args exs))

unfoldable pub build_tar_script : Text
build_tar_script =
    codes "set -euo pipefail; umask 077; sync\n"
    ++ (codes "tar czf - -C /data" ++ (exclude_args tar_exclusions ++ codes " ."))

-- Which calls of the operating system succeed, in their order: the output directory, the file for
-- the data, its close, the encrypted file, the staged archive, what is written to it, its flush and
-- close. The name of the data file, whether there is a file at the final path already, and the time.
pub record Files : Type 0 where
  pub can_make_dir : Bool
  pub can_open_raw : Bool
  pub can_close_raw : Bool
  pub encrypted_file : Output
  pub can_stage : Bool
  pub can_write : Bool
  pub can_finish : Bool
  pub raw_path : Text
  pub is_taken : Bool
  pub now : Text

pub record BackupOptions : Type 0 where
  pub name : Text
  pub password : Text
  pub encrypted : Bool
  pub cli_version : Text

unfoldable pub tar_result : Bool → Reply ExecResult → Result BackupFault Bytes
tar_result closes (done r) =
    if not closes
    then err file_failed
    else if not (r.exit_code == 0)
    then err (tar_exited r.exit_code)
    else ok r.stdout
tar_result closes not_found = err (in_box engine_failed)
tar_result closes failed = err (in_box engine_failed)

unfoldable pub metadata_of : Files → BackupOptions → Box → Metadata
metadata_of files opts b = record {
  box_name = opts.name;
  created_at = files.now;
  cli_version = opts.cli_version;
  image_version = b.version;
  encrypted = opts.encrypted;
  format_version = pos 0;
}

unfoldable pub checked : Result tx.Archive.Fault (Unit {0}) → Result BackupFault (Unit {0})
checked (ok u) = ok u
checked (err f) = err (unsafe_archive f)

unfoldable pub verified : Result GpgFault (Unit {0}) → Bytes → Result BackupFault Bytes
verified (ok u) content = ok content
verified (err f) content = err (in_gpg f)

-- The encrypted file is verified before it is used.
unfoldable pub encrypted_content :
    Gpg → Text → Text → Result GpgFault (Unit {0}) × Option Bytes → Result BackupFault Bytes
encrypted_content g path passphrase (ok u, some content) =
    verified (verify_encrypted g path content passphrase) content
encrypted_content g path passphrase (ok u, none) = err file_failed
encrypted_content g path passphrase (err f, dst) = err (in_gpg f)

unfoldable pub payload : Gpg → Files → Bool → Text → Bytes → Result BackupFault Bytes
payload g files false passphrase raw = ok raw
payload g files true passphrase raw =
    encrypted_content g (files.raw_path ++ codes ".gpg") passphrase
      (encrypt g files.encrypted_file (some raw) none passphrase)

unfoldable pub formatted : Result FormatFault Members → Result BackupFault Members
formatted (ok members) = ok members
formatted (err f) = err (in_format f)

-- writeTx9Staged, and os.Link, which leaves a file that is there alone.
unfoldable pub placed : Json → Files → Metadata → Bytes → Result BackupFault Members
placed json files meta content = do
  refuse_if (not files.can_stage) file_failed
  let df : DataFile = record { size = length content; content = content }
  members ← formatted (write_tx9 json meta (some df) files.can_write)
  refuse_if (not files.can_finish || files.is_taken) file_failed
  ok members

-- What is done with the captured data.
unfoldable pub archived :
    Json → Gpg → Files → BackupOptions → Box → Text → Bytes → Result BackupFault Members
archived json g files opts b passphrase raw = do
  checked (validate_data_tar max_archive_members (g.as_stream raw))
  content ← payload g files opts.encrypted passphrase raw
  placed json files (metadata_of files opts b) content
