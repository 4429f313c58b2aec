-- ===== src/Cli/Restored.antt =====
-- internal/cli/cmd_import.go: what is read of the archive before anything is created. The calls of the
-- operating system succeed or not as `ImportFiles` says.
use tx.Base.{
  ℕ, Bool, true, false, not, Option, none, some, [], if◌then◌else◌, Result, ok, err, refuse_if,
  ◌>>=◌, ◌>>◌,
}
use tx.Archive.Format.{Json, Metadata, Members, Output, FormatFault, read_metadata, extract_data}
use tx.Archive.Gpg.{Gpg, GpgFault, decrypt}
use tx.Archive.Validate.{validate_data_tar, max_archive_members}
use tx.Box.Create.{CreateFault}
use tx.Box.Specs.{ExecutorConfig}
use tx.Box.{Fault}
use tx.Cli.BackupFile.{BackupFault, Prompts, resolve_password}
use tx.Names.{NameFault, validate}
use tx.Resources.{Resources}
use tx.Text.{Text, Bytes, is_empty}

pub data ImportFault : Type 0 where
  in_box : Fault → ImportFault
  in_create : CreateFault → ImportFault
  in_format : FormatFault → ImportFault
  in_gpg : GpgFault → ImportFault
  unsafe_archive : tx.Archive.Fault → ImportFault
  bad_name : NameFault → ImportFault
  bad_password : BackupFault → ImportFault
  restore_exited : ℕ → ImportFault
  lock_busy box_exists not_minted file_failed : ImportFault

-- The temporary directory, the extracted and the decrypted file, whether the data can be opened
-- again, their path, and the token that is minted.
pub record ImportFiles : Type 0 where
  pub can_make_dir : Bool
  pub extracted : Output
  pub decrypted : Output
  pub can_reopen : Bool
  pub payload_path : Text
  pub data_path : Text
  pub token : Option Text

-- The flags, with what they resolve to for the executor and the resources; version.Version.
pub record ImportOptions : Type 0 where
  pub name_override : Text
  pub password : Text
  pub prompts : Prompts
  pub executor : ExecutorConfig
  pub resources : Resources
  pub version : Text

unfoldable pub formatted : {A : Type 0} → Result FormatFault A → Result ImportFault A
formatted (ok a) = ok a
formatted (err f) = err (in_format f)

unfoldable pub named : Result NameFault (Unit {0}) → Result ImportFault (Unit {0})
named (ok u) = ok u
named (err f) = err (bad_name f)

unfoldable pub resolved : Result BackupFault Text → Result ImportFault Text
resolved (ok pw) = ok pw
resolved (err f) = err (bad_password f)

unfoldable pub checked : Result tx.Archive.Fault (Unit {0}) → Result ImportFault (Unit {0})
checked (ok u) = ok u
checked (err f) = err (unsafe_archive f)

unfoldable pub minted : Option Text → Result ImportFault Text
minted none = err not_minted
minted (some tok) = ok tok

unfoldable pub passphrase_of : ImportOptions → Bool → Result ImportFault Text
passphrase_of opts true = resolved (resolve_password opts.prompts opts.password false)
passphrase_of opts false = ok []

-- What is settled before the lock is taken: the metadata, the name and the passphrase.
unfoldable pub opened :
    Json → ImportOptions → Members → Result ImportFault (Metadata × (Text × Text))
opened json opts archive = do
  meta ← formatted (read_metadata json (some archive))
  let name = if is_empty opts.name_override then meta.box_name else opts.name_override
  named (validate name)
  passphrase ← passphrase_of opts meta.encrypted
  ok (meta, (name, passphrase))

-- The file that was extracted or decrypted; one that succeeded is there.
unfoldable pub content_of : Option Bytes → Result ImportFault Bytes
content_of none = err file_failed
content_of (some content) = ok content

unfoldable pub extracted_content :
    Result FormatFault Metadata × Option Bytes → Result ImportFault Bytes
extracted_content (ok meta, dest) = content_of dest
extracted_content (err f, dest) = err (in_format f)

unfoldable pub decrypted_content :
    Result GpgFault (Unit {0}) × Option Bytes → Result ImportFault Bytes
decrypted_content (ok u, dest) = content_of dest
decrypted_content (err f, dest) = err (in_gpg f)

unfoldable pub plain_data : Gpg → ImportFiles → Bool → Text → Bytes → Result ImportFault Bytes
plain_data g files false passphrase raw = ok raw
plain_data g files true passphrase raw =
    decrypted_content (decrypt g files.decrypted files.payload_path raw none passphrase)

-- The payload is extracted, decrypted and validated, in a new temporary directory.
unfoldable pub import_payload :
    Json → Gpg → ImportFiles → Members → Metadata → Text → Result ImportFault Bytes
import_payload json g files archive meta passphrase = do
  refuse_if (not files.can_make_dir) file_failed
  raw ← extracted_content (extract_data json files.extracted (some archive) none)
  plain ← plain_data g files meta.encrypted passphrase raw
  checked (validate_data_tar max_archive_members (g.as_stream plain))
  ok plain
