-- ===== src/Archive/Gpg.antt =====
-- internal/archive/gpg.go: encryption by the program gpg, which is a parameter, and the check of what
-- it wrote.
use tx.Base.{
  Bool, true, false, not, ◌&&◌, leb, Option, none, some, List, [], ◌∷◌, ◌++◌, if◌then◌else◌, Result,
  ok, err, ◌>>=◌, ◌>>◌, refuse_if,
}
use tx.Archive.Format.{Output}
use tx.Archive.{Stream, Entries, eof, corrupt, next}
use tx.Text.{Text, Bytes, codes, contains_any, has_prefix}

-- Whether gpg is found, the environment of the program, and a run of gpg with an environment, its
-- arguments, what it reads on descriptor 3, and its input, which is standard input or the file that
-- the last argument names: what it writes, if it exits with 0. The last field is what compress/gzip
-- and archive/tar make of a content.
pub record Gpg : Type 0 where
  pub is_found : Bool
  pub environ : List Text
  pub run : List Text → List Text → Text → Bytes → Option Bytes
  pub as_stream : Bytes → Stream

pub data GpgFault : Type 0 where
  bad_passphrase gpg_missing gpg_failed : GpgFault
  not_opened not_created not_closed not_a_tar : GpgFault

-- NUL, carriage return and newline
abbrev forbidden : Text
forbidden = 0 ∷ 13 ∷ 10 ∷ []

-- The environment without TX9_PASSWORD.
unfoldable pub child_env : List Text → List Text
child_env [] = []
child_env (entry ∷ entries) =
    let rest = child_env entries in
    if not (has_prefix entry (codes "TX9_PASSWORD=")) then entry ∷ rest else rest

unfoldable pub gpg_output : Option Bytes → Result GpgFault Bytes
gpg_output none = err gpg_failed
gpg_output (some text) = ok text

-- runGPG
unfoldable pub run_gpg : Gpg → Text → List Text → Bytes → Result GpgFault Bytes
run_gpg g passphrase args input = do
  refuse_if (contains_any passphrase forbidden) bad_passphrase
  refuse_if (not g.is_found) gpg_missing
  gpg_output (g.run (child_env g.environ) args (passphrase ++ codes "\n") input)

abbrev batch_args : List Text
batch_args =
    codes "--batch"
    ∷ codes "--yes"
    ∷ codes "--pinentry-mode"
    ∷ codes "loopback"
    ∷ codes "--passphrase-fd"
    ∷ codes "3"
    ∷ []

abbrev pub gpg_args_encrypt : List Text
gpg_args_encrypt =
    batch_args
    ++ (codes "--symmetric" ∷ codes "--cipher-algo" ∷ codes "AES256" ∷ codes "-o" ∷ codes "-" ∷ [])

unfoldable pub gpg_args_decrypt : Text → List Text
gpg_args_decrypt src = batch_args ++ (codes "-d" ∷ src ∷ [])

-- A destination that was created goes again after a failure, if it can be removed.
unfoldable pub left_over : Output → Option Bytes
left_over out = if out.can_remove then none else some out.partial

-- What was written to a destination that was created.
unfoldable pub kept : Output → Result GpgFault Bytes → Result GpgFault (Unit {0}) × Option Bytes
kept out (err f) = (err f, left_over out)
kept out (ok text) =
    if out.can_write && out.can_close then (ok tt, some text) else (err not_closed, left_over out)

-- Opened with O_EXCL.
unfoldable pub written_to :
    Output → Result GpgFault Bytes → Option Bytes → Result GpgFault (Unit {0}) × Option Bytes
written_to out text (some there) = (err not_created, some there)
written_to out text none = if out.can_create then kept out text else (err not_created, none)

-- Encrypt, with the source's and the destination's content where they are there.
unfoldable pub encrypt :
    Gpg → Output → Option Bytes → Option Bytes → Text → Result GpgFault (Unit {0}) × Option Bytes
encrypt g out none dst passphrase = (err not_opened, dst)
encrypt g out (some plain) dst passphrase =
    written_to out (run_gpg g passphrase gpg_args_encrypt plain) dst

-- DecryptStream, with the name and the content of the source.
unfoldable pub decrypt_stream : Gpg → Text → Bytes → Text → Result GpgFault Bytes
decrypt_stream g src content passphrase = run_gpg g passphrase (gpg_args_decrypt src) content

unfoldable pub decrypt :
    Gpg → Output → Text → Bytes → Option Bytes → Text → Result GpgFault (Unit {0}) × Option Bytes
decrypt g out src content dst passphrase =
    written_to out (decrypt_stream g src content passphrase) dst

-- IsGPG; nothing there, or nothing in it, is none.
unfoldable pub is_gpg : Option Bytes → Bool
is_gpg none = false
is_gpg (some []) = false
is_gpg (some (b ∷ bs)) = leb 128 b

unfoldable pub lists : Entries → Bool
lists eof = true
lists corrupt = false
lists (next h es) = lists es

unfoldable pub list_tar_gz : Stream → Bool
list_tar_gz s = s.is_gzip && lists s.entries && s.drains && s.closes

-- VerifyEncrypted: the error of the decryption comes first.
unfoldable pub verify_encrypted : Gpg → Text → Bytes → Text → Result GpgFault (Unit {0})
verify_encrypted g enc_path content passphrase = do
  plain ← decrypt_stream g enc_path content passphrase
  refuse_if (not (list_tar_gz (g.as_stream plain))) not_a_tar
