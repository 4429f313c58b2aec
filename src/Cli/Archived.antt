-- ===== src/Cli/Archived.antt =====
-- What the archive holds that a backup places.
use tx.Base.{
  length, arith, Bool, true, false, not, ◌||◌, ◌≡◌, refl, ◌∙◌, sym, ap, Option, none, some, Result,
  ok, err, bind-eq-ok, refuse_if, ok-injective, inl, inr, ◌++◌, subst, Option-cases,
}
use tx.Archive.Container.{write_tx9-container}
use tx.Archive.Format.{
  Json, Metadata, Members, DataFile, FormatFault, with_version, container, write_tx9, required,
}
use tx.Archive.Gpg.{Gpg, GpgFault, encrypt, verify_encrypted}
use tx.Archive.Validate.{validate_data_tar, max_archive_members}
use tx.Box.{Box}
use tx.Cli.BackupFile.{
  file_failed, Files, BackupOptions, metadata_of, checked, verified, encrypted_content, payload,
  formatted, placed, archived,
}
use tx.Text.{Text, codes}

-- The content that goes into the archive: the captured data, or what gpg made of them, which was
-- verified with the same passphrase.
pub data IsPayload (g : Gpg) (files : Files) (passphrase raw : Text) : Bool → Text → Type 0 where
  plain : IsPayload g files passphrase raw false raw
  encrypted :
      {content : Text}
      → encrypt g files.encrypted_file (some raw) none passphrase ≡ (ok tt, some content)
      → verify_encrypted g (files.raw_path ++ codes ".gpg") content passphrase ≡ ok tt
      → IsPayload g files passphrase raw true content

pub record IsBackup (json : Json) (g : Gpg) (files : Files) (opts : BackupOptions) (b : Box)
    (passphrase raw : Text) (members : Members) : Type 0 where
  pub is_valid : validate_data_tar max_archive_members (g.as_stream raw) ≡ ok tt
  pub content : Text
  pub is_payload : IsPayload g files passphrase raw opts.encrypted content
  pub text : Text
  pub is_printed : json.marshal (with_version (metadata_of files opts b)) ≡ some text
  pub is_container :
      members
      ≡ container text
          (metadata_of files opts b)
          (record { size = length content; content = content })
  pub was_free : files.is_taken ≡ false

checked-eq-ok :
    (r : Result tx.Archive.Fault (Unit {0})) {u : Unit {0}} → checked r ≡ ok u → r ≡ ok tt
unfolding checked
checked-eq-ok (ok u) e = refl
checked-eq-ok (err f) e = absurd (cc e)

verified-eq-ok :
    (r : Result GpgFault (Unit {0})) (content : Text) {content' : Text}
    → verified r content ≡ ok content'
    → (r ≡ ok tt) × (content ≡ content')
unfolding verified
verified-eq-ok (ok u) content e = (refl, ok-injective e)
verified-eq-ok (err f) content e = absurd (cc e)

encrypted_content-IsPayload :
    (g : Gpg) (files : Files) (passphrase raw content : Text)
    (made : Result GpgFault (Unit {0}) × Option Text)
    → encrypt g files.encrypted_file (some raw) none passphrase ≡ made
    → encrypted_content g (files.raw_path ++ codes ".gpg") passphrase made ≡ ok content
    → IsPayload g files passphrase raw true content
unfolding encrypted_content
encrypted_content-IsPayload g files passphrase raw content (ok u, some c) m e =
    let (fine, same) = verified-eq-ok _ c e in
    subst (IsPayload g files passphrase raw true) same (encrypted m fine)
encrypted_content-IsPayload g files passphrase raw content (ok u, none) m e = absurd (cc e)
encrypted_content-IsPayload g files passphrase raw content (err f, dst) m e = absurd (cc e)

payload-IsPayload :
    (g : Gpg) (files : Files) (is_encrypted : Bool) (passphrase raw content : Text)
    → payload g files is_encrypted passphrase raw ≡ ok content
    → IsPayload g files passphrase raw is_encrypted content
unfolding payload
payload-IsPayload g files false passphrase raw content e =
    subst (IsPayload g files passphrase raw false) (ok-injective e) plain
payload-IsPayload g files true passphrase raw content e =
    encrypted_content-IsPayload g files passphrase raw content _ refl e

formatted-eq-ok :
    (r : Result FormatFault Members) {members : Members} → formatted r ≡ ok members → r ≡ ok members
unfolding formatted
formatted-eq-ok (ok ms) e = ap ok (ok-injective e)
formatted-eq-ok (err f) e = absurd (cc e)

-- A container is written only with metadata that could be printed.
write_tx9-printed :
    (json : Json) (meta : Metadata) (df : DataFile) (can_write : Bool) {members : Members}
    → write_tx9 json meta (some df) can_write ≡ ok members
    → (text : Text) × (json.marshal (with_version meta) ≡ some text)
unfolding write_tx9 required
write_tx9-printed json meta df can_write e =
    elim (Option-cases (json.marshal (with_version meta))) [
      | inl unprinted ↦ absurd (cc (rw (write_tx9, unprinted) at e))
      | inr (text, printed) ↦ (text, printed)
    ]

-- Whenever a backup places an archive, the captured data had passed the validation; the archive's
-- payload is these data, or with encryption what gpg made of them and VerifyEncrypted accepted with
-- the same passphrase; the metadata name the box; and no file was at the final path.
pub archived-IsBackup :
    (json : Json) (g : Gpg) (files : Files) (opts : BackupOptions) (b : Box) (passphrase raw : Text)
    (members : Members)
    → archived json g files opts b passphrase raw ≡ ok members
    → IsBackup json g files opts b passphrase raw members
unfolding archived placed
archived-IsBackup json g files opts b passphrase raw members e =
    let (u, valid, e1) =
      bind-eq-ok (checked (validate_data_tar max_archive_members (g.as_stream raw))) _ e in
    let (content, paid, e2) = bind-eq-ok (payload g files opts.encrypted passphrase raw) _ e1 in
    let (u', staged, e3) = bind-eq-ok (refuse_if (not files.can_stage) file_failed) _ e2 in
    let df : DataFile = record { size = length content; content = content } in
    let meta = metadata_of files opts b in
    let (ms, written, e4) =
      bind-eq-ok (formatted (write_tx9 json meta (some df) files.can_write)) _ e3 in
    let (u'', free, e5) =
      bind-eq-ok (refuse_if (not files.can_finish || files.is_taken) file_failed) _ e4 in
    let (text, printed) =
      write_tx9-printed json meta df files.can_write (formatted-eq-ok _ written) in
    record {
      is_valid = checked-eq-ok _ valid;
      content = content;
      is_payload = payload-IsPayload g files opts.encrypted passphrase raw content paid;
      text = text;
      is_printed = printed;
      is_container =
          sym (ok-injective e5)
          ∙ write_tx9-container json meta df files.can_write text ms printed
              (formatted-eq-ok _ written);
      was_free = ground arith;
    }
