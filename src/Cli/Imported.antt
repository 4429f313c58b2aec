-- ===== src/Cli/Imported.antt =====
-- An import makes nothing before the archive is validated.
use tx.Base.{
  Bool, true, false, not, ◌&&◌, ◌≡◌, ◌⊎◌, refl, ◌∙◌, List, [], ◌∷◌, Result, ok, err, Result-cases,
  inl, inr, if◌then◌else◌, refuse_if, bind-eq-ok, ok-injective, subst, none, some,
}
use tx.Archive.Format.{Json, Metadata, Members, extract_data}
use tx.Archive.Gpg.{Gpg}
use tx.Archive.Validate.{validate_data_tar, max_archive_members}
use tx.Box.Backed.{looks}
use tx.Box.Config.{Net}
use tx.Box.Listing.{exists, get, list}
use tx.Box.Objects.{list_or_fail, preflight_fresh_objects, check_name, must_be_missing}
use tx.Box.Saving.{MountJson}
use tx.Box.{ObjectKind}
use tx.Cli.Common.{with_box_lock, locked, under_lock}
use tx.Cli.Import.{of_box, import_box, import_opened, cmd_import, refuse_existing}
use tx.Cli.Restored.{
  ImportFault, lock_busy, box_exists, file_failed, ImportFiles, ImportOptions, opened,
  import_payload, plain_data, checked, extracted_content,
}
use tx.Docker.Exec.{Exec, call, lift}
use tx.Docker.Keeps.{continue-keeps, continue-ok, continue-passes}
use tx.Docker.{Engine, World, Event, Reply, done, not_found, failed, lock_taken, lock_released}
use tx.Mounts.{Host}
use tx.Text.{Text}

abbrev is_lock : Event → Bool
is_lock (lock_taken name reply) = true
is_lock (lock_released name) = true
is_lock _ = false

-- The calls that change something besides locks.
unfoldable pub made : List Event → List Event
made [] = []
made (e ∷ es) = if not (looks e) && not (is_lock e) then e ∷ made es else made es

-- The archive could be opened, and its payload extracted, decrypted if need be, and validated.
pub record IsValidated (json : Json) (g : Gpg) (files : ImportFiles) (opts : ImportOptions)
    (archive : Members) : Type 0 where
  pub meta : Metadata
  pub name : Text
  pub passphrase : Text
  pub is_opened : opened json opts archive ≡ ok (meta, (name, passphrase))
  pub plain : Text
  pub is_payload : import_payload json g files archive meta passphrase ≡ ok plain
  pub is_valid : validate_data_tar max_archive_members (g.as_stream plain) ≡ ok tt

checked-eq-ok :
    (r : Result tx.Archive.Fault (Unit {0})) {u : Unit {0}} → checked r ≡ ok u → r ≡ ok tt
unfolding checked
checked-eq-ok (ok u) e = refl
checked-eq-ok (err f) e = absurd (cc e)

import_payload-valid :
    (json : Json) (g : Gpg) (files : ImportFiles) (archive : Members) (meta : Metadata)
    (passphrase : Text) {plain : Text}
    → import_payload json g files archive meta passphrase ≡ ok plain
    → validate_data_tar max_archive_members (g.as_stream plain) ≡ ok tt
unfolding import_payload
import_payload-valid json g files archive meta passphrase {plain} e =
    let (u, made, e1) = bind-eq-ok (refuse_if (not files.can_make_dir) file_failed) _ e in
    let (raw, extracted, e2) =
      bind-eq-ok (extracted_content (extract_data json files.extracted (some archive) none)) _ e1 in
    let (p, decrypted, e3) = bind-eq-ok (plain_data g files meta.encrypted passphrase raw) _ e2 in
    let (u', valid, e4) =
      bind-eq-ok (checked (validate_data_tar max_archive_members (g.as_stream p))) _ e3 in
    let same : p ≡ plain = ok-injective e4 in
    subst (λ t. validate_data_tar max_archive_members (g.as_stream t) ≡ ok tt) same
      (checked-eq-ok _ valid)

module _ (engine : Engine) where
  must_be_missing-made :
      {A : Type 0} (t : List Event) (kind : ObjectKind) (ref : Text) (r : Reply A)
      (w : World engine)
      → made w.trace ≡ made t
      → made (must_be_missing engine kind ref r w).1.trace ≡ made t
  unfolding must_be_missing
  must_be_missing-made t kind ref (done a) w p = p
  must_be_missing-made t kind ref not_found w p = p
  must_be_missing-made t kind ref failed w p = p

  exists-made :
      (name : Text) (w : World engine) → made (exists engine name w).1.trace ≡ made w.trace
  unfolding exists get list call made looks
  exists-made name w =
      let keeps : List Event → Type 0 = λ t. made t ≡ made w.trace in
      let all : keeps (list engine w).1.trace =
        continue-keeps keeps (lift (list_or_fail (engine.list_box_containers w.state).0) _) _ refl
          (λ cs. refl) in
      continue-keeps keeps (list engine w) _ all (λ boxes. all)

  preflight-made :
      (name : Text) (w : World engine)
      → made (preflight_fresh_objects engine name w).1.trace ≡ made w.trace
  unfolding preflight_fresh_objects check_name call made looks
  preflight-made name w =
      let keeps : List Event → Type 0 = λ t. made t ≡ made w.trace in
      continue-passes keeps (check_name engine name w) _ refl (λ u p.
        continue-passes keeps (must_be_missing engine _ _ _ _) _
          (must_be_missing-made w.trace _ _ _ _ p)
          (λ u1 p1.
            continue-passes keeps (must_be_missing engine _ _ _ _) _
              (must_be_missing-made w.trace _ _ _ _ p1)
              (λ u2 p2.
                continue-passes keeps (must_be_missing engine _ _ _ _) _
                  (must_be_missing-made w.trace _ _ _ _ p2)
                  (λ u3 p3.
                    continue-passes keeps (must_be_missing engine _ _ _ _) _
                      (must_be_missing-made w.trace _ _ _ _ p3)
                      (λ u4 p4. must_be_missing-made w.trace _ _ _ _ p4)))))

  module _ (host : Host) (net : Net) (mount_json : MountJson) (json : Json) (g : Gpg)
      (files : ImportFiles) (opts : ImportOptions) (archive : Members) where
    import_box-unmade :
        (meta : Metadata) (name passphrase : Text) (w : World engine) (f : ImportFault)
        → import_payload json g files archive meta passphrase ≡ err f
        → made
            (import_box engine host net mount_json json g files opts archive meta name passphrase
              w).1.trace
          ≡ made w.trace
    unfolding import_box refuse_existing
    import_box-unmade meta name passphrase w f bad =
        let keeps : List Event → Type 0 = λ t. made t ≡ made w.trace in
        continue-passes keeps (of_box engine (exists engine name) w) _ (exists-made name w)
          (λ there p. continue-passes keeps (lift (refuse_if there box_exists) _) _ p (λ u p1.
            continue-passes keeps (of_box engine (preflight_fresh_objects engine name) _) _
              (preflight-made name _ ∙ p1)
              (λ u' p2.
                continue-ok keeps (lift (import_payload json g files archive meta passphrase) _) _
                  p2 (λ plain good. absurd (cc (good, bad))))))

    locked-made :
        {A : Type 0} (name : Text) (body : Exec engine ImportFault A) (r : Reply (Unit {0}))
        (w : World engine)
        → ((v : World engine) → made (body v).1.trace ≡ made v.trace)
        → made (locked engine lock_busy name body r w).1.trace ≡ made w.trace
    unfolding locked under_lock call made looks
    locked-made name body (done u) w h = h w
    locked-made name body not_found w h = refl
    locked-made name body failed w h = refl

    import_opened-cases :
        (meta : Metadata) (name passphrase : Text) (w : World engine)
        → opened json opts archive ≡ ok (meta, (name, passphrase))
        → (made
              (import_opened engine host net mount_json json g files opts archive
                (meta, (name, passphrase))
                w).1.trace
            ≡ made w.trace)
          ⊎ IsValidated json g files opts archive
    unfolding import_opened with_box_lock call made looks
    import_opened-cases meta name passphrase w is_opened =
        elim (Result-cases (import_payload json g files archive meta passphrase)) [
          | inl (plain, good) ↦ inr (record {
            meta = meta;
            name = name;
            passphrase = passphrase;
            is_opened = is_opened;
            plain = plain;
            is_payload = good;
            is_valid = import_payload-valid json g files archive meta passphrase good;
          })
          | inr (f, bad) ↦ inl (
              locked-made name
                (import_box engine host net mount_json json g files opts archive meta name
                  passphrase)
                _ _ (λ v. import_box-unmade meta name passphrase v f bad))
        ]

    -- An import changes nothing but locks, in Docker and in the env file, unless the archive could be
    -- opened and its payload extracted, decrypted where it is encrypted, and validated.
    pub cmd_import-IsValidated :
        (w : World engine)
        → (made (cmd_import engine host net mount_json json g files opts archive w).1.trace
            ≡ made w.trace)
          ⊎ IsValidated json g files opts archive
    unfolding cmd_import
    cmd_import-IsValidated w = elim (Result-cases (opened json opts archive)) [
      | inr (f, bad) ↦ inl (rw (cmd_import, bad) refl)
      | inl ((meta, (name, passphrase)), is_opened) ↦
          rw (cmd_import, is_opened) (import_opened-cases meta name passphrase w is_opened)
    ]
