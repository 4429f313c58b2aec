-- ===== src/Cli/Import.antt =====
-- internal/cli/cmd_import.go: a box that is restored from an archive, once the flags for the executor
-- and the resources are read. What is printed is left out.
use tx.Base.{ℕ, Bool, true, not, ◌==◌, [], ◌∷◌, ◌++◌, if◌then◌else◌, Result, ok, err, refuse_if}
use tx.Archive.Format.{Json, Metadata, Members}
use tx.Archive.Gpg.{Gpg}
use tx.Box.Config.{Net}
use tx.Box.Create.{CreateFault, create, start}
use tx.Box.Destroy.{destroy}
use tx.Box.Listing.{exists}
use tx.Box.Objects.{preflight_fresh_objects}
use tx.Box.Runtime.{hb}
use tx.Box.Saving.{MountJson, save_config, save_agent_mounts, save_box_resources}
use tx.Box.{Box, Fault, agent_volume}
use tx.Cli.Common.{with_box_lock, ensure_box_image, image_tag}
use tx.Cli.Restored.{
  ImportFault, in_box, in_create, lock_busy, box_exists, not_minted, file_failed, restore_exited,
  ImportFiles, ImportOptions, opened, import_payload,
}
use tx.Docker.Exec.{Exec, pure, lift, ◌>>=◌, ◌>>◌, run_ephemeral}
use tx.Docker.{Engine, Reply, done, not_found, failed}
use tx.Mounts.{Host}
use tx.Text.{Text, codes}

abbrev restore_stage_script : Text
restore_stage_script =
    codes
      "set -euo pipefail\nfind /data -mindepth 1 -delete\nstage=/data/.hb-restore-stage\nmkdir -m 0700 \"$stage\"\ntar xzf - --no-same-owner -C \"$stage\"\ntest -d \"$stage/home/agent\"\nchown root:root \"$stage\" \"$stage/home\"\nchmod 0711 \"$stage\" \"$stage/home\"\nchown -R agent:agent \"$stage/home/agent\" \"$stage/logs\" 2>/dev/null || true\nmkdir -p \"$stage/home/agent/.config/hermes-box\"\ntouch \"$stage/home/agent/.config/hermes-box/quiesced\" \\\n      \"$stage/home/agent/.config/hermes-box/gateway-disabled\" \\\n      \"$stage/home/agent/.config/hermes-box/gateway-policy-initialized\"\nchown -R agent:agent \"$stage/home/agent/.config/hermes-box\"\nrunuser -u agent -- env HOME=/data/home/agent \\\n  /opt/hermes-box/bin/hermes-state verify --home \"$stage/home/agent/.hermes\" >/dev/null\nshopt -s dotglob\nmv \"$stage\"/* /data/\nrmdir \"$stage\"\nchown root:root /data && chmod 0711 /data\n"

unfoldable pub restore_result : Reply ℕ → Result ImportFault (Unit {0})
restore_result (done code) = if not (code == 0) then err (restore_exited code) else ok tt
restore_result not_found = err (in_box Fault.engine_failed)
restore_result failed = err (in_box Fault.engine_failed)

unfoldable pub boxed : {A : Type 0} → Result Fault A → Result ImportFault A
boxed (ok a) = ok a
boxed (err f) = err (in_box f)

unfoldable pub created : Result CreateFault Box → Result ImportFault Box
created (ok b) = ok b
created (err f) = err (in_create f)

module _ (engine : Engine) where
  -- An action of the box package.
  abbrev pub of_box : {A : Type 0} → Exec engine Fault A → Exec engine ImportFault A
  of_box m w = let (r, w') = m w in (boxed r, w')

  abbrev pub of_create : Exec engine CreateFault Box → Exec engine ImportFault Box
  of_create m w = let (r, w') = m w in (created r, w')

  -- After an error the box is destroyed, whatever comes of that, and the error is returned.
  unfoldable pub or_destroy : {A : Type 0} → Text → Result ImportFault A → Exec engine ImportFault A
  or_destroy name (ok a) w = (ok a, w)
  or_destroy name (err f) w = (err f, (destroy engine name w).1)

  unfoldable pub destroying :
      {A : Type 0} → Text → Exec engine ImportFault A → Exec engine ImportFault A
  destroying name m w = let (r, w') = m w in or_destroy name r w'

  unfoldable pub restore : ImportFiles → Text → Text → Exec engine ImportFault (Unit {0})
  restore files name tag = do
    lift (refuse_if (not files.can_reopen) file_failed)
    reply ← run_ephemeral engine (record {
      image = tag;
      entrypoint = codes "bash" ∷ [];
      cmd = codes "-c" ∷ restore_stage_script ∷ [];
      binds = (agent_volume name ++ codes ":/data") ∷ [];
      stdin = files.data_path;
    })
    lift (restore_result reply)

  -- From Create on.
  unfoldable pub create_and_restore :
      Host → ImportFiles → ImportOptions → Text → Text → Exec engine ImportFault Box
  create_and_restore host files opts name tok = do
    let tag = image_tag opts.version
    b ← destroying name (
        of_create (
          create engine host opts.version (record {
            name = name;
            image = tag;
            token = tok;
            executor = opts.executor;
            resources = opts.resources;
            agent_mounts = [];
            no_start = true;
          })))
    destroying name (restore files name tag)
    destroying name (of_box (start engine b))
    pure b

  unfoldable pub set_up :
      Net → MountJson → ImportOptions → Text → Text → Exec engine ImportFault (Unit {0})
  set_up net mount_json opts name tok = do
    of_box (save_config engine net name tok opts.executor)
    of_box (save_agent_mounts engine mount_json name [])
    of_box (save_box_resources engine name opts.resources)
    of_box (ensure_box_image engine (image_tag opts.version))

  unfoldable pub refuse_existing : Bool → Exec engine ImportFault (Unit {0})
  refuse_existing there = lift (refuse_if there box_exists)

  -- The failure of the last check is only a warning.
  unfoldable pub checked_state : Box → Text → Exec engine ImportFault Box
  checked_state b tok w = let (r, w') = hb engine b tok (codes "verify-state" ∷ []) w in (ok b, w')

  unfoldable pub import_box :
      Host
      → Net
      → MountJson
      → Json
      → Gpg
      → ImportFiles
      → ImportOptions
      → Members
      → Metadata
      → Text
      → Text
      → Exec engine ImportFault Box
  import_box host net mount_json json g files opts archive meta name passphrase = do
    there ← of_box (exists engine name)
    refuse_existing there
    of_box (preflight_fresh_objects engine name)
    plain ← lift (import_payload json g files archive meta passphrase)
    tok ← lift (tx.Cli.Restored.minted files.token)
    set_up net mount_json opts name tok
    b ← create_and_restore host files opts name tok
    checked_state b tok

  unfoldable pub import_opened :
      Host
      → Net
      → MountJson
      → Json
      → Gpg
      → ImportFiles
      → ImportOptions
      → Members
      → Metadata × (Text × Text)
      → Exec engine ImportFault Box
  import_opened host net mount_json json g files opts archive (meta, (name, passphrase)) =
      with_box_lock engine lock_busy name
        (import_box host net mount_json json g files opts archive meta name passphrase)

  -- cmdImport, with the content of the archive file.
  unfoldable pub cmd_import :
      Host
      → Net
      → MountJson
      → Json
      → Gpg
      → ImportFiles
      → ImportOptions
      → Members
      → Exec engine ImportFault Box
  cmd_import host net mount_json json g files opts archive = do
    target ← lift (opened json opts archive)
    import_opened host net mount_json json g files opts archive target
