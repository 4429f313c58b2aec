-- ===== src/Cli/ImportExamples.antt =====
-- An import that is refused, and one whose containers cannot be created.
use tx.Base.{◌≡◌, ◌⊎◌, refl, true, false, Option, none, some, [], err, ◌<◌}
use tx.Archive.Format.{Json, Metadata, Members, container}
use tx.Decimal.{pos}
use tx.Archive.Gpg.{Gpg}
use tx.Archive.{Stream}
use tx.Box.Config.{Net}
use tx.Box.Create.{
  create, not_created, create_objects, checked_resources, prepared_mounts, ensure_network,
  ensure_volume, ensured_network, ensured_volume, objects_created, create_containers, agent_created,
  needed,
}
use tx.Box.Saving.{MountJson}
use tx.Box.Specs.{new_agent_container_spec}
use tx.Box.{engine_failed, agent_name, network_name, agent_volume, executor_volume}
use tx.Cli.Import.{cmd_import, create_and_restore, destroying, or_destroy, created}
use tx.Cli.Imported.{made, IsValidated, cmd_import-IsValidated}
use tx.Cli.Restored.{ImportFiles, ImportOptions, in_create}
use tx.Cli.Undone.{EndsDestroyed, create_and_restore-EndsDestroyed}
use tx.Docker.Exec.{call}
use tx.Docker.Fixed.{fixed_engine, new_world}
use tx.Docker.{Engine, not_found, done, failed}
use tx.Mounts.Prepare.{prepare_agent_mounts, prepare_each, group_set, recheck, sort_texts}
use tx.Mounts.Validate.{validate_agent_mount_set, validate_targets}
use tx.Mounts.{Host, FileInfo}
use tx.Resources.{default_resources, validate, validate_allocation, is_too_small, is_too_large}
use tx.Text.{codes}

abbrev empty_engine : Engine
empty_engine = fixed_engine none not_found (done tt) (λ spec. failed)

no_perm : (info : FileInfo) → ◌≡◌ {A = Option FileInfo} none (some info) → info.perm < 512
no_perm info e = cc

abbrev bare_host : Host
bare_host = record {
  stat = λ p. none;
  perm_bits = λ p. no_perm;
  abs = λ p. some p;
  eval_symlinks = λ p. some p;
  mountinfo = none;
}

abbrev plain_net : Net
plain_net = record {
  parse_url = λ u. none;
  split_host_port = λ a. none;
  join_host_port = λ h p. p;
  parse_ipv4 = λ a. some a;
  getenv = λ k. [];
}

abbrev files : ImportFiles
files = record {
  can_make_dir = true;
  extracted = record {
    can_create = true;
    can_write = true;
    can_close = true;
    can_remove = true;
    partial = [];
  };
  decrypted = record {
    can_create = true;
    can_write = true;
    can_close = true;
    can_remove = true;
    partial = [];
  };
  can_reopen = true;
  payload_path = codes "/tmp/data.payload";
  data_path = codes "/tmp/data.payload";
  token = some (codes "t");
}

abbrev options : ImportOptions
options = record {
  name_override = codes "fox";
  password = [];
  prompts = record { env_password = []; first = none; second = none };
  executor = record { web_base_url = []; publish_ip = []; publish_port = []; dns = [] };
  resources = default_resources;
  version = codes "1.0";
}

abbrev meta : Metadata
meta = record {
  box_name = codes "owl";
  created_at = codes "2025-01-01T00:00:00Z";
  cli_version = codes "1.0";
  image_version = codes "1.0";
  encrypted = false;
  format_version = pos 1;
}

-- A container whose payload is no gzip stream.
abbrev bad_archive : Members
bad_archive = container (codes "{}") meta (record { size = 2; content = codes "gz" })

abbrev no_json : Json
no_json = record { marshal = λ m. none; unmarshal = λ t. some meta }

abbrev no_gpg : Gpg
no_gpg = record {
  is_found = false;
  environ = [];
  run = λ env args line input. none;
  as_stream =
      λ c. record { is_gzip = false; entries = tx.Archive.eof; drains = true; closes = true };
}

abbrev no_mount_json : MountJson
no_mount_json = record { marshal = λ mounts. none; unmarshal = λ raw. none }

cmd_import-IsValidated_example :
    (made
        (cmd_import empty_engine bare_host plain_net no_mount_json no_json no_gpg files options
          bad_archive
          (new_world empty_engine tt)).1.trace
      ≡ made [])
    ⊎ IsValidated no_json no_gpg files options bad_archive
cmd_import-IsValidated_example =
    cmd_import-IsValidated empty_engine bare_host plain_net no_mount_json no_json no_gpg files
      options bad_archive (new_world empty_engine tt)

agent_fails :
    (create_and_restore empty_engine bare_host files options
      (codes "fox")
      (codes "t")
      (new_world empty_engine tt)).0
    ≡ err (in_create (not_created engine_failed))
unfolding create_and_restore destroying or_destroy created create create_objects checked_resources
    prepared_mounts ensure_network ensure_volume ensured_network ensured_volume objects_created
    create_containers agent_created needed new_agent_container_spec agent_name network_name
    agent_volume executor_volume call validate validate_allocation is_too_small is_too_large
    prepare_agent_mounts prepare_each group_set recheck sort_texts validate_agent_mount_set
    validate_targets
agent_fails = refl

create_and_restore-EndsDestroyed_example :
    EndsDestroyed empty_engine
      (codes "fox")
      (create_and_restore empty_engine bare_host files options
        (codes "fox")
        (codes "t")
        (new_world empty_engine tt)).1
create_and_restore-EndsDestroyed_example =
    create_and_restore-EndsDestroyed empty_engine bare_host files options (codes "fox") (codes "t")
      (new_world empty_engine tt) (in_create (not_created engine_failed)) agent_fails
