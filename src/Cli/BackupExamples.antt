-- ===== src/Cli/BackupExamples.antt =====
-- A backup whose payload is encrypted, and a run that fails.
use tx.Base.{◌≡◌, refl, true, false, none, some, [], ◌∷◌, ok}
use tx.Archive.Format.{Json, Members, container, write_tx9, required}
use tx.Archive.Gpg.{
  Gpg, encrypt, verify_encrypted, decrypt_stream, run_gpg, gpg_output, kept, written_to,
  list_tar_gz, lists,
}
use tx.Archive.Paths.{
  posix_parts_raw, drop_dots, safe_text, has_control, keep, validate_link_target, link_parts,
  walk_target, key_dir_parts,
}
use tx.Archive.Resolve.{candidate_of, resolve_state_key, resolve, resolve_step, resolve_loop}
use tx.Archive.Validate.{
  new_member, key_of, check_links, beneath_link, check_parent, parent_of, check_target,
  validate_data_tar, read_headers, add_members, add_member, check_index, check_nesting,
  check_required, check_members, check_member, parent_entry, max_archive_members,
}
use tx.Archive.{Stream, Entries, dir, eof, next}
use tx.Box.{Box}
use tx.Cli.Archived.{IsBackup, archived-IsBackup}
use tx.Cli.Backup.{cmd_backup}
use tx.Cli.BackupFile.{
  Files, BackupOptions, Prompts, metadata_of, checked, verified, encrypted_content, payload,
  formatted, placed, archived,
}
use tx.Cli.Paired.{IsPaired, pending, proper}
use tx.Cli.Resumed.{cmd_backup-IsPaired}
use tx.Dict.{elem, lookup, insert}
use tx.Docker.Fixed.{fixed_engine, new_world, labels_of}
use tx.Docker.{Engine, done, failed}
use tx.Text.Split.{split}
use tx.Text.{Text, codes, text_eq, has_prefix, len, contains_any}

abbrev folder : Text → Entries → Entries
folder name rest = next (record { name = name; linkname = []; typeflag = dir }) rest

abbrev small_stream : Stream
small_stream = record {
  is_gzip = true;
  entries = folder (codes "./home/") (folder (codes "./home/agent/") eof);
  drains = true;
  closes = true;
}

-- Turns nothing into anything else, and every content is the small archive.
abbrev same_gpg : Gpg
same_gpg = record {
  is_found = true;
  environ = [];
  run = λ env args line input. some input;
  as_stream = λ content. small_stream;
}

abbrev one_json : Json
one_json = record { marshal = λ m. some (codes "{}"); unmarshal = λ t. none }

abbrev all_well : Files
all_well = record {
  can_make_dir = true;
  can_open_raw = true;
  can_close_raw = true;
  encrypted_file = record {
    can_create = true;
    can_write = true;
    can_close = true;
    can_remove = true;
    partial = [];
  };
  can_stage = true;
  can_write = true;
  can_finish = true;
  raw_path = codes "/tmp/data.tar.gz";
  is_taken = false;
  now = codes "2025-01-01T00:00:00Z";
}

abbrev options : BackupOptions
options = record {
  name = codes "fox";
  password = codes "p";
  encrypted = true;
  cli_version = codes "1.0";
}

abbrev fox_box : Box
fox_box = record {
  name = codes "fox";
  agent_id = codes "a1";
  executor_id = codes "e1";
  agent_state = codes "running";
  executor_state = codes "running";
  executor_web_base_url = [];
  version = codes "1.0";
}

is_valid : validate_data_tar max_archive_members small_stream ≡ ok tt
unfolding posix_parts_raw new_member key_of drop_dots check_links beneath_link check_parent
    parent_of check_target candidate_of resolve_state_key validate_data_tar read_headers add_members
    add_member safe_text has_control elem keep split text_eq has_prefix lookup insert
    validate_link_target link_parts walk_target key_dir_parts check_index resolve resolve_step
    check_nesting check_required check_members check_member parent_entry resolve_loop
is_valid = refl

abbrev fox_archive : Members
fox_archive =
    container (codes "{}") (metadata_of all_well options fox_box)
      (record { size = 2; content = codes "gz" })

is_archived :
    archived one_json same_gpg all_well options fox_box (codes "p") (codes "gz") ≡ ok fox_archive
unfolding archived checked payload encrypted_content verified encrypt verify_encrypted
    decrypt_stream run_gpg gpg_output kept written_to list_tar_gz lists placed formatted write_tx9
    required len contains_any
is_archived = rw is_valid refl

archived-IsBackup_example :
    IsBackup one_json same_gpg all_well options fox_box (codes "p") (codes "gz") fox_archive
archived-IsBackup_example =
    archived-IsBackup one_json same_gpg all_well options fox_box (codes "p") (codes "gz")
      fox_archive is_archived

-- A box that runs, with its token; every command in it comes through.
abbrev plain_engine : Engine
plain_engine =
    record (fixed_engine none (done (labels_of (codes "fox"))) (done tt) (λ spec. failed)) {
      list_box_containers = λ s. (
        done (
            record {
              id = codes "a1";
              labels = (codes "tx9.role", codes "agent") ∷ labels_of (codes "fox");
              state = codes "running";
              image = codes "tx9-box:1.0";
              image_id = codes "i1";
            }
            ∷ []),
        s,
      );
      read_box_env = λ name s. (done ((codes "EXECUTOR_MCP_TOKEN", codes "t") ∷ []), s);
    }

abbrev no_prompts : Prompts
no_prompts = record { env_password = []; first = none; second = none }

nothing_run : IsPaired []
unfolding pending proper
nothing_run = record { none_pending = refl; is_proper = refl }

cmd_backup-IsPaired_example :
    IsPaired
      (cmd_backup plain_engine one_json same_gpg all_well no_prompts options
        (new_world plain_engine tt)).1.trace
cmd_backup-IsPaired_example =
    cmd_backup-IsPaired plain_engine one_json same_gpg all_well no_prompts options
      (new_world plain_engine tt) nothing_run
