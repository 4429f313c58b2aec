-- ===== src/Selfupdate/UpdateExamples.antt =====
-- An update that is applied, and one whose download does not have the published digest.
use tx.Base.{◌⊎◌, ◌≡◌, refl, true, false, none, some, Option, [], ◌++◌, ok, err, if◌then◌else◌}
use tx.Decimal.{parse_int, parse_digits}
use tx.Dict.{lookup, insert}
use tx.Selfupdate.Checksums.{parse_checksums, add_lines, add_line, add_fields, add_entry, is_hex}
use tx.Selfupdate.Site.{
  Client, Response, checksum_mismatch, resolve_origin, trim_slashes, is_number, is_release, answer,
  read_limited, latest_version, fetch_latest_version, asset_name, fetch_bytes, download,
  announces_too_much,
}
use tx.Selfupdate.Update.{
  Options, Machine, Disk, UpdateResult, is_newer, required, parsed, base_url, asset_url,
  checksums_url, decide_install, decide, staged, renamed, opened, carry_out, update, is_dev,
  is_custom,
}
use tx.Selfupdate.Untouched.{update-untouched}
use tx.Selfupdate.Verified.{IsVerified, update-IsVerified}
use tx.Selfupdate.{
  compare_versions, compare_split, compare_components, normalize_version, split_numeric,
}
use tx.Text.Split.{split}
use tx.Text.Trim.{trim_space, fields, to_lower}
use tx.Text.{Text, codes, is_empty, text_eq, len, has_prefix, trim_prefix, is_space}

abbrev digest : Text
digest = codes "0123456789abcdef0123456789abcdef0123456789abcdef0123456789abcdef"

abbrev served : Text → Option Response
served body = some (record { status = 200; content_length = none; body = body; complete = true })

abbrev site : Client
site url =
    if text_eq url (codes "o/releases/latest")
    then served (codes "0.2.0\n")
    else if text_eq url (codes "o/releases/0.2.0/checksums.txt")
    then served (digest ++ codes "  tx9_linux_amd64\n")
    else if text_eq url (codes "o/releases/0.2.0/tx9_linux_amd64")
    then served (codes "new")
    else none

abbrev machine : Text → Machine
machine sum = record {
  env_origin = [];
  real_path = some (codes "/usr/bin/tx9");
  sha256 = λ content. sum;
  client = site;
  can_create = true;
  can_write = true;
  can_chmod = true;
  can_sync = true;
  can_close = true;
  can_rename = true;
  can_remove = true;
}

abbrev options : Options
options = record {
  current_version = codes "0.1.0";
  force = false;
  origin = codes "o/";
  goos = codes "linux";
  goarch = codes "amd64";
}

abbrev old_disk : Disk
old_disk = record { binary = codes "old"; has_stage = false }

abbrev installed : UpdateResult
installed = record {
  applied = true;
  from_version = codes "0.1.0";
  to_version = codes "0.2.0";
  installed_path = codes "/usr/bin/tx9";
}

is_installed : (update (machine digest) options old_disk).0 ≡ ok installed
unfolding update carry_out opened renamed staged decide decide_install is_dev is_custom is_newer
    required parsed base_url asset_url checksums_url parse_checksums add_lines add_line add_fields
    add_entry is_hex resolve_origin trim_slashes is_number is_release answer read_limited
    latest_version fetch_latest_version asset_name fetch_bytes download announces_too_much
    compare_versions compare_split compare_components normalize_version split_numeric split
    trim_space fields to_lower is_empty text_eq len has_prefix trim_prefix is_space lookup insert
    parse_int parse_digits
is_installed = refl

update-IsVerified_example :
    IsVerified (machine digest) options (codes "0.2.0") (update (machine digest) options old_disk).1
update-IsVerified_example =
    update-IsVerified (machine digest) options old_disk installed is_installed refl

is_refused : (update (machine (codes "00")) options old_disk).0 ≡ err checksum_mismatch
unfolding is_installed
is_refused = refl

update-untouched_example :
    ((update (machine (codes "00")) options old_disk).1.binary ≡ codes "old")
    × (((update (machine (codes "00")) options old_disk).1.has_stage ≡ false) ⊎ (true ≡ false))
update-untouched_example =
    update-untouched (machine (codes "00")) options old_disk checksum_mismatch refl is_refused
