-- ===== src/Selfupdate/Update.antt =====
-- Update (internal/selfupdate/selfupdate.go): which release is taken, and how the running executable
-- is replaced. The file calls may fail at will; SHA-256 is a parameter. What is printed is left out.
use tx.Base.{
  ℕ, Bool, true, false, not, ◌&&◌, ◌||◌, Option, none, some, List, [], ◌++◌, if◌then◌else◌, Result,
  ok, err, ◌>>=◌, ◌>>◌, refuse_if,
}
use tx.Dict.{lookup}
use tx.Selfupdate.Checksums.{ChecksumFault, Checksums, parse_checksums}
use tx.Selfupdate.Site.{
  Client, UpdateFault, dev_version, custom_version, no_executable, no_entry, checksum_mismatch,
  file_failed, bad_checksums, resolve_origin, fetch_latest_version, asset_name, fetch_bytes,
  download,
}
use tx.Selfupdate.{Order, less, equal, greater, normalize_version, split_numeric, compare_versions}
use tx.Text.{Text, Bytes, codes, is_empty, text_eq}

-- The settings that matter; the platform is that of the running binary where it is not overridden.
pub record Options : Type 0 where
  pub current_version : Text
  pub force : Bool
  pub origin : Text
  pub goos : Text
  pub goarch : Text

-- The machine: TX9_ORIGIN, os.Executable with filepath.EvalSymlinks, the digest in hexadecimal, and
-- which of the file calls succeed: creating the staged file, writing it, its mode, its flush, its
-- close, the rename and the removal.
pub record Machine : Type 0 where
  pub env_origin : Text
  pub real_path : Option Text
  pub sha256 : Bytes → Text
  pub client : Client
  pub can_create : Bool
  pub can_write : Bool
  pub can_chmod : Bool
  pub can_sync : Bool
  pub can_close : Bool
  pub can_rename : Bool
  pub can_remove : Bool

-- The content of the executable, and whether a staged file of this update is beside it.
pub record Disk : Type 0 where
  pub binary : Bytes
  pub has_stage : Bool

pub record UpdateResult : Type 0 where
  pub applied : Bool
  pub from_version : Text
  pub to_version : Text
  pub installed_path : Text

-- What is to be installed, or the latest release if that is not newer.
pub data Decision : Type 0 where
  up_to_date : Text → Decision
  install : (latest path url digest : Text) → Decision

unfoldable pub is_dev : Text → Bool
is_dev v = is_empty v || text_eq v (codes "dev")

unfoldable pub is_custom : Option (List ℕ) → Bool
is_custom none = true
is_custom (some ns) = false

unfoldable pub is_newer : Order → Bool
is_newer less = true
is_newer equal = false
is_newer greater = false

unfoldable pub required : {A : Type 0} → UpdateFault → Option A → Result UpdateFault A
required f none = err f
required f (some a) = ok a

unfoldable pub parsed : Result ChecksumFault Checksums → Result UpdateFault Checksums
parsed (ok sums) = ok sums
parsed (err f) = err (bad_checksums f)

unfoldable pub base_url : Machine → Options → Text → Text
base_url m opts latest = resolve_origin m.env_origin opts.origin ++ (codes "/releases/" ++ latest)

unfoldable pub asset_url : Machine → Options → Text → Text
asset_url m opts latest = base_url m opts latest ++ (codes "/" ++ asset_name opts.goos opts.goarch)

unfoldable pub checksums_url : Machine → Options → Text → Text
checksums_url m opts latest = base_url m opts latest ++ codes "/checksums.txt"

-- What is looked up for a release that is taken.
unfoldable pub decide_install : Machine → Options → Text → Result UpdateFault Decision
decide_install m opts latest = do
  path ← required no_executable m.real_path
  listing ← fetch_bytes m.client (checksums_url m opts latest)
  sums ← parsed (parse_checksums listing)
  digest ← required no_entry (lookup (asset_name opts.goos opts.goarch) sums)
  ok (install latest path (asset_url m opts latest) digest)

unfoldable pub decide : Machine → Options → Result UpdateFault Decision
decide m opts = do
  refuse_if (is_dev opts.current_version && not opts.force) dev_version
  refuse_if (is_custom (split_numeric (normalize_version opts.current_version)) && not opts.force)
      custom_version
  latest ← fetch_latest_version m.client (resolve_origin m.env_origin opts.origin)
  if not opts.force && not (is_newer (compare_versions opts.current_version latest))
      then ok (up_to_date latest)
      else decide_install m opts latest

-- The deferred os.Remove of the staged file, whose error is not looked at.
unfoldable pub dropped : Machine → Disk → Disk
dropped m d = record { binary = d.binary; has_stage = if m.can_remove then false else d.has_stage }

-- What may fail once the staged file is there; its content is the result.
unfoldable pub staged : Machine → Text → Text → Result UpdateFault Bytes
staged m url digest = do
  content ← download m.client url
  refuse_if (not m.can_write) file_failed
  refuse_if (not (text_eq (m.sha256 content) digest)) checksum_mismatch
  refuse_if (not m.can_chmod) file_failed
  refuse_if (not m.can_sync) file_failed
  refuse_if (not m.can_close) file_failed
  refuse_if (not m.can_rename) file_failed
  ok content

-- The rename takes the staged file's name away, and leaves nothing to remove.
unfoldable pub renamed :
    Machine
    → Text
    → Options
    → Text
    → Result UpdateFault Bytes
    → Disk
    → Result UpdateFault UpdateResult × Disk
renamed m latest opts path (err f) d = (err f, dropped m d)
renamed m latest opts path (ok content) d = (
  ok (record {
    applied = true;
    from_version = opts.current_version;
    to_version = latest;
    installed_path = path;
  }),
  record { binary = content; has_stage = false },
)

-- Once it is known whether the staged file can be created.
unfoldable pub opened :
    Machine
    → Bool
    → Text
    → Options
    → Text
    → Result UpdateFault Bytes
    → Disk
    → Result UpdateFault UpdateResult × Disk
opened m false latest opts path content d = (err file_failed, d)
opened m true latest opts path content d =
    renamed m latest opts path content (record { binary = d.binary; has_stage = true })

unfoldable pub carry_out :
    Machine → Options → Result UpdateFault Decision → Disk → Result UpdateFault UpdateResult × Disk
carry_out m opts (err f) d = (err f, d)
carry_out m opts (ok (up_to_date latest)) d = (
  ok (record {
    applied = false;
    from_version = opts.current_version;
    to_version = latest;
    installed_path = [];
  }),
  d,
)
carry_out m opts (ok (install latest path url digest)) d =
    opened m m.can_create latest opts path (staged m url digest) d

unfoldable pub update : Machine → Options → Disk → Result UpdateFault UpdateResult × Disk
update m opts d = carry_out m opts (decide m opts) d
