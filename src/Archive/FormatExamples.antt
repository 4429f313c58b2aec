-- ===== src/Archive/FormatExamples.antt =====
-- A container that is written and extracted, and an extraction that fails. The data begin as those
-- of gzip do.
use tx.Base.{Option, ◌⊎◌, [], ◌∷◌, length, ◌≡◌, ◌≤◌, refl, true, false, none, some, ok, err, arith}
use tx.Archive.Container.{extract_data-write_tx9, extract_data-untouched}
use tx.Archive.Format.{
  Json, Metadata, DataFile, Output, extract_failed, with_version, write_tx9, container, required,
  extract_data, extract_to, read_header, read_metadata_member, next_member, is_reg, checked_version,
  read_all, copy_data, finished, data_member_name, max_metadata_bytes,
}
use tx.Decimal.{pos}
use tx.Text.{Bytes, codes, text_eq}

abbrev meta : Metadata
meta = record {
  box_name = codes "fox";
  created_at = codes "2025-01-01T00:00:00Z";
  cli_version = codes "1.0";
  image_version = codes "1.0";
  encrypted = false;
  format_version = pos 1;
}

-- Prints and reads these metadata only.
abbrev one_json : Json
one_json = record { marshal = λ m. some (codes "{}"); unmarshal = λ t. some meta }

abbrev data_file : DataFile
data_file = record { size = 3; content = 31 ∷ 139 ∷ 8 ∷ [] }

abbrev output : Output
output = record {
  can_create = true;
  can_write = true;
  can_close = true;
  can_remove = true;
  partial = 31 ∷ [];
}

is_written :
    write_tx9 one_json meta (some data_file) true ≡ ok (container (codes "{}") meta data_file)
unfolding write_tx9 required
is_written = refl

is_small : length (codes "{}") ≤ max_metadata_bytes
is_small = omega arith

extract_data-write_tx9_example :
    extract_data one_json output (some (container (codes "{}") meta data_file)) none
    ≡ (ok (with_version meta), some (31 ∷ 139 ∷ 8 ∷ []))
unfolding with_version
extract_data-write_tx9_example =
    extract_data-write_tx9 one_json meta data_file true (codes "{}")
      (container (codes "{}") meta data_file) output refl refl is_small is_written refl refl refl

abbrev nothing : Option Bytes
nothing = none

-- The disk is full, and what was written cannot be removed.
abbrev stuck : Output
stuck = record output { can_write = false; can_remove = false }

has_failed :
    (extract_data one_json stuck (some (container (codes "{}") meta data_file)) none).0
    ≡ err extract_failed
unfolding extract_data extract_to read_header read_metadata_member next_member is_reg required
    checked_version read_all copy_data finished container data_member_name text_eq
has_failed = refl

extract_data-untouched_example :
    ((extract_data one_json stuck (some (container (codes "{}") meta data_file)) none).1 ≡ nothing)
    ⊎ ((nothing ≡ none) × (stuck.can_remove ≡ false))
extract_data-untouched_example =
    extract_data-untouched one_json stuck (some (container (codes "{}") meta data_file)) none
      extract_failed has_failed
