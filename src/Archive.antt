-- ===== src/Archive.antt =====
-- internal/archive/validator.go: the members of a data archive and the faults that
-- `ValidateDataTar` reports. `Paths` has the helpers on paths and link targets, `Resolve` the walk
-- along links, `Validate` the passes; `Format` models format.go and `Gpg` gpg.go; the other
-- children prove what an accepted archive is and what the container keeps.
pub mod Paths
pub mod Resolve
pub mod Validate
pub mod RealPath
pub mod Lexical
pub mod Members
pub mod Index
pub mod Nesting
pub mod Accepted
pub mod Targets
pub mod Safety
pub mod Parents
pub mod Links
pub mod Format
pub mod Gpg
pub mod Container
mod Examples
mod FormatExamples
use tx.Base.{ℕ, Bool, true, false, Option, none, some, List, ◌||◌, Result}
use tx.Dict.{Dict}
use tx.Text.{Text}

-- hdr.Typeflag; `other` stands for devices, FIFOs and what archive/tar does not know.
pub data Typeflag : Type 0 where
  reg rega dir symlink link : Typeflag
  other : ℕ → Typeflag

-- The fields of tar.Header that the validator reads.
pub record Header : Type 0 where
  pub name : Text
  pub linkname : Text
  pub typeflag : Typeflag

-- What `tar.Reader.Next` returns, call after call: headers, then io.EOF or another error.
pub data Entries : Type 0 where
  eof corrupt : Entries
  next : Header → Entries → Entries

-- A reader, as `ValidateDataTar` sees it through compress/gzip and archive/tar: whether the gzip
-- header is valid, what the tar reader returns, whether the rest of the gzip stream can be read
-- and whether its footer is valid.
pub record Stream : Type 0 where
  pub is_gzip : Bool
  pub entries : Entries
  pub drains : Bool
  pub closes : Bool

pub record TarMember : Type 0 where
  pub name : Text
  pub is_dir : Bool
  pub is_file : Bool
  pub is_symlink : Bool
  pub is_hardlink : Bool
  pub linkname : Text

-- member.IsSymlink || member.IsHardlink
abbrev pub is_link : TarMember → Bool
is_link m = m.is_symlink || m.is_hardlink

pub record MemberIndex : Type 0 where
  pub order : List Text
  pub by_name : Dict TarMember

abbrev pub empty_index : MemberIndex
empty_index = record { order = List.[]; by_name = List.[] }

-- The errors of the package, one for each message, without the paths and labels that it quotes.
pub data Fault : Type 0 where
  not_gzip corrupt_archive too_many_members empty_archive : Fault
  control_characters escapes_root duplicate_path special_file root_not_directory : Fault
  link_is_absolute link_is_empty link_escapes nested_beneath_link : Fault
  required_directory : Text → Fault
  parent_not_directory hardlink_not_file : Fault
  chain_too_long link_cycle walk_escapes through_non_directory missing_member : Fault

abbrev pub Checked {ℓ} : Type ℓ → Type ℓ
Checked A = Result Fault A
