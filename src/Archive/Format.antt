-- ===== src/Archive/Format.antt =====
-- internal/archive/format.go: the outer container of an archive. It is its members, as archive/tar
-- writes them and reads them again; encoding/json is the parameter `Json`. Whether a call of the
-- operating system succeeds is a parameter.
use tx.Base.{
  ℕ, Bool, true, false, not, ◌||◌, ◌==◌, ltb, length, Option, none, some, if◌then◌else◌, Result, ok,
  err, ◌>>=◌, ◌>>◌, refuse_if,
}
use tx.Archive.{Typeflag, reg, rega, dir, symlink, link, other}
use tx.Decimal.{ℤ, pos, negsuc}
use tx.Text.{Text, Bytes, codes, text_eq}

-- A time is its RFC 3339 form.
pub record Metadata : Type 0 where
  pub box_name : Text
  pub created_at : Text
  pub cli_version : Text
  pub image_version : Text
  pub encrypted : Bool
  pub format_version : ℤ

-- json.MarshalIndent and json.Unmarshal of metadata.
pub record Json : Type 0 where
  pub marshal : Metadata → Option Bytes
  pub unmarshal : Bytes → Option Metadata

-- A member: what its header says, what its content gives, and whether that can be read to its end.
pub record Member : Type 0 where
  pub name : Text
  pub typeflag : Typeflag
  pub size : ℕ
  pub content : Bytes
  pub complete : Bool

-- What `tar.Reader.Next` returns, call after call.
pub data Members : Type 0 where
  eof corrupt : Members
  next : Member → Members → Members

pub data FormatFault : Type 0 where
  not_marshalled no_data_file write_failed : FormatFault
  not_opened not_tx9 bad_metadata_member unreadable invalid_json : FormatFault
  bad_version too_new : FormatFault
  missing_data wrong_data_member data_not_regular : FormatFault
  not_created extract_failed extra_member bad_trailer not_closed : FormatFault

abbrev pub metadata_member : Text
metadata_member = codes "metadata.json"

abbrev pub max_metadata_bytes : ℕ
max_metadata_bytes = 65536

unfoldable pub data_member_name : Bool → Text
data_member_name true = codes "data.tar.gz.gpg"
data_member_name false = codes "data.tar.gz"

unfoldable pub with_version : Metadata → Metadata
with_version meta = record meta { format_version = pos 1 }

unfoldable pub required : {A : Type 0} → FormatFault → Option A → Result FormatFault A
required f none = err f
required f (some a) = ok a

-- The data file: its size as Stat has it, and what reading it gives.
pub record DataFile : Type 0 where
  pub size : ℕ
  pub content : Bytes

-- The two members, with the metadata as JSON.
unfoldable pub container : Bytes → Metadata → DataFile → Members
container text meta df =
    let first : Member = record {
      name = metadata_member;
      typeflag = reg;
      size = length text;
      content = text;
      complete = true;
    } in
    let second : Member = record {
      name = data_member_name meta.encrypted;
      typeflag = reg;
      size = df.size;
      content = df.content;
      complete = true;
    } in
    next first (next second eof)

-- WriteTx9; a content of another length than the header says is refused by archive/tar. `can_write`
-- tells whether all that is written gets through.
unfoldable pub write_tx9 : Json → Metadata → Option DataFile → Bool → Result FormatFault Members
write_tx9 json meta data_file can_write = do
  text ← required not_marshalled (json.marshal (with_version meta))
  df ← required no_data_file data_file
  refuse_if (not can_write || not (df.size == length df.content)) write_failed
  ok (container text meta df)

unfoldable pub is_reg : Typeflag → Bool
is_reg reg = true
is_reg rega = false
is_reg dir = false
is_reg symlink = false
is_reg link = false
is_reg (other n) = false

unfoldable pub checked_version : ℤ → Result FormatFault (Unit {0})
checked_version (negsuc n) = err bad_version
checked_version (pos n) =
    if ltb n 1 then err bad_version else if ltb 1 n then err too_new else ok tt

-- io.ReadAll
unfoldable pub read_all : FormatFault → Member → Result FormatFault Bytes
read_all f m = if m.complete then ok m.content else err f

unfoldable pub next_member : FormatFault → Members → Result FormatFault (Member × Members)
next_member f eof = err f
next_member f corrupt = err f
next_member f (next m rest) = ok (m, rest)

-- readMetadataMember: the metadata, and the members behind it.
unfoldable pub read_metadata_member : Json → Members → Result FormatFault (Metadata × Members)
read_metadata_member json members = do
  (m, rest) ← next_member not_tx9 members
  refuse_if (not (text_eq m.name metadata_member)) not_tx9
  refuse_if (not (is_reg m.typeflag) || ltb max_metadata_bytes m.size) bad_metadata_member
  text ← read_all unreadable m
  meta ← required invalid_json (json.unmarshal text)
  checked_version meta.format_version
  ok (meta, rest)

-- ReadMetadata; a file that cannot be opened is none.
unfoldable pub read_metadata : Json → Option Members → Result FormatFault Metadata
read_metadata json path = do
  members ← required not_opened path
  (meta, rest) ← read_metadata_member json members
  ok meta

-- What is read before the destination is created: the metadata, the data member and what follows.
unfoldable pub read_header :
    Json → Option Members → Result FormatFault (Metadata × (Member × Members))
read_header json path = do
  members ← required not_opened path
  (meta, rest) ← read_metadata_member json members
  (m, rest') ← next_member missing_data rest
  refuse_if (not (text_eq m.name (data_member_name meta.encrypted))) wrong_data_member
  refuse_if (not (is_reg m.typeflag)) data_not_regular
  ok (meta, (m, rest'))

unfoldable pub trailer : Members → Result FormatFault (Unit {0})
trailer eof = ok tt
trailer corrupt = err bad_trailer
trailer (next m rest) = err extra_member

-- Whether os.OpenFile can create a file where none is, whether writing and closing it succeed, and
-- whether it can be removed; the file holds `partial` when its making fails.
pub record Output : Type 0 where
  pub can_create : Bool
  pub can_write : Bool
  pub can_close : Bool
  pub can_remove : Bool
  pub partial : Bytes

-- What may fail once the destination is created; the content copied is the result.
unfoldable pub copy_data : Output → Member × Members → Result FormatFault Bytes
copy_data out (m, rest) = do
  content ← read_all extract_failed m
  refuse_if (not out.can_write) extract_failed
  trailer rest
  refuse_if (not out.can_close) not_closed
  ok content

-- A destination that was created is removed again after a failure; the error of os.Remove is not
-- looked at.
unfoldable pub finished :
    Output → Metadata → Result FormatFault Bytes → Result FormatFault Metadata × Option Bytes
finished out meta (ok content) = (ok meta, some content)
finished out meta (err f) = (err f, if out.can_remove then none else some out.partial)

-- Opened with O_EXCL: anything that is there makes it fail.
unfoldable pub extract_to :
    Output
    → Result FormatFault (Metadata × (Member × Members))
    → Option Bytes
    → Result FormatFault Metadata × Option Bytes
extract_to out (err f) dest = (err f, dest)
extract_to out (ok header) (some there) = (err not_created, some there)
extract_to out (ok (meta, data_member)) none =
    if out.can_create
    then finished out meta (copy_data out data_member)
    else (err not_created, none)

-- ExtractData, with the destination's content, if it is there.
unfoldable pub extract_data :
    Json → Output → Option Members → Option Bytes → Result FormatFault Metadata × Option Bytes
extract_data json out path dest = extract_to out (read_header json path) dest
