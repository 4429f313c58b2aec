-- ===== src/Archive/Container.antt =====
-- What a container keeps, and what a failed extraction leaves.
use tx.Base.{
  if◌then◌else◌, arith, Bool, true, false, not, ◌≡◌, ◌≤◌, ◌==◌, ◌||◌, refl, sym, Option, none, some,
  Result, ok, err, Bool-cases, inl, inr, ok-injective, ltb, length, ◌⊎◌,
}
use tx.Archive.Format.{
  Json, Metadata, Member, Members, DataFile, Output, FormatFault, not_created, metadata_member,
  max_metadata_bytes, data_member_name, container, with_version, required, write_tx9, is_reg,
  checked_version, read_all, next_member, read_metadata_member, read_header, trailer, copy_data,
  finished, extract_to, extract_data,
}
use tx.Text.{Bytes, text_eq_refl}

-- A container that is written is of these two members.
pub write_tx9-container :
    (json : Json) (meta : Metadata) (df : DataFile) (can_write : Bool) (text : Bytes)
    (members : Members)
    → json.marshal (with_version meta) ≡ some text
    → write_tx9 json meta (some df) can_write ≡ ok members
    → members ≡ container text meta df
unfolding write_tx9 required
write_tx9-container json meta df can_write text members m w =
    elim (Bool-cases (not can_write || not (df.size == length df.content))) [
      | inl fails ↦ absurd (cc (rw (write_tx9, m, fails) at w))
      | inr fine ↦ sym (ok-injective (rw (write_tx9, m, fine) at w))
    ]

-- Reading those two members.
extract_data-container :
    (json : Json) (meta : Metadata) (df : DataFile) (text : Bytes) (out : Output)
    → json.unmarshal text ≡ some (with_version meta)
    → length text ≤ max_metadata_bytes
    → out.can_create ≡ true
    → out.can_write ≡ true
    → out.can_close ≡ true
    → extract_data json out (some (container text meta df)) none
      ≡ (ok (with_version meta), some df.content)
unfolding container extract_data read_header read_metadata_member next_member required read_all
    is_reg checked_version extract_to copy_data finished trailer with_version
extract_data-container json meta df text out u small c1 c2 c3 =
    let fits : ltb max_metadata_bytes (length text) ≡ false = ground (arith) in
    rw
      (
        text_eq_refl metadata_member,
        fits,
        u,
        text_eq_refl (data_member_name meta.encrypted),
        c1,
        c2,
        c3,
      )
      refl

-- What was written to a container with its metadata can be extracted from it again: a data file of
-- as many bytes as Stat says, whose metadata, with the current format version, encoding/json prints
-- in at most 64 KiB and reads back, comes out with that metadata and the same content, where the
-- output can be written and nothing is at the destination.
pub extract_data-write_tx9 :
    (json : Json) (meta : Metadata) (df : DataFile) (can_write : Bool) (text : Bytes)
    (members : Members) (out : Output)
    → json.marshal (with_version meta) ≡ some text
    → json.unmarshal text ≡ some (with_version meta)
    → length text ≤ max_metadata_bytes
    → write_tx9 json meta (some df) can_write ≡ ok members
    → out.can_create ≡ true
    → out.can_write ≡ true
    → out.can_close ≡ true
    → extract_data json out (some members) none ≡ (ok (with_version meta), some df.content)
extract_data-write_tx9 json meta df can_write text members out m u small w c1 c2 c3 =
    rw (write_tx9-container json meta df can_write text members m w)
      (extract_data-container json meta df text out u small c1 c2 c3)

finished-removed :
    (out : Output) (meta : Metadata) (r : Result FormatFault Bytes) {f : FormatFault}
    → (finished out meta r).0 ≡ err f
    → ((finished out meta r).1 ≡ none) ⊎ (out.can_remove ≡ false)
unfolding finished
finished-removed out meta (ok content) e = absurd (cc e)
finished-removed out meta (err f) e = elim (Bool-cases out.can_remove) [
  | inl can ↦ inl (rw can refl)
  | inr cannot ↦ inr cannot
]

created-untouched :
    (can : Bool) (out : Output) (meta : Metadata) (r : Result FormatFault Bytes) {f : FormatFault}
    → (if can then finished out meta r else (err not_created, none)).0 ≡ err f
    → ((if can then finished out meta r else (err not_created, none)).1 ≡ none)
      ⊎ (out.can_remove ≡ false)
created-untouched true out meta r e = finished-removed out meta r e
created-untouched false out meta r e = inl refl

extract_to-untouched :
    (out : Output) (header : Result FormatFault (Metadata × (Member × Members)))
    (dest : Option Bytes) {f : FormatFault}
    → (extract_to out header dest).0 ≡ err f
    → ((extract_to out header dest).1 ≡ dest) ⊎ ((dest ≡ none) × (out.can_remove ≡ false))
unfolding extract_to copy_data
extract_to-untouched out (err g) dest e = inl refl
extract_to-untouched out (ok header) (some there) e = inl refl
extract_to-untouched out (ok (meta, data_member)) none e =
    elim (created-untouched out.can_create out meta (copy_data out data_member) e) [
      | inl removed ↦ inl removed
      | inr cannot ↦ inr (refl, cannot)
    ]

-- An extraction that fails leaves at the destination what was there, be it a file or nothing, unless
-- nothing was there and the system cannot remove the file that the extraction has created: a file
-- that was there before is never changed.
pub extract_data-untouched :
    (json : Json) (out : Output) (path : Option Members) (dest : Option Bytes) (f : FormatFault)
    → (extract_data json out path dest).0 ≡ err f
    → ((extract_data json out path dest).1 ≡ dest) ⊎ ((dest ≡ none) × (out.can_remove ≡ false))
unfolding extract_data
extract_data-untouched json out path dest f e =
    extract_to-untouched out (read_header json path) dest e
