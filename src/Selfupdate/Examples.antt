-- ===== src/Selfupdate/Examples.antt =====
-- A file of checksums that is parsed.
use tx.Base.{◌≡◌, refl, [], ◌∷◌, ◌++◌, ok, All}
use tx.Dict.{IsMap, lookup, insert}
use tx.Selfupdate.Checksums.{
  IsChecksum, parse_checksums, parse_checksums-AreChecksums, add_lines, add_line, add_fields,
  add_entry, is_hex,
}
use tx.Selfupdate.Compare.{flip, compare_versions-flip}
use tx.Selfupdate.{compare_versions, equal}
use tx.Text.Split.{split}
use tx.Text.Trim.{trim_space, fields, to_lower}
use tx.Text.{Text, codes, is_empty, has_prefix, len, trim_prefix, is_space}

abbrev digest : Text
digest = codes "0123456789abcdef0123456789abcdef0123456789abcdef0123456789abcdef"

is_parsed : parse_checksums (digest ++ codes "  tx9") ≡ ok ((codes "tx9", digest) ∷ [])
unfolding parse_checksums add_lines add_line add_fields add_entry is_hex split trim_space fields
    to_lower is_empty has_prefix len trim_prefix is_space lookup insert
is_parsed = refl

parse_checksums-AreChecksums_example :
    IsMap ((codes "tx9", digest) ∷ []) × All IsChecksum ((codes "tx9", digest) ∷ [])
parse_checksums-AreChecksums_example =
    parse_checksums-AreChecksums (digest ++ codes "  tx9") is_parsed

compare_versions-flip_example :
    (compare_versions (codes "v0.2") (codes "0.2.1")
      ≡ flip (compare_versions (codes "0.2.1") (codes "v0.2")))
    × (compare_versions (codes "0.2.1") (codes "0.2.1") ≡ equal)
compare_versions-flip_example = compare_versions-flip (codes "0.2.1") (codes "v0.2")
