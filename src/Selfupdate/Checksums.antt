-- ===== src/Selfupdate/Checksums.antt =====
-- ParseChecksums. The text is split at newlines, where bufio.Scanner also drops a carriage return
-- before a newline and an empty last line: each line is trimmed, and an empty one is skipped.
use tx.Base.{
  sym, ok-injective, bind-eq-ok, arith, subst, ◌≡◌, Bool, true, false, Bool-cases, ◌&&◌, ◌||◌, not,
  ℕ, ◌==◌, leb, Option, none, some, List, [], ◌∷◌, Result, ok, err, ◌>>=◌, ◌>>◌, refuse_if,
  if◌then◌else◌, All, inl, inr,
}
use tx.Dict.{Dict, lookup, insert, IsMap, IsMap-insert, All-insert}
use tx.Text.Split.{split}
use tx.Text.Trim.{trim_space, fields, to_lower}
use tx.Text.{Text, codes, is_empty, has_prefix, len, trim_prefix, text_eq→eq}

pub data ChecksumFault : Type 0 where
  malformed not_hex empty_filename duplicate line_too_long : ChecksumFault

unfoldable pub is_hex : Text → Bool
is_hex [] = true
is_hex (c ∷ s) = ((leb b'0' c && leb c b'9') || (leb b'a' c && leb c b'f')) && is_hex s

abbrev pub Checksums : Type 0
Checksums = Dict Text

is_none : Option Text → Bool
is_none none = true
is_none (some d) = false

unfoldable pub add_entry : Checksums → Text → Text → Result ChecksumFault Checksums
unfolding is_none
add_entry out digest name = do
  refuse_if (not (len digest == 64) || not (is_hex digest)) not_hex
  refuse_if (is_empty name) empty_filename
  refuse_if (not (is_none (lookup name out))) duplicate
  ok (insert name digest out)

unfoldable pub add_fields : Checksums → List Text → Result ChecksumFault Checksums
add_fields out (digest ∷ name ∷ []) = add_entry out (to_lower digest) (trim_prefix name (codes "*"))
add_fields out _ = err malformed

unfoldable pub add_line : Checksums → Text → Result ChecksumFault Checksums
add_line out raw =
    let line = trim_space raw in
    if is_empty line || has_prefix line (codes "#") then ok out else add_fields out (fields line)

-- The size of the scanner's buffer, which a line must leave a byte of.
abbrev pub max_scan_token_size : ℕ
max_scan_token_size = 65536

-- The scanner stops at a line that is too long, and its error comes after the loop.
unfoldable pub add_lines : Checksums → List Text → Result ChecksumFault Checksums
add_lines out [] = ok out
add_lines out (raw ∷ lines) = do
  refuse_if (leb max_scan_token_size (len raw)) line_too_long
  out' ← add_line out raw
  add_lines out' lines

unfoldable pub parse_checksums : Text → Result ChecksumFault Checksums
parse_checksums contents = add_lines [] (split b'\n' contents)

-- A filename with a SHA-256 digest.
abbrev pub IsChecksum : Text × Text → Type 0
IsChecksum (name, digest) = (is_empty name ≡ false) × (len digest ≡ 64) × (is_hex digest ≡ true)

abbrev AreChecksums : Checksums → Type 0
AreChecksums out = IsMap out × All IsChecksum out

add_entry-AreChecksums :
    (out : Checksums) (digest name : Text) {out' : Checksums}
    → add_entry out digest name ≡ ok out'
    → AreChecksums out
    → AreChecksums out'
unfolding add_entry
add_entry-AreChecksums out digest name {out'} e (m, a) =
    let entry : IsChecksum (name, digest) = (ground arith, ground arith, ground arith) in
    let written : insert name digest out ≡ out' = ground arith in
    subst AreChecksums written (
      IsMap-insert name digest out m,
      All-insert IsChecksum name digest out
          (λ j same p. subst (λ k. IsChecksum (k, digest)) (sym (text_eq→eq j name same)) p) entry
          a,
    )

add_fields-AreChecksums :
    (out : Checksums) (fs : List Text) {out' : Checksums}
    → add_fields out fs ≡ ok out'
    → AreChecksums out
    → AreChecksums out'
unfolding add_fields
add_fields-AreChecksums out [] e h = cc
add_fields-AreChecksums out (f ∷ []) e h = cc
add_fields-AreChecksums out (f ∷ g ∷ []) e h =
    add_entry-AreChecksums out (to_lower f) (trim_prefix g (codes "*")) e h
add_fields-AreChecksums out (f ∷ g ∷ k ∷ fs) e h = cc

add_line-AreChecksums :
    (out : Checksums) (raw : Text) {out' : Checksums}
    → add_line out raw ≡ ok out'
    → AreChecksums out
    → AreChecksums out'
unfolding add_line
add_line-AreChecksums out raw {out'} e h =
    elim (Bool-cases (is_empty (trim_space raw) || has_prefix (trim_space raw) (codes "#"))) [
      | inl skipped ↦ subst AreChecksums (ok-injective (rw skipped at e)) h
      | inr kept ↦ add_fields-AreChecksums out (fields (trim_space raw)) (rw kept at e) h
    ]

add_lines-AreChecksums :
    (out : Checksums) (lines : List Text) {out' : Checksums}
    → add_lines out lines ≡ ok out'
    → AreChecksums out
    → AreChecksums out'
unfolding add_lines
add_lines-AreChecksums out [] e h = subst AreChecksums (ok-injective e) h
add_lines-AreChecksums out (raw ∷ lines) e h =
    let (u, fits, e0) =
      bind-eq-ok (refuse_if (leb max_scan_token_size (len raw)) line_too_long) _ e in
    let (out1, e1, e2) = bind-eq-ok (add_line out raw) (λ o. add_lines o lines) e0 in
    add_lines-AreChecksums out1 lines e2 (add_line-AreChecksums out raw e1 h)

-- What ParseChecksums returns lists no filename twice, and under every filename, which is not
-- empty, it holds a digest of exactly 64 hexadecimal digits in lower case.
pub parse_checksums-AreChecksums :
    (contents : Text) {out : Checksums}
    → parse_checksums contents ≡ ok out
    → IsMap out × All IsChecksum out
unfolding parse_checksums
parse_checksums-AreChecksums contents e =
    add_lines-AreChecksums [] (split b'\n' contents) e (tt, tt)
