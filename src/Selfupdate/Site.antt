-- ===== src/Selfupdate/Site.antt =====
-- internal/selfupdate/site.go and asset.go, with fetchBytes and downloadToFile of selfupdate.go: what
-- is asked of the release site. The HTTP client is a parameter; timeouts and stalls are failures of
-- it, and so is a URL that makes no request.
use tx.Base.{
  ℕ, Bool, false, not, ◌&&◌, ◌==◌, ltb, length, Option, none, some, List, [], ◌∷◌, ◌++◌,
  if◌then◌else◌, Result, ok, err, ◌>>=◌, ◌>>◌, refuse_if,
}
use tx.Decimal.{all_digits}
use tx.Selfupdate.Checksums.{ChecksumFault}
use tx.Text.Split.{split}
use tx.Text.Trim.{trim_space}
use tx.Text.{Text, Bytes, codes, is_empty, len}

-- A reply, whose body is a text or, for an asset, bytes: the status, Content-Length where it is known, what the body gives, and whether reading it
-- to its end succeeds.
pub record Response : Type 0 where
  pub status : ℕ
  pub content_length : Option ℕ
  pub body : List ℕ
  pub complete : Bool

-- http.Client.Do on a GET of this URL.
abbrev pub Client : Type 0
Client = Text → Option Response

pub data UpdateFault : Type 0 where
  dev_version custom_version no_release : UpdateFault
  request_failed bad_status too_large bad_version : UpdateFault
  no_executable no_entry checksum_mismatch file_failed : UpdateFault
  bad_checksums : ChecksumFault → UpdateFault

abbrev pub default_origin : Text
default_origin = codes "https://tx9.col-agents.com"

-- strings.TrimRight(s, "/")
unfoldable pub trim_slashes : Text → Text
unfolding is_empty
trim_slashes [] = []
trim_slashes (c ∷ s) =
    let rest = trim_slashes s in if is_empty rest && c == b'/' then [] else c ∷ rest

-- ResolveOrigin, with the value of TX9_ORIGIN.
unfoldable pub resolve_origin : Text → Text → Text
resolve_origin env override =
    trim_slashes
      (if not (is_empty override) then override else if is_empty env then default_origin else env)

-- versionRE
unfoldable pub is_number : Text → Bool
is_number s = not (is_empty s) && all_digits s

unfoldable pub is_release : List Text → Bool
is_release (major ∷ minor ∷ patch ∷ []) = is_number major && is_number minor && is_number patch
is_release _ = false

unfoldable pub answer : Option Response → Result UpdateFault Response
answer none = err request_failed
answer (some resp) = ok resp

-- io.ReadAll or io.Copy on an io.LimitReader that lets one byte more than the limit through, and the
-- check; the first argument counts the bytes of the body.
unfoldable pub read_limited : (List ℕ → ℕ) → ℕ → Response → Result UpdateFault (List ℕ)
read_limited size limit resp =
    if ltb limit (size resp.body)
    then err too_large
    else if resp.complete
    then ok resp.body
    else err request_failed

unfoldable pub latest_version : Text → Result UpdateFault Text
latest_version body =
    let version = trim_space body in
    if is_release (split b'.' version) then ok version else err bad_version

unfoldable pub fetch_latest_version : Client → Text → Result UpdateFault Text
fetch_latest_version client origin = do
  resp ← answer (client (origin ++ codes "/releases/latest"))
  refuse_if (resp.status == 404) no_release
  refuse_if (not (resp.status == 200)) bad_status
  body ← read_limited len 4096 resp
  latest_version body

unfoldable pub asset_name : Text → Text → Text
asset_name goos goarch = codes "tx9_" ++ (goos ++ (codes "_" ++ goarch))

abbrev pub max_checksums_bytes : ℕ
max_checksums_bytes = 1048576

unfoldable pub fetch_bytes : Client → Text → Result UpdateFault Text
fetch_bytes client url = do
  resp ← answer (client url)
  refuse_if (not (resp.status == 200)) bad_status
  read_limited len max_checksums_bytes resp

abbrev pub max_asset_bytes : ℕ
max_asset_bytes = 268435456

unfoldable pub announces_too_much : Option ℕ → Bool
announces_too_much none = false
announces_too_much (some n) = ltb max_asset_bytes n

-- downloadToFile: what was written to the file when it succeeds.
unfoldable pub download : Client → Text → Result UpdateFault Bytes
download client url = do
  resp ← answer (client url)
  refuse_if (not (resp.status == 200)) bad_status
  refuse_if (announces_too_much resp.content_length) too_large
  read_limited length max_asset_bytes resp
