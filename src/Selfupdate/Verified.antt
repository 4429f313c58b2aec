-- ===== src/Selfupdate/Verified.antt =====
-- What an update has checked before the executable is replaced.
use tx.Base.{
  arith, Bool, true, false, not, ◌&&◌, ◌≡◌, ◌⊎◌, refl, sym, ap, ◌∙◌, Option, none, some, Result, ok,
  err, refuse_if, bind-eq-ok, Bool-cases, Result-cases, inl, inr, ok-injective, subst,
}
use tx.Dict.{lookup}
use tx.Selfupdate.Checksums.{ChecksumFault, Checksums, parse_checksums}
use tx.Selfupdate.Site.{
  dev_version, custom_version, no_executable, no_entry, UpdateFault, resolve_origin,
  fetch_latest_version, asset_name, fetch_bytes, download,
}
use tx.Selfupdate.Update.{
  Options, Machine, is_dev, is_custom, Disk, UpdateResult, Decision, up_to_date, install, is_newer,
  required, parsed, asset_url, checksums_url, decide_install, decide, staged, renamed, opened,
  carry_out, update,
}
use tx.Selfupdate.{normalize_version, split_numeric, Order, less, equal, greater, compare_versions}
use tx.Text.{Text, Bytes, text_eq, text_eq→eq}

-- What stands behind an executable that was replaced by this version's.
pub record IsVerified (m : Machine) (opts : Options) (version : Text) (after : Disk) : Type 0 where
  pub is_latest :
      fetch_latest_version m.client (resolve_origin m.env_origin opts.origin) ≡ ok version
  pub is_wanted : (opts.force ≡ true) ⊎ (compare_versions opts.current_version version ≡ less)
  pub is_served : download m.client (asset_url m opts version) ≡ ok after.binary
  pub listing : Text
  pub listing_served : fetch_bytes m.client (checksums_url m opts version) ≡ ok listing
  pub sums : Checksums
  pub listing_parsed : parse_checksums listing ≡ ok sums
  pub is_listed : lookup (asset_name opts.goos opts.goarch) sums ≡ some (m.sha256 after.binary)
  pub is_alone : after.has_stage ≡ false

required-eq-ok :
    {A : Type 0} (f : UpdateFault) (o : Option A) {a : A} → required f o ≡ ok a → o ≡ some a
unfolding required
required-eq-ok f none e = cc
required-eq-ok f (some a) e = ap some (ok-injective e)

parsed-eq-ok : (r : Result ChecksumFault Checksums) {s : Checksums} → parsed r ≡ ok s → r ≡ ok s
unfolding parsed
parsed-eq-ok (ok s) e = ap ok (ok-injective e)
parsed-eq-ok (err f) e = cc

is_newer-less : (o : Order) → is_newer o ≡ true → o ≡ less
unfolding is_newer
is_newer-less less e = refl
is_newer-less equal e = cc
is_newer-less greater e = cc

staged-eq-ok :
    (m : Machine) (url digest : Text) {content : Bytes}
    → staged m url digest ≡ ok content
    → (download m.client url ≡ ok content) × (m.sha256 content ≡ digest)
unfolding staged
staged-eq-ok m url digest {content} e =
    let (c, got, e1) = bind-eq-ok (download m.client url) _ e in
    let checked : text_eq (m.sha256 c) digest ≡ true = ground arith in
    let same : c ≡ content = ground arith in
    (got ∙ ap ok same, subst (λ t. m.sha256 t ≡ digest) same (text_eq→eq _ _ checked))

-- A decision to install names the release, its asset and the digest that was published for it.
record IsDecided (m : Machine) (opts : Options) (latest url digest : Text) : Type 0 where
  is_latest : fetch_latest_version m.client (resolve_origin m.env_origin opts.origin) ≡ ok latest
  is_wanted : (opts.force ≡ true) ⊎ (compare_versions opts.current_version latest ≡ less)
  url_is : url ≡ asset_url m opts latest
  listing : Text
  listing_served : fetch_bytes m.client (checksums_url m opts latest) ≡ ok listing
  sums : Checksums
  listing_parsed : parse_checksums listing ≡ ok sums
  is_listed : lookup (asset_name opts.goos opts.goarch) sums ≡ some digest

decide_install-IsDecided :
    (m : Machine) (opts : Options) (latest latest' path url digest : Text)
    → fetch_latest_version m.client (resolve_origin m.env_origin opts.origin) ≡ ok latest
    → (opts.force ≡ true) ⊎ (compare_versions opts.current_version latest ≡ less)
    → decide_install m opts latest ≡ ok (install latest' path url digest)
    → (latest ≡ latest') × IsDecided m opts latest url digest
unfolding decide_install
decide_install-IsDecided m opts latest latest' path url digest is_latest is_wanted e =
    let (p, found, e1) = bind-eq-ok (required no_executable m.real_path) _ e in
    let (listing, served, e2) =
      bind-eq-ok (fetch_bytes m.client (checksums_url m opts latest)) _ e1 in
    let (sums, is_parsed, e3) = bind-eq-ok (parsed (parse_checksums listing)) _ e2 in
    let (d, listed, e4) =
      bind-eq-ok (required no_entry (lookup (asset_name opts.goos opts.goarch) sums)) _ e3 in
    let same_digest : d ≡ digest = cc in
    (
      cc,
      record {
        is_latest = is_latest;
        is_wanted = is_wanted;
        url_is = cc;
        listing = listing;
        listing_served = served;
        sums = sums;
        listing_parsed = parsed-eq-ok _ is_parsed;
        is_listed = required-eq-ok _ _ listed ∙ ap some same_digest;
      },
    )

wanted :
    (force : Bool) (o : Order)
    → (not force && not (is_newer o)) ≡ false
    → (force ≡ true) ⊎ (o ≡ less)
wanted true o e = inl refl
wanted false o e = inr (is_newer-less o (ground arith))

decide-IsDecided :
    (m : Machine) (opts : Options) (latest path url digest : Text)
    → decide m opts ≡ ok (install latest path url digest)
    → IsDecided m opts latest url digest
unfolding decide
decide-IsDecided m opts latest path url digest e =
    let (u1, _, e1) =
      bind-eq-ok (refuse_if (is_dev opts.current_version && not opts.force) dev_version) _ e in
    let (u2, _, e2) =
      bind-eq-ok
        (refuse_if
          (is_custom (split_numeric (normalize_version opts.current_version)) && not opts.force)
          custom_version)
        _ e1 in
    let (l, is_latest, e3) =
      bind-eq-ok (fetch_latest_version m.client (resolve_origin m.env_origin opts.origin)) _ e2 in
    elim (Bool-cases (not opts.force && not (is_newer (compare_versions opts.current_version l)))) [
      | inl old ↦ absurd (cc (rw old at e3))
      | inr new ↦
          let (same, decided) =
            decide_install-IsDecided m opts l latest path url digest is_latest
              (wanted opts.force (compare_versions opts.current_version l) new) (rw new at e3) in
          subst (λ v. IsDecided m opts v url digest) same decided
    ]

renamed-IsVerified :
    (m : Machine) (opts : Options) (latest path url digest : Text) (d : Disk) {r : UpdateResult}
    → IsDecided m opts latest url digest
    → (renamed m latest opts path (staged m url digest) d).0 ≡ ok r
    → IsVerified m opts r.to_version (renamed m latest opts path (staged m url digest) d).1
unfolding renamed
renamed-IsVerified m opts latest path url digest d {r} decided e =
    elim (Result-cases (staged m url digest)) [
      | inr (f, s) ↦ absurd (cc (rw (s, renamed) at e))
      | inl (content, s) ↦
          let (served, digest_is) = staged-eq-ok m url digest s in
          let same : latest ≡ r.to_version =
            ap (λ x. x.to_version) (ok-injective (rw (s, renamed) at e)) in
          rw (s, renamed)
            (subst (λ v. IsVerified m opts v (record { binary = content; has_stage = false })) same
              (record {
                is_latest = decided.is_latest;
                is_wanted = decided.is_wanted;
                is_served = ap (download m.client) (sym decided.url_is) ∙ served;
                listing = decided.listing;
                listing_served = decided.listing_served;
                sums = decided.sums;
                listing_parsed = decided.listing_parsed;
                is_listed = decided.is_listed ∙ ap some (sym digest_is);
                is_alone = refl;
              }))
    ]

opened-IsVerified :
    (m : Machine) (opts : Options) (can : Bool) (latest path url digest : Text) (d : Disk)
    {r : UpdateResult}
    → IsDecided m opts latest url digest
    → (opened m can latest opts path (staged m url digest) d).0 ≡ ok r
    → IsVerified m opts r.to_version (opened m can latest opts path (staged m url digest) d).1
unfolding opened
opened-IsVerified m opts false latest path url digest d decided e = absurd (cc e)
opened-IsVerified m opts true latest path url digest d decided e =
    renamed-IsVerified m opts latest path url digest _ decided e

carry_out-IsVerified :
    (m : Machine) (opts : Options) (decision : Result UpdateFault Decision) (d : Disk)
    {r : UpdateResult}
    → decide m opts ≡ decision
    → (carry_out m opts decision d).0 ≡ ok r
    → r.applied ≡ true
    → IsVerified m opts r.to_version (carry_out m opts decision d).1
unfolding carry_out
carry_out-IsVerified m opts (err f) d decided e is_applied = absurd (cc e)
carry_out-IsVerified m opts (ok (up_to_date latest)) d {r} decided e is_applied =
    let old : false ≡ r.applied = ap (λ x. x.applied) (ok-injective e) in
    absurd (cc (old, is_applied))
carry_out-IsVerified m opts (ok (install latest path url digest)) d decided e is_applied =
    opened-IsVerified m opts m.can_create latest path url digest d
      (decide-IsDecided m opts latest path url digest decided) e

-- When Update says that it replaced the executable, then its content is what the release site served
-- in full for the asset of the latest release, its SHA-256 digest is the one that the parsed
-- checksums of that release list for the asset, and that release is newer than the running version
-- or the update was forced; no staged file is left.
pub update-IsVerified :
    (m : Machine) (opts : Options) (d : Disk) (r : UpdateResult)
    → (update m opts d).0 ≡ ok r
    → r.applied ≡ true
    → IsVerified m opts r.to_version (update m opts d).1
unfolding update
update-IsVerified m opts d r e is_applied = carry_out-IsVerified m opts _ d refl e is_applied
