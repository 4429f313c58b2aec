-- ===== src/Archive/Accepted.antt =====
-- What the headers of an archive are that ValidateDataTar accepts.
use tx.Base.{
  ℕ, ◌+◌, ◌≤◌, ◌≡◌, subst, true, false, List, [], ◌∷◌, arith, ok, inl, inr, length, Result-cases,
}
use tx.Archive.Index.{IsIndexOf, add_members_index}
use tx.Archive.Validate.{
  read_headers, no_headers, add_members, check_nesting, check_required, check_members, check_index,
  validate_data_tar, home, home_agent,
}
use tx.Archive.{Header, Entries, eof, corrupt, next, Stream, MemberIndex, empty_index}

-- The headers before the end of the archive.
abbrev pub headers_of : Entries → List Header
headers_of eof = []
headers_of corrupt = []
headers_of (next hdr rest) = hdr ∷ headers_of rest

-- The archive ends, and is not cut off by an error.
abbrev pub Ends : Entries → Type 0
Ends eof = Unit
Ends corrupt = ⊥
Ends (next hdr rest) = Ends rest

abbrev pub headers : Stream → List Header
headers s = headers_of s.entries

read_headers-eq-ok :
    (limit count : ℕ) (es : Entries) {hs : List Header}
    → count ≤ limit
    → read_headers limit count es ≡ ok hs
    → (hs ≡ headers_of es) × Ends es × (count + length hs ≤ limit)
unfolding read_headers
read_headers-eq-ok limit count eof c e = ground arith
read_headers-eq-ok limit count corrupt c e = ground arith
read_headers-eq-ok limit count (next hdr rest) {hs} c e =
    elim (Result-cases (read_headers limit (count + 1) rest)) [
      | inl (hs', r) ↦
          let (same, ends, few) =
            read_headers-eq-ok limit (count + 1) rest {hs = hs'} (ground arith) r in
          ground arith
      | inr (f, r) ↦ absurd (ground arith)
    ]

-- The passes that an accepted stream went through.
pub record Passed (limit : ℕ) (s : Stream) : Type 0 where
  pub idx : MemberIndex
  pub readable : (s.is_gzip ≡ true) × (s.drains ≡ true) × (s.closes ≡ true)
  pub complete : Ends s.entries
  pub fits : length (headers s) ≤ limit
  pub some_header : no_headers (headers s) ≡ false
  pub indexed : IsIndexOf idx (headers s)
  pub nesting : check_nesting idx idx.order ≡ ok tt
  pub required : check_required idx (home ∷ home_agent ∷ []) ≡ ok tt
  pub members : check_members idx [] idx.order ≡ ok tt

pub accepted-Passed : (limit : ℕ) (s : Stream) → validate_data_tar limit s ≡ ok tt → Passed limit s
unfolding validate_data_tar check_index
accepted-Passed limit s e = elim (Result-cases (read_headers limit 0 s.entries)) [
  | inr (f, r) ↦ absurd (ground arith)
  | inl (hs, r) ↦ elim (Result-cases (add_members empty_index hs)) [
    | inr (f, a) ↦ absurd (ground arith)
    | inl (idx, a) ↦
        let (same, ends, few) = read_headers-eq-ok limit 0 s.entries (omega arith) r in
        record {
          idx = idx;
          readable = (ground arith, ground arith, ground arith);
          complete = ends;
          fits = ground arith;
          some_header = ground arith;
          indexed = subst (λ l. IsIndexOf idx l) same (add_members_index hs a);
          nesting = ground arith;
          required = ground arith;
          members = ground arith;
        }
  ]
]
