-- ===== src/State/RoundTrip.antt =====
-- What WriteBoxEnv writes, ReadBoxEnv reads back.
use tx.Base.{
  ℕ, ◌≡◌, ◌≢◌, refl, ◌∙◌, subst, Bool, true, false, ◌&&◌, ◌||◌, not, Option, none, some, [], ◌∷◌,
  ◌++◌, append_assoc, arith, All, All-map, Bool-cases, ◌⊎◌, inl, inr, if◌then◌else◌, ◌==◌,
}
use tx.Dict.{IsMap, lookup, insert, lookup-insert}
use tx.Text.Split.{split, cut-append, Lacks, split-append}
use tx.Text.Trim.{
  trim_space, trim_suffix, NoSpace, trim_space-NoSpace, trim_space_head, trim_suffix-append,
}
use tx.Text.{
  Text, contains, is_empty, has_prefix, is_space, text_lt, text_eq, text_eq_iff, text_eq→eq,
}
use tx.State.{
  Env, newline, equals, read_line, read_lines, read_env, insert_sorted, sort_env, print_pairs,
  print_env,
}

-- A key that the file format can carry: no blank, no "#" and no "=".
abbrev pub IsKey : Text → Type 0
IsKey k = All (λ c. (is_space c ≡ false) × (c ≢ b'#') × (c ≢ equals)) k

-- A value that it can carry: one line that does not end in a carriage return.
abbrev pub IsValue : Text → Type 0
IsValue v = All (λ c. c ≢ newline) v × ((u : Text) → v ≢ u ++ b'\r' ∷ [])

abbrev pub IsPair : Text × Text → Type 0
IsPair (k, v) = IsKey k × IsValue v

IsKey-NoSpace : (k : Text) → IsKey k → NoSpace k
IsKey-NoSpace k h = All-map _ _ k (λ c x. x.0) h

IsKey-Lacks : (c : ℕ) (k : Text) → (is_space c ≡ true) ⊎ (c ≡ equals) → IsKey k → Lacks c k
unfolding contains
IsKey-Lacks c [] d h = refl
IsKey-Lacks c (x ∷ k) d h = ground (arith, IsKey-Lacks c k d h.1, h.0)

Lacks-newline : (v : Text) → All (λ c. c ≢ newline) v → Lacks newline v
unfolding contains
Lacks-newline [] h = refl
Lacks-newline (x ∷ v) h = ground (arith, Lacks-newline v h.1, h.0)

Lacks-append :
    (c x : ℕ) (k v : Text) → Lacks c k → (x == c) ≡ false → Lacks c v → Lacks c (k ++ (x ∷ v))
unfolding contains
Lacks-append c x [] v h n l = rw (n, l) refl
Lacks-append c x (y ∷ k) v h n l = ground (arith, Lacks-append c x k v)

-- A printed pair is neither blank nor a comment.
line_is_kept :
    (k v : Text)
    → IsKey k
    → (is_empty (trim_space (k ++ (equals ∷ v)))
        || has_prefix (trim_space (k ++ (equals ∷ v))) (b'#' ∷ []))
      ≡ false
unfolding is_empty has_prefix
line_is_kept [] v h = let (t, e) = trim_space_head equals v (unfold is_space in refl) in rw e refl
line_is_kept (c ∷ k) v h =
    let (t, e) = trim_space_head c (k ++ (equals ∷ v)) h.0.0 in rw e (ground (arith, h.0))

-- One printed line is read as its pair.
read_line-pair :
    (env : Env) (k v : Text)
    → IsKey k
    → IsValue v
    → read_line env (k ++ (equals ∷ v)) ≡ insert k v env
unfolding read_line
read_line-pair env k v hk hv = rw (trim_suffix-append k equals v b'\r' refl hv.1) (
    rw (line_is_kept k v hk) (
      rw (cut-append equals k v (IsKey-Lacks equals k (inr refl) hk))
        (rw (trim_space-NoSpace k (IsKey-NoSpace k hk)))))

insert_pairs : Env → Env → Env
insert_pairs env [] = env
insert_pairs env ((k, v) ∷ pairs) = insert_pairs (insert k v env) pairs

read_line-blank : (env : Env) → read_line env [] ≡ env
unfolding read_line
read_line-blank env = unfold trim_suffix trim_space is_empty has_prefix in refl

read_lines-print_pairs :
    (env pairs : Env)
    → All IsPair pairs
    → read_lines env (split newline (print_pairs pairs)) ≡ insert_pairs env pairs
unfolding print_pairs insert_pairs read_lines
read_lines-print_pairs env [] h = unfold split in read_line-blank env
read_lines-print_pairs env ((k, v) ∷ pairs) h =
    let one =
      Lacks-append newline equals k v (IsKey-Lacks newline k (inl (unfold is_space in refl)) h.0.0)
        refl (Lacks-newline v h.0.1.0) in
    rw (← append_assoc k (equals ∷ v) (newline ∷ print_pairs pairs)) (
      rw (split-append newline (k ++ (equals ∷ v)) (print_pairs pairs) one) (
        rw (read_line-pair env k v h.0.0 h.0.1, read_lines)
          (read_lines-print_pairs (insert k v env) pairs h.1)))

lookup-insert_pairs :
    (env pairs : Env) (j : Text)
    → IsMap pairs
    → lookup j (insert_pairs env pairs)
      ≡ (elim (lookup j pairs) [ none ↦ lookup j env | some v ↦ some v ])
unfolding insert_pairs lookup
lookup-insert_pairs env [] j m = refl
lookup-insert_pairs env ((k, v) ∷ pairs) j m = elim (Bool-cases (text_eq k j)) [
  | inl same ↦
      let e = text_eq→eq k j same in
      let gone : lookup j pairs ≡ none = subst (λ i. lookup i pairs ≡ none) e m.0 in
      rw (lookup-insert_pairs (insert k v env) pairs j m.1)
        (rw gone (rw same (lookup-insert k j v env ∙ rw same)))
  | inr other ↦
      rw (lookup-insert_pairs (insert k v env) pairs j m.1)
        (ground (arith, lookup-insert k j v env))
]

text_lt_self : (s : Text) → text_lt s s ≡ false
unfolding text_lt
text_lt_self [] = refl
text_lt_self (c ∷ s) = ground (arith, text_lt_self s)

text_lt_irrefl : (j k : Text) → text_lt j k ≡ true → text_eq k j ≡ false
text_lt_irrefl j k h = elim (Bool-cases (text_eq k j)) [
  | inr n ↦ n
  | inl e ↦ absurd (cc (subst (λ i. text_lt j i ≡ true) (text_eq→eq k j e) h, text_lt_self j))
]

lookup-insert_sorted :
    (j k v : Text) (env : Env)
    → lookup j (insert_sorted k v env) ≡ (if text_eq k j then some v else lookup j env)
unfolding insert_sorted lookup
lookup-insert_sorted j k v [] = refl
lookup-insert_sorted j k v ((i, w) ∷ env) = ground (
  arith,
  lookup-insert_sorted j k v env,
  text_lt_irrefl i k,
  text_eq_iff i j,
  text_eq_iff k j,
  text_eq_iff k i,
)

lookup-sort_env : (j : Text) (env : Env) → lookup j (sort_env env) ≡ lookup j env
unfolding sort_env lookup
lookup-sort_env j [] = refl
lookup-sort_env j ((k, v) ∷ env) =
    rw (lookup-insert_sorted j k v (sort_env env)) (rw (lookup-sort_env j env))

IsMap-insert_sorted :
    (k v : Text) (env : Env) → lookup k env ≡ none → IsMap env → IsMap (insert_sorted k v env)
unfolding insert_sorted lookup
IsMap-insert_sorted k v [] n m = (refl, tt)
IsMap-insert_sorted k v ((i, w) ∷ env) n m = elim (Bool-cases (text_lt i k)) [
  | inl before ↦
      let ne = text_lt_irrefl i k before in
      rw before (
        lookup-insert_sorted i k v env ∙ rw ne m.0,
        IsMap-insert_sorted k v env (ground (arith, text_eq_iff i k, text_eq_iff k i)) m.1,
      )
  | inr behind ↦ rw behind (n, m)
]

IsMap-sort_env : (env : Env) → IsMap env → IsMap (sort_env env)
unfolding sort_env
IsMap-sort_env [] m = tt
IsMap-sort_env ((k, v) ∷ env) m =
    IsMap-insert_sorted k v (sort_env env) (lookup-sort_env k env ∙ m.0) (IsMap-sort_env env m.1)

All-insert_sorted :
    (k v : Text) (env : Env) → IsPair (k, v) → All IsPair env → All IsPair (insert_sorted k v env)
unfolding insert_sorted
All-insert_sorted k v [] p a = (p, tt)
All-insert_sorted k v ((i, w) ∷ env) p a = elim (Bool-cases (text_lt i k)) [
  | inl before ↦ rw before (a.0, All-insert_sorted k v env p a.1)
  | inr behind ↦ rw behind (p, a)
]

All-sort_env : (env : Env) → All IsPair env → All IsPair (sort_env env)
unfolding sort_env
All-sort_env [] a = tt
All-sort_env ((k, v) ∷ env) a = All-insert_sorted k v (sort_env env) a.0 (All-sort_env env a.1)

-- ReadBoxEnv reads, under every key, the value that WriteBoxEnv wrote, and nothing under any other
-- key, provided that no key holds a blank, a "#" or a "=", and that every value is one line that
-- does not end in a carriage return.
pub read_env-print_env :
    (env : Env) (j : Text)
    → IsMap env
    → All IsPair env
    → lookup j (read_env (print_env env)) ≡ lookup j env
unfolding read_env print_env
read_env-print_env env j m a = rw (read_lines-print_pairs [] (sort_env env) (All-sort_env env a)) (
    lookup-insert_pairs [] (sort_env env) j (IsMap-sort_env env m)
    ∙ rw (lookup-sort_env j env) (or_nothing (lookup j env)))
  where
    or_nothing :
        (o : Option Text) → (elim o [ none ↦ lookup {V = Text} j [] | some v ↦ some v ]) ≡ o
    or_nothing none = unfold lookup in refl
    or_nothing (some v) = refl

-- The conditions on a key, as a test.
unfoldable pub key_is_fine : Text → Bool
key_is_fine [] = true
key_is_fine (c ∷ s) = not (is_space c) && not (c == b'#') && not (c == equals) && key_is_fine s

pub IsKey-tested : (s : Text) → key_is_fine s ≡ true → IsKey s
unfolding key_is_fine
IsKey-tested [] h = tt
IsKey-tested (c ∷ s) h = (ground arith, IsKey-tested s (ground arith))
