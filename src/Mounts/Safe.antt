-- ===== src/Mounts/Safe.antt =====
-- Where the targets of validated mounts lie.
use tx.Archive.Lexical.{lexical, lexical_step}
use tx.Base.{
  ◌≡◌, ◌≢◌, refl, sym, ap, ◌∙◌, subst, true, false, ◌||◌, some, List, [], ◌∷◌, ◌++◌, arith,
  append_assoc, append-nil, ok, Bool-cases, inl, inr, All, All-append, All-map, In,
}
use tx.Dict.{elem}
use tx.Mounts.Clean.{
  slash, dot, dotdot, drop_last, last_is_dotdot, go_back, clean_element, clean_elements, clean,
  is_abs,
}
use tx.Mounts.Validate.{
  validate_agent_mount, validate_targets, validate_agent_mount_set, is_clean_abs,
}
use tx.Mounts.{AgentMount}
use tx.Text.Split.{split, join, Lacks, split-Lacks, split-join, split-ne-nil}
use tx.Text.{Text, codes, is_empty, text_eq, text_eq→eq, text_eq_iff, has_prefix}

-- An element of a clean path.
record IsName (p : Text) : Type 0 where
  not_empty : is_empty p ≡ false
  no_slash : Lacks b'/' p
  not_dot : text_eq p dot ≡ false
  not_dotdot : text_eq p dotdot ≡ false

drop_last-IsName : (ps : List Text) → All IsName ps → All IsName (drop_last ps)
unfolding drop_last
drop_last-IsName [] h = tt
drop_last-IsName (p ∷ []) h = tt
drop_last-IsName (p ∷ q ∷ ps) h = (h.0, drop_last-IsName (q ∷ ps) h.1)

clean_element-IsName :
    (out : List Text) (p : Text)
    → All IsName out
    → Lacks b'/' p
    → All IsName (clean_element true out p)
unfolding clean_element go_back
clean_element-IsName out p h l = elim (Bool-cases (is_empty p || text_eq p dot)) [
  | inl skip ↦ rw skip h
  | inr name ↦ rw name (elim (Bool-cases (text_eq p dotdot)) [
    | inl back ↦ rw back (elim (Bool-cases (last_is_dotdot out)) [
      | inl stay ↦ rw stay h
      | inr go ↦ rw go (drop_last-IsName out h)
    ])
    | inr plain ↦ rw plain (
        All-append IsName out (p ∷ []) h (
          record {
            not_empty = ground arith;
            no_slash = l;
            not_dot = ground arith;
            not_dotdot = plain;
          },
          tt,
        ))
  ])
]

clean_elements-IsName :
    (out ps : List Text)
    → All IsName out
    → All (Lacks b'/') ps
    → All IsName (clean_elements true out ps)
unfolding clean_elements
clean_elements-IsName out [] h l = h
clean_elements-IsName out (p ∷ ps) h l =
    clean_elements-IsName (clean_element true out p) ps (clean_element-IsName out p h l.0) l.1

has_prefix-rest : (s p : Text) → has_prefix s p ≡ true → (rest : Text) × (s ≡ p ++ rest)
unfolding has_prefix
has_prefix-rest s [] h = (s, refl)
has_prefix-rest [] (x ∷ p) h = cc
has_prefix-rest (c ∷ s) (x ∷ p) h =
    let (rest, e) = has_prefix-rest s p (ground arith) in (rest, ground arith)

lexical_step-IsName :
    (at : List Text) (p : Text) → IsName p → lexical_step at p ≡ some (at ++ p ∷ [])
unfolding lexical_step
lexical_step-IsName at p n = rw (n.not_empty, n.not_dot, n.not_dotdot)

lexical-IsName : (at ps : List Text) → All IsName ps → lexical at ps ≡ some (at ++ ps)
unfolding lexical
lexical-IsName at [] h = rw append-nil
lexical-IsName at (p ∷ ps) h =
    rw (lexical_step-IsName at p h.0, lexical)
      (lexical-IsName (at ++ p ∷ []) ps h.1 ∙ ap some (append_assoc at (p ∷ []) ps))

split_slash : (s : Text) → split b'/' (b'/' ∷ s) ≡ [] ∷ split b'/' s
unfolding split
split_slash s = refl

join_empty : is_empty (join slash []) ≡ true
unfolding join is_empty
join_empty = refl

split_of_join :
    (s : Text) (els : List Text)
    → All IsName els
    → join slash els ≡ s
    → is_empty s ≡ false
    → All IsName (split b'/' s)
split_of_join s [] a e ne = absurd (cc (subst (λ t. is_empty t ≡ false) (sym e) ne, join_empty))
split_of_join s (p ∷ ps) a e ne = rw (← e) (
    rw
      (split-join b'/' (p ∷ ps) (λ h. cc)
        (All-map IsName (Lacks b'/') (p ∷ ps) (λ x n. n.no_slash) a))
      a)

-- The elements of a clean rooted path are names.
clean-elements :
    (s : Text) → clean (b'/' ∷ s) ≡ b'/' ∷ s → is_empty s ≡ false → All IsName (split b'/' s)
unfolding clean is_abs has_prefix
clean-elements s e ne =
    split_of_join s (clean_elements true [] (split b'/' (b'/' ∷ s)))
      (clean_elements-IsName [] (split b'/' (b'/' ∷ s)) tt (split-Lacks b'/' (b'/' ∷ s))) (cc e) ne

mnt_elements :
    (rest : Text) → split b'/' (codes "/mnt/" ++ rest) ≡ [] ∷ codes "mnt" ∷ split b'/' rest
unfolding split
mnt_elements rest = refl

-- A path strictly below /mnt, links not followed.
pub record IsBelowMnt (target : Text) : Type 0 where
  pub first : Text
  pub others : List Text
  pub lands : lexical [] (split b'/' target) ≡ some (codes "mnt" ∷ first ∷ others)

below_mnt :
    (rest : Text)
    → clean (codes "/mnt/" ++ rest) ≡ codes "/mnt/" ++ rest
    → IsBelowMnt (codes "/mnt/" ++ rest)
below_mnt rest e =
    let names = clean-elements (codes "mnt/" ++ rest) e (unfold is_empty in refl) in
    by_rest (split b'/' rest) (split-ne-nil b'/' rest) refl (unfold split in names)
  where
    by_rest :
        (ps : List Text)
        → ps ≢ []
        → split b'/' rest ≡ ps
        → All IsName (codes "mnt" ∷ split b'/' rest)
        → IsBelowMnt (codes "/mnt/" ++ rest)
    by_rest [] ne same names = absurd (ne refl)
    by_rest (q ∷ qs) ne same names = record {
      first = q;
      others = qs;
      lands = rw (mnt_elements rest) (
          unfold lexical lexical_step is_empty in
          (lexical-IsName [] (codes "mnt" ∷ split b'/' rest) names
            ∙ ap (λ ps. some (codes "mnt" ∷ ps)) same));
    }

is_clean_abs-clean : (p : Text) → is_clean_abs p ≡ true → clean p ≡ p
is_clean_abs-clean p h = text_eq→eq (clean p) p (ground arith)

validate_agent_mount-IsBelowMnt :
    (m : AgentMount) → validate_agent_mount m ≡ ok tt → IsBelowMnt m.target
unfolding validate_agent_mount
validate_agent_mount-IsBelowMnt m h =
    let (rest, e) = has_prefix-rest m.target (codes "/mnt/") (ground arith) in
    let c = is_clean_abs-clean m.target (ground arith) in
    subst (λ t. IsBelowMnt t) (sym e) (below_mnt rest (subst (λ t. clean t ≡ t) e c))

not_first : (a b : Text) (seen : List Text) → a ≡ b → elem b (a ∷ seen) ≡ false → ⊥
unfolding elem
not_first a b seen e h = ground (arith, text_eq_iff a b)

-- The targets of a set: each strictly below /mnt.
validate_targets-IsBelowMnt :
    (seen : List Text) (ms : List AgentMount)
    → validate_targets seen ms ≡ ok tt
    → All (λ m. IsBelowMnt m.target) ms
unfolding validate_targets
validate_targets-IsBelowMnt seen [] h = tt
validate_targets-IsBelowMnt seen (m ∷ ms) h = (
  validate_agent_mount-IsBelowMnt m (ground arith),
  validate_targets-IsBelowMnt (m.target ∷ seen) ms (ground arith),
)

validate_targets-unseen :
    (seen : List Text) (ms : List AgentMount) (m : AgentMount)
    → validate_targets seen ms ≡ ok tt
    → In m ms
    → elem m.target seen ≡ false
unfolding validate_targets elem
validate_targets-unseen seen [] m h i = absurd i
validate_targets-unseen seen (x ∷ ms) m h (inl e) = rw e (ground arith)
validate_targets-unseen seen (x ∷ ms) m h (inr i) =
    let later = validate_targets-unseen (x.target ∷ seen) ms m (ground arith) i in ground arith

-- Two mounts at different places of the list have different targets.
abbrev pub Apart : List AgentMount → Type 0
Apart [] = Unit
Apart (m ∷ ms) = ((n : AgentMount) → In n ms → m.target ≢ n.target) × Apart ms

validate_targets-Apart :
    (seen : List Text) (ms : List AgentMount) → validate_targets seen ms ≡ ok tt → Apart ms
unfolding validate_targets
validate_targets-Apart seen [] h = tt
validate_targets-Apart seen (m ∷ ms) h =
    (λ n i e. differs n i e, validate_targets-Apart (m.target ∷ seen) ms (ground arith))
  where
    differs : (n : AgentMount) → In n ms → m.target ≡ n.target → ⊥
    differs n i e =
        let unseen = validate_targets-unseen (m.target ∷ seen) ms n (ground arith) i in
        absurd (not_first m.target n.target seen e unseen)

-- A set of mounts that is accepted mounts strictly below /mnt only, so not below the /data that is
-- backed up, whatever "." and ".." a target holds, and no two of them at one target.
pub validate_agent_mount_set-IsBelowMnt :
    (ms : List AgentMount)
    → validate_agent_mount_set ms ≡ ok tt
    → All (λ m. IsBelowMnt m.target) ms × Apart ms
unfolding validate_agent_mount_set
validate_agent_mount_set-IsBelowMnt ms h =
    (validate_targets-IsBelowMnt [] ms h, validate_targets-Apart [] ms h)
