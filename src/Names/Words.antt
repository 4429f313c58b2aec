-- ===== src/Names/Words.antt =====
-- The words of a name, and two of them with a hyphen: what Validate checks of them.
use tx.Base.{
  ℕ, zero, suc, ◌+◌, ◌≤◌, ◌<◌, ◌≡◌, refl, Bool, true, false, not, ◌&&◌, List, [], ◌∷◌, ◌++◌, arith,
  ok, inl, inr, Bool-cases, All, All-In, length, leb, ltb,
}
use tx.Dict.{elem, elem→In}
use tx.Text.Split.{Lacks}
use tx.Text.{Text, is_empty, len, contains}
use tx.Names.{
  adjectives, animals, reserved, hyphenate, all_name_chars, matches_pattern, validate, word_at,
  max_name_len,
}

-- A word of the lists: one to six lower-case letters.
pub record IsWord (w : Text) : Type 0 where
  pub starts : matches_pattern w ≡ true
  pub chars : all_name_chars w ≡ true
  pub short : len w ≤ 6

words_ok : List Text → Bool
words_ok [] = true
words_ok (w ∷ ws) = matches_pattern w && all_name_chars w && leb (len w) 6 && words_ok ws

words_ok-All : (ws : List Text) → words_ok ws ≡ true → All IsWord ws
unfolding words_ok
words_ok-All [] h = tt
words_ok-All (w ∷ ws) h = (
  record { starts = ground arith; chars = ground arith; short = ground arith },
  words_ok-All ws (ground arith),
)

pub adjectives-IsWord : All IsWord adjectives
adjectives-IsWord =
    words_ok-All adjectives (unfold words_ok matches_pattern all_name_chars len in refl)

pub animals-IsWord : All IsWord animals
animals-IsWord = words_ok-All animals (unfold words_ok matches_pattern all_name_chars len in refl)

lacks_all : List Text → Bool
lacks_all [] = true
lacks_all (w ∷ ws) = not (contains b'-' w) && lacks_all ws

lacks_all-All : (ws : List Text) → lacks_all ws ≡ true → All (Lacks b'-') ws
unfolding lacks_all
lacks_all-All [] h = tt
lacks_all-All (w ∷ ws) h = (ground arith, lacks_all-All ws (ground arith))

reserved-Lacks : All (Lacks b'-') reserved
reserved-Lacks = lacks_all-All reserved (unfold lacks_all contains in refl)

contains-hyphenate : (a b : Text) → contains b'-' (hyphenate a b) ≡ true
unfolding contains
contains-hyphenate [] b = refl
contains-hyphenate (c ∷ a) b = ground (arith, contains-hyphenate a b)

-- No reserved name has a hyphen.
hyphenate-not_reserved : (a b : Text) → elem (hyphenate a b) reserved ≡ false
hyphenate-not_reserved a b = elim (Bool-cases (elem (hyphenate a b) reserved)) [
  | inr no_elem ↦ no_elem
  | inl is_elem ↦ absurd (
      cc (
        contains-hyphenate a b,
        All-In (Lacks b'-') reserved reserved-Lacks (elem→In (hyphenate a b) reserved is_elem),
      ))
]

pub all_name_chars-append :
    (a b : Text)
    → all_name_chars a ≡ true
    → all_name_chars b ≡ true
    → all_name_chars (a ++ b) ≡ true
unfolding all_name_chars
all_name_chars-append [] b h k = k
all_name_chars-append (c ∷ a) b h k = ground (arith, all_name_chars-append a b)

pub matches_pattern-append :
    (a b : Text)
    → matches_pattern a ≡ true
    → all_name_chars b ≡ true
    → matches_pattern (a ++ b) ≡ true
unfolding matches_pattern
matches_pattern-append [] b h k = cc
matches_pattern-append (c ∷ a) b h k = ground (arith, all_name_chars-append a b)

len-append : (a b : Text) → len (a ++ b) ≡ len a + len b
unfolding len
len-append [] b = omega arith
len-append (c ∷ a) b = omega (arith, len-append a b)

pub hyphen_char : (b : Text) → all_name_chars b ≡ true → all_name_chars (b'-' ∷ b) ≡ true
unfolding all_name_chars
hyphen_char b h = ground arith

len_hyphen : (b : Text) → len (b'-' ∷ b) ≡ 1 + len b
unfolding len
len_hyphen b = refl

pub len-hyphenate : (a b : Text) → len (hyphenate a b) ≡ len a + len b + 1
len-hyphenate a b = omega (arith, len-append a (b'-' ∷ b), len_hyphen b)

matches-ne_empty : (w : Text) → matches_pattern w ≡ true → is_empty w ≡ false
unfolding matches_pattern is_empty
matches-ne_empty [] h = cc
matches-ne_empty (c ∷ w) h = refl

pub hyphenate-valid :
    (a b : Text)
    → matches_pattern a ≡ true
    → all_name_chars b ≡ true
    → len a + len b ≤ 31
    → validate (hyphenate a b) ≡ ok tt
unfolding validate
hyphenate-valid a b ha hb short =
    let m = matches_pattern-append a (b'-' ∷ b) ha (hyphen_char b hb) in
    rw (matches-ne_empty (hyphenate a b) m) (
      rw (short_enough (len (hyphenate a b)) (omega (arith, len-hyphenate a b)))
        (rw m (rw (hyphenate-not_reserved a b))))
  where
    short_enough : (n : ℕ) → n ≤ 32 → ltb max_name_len n ≡ false
    short_enough n h = ground arith

pub word_at-IsWord :
    (ws : List Text) (i : ℕ) → All IsWord ws → i < length ws → IsWord (word_at ws i)
unfolding word_at
word_at-IsWord [] i a h = absurd (omega arith)
word_at-IsWord (w ∷ ws) zero a h = a.0
word_at-IsWord (w ∷ ws) (suc i) a h = word_at-IsWord ws i a.1 (omega arith)
