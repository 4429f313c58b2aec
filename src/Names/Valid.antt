-- ===== src/Names/Valid.antt =====
-- Every name that Generate returns is one that Validate accepts.
use tx.Base.{
  ℕ, zero, suc, ◌+◌, ◌*◌, ◌≤◌, ◌<◌, ◌≡◌, refl, ◌∙◌, subst, Bool, true, false, not, Option, some,
  List, [], ◌∷◌, arith, ok, inl, inr, Option-cases, All, if◌then◌else◌, length,
}
use tx.Dict.{elem}
use tx.Text.{Text, len}
use tx.Decimal.{format_uint, IsDigits, format_uint-IsDigits, len-format_uint}
use tx.Names.{
  adjectives, animals, Rand, random_name, hyphenate, four_digits, random_attempts, scan_animals,
  scan_product, suffix_attempts, generate, max_attempts, all_name_chars, matches_pattern, validate,
  word_at,
}
use tx.Names.Fresh.{generate_within-origin}
use tx.Names.Words.{
  IsWord, adjectives-IsWord, animals-IsWord, all_name_chars-append, matches_pattern-append,
  hyphen_char, len-hyphenate, hyphenate-valid, word_at-IsWord,
}

-- The two words of a name.
record IsBase (name : Text) : Type 0 where
  starts : matches_pattern name ≡ true
  chars : all_name_chars name ≡ true
  short : len name ≤ 13

hyphenate-IsBase : (a b : Text) → IsWord a → IsWord b → IsBase (hyphenate a b)
hyphenate-IsBase a b wa wb = record {
  starts = matches_pattern-append a (b'-' ∷ b) wa.starts (hyphen_char b wb.chars);
  chars = all_name_chars-append a (b'-' ∷ b) wa.chars (hyphen_char b wb.chars);
  short = omega (arith, len-hyphenate a b, wa.short, wb.short);
}

words-valid : (a b : Text) → IsWord a → IsWord b → validate (hyphenate a b) ≡ ok tt
words-valid a b wa wb = hyphenate-valid a b wa.starts wb.chars (omega (arith, wa.short, wb.short))

module _ (r : Rand) where
  adjective-IsWord : (call : ℕ) → IsWord (word_at adjectives (r.int_n call (length adjectives)))
  adjective-IsWord call =
      word_at-IsWord adjectives _ adjectives-IsWord
        (r.in_range call (length adjectives) (omega arith))

  animal-IsWord : (call : ℕ) → IsWord (word_at animals (r.int_n call (length animals)))
  animal-IsWord call =
      word_at-IsWord animals _ animals-IsWord (r.in_range call (length animals) (omega arith))

  random_name-IsBase : (call : ℕ) → IsBase (random_name r call)
  random_name-IsBase call = hyphenate-IsBase _ _ (adjective-IsWord call) (animal-IsWord (call + 1))

-- One attempt: a property of the name tried and of the later names is one of the result.
attempt-holds {ℓ} :
    (P : Text → Type ℓ) (b : Bool) (n : Text) (rest : Option Text) {name : Text}
    → P n
    → (rest ≡ some name → P name)
    → (if b then some n else rest) ≡ some name
    → P name
attempt-holds P true n rest pn ih e = subst P (cc e) pn
attempt-holds P false n rest pn ih e = ih e

abbrev IsValid : Text → Type 0
IsValid name = validate name ≡ ok tt

random_attempts-IsValid :
    (r : Rand) (taken : List Text) (left call : ℕ) {name : Text}
    → random_attempts r taken left call ≡ some name
    → IsValid name
unfolding random_attempts
random_attempts-IsValid r taken zero call e = cc
random_attempts-IsValid r taken (suc left) call e =
    attempt-holds IsValid (not (elem (random_name r call) taken)) (random_name r call) _
      (words-valid _ _ (adjective-IsWord r call) (animal-IsWord r (call + 1)))
      (random_attempts-IsValid r taken left (call + 2)) e

scan_animals-IsValid :
    (taken : List Text) (adj : Text) (ans : List Text) {name : Text}
    → IsWord adj
    → All IsWord ans
    → scan_animals taken adj ans ≡ some name
    → IsValid name
unfolding scan_animals
scan_animals-IsValid taken adj [] w a e = cc
scan_animals-IsValid taken adj (an ∷ ans) w a e =
    attempt-holds IsValid (not (elem (hyphenate adj an) taken)) (hyphenate adj an) _
      (words-valid adj an w a.0) (scan_animals-IsValid taken adj ans w a.1) e

scan_product-IsValid :
    (taken adjs ans : List Text) {name : Text}
    → All IsWord adjs
    → All IsWord ans
    → scan_product taken adjs ans ≡ some name
    → IsValid name
unfolding scan_product
scan_product-IsValid taken [] ans w a e = cc
scan_product-IsValid taken (adj ∷ adjs) ans w a e =
    elim (Option-cases (scan_animals taken adj ans)) [
      | inl none_here ↦ scan_product-IsValid taken adjs ans w.1 a (rw none_here at e)
      | inr (n, found) ↦ scan_animals-IsValid taken adj ans w.0 a (found ∙ (rw found at e))
    ]

digits-name_chars : (s : Text) → IsDigits s → all_name_chars s ≡ true
unfolding all_name_chars
digits-name_chars [] h = refl
digits-name_chars (c ∷ s) h = ground (arith, digits-name_chars s h.1, h.0)

zero_char : (s : Text) → all_name_chars s ≡ true → all_name_chars (b'0' ∷ s) ≡ true
unfolding all_name_chars
zero_char s h = ground arith

len_zero : (s : Text) → len (b'0' ∷ s) ≡ 1 + len s
unfolding len
len_zero s = refl

four_digits-chars : (n : ℕ) → all_name_chars (four_digits n) ≡ true
unfolding four_digits
four_digits-chars n =
    let d = digits-name_chars (format_uint n) (format_uint-IsDigits n) in
    ground (
      arith,
      d,
      zero_char (format_uint n),
      zero_char (b'0' ∷ format_uint n),
      zero_char (b'0' ∷ b'0' ∷ format_uint n),
    )

len-four_digits : (n : ℕ) → n < 10000 → len (four_digits n) ≤ 4
unfolding four_digits
len-four_digits n h = ground (
  arith,
  len-format_uint 1 n,
  len-format_uint 2 n,
  len-format_uint 3 n,
  len-format_uint 4 n,
  len_zero (format_uint n),
  len_zero (b'0' ∷ format_uint n),
  len_zero (b'0' ∷ b'0' ∷ format_uint n),
)

suffix_attempts-IsValid :
    (r : Rand) (taken : List Text) (left call : ℕ) {name : Text}
    → suffix_attempts r taken left call ≡ some name
    → IsValid name
unfolding suffix_attempts
suffix_attempts-IsValid r taken zero call e = cc
suffix_attempts-IsValid r taken (suc left) call e =
    let base = random_name-IsBase r call in
    let n = r.int_n (call + 2) 10000 in
    attempt-holds IsValid (not (elem (hyphenate (random_name r call) (four_digits n)) taken))
      (hyphenate (random_name r call) (four_digits n)) _
      (hyphenate-valid (random_name r call) (four_digits n) base.starts (four_digits-chars n)
        (omega (arith, base.short, len-four_digits n (r.in_range (call + 2) 10000 (omega arith)))))
      (suffix_attempts-IsValid r taken left (call + 3)) e

-- A name that Generate returns, from whichever of its three loops, is one that Validate accepts.
pub generate-valid :
    (r : Rand) (taken : List Text) {name : Text}
    → generate r taken ≡ ok name
    → validate name ≡ ok tt
unfolding generate
generate-valid r taken e = elim (generate_within-origin max_attempts r taken e) [
  | inl first ↦ random_attempts-IsValid r taken max_attempts 0 first
  | inr (inl second) ↦
      scan_product-IsValid taken adjectives animals adjectives-IsWord animals-IsWord second
  | inr (inr third) ↦ suffix_attempts-IsValid r taken 100 (2 * max_attempts) third
]
