-- ===== src/Names.antt =====
-- internal/names/names.go: which texts are box names, and the names that are proposed.
pub mod Words
pub mod Valid
pub mod Fresh
mod Examples
use Prim.Native.String.{String}
use tx.Base.{
  ℕ, zero, suc, ◌+◌, ◌*◌, ◌<◌, ◌≡◌, Bool, true, false, not, ◌&&◌, ◌||◌, Option, none, some, List,
  [], ◌∷◌, ◌++◌, map, leb, ltb, ◌==◌, if◌then◌else◌, length, Result, ok, err, ◌>>=◌, ◌>>◌,
  refuse_if,
}
use tx.Decimal.{format_uint}
use tx.Dict.{elem}
use tx.Text.{Text, codes, is_empty, len}

abbrev pub adjective_words : List String
adjective_words =
    "large" ∷ "small" ∷ "quick" ∷ "slow" ∷ "quiet" ∷ "loud" ∷ "brave" ∷ "calm" ∷ "eager" ∷ "gentle"
    ∷ "happy" ∷ "jolly" ∷ "kind" ∷ "lively" ∷ "mighty" ∷ "noble" ∷ "proud" ∷ "silly" ∷ "witty"
    ∷ "young" ∷ "amber" ∷ "azure" ∷ "bold" ∷ "bright" ∷ "clever" ∷ "crisp" ∷ "dapper" ∷ "fuzzy"
    ∷ "grumpy" ∷ "handy" ∷ "icy" ∷ "keen" ∷ "lucky" ∷ "merry" ∷ "nifty" ∷ "plucky" ∷ "rowdy"
    ∷ "sturdy" ∷ "tidy" ∷ "vivid" ∷ []

abbrev pub animal_words : List String
animal_words =
    "cat" ∷ "dog" ∷ "fox" ∷ "owl" ∷ "wolf" ∷ "bear" ∷ "hawk" ∷ "seal" ∷ "crane" ∷ "otter" ∷ "lynx"
    ∷ "moose" ∷ "heron" ∷ "raven" ∷ "gecko" ∷ "ibis" ∷ "koala" ∷ "mole" ∷ "newt" ∷ "puma" ∷ "quail"
    ∷ "ram" ∷ "shark" ∷ "toad" ∷ "vole" ∷ "whale" ∷ "yak" ∷ "zebra" ∷ "bison" ∷ "civet" ∷ "eagle"
    ∷ "ferret" ∷ "goose" ∷ "hare" ∷ "jay" ∷ "kite" ∷ "loris" ∷ "mink" ∷ "panda" ∷ "stoat" ∷ []

abbrev pub reserved_words : List String
reserved_words =
    "create" ∷ "new" ∷ "list" ∷ "ls" ∷ "enter" ∷ "ssh" ∷ "shell" ∷ "start" ∷ "stop" ∷ "backup"
    ∷ "export" ∷ "save" ∷ "import" ∷ "load" ∷ "restore" ∷ "logs" ∷ "resources" ∷ "gateway" ∷ "open"
    ∷ "doctor" ∷ "upgrade" ∷ "update" ∷ "delete" ∷ "rm" ∷ "remove" ∷ "prune" ∷ "help" ∷ "version"
    ∷ "all" ∷ "none" ∷ "default" ∷ []

abbrev pub adjectives : List Text
adjectives = map codes adjective_words

abbrev pub animals : List Text
animals = map codes animal_words

abbrev pub reserved : List Text
reserved = map codes reserved_words

abbrev pub max_name_len : ℕ
max_name_len = 32

pub data NameFault : Type 0 where
  empty_name too_long bad_pattern reserved_name exhausted : NameFault

-- [a-z0-9]
unfoldable pub is_alnum : ℕ → Bool
is_alnum c = (leb b'a' c && leb c b'z') || (leb b'0' c && leb c b'9')

-- [a-z0-9_-]
unfoldable pub is_name_char : ℕ → Bool
unfolding is_alnum
is_name_char c = is_alnum c || c == b'_' || c == b'-'

unfoldable pub all_name_chars : Text → Bool
unfolding is_name_char
all_name_chars [] = true
all_name_chars (c ∷ s) = is_name_char c && all_name_chars s

-- validPattern.MatchString: ^[a-z0-9][a-z0-9_-]*$
unfoldable pub matches_pattern : Text → Bool
unfolding is_alnum
matches_pattern [] = false
matches_pattern (c ∷ s) = is_alnum c && all_name_chars s

-- Validate
unfoldable pub validate : Text → Result NameFault (Unit {0})
validate name = do
  refuse_if (is_empty name) empty_name
  refuse_if (ltb max_name_len (len name)) too_long
  refuse_if (not (matches_pattern name)) bad_pattern
  refuse_if (elem name reserved) reserved_name

-- math/rand/v2: the result of the call with this number, below the bound that it is given.
pub record Rand : Type 0 where
  pub int_n : ℕ → ℕ → ℕ
  pub in_range : (call bound : ℕ) → 0 < bound → int_n call bound < bound

-- words[i]
unfoldable pub word_at : List Text → ℕ → Text
word_at [] i = []
word_at (w ∷ ws) zero = w
word_at (w ∷ ws) (suc i) = word_at ws i

-- adj + "-" + an
abbrev pub hyphenate : Text → Text → Text
hyphenate adj an = adj ++ (b'-' ∷ an)

-- %04d
unfoldable pub four_digits : ℕ → Text
four_digits n =
    if ltb n 10
    then b'0' ∷ b'0' ∷ b'0' ∷ format_uint n
    else if ltb n 100
    then b'0' ∷ b'0' ∷ format_uint n
    else if ltb n 1000
    then b'0' ∷ format_uint n
    else format_uint n

-- A random name; the calls of the generator are numbered from `call`.
abbrev pub random_name : Rand → ℕ → Text
random_name r call =
    hyphenate (word_at adjectives (r.int_n call (length adjectives)))
      (word_at animals (r.int_n (call + 1) (length animals)))

-- The first loop of Generate, with the attempts that are left.
unfoldable pub random_attempts : Rand → List Text → ℕ → ℕ → Option Text
random_attempts r taken zero call = none
random_attempts r taken (suc left) call =
    let rest = random_attempts r taken left (call + 2) in
    let name = random_name r call in if not (elem name taken) then some name else rest

unfoldable pub scan_animals : List Text → Text → List Text → Option Text
scan_animals taken adj [] = none
scan_animals taken adj (an ∷ ans) =
    let rest = scan_animals taken adj ans in
    let name = hyphenate adj an in if not (elem name taken) then some name else rest

or_else : Option Text → Option Text → Option Text
or_else none o = o
or_else (some n) o = some n

-- The second loop: the whole product of the words.
unfoldable pub scan_product : List Text → List Text → List Text → Option Text
unfolding or_else
scan_product taken [] ans = none
scan_product taken (adj ∷ adjs) ans =
    or_else (scan_animals taken adj ans) (scan_product taken adjs ans)

-- The third loop: a random name with a random number.
unfoldable pub suffix_attempts : Rand → List Text → ℕ → ℕ → Option Text
suffix_attempts r taken zero call = none
suffix_attempts r taken (suc left) call =
    let rest = suffix_attempts r taken left (call + 3) in
    let name = hyphenate (random_name r call) (four_digits (r.int_n (call + 2) 10000)) in
    if not (elem name taken) then some name else rest

abbrev pub max_attempts : ℕ
max_attempts = 10 * length adjectives * length animals

-- Generate; the attempts of the first loop are a parameter, `max_attempts` in the program.
unfoldable pub generate_within : ℕ → Rand → List Text → Result NameFault Text
generate_within attempts r taken = elim (random_attempts r taken attempts 0) [
  | some name ↦ ok name
  | none ↦ elim (scan_product taken adjectives animals) [
    | some name ↦ ok name
    | none ↦ elim (suffix_attempts r taken 100 (2 * attempts)) [
      | some name ↦ ok name
      | none ↦ err exhausted
    ]
  ]
]

unfoldable pub generate : Rand → List Text → Result NameFault Text
generate = generate_within max_attempts
