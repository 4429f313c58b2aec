-- ===== src/State.antt =====
-- internal/state/state.go: the env file of a box, as text: what WriteBoxEnv writes and ReadBoxEnv
-- reads.
pub mod RoundTrip
pub mod Store
pub mod Examples
use tx.Base.{
  ℕ, ◌≡◌, Bool, true, false, ◌||◌, Option, none, some, List, [], ◌∷◌, ◌++◌, if◌then◌else◌,
}
use tx.Dict.{Dict, insert}
use tx.Text.Split.{split, cut}
use tx.Text.Trim.{trim_space, trim_suffix}
use tx.Text.{Text, is_empty, has_prefix, text_lt}

abbrev pub Env : Type 0
Env = Dict Text

abbrev pub newline : ℕ
newline = b'\n'

abbrev pub equals : ℕ
equals = b'='

store_pair : Env → Option (Text × Text) → Env
store_pair env none = env
store_pair env (some (k, v)) = insert (trim_space k) v env

-- One round of the loop of ReadBoxEnv.
unfoldable pub read_line : Env → Text → Env
unfolding store_pair
read_line env raw =
    let line = trim_suffix raw (b'\r' ∷ []) in
    let trimmed = trim_space line in
    if is_empty trimmed || has_prefix trimmed (b'#' ∷ [])
    then env
    else store_pair env (cut equals line)

unfoldable pub read_lines : Env → List Text → Env
read_lines env [] = env
read_lines env (line ∷ lines) = read_lines (read_line env line) lines

-- The loop of ReadBoxEnv over the contents of the file.
unfoldable pub read_env : Text → Env
read_env contents = read_lines [] (split newline contents)

-- sort.Strings(keys), each key with its value.
unfoldable pub insert_sorted : Text → Text → Env → Env
insert_sorted k v [] = (k, v) ∷ []
insert_sorted k v ((j, w) ∷ env) =
    let rest = insert_sorted k v env in if text_lt j k then (j, w) ∷ rest else (k, v) ∷ (j, w) ∷ env

unfoldable pub sort_env : Env → Env
sort_env [] = []
sort_env ((k, v) ∷ env) = insert_sorted k v (sort_env env)

-- fmt.Fprintf(&b, "%s=%s\n", k, env[k]), for each key
unfoldable pub print_pairs : Env → Text
print_pairs [] = []
print_pairs ((k, v) ∷ env) = k ++ (equals ∷ (v ++ (newline ∷ print_pairs env)))

-- The text that WriteBoxEnv writes.
unfoldable pub print_env : Env → Text
unfolding sort_env insert_sorted
print_env env = print_pairs (sort_env env)
