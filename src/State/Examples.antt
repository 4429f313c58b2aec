-- ===== src/State/Examples.antt =====
-- An env file that is written and read.
use tx.Base.{ok, err, some, none, true, false, ◌≡◌, ◌≢◌, refl, [], ◌∷◌, ◌++◌, All, arith}
use tx.Dict.{IsMap, lookup}
use tx.State.RoundTrip.{IsPair, IsKey-tested, key_is_fine, read_env-print_env}
use tx.State.Store.{
  Outcomes, Files, IsOldOrNew, WriteFault, last_env, write_box_env, write_box_env-atomic,
}
use tx.State.{Env, read_env, print_env}
use tx.Text.{Text, codes, is_space}

abbrev pub token_key : Text
token_key = codes "TOKEN"

abbrev pub token_env : Env
token_env = (token_key, codes "s") ∷ []

one_char-no_cr : (u : Text) → codes "s" ≢ u ++ b'\r' ∷ []
one_char-no_cr [] e = ground arith
one_char-no_cr (x ∷ []) e = ground arith
one_char-no_cr (x ∷ y ∷ u) e = ground arith

pub token_env-IsMap : IsMap token_env
unfolding lookup
token_env-IsMap = (refl, tt)

pub token_env-IsPair : All IsPair token_env
unfolding key_is_fine is_space
token_env-IsPair =
    ((IsKey-tested token_key refl, (((λ e. omega (arith, e)), tt), one_char-no_cr)), tt)

read_env-print_env_example :
    lookup token_key (read_env (print_env token_env)) ≡ lookup token_key token_env
read_env-print_env_example = read_env-print_env token_env token_key token_env-IsMap token_env-IsPair

-- Every call succeeds but the rename.
abbrev no_rename : Outcomes
no_rename = record {
  creates = true;
  writes = true;
  syncs = true;
  closes = true;
  renames = false;
  partly_written = [];
}

abbrev old_files : Files
old_files = record { env_file = some (codes "OLD=1"); temp_file = none }

write_box_env-atomic_example :
    All (IsOldOrNew token_env old_files) (write_box_env no_rename token_env old_files).1
    × ((e : WriteFault)
        → (write_box_env no_rename token_env old_files).0 ≡ err e
        → last_env old_files (write_box_env no_rename token_env old_files).1 ≡ some (codes "OLD=1"))
    × ((write_box_env no_rename token_env old_files).0 ≡ ok tt
        → last_env old_files (write_box_env no_rename token_env old_files).1
          ≡ some (print_env token_env))
write_box_env-atomic_example = write_box_env-atomic no_rename token_env old_files
