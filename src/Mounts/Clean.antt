-- ===== src/Mounts/Clean.antt =====
-- path.Clean, and filepath.Clean on the systems that tx9 runs on.
use tx.Base.{Bool, true, ◌||◌, List, [], ◌∷◌, ◌++◌, if◌then◌else◌}
use tx.Text.Split.{split, join}
use tx.Text.{Text, is_empty, text_eq, has_prefix}

abbrev pub slash : Text
slash = b'/' ∷ []

abbrev pub dot : Text
dot = b'.' ∷ []

abbrev pub dotdot : Text
dotdot = b'.' ∷ b'.' ∷ []

unfoldable pub drop_last : List Text → List Text
drop_last [] = []
drop_last (p ∷ []) = []
drop_last (p ∷ q ∷ ps) = p ∷ drop_last (q ∷ ps)

unfoldable pub last_is_dotdot : List Text → Bool
last_is_dotdot [] = true
last_is_dotdot (p ∷ []) = text_eq p dotdot
last_is_dotdot (p ∷ q ∷ ps) = last_is_dotdot (q ∷ ps)

-- ".." takes back the last element, if that is a name; below the root it is dropped.
unfoldable pub go_back : Bool → List Text → List Text
go_back rooted out =
    if last_is_dotdot out then (if rooted then out else out ++ dotdot ∷ []) else drop_last out

unfoldable pub clean_element : Bool → List Text → Text → List Text
clean_element rooted out p =
    if is_empty p || text_eq p dot
    then out
    else if text_eq p dotdot
    then go_back rooted out
    else out ++ p ∷ []

unfoldable pub clean_elements : Bool → List Text → List Text → List Text
clean_elements rooted out [] = out
clean_elements rooted out (p ∷ ps) = clean_elements rooted (clean_element rooted out p) ps

abbrev pub or_dot : Text → Text
or_dot [] = dot
or_dot (c ∷ s) = c ∷ s

-- path.IsAbs, filepath.IsAbs
unfoldable pub is_abs : Text → Bool
is_abs p = has_prefix p slash

unfoldable pub clean : Text → Text
clean p =
    let rooted = is_abs p in
    or_dot ((if rooted then slash else []) ++ join slash (clean_elements rooted [] (split b'/' p)))
