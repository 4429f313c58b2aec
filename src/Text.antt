-- ===== src/Text.antt =====
-- Go's `string` and what the program uses of package strings. A text is the list of the code
-- points of a valid UTF-8 string: the operations below are those of Go on such strings (byte
-- order and code point order agree on them), and strings that are no valid UTF-8 are not modelled.
pub mod Split
pub mod Trim
use Prim.Native.Char.{code}
use Prim.Native.String.{String}
use tx.Base.{
  ℕ, ◌+◌, ◌≡◌, ◌↔◌, refl, Bool, true, false, ◌&&◌, ◌||◌, List, [], ◌∷◌, arith, leb, ltb, ◌==◌,
  if◌then◌else◌,
}

abbrev pub Text : Type 0
Text = List ℕ

-- What a file holds, or what a reader gives: bytes.
abbrev pub Bytes : Type 0
Bytes = List ℕ

-- The code points of a literal.
abbrev pub codes : String → Text
codes String.[] = []
codes (String.◌∷◌ c s) = code c ∷ codes s

-- a == b
unfoldable pub text_eq : Text → Text → Bool
text_eq [] [] = true
text_eq (x ∷ xs) (y ∷ ys) = x == y && text_eq xs ys
text_eq _ _ = false

pub text_eq→eq : (a b : Text) → text_eq a b ≡ true → a ≡ b
unfolding text_eq
text_eq→eq [] [] h = refl
text_eq→eq [] (y ∷ ys) h = ground arith
text_eq→eq (x ∷ xs) [] h = ground arith
text_eq→eq (x ∷ xs) (y ∷ ys) h = ground (arith, text_eq→eq xs ys)

pub text_eq_refl : (a : Text) → text_eq a a ≡ true
unfolding text_eq
text_eq_refl [] = refl
text_eq_refl (x ∷ xs) = ground (arith, text_eq_refl xs)

pub text_eq_iff : (a b : Text) → (text_eq a b ≡ true) ↔ (a ≡ b)
text_eq_iff a b = (text_eq→eq a b, λ e. subst_eq e)
  where
    subst_eq : a ≡ b → text_eq a b ≡ true
    subst_eq e = rw (← e) (text_eq_refl a)

-- a < b, as `sort.Strings` and `strings.Compare` order texts
unfoldable pub text_lt : Text → Text → Bool
text_lt [] [] = false
text_lt [] (y ∷ ys) = true
text_lt (x ∷ xs) [] = false
text_lt (x ∷ xs) (y ∷ ys) = ltb x y || (x == y && text_lt xs ys)

-- s == ""
unfoldable pub is_empty : Text → Bool
is_empty [] = true
is_empty (_ ∷ _) = false

pub is_empty-nil : (s : Text) → is_empty s ≡ true → s ≡ []
unfolding is_empty
is_empty-nil [] h = refl
is_empty-nil (c ∷ s) h = cc

-- len(s): the bytes of its UTF-8 form
unfoldable pub utf8_width : ℕ → ℕ
utf8_width c = if ltb c 0x80 then 1 else if ltb c 0x800 then 2 else if ltb c 0x10000 then 3 else 4

unfoldable pub len : Text → ℕ
unfolding utf8_width
len [] = 0
len (c ∷ s) = utf8_width c + len s

-- strings.HasPrefix
unfoldable pub has_prefix : Text → Text → Bool
has_prefix s [] = true
has_prefix [] (p ∷ ps) = false
has_prefix (c ∷ s) (p ∷ ps) = c == p && has_prefix s ps

-- What is left of `s` behind a prefix as long as the first argument.
drop_text : Text → Text → Text
drop_text [] s = s
drop_text (_ ∷ p) [] = []
drop_text (_ ∷ p) (_ ∷ s) = drop_text p s

-- strings.TrimPrefix
unfoldable pub trim_prefix : Text → Text → Text
unfolding has_prefix drop_text
trim_prefix s p = if has_prefix s p then drop_text p s else s

-- strings.ContainsRune, strings.IndexByte(s, c) >= 0
unfoldable pub contains : ℕ → Text → Bool
contains c [] = false
contains c (x ∷ xs) = x == c || contains c xs

-- strings.ContainsAny(s, chars)
unfoldable pub contains_any : Text → Text → Bool
unfolding contains
contains_any [] chars = false
contains_any (c ∷ s) chars = contains c chars || contains_any s chars

-- unicode.IsSpace
unfoldable pub is_space : ℕ → Bool
is_space c =
    (leb 9 c && leb c 13)
    || c == 32
    || c == 0x85
    || c == 0xa0
    || c == 0x1680
    || (leb 0x2000 c && leb c 0x200a)
    || c == 0x2028
    || c == 0x2029
    || c == 0x202f
    || c == 0x205f
    || c == 0x3000
