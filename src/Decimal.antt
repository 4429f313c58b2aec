-- ===== src/Decimal.antt =====
-- What the program uses of package strconv: FormatInt, FormatUint and Itoa in base 10, ParseInt in
-- base 10 for 64 bits, and Atoi where int has 64 bits.
use tx.Base.{
  ℕ, zero, suc, ◌+◌, ◌-◌, ◌*◌, ◌/◌, ◌%◌, ◌^◌, ◌≤◌, ◌<◌, ◌≡◌, refl, ap, ◌∙◌, sym, Bool, true, false,
  ◌&&◌, ◌||◌, not, Option, none, some, [], ◌∷◌, arith, leb, ltb, ◌==◌, if◌then◌else◌, Bool-cases,
  inl, inr, All,
}
use native.Mathlib.Nat.{pow-suc}
use tx.Text.{Text, is_empty, len}

-- An int64 is an integer; `negsuc n` is -(n + 1).
pub data ℤ : Type 0 where
  pos : ℕ → ℤ
  negsuc : ℕ → ℤ

abbrev pub max_int64 : ℕ
max_int64 = 2 ^ 63 - 1

-- v < 0
abbrev pub is_negative : ℤ → Bool
is_negative (pos n) = false
is_negative (negsuc n) = true

-- The range of int64.
abbrev pub IsInt64 : ℤ → Type 0
IsInt64 (pos n) = n ≤ max_int64
IsInt64 (negsuc n) = n ≤ max_int64

pub is_digit : ℕ → Bool
is_digit c = leb b'0' c && leb c b'9'

-- The digits of `n` before `acc`; the first argument is fuel.
format_from : ℕ → ℕ → Text → Text
format_from zero n acc = acc
format_from (suc f) n acc =
    let rest = format_from f (n / 10) ((n % 10 + 48) ∷ acc) in
    if n / 10 == 0 then (n % 10 + 48) ∷ acc else rest

unfoldable pub format_uint : ℕ → Text
unfolding format_from
format_uint n = format_from (suc n) n []

unfoldable pub format_int : ℤ → Text
format_int (pos n) = format_uint n
format_int (negsuc n) = b'-' ∷ format_uint (suc n)

unfoldable pub all_digits : Text → Bool
all_digits [] = true
all_digits (c ∷ s) = is_digit c && all_digits s

value_from : ℕ → Text → ℕ
value_from acc [] = acc
value_from acc (c ∷ s) = value_from (acc * 10 + (c - 48)) s

-- The digits of a number up to `limit`.
unfoldable pub parse_digits : ℕ → Text → Option ℕ
unfolding all_digits value_from is_digit is_empty
parse_digits limit s =
    if is_empty s || not (all_digits s) || ltb limit (value_from 0 s)
    then none
    else some (value_from 0 s)

to_negative : Option ℕ → Option ℤ
to_negative none = none
to_negative (some zero) = some (pos 0)
to_negative (some (suc n)) = some (negsuc n)

to_positive : Option ℕ → Option ℤ
to_positive none = none
to_positive (some n) = some (pos n)

-- strconv.ParseInt(s, 10, 64) and strconv.Atoi
unfoldable pub parse_int : Text → Option ℤ
unfolding to_negative to_positive
parse_int [] = none
parse_int (c ∷ s) =
    if c == b'+'
    then to_positive (parse_digits max_int64 s)
    else if c == b'-'
    then to_negative (parse_digits (max_int64 + 1) s)
    else to_positive (parse_digits max_int64 (c ∷ s))

value_from-format_from :
    (f n : ℕ) (acc : Text) → n < f → value_from 0 (format_from f n acc) ≡ value_from n acc
unfolding format_from value_from
value_from-format_from zero n acc h = absurd (omega arith)
value_from-format_from (suc f) n acc h = elim (Bool-cases (n / 10 == 0)) [
  | inl last ↦ rw last (ap (λ k. value_from k acc) (ground arith))
  | inr more ↦ rw more (
      value_from-format_from f (n / 10) ((n % 10 + 48) ∷ acc) (ground arith)
      ∙ ap (λ k. value_from k acc) (ground arith))
]

all_digits-format_from :
    (f n : ℕ) (acc : Text) → all_digits acc ≡ true → all_digits (format_from f n acc) ≡ true
unfolding format_from all_digits is_digit
all_digits-format_from zero n acc h = h
all_digits-format_from (suc f) n acc h =
    ground (arith, all_digits-format_from f (n / 10) ((n % 10 + 48) ∷ acc))

format_from-ne_empty : (f n : ℕ) (acc : Text) → n < f → is_empty (format_from f n acc) ≡ false
unfolding format_from is_empty
format_from-ne_empty zero n acc h = absurd (omega arith)
format_from-ne_empty (suc f) n acc h =
    ground (arith, format_from-ne_empty f (n / 10) ((n % 10 + 48) ∷ acc))

-- The decimal digits of a number in range are read back.
pub parse_digits-format_uint :
    (limit n : ℕ) → n ≤ limit → parse_digits limit (format_uint n) ≡ some n
unfolding parse_digits format_uint
parse_digits-format_uint limit n h = ground (
  arith,
  value_from-format_from (suc n) n [],
  all_digits-format_from (suc n) n [],
  format_from-ne_empty (suc n) n [],
)

-- A text that starts with a digit is read without a sign.
parse_int-digits :
    (s : Text)
    → all_digits s ≡ true
    → is_empty s ≡ false
    → parse_int s ≡ to_positive (parse_digits max_int64 s)
unfolding parse_int all_digits is_digit is_empty
parse_int-digits [] h ne = cc
parse_int-digits (c ∷ s) h ne = ground arith

-- FormatInt and ParseInt: every int64 is read back from its digits.
pub parse_int-format_int : (v : ℤ) → IsInt64 v → parse_int (format_int v) ≡ some v
unfolding all_digits
parse_int-format_int (pos n) h =
    unfold format_int in
    (parse_int-digits (format_uint n) (digits n) (ne n)
      ∙ (unfold to_positive in rw (parse_digits-format_uint max_int64 n h)))
  where
    digits : (k : ℕ) → all_digits (format_uint k) ≡ true
    digits k = unfold format_uint in all_digits-format_from (suc k) k [] refl

    ne : (k : ℕ) → is_empty (format_uint k) ≡ false
    ne k = unfold format_uint in format_from-ne_empty (suc k) k [] (omega arith)
parse_int-format_int (negsuc n) h =
    unfold format_int parse_int in
    rw (parse_digits-format_uint (max_int64 + 1) (suc n) (omega arith)) refl

-- Equal digits, equal numbers.
pub format_uint-injective : (m n : ℕ) → format_uint m ≡ format_uint n → m ≡ n
unfolding format_uint value_from
format_uint-injective m n e =
    sym (value_from-format_from (suc m) m [] (omega arith))
    ∙ ap (value_from 0) e
    ∙ value_from-format_from (suc n) n [] (omega arith)

-- Digits and the minus sign.
abbrev pub IsPlain : Text → Type 0
IsPlain s = All (λ c. (45 ≤ c) × (c ≤ 57)) s

format_from-IsPlain : (f n : ℕ) (acc : Text) → IsPlain acc → IsPlain (format_from f n acc)
unfolding format_from
format_from-IsPlain zero n acc h = h
format_from-IsPlain (suc f) n acc h = elim (Bool-cases (n / 10 == 0)) [
  | inl last ↦ rw last (omega arith, h)
  | inr more ↦ rw more (format_from-IsPlain f (n / 10) ((n % 10 + 48) ∷ acc) (omega arith, h))
]

pub format_int-IsPlain : (v : ℤ) → IsPlain (format_int v)
unfolding format_int format_uint
format_int-IsPlain (pos n) = format_from-IsPlain (suc n) n [] tt
format_int-IsPlain (negsuc n) = (omega arith, format_from-IsPlain (suc (suc n)) (suc n) [] tt)

pub is_empty-format_int : (v : ℤ) → is_empty (format_int v) ≡ false
unfolding format_int format_uint is_empty
is_empty-format_int (pos n) = format_from-ne_empty (suc n) n [] (omega arith)
is_empty-format_int (negsuc n) = refl

-- Digits alone.
abbrev pub IsDigits : Text → Type 0
IsDigits s = All (λ c. (48 ≤ c) × (c ≤ 57)) s

format_from-IsDigits : (f n : ℕ) (acc : Text) → IsDigits acc → IsDigits (format_from f n acc)
unfolding format_from
format_from-IsDigits zero n acc h = h
format_from-IsDigits (suc f) n acc h = elim (Bool-cases (n / 10 == 0)) [
  | inl last ↦ rw last (omega arith, h)
  | inr more ↦ rw more (format_from-IsDigits f (n / 10) ((n % 10 + 48) ∷ acc) (omega arith, h))
]

pub format_uint-IsDigits : (n : ℕ) → IsDigits (format_uint n)
unfolding format_uint
format_uint-IsDigits n = format_from-IsDigits (suc n) n [] tt

len_digit : (c : ℕ) (s : Text) → c < 128 → len (c ∷ s) ≡ 1 + len s
unfolding len
len_digit c s h = ground arith

len-format_from :
    (k f n : ℕ) (acc : Text) → n < 10 ^ k → 0 < k → len (format_from f n acc) ≤ k + len acc
unfolding format_from
len-format_from k zero n acc h p = omega arith
len-format_from zero (suc f) n acc h p = absurd (omega arith)
len-format_from (suc k) (suc f) n acc h p = elim (Bool-cases (n / 10 == 0)) [
  | inl last ↦ rw last (omega (arith, len_digit (n % 10 + 48) acc (omega arith)))
  | inr more ↦
      let small : n / 10 < 10 ^ k = omega (arith, rw (pow-suc 10 k) at h) in
      let some_left : 0 < k = positive k (n / 10) small (ground arith) in
      rw more (
        omega (
          arith,
          len-format_from k f (n / 10) ((n % 10 + 48) ∷ acc) small some_left,
          len_digit (n % 10 + 48) acc (omega arith),
        ))
]
  where
    positive : (j m : ℕ) → m < 10 ^ j → 0 < m → 0 < j
    positive zero m h' p' = absurd (omega arith)
    positive (suc j) m h' p' = omega arith

len-nil : len [] ≡ 0
unfolding len
len-nil = refl

-- A number below 10 ^ k has at most k digits.
pub len-format_uint : (k n : ℕ) → n < 10 ^ k → 0 < k → len (format_uint n) ≤ k
unfolding format_uint
len-format_uint k n h p = omega (arith, len-format_from k (suc n) n [] h p, len-nil)

pub is_empty-format_uint : (n : ℕ) → is_empty (format_uint n) ≡ false
unfolding format_uint
is_empty-format_uint n = format_from-ne_empty (suc n) n [] (omega arith)
