-- ===== src/Resources/Sizes.antt =====
-- ParseCPUs, ParseBytes, ParseMemoryBytes and ParseVolumeBudgetBytes (internal/box/resources.go).
-- Floating point, which package strconv and package math work on, and units.RAMInBytes are parameters.
use tx.Base.{Bool, true, not, ◌||◌, Option, none, some, if◌then◌else◌, Result, ok, err, ltb}
use tx.Decimal.{ℤ, pos, negsuc, is_negative}
use tx.Resources.{ResourceFault, invalid_value, minimum_memory_bytes}
use tx.Text.Trim.{trim_space, to_lower}
use tx.Text.{Text, codes, text_eq}

-- float64, with the numbers that the tests compare with in the operations' names.
pub record Floats : Type 1 where
  pub Float : Type 0
  pub parse_float : Text → Option Float
  pub is_nan : Float → Bool
  pub is_inf : Float → Bool
  pub at_most_zero : Float → Bool
  -- math.Round(cpus * 1_000_000_000)
  pub round_to_nano : Float → Float
  -- scaled >= float64(math.MaxInt64)
  pub reaches_max_int64 : Float → Bool
  pub is_zero : Float → Bool
  pub to_int64 : Float → ℤ

-- What the parsers use of other packages.
pub record Units : Type 1 where
  pub floats : Floats
  -- units.RAMInBytes
  pub ram_in_bytes : Text → Option ℤ

-- bytes < MinimumMemoryBytes
unfoldable pub below_minimum : ℤ → Bool
below_minimum (pos n) = ltb n minimum_memory_bytes
below_minimum (negsuc n) = true

-- bytes <= 0
unfoldable pub not_positive : ℤ → Bool
not_positive (pos n) = not (ltb 0 n)
not_positive (negsuc n) = true

unfoldable pub scaled_cpus : (floats : Floats) → Text → floats.Float → Result ResourceFault ℤ
scaled_cpus floats value scaled =
    if floats.reaches_max_int64 scaled || floats.is_zero scaled
    then err (invalid_value value)
    else ok (floats.to_int64 scaled)

unfoldable pub counted_cpus :
    (floats : Floats) → Text → Option floats.Float → Result ResourceFault ℤ
counted_cpus floats value none = err (invalid_value value)
counted_cpus floats value (some cpus) =
    if floats.is_nan cpus || floats.is_inf cpus || floats.at_most_zero cpus
    then err (invalid_value value)
    else scaled_cpus floats value (floats.round_to_nano cpus)

unfoldable pub parse_cpus : Units → Text → Result ResourceFault ℤ
parse_cpus units value =
    let trimmed = trim_space value in
    counted_cpus units.floats trimmed (units.floats.parse_float trimmed)

unfoldable pub at_least : (ℤ → Bool) → Text → Option ℤ → Result ResourceFault ℤ
at_least is_refused value none = err (invalid_value value)
at_least is_refused value (some bytes) =
    if is_refused bytes then err (invalid_value value) else ok bytes

unfoldable pub parse_bytes : Units → Text → Result ResourceFault ℤ
parse_bytes units value = at_least is_negative value (units.ram_in_bytes (trim_space value))

-- The bytes that ParseBytes found, checked once more.
unfoldable pub refused_bytes : (ℤ → Bool) → Text → Result ResourceFault ℤ → Result ResourceFault ℤ
refused_bytes is_refused value (ok bytes) = at_least is_refused value (some bytes)
refused_bytes is_refused value (err f) = err (invalid_value value)

unfoldable pub parse_memory_bytes : Units → Text → Result ResourceFault ℤ
parse_memory_bytes units value = refused_bytes below_minimum value (parse_bytes units value)

-- strings.EqualFold with "unlimited", whose letters fold within ASCII only.
unfoldable pub parse_volume_budget_bytes : Units → Text → Result ResourceFault ℤ
parse_volume_budget_bytes units value =
    let trimmed = trim_space value in
    if text_eq (to_lower trimmed) (codes "unlimited") || text_eq trimmed (codes "0")
    then ok (pos 0)
    else refused_bytes not_positive trimmed (parse_bytes units trimmed)
