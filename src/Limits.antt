-- ===== src/Limits.antt =====
-- The normalisation of options that src/plugins/concurrencyPlugin.ts and
-- src/plugins/rateLimitPlugin.ts share, function by function.
pub mod Laws
use Prim.Native.Char.{Char, code}
use Prim.Native.String
use Prim.Native.String.{String}
use request.Base.{
  ℕ, zero, suc, Bool, true, false, ◌&&◌, ◌||◌, Option, none, some, str_eq, if◌then◌else◌, leb, ◌==◌,
  max, min, Number, nan, positive_infinity, negative_infinity, finite, negative, ceiling,
  max_timer_delay,
}

-- How long a request may wait: a number of milliseconds, or `Number.POSITIVE_INFINITY`.
pub data Timeout : Type 0 where
  millis : ℕ → Timeout
  forever : Timeout

unfoldable pub normalize_positive_integer : Option Number → ℕ → ℕ
normalize_positive_integer (some (finite whole fraction)) fallback = max 1 whole
normalize_positive_integer (some (negative whole fraction)) fallback = 1
normalize_positive_integer _ fallback = fallback

unfoldable pub normalize_non_negative_integer : Option Number → ℕ → ℕ
normalize_non_negative_integer (some (finite whole fraction)) fallback = whole
normalize_non_negative_integer (some (negative whole fraction)) fallback = 0
normalize_non_negative_integer _ fallback = fallback

-- A wait is cut at the longest delay that a timer takes. A fraction of a millisecond is rounded up.
unfoldable pub normalize_duration : Option Number → Timeout → Timeout
normalize_duration none fallback = fallback
normalize_duration (some nan) fallback = millis 0
normalize_duration (some positive_infinity) fallback = forever
normalize_duration (some negative_infinity) fallback = millis 0
normalize_duration (some (finite whole fraction)) fallback =
    millis (min (ceiling whole fraction) max_timer_delay)
normalize_duration (some (negative whole fraction)) fallback = millis 0

unfoldable pub normalize_positive_duration : Option Number → ℕ → ℕ
normalize_positive_duration (some (finite whole fraction)) fallback =
    min (max 1 (ceiling whole fraction)) max_timer_delay
normalize_positive_duration (some (negative whole fraction)) fallback = 1
normalize_positive_duration _ fallback = fallback

-- The white space and line terminators that `String.prototype.trim` removes.
unfoldable pub is_white : Char → Bool
is_white c =
    (leb 9 (code c) && leb (code c) 13)
    || code c == 32
    || code c == 0xA0
    || code c == 0x1680
    || (leb 0x2000 (code c) && leb (code c) 0x200A)
    || code c == 0x2028
    || code c == 0x2029
    || code c == 0x202F
    || code c == 0x205F
    || code c == 0x3000
    || code c == 0xFEFF

unfoldable pub trim_start : String → String
trim_start String.[] = String.[]
trim_start (String.◌∷◌ c s) = if is_white c then trim_start s else String.◌∷◌ c s

abbrev is_empty : String → Bool
is_empty String.[] = true
is_empty (String.◌∷◌ c s) = false

unfoldable pub trim_end : String → String
trim_end String.[] = String.[]
trim_end (String.◌∷◌ c s) =
    let rest = trim_end s in if is_white c && is_empty rest then String.[] else String.◌∷◌ c rest

-- `String(key).trim() || 'default'`
unfoldable pub normalize_key : String → String
normalize_key key =
    let trimmed = trim_end (trim_start key) in if is_empty trimmed then "default" else trimmed
