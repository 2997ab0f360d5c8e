-- ===== src/Limits/Laws.antt =====
-- The bounds that the shared normalisation of src/plugins/concurrencyPlugin.ts guarantees.
use request.Base.{
  ℕ, ◌≤◌, Option, none, some, arith, Number, nan, positive_infinity, negative_infinity, finite,
  negative, max_timer_delay,
}
use request.Limits.{
  Timeout, millis, forever, normalize_positive_integer, normalize_duration,
  normalize_positive_duration,
}

pub normalize_positive_integer-pos :
    (v : Option Number) (d : ℕ) → 1 ≤ d → 1 ≤ normalize_positive_integer v d
unfolding normalize_positive_integer
normalize_positive_integer-pos none d h = h
normalize_positive_integer-pos (some nan) d h = h
normalize_positive_integer-pos (some positive_infinity) d h = h
normalize_positive_integer-pos (some negative_infinity) d h = h
normalize_positive_integer-pos (some (finite w f)) d h = omega arith
normalize_positive_integer-pos (some (negative w f)) d h = omega arith

-- A timer takes every finite wait.
abbrev pub IsTimerDelay : Timeout → Type 0
IsTimerDelay (millis t) = t ≤ max_timer_delay
IsTimerDelay forever = Unit

-- Whatever number a caller passes, a normalised wait is unbounded or a delay that a timer takes, if
-- the fallback is.
pub normalize_duration-IsTimerDelay :
    (v : Option Number) (d : Timeout) → IsTimerDelay d → IsTimerDelay (normalize_duration v d)
unfolding normalize_duration
normalize_duration-IsTimerDelay none d h = h
normalize_duration-IsTimerDelay (some nan) d h = omega arith
normalize_duration-IsTimerDelay (some positive_infinity) d h = tt
normalize_duration-IsTimerDelay (some negative_infinity) d h = omega arith
normalize_duration-IsTimerDelay (some (finite w f)) d h = omega arith
normalize_duration-IsTimerDelay (some (negative w f)) d h = omega arith

-- Whatever number a caller passes, a normalised positive duration is at least one millisecond and at
-- most the longest delay of a timer, if the fallback is.
pub normalize_positive_duration_bounds :
    (v : Option Number) (d : ℕ)
    → 1 ≤ d
    → d ≤ max_timer_delay
    → (1 ≤ normalize_positive_duration v d) × (normalize_positive_duration v d ≤ max_timer_delay)
unfolding normalize_positive_duration
normalize_positive_duration_bounds none d h k = (h, k)
normalize_positive_duration_bounds (some nan) d h k = (h, k)
normalize_positive_duration_bounds (some positive_infinity) d h k = (h, k)
normalize_positive_duration_bounds (some negative_infinity) d h k = (h, k)
normalize_positive_duration_bounds (some (finite w f)) d h k = omega arith
normalize_positive_duration_bounds (some (negative w f)) d h k = omega arith
