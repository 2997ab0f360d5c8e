-- ===== src/Base/Numbers.antt =====
-- JavaScript numbers as the options of the plugins give them, and the timer limit of
-- src/utils/maxTimerDelay.ts.
use Prim.Native.Nat.{ℕ, zero, suc, ◌-◌, ◌^◌}

-- A finite number is `whole` plus a fraction, below one, that is 0 exactly when `fraction` is;
-- `negative` is its negation, for a number below zero.
pub data Number : Type 0 where
  nan positive_infinity negative_infinity : Number
  finite : ℕ → ℕ → Number
  negative : ℕ → ℕ → Number

-- The least whole number that is not below a non-negative number. A time that elapsed is a whole
-- number of milliseconds, so it reaches a duration exactly when it reaches this bound.
abbrev pub ceiling : ℕ → ℕ → ℕ
ceiling whole zero = whole
ceiling whole (suc fraction) = suc whole

abbrev pub max_safe_integer : ℕ
max_safe_integer = 2 ^ 53 - 1

abbrev pub max_timer_delay : ℕ
max_timer_delay = 2_147_483_647
