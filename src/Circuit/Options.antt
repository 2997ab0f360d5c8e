-- ===== src/Circuit/Options.antt =====
-- The options of src/plugins/circuitBreakerPlugin.ts and their normalisation.
use request.Base.{
  ℕ, ◌≤◌, Option, none, some, String, str_eq, if◌then◌else◌, max, arith, Number, nan,
  positive_infinity, negative_infinity, finite, negative, ceiling, max_safe_integer,
}

-- `Math.max(1, Math.floor(value))` of a number below zero is 1.
unfoldable pub normalize_positive_integer : Option Number → ℕ → ℕ
normalize_positive_integer none fallback = fallback
normalize_positive_integer (some nan) fallback = fallback
normalize_positive_integer (some positive_infinity) fallback = fallback
normalize_positive_integer (some negative_infinity) fallback = fallback
normalize_positive_integer (some (finite whole fraction)) fallback = max 1 whole
normalize_positive_integer (some (negative whole fraction)) fallback = 1

-- `value > 0` fails for NaN, so that NaN and -Infinity both give 0.
unfoldable pub normalize_duration : Option Number → ℕ → ℕ
normalize_duration none fallback = fallback
normalize_duration (some nan) fallback = 0
normalize_duration (some positive_infinity) fallback = max_safe_integer
normalize_duration (some negative_infinity) fallback = 0
normalize_duration (some (finite whole fraction)) fallback = ceiling whole fraction
normalize_duration (some (negative whole fraction)) fallback = 0

-- `key || 'default'`
unfoldable pub normalize_key : String → String
normalize_key key = if str_eq key "" then "default" else key

-- CircuitBreakerPluginOptions without its callbacks.
pub record PluginOptions : Type 0 where
  pub failure_threshold : Option Number
  pub success_threshold : Option Number
  pub reset_timeout : Option Number
  pub half_open_max_requests : Option Number
  pub max_circuits : Option Number

pub record Options : Type 0 where
  pub failure_threshold : ℕ
  pub success_threshold : ℕ
  pub reset_timeout : ℕ
  pub half_open_max_requests : ℕ
  pub max_circuits : ℕ

unfoldable pub normalize_options : PluginOptions → Options
unfolding normalize_positive_integer normalize_duration
normalize_options o = record {
  failure_threshold = normalize_positive_integer o.failure_threshold 5;
  success_threshold = normalize_positive_integer o.success_threshold 1;
  reset_timeout = normalize_duration o.reset_timeout 30000;
  half_open_max_requests = normalize_positive_integer o.half_open_max_requests 1;
  max_circuits = normalize_positive_integer o.max_circuits 1000;
}

-- What every normalised option record satisfies.
pub record IsNormal (o : Options) : Type 0 where
  pub failures_positive : 1 ≤ o.failure_threshold
  pub successes_positive : 1 ≤ o.success_threshold
  pub probes_positive : 1 ≤ o.half_open_max_requests
  pub circuits_positive : 1 ≤ o.max_circuits

normalize_positive_integer-pos :
    (v : Option Number) (d : ℕ) → 1 ≤ d → 1 ≤ normalize_positive_integer v d
unfolding normalize_positive_integer
normalize_positive_integer-pos none d h = h
normalize_positive_integer-pos (some nan) d h = h
normalize_positive_integer-pos (some positive_infinity) d h = h
normalize_positive_integer-pos (some negative_infinity) d h = h
normalize_positive_integer-pos (some (finite w f)) d h = omega arith
normalize_positive_integer-pos (some (negative w f)) d h = omega arith

-- Whatever numbers a caller passes, NaN and the infinities included, every normalised threshold
-- and limit is at least one.
pub normalize_options-IsNormal : (o : PluginOptions) → IsNormal (normalize_options o)
unfolding normalize_options
normalize_options-IsNormal o = record {
  failures_positive = normalize_positive_integer-pos o.failure_threshold 5 (omega arith);
  successes_positive = normalize_positive_integer-pos o.success_threshold 1 (omega arith);
  probes_positive = normalize_positive_integer-pos o.half_open_max_requests 1 (omega arith);
  circuits_positive = normalize_positive_integer-pos o.max_circuits 1000 (omega arith);
}
