-- ===== src/Retry/Options.antt =====
-- The options of src/plugins/retryPlugin.ts, their normalisation and their override by a request.
use request.Base.{
  ℕ, ◌*◌, ◌^◌, min, Bool, true, false, ◌||◌, List, [], ◌∷◌, Option, none, some, String, ◌==◌,
  Number, finite, max_timer_delay,
}

-- src/types/method.ts
pub data HttpMethod : Type 0 where
  get post put delete patch head options query : HttpMethod

abbrev method_code : HttpMethod → ℕ
method_code get = 0
method_code post = 1
method_code put = 2
method_code delete = 3
method_code patch = 4
method_code head = 5
method_code options = 6
method_code query = 7

unfoldable pub has_method : List HttpMethod → HttpMethod → Bool
has_method [] m = false
has_method (x ∷ xs) m = method_code x == method_code m || has_method xs m

unfoldable pub has_status : List ℕ → ℕ → Bool
has_status [] s = false
has_status (x ∷ xs) s = x == s || has_status xs s

abbrev pub default_retry_methods : List HttpMethod
default_retry_methods = get ∷ head ∷ options ∷ query ∷ put ∷ delete ∷ []

-- RequestErrorCode of src/errors/RequestError.ts, as far as the plugin tells codes apart.
pub data ErrorCode : Type 0 where
  network_error timeout_error other_code : ErrorCode

-- What is thrown: a RequestError with its status and the lookup of its response's headers, where it
-- has them, or another value.
pub data Failure : Type 0 where
  request_error : ErrorCode → Option ℕ → Option (String → Option String) → Failure
  other_error : Failure

-- A number as a duration: in units of time, or a value that is none.
pub data Amount : Type 0 where
  not_a_number infinite minus_infinite below_zero : Amount
  amount : ℕ → Amount

-- A limit, or `Number.POSITIVE_INFINITY`.
pub data Limit : Type 0 where
  at_most : ℕ → Limit
  unbounded : Limit

pub record RetryEvent : Type 0 where
  pub attempt : ℕ
  pub delay : ℕ
  pub elapsed_time : ℕ
  pub error : Failure

-- `false`, `true`, or a function of the event.
pub data Jitter : Type 0 where
  no_jitter random_jitter : Jitter
  jitter_by : (RetryEvent → Amount) → Jitter

-- A fixed duration, or a function of the attempt and the error.
pub data Delay : Type 0 where
  fixed : Amount → Delay
  computed : (ℕ → Failure → Amount) → Delay

-- RetryOptions. `shouldRetry` may answer undefined. Of the observer `onRetry` it matters whether it
-- is there: what it does and throws has no effect.
pub record RetryOptions : Type 0 where
  pub retries : Option Number
  pub methods : Option (List HttpMethod)
  pub status_codes : Option (List ℕ)
  pub retry_on_timeout : Option Bool
  pub delay : Option Delay
  pub respect_retry_after : Option Bool
  pub max_delay : Option Amount
  pub jitter : Option Jitter
  pub max_elapsed_time : Option Amount
  pub should_retry : Option (Failure → ℕ → Option Bool)
  pub on_retry : Bool

pub record Normalized : Type 0 where
  pub retries : ℕ
  pub methods : List HttpMethod
  pub status_codes : Option (List ℕ)
  pub retry_on_timeout : Bool
  pub delay : ℕ → Failure → Amount
  pub respect_retry_after : Bool
  pub max_delay : ℕ
  pub jitter : Jitter
  pub max_elapsed_time : Limit
  pub should_retry : Option (Failure → ℕ → Option Bool)
  pub on_retry : Bool

-- The override of a request: a number of retries, or options.
pub data Override : Type 0 where
  retries_only : Number → Override
  full_override : RetryOptions → Override

unfoldable pub normalize_retries : Number → ℕ
normalize_retries (finite whole fraction) = whole
normalize_retries _ = 0

unfoldable pub normalize_max_elapsed_time : Option Amount → Limit
normalize_max_elapsed_time none = unbounded
normalize_max_elapsed_time (some infinite) = unbounded
normalize_max_elapsed_time (some (amount t)) = at_most t
normalize_max_elapsed_time (some _) = at_most 0

-- `Math.max(0, delay)`; of NaN it is NaN.
abbrev pub at_least_zero : Amount → Amount
at_least_zero minus_infinite = amount 0
at_least_zero below_zero = amount 0
at_least_zero d = d

-- `value ?? fallback`
abbrev pub or_default {ℓ} : {A : Type ℓ} → Option A → A → A
or_default none d = d
or_default (some a) d = a

abbrev pub or_option {ℓ} : {A : Type ℓ} → Option A → Option A → Option A
or_option none d = d
or_option (some a) d = some a

module _ (ms : ℕ) where
  unfoldable pub normalize_max_delay : Option Amount → ℕ
  normalize_max_delay none = 60000 * ms
  normalize_max_delay (some infinite) = max_timer_delay * ms
  normalize_max_delay (some (amount t)) = min t (max_timer_delay * ms)
  normalize_max_delay (some _) = 0

  unfoldable pub default_retry_delay : ℕ → ℕ
  default_retry_delay attempt = min (100 * 2 ^ attempt * ms) (1000 * ms)

  unfoldable pub normalize_delay : Option Delay → ℕ → Failure → Amount
  normalize_delay none attempt error = amount (default_retry_delay attempt)
  normalize_delay (some (fixed d)) attempt error = at_least_zero d
  normalize_delay (some (computed f)) attempt error = f attempt error

  -- `normalizeRetryOptions(undefined, defaults)`
  unfoldable pub normalize_retry_options : RetryOptions → Normalized
  normalize_retry_options d = record {
    retries = normalize_retries (or_default d.retries (finite 0 0));
    methods = or_default d.methods default_retry_methods;
    status_codes = d.status_codes;
    retry_on_timeout = or_default d.retry_on_timeout true;
    delay = normalize_delay d.delay;
    respect_retry_after = or_default d.respect_retry_after true;
    max_delay = normalize_max_delay d.max_delay;
    jitter = or_default d.jitter no_jitter;
    max_elapsed_time = normalize_max_elapsed_time d.max_elapsed_time;
    should_retry = d.should_retry;
    on_retry = d.on_retry;
  }

  abbrev pub override_max_delay : Option Amount → ℕ → ℕ
  override_max_delay none d = d
  override_max_delay (some t) d = normalize_max_delay (some t)

  unfoldable pub resolve_retry_options : Option Override → Normalized → Normalized
  resolve_retry_options none d = d
  resolve_retry_options (some (retries_only n)) d = record d { retries = normalize_retries n }
  resolve_retry_options (some (full_override r)) d = record {
    retries = elim r.retries [ none ↦ d.retries | some n ↦ normalize_retries n ];
    methods = or_default r.methods d.methods;
    status_codes = or_option r.status_codes d.status_codes;
    retry_on_timeout = or_default r.retry_on_timeout d.retry_on_timeout;
    delay = elim r.delay [ none ↦ d.delay | some x ↦ normalize_delay (some x) ];
    respect_retry_after = or_default r.respect_retry_after d.respect_retry_after;
    max_delay = override_max_delay r.max_delay d.max_delay;
    jitter = or_default r.jitter d.jitter;
    max_elapsed_time = elim r.max_elapsed_time [
      | none ↦ d.max_elapsed_time
      | some t ↦ normalize_max_elapsed_time (some t)
    ];
    should_retry = or_option r.should_retry d.should_retry;
    on_retry = r.on_retry || d.on_retry;
  }
