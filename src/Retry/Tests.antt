-- ===== src/Retry/Tests.antt =====
-- Decisions of src/plugins/retryPlugin.ts on concrete failures.
use request.Base.{
  ℕ, ◌≤◌, ◌<◌, ◌≡◌, refl, true, false, Option, none, some, String, str_eq, finite, if◌then◌else◌,
}
use request.Retry.Options.{
  post, Failure, request_error, network_error, other_code, amount, infinite, RetryOptions,
  Normalized, has_method, has_status, normalize_retries, normalize_max_elapsed_time,
  normalize_max_delay, default_retry_delay, normalize_delay, normalize_retry_options,
  resolve_retry_options,
}
use request.Retry.Server.{
  server_retry_timing, digits_from, decimal, timing_delay, parse_server_retry_delay,
}
use request.Retry.Decision.{
  declined, retry, Course, Request, can_retry_request, is_retry_status, normalize_retry_delay,
  complete_retry_decision, default_should_retry, resolve_should_retry, apply_jitter, finalize_with,
  server_delay, finalize_retry_decision, create_retry_decision, on_retry,
}
use request.Retry.Laws.{IsAllowed, on_retry-IsAllowed, finalize_retry_decision_server}

abbrev no_options : RetryOptions
no_options = record {
  retries = some (finite 3 0);
  methods = none;
  status_codes = none;
  retry_on_timeout = none;
  delay = none;
  respect_retry_after = none;
  max_delay = none;
  jitter = none;
  max_elapsed_time = none;
  should_retry = none;
  on_retry = false;
}

-- A clock of whole milliseconds, where no text is a date, and the largest draw.
abbrev no_date : String → Option ℕ
no_date text = none

abbrev largest : ℕ → ℕ
largest d = d

abbrev two_seconds : String → Option String
two_seconds name = if str_eq name "retry-after" then some "2" else none

abbrev unavailable : Failure
unavailable = request_error other_code (some 503) (some two_seconds)

abbrev disconnected : Failure
disconnected = request_error network_error none none

abbrev sent : Request
sent = record { method = none; has_stream_body = false; override = none; start_time = 1000 }

abbrev course : Course
course = record {
  parsed_at = 1500;
  pending_at = 1500;
  completed_at = 1500;
  aborted_at_start = false;
  aborted_after_delay = false;
  aborted_after_jitter = false;
}

abbrev defaults : Normalized
defaults = normalize_retry_options 1 no_options

-- A refused connection is tried again after a growing delay, an unavailable service when it says; a
-- POST is not, nor is anything once the attempts are used up.
decisions :
    (on_retry 1 no_date largest defaults (some disconnected) 1 sent course ≡ retry 200 none)
    × (on_retry 1 no_date largest defaults (some unavailable) 0 sent course ≡ retry 2000 none)
    × (on_retry 1 no_date largest defaults
          (some disconnected)
          0
          (record sent { method = some post })
          course
        ≡ declined)
    × (on_retry 1 no_date largest defaults (some disconnected) 3 sent course ≡ declined)
unfolding on_retry create_retry_decision finalize_retry_decision finalize_with
    complete_retry_decision normalize_retry_delay apply_jitter can_retry_request is_retry_status
    default_should_retry resolve_should_retry resolve_retry_options normalize_retry_options
    normalize_delay normalize_max_delay normalize_max_elapsed_time default_retry_delay
    normalize_retries has_method has_status server_retry_timing digits_from decimal timing_delay
    parse_server_retry_delay
decisions = (refl, refl, refl, refl)

asked_for : server_delay 1 no_date largest defaults unavailable course ≡ some 2000
unfolding normalize_retry_options server_retry_timing digits_from decimal timing_delay
    parse_server_retry_delay
asked_for = refl

abbrev unlimited : RetryOptions
unlimited = record no_options { max_delay = some infinite }

on_retry-IsAllowed_example :
    let o = resolve_retry_options 1 none defaults in
    (1 < o.retries)
    × (can_retry_request sent o ≡ true)
    × (resolve_should_retry 1 no_date largest o disconnected 1 1500 ≡ true)
    × IsAllowed o sent course 200
on_retry-IsAllowed_example =
    on_retry-IsAllowed 1 no_date largest defaults disconnected 1 sent course 200 none decisions.0

unavailable_decision :
    finalize_retry_decision 1 no_date largest defaults unavailable 0 (amount 100) sent course
    ≡ retry 2000 none
unfolding finalize_retry_decision finalize_with normalize_retry_delay normalize_retry_options
    normalize_max_delay normalize_max_elapsed_time server_retry_timing digits_from decimal
    timing_delay parse_server_retry_delay
unavailable_decision = refl

finalize_retry_decision_server_example :
    let asked : ℕ = 2000 in (asked ≡ asked) × (asked ≤ defaults.max_delay)
finalize_retry_decision_server_example =
    finalize_retry_decision_server 1 no_date largest defaults unavailable 0 (amount 100) sent course
      2000 2000 none asked_for unavailable_decision
