-- ===== src/Pipeline/Tests.antt =====
-- Requests of concrete clients through src/core/Pipeline.ts.
use request.Base.{
  ℕ, ◌+◌, ltb, true, false, [], ◌∷◌, Option, none, some, ◌≡◌, refl, arith, if◌then◌else◌, String,
  finite,
}
use request.Hooks.Runners.{
  Result, ok, err, Context, Hook, RetryHook, resolve_retry_hooks, run_hooks, run_settled_hooks,
}
use request.Retry.Options.{
  Failure, request_error, network_error, RetryOptions, Normalized, normalize_retry_options,
  resolve_retry_options, normalize_retries,
}
use request.Retry.Decision.{Request, Course}
use request.Pipeline.Parts.{Client, Done}
use request.Pipeline.Responses.{
  notify_error, process_response_interceptors, validate_response_schema, process_validated_response,
  process_response,
}
use request.Pipeline.Attempts.{
  transport, hook_transport, try_attempt, wait_for_retry, decide, after_error, attempts,
}
use request.Pipeline.Execution.{
  prepare, validated, execute_body, settle, execute_lifecycle, execute_configured,
}
use request.Pipeline.Settled.{DeclinesFrom, ends, execute_lifecycle-ends}
use request.Pipeline.Direct.{GoesOn, outcome, execute_configured-eq-execute_lifecycle}
use request.Pipeline.Retries.{retry_hook, AllowsAtMost, execute_lifecycle-retry_hook}

-- The world counts what is sent: the server answers the third time.
abbrev answer : ℕ → ℕ → Result ℕ ℕ × ℕ
answer config w = (if ltb w 2 then err 503 else ok 200, w + 1)

abbrev direct : Client ℕ ℕ ℕ ℕ
direct = record {
  validate = λ config. none;
  aborted = λ config w. none;
  has_schema = λ config. false;
  validate_schema = λ config r w. (ok r, w);
  send = answer;
  wait = λ delay config w. (none, w);
  request_interceptors = [];
  response_interceptors = [];
  error_interceptors = [];
  request_hooks = [];
  transport_hooks = [];
  response_hooks = [];
  error_hooks = [];
  settled_hooks = [];
  retry_hooks = [];
}

abbrev three_retries : RetryHook ℕ ℕ ℕ ℕ
three_retries c attempt w = (ok (some (record { retry = ltb attempt 3; delay = none })), w)

-- A settled hook that takes the response away, and throws.
abbrev forgetful : Hook ℕ ℕ ℕ ℕ
forgetful c w = (record (c.slots) { response = none }, some 1, w + 10)

abbrev retrying : Client ℕ ℕ ℕ ℕ
retrying = record direct { retry_hooks = three_retries ∷ []; settled_hooks = forgetful ∷ [] }

retrying-DeclinesFrom : DeclinesFrom retrying 3
unfolding resolve_retry_hooks
retrying-DeclinesFrom c w d late q = ground arith

abbrev third : Done ℕ ℕ ℕ ℕ
third = record {
  result = ok (some 200);
  context = record {
    slots = record { config = 7; response = none; fallback_response = none };
    error = none;
    attempt = 2;
  };
  world = 13;
}

retrying-third : execute_lifecycle retrying 4 7 0 ≡ some third
unfolding execute_lifecycle execute_body prepare validated settle attempts try_attempt transport
    hook_transport process_response process_validated_response validate_response_schema
    process_response_interceptors after_error notify_error decide wait_for_retry resolve_retry_hooks
    run_hooks run_settled_hooks
retrying-third = refl

execute_lifecycle-ends_example : ends retrying (execute_lifecycle retrying 4 7 0) ≡ true
execute_lifecycle-ends_example =
    execute_lifecycle-ends retrying 3 4 7 0 retrying-DeclinesFrom (omega arith)

direct-GoesOn : GoesOn direct 7 5
direct-GoesOn r q = refl

execute_configured-eq-execute_lifecycle_example :
    execute_configured direct 1 7 5 ≡ outcome (execute_lifecycle direct 1 7 5)
execute_configured-eq-execute_lifecycle_example =
    execute_configured-eq-execute_lifecycle direct 0 7 5 direct-GoesOn

abbrev twice : RetryOptions
twice = record {
  retries = some (finite 2 0);
  methods = none;
  status_codes = none;
  retry_on_timeout = none;
  delay = none;
  respect_retry_after = none;
  max_delay = none;
  jitter = none;
  max_elapsed_time = none;
  should_retry = none;
  on_retry = false;
}

abbrev twice_normalized : Normalized
twice_normalized = normalize_retry_options 1 twice

abbrev no_date : String → Option ℕ
no_date text = none

abbrev largest : ℕ → ℕ
largest d = d

abbrev sent : Context ℕ ℕ ℕ → Request
sent c = record { method = none; has_stream_body = false; override = none; start_time = 1000 }

abbrev disconnected : ℕ → Failure
disconnected e = request_error network_error none none

abbrev course : Context ℕ ℕ ℕ → ℕ → Course
course c w = record {
  parsed_at = 1500;
  pending_at = 1500;
  completed_at = 1500;
  aborted_at_start = false;
  aborted_after_delay = false;
  aborted_after_jitter = false;
}

abbrev as_it_is : Context ℕ ℕ ℕ → ℕ → ℕ
as_it_is c w = w

abbrev plugged : Client ℕ ℕ ℕ ℕ
plugged = record direct {
  retry_hooks =
      retry_hook 0 1 no_date largest twice_normalized sent disconnected course as_it_is ∷ [];
}

twice-AllowsAtMost :
    AllowsAtMost 0 1 no_date largest twice_normalized sent disconnected course as_it_is 2
unfolding normalize_retry_options resolve_retry_options normalize_retries
twice-AllowsAtMost c = omega arith

execute_lifecycle-retry_hook_example : ends plugged (execute_lifecycle plugged 3 7 0) ≡ true
execute_lifecycle-retry_hook_example =
    execute_lifecycle-retry_hook 0 1 no_date largest twice_normalized sent disconnected course
      as_it_is plugged 2 3 7 0 refl twice-AllowsAtMost (omega arith)
