-- ===== src/Retry/Decision.antt =====
-- The decision of src/plugins/retryPlugin.ts on a failed attempt. The promises of the caller's
-- functions are what they are fulfilled with; a function that throws ends the hook with what it
-- threw, and is not modelled. `random d` is `Math.random() * d`.
use request.Base.{
  ℕ, ◌+◌, ◌-◌, Bool, true, false, ◌&&◌, ◌||◌, not, Option, none, some, String, leb, ltb, ◌==◌, min,
  if◌then◌else◌,
}
use request.Retry.Options.{
  HttpMethod, get, has_method, has_status, network_error, timeout_error, other_code, Failure,
  request_error, other_error, Amount, infinite, amount, Limit, at_most, unbounded, RetryEvent,
  Jitter, no_jitter, random_jitter, jitter_by, Normalized, Override, resolve_retry_options,
}
use request.Retry.Server.{parse_server_retry_delay}

-- What the hook does: nothing, throw since the request was aborted, or ask for a retry after a delay;
-- `notified` is the event that the observer gets.
pub data Outcome : Type 0 where
  declined aborted : Outcome
  retry : ℕ → Option RetryEvent → Outcome

-- When the clock is read, and whether the request is aborted, at the points where the hook looks:
-- before and after it asks for the delay, and after it asks for the jitter.
pub record Course : Type 0 where
  pub parsed_at : ℕ
  pub pending_at : ℕ
  pub completed_at : ℕ
  pub aborted_at_start : Bool
  pub aborted_after_delay : Bool
  pub aborted_after_jitter : Bool

pub record Request : Type 0 where
  pub method : Option HttpMethod
  pub has_stream_body : Bool
  pub override : Option Override
  pub start_time : ℕ

unfoldable pub can_retry_request : Request → Normalized → Bool
can_retry_request q o =
    let method : HttpMethod = elim q.method [ none ↦ get | some m ↦ m ] in
    has_method o.methods method && not q.has_stream_body

unfoldable pub is_retry_status : ℕ → Normalized → Bool
is_retry_status status o = elim o.status_codes [
  | some codes ↦ has_status codes status
  | none ↦ status == 408 || status == 413 || status == 425 || status == 429 || leb 500 status
]

unfoldable pub normalize_retry_delay : Amount → ℕ → ℕ
normalize_retry_delay infinite max_delay = max_delay
normalize_retry_delay (amount d) max_delay = min d max_delay
normalize_retry_delay _ max_delay = 0

-- `event.elapsedTime >= maxElapsedTime || event.elapsedTime + delay > maxElapsedTime`
abbrev pub is_late : Limit → ℕ → ℕ → Bool
is_late unbounded elapsed delay = false
is_late (at_most m) elapsed delay = leb m elapsed || ltb m (elapsed + delay)

unfoldable pub complete_retry_decision :
    Normalized → RetryEvent → Amount → Request → Course → Outcome
complete_retry_decision o pending jittered q c =
    let delay = normalize_retry_delay jittered o.max_delay in
    let event = record pending { delay = delay; elapsed_time = c.completed_at - q.start_time } in
    if c.aborted_after_jitter
    then aborted
    else if is_late o.max_elapsed_time event.elapsed_time delay
    then declined
    else retry delay (if o.on_retry then some event else none)

abbrev pub is_unbounded : Limit → Bool
is_unbounded unbounded = true
is_unbounded (at_most m) = false

abbrev pub is_no_jitter : Jitter → Bool
is_no_jitter no_jitter = true
is_no_jitter _ = false

abbrev pub is_some {ℓ} : {A : Type ℓ} → Option A → Bool
is_some none = false
is_some (some a) = true

abbrev pub pending_event : ℕ → ℕ → Failure → Request → Course → RetryEvent
pending_event base attempt error q c = record {
  attempt = attempt + 1;
  delay = base;
  elapsed_time = c.pending_at - q.start_time;
  error = error;
}

module _ (ms : ℕ) (date_parse : String → Option ℕ) (random : ℕ → ℕ) where
  unfoldable pub default_should_retry : Failure → Normalized → ℕ → Bool
  default_should_retry other_error o now = false
  default_should_retry (request_error network_error s h) o now = true
  default_should_retry (request_error timeout_error s h) o now = o.retry_on_timeout
  default_should_retry (request_error other_code none h) o now = false
  default_should_retry (request_error other_code (some s) h) o now =
      let asked =
        parse_server_retry_delay ms date_parse (request_error other_code (some s) h) now in
      is_retry_status s o && (not (s == 413) || is_some asked)

  unfoldable pub resolve_should_retry : Normalized → Failure → ℕ → ℕ → Bool
  resolve_should_retry o error attempt now = elim o.should_retry [
    | none ↦ default_should_retry error o now
    | some f ↦ elim (f error attempt) [ none ↦ default_should_retry error o now | some b ↦ b ]
  ]

  unfoldable pub apply_jitter : Jitter → RetryEvent → Amount
  apply_jitter no_jitter e = amount e.delay
  apply_jitter random_jitter e = amount (random e.delay)
  apply_jitter (jitter_by f) e = f e

  -- `finalizeRetryDecision` with the server's delay, if it gives one and it is respected.
  unfoldable pub finalize_with :
      Option ℕ → Normalized → Failure → ℕ → Amount → Request → Course → Outcome
  finalize_with none o error attempt configured q c =
      let base = normalize_retry_delay configured o.max_delay in
      let pending = pending_event base attempt error q c in
      if is_no_jitter o.jitter && is_unbounded o.max_elapsed_time && not o.on_retry
      then retry base none
      else complete_retry_decision o pending (apply_jitter o.jitter pending) q c
  finalize_with (some server) o error attempt configured q c =
      let base = normalize_retry_delay (amount server) o.max_delay in
      let pending = pending_event base attempt error q c in
      if ltb o.max_delay server
      then declined
      else if is_unbounded o.max_elapsed_time && not o.on_retry
      then retry base none
      else complete_retry_decision o pending (amount base) q c

  abbrev pub server_delay : Normalized → Failure → Course → Option ℕ
  server_delay o error c =
      if o.respect_retry_after
      then parse_server_retry_delay ms date_parse error c.parsed_at
      else none

  unfoldable pub finalize_retry_decision :
      Normalized → Failure → ℕ → Amount → Request → Course → Outcome
  finalize_retry_decision o error attempt configured q c =
      let done = finalize_with (server_delay o error c) o error attempt configured q c in
      if c.aborted_after_delay then aborted else done

  unfoldable pub create_retry_decision : Normalized → Failure → ℕ → Request → Course → Outcome
  create_retry_decision o error attempt q c =
      let done = finalize_retry_decision o error attempt (o.delay attempt error) q c in
      if c.aborted_at_start then aborted else done

  -- The `onRetry` hook of an installation with the normalised options `d`, for a request that failed
  -- with `error`. The options that it resolves for a request it may keep for the next attempt.
  unfoldable pub on_retry : Normalized → Option Failure → ℕ → Request → Course → Outcome
  on_retry d none attempt q c = declined
  on_retry d (some error) attempt q c =
      let o = resolve_retry_options ms q.override d in
      let done = create_retry_decision o error attempt q c in
      if leb o.retries attempt
        || not (can_retry_request q o)
        || not (resolve_should_retry o error attempt c.parsed_at)
      then declined
      else done
