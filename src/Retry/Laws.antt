-- ===== src/Retry/Laws.antt =====
-- What the decision of src/plugins/retryPlugin.ts guarantees.
use request.Base.{
  ℕ, ◌-◌, ◌*◌, ◌≤◌, ◌<◌, ◌≡◌, inl, inr, true, false, Option, none, some, String, arith,
  max_timer_delay, Option-cases,
}
use request.Retry.Options.{
  Failure, Amount, not_a_number, infinite, minus_infinite, below_zero, amount, unbounded,
  RetryEvent, no_jitter, RetryOptions, Normalized, Override, retries_only, full_override,
  normalize_max_delay, normalize_retry_options, resolve_retry_options,
}
use request.Retry.Decision.{
  retry, Course, Request, can_retry_request, normalize_retry_delay, is_late,
  complete_retry_decision, resolve_should_retry, finalize_with, server_delay,
  finalize_retry_decision, create_retry_decision, apply_jitter, on_retry, pending_event,
}

normalize_retry_delay-le : (d : Amount) (m : ℕ) → normalize_retry_delay d m ≤ m
unfolding normalize_retry_delay
normalize_retry_delay-le not_a_number m = omega arith
normalize_retry_delay-le infinite m = omega arith
normalize_retry_delay-le minus_infinite m = omega arith
normalize_retry_delay-le below_zero m = omega arith
normalize_retry_delay-le (amount d) m = omega arith

normalize_max_delay-le :
    (ms : ℕ) (d : Option Amount) → normalize_max_delay ms d ≤ max_timer_delay * ms
unfolding normalize_max_delay
normalize_max_delay-le ms none = omega arith
normalize_max_delay-le ms (some not_a_number) = omega arith
normalize_max_delay-le ms (some infinite) = omega arith
normalize_max_delay-le ms (some minus_infinite) = omega arith
normalize_max_delay-le ms (some below_zero) = omega arith
normalize_max_delay-le ms (some (amount d)) = omega arith

-- Whatever numbers the defaults of the plugin and the override of a request give, the resolved
-- `maxDelay` is a delay that a timer takes.
resolve_retry_options_bound :
    (ms : ℕ) (override : Option Override) (d : RetryOptions)
    → (resolve_retry_options ms override (normalize_retry_options ms d)).max_delay
      ≤ max_timer_delay * ms
unfolding resolve_retry_options normalize_retry_options
resolve_retry_options_bound ms none d = normalize_max_delay-le ms d.max_delay
resolve_retry_options_bound ms (some (retries_only n)) d = normalize_max_delay-le ms d.max_delay
resolve_retry_options_bound ms (some (full_override r)) d = elim (Option-cases r.max_delay) [
  | inl missing ↦ rw missing (normalize_max_delay-le ms d.max_delay)
  | inr (t, e) ↦ rw e (normalize_max_delay-le ms (some t))
]

-- A retry after `delay` keeps to `maxDelay` and to what is left of `maxElapsedTime`.
abbrev pub IsAllowed : Normalized → Request → Course → ℕ → Type 0
IsAllowed o q c delay =
    (delay ≤ o.max_delay)
    × (is_late o.max_elapsed_time (c.completed_at - q.start_time) delay ≡ false)

complete-IsAllowed :
    (o : Normalized) (pending : RetryEvent) (j : Amount) (q : Request) (c : Course) (delay : ℕ)
    (event : Option RetryEvent)
    → complete_retry_decision o pending j q c ≡ retry delay event
    → IsAllowed o q c delay
unfolding complete_retry_decision
complete-IsAllowed o pending j q c delay event e =
    ground (arith, normalize_retry_delay-le j o.max_delay)

module _ (ms : ℕ) (date_parse : String → Option ℕ) (random : ℕ → ℕ) where
  finalize_with-IsAllowed :
      (server : Option ℕ) (o : Normalized) (error : Failure) (attempt : ℕ) (configured : Amount)
      (q : Request) (c : Course) (delay : ℕ) (event : Option RetryEvent)
      → finalize_with ms date_parse random server o error attempt configured q c ≡ retry delay event
      → IsAllowed o q c delay
  unfolding finalize_with
  finalize_with-IsAllowed none o error attempt configured q c delay event e =
      let base = normalize_retry_delay configured o.max_delay in
      let pending = pending_event base attempt error q c in
      let jittered = apply_jitter ms date_parse random o.jitter pending in
      ground (
        arith,
        normalize_retry_delay-le configured o.max_delay,
        complete-IsAllowed o pending jittered q c delay event,
      )
  finalize_with-IsAllowed (some s) o error attempt configured q c delay event e =
      let base = normalize_retry_delay (amount s) o.max_delay in
      let pending = pending_event base attempt error q c in
      ground (
        arith,
        normalize_retry_delay-le (amount s) o.max_delay,
        complete-IsAllowed o pending (amount base) q c delay event,
      )

  -- Whatever the options and the failure, the hook asks for a retry only while attempts are left, of a
  -- request that may be sent again, for a failure that `shouldRetry` or the defaults accept, after a
  -- delay within `maxDelay`, and if the time so far and the delay fit in `maxElapsedTime`.
  pub on_retry-IsAllowed :
      (d : Normalized) (error : Failure) (attempt : ℕ) (q : Request) (c : Course) (delay : ℕ)
      (event : Option RetryEvent)
      → on_retry ms date_parse random d (some error) attempt q c ≡ retry delay event
      → let o = resolve_retry_options ms q.override d in
        (attempt < o.retries)
        × (can_retry_request q o ≡ true)
        × (resolve_should_retry ms date_parse random o error attempt c.parsed_at ≡ true)
        × IsAllowed o q c delay
  unfolding on_retry create_retry_decision finalize_retry_decision
  on_retry-IsAllowed d error attempt q c delay event e =
      let o = resolve_retry_options ms q.override d in
      ground (
        arith,
        finalize_with-IsAllowed (server_delay ms date_parse random o error c) o error attempt
            (o.delay attempt error) q c delay event,
      )

  -- Where the server asks for a delay and respectRetryAfter is set, as `server_delay` has it, a retry comes
  -- after exactly that delay, which is then within `maxDelay`.
  pub finalize_retry_decision_server :
      (o : Normalized) (error : Failure) (attempt : ℕ) (configured : Amount) (q : Request)
      (c : Course) (asked delay : ℕ) (event : Option RetryEvent)
      → server_delay ms date_parse random o error c ≡ some asked
      → finalize_retry_decision ms date_parse random o error attempt configured q c
        ≡ retry delay event
      → (delay ≡ asked) × (asked ≤ o.max_delay)
  unfolding finalize_retry_decision finalize_with complete_retry_decision normalize_retry_delay
  finalize_retry_decision_server o error attempt configured q c asked delay event s e = ground arith

  -- Where the server asks for no delay, the shortcut of `finalizeRetryDecision` for no jitter, no
  -- observer and no limit on the elapsed time decides what the long way would, if the request is not
  -- aborted meanwhile.
  finalize_with_shortcut :
      (o : Normalized) (error : Failure) (attempt : ℕ) (configured : Amount) (q : Request)
      (c : Course) (pending : RetryEvent)
      → o.jitter ≡ no_jitter
      → o.max_elapsed_time ≡ unbounded
      → o.on_retry ≡ false
      → c.aborted_after_jitter ≡ false
      → pending.delay ≡ normalize_retry_delay configured o.max_delay
      → finalize_with ms date_parse random none o error attempt configured q c
        ≡ complete_retry_decision o pending (apply_jitter ms date_parse random o.jitter pending) q c
  unfolding finalize_with complete_retry_decision apply_jitter normalize_retry_delay
  finalize_with_shortcut o error attempt configured q c pending j u n a p =
      ground (arith, normalize_retry_delay-le configured o.max_delay)
