-- ===== src/Pipeline/Attempts.antt =====
-- The attempts of a request: the loop of `executeLifecycle` of src/core/Pipeline.ts.
use request.Base.{ℕ, zero, suc, ◌+◌, not, Option, none, some, if◌then◌else◌}
use request.Hooks.Runners.{
  Result, ok, err, Context, RetryDecision, with_slots, has_response, run_transport_hooks,
  resolve_retry_hooks,
}
use request.Pipeline.Parts.{Client, Done, is_active, with_response, unless_err, and_then}
use request.Pipeline.Responses.{
  complete_failure, notify_error, fail, process_response, recover_from_error,
}

module _ {W C R E : Type 0} (k : Client W C R E) where
  -- The part of an attempt behind the transport hooks.
  unfoldable pub transport : Context C R E → W → Done W C R E
  transport c w =
      let sent = k.send c.slots.config w in
      let answered =
        and_then sent.0 c sent.1 (λ r. process_response k (with_response c (some r)) sent.1) in
      if has_response c.slots then process_response k c w else answered

  abbrev pub checked : Context C R E → W → Done W C R E
  checked c w =
      unless_err (k.validate c.slots.config) c w
        (unless_err (k.aborted c.slots.config w) c w (transport c w))

  unfoldable pub hook_transport : Context C R E → W → Done W C R E
  hook_transport c w =
      let ran = run_transport_hooks k.transport_hooks c w in
      let next = with_slots c ran.0 in
      unless_err ran.1 next ran.2
        (if has_response next.slots then transport next ran.2 else checked next ran.2)

  -- The `try` of an attempt.
  unfoldable pub try_attempt : Context C R E → W → Done W C R E
  try_attempt c w =
      unless_err (k.aborted c.slots.config w) c w
        (if is_active k.transport_hooks then hook_transport c w else transport c w)

  -- No retry: the fallback, or the error.
  unfoldable pub give_up : Context C R E → E → W → Done W C R E
  give_up c e w = elim c.slots.fallback_response [
    | none ↦ complete_failure k c e w
    | some r ↦ recover_from_error k c w
  ]

  -- The context of the next attempt.
  abbrev pub reset : Context C R E → Context C R E
  reset c = record {
    slots = record (c.slots) { response = none; fallback_response = none };
    error = none;
    attempt = c.attempt + 1;
  }

  abbrev pub delay_of : RetryDecision → ℕ
  delay_of d = elim d.delay [ none ↦ 0 | some n ↦ n ]

  -- What the `catch` of an attempt leads to: the end of the request, or the next attempt.
  pub data Next : Type 0 where
    stop : Done W C R E → Next
    again : Context C R E → W → Next

  unfoldable pub wait_for_retry : RetryDecision → Context C R E → W → Next
  wait_for_retry d c w =
      let waited = k.wait (delay_of d) c.slots.config w in
      elim waited.0 [
        | some thrown ↦ stop (fail k (reset c) thrown waited.1)
        | none ↦ again (reset c) waited.1
      ]

  unfoldable pub decide : Result E RetryDecision → Context C R E → E → W → Next
  decide (err thrown) c e w = stop (fail k c thrown w)
  decide (ok d) c e w = if d.retry then wait_for_retry d c w else stop (give_up c e w)

  unfoldable pub after_error : Context C R E → E → W → Next
  after_error c e w =
      let n = notify_error k c e w in
      let resolved = resolve_retry_hooks k.retry_hooks n.context n.context.attempt n.world in
      if not n.succeeded
      then stop (complete_failure k n.context n.error n.world)
      else if is_active k.retry_hooks
      then decide resolved.0 n.context n.error resolved.1
      else stop (give_up n.context n.error n.world)

  -- The `while` over the attempts; `none` only if the fuel is used up.
  unfoldable pub attempts : ℕ → Context C R E → W → Option (Done W C R E)
  attempts zero c w = none
  attempts (suc fuel) c w =
      let d = try_attempt c w in
      elim d.result [
        | ok r ↦ some d
        | err e ↦ elim (after_error d.context e d.world) [
          | stop end ↦ some end
          | again next w' ↦ attempts fuel next w'
        ]
      ]
