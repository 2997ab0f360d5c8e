-- ===== src/Pipeline/Outcome.antt =====
-- How the end of a request stands in its context, which the settled hooks of src/core/Pipeline.ts see.
use request.Base.{
  ℕ, ◌+◌, Bool, true, false, Option, none, some, ◌≡◌, refl, subst, arith, not, if_elim,
}
use request.Hooks.Runners.{
  Result, ok, err, Context, RetryDecision, with_slots, has_response, run_hooks, run_transport_hooks,
  resolve_retry_hooks,
}
use request.Pipeline.Parts.{Client, Done, is_active, with_response, done, unless_err, and_then}
use request.Pipeline.Responses.{
  complete_failure, notify_error, fail, process_response_interceptors, validate_response_schema,
  process_validated_response, process_response, or_fail, recover_from_error,
}
use request.Pipeline.Attempts.{
  transport, checked, hook_transport, try_attempt, give_up, reset, delay_of, wait_for_retry, decide,
  Next, stop, again, after_error,
}

module _ {C R E : Type 0} where
  abbrev pub has_error : Context C R E → Bool
  has_error c = elim c.error [ none ↦ false | some e ↦ true ]

module _ {W C R E : Type 0} where
  -- A response that is returned is the context's, which has no error.
  abbrev pub HasReturned : Done W C R E → Type 0
  HasReturned d =
      (r : Option R) → d.result ≡ ok r → (d.context.error ≡ none) × (d.context.slots.response ≡ r)

  -- The same, at the end of the attempt `n`.
  abbrev pub Returned : ℕ → Done W C R E → Type 0
  Returned n d = HasReturned d × (d.context.attempt ≡ n)

  -- With an error that is thrown the context has one.
  abbrev pub Thrown : Done W C R E → Type 0
  Thrown d = (e : E) → d.result ≡ err e → has_error d.context ≡ true

  abbrev pub Consistent : Done W C R E → Type 0
  Consistent d = HasReturned d × Thrown d

  pub err-Returned : (e : E) (c : Context C R E) (w : W) → Returned c.attempt (done (err e) c w)
  err-Returned e c w = (λ r q. ground arith, refl)

  unless_err-Returned :
      (o : Option E) (c : Context C R E) (w : W) (next : Done W C R E)
      → Returned c.attempt next
      → Returned c.attempt (unless_err o c w next)
  unless_err-Returned none c w next h = h
  unless_err-Returned (some e) c w next h = err-Returned e c w

  and_then-Returned :
      {A : Type 0} (x : Result E A) (c : Context C R E) (w : W) (next : A → Done W C R E)
      → ((a : A) → x ≡ ok a → Returned c.attempt (next a))
      → Returned c.attempt (and_then x c w next)
  and_then-Returned (err e) c w next h = err-Returned e c w
  and_then-Returned (ok a) c w next h = h a refl

module _ {W C R E : Type 0} (k : Client W C R E) where
  complete_failure-Consistent :
      (c : Context C R E) (e : E) (w : W)
      → has_error c ≡ true
      → Consistent (complete_failure k c e w)
  unfolding complete_failure
  complete_failure-Consistent c e w h = (λ r q. ground arith, λ e' q. ground arith)

  process_response_interceptors-Returned :
      (c : Context C R E) (w : W)
      → c.error ≡ none
      → Returned c.attempt (process_response_interceptors k c w)
  unfolding process_response_interceptors
  process_response_interceptors-Returned c w h = (λ r q. ground arith, ground arith)

  validate_response_schema-error :
      (c v : Context C R E) (w : W)
      → c.error ≡ none
      → (validate_response_schema k c w).0 ≡ ok v
      → (v.error ≡ none) × (v.attempt ≡ c.attempt)
  unfolding validate_response_schema
  validate_response_schema-error c v w h q = (ground arith, ground arith)

  pub notify_error-error :
      (c : Context C R E) (e : E) (w : W)
      → (has_error (notify_error k c e w).context ≡ true)
        × ((notify_error k c e w).context.attempt ≡ c.attempt)
  unfolding notify_error
  notify_error-error c e w = (ground arith, ground arith)

  pub fail-Consistent : (c : Context C R E) (e : E) (w : W) → Consistent (fail k c e w)
  unfolding fail
  fail-Consistent c e w =
      let n = notify_error k c e w in
      complete_failure-Consistent n.context n.error n.world (notify_error-error c e w).0

  process_validated_response-Returned :
      (c : Context C R E) (w : W)
      → c.error ≡ none
      → Returned c.attempt (process_validated_response k c w)
  unfolding process_validated_response
  process_validated_response-Returned c w h =
      let valid = validate_response_schema k c w in
      unless_err-Returned (k.aborted c.slots.config w) c w
        (and_then valid.0 c valid.1 (λ v. process_response_interceptors k v valid.1))
        (and_then-Returned valid.0 c valid.1 (λ v. process_response_interceptors k v valid.1)
          (λ v q.
            let kept = validate_response_schema-error c v w h q in
            let last = process_response_interceptors k v valid.1 in
            subst (λ n. Returned n last) kept.1
              (process_response_interceptors-Returned v valid.1 kept.0)))

  pub process_response-Returned :
      (c : Context C R E) (w : W) → c.error ≡ none → Returned c.attempt (process_response k c w)
  unfolding process_response
  process_response-Returned c w h =
      let ran = run_hooks k.response_hooks c w in
      let next = with_slots c ran.0 in
      unless_err-Returned ran.1 next ran.2 (process_validated_response k next ran.2)
        (process_validated_response-Returned next ran.2 h)

  or_fail-done :
      (r : Result E (Option R)) (c : Context C R E) (w : W)
      → HasReturned (done r c w)
      → Consistent (or_fail k (done r c w))
  or_fail-done (ok r) c w h = (h, λ e q. ground arith)
  or_fail-done (err e) c w h = fail-Consistent c e w

  pub or_fail-Consistent : (d : Done W C R E) → HasReturned d → Consistent (or_fail k d)
  or_fail-Consistent d h = or_fail-done d.result d.context d.world h

  recover_from_error-Consistent :
      (c : Context C R E) (w : W) → Consistent (recover_from_error k c w)
  unfolding recover_from_error
  recover_from_error-Consistent c w =
      let recovered = record (with_response c c.slots.fallback_response) { error = none } in
      or_fail-Consistent (process_response k recovered w)
        (process_response-Returned recovered w refl).0

  transport-Returned :
      (c : Context C R E) (w : W) → c.error ≡ none → Returned c.attempt (transport k c w)
  unfolding transport
  transport-Returned c w h =
      let sent = k.send c.slots.config w in
      let process = λ (r : R). process_response k (with_response c (some r)) sent.1 in
      if_elim (Returned c.attempt) (has_response c.slots) (process_response k c w)
        (and_then sent.0 c sent.1 process) (process_response-Returned c w h)
        (and_then-Returned sent.0 c sent.1 process
          (λ r q. process_response-Returned (with_response c (some r)) sent.1 h))

  checked-Returned :
      (c : Context C R E) (w : W) → c.error ≡ none → Returned c.attempt (checked k c w)
  checked-Returned c w h =
      unless_err-Returned (k.validate c.slots.config) c w _
        (unless_err-Returned (k.aborted c.slots.config w) c w _ (transport-Returned c w h))

  hook_transport-Returned :
      (c : Context C R E) (w : W) → c.error ≡ none → Returned c.attempt (hook_transport k c w)
  unfolding hook_transport
  hook_transport-Returned c w h =
      let ran = run_transport_hooks k.transport_hooks c w in
      let next = with_slots c ran.0 in
      unless_err-Returned ran.1 next ran.2 _ (
        if_elim (Returned c.attempt) (has_response next.slots) _ _ (transport-Returned next ran.2 h)
          (checked-Returned next ran.2 h))

  pub try_attempt-Returned :
      (c : Context C R E) (w : W) → c.error ≡ none → Returned c.attempt (try_attempt k c w)
  unfolding try_attempt
  try_attempt-Returned c w h = unless_err-Returned (k.aborted c.slots.config w) c w _ (
      if_elim (Returned c.attempt) (is_active k.transport_hooks) _ _ (hook_transport-Returned c w h)
        (transport-Returned c w h))

  give_up-Consistent :
      (c : Context C R E) (e : E) (w : W) → has_error c ≡ true → Consistent (give_up k c e w)
  unfolding give_up
  give_up-Consistent c e w h =
      elim c.slots.fallback_response
        as (λ o.
          let d : Done W C R E = elim o [
            | none ↦ complete_failure k c e w
            | some r ↦ recover_from_error k c w
          ] in
          Consistent d) [
            | none ↦ complete_failure-Consistent c e w h
            | some r ↦ recover_from_error-Consistent c w
          ]

  -- The request ends consistently, or its next attempt starts without an error, counted.
  abbrev pub Sound : ℕ → Next k → Type 0
  Sound attempt (stop d) = Consistent d
  Sound attempt (again c w) = (c.error ≡ none) × (c.attempt ≡ attempt + 1)

  wait_for_retry-Sound :
      (d : RetryDecision) (c : Context C R E) (w : W) → Sound c.attempt (wait_for_retry k d c w)
  unfolding wait_for_retry
  wait_for_retry-Sound d c w =
      let waited = k.wait (delay_of k d) c.slots.config w in
      elim waited.0
        as (λ o. Sound c.attempt (elim o [
          | some thrown ↦ stop (fail k (reset k c) thrown waited.1)
          | none ↦ again (reset k c) waited.1
        ])) [ some thrown ↦ fail-Consistent (reset k c) thrown waited.1 | none ↦ (refl, refl) ]

  decide-Sound :
      (x : Result E RetryDecision) (c : Context C R E) (e : E) (w : W)
      → has_error c ≡ true
      → Sound c.attempt (decide k x c e w)
  unfolding decide
  decide-Sound (err thrown) c e w h = fail-Consistent c thrown w
  decide-Sound (ok d) c e w h =
      if_elim (Sound c.attempt) d.retry _ _ (wait_for_retry-Sound d c w)
        (give_up-Consistent c e w h)

  pub after_error-Sound :
      (c : Context C R E) (e : E) (w : W) → Sound c.attempt (after_error k c e w)
  unfolding after_error
  after_error-Sound c e w =
      let n = notify_error k c e w in
      let (noted, kept) = notify_error-error c e w in
      let resolved = resolve_retry_hooks k.retry_hooks n.context n.context.attempt n.world in
      if_elim (Sound c.attempt) (not n.succeeded) _ _
        (complete_failure-Consistent n.context n.error n.world noted)
        (if_elim (Sound c.attempt) (is_active k.retry_hooks) _ _
          (subst (λ a. Sound a (decide k resolved.0 n.context n.error resolved.1)) kept
            (decide-Sound resolved.0 n.context n.error resolved.1 noted))
          (give_up-Consistent n.context n.error n.world noted))
