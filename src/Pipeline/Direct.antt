-- ===== src/Pipeline/Direct.antt =====
-- The way of src/core/Pipeline.ts without a context: `executeConfigured` of a request that nothing is
-- configured for.
use request.Base.{
  ℕ, suc, false, ◌||◌, List, [], ◌∷◌, Option, none, some, ◌≡◌, refl, ap, arith, Bool-cases,
  Option-cases, ◌⊎◌, inl, inr,
}
use request.Hooks.Runners.{Result, ok, err, Context, Hook, run_hooks, run_settled_hooks, with_slots}
use request.Pipeline.Parts.{Client, Done, done, is_active, new_context, with_response, with_error}
use request.Pipeline.Responses.{
  complete_failure, notify_error, fail, process_response, process_validated_response,
  validate_response_schema, process_response_interceptors,
}
use request.Pipeline.Attempts.{try_attempt, transport, give_up, after_error, attempts, stop}
use request.Pipeline.Execution.{
  prepare, validated, execute_body, settle, execute_lifecycle, is_configured, send_directly,
  execute_configured,
}

is_active-nil {ℓ} : {A : Type ℓ} (xs : List A) → is_active xs ≡ false → xs ≡ []
is_active-nil [] h = refl
is_active-nil (x ∷ xs) h = absurd (ground (arith, h))

Result-cases : {E A : Type 0} (x : Result E A) → ((a : A) × (x ≡ ok a)) ⊎ ((e : E) × (x ≡ err e))
Result-cases (ok a) = inl (a, refl)
Result-cases (err e) = inr (e, refl)

module _ {W C R E : Type 0} where
  abbrev pub outcome : Option (Done W C R E) → Option (Result E (Option R) × W)
  outcome none = none
  outcome (some d) = some (d.result, d.world)

module _ {W C R E : Type 0} (k : Client W C R E) where
  -- What `throwIfAborted` says behind a response that was sent for.
  abbrev pub GoesOn : C → W → Type 0
  GoesOn config w =
      (r : R) → (k.send config w).0 ≡ ok r → k.aborted config (k.send config w).1 ≡ none

module _ {W C R E : Type 0} (k : Client W C R E) (plain : is_configured k ≡ false) where
  run_hooks-none :
      (hs : List (Hook W C R E)) (c : Context C R E) (w : W)
      → is_active hs ≡ false
      → run_hooks hs c w ≡ (c.slots, none, w)
  unfolding run_hooks
  run_hooks-none [] c w h = refl
  run_hooks-none (x ∷ hs) c w h = absurd (ground (arith, h))

  run_settled_hooks-none :
      (hs : List (Hook W C R E)) (c : Context C R E) (w : W)
      → is_active hs ≡ false
      → run_settled_hooks hs c w ≡ (c.slots, w)
  unfolding run_settled_hooks
  run_settled_hooks-none [] c w h = refl
  run_settled_hooks-none (x ∷ hs) c w h = absurd (ground (arith, h))

  fail-plain : (c : Context C R E) (e : E) (w : W) → fail k c e w ≡ done (err e) (with_error c e) w
  unfolding fail notify_error complete_failure
  fail-plain c e w =
      let ran = run_hooks-none k.error_hooks (with_error c e) w (ground (arith, plain)) in
      ground (arith, plain, ran)

  process_response-plain :
      (c : Context C R E) (w : W)
      → k.has_schema c.slots.config ≡ false
      → k.aborted c.slots.config w ≡ none
      → process_response k c w ≡ done (ok c.slots.response) c w
  unfolding process_response process_validated_response validate_response_schema
      process_response_interceptors
  process_response-plain c w schema going =
      let ran = run_hooks-none k.response_hooks c w (ground (arith, plain)) in
      ground (arith, plain, ran, schema, going)

  after_error-plain :
      (c : Context C R E) (e : E) (w : W)
      → c.slots.fallback_response ≡ none
      → after_error k c e w ≡ stop (done (err e) (with_error c e) w)
  unfolding after_error notify_error complete_failure give_up
  after_error-plain c e w unset =
      let ran = run_hooks-none k.error_hooks (with_error c e) w (ground (arith, plain)) in
      ground (arith, plain, ran, unset)

  attempts-plain :
      (fuel : ℕ) (config : C) (w : W)
      → k.has_schema config ≡ false
      → k.validate config ≡ none
      → GoesOn k config w
      → outcome (attempts k (suc fuel) (new_context config) w) ≡ some (send_directly k config w)
  unfolding attempts try_attempt transport send_directly
  attempts-plain fuel config w schema valid going =
      let sent = k.send config w in
      let c = new_context config in
      let later = λ (e : E) (v : W). after_error-plain c e v refl in
      elim (Option-cases (k.aborted config w)) [
        | inr (e, stopped) ↦ ground (arith, plain, valid, stopped, later e w)
        | inl clear ↦ elim (Result-cases sent.0) [
          | inr (e, failed) ↦ ground (arith, plain, valid, clear, failed, later e sent.1)
          | inl (r, answered) ↦
              let processed =
                process_response-plain (with_response c (some r)) sent.1 schema
                  (going r answered) in
              ground (arith, plain, valid, clear, answered, processed)
        ]
      ]

  settle-plain : (d : Done W C R E) → settle k d ≡ d
  unfolding settle
  settle-plain d =
      let ran = run_settled_hooks-none k.settled_hooks d.context d.world (ground (arith, plain)) in
      ap (λ x. done d.result (with_slots d.context x.0) x.1) ran

  prepare-plain :
      (config : C) (w : W) → prepare k config w ≡ (k.validate config, new_context config, w)
  unfolding prepare validated
  prepare-plain config w = ground (arith, plain)

  execute_body-plain :
      (fuel : ℕ) (config : C) (w : W)
      → k.has_schema config ≡ false
      → GoesOn k config w
      → outcome (execute_body k (suc fuel) config w) ≡ some (send_directly k config w)
  unfolding execute_body send_directly
  execute_body-plain fuel config w schema going = elim (Option-cases (k.validate config)) [
    | inr (e, refused) ↦
        ground (arith, prepare-plain config w, refused, fail-plain (new_context config) e w)
    | inl valid ↦
        ground
          (arith, prepare-plain config w, valid, attempts-plain fuel config w schema valid going)
  ]

  execute_lifecycle-plain :
      (fuel : ℕ) (config : C) (w : W)
      → outcome (execute_lifecycle k fuel config w) ≡ outcome (execute_body k fuel config w)
  unfolding execute_lifecycle
  execute_lifecycle-plain fuel config w = elim (Option-cases (execute_body k fuel config w)) [
    | inl e ↦ ground (arith, e)
    | inr (d, e) ↦ ground (arith, e, settle-plain d)
  ]

module _ {W C R E : Type 0} (k : Client W C R E) where
  -- A client that goes by `executeConfigured` gives every request the result, and leaves the world, of
  -- the whole lifecycle with its context, if the request is not aborted when its response is there.
  pub execute_configured-eq-execute_lifecycle :
      (fuel : ℕ) (config : C) (w : W)
      → GoesOn k config w
      → execute_configured k (suc fuel) config w ≡ outcome (execute_lifecycle k (suc fuel) config w)
  unfolding execute_configured
  execute_configured-eq-execute_lifecycle fuel config w going =
      elim (Bool-cases (k.has_schema config || is_configured k)) [
        | inl configured ↦ elim (Option-cases (execute_lifecycle k (suc fuel) config w)) [
          | inl e ↦ ground (arith, configured, e)
          | inr (d, e) ↦ ground (arith, configured, e)
        ]
        | inr direct ↦
            let plain : is_configured k ≡ false = ground (arith, direct) in
            let schema : k.has_schema config ≡ false = ground (arith, direct) in
            ground (
              arith,
              direct,
              execute_lifecycle-plain k plain (suc fuel) config w,
              execute_body-plain k plain fuel config w schema going,
            )
      ]
