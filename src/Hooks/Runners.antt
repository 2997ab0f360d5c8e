-- ===== src/Hooks/Runners.antt =====
-- Running the hooks of src/interceptors/PluginHooks.ts and the interceptors of
-- src/interceptors/InterceptorManager.ts, one after the other. A world `W` holds all that they change
-- besides the request's context; a promise is what it settles with.
use request.Base.{ℕ, Bool, true, false, List, [], ◌∷◌, Option, none, some}

pub data Result (E A : Type 0) : Type 0 where
  ok : A → Result E A
  err : E → Result E A

-- The fields of a RequestContext that hooks write.
pub record Slots (C R : Type 0) : Type 0 where
  pub config : C
  pub response : Option R
  pub fallback_response : Option R

-- RequestContext of src/core/RequestContext.ts. Its error and attempt are the pipeline's.
pub record Context (C R E : Type 0) : Type 0 where
  pub slots : Slots C R
  pub error : Option E
  pub attempt : ℕ

pub record RetryDecision : Type 0 where
  pub retry : Bool
  pub delay : Option ℕ

-- A hook may have written to the context before it throws.
abbrev pub Hook : Type 0 → Type 0 → Type 0 → Type 0 → Type 0
Hook W C R E = Context C R E → W → Slots C R × Option E × W

abbrev pub RetryHook : Type 0 → Type 0 → Type 0 → Type 0 → Type 0
RetryHook W C R E = Context C R E → ℕ → W → Result E (Option RetryDecision) × W

abbrev pub Interceptor : Type 0 → Type 0 → Type 0 → Type 0
Interceptor W E T = T → W → Result E T × W

abbrev pub with_slots : {C R E : Type 0} → Context C R E → Slots C R → Context C R E
with_slots c s = record c { slots = s }

abbrev pub has_response : {C R : Type 0} → Slots C R → Bool
has_response s = elim s.response [ none ↦ false | some r ↦ true ]

abbrev pub no_retry : RetryDecision
no_retry = record { retry = false; delay = some 0 }

module _ {W C R E : Type 0} where
  -- `runHooks`: the first hook that throws ends the run.
  unfoldable pub run_hooks : List (Hook W C R E) → Context C R E → W → Slots C R × Option E × W
  run_hooks [] c w = (c.slots, none, w)
  run_hooks (h ∷ hs) c w =
      let done = h c w in
      elim done.1 [
        | some e ↦ (done.0, some e, done.2)
        | none ↦ run_hooks hs (with_slots c done.0) done.2
      ]

  -- `runTransportHooks`: so does the first that leaves a response.
  unfoldable pub run_transport_hooks :
      List (Hook W C R E) → Context C R E → W → Slots C R × Option E × W
  run_transport_hooks [] c w = (c.slots, none, w)
  run_transport_hooks (h ∷ hs) c w =
      let done = h c w in
      elim done.1 [
        | some e ↦ (done.0, some e, done.2)
        | none ↦ elim (has_response done.0) [
          | true ↦ (done.0, none, done.2)
          | false ↦ run_transport_hooks hs (with_slots c done.0) done.2
        ]
      ]

  -- `runSettledHooks`: what a hook throws is dropped.
  unfoldable pub run_settled_hooks : List (Hook W C R E) → Context C R E → W → Slots C R × W
  run_settled_hooks [] c w = (c.slots, w)
  run_settled_hooks (h ∷ hs) c w =
      let done = h c w in run_settled_hooks hs (with_slots c done.0) done.2

  -- `resolveRetryHooks`: the first hook that decides.
  unfoldable pub resolve_retry_hooks :
      List (RetryHook W C R E) → Context C R E → ℕ → W → Result E RetryDecision × W
  resolve_retry_hooks [] c attempt w = (ok no_retry, w)
  resolve_retry_hooks (h ∷ hs) c attempt w =
      let done = h c attempt w in
      elim done.0 [
        | err e ↦ (err e, done.1)
        | ok (some d) ↦ (ok d, done.1)
        | ok none ↦ resolve_retry_hooks hs c attempt done.1
      ]

-- `runMaybeAsync`. `aborted` is `throwIfAborted`, which the error interceptors run without.
module _ {W E T : Type 0} (aborted : W → Option E) where
  unfoldable pub run_interceptors : List (Interceptor W E T) → T → W → Result E T × W
  run_interceptors [] value w = (elim (aborted w) [ none ↦ ok value | some e ↦ err e ], w)
  run_interceptors (i ∷ is) value w = elim (aborted w) [
    | some e ↦ (err e, w)
    | none ↦
        let done = i value w in
        elim done.0 [ err e ↦ (err e, done.1) | ok next ↦ run_interceptors is next done.1 ]
  ]
