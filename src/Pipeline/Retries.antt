-- ===== src/Pipeline/Retries.antt =====
-- A client of src/core/Pipeline.ts with the plugin of src/plugins/retryPlugin.ts, and no other that
-- decides on retries.
use request.Base.{
  ℕ, ◌≤◌, ◌<◌, true, [], ◌∷◌, Option, none, some, String, ◌≡◌, arith, Option-cases, inl, inr,
}
use request.Hooks.Runners.{
  Result, ok, err, Context, RetryDecision, RetryHook, resolve_retry_hooks, no_retry,
}
use request.Retry.Options.{Failure, Normalized, resolve_retry_options}
use request.Retry.Decision.{Outcome, declined, aborted, retry, Course, Request, on_retry}
use request.Pipeline.Parts.{Client}
use request.Pipeline.Execution.{execute_lifecycle}
use request.Pipeline.Settled.{ends, execute_lifecycle-ends}

-- What the pipeline gets from the hook: `undefined`, a thrown `AbortError`, or a decision.
abbrev pub decision_of : {E : Type 0} → E → Outcome → Result E (Option RetryDecision)
decision_of abort_error declined = ok none
decision_of abort_error aborted = err abort_error
decision_of abort_error (retry delay event) =
    ok (some (record { retry = true; delay = some delay }))

-- `request`, `failure` and `course` say what the plugin sees of a configuration, an error and the
-- world, in which the hook leaves `after` it; `d` are the options of its installation.
module _ {W C R E : Type 0} (abort_error : E) (ms : ℕ) (date_parse : String → Option ℕ)
    (random : ℕ → ℕ) (d : Normalized) (request : Context C R E → Request) (failure : E → Failure)
    (course : Context C R E → W → Course) (after : Context C R E → W → W) where
  abbrev failure_of : Option E → Option Failure
  failure_of none = none
  failure_of (some e) = some (failure e)

  unfoldable pub retry_hook : RetryHook W C R E
  retry_hook c attempt w = (
    decision_of abort_error
        (on_retry ms date_parse random d (failure_of c.error) attempt (request c) (course c w)),
    after c w,
  )

  -- However a request overrides the options, it allows at most `n` retries.
  abbrev pub AllowsAtMost : ℕ → Type 0
  AllowsAtMost n =
      (c : Context C R E) → (resolve_retry_options ms (request c).override d).retries ≤ n

  retry_hook-declines :
      (n : ℕ) (c : Context C R E) (w : W)
      → AllowsAtMost n
      → n ≤ c.attempt
      → (resolve_retry_hooks (retry_hook ∷ []) c c.attempt w).0 ≡ ok no_retry
  unfolding resolve_retry_hooks retry_hook on_retry
  retry_hook-declines n c w most late = elim (Option-cases c.error) [
    | inl e ↦ ground (arith, e)
    | inr (x, e) ↦ ground (arith, e, most c)
  ]

  -- A request of a client whose only retry hook is that of the retry plugin, and whose options allow
  -- every request at most `n` retries, ends within `n + 1` attempts.
  pub execute_lifecycle-retry_hook :
      (k : Client W C R E) (n fuel : ℕ) (config : C) (w : W)
      → k.retry_hooks ≡ retry_hook ∷ []
      → AllowsAtMost n
      → n < fuel
      → ends k (execute_lifecycle k fuel config w) ≡ true
  execute_lifecycle-retry_hook k n fuel config w only most enough =
      execute_lifecycle-ends k n fuel config w
        (λ c v d late q. ground (arith, only, retry_hook-declines n c v most late, q)) enough
