-- ===== src/Pipeline/Settled.antt =====
-- A request of src/core/Pipeline.ts ends, once its retry hooks decline.
use request.Base.{
  ℕ, zero, suc, ◌+◌, ◌≤◌, ◌<◌, Bool-cases, leb, leb→le, inl, inr, Bool, true, false, Option, none,
  some, ◌≡◌, refl, arith,
}
use request.Hooks.Runners.{Result, ok, err, Context, RetryDecision, resolve_retry_hooks}
use request.Pipeline.Parts.{Client, Done, done}
use request.Pipeline.Responses.{notify_error}
use request.Pipeline.Attempts.{try_attempt, decide, Next, stop, again, after_error, attempts}
use request.Pipeline.Execution.{prepare, validated, hooked, execute_body, execute_lifecycle}
use request.Pipeline.Outcome.{
  HasReturned, Consistent, Sound, notify_error-error, after_error-Sound, try_attempt-Returned,
}

module _ {W C R E : Type 0} (k : Client W C R E) where
  -- What an attempt that ended with `d` does next.
  abbrev pub following : ℕ → Done W C R E → Option (Done W C R E)
  following fuel d = elim d.result [
    | ok r ↦ some d
    | err e ↦ elim (after_error k d.context e d.world) [
      | stop end ↦ some end
      | again next w' ↦ attempts k fuel next w'
    ]
  ]

  follow :
      (P : Option (Done W C R E) → Type 0) (n fuel : ℕ) (x : Next k)
      → Sound k n x
      → ((v : Done W C R E) → Consistent v → P (some v))
      → ((c : Context C R E) (w : W)
          → x ≡ again c w
          → c.error ≡ none
          → c.attempt ≡ n + 1
          → P (attempts k fuel c w))
      → P (elim x [ stop end ↦ some end | again next w' ↦ attempts k fuel next w' ])
  follow P n fuel (stop d) sound stops goes = stops d sound
  follow P n fuel (again c w) sound stops goes = goes c w refl sound.0 sound.1

  after_attempt :
      (P : Option (Done W C R E) → Type 0) (fuel : ℕ) (r : Result E (Option R)) (c : Context C R E)
      (w : W)
      → HasReturned (done r c w)
      → ((v : Done W C R E) → Consistent v → P (some v))
      → ((e : E) (n : Context C R E) (w' : W)
          → after_error k c e w ≡ again n w'
          → n.error ≡ none
          → n.attempt ≡ c.attempt + 1
          → P (attempts k fuel n w'))
      → P (following fuel (done r c w))
  after_attempt P fuel (ok r) c w returned stops goes =
      stops (done (ok r) c w) (returned, λ e q. ground arith)
  after_attempt P fuel (err e) c w returned stops goes =
      follow P c.attempt fuel (after_error k c e w) (after_error-Sound k c e w) stops (goes e)

  -- From the attempt `n` on the retry hooks that decide decline.
  abbrev pub DeclinesFrom : ℕ → Type 0
  DeclinesFrom n =
      (c : Context C R E) (w : W) (d : RetryDecision)
      → n ≤ c.attempt
      → (resolve_retry_hooks k.retry_hooks c c.attempt w).0 ≡ ok d
      → d.retry ≡ false

  abbrev is_stop : Next k → Bool
  is_stop (stop d) = true
  is_stop (again c w) = false

  decide-stop :
      (x : Result E RetryDecision) (c : Context C R E) (e : E) (w : W)
      → ((d : RetryDecision) → x ≡ ok d → d.retry ≡ false)
      → is_stop (decide k x c e w) ≡ true
  unfolding decide
  decide-stop (err thrown) c e w h = refl
  decide-stop (ok d) c e w h = ground (arith, h d refl)

  after_error-stop :
      (n : ℕ) (c : Context C R E) (e : E) (w : W)
      → DeclinesFrom n
      → n ≤ c.attempt
      → is_stop (after_error k c e w) ≡ true
  unfolding after_error
  after_error-stop n c e w declines late =
      let m = notify_error k c e w in
      let (noted, kept) = notify_error-error k c e w in
      let resolved = resolve_retry_hooks k.retry_hooks m.context m.context.attempt m.world in
      ground (
        arith,
        decide-stop resolved.0 m.context m.error resolved.1
            (λ d. declines m.context m.world d (omega arith)),
      )

  abbrev pub ends : Option (Done W C R E) → Bool
  ends none = false
  ends (some d) = true

  pub attempts-ends :
      (n fuel : ℕ) (c : Context C R E) (w : W)
      → DeclinesFrom n
      → c.error ≡ none
      → 0 < fuel
      → n < c.attempt + fuel
      → ends (attempts k fuel c w) ≡ true
  unfolding attempts
  attempts-ends n zero c w declines h some_left enough = ground arith
  attempts-ends n (suc fuel) c w declines h some_left enough =
      let d = try_attempt k c w in
      let (returned, kept) = try_attempt-Returned k c w h in
      after_attempt (λ o. ends o ≡ true) fuel d.result d.context d.world returned (λ v p. refl)
        (λ e next w' q clean counted. elim (Bool-cases (leb n d.context.attempt)) [
          | inl late ↦
              let stopped = after_error-stop n d.context e d.world declines (leb→le n _ late) in
              ground (arith, stopped)
          | inr early ↦ attempts-ends n fuel next w' declines clean (ground arith) (ground arith)
        ])

  -- The context that a request's attempts start with.
  prepare-clean :
      (config : C) (w : W) → let c = (prepare k config w).1 in (c.error ≡ none) × (c.attempt ≡ 0)
  unfolding prepare validated hooked
  prepare-clean config w = (ground arith, ground arith)

  -- A request whose retry hooks decline from the attempt `n` on ends within the attempts 0 to `n`.
  pub execute_lifecycle-ends :
      (n fuel : ℕ) (config : C) (w : W)
      → DeclinesFrom n
      → n < fuel
      → ends (execute_lifecycle k fuel config w) ≡ true
  unfolding execute_lifecycle execute_body
  execute_lifecycle-ends n fuel config w declines enough =
      let (stopped, c, w') = prepare k config w in
      let (clean, first) = prepare-clean config w in
      let tried = attempts-ends n fuel c w' declines clean (omega arith) (omega arith) in
      ground (arith, tried)
