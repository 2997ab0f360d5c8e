-- ===== src/Circuit/Hooks/Behaviour.antt =====
-- What the circuit breaker of src/plugins/circuitBreakerPlugin.ts does: failing fast, tripping,
-- recovering, and ignoring what ended too late.
use request.Base.{
  ℕ, zero, suc, ◌+◌, ◌≤◌, ◌<◌, ◌≡◌, ◌↔◌, true, false, String, some, arith, if◌then◌else◌, ap, leb,
}
use request.Base.Dict.{get}
use request.Circuit.Options.{Options, IsNormal, normalize_key}
use request.Circuit.Record.{
  CircuitRecord, Admission, closed, open_state, half_open, apply_success, count_failure,
  reopen_if_due, admit,
}
use request.Circuit.Table.{Breaker, find_circuit}
use request.Circuit.Hooks.{circuit_open, on_request, gate, finish, settle, Settlement, is_stale}

-- A request for a circuit that is open, and not due for a probe, is refused; no circuit, admission
-- or report changes.
pub on_request_open :
    (o : Options) (owner context : ℕ) (key : String) (now : ℕ) (b : Breaker) (r : ℕ)
    → get (normalize_key key) b.circuits ≡ some r
    → (b.cell r).state ≡ open_state
    → now < (b.cell r).opened_at + o.reset_timeout
    → let (b', answer) = on_request o owner context true key now b in
      (answer ≡ circuit_open (normalize_key key))
      × ((q : ℕ) → b'.cell q ≡ b.cell q)
      × (b'.live ≡ b.live)
unfolding on_request gate find_circuit admit reopen_if_due
on_request_open o owner context key now b r e s t =
    (ground arith, λ q. ground (arith, λ (p : q ≡ r). ap b.cell p), ground arith)

-- `n` counted failures of ordinary requests in a row, at the times `now 0`, `now 1`, ….
abbrev pub fail_times : Options → Admission → (ℕ → ℕ) → ℕ → CircuitRecord → CircuitRecord
fail_times o a now zero r = r
fail_times o a now (suc n) r = fail_times o a now n (count_failure o a r (now n)).0

fail_times_open :
    (o : Options) (a : Admission) (now : ℕ → ℕ) (n : ℕ) (r : CircuitRecord)
    → a.probe ≡ false
    → r.state ≡ open_state
    → (fail_times o a now n r).state ≡ open_state
unfolding count_failure
fail_times_open o a now zero r p s = s
fail_times_open o a now (suc n) r p s =
    fail_times_open o a now n (count_failure o a r (now n)).0 p (ground arith)

trips_from :
    (o : Options) (a : Admission) (now : ℕ → ℕ) (n : ℕ) (r : CircuitRecord)
    → a.probe ≡ false
    → r.state ≡ closed
    → r.failures < o.failure_threshold
    → ((fail_times o a now n r).state ≡ open_state) ↔ (o.failure_threshold ≤ r.failures + n)
unfolding count_failure
trips_from o a now zero r p s h = ground arith
trips_from o a now (suc n) r p s h =
    let q = (count_failure o a r (now n)).0 in
    ground (arith, trips_from o a now n q p, fail_times_open o a now n q p)

-- From a closed circuit with no failures, counted failures in a row open the circuit when they
-- reach the threshold and not before.
pub fail_times_trips :
    (o : Options) (a : Admission) (now : ℕ → ℕ) (n : ℕ) (r : CircuitRecord)
    → IsNormal o
    → a.probe ≡ false
    → r.state ≡ closed
    → r.failures ≡ 0
    → ((fail_times o a now n r).state ≡ open_state) ↔ (o.failure_threshold ≤ n)
fail_times_trips o a now n r normal p s z =
    grind (arith, trips_from o a now n r p s, normal.failures_positive)

-- A success in between starts the count again.
pub apply_success-failures :
    (o : Options) (a : Admission) (r : CircuitRecord) (now : ℕ)
    → (apply_success o a r now).0.failures ≡ 0
unfolding apply_success
apply_success-failures o a r now = ground arith

-- The end of a probe of a half-open circuit. A counted failure opens the circuit again from that
-- moment on and starts a new generation. A success clears the failures; it closes the circuit, with a
-- new generation and no successes, once `successThreshold` is reached, and till then leaves it
-- half-open in its generation with one success more.
pub probe_outcomes :
    (o : Options) (a : Admission) (r : CircuitRecord) (now : ℕ)
    → a.probe ≡ true
    → r.state ≡ half_open
    → let failed = (count_failure o a r now).0 in
      let passed = (apply_success o a r now).0 in
      let recovered = leb o.success_threshold (r.successes + 1) in
      ((failed.state ≡ open_state)
        × (failed.opened_at ≡ now)
        × (failed.generation ≡ r.generation + 1))
      × (passed.state ≡ (if recovered then closed else half_open))
      × (passed.failures ≡ 0)
      × (passed.successes ≡ (if recovered then 0 else r.successes + 1))
      × (passed.generation ≡ (if recovered then r.generation + 1 else r.generation))
unfolding apply_success count_failure
probe_outcomes o a r now p s = ground arith

-- Two records that differ in their counts of requests and probes at most.
abbrev pub SameCourse : CircuitRecord → CircuitRecord → Type 0
SameCourse r q =
    (q.state ≡ r.state)
    × (q.failures ≡ r.failures)
    × (q.successes ≡ r.successes)
    × (q.opened_at ≡ r.opened_at)
    × (q.generation ≡ r.generation)

-- A request that ends after its circuit has moved to another generation, or was evicted or reset,
-- changes no circuit's state, failures, successes, opening time or generation, and reports nothing,
-- however it ends.
pub settle_stale :
    (o : Options) (a : Admission) (how : Settlement) (now : ℕ) (b : Breaker)
    → is_stale a b ≡ true
    → ((q : ℕ) → SameCourse (b.cell q) ((settle o a how now b).cell q))
      × ((settle o a how now b).events ≡ b.events)
unfolding settle finish
settle_stale o a how now b stale = (λ q. ground arith, ground arith)
