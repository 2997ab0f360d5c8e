-- ===== src/Circuit/Record/Laws.antt =====
-- What the steps of one circuit of src/plugins/circuitBreakerPlugin.ts keep and how its state moves.
use request.Base.{
  ℕ, ◌+◌, ◌≤◌, ◌<◌, ◌≡◌, ◌≢◌, none, ◌≢◌, Bool, true, false, String, none, some, arith, All,
}
use request.Circuit.Options.{Options, IsNormal}
use request.Circuit.Record.{
  CircuitState, closed, open_state, half_open, CircuitRecord, StateChange, Admission, apply_success,
  count_failure, reopen_if_due, admit,
}

-- A circuit within its limits: a closed one is below its failure threshold, its successes are below
-- theirs, and its counter of probes is within the limit.
pub record IsSound (o : Options) (r : CircuitRecord) : Type 0 where
  pub below_threshold : r.state ≡ closed → r.failures < o.failure_threshold
  pub below_success : r.successes < o.success_threshold
  pub probes_bounded : r.probes ≤ o.half_open_max_requests

-- The changes of state that the breaker may make.
abbrev pub is_legal : CircuitState → CircuitState → Bool
is_legal closed open_state = true
is_legal open_state half_open = true
is_legal half_open open_state = true
is_legal half_open closed = true
is_legal _ _ = false

abbrev pub IsReport : StateChange → Type 0
IsReport e = is_legal e.previous_state e.state ≡ true

pub apply_success-IsReport :
    (o : Options) (a : Admission) (r : CircuitRecord) (now : ℕ)
    → All IsReport (apply_success o a r now).1
unfolding apply_success
apply_success-IsReport o a r now = ground arith

pub count_failure-IsReport :
    (o : Options) (a : Admission) (r : CircuitRecord) (now : ℕ)
    → All IsReport (count_failure o a r now).1
unfolding count_failure
count_failure-IsReport o a r now = ground arith

pub reopen_if_due-IsReport :
    (o : Options) (key : String) (r : CircuitRecord) (now : ℕ)
    → All IsReport (reopen_if_due o key r now).1
unfolding reopen_if_due
reopen_if_due-IsReport o key r now = ground arith

module _ (o : Options) (n : IsNormal o) where
  pub apply_success-IsSound :
      (a : Admission) (r : CircuitRecord) (now : ℕ)
      → IsSound o r
      → IsSound o (apply_success o a r now).0
  unfolding apply_success
  apply_success-IsSound a r now s = ground arith

  pub count_failure-IsSound :
      (a : Admission) (r : CircuitRecord) (now : ℕ)
      → IsSound o r
      → IsSound o (count_failure o a r now).0
  unfolding count_failure
  count_failure-IsSound a r now s = ground arith

  pub reopen_if_due-IsSound :
      (key : String) (r : CircuitRecord) (now : ℕ)
      → IsSound o r
      → IsSound o (reopen_if_due o key r now).0
  unfolding reopen_if_due
  reopen_if_due-IsSound key r now s = ground arith

  pub admit-IsSound :
      (r q : CircuitRecord) (p : Bool) → IsSound o r → admit o r ≡ some (q, p) → IsSound o q
  unfolding admit
  admit-IsSound r q p s e = ground arith

-- None of these steps changes how many requests use the circuit, but `admit`, which counts one in.
pub apply_success-active :
    (o : Options) (a : Admission) (r : CircuitRecord) (now : ℕ)
    → (apply_success o a r now).0.active_requests ≡ r.active_requests
unfolding apply_success
apply_success-active o a r now = ground arith

pub count_failure-active :
    (o : Options) (a : Admission) (r : CircuitRecord) (now : ℕ)
    → (count_failure o a r now).0.active_requests ≡ r.active_requests
unfolding count_failure
count_failure-active o a r now = ground arith

pub reopen_if_due-active :
    (o : Options) (key : String) (r : CircuitRecord) (now : ℕ)
    → (reopen_if_due o key r now).0.active_requests ≡ r.active_requests
unfolding reopen_if_due
reopen_if_due-active o key r now = ground arith

pub admit-active :
    (o : Options) (r q : CircuitRecord) (p : Bool)
    → admit o r ≡ some (q, p)
    → q.active_requests ≡ r.active_requests + 1
unfolding admit
admit-active o r q p e = ground arith

pub admit_closed :
    (o : Options) (key : String) (now : ℕ) (r : CircuitRecord)
    → r.state ≡ closed
    → admit o (reopen_if_due o key r now).0 ≢ none
unfolding admit reopen_if_due
admit_closed o key now r h = ground arith
