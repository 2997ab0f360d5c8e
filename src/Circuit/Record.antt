-- ===== src/Circuit/Record.antt =====
-- One circuit of src/plugins/circuitBreakerPlugin.ts: its record, `transition`, and what a counted
-- failure or a success does to it. The observer `onStateChange` is the list of events that it is
-- called with; its failures are swallowed by `notifyStateChange`.
pub mod Laws
use request.Base.{
  ℕ, ◌+◌, Bool, true, false, ◌&&◌, List, [], ◌∷◌, String, leb, if◌then◌else◌, Option, none, some,
}
use request.Circuit.Options.{Options}

pub data CircuitState : Type 0 where
  closed open_state half_open : CircuitState

abbrev pub same_state : CircuitState → CircuitState → Bool
same_state closed closed = true
same_state open_state open_state = true
same_state half_open half_open = true
same_state _ _ = false

pub record CircuitRecord : Type 0 where
  pub state : CircuitState
  pub failures : ℕ
  pub successes : ℕ
  pub opened_at : ℕ
  pub probes : ℕ
  pub generation : ℕ
  pub active_requests : ℕ

pub record StateChange : Type 0 where
  pub key : String
  pub previous_state : CircuitState
  pub state : CircuitState
  pub timestamp : ℕ
  pub failures : ℕ

-- The record that `createCircuit` makes.
abbrev pub new_circuit : CircuitRecord
new_circuit = record {
  state = closed;
  failures = 0;
  successes = 0;
  opened_at = 0;
  probes = 0;
  generation = 0;
  active_requests = 0;
}

-- The fields that `transition` writes after a change of state.
abbrev pub entered : CircuitRecord → CircuitState → ℕ → CircuitRecord
entered r closed now = record r {
  state = closed;
  successes = 0;
  probes = 0;
  generation = r.generation + 1;
  failures = 0;
  opened_at = 0;
}
entered r open_state now = record r {
  state = open_state;
  successes = 0;
  probes = 0;
  generation = r.generation + 1;
  opened_at = now;
}
entered r half_open now = record r {
  state = half_open;
  successes = 0;
  probes = 0;
  generation = r.generation + 1;
}

-- `transition` towards the state that the circuit is in already: no event.
abbrev pub reentered : CircuitRecord → CircuitState → ℕ → CircuitRecord
reentered r open_state now = record r {
  opened_at = now;
  successes = 0;
  probes = 0;
  generation = r.generation + 1;
}
reentered r _ now = r

unfoldable pub transition :
    CircuitRecord → String → CircuitState → ℕ → CircuitRecord × List StateChange
transition r key state now = if same_state r.state state then (reentered r state now, []) else (
  entered r state now,
  record {
    key = key;
    previous_state = r.state;
    state = state;
    timestamp = now;
    failures = (entered r state now).failures;
  }
      ∷ [],
)

-- An admission of a request: `owner` is the installation whose map holds it under `context`, and
-- `record` the circuit, by reference.
pub record Admission : Type 0 where
  pub owner : ℕ
  pub context : ℕ
  pub key : String
  pub generation : ℕ
  pub probe : Bool
  pub circuit : ℕ

abbrev pub is_half_open : CircuitState → Bool
is_half_open half_open = true
is_half_open _ = false

abbrev pub is_open : CircuitState → Bool
is_open open_state = true
is_open _ = false

abbrev pub is_closed : CircuitState → Bool
is_closed closed = true
is_closed _ = false

-- The success branch of the `onSettled` hook, for an admission that is not stale.
unfoldable pub apply_success :
    Options → Admission → CircuitRecord → ℕ → CircuitRecord × List StateChange
unfolding transition
apply_success o a r now =
    let cleared = record r { failures = 0 } in
    let counted = record cleared { successes = r.successes + 1 } in
    if a.probe && is_half_open r.state
    then if leb o.success_threshold (r.successes + 1)
      then transition counted a.key closed now
      else (counted, [])
    else (cleared, [])

-- The part of `applyFailure` behind its first guard: a counted failure of an admission that is not
-- stale.
unfoldable pub count_failure :
    Options → Admission → CircuitRecord → ℕ → CircuitRecord × List StateChange
unfolding transition
count_failure o a r now =
    let counted = record r { failures = r.failures + 1 } in
    if a.probe && is_half_open r.state
    then transition r a.key open_state now
    else if is_closed r.state
    then if leb o.failure_threshold (r.failures + 1)
      then transition counted a.key open_state now
      else (counted, [])
    else (r, [])

-- The step to half-open that the `onRequest` hook makes when the reset timeout has passed.
unfoldable pub reopen_if_due :
    Options → String → CircuitRecord → ℕ → CircuitRecord × List StateChange
unfolding transition
reopen_if_due o key r now =
    if is_open r.state && leb (r.opened_at + o.reset_timeout) now
    then transition r key half_open now
    else (r, [])

-- The guards of the `onRequest` hook behind that step: `none` is the CIRCUIT_OPEN error, `some` the
-- record with the request counted in, and whether it is a probe.
unfoldable pub admit : Options → CircuitRecord → Option (CircuitRecord × Bool)
admit o r =
    let probing = record r { probes = r.probes + 1; active_requests = r.active_requests + 1 } in
    let plain = record r { active_requests = r.active_requests + 1 } in
    if is_open r.state
    then none
    else if is_half_open r.state
    then if leb o.half_open_max_requests r.probes then none else some (probing, true)
    else some (plain, false)
