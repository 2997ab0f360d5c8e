-- ===== src/Circuit/Table.antt =====
-- The table of circuits of src/plugins/circuitBreakerPlugin.ts: the plugin's state, finding or
-- making the circuit of a key, and eviction.
pub mod Eviction
use request.Base.{
  ℕ, zero, suc, ◌+◌, ◌-◌, Bool, true, false, List, [], ◌∷◌, ◌++◌, String, Option, none, some,
  length, update, ltb, ◌==◌, if◌then◌else◌,
}
use request.Base.Dict.{Dict, get, set, delete}
use request.Circuit.Options.{Options}
use request.Circuit.Record.{
  CircuitState, closed, CircuitRecord, StateChange, Admission, new_circuit,
}

-- `circuits` maps a key to its record by reference, and `cell` holds what the references stand for;
-- `fresh` is the next reference. `live` lists the admissions that are not released, of every
-- installation; `installed` the installations whose teardown has not run.
pub record Breaker : Type 0 where
  pub circuits : Dict ℕ
  pub cell : ℕ → CircuitRecord
  pub fresh : ℕ
  pub latest_circuit : Option ℕ
  pub live : List Admission
  pub installed : List ℕ
  pub next_owner : ℕ
  pub events : List StateChange

abbrev pub initial : Breaker
initial = record {
  circuits = [];
  cell = λ _. new_circuit;
  fresh = 0;
  latest_circuit = none;
  live = [];
  installed = [];
  next_owner = 0;
  events = [];
}

-- The inner loop of `trimCircuits`: the oldest key whose circuit has no active request.
unfoldable pub removable_key : (ℕ → CircuitRecord) → Dict ℕ → Option String
removable_key cell [] = none
removable_key cell ((k, r) ∷ m) =
    if (cell r).active_requests == 0 then some k else removable_key cell m

-- The `while` of `trimCircuits`. Each round deletes a key, so the size of the map is fuel enough.
unfoldable pub trim_rounds : ℕ → (ℕ → CircuitRecord) → Dict ℕ → ℕ → Dict ℕ
trim_rounds zero cell m limit = m
trim_rounds (suc fuel) cell m limit = elim (ltb limit (length m)) [
  | true ↦ elim (removable_key cell m) [
    | none ↦ m
    | some k ↦ trim_rounds fuel cell (delete k m) limit
  ]
  | false ↦ m
]

unfoldable pub trim_circuits : (ℕ → CircuitRecord) → Dict ℕ → ℕ → Dict ℕ
trim_circuits cell m limit = trim_rounds (length m) cell m limit

unfoldable pub create_circuit : Options → String → Breaker → Breaker × ℕ
create_circuit o key b = (
  record b {
    circuits = set key b.fresh (trim_circuits b.cell b.circuits (o.max_circuits - 1));
    cell = update b.cell b.fresh new_circuit;
    fresh = b.fresh + 1;
    latest_circuit = some b.fresh;
  },
  b.fresh,
)

abbrev pub same_reference : Option ℕ → Option ℕ → Bool
same_reference none none = true
same_reference (some r) (some q) = r == q
same_reference _ _ = false

-- The start of the `onRequest` hook: the circuit of a key, moved to the end of the map unless it is
-- the latest one; it becomes the latest.
unfoldable pub find_circuit : Options → String → Breaker → Breaker × ℕ
unfolding create_circuit
find_circuit o key b = elim (get key b.circuits) [
  | none ↦ create_circuit o key b
  | some r ↦ (
    record b {
      circuits =
          if same_reference (some r) b.latest_circuit
          then b.circuits
          else set key r (delete key b.circuits);
      latest_circuit = some r;
    },
    r,
  )
]

-- `getState` of the plugin.
unfoldable pub get_state : String → Breaker → CircuitState
get_state key b = elim (get key b.circuits) [ none ↦ closed | some r ↦ (b.cell r).state ]

-- `reset` of the plugin, without and with a key.
unfoldable pub reset_all : Breaker → Breaker
reset_all b = record b { circuits = []; latest_circuit = none }

unfoldable pub reset : String → Breaker → Breaker
reset key b = record b {
  circuits = delete key b.circuits;
  latest_circuit =
      if same_reference (get key b.circuits) b.latest_circuit then none else b.latest_circuit;
}
