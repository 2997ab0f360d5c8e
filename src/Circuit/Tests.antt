-- ===== src/Circuit/Tests.antt =====
-- Runs of the circuit breaker of src/plugins/circuitBreakerPlugin.ts on concrete histories.
use request.Base.{
  ℕ, ◌≤◌, ◌≡◌, refl, ◌⊎◌, true, false, List, [], ◌∷◌, none, some, arith, length, All, finite,
  if◌then◌else◌,
}
use request.Base.Dict.{Dict, get, set, delete}
use request.Circuit.Options.{
  Options, PluginOptions, IsNormal, normalize_options, normalize_options-IsNormal,
  normalize_positive_integer, normalize_duration, normalize_key,
}
use request.Circuit.Record.{
  Admission, CircuitRecord, closed, open_state, half_open, is_half_open, new_circuit, transition,
  apply_success, count_failure, reopen_if_due, admit,
}
use request.Circuit.Table.{
  Breaker, initial, removable_key, trim_rounds, trim_circuits, create_circuit, find_circuit,
  get_state,
}
use request.Circuit.Table.Eviction.{IsBusy, trim_circuits_limit, get-trim_circuits}
use request.Circuit.Hooks.{
  Call, installs, requests, settles, success, judged, step, run, circuit_open, admitted, on_request,
  settle, is_stale, install, gate, find_admission, is_active, apply_failure, finish,
  remove_admission, on_settled,
}
use request.Circuit.Hooks.Invariant.{Inv}
use request.Circuit.Hooks.Histories.{run_breaker-Inv}
use request.Circuit.Hooks.Probes.{probes_of}
use request.Circuit.Hooks.SingleProbe.{run_single_probe, stale_probe_admits}

-- One failure opens a circuit, for ten milliseconds.
abbrev brittle : ℕ → PluginOptions
brittle probes = record {
  failure_threshold = some (finite 1 0);
  success_threshold = none;
  reset_timeout = some (finite 9 5);
  half_open_max_requests = some (finite probes 0);
  max_circuits = some (finite 2 0);
}

abbrev tripped : List (ℕ × Call)
tripped = (0, installs) ∷ (1, requests 0 1 true "api") ∷ (2, settles 0 1 (judged true)) ∷ []

abbrev recovered : List (ℕ × Call)
recovered =
    (0, installs)
    ∷ (1, requests 0 1 true "api")
    ∷ (2, settles 0 1 (judged true))
    ∷ (12, requests 0 2 true "api")
    ∷ (13, settles 0 2 success)
    ∷ []

-- The first of two probes outlives its generation.
abbrev late_probe : List (ℕ × Call)
late_probe =
    (0, installs)
    ∷ (1, requests 0 1 true "api")
    ∷ (2, settles 0 1 (judged true))
    ∷ (20, requests 0 2 true "api")
    ∷ (21, requests 0 3 true "api")
    ∷ (22, settles 0 3 (judged true))
    ∷ (40, requests 0 4 true "api")
    ∷ (41, requests 0 5 true "api")
    ∷ []

abbrev after : ℕ → List (ℕ × Call) → Breaker
after probes cs = run (normalize_options (brittle probes)) initial cs

-- The circuit trips on its first failure, and a probe closes it again.
states :
    (get_state "api" (after 1 tripped) ≡ open_state)
    × (get_state "api" (after 1 recovered) ≡ closed)
    × (get_state "api" (after 2 late_probe) ≡ half_open)
unfolding get_state run step install on_request find_circuit create_circuit trim_circuits
    trim_rounds removable_key gate reopen_if_due transition admit on_settled find_admission settle
    is_active apply_failure count_failure apply_success finish remove_admission normalize_options
    normalize_positive_integer normalize_duration normalize_key get set delete
states = (refl, refl, refl)

run_breaker-Inv_example : Inv (normalize_options (brittle 2)) (after 2 late_probe)
run_breaker-Inv_example = run_breaker-Inv (brittle 2) late_probe

one_probe : (normalize_options (brittle 1)).half_open_max_requests ≡ 1
unfolding normalize_options normalize_positive_integer
one_probe = refl

run_single_probe_example :
    probes_of 0 (after 1 recovered).live
    ≤ (if is_half_open ((after 1 recovered).cell 0).state then 1 else 0)
run_single_probe_example = run_single_probe (brittle 1) recovered 0 one_probe

-- The admission of the late probe.
abbrev late : Admission
late = record { owner = 0; context = 2; key = "api"; generation = 2; probe = true; circuit = 0 }

-- What the late probe meets: two probes of the fourth generation are under way.
late_probe_state :
    (get (normalize_key "api") (after 2 late_probe).circuits ≡ some 0)
    × (((after 2 late_probe).cell 0).state ≡ half_open)
    × (((after 2 late_probe).cell 0).probes ≡ 2)
    × (((after 2 late_probe).cell 0).active_requests ≡ 3)
    × (((after 2 late_probe).cell 0).generation ≡ 4)
    × (is_stale late (after 2 late_probe) ≡ true)
    × (find_admission 0 2 (after 2 late_probe).live ≡ some late)
    × ((normalize_options (brittle 2)).half_open_max_requests ≡ 2)
unfolding run step install on_request find_circuit create_circuit trim_circuits trim_rounds
    removable_key gate reopen_if_due transition admit on_settled find_admission settle is_active
    apply_failure count_failure apply_success finish remove_admission normalize_options
    normalize_positive_integer normalize_duration normalize_key get set delete
late_probe_state = (refl, refl, refl, refl, refl, refl, refl, refl)

stale_probe_admits_example :
    let o = normalize_options (brittle 2) in
    let b = after 2 late_probe in
    ((on_request o 0 6 true "api" 50 b).1 ≡ circuit_open (normalize_key "api"))
    × ((on_request o 0 6 true "api" 50 (settle o late (judged false) 50 b)).1 ≡ admitted)
stale_probe_admits_example =
    let (found, state, probes, active, generation, stale, held, limit) = late_probe_state in
    stale_probe_admits (normalize_options (brittle 2)) 0 6 "api" (judged false) 50
      (after 2 late_probe) 0 late (normalize_options-IsNormal (brittle 2))
      (run_breaker-Inv (brittle 2) late_probe) found state (omega (arith, probes, limit))
      (omega (arith, active)) refl refl
      (λ (p : 2 ≡ ((after 2 late_probe).cell 0).generation). omega (arith, p, generation))

tripped_circuit :
    (get (normalize_key "api") (after 1 tripped).circuits ≡ some 0)
    × (((after 1 tripped).cell 0).state ≡ open_state)
    × (((after 1 tripped).cell 0).opened_at ≡ 2)
    × ((normalize_options (brittle 1)).reset_timeout ≡ 10)
unfolding run step install on_request find_circuit create_circuit trim_circuits trim_rounds
    removable_key gate reopen_if_due transition admit on_settled find_admission settle is_active
    apply_failure count_failure apply_success finish remove_admission normalize_options
    normalize_positive_integer normalize_duration normalize_key get set delete
tripped_circuit = (refl, refl, refl, refl)

abbrev plain : Admission
plain = record { owner = 0; context = 1; key = "api"; generation = 0; probe = false; circuit = 0 }

abbrev three_failures : Options
three_failures = record {
  failure_threshold = 3;
  success_threshold = 2;
  reset_timeout = 10;
  half_open_max_requests = 1;
  max_circuits = 5;
}

three_failures-IsNormal : IsNormal three_failures
three_failures-IsNormal = record {
  failures_positive = omega arith;
  successes_positive = omega arith;
  probes_positive = omega arith;
  circuits_positive = omega arith;
}

abbrev probing : CircuitRecord
probing = record new_circuit { state = half_open; successes = 1; probes = 1; generation = 2 }

-- Of two circuits one, the second, is in use.
abbrev two_circuits : Dict ℕ
two_circuits = ("a", 0) ∷ ("b", 1) ∷ []

abbrev second_in_use : ℕ → CircuitRecord
second_in_use r = record new_circuit { active_requests = r }

trim_circuits_limit_example :
    (length (trim_circuits second_in_use two_circuits 0) ≤ 0)
    ⊎ All (IsBusy second_in_use) (trim_circuits second_in_use two_circuits 0)
unfolding get
trim_circuits_limit_example = trim_circuits_limit second_in_use two_circuits 0 (refl, (refl, tt))

get-trim_circuits_example : get "b" (trim_circuits second_in_use two_circuits 0) ≡ some 1
unfolding get
get-trim_circuits_example =
    get-trim_circuits second_in_use two_circuits 0 "b" 1 (refl, (refl, tt)) refl (omega arith)
