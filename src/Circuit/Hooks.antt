-- ===== src/Circuit/Hooks.antt =====
-- The hooks of src/plugins/circuitBreakerPlugin.ts over its table of circuits, as steps of the
-- plugin. Time is an argument of each call.
pub mod Live
pub mod Invariant
pub mod Requests
pub mod Settling
pub mod Histories
pub mod Behaviour
pub mod Probes
pub mod SingleProbe
use request.Base.{
  ℕ, ◌+◌, ◌-◌, Bool, true, false, not, ◌&&◌, ◌||◌, List, [], ◌∷◌, ◌++◌, String, Option, none, some,
  update, ◌==◌, if◌then◌else◌,
}
use request.Base.Dict.{get}
use request.Circuit.Options.{Options, normalize_key}
use request.Circuit.Record.{
  CircuitRecord, StateChange, Admission, apply_success, count_failure, reopen_if_due, admit,
}
use request.Circuit.Table.{Breaker, trim_circuits, same_reference, find_circuit, reset, reset_all}

-- What the `onRequest` hook does to its request: nothing, let it through, or throw CIRCUIT_OPEN.
pub data Answer : Type 0 where
  skipped admitted : Answer
  circuit_open : String → Answer

abbrev pub write : Breaker → ℕ → CircuitRecord → List StateChange → Breaker
write b r v e = record b { cell = update b.cell r v; events = b.events ++ e }

abbrev pub admission : ℕ → ℕ → String → CircuitRecord → Bool → ℕ → Admission
admission owner context key r probe circuit = record {
  owner = owner;
  context = context;
  key = key;
  generation = r.generation;
  probe = probe;
  circuit = circuit;
}

-- The second half of the `onRequest` hook, for the record that was found.
unfoldable pub gate : Options → ℕ → ℕ → String → ℕ → Breaker → ℕ → Breaker × Answer
gate o owner context key now b r =
    let (v, e) = reopen_if_due o key (b.cell r) now in
    elim (admit o v) [
      | none ↦ (write b r v e, circuit_open key)
      | some (w, probe) ↦ (
        record (write b r w e) { live = b.live ++ admission owner context key w probe r ∷ [] },
        admitted,
      )
    ]

-- The `onRequest` hook. `enabled` and `key` are what the request's options and `createKey` give.
unfoldable pub on_request : Options → ℕ → ℕ → Bool → String → ℕ → Breaker → Breaker × Answer
on_request o owner context false key now b = (b, skipped)
on_request o owner context true key now b =
    let (found, r) = find_circuit o (normalize_key key) b in
    gate o owner context (normalize_key key) now found r

abbrev pub is_of : ℕ → ℕ → Admission → Bool
is_of owner context a = a.owner == owner && a.context == context

-- `admissions.get(requestContext)` of an installation.
unfoldable pub find_admission : ℕ → ℕ → List Admission → Option Admission
find_admission owner context [] = none
find_admission owner context (a ∷ l) =
    if is_of owner context a then some a else find_admission owner context l

unfoldable pub remove_admission : ℕ → ℕ → List Admission → List Admission
remove_admission owner context [] = []
remove_admission owner context (a ∷ l) =
    if is_of owner context a then l else a ∷ remove_admission owner context l

abbrev pub released : Admission → CircuitRecord → CircuitRecord
released a r = record r {
  probes = if a.probe then r.probes - 1 else r.probes;
  active_requests = r.active_requests - 1;
}

-- `finishAdmission` of an admission that is not released yet, and its removal from the map.
unfoldable pub finish : Options → Admission → Breaker → Breaker
finish o a b =
    let cell = update b.cell a.circuit (released a (b.cell a.circuit)) in
    record b {
      cell = cell;
      live = remove_admission a.owner a.context b.live;
      circuits = trim_circuits cell b.circuits o.max_circuits;
    }

-- The guard against an admission whose circuit was evicted, reset or has moved on.
abbrev pub is_stale : Admission → Breaker → Bool
is_stale a b =
    not (same_reference (get a.key b.circuits) (some a.circuit))
    || not ((b.cell a.circuit).generation == a.generation)

unfoldable pub is_active : ℕ → List ℕ → Bool
is_active owner [] = false
is_active owner (x ∷ l) = x == owner || is_active owner l

-- `applyFailure`.
unfoldable pub apply_failure : Options → Admission → Bool → ℕ → Breaker → Breaker
apply_failure o a counted now b =
    let (v, e) = count_failure o a (b.cell a.circuit) now in
    if not (is_active a.owner b.installed) || is_stale a b || not counted
    then b
    else write b a.circuit v e

abbrev pub succeed : Options → Admission → ℕ → Breaker → Breaker
succeed o a now b = let (v, e) = apply_success o a (b.cell a.circuit) now in write b a.circuit v e

-- How a request ends for the `onSettled` hook: with a response and no error, or with a failure that
-- `shouldCountFailure` judges at once, later by a promise, or not at all since it throws.
pub data Settlement : Type 0 where
  success : Settlement
  judged : Bool → Settlement
  pending throws : Settlement

-- The `onSettled` hook for the admission that it found.
unfoldable pub settle : Options → Admission → Settlement → ℕ → Breaker → Breaker
settle o a how now b =
    let judge : Breaker = elim how [
      | success ↦ finish o a (succeed o a now b)
      | judged counted ↦ finish o a (apply_failure o a counted now b)
      | pending ↦ b
      | throws ↦ finish o a b
    ] in
    if not (is_active a.owner b.installed) || is_stale a b then finish o a b else judge

unfoldable pub on_settled : Options → ℕ → ℕ → Settlement → ℕ → Breaker → Breaker
on_settled o owner context how now b = elim (find_admission owner context b.live) [
  | none ↦ b
  | some a ↦ settle o a how now b
]

-- The end of the promise of `shouldCountFailure`: its verdict, or `none` if it was rejected. An
-- admission that the teardown released is not live, and its installation is not active.
unfoldable pub on_judged : Options → ℕ → ℕ → Option Bool → ℕ → Breaker → Breaker
on_judged o owner context verdict now b = elim (find_admission owner context b.live) [
  | none ↦ b
  | some a ↦ elim verdict [
    | none ↦ finish o a b
    | some counted ↦ finish o a (apply_failure o a counted now b)
  ]
]

unfoldable pub install : Breaker → Breaker
install b = record b { installed = b.next_owner ∷ b.installed; next_owner = b.next_owner + 1 }

unfoldable pub without : ℕ → List ℕ → List ℕ
without x [] = []
without x (y ∷ l) = if y == x then l else y ∷ without x l

-- `finishAdmission`, which returns at once if the admission was released.
unfoldable pub finish_admission : Options → ℕ → ℕ → Breaker → Breaker
finish_admission o owner context b = elim (find_admission owner context b.live) [
  | none ↦ b
  | some a ↦ finish o a b
]

-- The loop of the teardown over the admissions of its installation, out of all live ones.
unfoldable pub finish_all : Options → ℕ → List Admission → Breaker → Breaker
finish_all o owner [] b = b
finish_all o owner (a ∷ l) b =
    finish_all o owner l (if a.owner == owner then finish_admission o owner a.context b else b)

abbrev pub drop_circuits : List ℕ → Breaker → Breaker
drop_circuits [] b = record b { installed = []; circuits = []; latest_circuit = none }
drop_circuits (x ∷ l) b = record b { installed = x ∷ l }

-- The function that `install` returns, called once for an installation.
unfoldable pub teardown : Options → ℕ → Breaker → Breaker
teardown o owner b = drop_circuits (without owner b.installed) (finish_all o owner b.live b)

-- The calls that reach the plugin.
pub data Call : Type 0 where
  installs : Call
  requests : ℕ → ℕ → Bool → String → Call
  settles : ℕ → ℕ → Settlement → Call
  judges : ℕ → ℕ → Option Bool → Call
  resets : String → Call
  resets_all : Call
  tears_down : ℕ → Call

unfoldable pub step : Options → Breaker → ℕ × Call → Breaker
step o b (now, installs) = install b
step o b (now, requests owner context enabled key) =
    (on_request o owner context enabled key now b).0
step o b (now, settles owner context how) = on_settled o owner context how now b
step o b (now, judges owner context verdict) = on_judged o owner context verdict now b
step o b (now, resets key) = reset key b
step o b (now, resets_all) = reset_all b
step o b (now, tears_down owner) = teardown o owner b

unfoldable pub run : Options → Breaker → List (ℕ × Call) → Breaker
run o b [] = b
run o b (c ∷ cs) = run o (step o b c) cs
