-- ===== src/Circuit/Hooks/SingleProbe.antt =====
-- The default `halfOpenMaxRequests` of 1 in src/plugins/circuitBreakerPlugin.ts: one probe at a time.
-- With more, a late probe of an earlier generation lets one too many in.
use request.Base.{
  ℕ, ◌≤◌, ◌<◌, ◌≡◌, refl, inl, inr, ◌≢◌, ◌∙◌, ap, Bool, true, false, List, [], ◌∷◌, none, some,
  arith, ◌==◌, Option-cases, if◌then◌else◌, String, update,
}
use request.Base.Dict.{get}
use request.Circuit.Options.{
  Options, IsNormal, normalize_key, PluginOptions, normalize_options, normalize_options-IsNormal,
}
use request.Circuit.Record.{Admission, half_open, is_half_open, admit, reopen_if_due}
use request.Circuit.Table.{Breaker, initial, find_circuit, create_circuit, reset, reset_all}
use request.Circuit.Hooks.{
  Call, installs, requests, settles, judges, resets, resets_all, tears_down, step, run, install,
  on_request, on_settled, on_judged, find_admission, finish_admission, finish_all, drop_circuits,
  teardown, without, settle, finish, gate, Settlement, circuit_open, admitted, released,
}
use request.Circuit.Table.Eviction.{get-trim_circuits}
use request.Circuit.Hooks.Invariant.{Inv}
use request.Circuit.Hooks.Histories.{step-Inv, initial-Inv, run_breaker-Inv}
use request.Circuit.Hooks.Probes.{
  probes_of, probes_fresh, IsExact, gate-IsExact, settled_IsExact, judged_IsExact, finish-IsExact,
}

module _ (o : Options) (n : IsNormal o) (single : o.half_open_max_requests ≡ 1) where
  find_circuit-IsExact :
      (key : String) (b : Breaker) → Inv o b → IsExact b → IsExact (find_circuit o key b).0
  unfolding find_circuit create_circuit
  find_circuit-IsExact key b i x q = elim (Option-cases (get key b.circuits)) [
    | inl missing ↦
        rw (missing, find_circuit) (ground (arith, x q, probes_fresh b.fresh b.live i.core.below))
    | inr (r, e) ↦ rw (e, find_circuit) (x q)
  ]

  finish_admission-IsExact :
      (owner context : ℕ) (b : Breaker) → IsExact b → IsExact (finish_admission o owner context b)
  unfolding finish_admission
  finish_admission-IsExact owner context b x =
      elim (Option-cases (find_admission owner context b.live)) [
        | inl missing ↦ rw (missing, finish_admission) x
        | inr (a, e) ↦ rw (e, finish_admission) (finish-IsExact o single owner context a b x e)
      ]

  if-IsExact : (t : Bool) (b c : Breaker) → IsExact b → IsExact c → IsExact (if t then b else c)
  if-IsExact true b c x y = x
  if-IsExact false b c x y = y

  finish_all-IsExact :
      (owner : ℕ) (l : List Admission) (b : Breaker) → IsExact b → IsExact (finish_all o owner l b)
  unfolding finish_all
  finish_all-IsExact owner [] b x = x
  finish_all-IsExact owner (a ∷ l) b x = finish_all-IsExact owner l _ (
      if-IsExact (a.owner == owner) (finish_admission o owner a.context b) b
        (finish_admission-IsExact owner a.context b x) x)

  drop_circuits-IsExact : (l : List ℕ) (b : Breaker) → IsExact b → IsExact (drop_circuits l b)
  drop_circuits-IsExact [] b x = x
  drop_circuits-IsExact (y ∷ l) b x = x

  step-IsExact : (b : Breaker) (c : ℕ × Call) → Inv o b → IsExact b → IsExact (step o b c)
  unfolding step install on_request on_settled on_judged reset reset_all teardown
  step-IsExact b (now, installs) i x = x
  step-IsExact b (now, requests owner context false key) i x = x
  step-IsExact b (now, requests owner context true key) i x =
      let k = normalize_key key in
      gate-IsExact o single owner context k now (find_circuit o k b).0 (find_circuit o k b).1
        (find_circuit-IsExact k b i x)
  step-IsExact b (now, settles owner context how) i x =
      elim (Option-cases (find_admission owner context b.live)) [
        | inl missing ↦ rw (missing, on_settled) x
        | inr (a, e) ↦ rw (e, on_settled) (settled_IsExact o single owner context a how now b i x e)
      ]
  step-IsExact b (now, judges owner context none) i x =
      elim (Option-cases (find_admission owner context b.live)) [
        | inl missing ↦ rw (missing, on_judged) x
        | inr (a, e) ↦ rw (e, on_judged) (finish-IsExact o single owner context a b x e)
      ]
  step-IsExact b (now, judges owner context (some counted)) i x =
      elim (Option-cases (find_admission owner context b.live)) [
        | inl missing ↦ rw (missing, on_judged) x
        | inr (a, e) ↦
            rw (e, on_judged) (judged_IsExact o single owner context a counted now b i x e)
      ]
  step-IsExact b (now, resets key) i x = x
  step-IsExact b (now, resets_all) i x = x
  step-IsExact b (now, tears_down owner) i x =
      drop_circuits-IsExact (without owner b.installed) _ (finish_all-IsExact owner b.live b x)

  run-IsExact : (b : Breaker) (cs : List (ℕ × Call)) → Inv o b → IsExact b → IsExact (run o b cs)
  unfolding run
  run-IsExact b [] i x = x
  run-IsExact b (c ∷ cs) i x =
      run-IsExact (step o b c) cs (step-Inv o n b c i) (step-IsExact b c i x)

-- With `halfOpenMaxRequests` normalised to 1, its default, after any history at most one probe of a
-- circuit is under way if it is half-open, and none if it is not.
pub run_single_probe :
    (p : PluginOptions) (cs : List (ℕ × Call)) (r : ℕ)
    → (normalize_options p).half_open_max_requests ≡ 1
    → let b = run (normalize_options p) initial cs in
      probes_of r b.live ≤ (if is_half_open (b.cell r).state then 1 else 0)
run_single_probe p cs r single =
    let o = normalize_options p in
    let n = normalize_options-IsNormal p in
    let x = run-IsExact o n single initial cs (initial-Inv o n) (λ q. (refl, λ h. refl)) r in
    let sound = (run_breaker-Inv p cs).core.sound r in ground (arith, x, sound.probes_bounded)

module _ (o : Options) where
  half_open_full :
      (owner context : ℕ) (key : String) (now : ℕ) (b : Breaker) (r : ℕ)
      → get (normalize_key key) b.circuits ≡ some r
      → (b.cell r).state ≡ half_open
      → (b.cell r).probes ≡ o.half_open_max_requests
      → (on_request o owner context true key now b).1 ≡ circuit_open (normalize_key key)
  unfolding on_request gate find_circuit admit reopen_if_due
  half_open_full owner context key now b r g s full = ground arith

  half_open_room :
      (owner context : ℕ) (key : String) (now : ℕ) (b : Breaker) (r : ℕ)
      → get (normalize_key key) b.circuits ≡ some r
      → (b.cell r).state ≡ half_open
      → (b.cell r).probes < o.half_open_max_requests
      → (on_request o owner context true key now b).1 ≡ admitted
  unfolding on_request gate find_circuit admit reopen_if_due
  half_open_room owner context key now b r g s room = ground arith

  settle-eq-finish :
      (a : Admission) (how : Settlement) (now : ℕ) (b : Breaker)
      → a.generation ≢ (b.cell a.circuit).generation
      → settle o a how now b ≡ finish o a b
  unfolding settle
  settle-eq-finish a how now b old = ground arith

-- The bug, with a limit above 1. While a half-open circuit has as many probes under way as it may,
-- a request is refused; once a probe of an earlier generation ends, however it ends, a request is
-- let through, although no probe of this generation has ended.
pub stale_probe_admits :
    (o : Options) (owner context : ℕ) (key : String) (how : Settlement) (now : ℕ) (b : Breaker)
    (r : ℕ) (a : Admission)
    → IsNormal o
    → Inv o b
    → get (normalize_key key) b.circuits ≡ some r
    → (b.cell r).state ≡ half_open
    → (b.cell r).probes ≡ o.half_open_max_requests
    → 2 ≤ (b.cell r).active_requests
    → a.circuit ≡ r
    → a.probe ≡ true
    → a.generation ≢ (b.cell r).generation
    → ((on_request o owner context true key now b).1 ≡ circuit_open (normalize_key key))
      × ((on_request o owner context true key now (settle o a how now b)).1 ≡ admitted)
unfolding finish
stale_probe_admits o owner context key how now b r a n i g s full two here probe old =
    let cell = update b.cell a.circuit (released a (b.cell a.circuit)) in
    let kept =
      get-trim_circuits cell b.circuits o.max_circuits (normalize_key key) r i.core.keyed g
        (ground arith) in
    (
      half_open_full o owner context key now b r g s full,
      rw (settle-eq-finish o a how now b (λ e. old (e ∙ ap (λ q. (b.cell q).generation) here))) (
          half_open_room o owner context key now (finish o a b) r kept (ground arith)
            (ground (arith, n.probes_positive))),
    )
