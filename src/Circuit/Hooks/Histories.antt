-- ===== src/Circuit/Hooks/Histories.antt =====
-- The circuit breaker of src/plugins/circuitBreakerPlugin.ts over any sequence of calls.
use request.Base.{ℕ, refl, inl, inr, List, [], ◌∷◌, arith, ◌==◌, Bool-cases, Option-cases}
use request.Circuit.Options.{
  Options, PluginOptions, IsNormal, normalize_options, normalize_options-IsNormal,
}
use request.Circuit.Record.{Admission}
use request.Circuit.Table.{Breaker, initial, reset_all}
use request.Circuit.Hooks.{
  Call, installs, requests, settles, judges, resets, resets_all, tears_down, step, run, install,
  find_admission, finish_admission, finish_all, without, drop_circuits, teardown,
}
use request.Circuit.Hooks.Invariant.{Inv, finish-Inv}
use request.Circuit.Hooks.Requests.{on_request-Inv}
use request.Circuit.Hooks.Settling.{on_settled-Inv, on_judged-Inv, reset-Inv, cleared_Inv}

module _ (o : Options) (n : IsNormal o) where
  finish_admission-Inv :
      (owner context : ℕ) (b : Breaker) → Inv o b → Inv o (finish_admission o owner context b)
  unfolding finish_admission
  finish_admission-Inv owner context b i =
      elim (Option-cases (find_admission owner context b.live)) [
        | inl missing ↦ rw (missing, finish_admission) i
        | inr (a, e) ↦ rw (e, finish_admission) (finish-Inv o b owner context a i.core e)
      ]

  finish_all-Inv :
      (owner : ℕ) (l : List Admission) (b : Breaker) → Inv o b → Inv o (finish_all o owner l b)
  unfolding finish_all
  finish_all-Inv owner [] b i = i
  finish_all-Inv owner (a ∷ l) b i = elim (Bool-cases (a.owner == owner)) [
    | inl own ↦ rw own (finish_all-Inv owner l _ (finish_admission-Inv owner a.context b i))
    | inr other ↦ rw other (finish_all-Inv owner l b i)
  ]

  drop_circuits-Inv : (l : List ℕ) (b : Breaker) → Inv o b → Inv o (drop_circuits l b)
  drop_circuits-Inv [] b i = cleared_Inv o n b [] i
  drop_circuits-Inv (x ∷ l) b i = record {
    core = record {
      sound = i.core.sound;
      counted = i.core.counted;
      keyed = i.core.keyed;
      listed = i.core.listed;
      below = i.core.below;
      reports = i.core.reports;
    };
    bounded = i.bounded;
  }

  install-Inv : (b : Breaker) → Inv o b → Inv o (install b)
  unfolding install
  install-Inv b i = record {
    core = record {
      sound = i.core.sound;
      counted = i.core.counted;
      keyed = i.core.keyed;
      listed = i.core.listed;
      below = i.core.below;
      reports = i.core.reports;
    };
    bounded = i.bounded;
  }

  pub step-Inv : (b : Breaker) (c : ℕ × Call) → Inv o b → Inv o (step o b c)
  unfolding step teardown reset_all
  step-Inv b (now, installs) i = install-Inv b i
  step-Inv b (now, requests owner context enabled key) i =
      on_request-Inv o n owner context enabled key now b i
  step-Inv b (now, settles owner context how) i = on_settled-Inv o n owner context how now b i
  step-Inv b (now, judges owner context verdict) i = on_judged-Inv o n owner context verdict now b i
  step-Inv b (now, resets key) i = reset-Inv o n key b i
  step-Inv b (now, resets_all) i = cleared_Inv o n b b.installed i
  step-Inv b (now, tears_down owner) i =
      drop_circuits-Inv (without owner b.installed) _ (finish_all-Inv owner b.live b i)

  run_from-Inv : (b : Breaker) (cs : List (ℕ × Call)) → Inv o b → Inv o (run o b cs)
  unfolding run
  run_from-Inv b [] i = i
  run_from-Inv b (c ∷ cs) i = run_from-Inv (step o b c) cs (step-Inv b c i)

  pub initial-Inv : Inv o initial
  initial-Inv = record {
    core = record {
      sound = λ q. ground (arith, n.failures_positive, n.successes_positive);
      counted = λ q. refl;
      keyed = tt;
      listed = tt;
      below = tt;
      reports = tt;
    };
    bounded = inr tt;
  }

-- After any history of a breaker, under whatever options it was made with: every circuit's count of
-- active requests is the number of its live admissions; a closed circuit is below the failure
-- threshold, successes are below theirs, and its counter of probes is within the limit; each key has one circuit;
-- the map exceeds its limit only if every circuit in it is in use; and every reported change of
-- state is one of closed to open, open to half-open, half-open to open or closed.
pub run_breaker-Inv :
    (p : PluginOptions) (cs : List (ℕ × Call))
    → Inv (normalize_options p) (run (normalize_options p) initial cs)
run_breaker-Inv p cs =
    let o = normalize_options p in
    let n = normalize_options-IsNormal p in run_from-Inv o n initial cs (initial-Inv o n)
