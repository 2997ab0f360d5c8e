-- ===== src/Concurrency/Histories.antt =====
-- The limiter of src/plugins/concurrencyPlugin.ts over any sequence of calls, teardowns included.
use request.Base.{ℕ, ◌≤◌, ◌≡◌, refl, true, List, [], ◌∷◌, some, arith, All-mono}
use request.Limits.Laws.{normalize_positive_integer-pos}
use request.Concurrency.State.{
  find_admission, remove_admission, on_settled, release_admission, Admission, Options,
  PluginOptions, normalize_options, Limiter, initial, is_active, aborted, wait_timed_out,
}
use request.Concurrency.Teardown.{
  install, Call, installs, requests, settles, times_out, aborts, tears_down, step, run,
}
use request.Concurrency.Invariant.{Inv}
use request.Concurrency.Requests.{on_request-Inv}
use request.Concurrency.Releases.{on_settled-eq-release, on_settled-Inv, give_up-Inv}
use request.Concurrency.Departures.{teardown-Inv}

-- The request hook runs while its installation is not torn down.
abbrev pub IsTimely : Limiter → Call → Type 0
IsTimely l (requests owner context q) = is_active owner l.installed ≡ true
IsTimely l c = Unit

abbrev pub AreTimely : Options → Limiter → List Call → Type 0
AreTimely o l [] = Unit
AreTimely o l (c ∷ cs) = IsTimely l c × AreTimely o (step o l c) cs

module _ (o : Options) (positive : 1 ≤ o.max_concurrent) where
  newly_installed : (x y : ℕ) (l : List ℕ) → is_active x l ≡ true → is_active x (y ∷ l) ≡ true
  unfolding is_active
  newly_installed x y l h = ground arith

  install-Inv : (l : Limiter) → Inv o l → Inv o (install l)
  unfolding install
  install-Inv l i = record {
    counted = i.counted;
    within = i.within;
    busy = i.busy;
    queue_within = i.queue_within;
    keyed = i.keyed;
    listed = i.listed;
    named = i.named;
    below = i.below;
    owners =
        All-mono _ _ (λ a h. newly_installed a.owner l.next_owner l.installed h) l.admissions
          i.owners;
    waiters = λ r.
        All-mono _ _ (λ e h. newly_installed e.owner l.next_owner l.installed h) (l.cell r).queue
          (i.waiters r);
  }

  step-Inv : (l : Limiter) (c : Call) → IsTimely l c → Inv o l → Inv o (step o l c)
  unfolding step
  step-Inv l installs on i = install-Inv l i
  step-Inv l (requests owner context q) on i = on_request-Inv o positive owner context q l i on
  step-Inv l (settles owner context) on i = on_settled-Inv o positive owner context l i
  step-Inv l (times_out r e) on i = give_up-Inv o positive r e wait_timed_out l i
  step-Inv l (aborts r e) on i = give_up-Inv o positive r e aborted l i
  step-Inv l (tears_down owner) on i = teardown-Inv o positive owner l i

  run_from-Inv : (l : Limiter) (cs : List Call) → AreTimely o l cs → Inv o l → Inv o (run o l cs)
  unfolding run
  run_from-Inv l [] on i = i
  run_from-Inv l (c ∷ cs) (on, later) i = run_from-Inv (step o l c) cs later (step-Inv l c on i)

  initial-Inv : Inv o initial
  initial-Inv = record {
    counted = λ r. refl;
    within = λ r. omega arith;
    busy = λ r h. absurd (h refl);
    queue_within = λ r. omega arith;
    keyed = tt;
    listed = tt;
    named = λ r h. absurd (omega arith);
    below = tt;
    owners = tt;
    waiters = λ r. tt;
  }

-- After any history of a limiter in which no request hook runs behind the teardown of its installation,
-- under whatever options the limiter was made with: the active count of every record is the number of permits that are held, at most `maxConcurrent`; requests wait for it only
-- while all its permits are held, at most `maxQueue` of them; each key has one record, a held permit
-- is of the record of its key, and whoever holds a permit or waits belongs to an installation that
-- was not torn down.
pub run_limiter-Inv :
    (p : PluginOptions) (cs : List Call)
    → AreTimely (normalize_options p) initial cs
    → Inv (normalize_options p) (run (normalize_options p) initial cs)
unfolding normalize_options
run_limiter-Inv p cs timely =
    let positive = normalize_positive_integer-pos p.max_concurrent 10 (omega arith) in
    run_from-Inv (normalize_options p) positive initial cs timely
      (initial-Inv (normalize_options p) positive)

-- After such a history a request that holds a permit gives it up when it settles, to the next that waits
-- or back to the record: no guard of the hook passes over the release.
pub run_limiter-on_settled :
    (p : PluginOptions) (cs : List Call) (owner context : ℕ) (a : Admission)
    → AreTimely (normalize_options p) initial cs
    → let o = normalize_options p in
      let l = run o initial cs in
      find_admission owner context l.admissions ≡ some a
      → on_settled o owner context l
        ≡ release_admission o a.record_ref
            (record l { admissions = remove_admission a.owner a.context l.admissions })
unfolding normalize_options
run_limiter-on_settled p cs owner context a timely held =
    let o = normalize_options p in
    on_settled-eq-release o (normalize_positive_integer-pos p.max_concurrent 10 (omega arith))
      (run o initial cs) owner context a (run_limiter-Inv p cs timely) held
