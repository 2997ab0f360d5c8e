-- ===== src/RateLimit/Rolling.antt =====
-- Every call of src/plugins/rateLimitPlugin.ts keeps the rolling windows of all keys.
use request.Base.{
  ℕ, ◌-◌, ◌≤◌, ◌≡◌, refl, sym, subst, inl, inr, Bool, List, [], ◌∷◌, String, arith, length, if_elim,
  ◌==◌, Bool-cases, Option-cases, if◌then◌else◌,
}
use request.Base.Dict.{get, set}
use request.Limits.{Timeout}
use request.RateLimit.State.{
  Options, PluginOptions, normalize_options, RateLimitRecord, new_record, QueueEntry,
  prune_timestamps, Answer, admitted, queued, refused, on_transport, observe_retry_after, on_timer,
  give_up,
}
use request.RateLimit.Window.{IsSpaced, admit_times, later_IsWindow}
use request.RateLimit.Steps.{same_IsWindow}
use request.RateLimit.Histories.{
  Traced, Inv, step, step-Inv, attempts, fires, observes, gives_up, admissions_of,
}
use request.RateLimit.Table.{
  Limiter, get_record, create_state, get_state, put, transport, observe, fire, leave, remove_owner,
  teardown,
}
use request.RateLimit.Histories.{initial-Inv}
use request.RateLimit.Trimming.{record_of, at_key, pruned-Inv}
use request.RateLimit.Keys.{
  KeyedCall, transports, observes_delay, timer_fires, asks_state, leaves, installs, tears_down,
  KeyedTrace, woken_at, keyed_step, keyed_run, keyed_initial, KeyedInOrder,
}
use request.RateLimit.Records.{
  KeyedInv, set-KeyedInv, keep-KeyedInv, same-KeyedInv, get_record-KeyedInv, record_at,
  remove_owner-IsMap, remove_owner-Inv,
}

-- What is counted does not depend on the record.
admissions_any :
    (a : Answer) (r s : RateLimitRecord) (out : List QueueEntry)
    → admissions_of (a, (r, out)) ≡ admissions_of (a, (s, out))
admissions_any admitted r s out = refl
admissions_any queued r s out = refl
admissions_any (refused why) r s out = refl

module _ (o : Options) where
  abbrev Holds : ℕ → KeyedTrace → Type 0
  Holds now t = KeyedInv o now t.limiter.records t.history

  transport-Holds :
      (live : Bool) (key : String) (e : QueueEntry) (stopped : Bool) (timeout : Timeout) (now : ℕ)
      (t : KeyedTrace)
      → Holds now t
      → Holds now (keyed_step o t (now, transports live key e stopped timeout))
  unfolding keyed_step transport step
  transport-Holds live key e stopped timeout now t i =
      let found = get_record o key now t.limiter.records in
      let (rest, this) = get_record-KeyedInv o key now t.limiter.records t.history i in
      let done = on_transport o live e stopped timeout now found.0 in
      let next =
        step-Inv o now (at_key found.0 (t.history key)) (attempts live e stopped timeout) this in
      set-KeyedInv o now found.1 key done.1.0 _ t.history rest (
        subst (λ n. Inv o now (at_key done.1.0 (admit_times n now (t.history key))))
          (admissions_any done.0 done.1.0 new_record done.1.1) next)

  observe-Holds :
      (live : Bool) (key : String) (delay now : ℕ) (t : KeyedTrace)
      → Holds now t
      → Holds now (keyed_step o t (now, observes_delay live key delay))
  unfolding keyed_step observe step
  observe-Holds live key delay now t i =
      let found = get_record o key now t.limiter.records in
      let (rest, this) = get_record-KeyedInv o key now t.limiter.records t.history i in
      let done = observe_retry_after o live delay now found.0 in
      let next = step-Inv o now (at_key found.0 (t.history key)) (observes live delay) this in
      if_elim (λ (x : Limiter × List QueueEntry). Holds now (woken_at key (length x.1) now t x.0))
        o.shared_retry_after (put key done.0 found.1 t.limiter, done.1) (t.limiter, [])
        (set-KeyedInv o now found.1 key done.0 _ t.history rest next)
        (same-KeyedInv o now t.limiter.records key t.history i)

  fire-Holds :
      (key : String) (now : ℕ) (t : KeyedTrace)
      → Holds now t
      → Holds now (keyed_step o t (now, timer_fires key))
  unfolding keyed_step fire step
  fire-Holds key now t i =
      let good =
        λ (x : Limiter × List QueueEntry). Holds now (woken_at key (length x.1) now t x.0) in
      elim (Option-cases (get key t.limiter.records)) [
        | inl e ↦
            let same : fire o key now t.limiter ≡ (t.limiter, []) = ground (arith, e) in
            subst good (sym same) (same-KeyedInv o now t.limiter.records key t.history i)
        | inr (r, e) ↦
            let done = on_timer o now r in
            let fired : fire o key now t.limiter
                ≡ (put key done.0 t.limiter.records t.limiter, done.1) =
              ground (arith, e) in
            let this = record_at o key r now t.limiter.records t.history i e in
            let next = step-Inv o now (at_key r (t.history key)) fires this in
            subst good (sym fired)
              (set-KeyedInv o now t.limiter.records key done.0 _ t.history i next)
      ]

  get_state-Holds :
      (key : String) (now : ℕ) (t : KeyedTrace)
      → Holds now t
      → Holds now (keyed_step o t (now, asks_state key))
  unfolding keyed_step get_state create_state
  get_state-Holds key now t i =
      let good = λ (l : Limiter). KeyedInv o now l.records t.history in
      elim (Option-cases (get key t.limiter.records)) [
        | inl e ↦
            let same : (get_state o key now t.limiter).1 ≡ t.limiter = ground (arith, e) in
            subst good (sym same) i
        | inr (r, e) ↦
            let p = prune_timestamps now o.interval r in
            let s = (create_state o now p).1 in
            let seen : (get_state o key now t.limiter).1
                ≡ record (t.limiter) { records = set key s t.limiter.records } =
              ground (arith, e) in
            let this = record_at o key r now t.limiter.records t.history i e in
            let pruned = pruned-Inv o now r (t.history key) this in
            subst good (sym seen) (
              keep-KeyedInv o now t.limiter.records key s t.history i (record {
                rolling = same_IsWindow o now p s (t.history key) (refl, refl) pruned.rolling;
              }))
      ]

  leave-Holds :
      (key : String) (e : QueueEntry) (now : ℕ) (t : KeyedTrace)
      → Holds now t
      → Holds now (keyed_step o t (now, leaves key e))
  unfolding keyed_step leave step
  leave-Holds key e now t i =
      let good = λ (l : Limiter). KeyedInv o now l.records t.history in
      elim (Option-cases (get key t.limiter.records)) [
        | inl gone ↦
            let same : leave key e t.limiter ≡ t.limiter = ground (arith, gone) in
            subst good (sym same) i
        | inr (r, there) ↦
            let left : leave key e t.limiter ≡ put key (give_up e r) t.limiter.records t.limiter =
              ground (arith, there) in
            let this = record_at o key r now t.limiter.records t.history i there in
            let next = step-Inv o now (at_key r (t.history key)) (gives_up e) this in
            subst good (sym left)
              (keep-KeyedInv o now t.limiter.records key (give_up e r) t.history i next)
      ]

  later-Inv : (now later : ℕ) (t : Traced) → now ≤ later → Inv o now t → Inv o later t
  later-Inv now later t le i = record {
    rolling = later_IsWindow o now later t.rate t.history le i.rolling;
  }

  teardown-Holds :
      (owner now : ℕ) (t : KeyedTrace)
      → Holds now t
      → Holds now (keyed_step o t (now, tears_down owner))
  unfolding keyed_step teardown get
  teardown-Holds owner now t i =
      let m = t.limiter.records in
      elim (Bool-cases (t.limiter.installations - 1 == 0)) [
        | inl last ↦
            subst
              (λ b.
                KeyedInv o now (if b then [] else remove_owner owner m)
                  (if b then (λ k. []) else t.history))
              (sym last)
              (record {
                keys = tt;
                each = λ k. later-Inv 0 now (at_key new_record []) (omega arith) (initial-Inv o);
              })
        | inr others ↦
            subst
              (λ b.
                KeyedInv o now (if b then [] else remove_owner owner m)
                  (if b then (λ k. []) else t.history))
              (sym others)
              (record {
                keys = remove_owner-IsMap o owner m i.keys;
                each = λ k. remove_owner-Inv o owner now m k (t.history k) (i.each k);
              })
      ]

  keyed_step-Holds :
      (now : ℕ) (t : KeyedTrace) (c : KeyedCall) → Holds now t → Holds now (keyed_step o t (now, c))
  unfolding keyed_step
  keyed_step-Holds now t (transports live key e stopped timeout) i =
      transport-Holds live key e stopped timeout now t i
  keyed_step-Holds now t (observes_delay live key delay) i = observe-Holds live key delay now t i
  keyed_step-Holds now t (timer_fires key) i = fire-Holds key now t i
  keyed_step-Holds now t (asks_state key) i = get_state-Holds key now t i
  keyed_step-Holds now t (leaves key e) i = leave-Holds key e now t i
  keyed_step-Holds now t installs i = record { keys = i.keys; each = i.each }
  keyed_step-Holds now t (tears_down owner) i = teardown-Holds owner now t i

  initial-Holds : Holds 0 keyed_initial
  unfolding get
  initial-Holds = record { keys = tt; each = λ k. initial-Inv o }

  keyed_run-Holds :
      (now : ℕ) (t : KeyedTrace) (cs : List (ℕ × KeyedCall))
      → KeyedInOrder now cs
      → Holds now t
      → (last : ℕ) × Holds last (keyed_run o t cs)
  unfolding keyed_run
  keyed_run-Holds now t [] h i = (now, i)
  keyed_run-Holds now t ((later, c) ∷ cs) (le, h) i =
      keyed_run-Holds later (keyed_step o t (later, c)) cs h (
        keyed_step-Holds later t c (record {
          keys = i.keys;
          each = λ k.
              later-Inv now later (at_key (record_of k t.limiter.records) (t.history k)) le
                (i.each k);
        }))

-- Over any history of all keys in the order of time, of what the plugin admitted for a key since it was
-- installed nowhere, an admission that stands `maxRequests` places behind another is at least `interval`
-- older, also where the record of the key was evicted and made again, and where hooks of a removed
-- installation still run.
pub keyed_run_rolling_limit :
    (p : PluginOptions) (cs : List (ℕ × KeyedCall)) (key : String)
    → KeyedInOrder 0 cs
    → let o = normalize_options p in
      let t = keyed_run o keyed_initial cs in IsSpaced o.max_requests o.interval (t.history key)
unfolding normalize_options
keyed_run_rolling_limit p cs key h =
    let o = normalize_options p in
    let (last, i) = keyed_run-Holds o 0 keyed_initial cs h (initial-Holds o) in
    (i.each key).rolling.spaced
