-- ===== src/RateLimit/Wakeups.antt =====
-- The timer that `schedule` of src/plugins/rateLimitPlugin.ts leaves for the requests that wait, while the
-- installation is active and the clock stands still.
use request.Base.{
  ℕ, suc, ◌+◌, ◌≤◌, ◌≡◌, refl, ap, subst, sym, ◌∙◌, ◌⊎◌, inl, inr, Bool, true, false, ◌||◌, List,
  [], ◌∷◌, ◌++◌, none, arith, length, ltb, leb, Bool-cases, Option-cases,
}
use request.RateLimit.State.{
  Options, RateLimitRecord, QueueEntry, Drained, expired_count, drain_queue, drain, schedule_once,
  schedule, prune_timestamps, active_count, push_timestamp, dequeued, is_empty, has_timer, ahead,
  drop,
}
use request.RateLimit.Window.{HasHead, window, prune_window, push_window, active_count-window}

-- A timer is set while somebody waits.
abbrev pub IsAwake : RateLimitRecord → Type 0
IsAwake r = (is_empty r.queue || has_timer r.timer) ≡ true

-- No timestamp of the window has expired.
abbrev IsFresh : Options → ℕ → RateLimitRecord → Type 0
IsFresh o now r = expired_count now o.interval (window r) ≡ 0

expired_count-drop :
    (now interval : ℕ) (ts : List ℕ)
    → expired_count now interval (drop (expired_count now interval ts) ts) ≡ 0
unfolding expired_count
expired_count-drop now interval [] = refl
expired_count-drop now interval (t ∷ ts) = elim (Bool-cases (leb (t + interval) now)) [
  | inl gone ↦ rw gone (expired_count-drop now interval ts)
  | inr here ↦ rw (here, here)
]

expired_count-snoc :
    (now interval : ℕ) (ts : List ℕ)
    → 1 ≤ interval
    → expired_count now interval ts ≡ 0
    → expired_count now interval (ts ++ now ∷ []) ≡ 0
unfolding expired_count
expired_count-snoc now interval [] h e = ground arith
expired_count-snoc now interval (t ∷ ts) h e = ground arith

prune_others :
    (now interval : ℕ) (r : RateLimitRecord)
    → let p = prune_timestamps now interval r in
      (p.queue ≡ r.queue) × (p.timer ≡ r.timer) × (p.cooldown_until ≡ r.cooldown_until)
unfolding prune_timestamps
prune_others now interval r = ground arith

module _ (o : Options) (positive : 1 ≤ o.interval) where
  prune-IsFresh :
      (now : ℕ) (r : RateLimitRecord)
      → HasHead r
      → IsFresh o now (prune_timestamps now o.interval r)
  prune-IsFresh now r h =
      ap (expired_count now o.interval) (prune_window now o.interval r h).0
      ∙ expired_count-drop now o.interval (window r)

  -- Pruning a fresh record changes no count.
  prune_again :
      (now : ℕ) (r : RateLimitRecord)
      → HasHead r
      → IsFresh o now r
      → active_count (prune_timestamps now o.interval r) ≡ active_count r
  prune_again now r h f =
      active_count-window (prune_timestamps now o.interval r)
      ∙ ap length ((prune_window now o.interval r h).0 ∙ ap (λ (k : ℕ). drop k (window r)) f)
      ∙ sym (active_count-window r)

  -- What the loop of `drain` leaves: nobody waits, or the window is full, or was not pruned before.
  record IsSettled (now : ℕ) (r : RateLimitRecord) : Type 0 where
    head : HasHead r
    fresh : IsFresh o now r
    cool : r.cooldown_until ≡ none
    done : (is_empty r.queue ≡ true) ⊎ (o.max_requests ≤ active_count r)

  drain_queue-IsSettled :
      (now : ℕ) (q : List QueueEntry) (r : RateLimitRecord)
      → r.queue ≡ q
      → HasHead r
      → IsFresh o now r
      → r.cooldown_until ≡ none
      → IsSettled now (drain_queue o.max_requests now q r).0
  unfolding drain_queue
  drain_queue-IsSettled now [] r e h f c = record {
    head = h;
    fresh = f;
    cool = c;
    done = inl (ground arith);
  }
  drain_queue-IsSettled now (x ∷ q) r e h f c =
      elim (Bool-cases (ltb (active_count r) o.max_requests)) [
        | inr full ↦ rw full (record { head = h; fresh = f; cool = c; done = inr (ground arith) })
        | inl room ↦
            let (same, head) = push_window now (dequeued q r) h in
            rw room (
              drain_queue-IsSettled now q (push_timestamp now (dequeued q r)) refl head
                (ap (expired_count now o.interval) same
                  ∙ expired_count-snoc now o.interval (window r) positive f)
                c)
      ]

  -- On a settled record `schedule` calls no `drain`, and sets the timer that is needed.
  settled_schedule :
      (again : RateLimitRecord → Drained) (live : Bool) (now : ℕ) (r : RateLimitRecord)
      → IsSettled now r
      → (live ≡ true → IsAwake (schedule_once again o live now r).0)
        × (schedule_once again o live now r ≡ schedule 1 o live now r)
  unfolding schedule_once schedule
  settled_schedule again live now r s =
      let (q, t, c) = prune_others now o.interval r in
      let n = prune_again now r s.head s.fresh in
      (ground (arith, s.done, s.cool, q, t, c, n), ground (arith, s.done, s.cool, q, t, c, n))

  -- The record that `schedule` and `drain` go on with, and what the loop of `drain` makes of it.
  abbrev freed : ℕ → RateLimitRecord → RateLimitRecord
  freed now r = record (prune_timestamps now o.interval r) { cooldown_until = none }

  abbrev looped : ℕ → RateLimitRecord → Drained
  looped now r = drain_queue o.max_requests now (freed now r).queue (freed now r)

  looped-IsSettled : (now : ℕ) (r : RateLimitRecord) → HasHead r → IsSettled now (looped now r).0
  looped-IsSettled now r h =
      drain_queue-IsSettled now (freed now r).queue (freed now r) refl
        (prune_window now o.interval r h).1 (prune-IsFresh now r h) refl

  -- `drain` of a record that does not cool down is its loop and the `schedule` behind it.
  drain-eq-looped :
      (again : RateLimitRecord → Drained) (now : ℕ) (r : RateLimitRecord)
      → r.cooldown_until ≡ none
      → drain again o true now r
        ≡ ((again (looped now r).0).0, (looped now r).1 ++ (again (looped now r).0).1)
  unfolding drain
  drain-eq-looped again now r c =
      let cold : ahead (prune_timestamps now o.interval r).cooldown_until now ≡ none =
        ap (λ x. ahead x now) ((prune_others now o.interval r).2 ∙ c) in
      rw (cold, drain)

  -- `schedule` ends at once and leaves a timer where one is needed, or it is a `drain`.
  schedule_once_cases :
      (again other : RateLimitRecord → Drained) (now : ℕ) (r : RateLimitRecord)
      → ((schedule_once again o true now r ≡ schedule_once other o true now r)
          × IsAwake (schedule_once again o true now r).0)
        ⊎ ((schedule_once again o true now r ≡ drain again o true now (freed now r))
            × (schedule_once other o true now r ≡ drain other o true now (freed now r)))
  unfolding schedule_once
  schedule_once_cases again other now r =
      elim (Bool-cases (is_empty r.queue || has_timer r.timer)) [
        | inl awake ↦ inl (ground arith, ground arith)
        | inr asleep ↦
            elim (Option-cases (ahead (prune_timestamps now o.interval r).cooldown_until now)) [
              | inr (u, cooling) ↦ inl (ground arith, ground arith)
              | inl cool ↦ elim (Bool-cases (ltb (active_count (freed now r)) o.max_requests)) [
                | inr full ↦ inl (ground arith, ground arith)
                | inl room ↦ inr (ground arith, ground arith)
              ]
            ]
      ]

  -- With an interval of at least one, on a record whose head is within its timestamps, and with a clock that
  -- stands still meanwhile, fuel beyond 2 changes nothing: `schedule` and `drain` call one another no deeper.
  schedule_enough_fuel :
      (fuel : ℕ) (live : Bool) (now : ℕ) (r : RateLimitRecord)
      → HasHead r
      → schedule (suc (suc fuel)) o live now r ≡ schedule 2 o live now r
  unfolding schedule
  schedule_enough_fuel fuel false now r h = unfold schedule_once in refl
  schedule_enough_fuel fuel true now r h =
      let more = λ (q : RateLimitRecord). schedule (suc fuel) o true now q in
      let less = λ (q : RateLimitRecord). schedule 1 o true now q in
      elim (schedule_once_cases more less now r) [
        | inl (same, _) ↦ same
        | inr (a, b) ↦
            let head = (prune_window now o.interval r h).1 in
            let s = looped-IsSettled now (freed now r) head in
            let same =
              (settled_schedule (λ q. schedule fuel o true now q) true now
                (looped now (freed now r)).0 s).1 in
            a
            ∙ drain-eq-looped more now (freed now r) refl
            ∙ ap (λ (d : Drained). (d.0, (looped now (freed now r)).1 ++ d.1)) same
            ∙ sym (drain-eq-looped less now (freed now r) refl)
            ∙ sym b
      ]

  -- For an active installation, with an interval of at least one, on a record whose head is within its
  -- timestamps, and with a clock that stands still during the call, `schedule` leaves a timer if somebody
  -- still waits.
  pub schedule-IsAwake :
      (now : ℕ) (r : RateLimitRecord) → HasHead r → IsAwake (schedule 2 o true now r).0
  unfolding schedule
  schedule-IsAwake now r h =
      let less = λ (q : RateLimitRecord). schedule 1 o true now q in
      elim (schedule_once_cases less less now r) [
        | inl (_, awake) ↦ awake
        | inr (a, _) ↦
            let s = looped-IsSettled now (freed now r) (prune_window now o.interval r h).1 in
            let awake =
              (settled_schedule (λ q. (q, [])) true now (looped now (freed now r)).0 s).0 refl in
            subst (λ (d : Drained). IsAwake d.0)
              (sym (a ∙ drain-eq-looped less now (freed now r) refl)) awake
      ]
