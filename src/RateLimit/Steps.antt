-- ===== src/RateLimit/Steps.antt =====
-- Every step of a record in src/plugins/rateLimitPlugin.ts keeps its rolling window.
use request.Base.{
  ℕ, zero, suc, ◌+◌, ◌≡◌, refl, ap, subst, sym, ◌∙◌, inl, inr, Bool, true, false, not, ◌||◌, List,
  [], ◌∷◌, none, arith, length, length-append, if_elim, ltb, Bool-cases, Option-cases,
}
use request.RateLimit.State.{
  Options, RateLimitRecord, QueueEntry, Drained, drain_queue, drain, schedule_once, schedule,
  prune_timestamps, active_count, push_timestamp, dequeued, is_empty, has_timer, ahead,
}
use request.RateLimit.Window.{IsWindow, admit_times, prune-IsWindow, push-IsWindow}

module _ (o : Options) where
  -- A change of what is no timestamp.
  abbrev pub SameWindow : RateLimitRecord → RateLimitRecord → Type 0
  SameWindow r q = (q.timestamps ≡ r.timestamps) × (q.timestamp_head ≡ r.timestamp_head)

  pub same_IsWindow :
      (now : ℕ) (r q : RateLimitRecord) (history : List ℕ)
      → SameWindow r q
      → IsWindow o now r history
      → IsWindow o now q history
  same_IsWindow now r q history (t, h) w = record {
    old = w.old;
    split = ground (arith, w.split);
    past = w.past;
    spaced = w.spaced;
    head = ground (arith, w.head);
  }

  admit_times_shift :
      (n now : ℕ) (history : List ℕ)
      → admit_times n now (now ∷ history) ≡ now ∷ admit_times n now history
  admit_times_shift zero now history = refl
  admit_times_shift (suc n) now history = admit_times_shift n now (now ∷ history)

  zero_plus : (m : ℕ) → m ≡ zero + m
  zero_plus m = omega arith

  suc_plus : (n m : ℕ) → suc (n + m) ≡ suc n + m
  suc_plus n m = omega arith

  admit_times_add :
      (n m now : ℕ) (history : List ℕ)
      → admit_times m now (admit_times n now history) ≡ admit_times (n + m) now history
  admit_times_add zero m now history = ap (λ (k : ℕ). admit_times k now history) (zero_plus m)
  admit_times_add (suc n) m now history =
      let more : admit_times (n + m) now (now ∷ history) ≡ admit_times (suc n + m) now history =
        ap (λ (k : ℕ). admit_times k now history) (suc_plus n m) in
      admit_times_add n m now (now ∷ history) ∙ more

  -- The loop of `drain` admits at most what the window has room for.
  drain_queue-IsWindow :
      (now : ℕ) (q : List QueueEntry) (r : RateLimitRecord) (history : List ℕ)
      → IsWindow o now r history
      → let (r', out) = drain_queue o.max_requests now q r in
        IsWindow o now r' (admit_times (length out) now history)
  unfolding drain_queue
  drain_queue-IsWindow now [] r history w = w
  drain_queue-IsWindow now (e ∷ q) r history w =
      elim (Bool-cases (ltb (active_count r) o.max_requests)) [
        | inr full ↦ rw full w
        | inl room ↦ rw room (
            drain_queue-IsWindow now q (push_timestamp now (dequeued q r)) (now ∷ history) (
              push-IsWindow o now (dequeued q r) history
                (same_IsWindow now r (dequeued q r) history (refl, refl) w) (ground arith)))
      ]

  -- What a step leaves: the window, for the history with what it let through.
  abbrev pub Keeps : ℕ → List ℕ → Drained → Type 0
  Keeps now history d = IsWindow o now d.0 (admit_times (length d.1) now history)

  pub drain-IsWindow :
      (again : RateLimitRecord → Drained) (live : Bool) (now : ℕ) (r : RateLimitRecord)
      (history : List ℕ)
      → ((q : RateLimitRecord) (h : List ℕ) → IsWindow o now q h → Keeps now h (again q))
      → IsWindow o now r history
      → Keeps now history (drain again o live now r)
  unfolding drain
  drain-IsWindow again false now r history keep w = w
  drain-IsWindow again true now r history keep w =
      let p = prune_timestamps now o.interval r in
      let pruned = prune-IsWindow o now r history w in
      let free = record p { cooldown_until = none } in
      let freed = drain_queue o.max_requests now free.queue free in
      elim (Option-cases (ahead p.cooldown_until now)) [
        | inr (u, cooling) ↦ rw (cooling, drain) (keep p history pruned)
        | inl cool ↦
            rw (cool, drain)
              (subst (λ h. IsWindow o now (again freed.0).0 h)
                (admit_times_add (length freed.1) (length (again freed.0).1) now history
                  ∙ ap (λ (k : ℕ). admit_times k now history)
                      (sym (length-append freed.1 (again freed.0).1)))
                (keep freed.0 (admit_times (length freed.1) now history) (
                  drain_queue-IsWindow now free.queue free history
                    (same_IsWindow now p free history (refl, refl) pruned))))
      ]

  schedule_once-IsWindow :
      (again : RateLimitRecord → Drained) (live : Bool) (now : ℕ) (r : RateLimitRecord)
      (history : List ℕ)
      → ((q : RateLimitRecord) (h : List ℕ) → IsWindow o now q h → Keeps now h (again q))
      → IsWindow o now r history
      → Keeps now history (schedule_once again o live now r)
  unfolding schedule_once
  schedule_once-IsWindow again live now r history keep w =
      let p = prune_timestamps now o.interval r in
      let free = record p { cooldown_until = none } in
      let pruned = prune-IsWindow o now r history w in
      let cool_window = same_IsWindow now p free history (refl, refl) pruned in
      if_elim (Keeps now history) (not live || is_empty r.queue || has_timer r.timer) _ _ w
        (elim (Option-cases (ahead p.cooldown_until now)) [
          | inr (u, cooling) ↦
              rw (cooling, schedule_once) (same_IsWindow now p _ history (refl, refl) pruned)
          | inl cool ↦
              rw (cool, schedule_once)
                (if_elim (Keeps now history) (ltb (active_count free) o.max_requests) _ _
                  (drain-IsWindow again live now free history keep cool_window)
                  (same_IsWindow now free _ history (refl, refl) cool_window))
        ])

  pub schedule-IsWindow :
      (fuel : ℕ) (live : Bool) (now : ℕ) (r : RateLimitRecord) (history : List ℕ)
      → IsWindow o now r history
      → Keeps now history (schedule fuel o live now r)
  unfolding schedule
  schedule-IsWindow zero live now r history w = w
  schedule-IsWindow (suc fuel) live now r history w =
      schedule_once-IsWindow (λ q. schedule fuel o live now q) live now r history
        (λ q h x. schedule-IsWindow fuel live now q h x) w
