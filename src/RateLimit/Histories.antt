-- ===== src/RateLimit/Histories.antt =====
-- A record of src/plugins/rateLimitPlugin.ts over any sequence of calls in the order of time.
use request.Base.{
  ℕ, suc, ◌+◌, ◌≤◌, refl, inl, inr, Bool, true, not, ◌&&◌, List, [], ◌∷◌, ◌++◌, none, some, arith,
  length, min, if_elim, ltb, leb, Bool-cases,
}
use request.Limits.{Timeout}
use request.RateLimit.State.{
  Options, PluginOptions, normalize_options, RateLimitRecord, new_record, QueueEntry, Drained,
  schedule, on_transport, on_timer, observe_retry_after, give_up, prune_timestamps, active_count,
  dequeued, remove_entry, is_waiting, is_empty, is_cool, is_expired, Answer, admitted, or_else,
}
use request.RateLimit.Window.{
  IsWindow, IsSpaced, admit_times, later_IsWindow, prune-IsWindow, push-IsWindow,
}
use request.RateLimit.Steps.{same_IsWindow, schedule-IsWindow, drain-IsWindow}

-- The calls that reach a record.
pub data Call : Type 0 where
  attempts : Bool → QueueEntry → Bool → Timeout → Call
  fires : Call
  observes : Bool → ℕ → Call
  gives_up : QueueEntry → Call

abbrev pub admissions_of : Answer × Drained → ℕ
admissions_of (admitted, (r, out)) = suc (length out)
admissions_of (_, (r, out)) = length out

-- A record and the times of all admissions so far, newest first.
pub record Traced : Type 0 where
  pub rate : RateLimitRecord
  pub history : List ℕ

abbrev pub traced : ℕ → Traced → ℕ → RateLimitRecord → Traced
traced now t n r = record { rate = r; history = admit_times n now t.history }

unfoldable pub step : Options → Traced → ℕ × Call → Traced
step o t (now, attempts live e signal_aborted timeout) =
    let done = on_transport o live e signal_aborted timeout now t.rate in
    traced now t (admissions_of done) done.1.0
step o t (now, fires) = let done = on_timer o now t.rate in traced now t (length done.1) done.0
step o t (now, observes live delay) =
    let done = observe_retry_after o live delay now t.rate in traced now t (length done.1) done.0
step o t (now, gives_up e) = traced now t 0 (give_up e t.rate)

unfoldable pub run : Options → Traced → List (ℕ × Call) → Traced
run o t [] = t
run o t (c ∷ cs) = run o (step o t c) cs

abbrev pub initial : Traced
initial = record { rate = new_record; history = [] }

-- The calls come in the order of time, from `now` on.
abbrev pub InOrder : ℕ → List (ℕ × Call) → Type 0
InOrder now [] = Unit
InOrder now ((t, c) ∷ cs) = (now ≤ t) × InOrder t cs

pub record Inv (o : Options) (now : ℕ) (t : Traced) : Type 0 where
  pub rolling : IsWindow o now t.rate t.history

module _ (o : Options) where
  scheduled_Inv :
      (live : Bool) (now : ℕ) (t : Traced) (r : RateLimitRecord)
      → IsWindow o now r t.history
      → let d = schedule 2 o live now r in Inv o now (traced now t (length d.1) d.0)
  scheduled_Inv live now t r w = record { rolling = schedule-IsWindow o 2 live now r t.history w }

  attempt_Inv :
      (live : Bool) (e : QueueEntry) (stopped : Bool) (timeout : Timeout) (now : ℕ) (t : Traced)
      → Inv o now t
      → Inv o now (step o t (now, attempts live e stopped timeout))
  unfolding step on_transport
  attempt_Inv live e stopped timeout now t i =
      let p = prune_timestamps now o.interval t.rate in
      let w = prune-IsWindow o now t.rate t.history i.rolling in
      let queueing = record p { queue = p.queue ++ e ∷ [] } in
      elim (Bool-cases
        (is_empty p.queue && is_cool p.cooldown_until now && ltb (active_count p) o.max_requests)) [
          | inl free ↦
              rw (free, on_transport)
                (record { rolling = push-IsWindow o now p t.history w (ground arith) })
          | inr busy ↦ elim (Bool-cases stopped) [
            | inl gone ↦ rw (busy, on_transport, gone) (record { rolling = w })
            | inr going ↦ elim (Bool-cases (leb o.max_queue (length p.queue))) [
              | inl crowded ↦ rw (busy, on_transport, going, crowded) (record { rolling = w })
              | inr room ↦ elim (Bool-cases (is_expired timeout)) [
                | inl late ↦ rw (busy, on_transport, going, room, late) (record { rolling = w })
                | inr waits ↦
                    rw (busy, on_transport, going, room, waits)
                      (scheduled_Inv live now t queueing
                        (same_IsWindow o now p queueing t.history (refl, refl) w))
              ]
            ]
          ]
        ]

  timer_Inv : (now : ℕ) (t : Traced) → Inv o now t → Inv o now (step o t (now, fires))
  unfolding step on_timer
  timer_Inv now t i =
      let r = record (t.rate) { timer = none } in
      let w = same_IsWindow o now t.rate r t.history (refl, refl) i.rolling in
      record {
        rolling =
            drain-IsWindow o (λ q. schedule 2 o true now q) true now r t.history
              (λ q h x. schedule-IsWindow o 2 true now q h x) w;
      }

  observe_Inv :
      (live : Bool) (delay now : ℕ) (t : Traced)
      → Inv o now t
      → Inv o now (step o t (now, observes live delay))
  unfolding step observe_retry_after
  observe_Inv live delay now t i =
      let until = now + min delay o.max_retry_after in
      let r = record (t.rate) { cooldown_until = some until; timer = none } in
      if_elim (λ (d : Drained). Inv o now (traced now t (length d.1) d.0))
        (o.shared_retry_after && not (leb until (or_else t.rate.cooldown_until 0)))
        (schedule 2 o live now r) (t.rate, [])
        (scheduled_Inv live now t r (same_IsWindow o now t.rate r t.history (refl, refl) i.rolling))
        (record { rolling = i.rolling })

  give_up_Inv :
      (e : QueueEntry) (now : ℕ) (t : Traced) → Inv o now t → Inv o now (step o t (now, gives_up e))
  unfolding step give_up
  give_up_Inv e now t i =
      let r = dequeued (remove_entry e t.rate.queue) t.rate in
      if_elim (λ (q : RateLimitRecord). Inv o now (traced now t 0 q)) (is_waiting e t.rate.queue) r
        t.rate (record { rolling = same_IsWindow o now t.rate r t.history (refl, refl) i.rolling })
        (record { rolling = i.rolling })

  pub step-Inv : (now : ℕ) (t : Traced) (c : Call) → Inv o now t → Inv o now (step o t (now, c))
  step-Inv now t (attempts live e stopped timeout) i = attempt_Inv live e stopped timeout now t i
  step-Inv now t fires i = timer_Inv now t i
  step-Inv now t (observes live delay) i = observe_Inv live delay now t i
  step-Inv now t (gives_up e) i = give_up_Inv e now t i

  run_from-Inv :
      (now : ℕ) (t : Traced) (cs : List (ℕ × Call))
      → InOrder now cs
      → Inv o now t
      → (last : ℕ) × Inv o last (run o t cs)
  unfolding run
  run_from-Inv now t [] h i = (now, i)
  run_from-Inv now t ((later, c) ∷ cs) (le, h) i = run_from-Inv later (step o t (later, c)) cs h (
      step-Inv later t c
        (record { rolling = later_IsWindow o now later t.rate t.history le i.rolling }))

pub initial-Inv : (o : Options) → Inv o 0 initial
initial-Inv o = record {
  rolling = record { old = []; split = refl; past = tt; spaced = tt; head = omega arith };
}

-- Of a key's admissions over any history in the order of time, listed newest first, one that stands
-- `maxRequests` places behind another is at least `interval` older: no rolling interval admits more
-- than `maxRequests`.
run_rolling_limit :
    (p : PluginOptions) (cs : List (ℕ × Call))
    → InOrder 0 cs
    → let o = normalize_options p in
      let t = run o initial cs in IsSpaced o.max_requests o.interval t.history
unfolding normalize_options
run_rolling_limit p cs h =
    let o = normalize_options p in
    let (last, i) = run_from-Inv o 0 initial cs h (initial-Inv o) in i.rolling.spaced
