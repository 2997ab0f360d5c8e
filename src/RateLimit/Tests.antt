-- ===== src/RateLimit/Tests.antt =====
-- Runs of a record of src/plugins/rateLimitPlugin.ts on concrete histories.
use request.Base.{ℕ, ◌≡◌, refl, true, false, List, [], ◌∷◌, none, some, arith, finite}
use request.Limits.{
  forever, normalize_positive_integer, normalize_non_negative_integer, normalize_duration,
  normalize_positive_duration,
}
use request.RateLimit.State.{
  Options, PluginOptions, normalize_options, QueueEntry, RateLimitRecord, new_record, schedule,
  schedule_once, drain, drain_queue, on_transport, on_timer, prune_timestamps, expired_count,
}
use request.RateLimit.Wakeups.{IsAwake, schedule-IsAwake}
use request.RateLimit.Histories.{Call, attempts, fires, step, run, initial, InOrder}

-- Two requests in a second.
abbrev two_per_second : PluginOptions
two_per_second = record {
  max_requests = some (finite 2 0);
  interval = none;
  max_queue = none;
  queue_timeout = none;
  max_keys = none;
  shared_retry_after = none;
  max_retry_after = none;
}

abbrev entry : ℕ → QueueEntry
entry n = record { owner = 0; context = n }

abbrev burst : List (ℕ × Call)
burst =
    (10, attempts true (entry 1) false forever)
    ∷ (20, attempts true (entry 2) false forever)
    ∷ (30, attempts true (entry 3) false forever)
    ∷ (1010, fires)
    ∷ []

burst-InOrder : InOrder 0 burst
burst-InOrder = (omega arith, (omega arith, (omega arith, (omega arith, tt))))

-- The third request waits until the first is a second old.
burst_history : (run (normalize_options two_per_second) initial burst).history ≡ 1010 ∷ 20 ∷ 10 ∷ []
unfolding run step on_transport on_timer drain drain_queue schedule schedule_once prune_timestamps
    expired_count normalize_options normalize_positive_integer normalize_non_negative_integer
    normalize_duration normalize_positive_duration
burst_history = refl

abbrev strict : Options
strict = record {
  max_requests = 1;
  interval = 100;
  max_queue = 10;
  queue_timeout = forever;
  max_keys = 5;
  shared_retry_after = true;
  max_retry_after = 1000;
}

-- One admission in the window, two requests that wait.
abbrev crowded : RateLimitRecord
crowded = record new_record { timestamps = 50 ∷ []; queue = entry 1 ∷ entry 2 ∷ [] }

schedule-IsAwake_example : IsAwake (schedule 2 strict true 200 crowded).0
schedule-IsAwake_example = schedule-IsAwake strict (omega arith) 200 crowded (omega arith)
