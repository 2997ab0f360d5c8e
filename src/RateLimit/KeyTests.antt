-- ===== src/RateLimit/KeyTests.antt =====
-- Runs of src/plugins/rateLimitPlugin.ts over several keys.
use request.Base.{
  ℕ, ◌≡◌, refl, true, false, ◌&&◌, List, [], ◌∷◌, none, some, arith, finite, length, ltb, ◌==◌,
}
use request.Base.Dict.{get, set}
use request.Limits.{
  forever, normalize_positive_integer, normalize_non_negative_integer, normalize_duration,
  normalize_positive_duration,
}
use request.RateLimit.State.{
  Options, PluginOptions, normalize_options, QueueEntry, schedule, schedule_once, drain,
  drain_queue, on_transport, on_timer, prune_timestamps, expired_count,
}
use request.RateLimit.Window.{IsSpaced}
use request.RateLimit.Table.{
  trim_records, get_record, get_state, transport, fire, no_limiter, without_owner, remove_owner,
  teardown,
}
use request.RateLimit.Keys.{
  KeyedCall, transports, timer_fires, installs, tears_down, KeyedTrace, keyed_step, keyed_run,
  keyed_initial, KeyedInOrder,
}
use request.RateLimit.Rolling.{keyed_run_rolling_limit}
use request.RateLimit.States.{is_admitted, transport-get_state}

-- One request in a second, and one key.
abbrev one_key : PluginOptions
one_key = record {
  max_requests = some (finite 1 0);
  interval = none;
  max_queue = none;
  queue_timeout = none;
  max_keys = some (finite 1 0);
  shared_retry_after = none;
  max_retry_after = none;
}

abbrev owned : ℕ → ℕ → QueueEntry
owned owner n = record { owner = owner; context = n }

-- The record of `a` is evicted for `b` when its window is empty; the second request of `b` waits.
abbrev two_keys : List (ℕ × KeyedCall)
two_keys =
    (0, installs)
    ∷ (10, transports true "a" (owned 0 1) false forever)
    ∷ (1500, transports true "b" (owned 0 2) false forever)
    ∷ (1600, transports true "b" (owned 0 3) false forever)
    ∷ (2500, timer_fires "b")
    ∷ (2600, transports true "a" (owned 0 4) false forever)
    ∷ []

two_keys-InOrder : KeyedInOrder 0 two_keys
two_keys-InOrder =
    (omega arith, (omega arith, (omega arith, (omega arith, (omega arith, (omega arith, tt))))))

abbrev last_trace : KeyedTrace
last_trace = keyed_run (normalize_options one_key) keyed_initial two_keys

two_keys_histories :
    ((last_trace.history "a" ≡ 2600 ∷ 10 ∷ []) × (last_trace.history "b" ≡ 2500 ∷ 1500 ∷ []))
    × (length last_trace.limiter.records ≡ 2)
unfolding keyed_run keyed_step transport fire get_record trim_records get set on_transport on_timer
    drain drain_queue schedule schedule_once prune_timestamps expired_count normalize_options
    normalize_positive_integer normalize_non_negative_integer normalize_duration
    normalize_positive_duration
two_keys_histories = ((refl, refl), refl)

removed_records :
    (keyed_run (normalize_options one_key) last_trace ((2700, tears_down 0) ∷ [])).limiter
    ≡ no_limiter
unfolding keyed_run keyed_step transport fire get_record trim_records get set on_transport on_timer
    drain drain_queue schedule schedule_once prune_timestamps expired_count normalize_options
    normalize_positive_integer normalize_non_negative_integer normalize_duration
    normalize_positive_duration teardown remove_owner without_owner
removed_records = refl

keyed_run_rolling_limit_example :
    let o = normalize_options one_key in
    let t = keyed_run o keyed_initial two_keys in IsSpaced o.max_requests o.interval (t.history "b")
keyed_run_rolling_limit_example = keyed_run_rolling_limit one_key two_keys "b" two_keys-InOrder

abbrev strict : Options
strict = record {
  max_requests = 1;
  interval = 100;
  max_queue = 10;
  queue_timeout = forever;
  max_keys = 5;
  shared_retry_after = true;
  max_retry_after = 1000;
}

transport-get_state_example :
    let s = (get_state strict "a" 7 no_limiter).0 in
    is_admitted (transport strict true "a" (owned 0 1) false forever 7 no_limiter).0
    ≡ (s.queued == 0 && ltb 0 s.remaining)
transport-get_state_example =
    transport-get_state strict (omega arith) true "a" (owned 0 1) false forever 7 no_limiter
