-- ===== src/RateLimit/State.antt =====
-- The record of a key in src/plugins/rateLimitPlugin.ts and what the plugin does to it. The queue is
-- the list that the record's linked queue stands for, oldest first; the timer is the time at which
-- it fires. Time is an argument, in whole milliseconds; the clock stands still during a call.
use request.Base.{
  ℕ, zero, suc, ◌+◌, ◌-◌, ◌*◌, Bool, true, false, not, ◌&&◌, ◌||◌, List, [], ◌∷◌, ◌++◌, Option,
  none, some, length, ltb, leb, ◌==◌, if◌then◌else◌, Number, min, max_timer_delay,
}
use request.Limits.{
  Timeout, millis, forever, normalize_positive_integer, normalize_non_negative_integer,
  normalize_duration, normalize_positive_duration,
}

-- RateLimitPluginOptions without its callback.
pub record PluginOptions : Type 0 where
  pub max_requests : Option Number
  pub interval : Option Number
  pub max_queue : Option Number
  pub queue_timeout : Option Number
  pub max_keys : Option Number
  pub shared_retry_after : Option Bool
  pub max_retry_after : Option Number

pub record Options : Type 0 where
  pub max_requests : ℕ
  pub interval : ℕ
  pub max_queue : ℕ
  pub queue_timeout : Timeout
  pub max_keys : ℕ
  pub shared_retry_after : Bool
  pub max_retry_after : ℕ

abbrev pub or_else {ℓ} : {A : Type ℓ} → Option A → A → A
or_else none d = d
or_else (some a) d = a

unfoldable pub normalize_options : PluginOptions → Options
normalize_options o = record {
  max_requests = normalize_positive_integer o.max_requests 10;
  interval = normalize_positive_duration o.interval 1000;
  max_queue = normalize_non_negative_integer o.max_queue 1000;
  queue_timeout = normalize_duration o.queue_timeout (millis 30000);
  max_keys = normalize_positive_integer o.max_keys 1000;
  shared_retry_after = or_else o.shared_retry_after true;
  max_retry_after = normalize_positive_duration o.max_retry_after 60000;
}

pub record QueueEntry : Type 0 where
  pub owner : ℕ
  pub context : ℕ

pub record RateLimitRecord : Type 0 where
  pub timestamps : List ℕ
  pub timestamp_head : ℕ
  pub queue : List QueueEntry
  pub timer : Option ℕ
  pub cooldown_until : Option ℕ

-- The record that `getRecord` makes.
abbrev pub new_record : RateLimitRecord
new_record = record {
  timestamps = [];
  timestamp_head = 0;
  queue = [];
  timer = none;
  cooldown_until = none;
}

-- `slice(n)`, and the element at an index, for the list of timestamps.
abbrev pub drop {ℓ} : {A : Type ℓ} → ℕ → List A → List A
drop zero xs = xs
drop (suc n) [] = []
drop (suc n) (x ∷ xs) = drop n xs

-- The `while` of `pruneTimestamps`, over the timestamps from the head on: how many have left the
-- rolling interval, `timestamp <= now - interval`.
unfoldable pub expired_count : ℕ → ℕ → List ℕ → ℕ
expired_count now interval [] = 0
expired_count now interval (t ∷ ts) =
    if leb (t + interval) now then suc (expired_count now interval ts) else 0

-- The compaction at the end of `pruneTimestamps`.
abbrev pub compact : RateLimitRecord → RateLimitRecord
compact r =
    if leb 1024 r.timestamp_head && leb (length r.timestamps) (r.timestamp_head * 2)
    then record r { timestamps = drop r.timestamp_head r.timestamps; timestamp_head = 0 }
    else r

unfoldable pub prune_timestamps : ℕ → ℕ → RateLimitRecord → RateLimitRecord
prune_timestamps now interval r =
    let past = expired_count now interval (drop r.timestamp_head r.timestamps) in
    compact (record r { timestamp_head = r.timestamp_head + past })

abbrev pub active_count : RateLimitRecord → ℕ
active_count r = length r.timestamps - r.timestamp_head

abbrev pub first_or : List ℕ → ℕ → ℕ
first_or [] d = d
first_or (t ∷ ts) d = t

-- `(record.cooldownUntil ?? 0) <= now`
abbrev pub is_cool : Option ℕ → ℕ → Bool
is_cool none now = true
is_cool (some u) now = leb u now

abbrev pub push_timestamp : ℕ → RateLimitRecord → RateLimitRecord
push_timestamp now r = record r { timestamps = r.timestamps ++ now ∷ [] }

abbrev pub is_empty {ℓ} : {A : Type ℓ} → List A → Bool
is_empty [] = true
is_empty (x ∷ xs) = false

abbrev pub has_timer : Option ℕ → Bool
has_timer none = false
has_timer (some t) = true

-- `removeQueuedEntry` has left the queue `q`; a timer does not outlive the last entry.
abbrev pub dequeued : List QueueEntry → RateLimitRecord → RateLimitRecord
dequeued q r = record r { queue = q; timer = if is_empty q then none else r.timer }

-- The `while` of `drain`, with the queue of the record: the record, and the entries let through.
unfoldable pub drain_queue :
    ℕ → ℕ → List QueueEntry → RateLimitRecord → RateLimitRecord × List QueueEntry
drain_queue limit now [] r = (r, [])
drain_queue limit now (e ∷ q) r =
    let rest = drain_queue limit now q (push_timestamp now (dequeued q r)) in
    if ltb (active_count r) limit then (rest.0, e ∷ rest.1) else (r, [])

-- A timer for the time `until`, cut at the longest delay.
abbrev pub timer_for : ℕ → ℕ → Option ℕ
timer_for now until = some (now + min (until - now) max_timer_delay)

-- A time of the cooldown that lies ahead.
abbrev pub ahead : Option ℕ → ℕ → Option ℕ
ahead none now = none
ahead (some u) now = if leb u now then none else some u

abbrev pub Drained : Type 0
Drained = RateLimitRecord × List QueueEntry

-- `drain`, which ends in the call `again` of `schedule`; `live` says that the record is still in the
-- map of an installation that is not torn down.
unfoldable pub drain : (RateLimitRecord → Drained) → Options → Bool → ℕ → RateLimitRecord → Drained
drain again o live now r =
    let p = prune_timestamps now o.interval r in
    let free = record p { cooldown_until = none } in
    let freed = drain_queue o.max_requests now free.queue free in
    let last = again freed.0 in
    let all : Drained = (last.0, freed.1 ++ last.1) in
    let cooling = again p in
    if live then elim (ahead p.cooldown_until now) [ some u ↦ cooling | none ↦ all ] else (r, [])

-- The body of `schedule`, with the `schedule` that a `drain` ends in.
unfoldable pub schedule_once :
    (RateLimitRecord → Drained) → Options → Bool → ℕ → RateLimitRecord → Drained
schedule_once again o live now r =
    let p = prune_timestamps now o.interval r in
    let free = record p { cooldown_until = none } in
    let go = drain again o live now free in
    let reset = first_or (drop free.timestamp_head free.timestamps) now + o.interval in
    let full : Drained = (record free { timer = timer_for now reset }, []) in
    if not live || is_empty r.queue || has_timer r.timer
    then (r, [])
    else elim (ahead p.cooldown_until now) [
      | some u ↦ (record p { timer = timer_for now u }, [])
      | none ↦ if ltb (active_count free) o.max_requests then go else full
    ]

-- `schedule`, which may call `drain`. Fuel bounds how often the two call one another; `drain` leaves
-- nothing to do for the `schedule` that it ends in but to set a timer, so 2 is enough.
unfoldable pub schedule : ℕ → Options → Bool → ℕ → RateLimitRecord → Drained
schedule zero o live now r = (r, [])
schedule (suc fuel) o live now r = schedule_once (λ q. schedule fuel o live now q) o live now r

-- What the `onTransport` hook does with an attempt.
pub data Refusal : Type 0 where
  aborted queue_full wait_timed_out : Refusal

pub data Answer : Type 0 where
  admitted queued : Answer
  refused : Refusal → Answer

abbrev pub is_expired : Timeout → Bool
is_expired (millis t) = t == 0
is_expired forever = false

-- The `onTransport` hook for the record of the key, `enqueue` and its `onQueued` included. `live` is
-- `active` of the installation whose hook it is, which may run behind its teardown.
unfoldable pub on_transport :
    Options → Bool → QueueEntry → Bool → Timeout → ℕ → RateLimitRecord → Answer × Drained
on_transport o live e signal_aborted timeout now r =
    let p = prune_timestamps now o.interval r in
    let waiting = schedule 2 o live now (record p { queue = p.queue ++ e ∷ [] }) in
    if is_empty p.queue && is_cool p.cooldown_until now && ltb (active_count p) o.max_requests
    then (admitted, (push_timestamp now p, []))
    else if signal_aborted
    then (refused aborted, (p, []))
    else if leb o.max_queue (length p.queue)
    then (refused queue_full, (p, []))
    else if is_expired timeout
    then (refused wait_timed_out, (p, []))
    else (queued, waiting)

-- The timer of the record fires. Only a live installation sets one, and passes on that it is.
unfoldable pub on_timer : Options → ℕ → RateLimitRecord → Drained
on_timer o now r = drain (schedule 2 o true now) o true now (record r { timer = none })

-- `observeRetryAfter` for a 429 response with a Retry-After delay.
unfoldable pub observe_retry_after : Options → Bool → ℕ → ℕ → RateLimitRecord → Drained
observe_retry_after o live delay now r =
    let until = now + min delay o.max_retry_after in
    let cooled = schedule 2 o live now (record r { cooldown_until = some until; timer = none }) in
    if o.shared_retry_after && not (leb until (or_else r.cooldown_until 0)) then cooled else (r, [])

abbrev pub waits : QueueEntry → QueueEntry → Bool
waits e x = x.owner == e.owner && x.context == e.context

unfoldable pub remove_entry : QueueEntry → List QueueEntry → List QueueEntry
remove_entry e [] = []
remove_entry e (x ∷ q) = if waits e x then q else x ∷ remove_entry e q

unfoldable pub is_waiting : QueueEntry → List QueueEntry → Bool
is_waiting e [] = false
is_waiting e (x ∷ q) = waits e x || is_waiting e q

-- A queued entry times out, or its signal is aborted.
unfoldable pub give_up : QueueEntry → RateLimitRecord → RateLimitRecord
give_up e r = if is_waiting e r.queue then dequeued (remove_entry e r.queue) r else r
