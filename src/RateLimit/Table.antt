-- ===== src/RateLimit/Table.antt =====
-- The plugin of src/plugins/rateLimitPlugin.ts over all its keys. A record is reached through the map
-- alone: one that leaves it has no queue and no timer.
use request.Base.{
  ℕ, ◌+◌, ◌-◌, Bool, ◌&&◌, List, [], ◌∷◌, Option, none, some, String, length, leb, ◌==◌, max,
  if◌then◌else◌,
}
use request.Base.Dict.{Dict, get, set}
use request.Limits.{Timeout}
use request.RateLimit.State.{
  Options, RateLimitRecord, new_record, QueueEntry, prune_timestamps, active_count, first_or, drop,
  is_empty, is_cool, ahead, dequeued, on_transport, on_timer, observe_retry_after, give_up, Answer,
}

pub record Limiter : Type 0 where
  pub records : Dict RateLimitRecord
  pub installations : ℕ

abbrev pub no_limiter : Limiter
no_limiter = record { records = []; installations = 0 }

abbrev pub is_idle : ℕ → RateLimitRecord → Bool
is_idle now r = is_empty r.queue && active_count r == 0 && is_cool r.cooldown_until now

-- `size` is the size of the map while the loop stands at `m`.
unfoldable pub trim_records : ℕ → ℕ → ℕ → ℕ → Dict RateLimitRecord → Dict RateLimitRecord
trim_records limit now interval size [] = []
trim_records limit now interval size ((k, r) ∷ m) =
    let p = prune_timestamps now interval r in
    let fewer = trim_records limit now interval (size - 1) m in
    let others = trim_records limit now interval size m in
    if leb size limit then (k, r) ∷ m else if is_idle now p then fewer else (k, p) ∷ others

-- The record of the key, and the map that holds it.
unfoldable pub get_record :
    Options → String → ℕ → Dict RateLimitRecord → RateLimitRecord × Dict RateLimitRecord
get_record o key now m = elim (get key m) [
  | some r ↦ (r, m)
  | none ↦
      (new_record, set key new_record (trim_records (o.max_keys - 1) now o.interval (length m) m))
]

pub record RateLimitState : Type 0 where
  pub remaining : ℕ
  pub queued : ℕ
  pub reset_at : Option ℕ
  pub cooldown_until : Option ℕ

abbrev later_of : Option ℕ → Option ℕ → Option ℕ
later_of none none = none
later_of (some a) none = some a
later_of none (some b) = some b
later_of (some a) (some b) = some (max a b)

abbrev window_end : Options → ℕ → RateLimitRecord → Option ℕ
window_end o now r =
    if active_count r == 0
    then none
    else some (first_or (drop r.timestamp_head r.timestamps) now + o.interval)

-- `createState`; it forgets a cooldown that is over.
unfoldable pub create_state : Options → ℕ → RateLimitRecord → RateLimitState × RateLimitRecord
create_state o now r =
    let cooling = ahead r.cooldown_until now in
    (
      record {
        remaining = elim cooling [ some u ↦ 0 | none ↦ o.max_requests - active_count r ];
        queued = length r.queue;
        reset_at = later_of (window_end o now r) cooling;
        cooldown_until = cooling;
      },
      record r { cooldown_until = cooling },
    )

unfoldable pub get_state : Options → String → ℕ → Limiter → RateLimitState × Limiter
get_state o key now l = elim (get key l.records) [
  | none ↦
      (record { remaining = o.max_requests; queued = 0; reset_at = none; cooldown_until = none }, l)
  | some r ↦
      let seen = create_state o now (prune_timestamps now o.interval r) in
      (seen.0, record l { records = set key seen.1 l.records })
]

abbrev pub put : String → RateLimitRecord → Dict RateLimitRecord → Limiter → Limiter
put key r m l = record l { records = set key r m }

-- The `onTransport` hook, of a request that the plugin applies to.
unfoldable pub transport :
    Options
    → Bool
    → String
    → QueueEntry
    → Bool
    → Timeout
    → ℕ
    → Limiter
    → Answer × Limiter × List QueueEntry
transport o live key e signal_aborted timeout now l =
    let (r, m) = get_record o key now l.records in
    let (answer, (s, woken)) = on_transport o live e signal_aborted timeout now r in
    (answer, put key s m l, woken)

-- `observeRetryAfter`, of a 429 response with a delay.
unfoldable pub observe : Options → Bool → String → ℕ → ℕ → Limiter → Limiter × List QueueEntry
observe o live key delay now l =
    let (r, m) = get_record o key now l.records in
    let (s, woken) = observe_retry_after o live delay now r in
    if o.shared_retry_after then (put key s m l, woken) else (l, [])

-- The timer of a key's record fires.
unfoldable pub fire : Options → String → ℕ → Limiter → Limiter × List QueueEntry
fire o key now l = elim (get key l.records) [
  | none ↦ (l, [])
  | some r ↦ let (s, woken) = on_timer o now r in (put key s l.records l, woken)
]

-- A queued entry times out, or its signal is aborted.
unfoldable pub leave : String → QueueEntry → Limiter → Limiter
leave key e l = elim (get key l.records) [ none ↦ l | some r ↦ put key (give_up e r) l.records l ]

abbrev pub install : Limiter → Limiter
install l = record l { installations = l.installations + 1 }

unfoldable pub without_owner : ℕ → List QueueEntry → List QueueEntry
without_owner owner [] = []
without_owner owner (e ∷ q) =
    let rest = without_owner owner q in if e.owner == owner then rest else e ∷ rest

unfoldable pub remove_owner : ℕ → Dict RateLimitRecord → Dict RateLimitRecord
remove_owner owner [] = []
remove_owner owner ((k, r) ∷ m) =
    (k, dequeued (without_owner owner r.queue) r) ∷ remove_owner owner m

unfoldable pub teardown : ℕ → Limiter → Limiter
teardown owner l =
    let left = l.installations - 1 in
    record {
      records = if left == 0 then [] else remove_owner owner l.records;
      installations = left;
    }
