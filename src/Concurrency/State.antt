-- ===== src/Concurrency/State.antt =====
-- The state and the hooks of src/plugins/concurrencyPlugin.ts. The queue of a record is the list that
-- its linked queue stands for, oldest first.
use request.Base.{
  ℕ, ◌+◌, ◌-◌, Bool, true, false, ◌&&◌, ◌||◌, List, [], ◌∷◌, ◌++◌, String, Option, none, some,
  update, length, ltb, leb, ◌==◌, if◌then◌else◌, Number,
}
use request.Base.Dict.{Dict, get, set, delete}
use request.Base.Sweep.{sweep}
use request.Limits.{
  Timeout, millis, forever, normalize_positive_integer, normalize_non_negative_integer,
  normalize_duration, normalize_key,
}

-- ConcurrencyPluginOptions without its callback.
pub record PluginOptions : Type 0 where
  pub max_concurrent : Option Number
  pub max_queue : Option Number
  pub queue_timeout : Option Number
  pub max_keys : Option Number

pub record Options : Type 0 where
  pub max_concurrent : ℕ
  pub max_queue : ℕ
  pub queue_timeout : Timeout
  pub max_keys : ℕ

unfoldable pub normalize_options : PluginOptions → Options
normalize_options o = record {
  max_concurrent = normalize_positive_integer o.max_concurrent 10;
  max_queue = normalize_non_negative_integer o.max_queue 1000;
  queue_timeout = normalize_duration o.queue_timeout (millis 30000);
  max_keys = normalize_positive_integer o.max_keys 1000;
}

-- A queued request: the installation and the request context that wait.
pub record QueueEntry : Type 0 where
  pub owner : ℕ
  pub context : ℕ

pub record ConcurrencyRecord : Type 0 where
  pub key : String
  pub active : ℕ
  pub queue : List QueueEntry

-- A permit that a request holds: `admissions` of the installation `owner` maps `context` to the
-- record, by reference.
pub record Admission : Type 0 where
  pub owner : ℕ
  pub context : ℕ
  pub record_ref : ℕ

-- Why a request is turned away.
pub data Refusal : Type 0 where
  aborted queue_full wait_timed_out plugin_removed : Refusal

-- How the promise of a queued request settles.
pub data Outcome : Type 0 where
  resolved : QueueEntry → Outcome
  rejected : QueueEntry → Refusal → Outcome

pub record Limiter : Type 0 where
  pub records : Dict ℕ
  pub cell : ℕ → ConcurrencyRecord
  pub fresh : ℕ
  pub admissions : List Admission
  pub installed : List ℕ
  pub next_owner : ℕ
  pub outcomes : List Outcome

abbrev pub new_record : String → ConcurrencyRecord
new_record key = record { key = key; active = 0; queue = [] }

abbrev pub initial : Limiter
initial = record {
  records = [];
  cell = λ _. new_record "";
  fresh = 0;
  admissions = [];
  installed = [];
  next_owner = 0;
  outcomes = [];
}

abbrev pub is_empty {ℓ} : {A : Type ℓ} → List A → Bool
is_empty [] = true
is_empty (x ∷ xs) = false

abbrev pub is_idle : (ℕ → ConcurrencyRecord) → ℕ → Bool
is_idle cell r = (cell r).active == 0 && is_empty (cell r).queue

unfoldable pub trim_records : (ℕ → ConcurrencyRecord) → Dict ℕ → ℕ → Dict ℕ
trim_records cell m limit = sweep (is_idle cell) limit (length m) m

unfoldable pub get_record : Options → String → Limiter → Limiter × ℕ
get_record o key l = elim (get key l.records) [
  | some r ↦ (l, r)
  | none ↦ (
    record l {
      records = set key l.fresh (trim_records l.cell l.records (o.max_keys - 1));
      cell = update l.cell l.fresh (new_record key);
      fresh = l.fresh + 1;
    },
    l.fresh,
  )
]

unfoldable pub touch_record : String → ℕ → Dict ℕ → Dict ℕ
touch_record key r m = set key r (delete key m)

abbrev pub settle_with : Limiter → ℕ → ConcurrencyRecord → Outcome → Limiter
settle_with l r v e = record l { cell = update l.cell r v; outcomes = e ∷ l.outcomes }

-- The end of `releaseAdmission`, when nobody waits.
abbrev pub let_go : Options → ℕ → Limiter → Limiter
let_go o r l =
    let v = record (l.cell r) { active = (l.cell r).active - 1 } in
    let cell = update l.cell r v in
    record l {
      cell = cell;
      records =
          if v.active == 0
          then trim_records cell (touch_record (l.cell r).key r l.records) o.max_keys
          else l.records;
    }

-- The entry `e` has left the queue, which is now `rest`: `next.resolve()` admits it.
abbrev pub hand_over : ℕ → QueueEntry → List QueueEntry → Limiter → Limiter
hand_over r e rest l = record (settle_with l r (record (l.cell r) { queue = rest }) (resolved e)) {
  admissions = record { owner = e.owner; context = e.context; record_ref = r } ∷ l.admissions;
}

abbrev pub release_to : Options → ℕ → List QueueEntry → Limiter → Limiter
release_to o r [] l = let_go o r l
release_to o r (e ∷ rest) l = hand_over r e rest l

-- `releaseAdmission`: the permit goes to the oldest waiter, or back.
unfoldable pub release_admission : Options → ℕ → Limiter → Limiter
release_admission o r l = release_to o r (l.cell r).queue l

-- What the `onRequest` hook does: nothing, admit, refuse, or let the request wait.
pub data Answer : Type 0 where
  skipped admitted queued : Answer
  refused : Refusal → Answer

abbrev pub is_expired : Timeout → Bool
is_expired (millis t) = t == 0
is_expired forever = false

abbrev pub enqueued : ℕ → QueueEntry → Limiter → Limiter
enqueued r e l = record l {
  cell = update l.cell r (record (l.cell r) { queue = (l.cell r).queue ++ e ∷ [] });
}

-- The `onRequest` hook for the record that was found, `enqueue` included.
unfoldable pub gate : Options → ℕ → ℕ → Bool → Timeout → Limiter → ℕ → Limiter × Answer
gate o owner context signal_aborted timeout l r =
    let v = l.cell r in
    if ltb v.active o.max_concurrent
    then (
      record l {
        cell = update l.cell r (record v { active = v.active + 1 });
        admissions = record { owner = owner; context = context; record_ref = r } ∷ l.admissions;
      },
      admitted,
    )
    else if signal_aborted
    then (l, refused aborted)
    else if leb o.max_queue (length v.queue)
    then (l, refused queue_full)
    else if is_expired timeout
    then (l, refused wait_timed_out)
    else (enqueued r (record { owner = owner; context = context }) l, queued)

-- What a request brings: whether the plugin is enabled for it, its key, its `queueTimeout`, and
-- whether its signal is aborted.
pub record Request : Type 0 where
  pub enabled : Bool
  pub key : String
  pub queue_timeout : Option Number
  pub signal_aborted : Bool

abbrev pub admit_request : Options → ℕ → ℕ → Request → Limiter × ℕ → Limiter × Answer
admit_request o owner context q (l, r) =
    gate o owner context q.signal_aborted (normalize_duration q.queue_timeout o.queue_timeout) l r

unfoldable pub on_request : Options → ℕ → ℕ → Request → Limiter → Limiter × Answer
on_request o owner context q l =
    let found = admit_request o owner context q (get_record o (normalize_key q.key) l) in
    if q.enabled then found else (l, skipped)

abbrev pub holds : ℕ → ℕ → Admission → Bool
holds owner context a = a.owner == owner && a.context == context

unfoldable pub find_admission : ℕ → ℕ → List Admission → Option Admission
find_admission owner context [] = none
find_admission owner context (a ∷ l) =
    if holds owner context a then some a else find_admission owner context l

unfoldable pub remove_admission : ℕ → ℕ → List Admission → List Admission
remove_admission owner context [] = []
remove_admission owner context (a ∷ l) =
    if holds owner context a then l else a ∷ remove_admission owner context l

unfoldable pub is_active : ℕ → List ℕ → Bool
is_active owner [] = false
is_active owner (x ∷ l) = x == owner || is_active owner l

abbrev pub refers_to : Option ℕ → ℕ → Bool
refers_to none r = false
refers_to (some q) r = q == r

abbrev pub give_back : Options → Admission → Limiter → Limiter
give_back o a l =
    let dropped = record l { admissions = remove_admission a.owner a.context l.admissions } in
    let freed = release_admission o a.record_ref dropped in
    if is_active a.owner l.installed
      && refers_to (get (l.cell a.record_ref).key l.records) a.record_ref
    then freed
    else dropped

-- The `onSettled` hook.
unfoldable pub on_settled : Options → ℕ → ℕ → Limiter → Limiter
on_settled o owner context l = elim (find_admission owner context l.admissions) [
  | none ↦ l
  | some a ↦ give_back o a l
]

abbrev pub waits : ℕ → ℕ → QueueEntry → Bool
waits owner context e = e.owner == owner && e.context == context

unfoldable pub remove_entry : ℕ → ℕ → List QueueEntry → List QueueEntry
remove_entry owner context [] = []
remove_entry owner context (e ∷ q) =
    if waits owner context e then q else e ∷ remove_entry owner context q

unfoldable pub is_waiting : ℕ → ℕ → List QueueEntry → Bool
is_waiting owner context [] = false
is_waiting owner context (e ∷ q) = waits owner context e || is_waiting owner context q

-- The timer of a queued entry fires, or its signal is aborted: it leaves the queue and is rejected,
-- unless it has settled before.
unfoldable pub give_up : ℕ → QueueEntry → Refusal → Limiter → Limiter
give_up r e why l =
    let v = l.cell r in
    if is_waiting e.owner e.context v.queue
    then settle_with l r (record v { queue = remove_entry e.owner e.context v.queue })
        (rejected e why)
    else l
