-- ===== src/Concurrency/Teardown.antt =====
-- `install`, its teardown, `getState` and the calls that reach src/plugins/concurrencyPlugin.ts.
use request.Base.{
  ℕ, zero, suc, ◌+◌, List, [], ◌∷◌, ◌++◌, String, Option, none, some, update, length, ◌==◌,
  if◌then◌else◌,
}
use request.Base.Dict.{Dict, get}
use request.Limits.{normalize_key}
use request.Concurrency.State.{
  Options, QueueEntry, Admission, aborted, wait_timed_out, plugin_removed, Outcome, rejected,
  Limiter, Request, on_request, on_settled, give_up, release_admission,
}

-- `getState` of the plugin: active and queued requests of a key.
unfoldable pub get_state : String → Limiter → ℕ × ℕ
get_state key l = elim (get (normalize_key key) l.records) [
  | none ↦ (0, 0)
  | some r ↦ ((l.cell r).active, length (l.cell r).queue)
]

unfoldable pub install : Limiter → Limiter
install l = record l { installed = l.next_owner ∷ l.installed; next_owner = l.next_owner + 1 }

unfoldable pub others : ℕ → List QueueEntry → List QueueEntry
others owner [] = []
others owner (e ∷ q) = if e.owner == owner then others owner q else e ∷ others owner q

unfoldable pub rejections : ℕ → List QueueEntry → List Outcome
rejections owner [] = []
rejections owner (e ∷ q) =
    if e.owner == owner then rejected e plugin_removed ∷ rejections owner q else rejections owner q

-- The first loop of the teardown: over the records of the map, and the entries of each.
unfoldable pub drop_waiters : ℕ → Dict ℕ → Limiter → Limiter
drop_waiters owner [] l = l
drop_waiters owner ((k, r) ∷ m) l =
    let v = l.cell r in
    drop_waiters owner m (record l {
      cell = update l.cell r (record v { queue = others owner v.queue });
      outcomes = rejections owner v.queue ++ l.outcomes;
    })

-- The oldest admission of the installation; the newest stands first.
unfoldable pub find_own : ℕ → List Admission → Option Admission
find_own owner [] = none
find_own owner (a ∷ l) = elim (find_own owner l) [
  | some b ↦ some b
  | none ↦ if a.owner == owner then some a else none
]

unfoldable pub remove_own : ℕ → List Admission → List Admission
remove_own owner [] = []
remove_own owner (a ∷ l) =
    let rest = remove_own owner l in
    elim (find_own owner l) [ some b ↦ a ∷ rest | none ↦ if a.owner == owner then l else a ∷ l ]

-- The second loop: each admission of the installation is released, the oldest first, and dropped from its
-- map.
unfoldable pub release_all : Options → ℕ → ℕ → Limiter → Limiter
release_all o owner zero l = l
release_all o owner (suc n) l = elim (find_own owner l.admissions) [
  | none ↦ l
  | some a ↦
      release_all o owner n
        (release_admission o a.record_ref (record l { admissions = remove_own owner l.admissions }))
]

unfoldable pub without : ℕ → List ℕ → List ℕ
without x [] = []
without x (y ∷ l) = if y == x then l else y ∷ without x l

-- `if (installations === 0) records.clear()`
abbrev pub uninstalled : List ℕ → Limiter → Limiter
uninstalled [] l = record l { installed = []; records = [] }
uninstalled (x ∷ rest) l = record l { installed = x ∷ rest }

-- The function that `install` returns, called once for an installation.
unfoldable pub teardown : Options → ℕ → Limiter → Limiter
teardown o owner l =
    let quiet = drop_waiters owner l.records l in
    uninstalled (without owner l.installed) (release_all o owner (length quiet.admissions) quiet)

-- The calls that reach the plugin. A request hook may run behind the teardown of its installation, where
-- the list of hooks was read before; it does not look whether it is active.
pub data Call : Type 0 where
  installs : Call
  requests : ℕ → ℕ → Request → Call
  settles : ℕ → ℕ → Call
  times_out aborts : ℕ → QueueEntry → Call
  tears_down : ℕ → Call

unfoldable pub step : Options → Limiter → Call → Limiter
step o l installs = install l
step o l (requests owner context q) = (on_request o owner context q l).0
step o l (settles owner context) = on_settled o owner context l
step o l (times_out r e) = give_up r e wait_timed_out l
step o l (aborts r e) = give_up r e aborted l
step o l (tears_down owner) = teardown o owner l

unfoldable pub run : Options → Limiter → List Call → Limiter
run o l [] = l
run o l (c ∷ cs) = run o (step o l c) cs
