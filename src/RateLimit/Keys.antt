-- ===== src/RateLimit/Keys.antt =====
-- The calls of src/plugins/rateLimitPlugin.ts over all its keys, and its histories.
use request.Base.{ℕ, ◌-◌, ◌≤◌, Bool, List, [], ◌∷◌, String, str_eq, length, ◌==◌, if◌then◌else◌}
use request.Limits.{Timeout}
use request.RateLimit.State.{Options, new_record, QueueEntry}
use request.RateLimit.Window.{admit_times}
use request.RateLimit.Histories.{admissions_of}
use request.RateLimit.Table.{
  Limiter, no_limiter, get_state, transport, observe, fire, leave, install, teardown,
}

-- The calls, each with its key. A hook's call says whether its installation is active then; it may not be,
-- since a removed hook still runs where the list of hooks was read before.
pub data KeyedCall : Type 0 where
  transports : Bool → String → QueueEntry → Bool → Timeout → KeyedCall
  observes_delay : Bool → String → ℕ → KeyedCall
  timer_fires asks_state : String → KeyedCall
  leaves : String → QueueEntry → KeyedCall
  installs : KeyedCall
  tears_down : ℕ → KeyedCall

-- The plugin, and the times of the admissions of each key, newest first, since it was installed
-- nowhere.
pub record KeyedTrace : Type 0 where
  pub limiter : Limiter
  pub history : String → List ℕ

abbrev pub noted : String → List ℕ → (String → List ℕ) → String → List ℕ
noted key ts history = λ k. if str_eq key k then ts else history k

abbrev pub woken_at : String → ℕ → ℕ → KeyedTrace → Limiter → KeyedTrace
woken_at key n now t l = record {
  limiter = l;
  history = noted key (admit_times n now (t.history key)) t.history;
}

unfoldable pub keyed_step : Options → KeyedTrace → ℕ × KeyedCall → KeyedTrace
keyed_step o t (now, transports live key e signal_aborted timeout) =
    let (answer, l, woken) = transport o live key e signal_aborted timeout now t.limiter in
    woken_at key (admissions_of (answer, (new_record, woken))) now t l
keyed_step o t (now, observes_delay live key delay) =
    let (l, woken) = observe o live key delay now t.limiter in woken_at key (length woken) now t l
keyed_step o t (now, timer_fires key) =
    let (l, woken) = fire o key now t.limiter in woken_at key (length woken) now t l
keyed_step o t (now, asks_state key) = record t { limiter = (get_state o key now t.limiter).1 }
keyed_step o t (now, leaves key e) = record t { limiter = leave key e t.limiter }
keyed_step o t (now, installs) = record t { limiter = install t.limiter }
keyed_step o t (now, tears_down owner) = record {
  limiter = teardown owner t.limiter;
  history = if t.limiter.installations - 1 == 0 then (λ k. []) else t.history;
}

unfoldable pub keyed_run : Options → KeyedTrace → List (ℕ × KeyedCall) → KeyedTrace
keyed_run o t [] = t
keyed_run o t (c ∷ cs) = keyed_run o (keyed_step o t c) cs

abbrev pub keyed_initial : KeyedTrace
keyed_initial = record { limiter = no_limiter; history = λ k. [] }

-- The calls come in the order of time, from `now` on.
abbrev pub KeyedInOrder : ℕ → List (ℕ × KeyedCall) → Type 0
KeyedInOrder now [] = Unit
KeyedInOrder now ((t, c) ∷ cs) = (now ≤ t) × KeyedInOrder t cs
