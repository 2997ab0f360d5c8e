-- ===== src/Sse/Observe.antt =====
-- What `observeSse` of src/client/observeSse.ts tells the observer of a stream.
use request.Base.{Bool, true, false, ◌||◌, List, [], ◌∷◌, ◌++◌, Option, none, some, if◌then◌else◌}

pub data SseState : Type 0 where
  connecting open_state reconnecting closed errored : SseState

abbrev pub same_state : SseState → SseState → Bool
same_state connecting connecting = true
same_state open_state open_state = true
same_state reconnecting reconnecting = true
same_state closed closed = true
same_state errored errored = true
same_state _ _ = false

abbrev pub is_last : SseState → Bool
is_last closed = true
is_last errored = true
is_last _ = false

-- `current`, and what the observer was told, the last first.
pub record Observed : Type 0 where
  pub current : Option SseState
  pub told : List SseState

abbrev pub is_over : Option SseState → Bool
is_over none = false
is_over (some s) = is_last s

abbrev pub is_now : SseState → Option SseState → Bool
is_now s none = false
is_now s (some c) = same_state c s

unfoldable pub notify : SseState → Observed → Observed
notify s o =
    if is_now s o.current || is_over o.current
    then o
    else record { current = some s; told = s ∷ o.told }

unfoldable pub notify_all : List SseState → Observed → Observed
notify_all [] o = o
notify_all (s ∷ ss) o = notify_all ss (notify s o)

abbrev pub unobserved : Observed
unobserved = record { current = none; told = [] }

-- How the stream ends for the consumer: it is over, it throws, or the consumer stops. For an error it is
-- noted whether the signal is aborted.
pub data StreamEnd : Type 0 where
  completes stops : StreamEnd
  throws : Bool → StreamEnd

abbrev pub last_reports : StreamEnd → List SseState
last_reports completes = closed ∷ []
last_reports stops = closed ∷ []
last_reports (throws aborted) = (if aborted then closed else errored) ∷ closed ∷ []

-- A whole observation: `early` says that the signal is aborted at the start; then come the reports of the
-- connection, with `closed` for an abort in between, and the end. A connection that fails throws.
unfoldable pub observe : Bool → List SseState → StreamEnd → Observed
observe early reports end =
    let started = notify connecting unobserved in
    notify_all (reports ++ last_reports end) (if early then notify closed started else started)
