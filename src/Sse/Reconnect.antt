-- ===== src/Sse/Reconnect.antt =====
-- `createReconnectingSse` and `reconnectSse` of src/client/reconnectSse.ts, over the decoder of
-- src/utils/parseStreamingResponse.ts. The consumer reads to the end; the world `W` holds the signal, the
-- timers and the network.
use request.Base.{
  ℕ, zero, suc, ◌+◌, Bool, true, false, List, [], ◌∷◌, ◌++◌, Option, none, some, min, leb,
  max_timer_delay, Number, finite, max_safe_integer, if◌then◌else◌,
}
use request.Stream.Lines.{Text, Lines, finished, failed, too_large, is_empty}
use request.Stream.Events.{
  ServerSentEvent, ReconnectState, same_text, ItemsEnd, ended, refused, parse_events,
}
use request.Headers.Fields.{Fields, put, remove, lower_case}
use request.Sse.Observe.{SseState, open_state, reconnecting, closed}

-- The errors that the loop tells apart.
pub data SseError : Type 0 where
  network_error timeout_error stream_error aborted : SseError
  other_error : ℕ → SseError

-- `isRetryableDisconnect`
abbrev pub is_retryable_disconnect : SseError → Bool
is_retryable_disconnect network_error = true
is_retryable_disconnect timeout_error = true
is_retryable_disconnect stream_error = true
is_retryable_disconnect _ = false

-- SseReconnectOptions
pub record ReconnectOptions : Type 0 where
  pub max_attempts : Number
  pub delay : Option Number
  pub max_delay : Option Number

-- The options after their validation.
pub record Reconnects : Type 0 where
  pub max_attempts : ℕ
  pub delay : Option ℕ
  pub max_delay : Option ℕ

abbrev pub whole_within : ℕ → Number → Option ℕ
whole_within limit (finite n zero) = if leb n limit then some n else none
whole_within limit _ = none

-- A delay that is not given passes.
abbrev pub checked_delay : Option Number → Option (Option ℕ)
checked_delay none = some none
checked_delay (some n) = elim (whole_within max_timer_delay n) [
  | none ↦ none
  | some d ↦ some (some d)
]

-- `validateSseReconnect`; `none` is the error CONFIG_ERROR.
unfoldable pub validate_sse_reconnect : ReconnectOptions → Option Reconnects
validate_sse_reconnect o = elim (whole_within max_safe_integer o.max_attempts) [
  | none ↦ none
  | some zero ↦ none
  | some (suc n) ↦ elim (checked_delay o.delay) [
    | none ↦ none
    | some delay ↦ elim (checked_delay o.max_delay) [
      | none ↦ none
      | some max_delay ↦
          some (record { max_attempts = suc n; delay = delay; max_delay = max_delay })
    ]
  ]
]

-- The part of a configuration that a reconnection changes.
pub record StreamConfig : Type 0 where
  pub headers : Fields
  pub remove_headers : List Text

abbrev pub last_event_id : Text
last_event_id =
    b'l' ∷ b'a' ∷ b's' ∷ b't' ∷ b'-' ∷ b'e' ∷ b'v' ∷ b'e' ∷ b'n' ∷ b't' ∷ b'-' ∷ b'i' ∷ b'd' ∷ []

unfoldable pub keep_header : Text → List Text → List Text
keep_header name [] = []
keep_header name (n ∷ ns) =
    let rest = keep_header name ns in if same_text (lower_case n) name then rest else n ∷ rest

unfoldable pub reconnect_config : StreamConfig → Option Text → StreamConfig
reconnect_config c none = c
reconnect_config c (some id) =
    if is_empty id
    then record {
      headers = remove last_event_id c.headers;
      remove_headers = c.remove_headers ++ last_event_id ∷ [];
    }
    else record {
      headers = put last_event_id id c.headers;
      remove_headers = keep_header last_event_id c.remove_headers;
    }

-- A body: its lines, and what a read of it rejects with if it does.
pub record Body : Type 0 where
  pub lines : Lines
  pub broken : SseError

-- A response of status 204 has no content.
pub record Response : Type 0 where
  pub no_content : Bool
  pub body : Option Body

pub data Connected : Type 0 where
  connected : Response → Connected
  failed_with : SseError → Connected

-- What the reader of the events gets.
pub record Trace : Type 0 where
  pub events : List ServerSentEvent
  pub reports : List SseState
  pub configs : List StreamConfig
  pub waits : List ℕ
  pub thrown : Option SseError

abbrev pub ends_with : Option SseError → Trace
ends_with e = record { events = []; reports = []; configs = []; waits = []; thrown = e }

abbrev pub after_events : List ServerSentEvent → Trace → Trace
after_events es t = record t { events = es ++ t.events }

abbrev pub after_report : SseState → Trace → Trace
after_report s t = record t { reports = s ∷ t.reports }

abbrev pub after_wait : ℕ → Trace → Trace
after_wait n t = record t { reports = reconnecting ∷ t.reports; waits = n ∷ t.waits }

abbrev pub after_connect : StreamConfig → Trace → Trace
after_connect c t = record t { configs = c ∷ t.configs }

-- How a connection is left.
pub data Turn : Type 0 where
  leaves : List ServerSentEvent → Option SseError → Turn
  stays : List ServerSentEvent → Option SseError → ReconnectState → Turn

abbrev pub error_of : Body → ItemsEnd → Option SseError
error_of b (ended finished) = none
error_of b (ended failed) = some b.broken
error_of b (ended too_large) = some (other_error 0)
error_of b refused = some (other_error 1)

abbrev pub reported_open : Response → SseState
reported_open r = if r.no_content then closed else open_state

module _ (validate : ℕ → ServerSentEvent → Option ServerSentEvent) where
  -- The `try` around `yield*`, with the last error so far.
  unfoldable pub read_current : Option Response → Option SseError → ReconnectState → Turn
  read_current none last s = stays [] last s
  read_current (some r) last s = elim r.no_content [
    | true ↦ leaves [] none
    | false ↦ elim r.body [
      | none ↦ stays [] none s
      | some b ↦
          let read = parse_events validate s b.lines in
          elim (error_of b read.end) [
            | none ↦ stays read.items none read.observed
            | some e ↦
                if is_retryable_disconnect e
                then stays read.items (some e) read.observed
                else leaves read.items (some e)
          ]
    ]
  ]

-- `throwIfAborted`, `waitForRetry` and `connect`.
pub record Network (W : Type 0) : Type 0 where
  pub aborted_in : W → Option SseError
  pub wait : ℕ → W → Option SseError × W
  pub connect : StreamConfig → ReconnectState → W → Connected × W

abbrev pub or_delay : Option ℕ → Option ℕ → ℕ
or_delay (some server) configured = server
or_delay none (some configured) = configured
or_delay none none = 1000

-- The delay before a reconnection.
abbrev pub delay_for : Reconnects → ReconnectState → ℕ
delay_for o s =
    min (or_delay s.server_delay o.delay) (elim o.max_delay [ none ↦ max_timer_delay | some m ↦ m ])

abbrev pub or_thrown : Option SseError → Option Trace → Option Trace
or_thrown none next = next
or_thrown (some e) next = some (ends_with (some e))

abbrev pub with_trace : (Trace → Trace) → Option Trace → Option Trace
with_trace f none = none
with_trace f (some t) = some (f t)

module _ {W : Type 0} (validate : ℕ → ServerSentEvent → Option ServerSentEvent) (net : Network W)
    (o : Reconnects) (config : StreamConfig) where
  -- The connection that follows a turn, with the loop `again` behind it.
  abbrev pub reconnected :
      (Option Response → Option SseError → W → Option Trace)
      → Option SseError
      → Connected × W
      → Option Trace
  reconnected again last (connected r, w) =
      with_trace (after_report (reported_open r)) (again (some r) last w)
  reconnected again last (failed_with e, w) =
      if is_retryable_disconnect e then again none (some e) w else some (ends_with (some e))

  -- What follows a connection that is left to reconnect: `attempts` were made.
  unfoldable pub next_attempt :
      (Option Response → Option SseError → W → Option Trace)
      → ℕ
      → Option SseError
      → ReconnectState
      → W
      → Option Trace
  next_attempt again attempts last s w =
      let delay = delay_for o s in
      let waited = net.wait delay w in
      let next = reconnect_config config s.last_event_id in
      let going =
        or_thrown (net.aborted_in waited.1) (
          with_trace (after_connect next) (reconnected again last (net.connect next s waited.1))) in
      or_thrown (net.aborted_in w) (
        if leb o.max_attempts attempts
        then some (ends_with last)
        else with_trace (after_wait delay) (or_thrown waited.0 going))

  -- The `while` of `reconnectSse`; `none` only if the fuel is used up.
  unfoldable pub reconnect_sse :
      ℕ → ℕ → Option Response → Option SseError → ReconnectState → W → Option Trace
  reconnect_sse zero attempts current last s w = none
  reconnect_sse (suc fuel) attempts current last s w = elim (read_current validate current last s) [
    | leaves events thrown ↦ some (after_events events (ends_with thrown))
    | stays events error next ↦ with_trace (after_events events) (
        next_attempt (λ response e v. reconnect_sse fuel (attempts + 1) response e next v) attempts
          error next w)
  ]

  -- `createReconnectingSse`, and the stream read to its end.
  unfoldable pub create_reconnecting_sse : ℕ → W → Option Trace
  create_reconnecting_sse fuel w =
      let start : ReconnectState = record { last_event_id = none; server_delay = none } in
      let opened = net.connect config start w in
      elim opened.0 [
        | failed_with e ↦ some (ends_with (some e))
        | connected r ↦
            with_trace (after_report (reported_open r))
              (reconnect_sse fuel 0 (some r) none start opened.1)
      ]
