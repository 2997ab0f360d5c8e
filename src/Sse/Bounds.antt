-- ===== src/Sse/Bounds.antt =====
-- The reader of src/client/reconnectSse.ts ends, within its attempts and delays.
use request.Base.{
  ℕ, zero, suc, ◌+◌, ◌-◌, ◌<◌, ◌≤◌, ◌≡◌, inl, inr, Option, none, some, leb, arith, length, All,
  if_elim, if_cases, max_timer_delay, Option-cases, Number, finite,
}
use request.Stream.Events.{ServerSentEvent, ReconnectState}
use request.Sse.Reconnect.{
  SseError, is_retryable_disconnect, ReconnectOptions, Reconnects, validate_sse_reconnect,
  StreamConfig, reconnect_config, Response, Connected, connected, failed_with, Trace, ends_with,
  after_events, after_report, after_wait, after_connect, leaves, stays, reported_open, read_current,
  Network, delay_for, or_thrown, with_trace, reconnected, next_attempt, reconnect_sse,
  create_reconnecting_sse, checked_delay, whole_within,
}

abbrev pub longest : Reconnects → ℕ
longest o = elim o.max_delay [ none ↦ max_timer_delay | some m ↦ m ]

-- A trace, with at most `n` reconnections, none after a longer delay than the options allow.
abbrev pub Within : Reconnects → ℕ → Trace → Type 0
Within o n t = (length t.configs ≤ n) × All (λ d. d ≤ longest o) t.waits

abbrev pub Ends : Reconnects → ℕ → Option Trace → Type 0
Ends o n none = ⊥
Ends o n (some t) = Within o n t

module _ {W : Type 0} (validate : ℕ → ServerSentEvent → Option ServerSentEvent) (net : Network W)
    (o : Reconnects) (config : StreamConfig) where
  with_trace-Ends :
      (f : Trace → Trace) (n m : ℕ) (x : Option Trace)
      → ((t : Trace) → Within o n t → Within o m (f t))
      → Ends o n x
      → Ends o m (with_trace f x)
  with_trace-Ends f n m none h e = e
  with_trace-Ends f n m (some t) h e = h t e

  or_thrown-Ends :
      (e : Option SseError) (n : ℕ) (x : Option Trace) → Ends o n x → Ends o n (or_thrown e x)
  or_thrown-Ends none n x h = h
  or_thrown-Ends (some e) n x h = (omega arith, tt)

  abbrev Loop : Type 0
  Loop = Option Response → Option SseError → W → Option Trace

  reconnected-Ends :
      (again : Loop) (n : ℕ) (last : Option SseError) (c : Connected) (w : W)
      → ((r : Option Response) (e : Option SseError) (v : W) → Ends o n (again r e v))
      → Ends o n (reconnected validate net o config again last (c, w))
  reconnected-Ends again n last (connected r) w h =
      with_trace-Ends (after_report (reported_open r)) n n (again (some r) last w) (λ t p. p)
        (h (some r) last w)
  reconnected-Ends again n last (failed_with e) w h =
      if_elim (Ends o n) (is_retryable_disconnect e) _ _ (h none (some e) w) (omega arith, tt)

  delay_for-le : (s : ReconnectState) → delay_for o s ≤ longest o
  delay_for-le s = ground arith

  next_attempt-Ends :
      (again : Loop) (attempts : ℕ) (last : Option SseError) (s : ReconnectState) (w : W)
      → (attempts < o.max_attempts
          → (r : Option Response) (e : Option SseError) (v : W)
          → Ends o (o.max_attempts - (attempts + 1)) (again r e v))
      → Ends o
          (o.max_attempts - attempts)
          (next_attempt validate net o config again attempts last s w)
  unfolding next_attempt
  next_attempt-Ends again attempts last s w h =
      let left = o.max_attempts - attempts in
      let delay = delay_for o s in
      let waited = net.wait delay w in
      let next = reconnect_config config s.last_event_id in
      let made = net.connect next s waited.1 in
      or_thrown-Ends (net.aborted_in w) left _ (
        if_cases (Ends o left) (leb o.max_attempts attempts) _ _ (λ spent. (omega arith, tt))
          (λ more.
            let fewer : attempts < o.max_attempts = ground (arith, more) in
            let left' = o.max_attempts - (attempts + 1) in
            with_trace-Ends (after_wait delay) left left _ (λ t p. (p.0, (delay_for-le s, p.1)))
              (or_thrown-Ends waited.0 left _ (
                or_thrown-Ends (net.aborted_in waited.1) left _ (
                  with_trace-Ends (after_connect next) left' left _
                    (λ t p. (omega (arith, p.0), p.1))
                    (reconnected-Ends again left' last made.0 made.1 (h fewer)))))))

  reconnect_sse-Ends :
      (fuel attempts : ℕ) (current : Option Response) (last : Option SseError) (s : ReconnectState)
      (w : W)
      → o.max_attempts < attempts + fuel
      → attempts ≤ o.max_attempts
      → Ends o
          (o.max_attempts - attempts)
          (reconnect_sse validate net o config fuel attempts current last s w)
  unfolding reconnect_sse
  reconnect_sse-Ends zero attempts current last s w enough le = absurd (omega arith)
  reconnect_sse-Ends (suc fuel) attempts current last s w enough le =
      let left = o.max_attempts - attempts in
      let again = λ (r : Option Response) (e : Option SseError) (v : W) (n : ReconnectState).
        reconnect_sse validate net o config fuel (attempts + 1) r e n v in
      elim (read_current validate current last s)
        as (λ turn.
          let x : Option Trace = elim turn [
            | leaves events thrown ↦ some (after_events events (ends_with thrown))
            | stays events error next ↦ with_trace (after_events events) (
                next_attempt validate net o config (λ r e v. again r e v next) attempts error next
                  w)
          ] in
          Ends o left x) [
            | leaves events thrown ↦ (omega arith, tt)
            | stays events error next ↦
                with_trace-Ends (after_events events) left left _ (λ t p. p)
                  (next_attempt-Ends (λ r e v. again r e v next) attempts error next w
                    (λ fewer r e v.
                      reconnect_sse-Ends fuel (attempts + 1) r e next v (omega arith)
                        (omega arith)))
          ]

whole_within-le : (limit : ℕ) (n : Number) (d : ℕ) → whole_within limit n ≡ some d → d ≤ limit
whole_within-le limit (finite n zero) d h = ground (arith, h)
whole_within-le limit n d h = ground (arith, h)

checked_delay-le :
    (n : Option Number) (d : ℕ) → checked_delay n ≡ some (some d) → d ≤ max_timer_delay
checked_delay-le none d h = ground (arith, h)
checked_delay-le (some n) d h = ground (arith, h, whole_within-le max_timer_delay n d)

validated_longest :
    (raw : ReconnectOptions) (o : Reconnects)
    → validate_sse_reconnect raw ≡ some o
    → longest o ≤ max_timer_delay
unfolding validate_sse_reconnect
validated_longest raw o h = elim (Option-cases o.max_delay) [
  | inl e ↦ ground (arith, e)
  | inr (d, e) ↦ ground (arith, h, e, checked_delay-le raw.max_delay d)
]

-- With validated options, and fuel above `maxAttempts`, a stream that reconnects comes to its end: it
-- connects again at most `maxAttempts` times, and waits no longer than the options and a timer allow.
pub create_reconnecting_sse-Ends :
    {W : Type 0} (validate : ℕ → ServerSentEvent → Option ServerSentEvent) (net : Network W)
    (raw : ReconnectOptions) (o : Reconnects) (config : StreamConfig) (fuel : ℕ) (w : W)
    → validate_sse_reconnect raw ≡ some o
    → o.max_attempts < fuel
    → Ends o o.max_attempts (create_reconnecting_sse validate net o config fuel w)
      × (longest o ≤ max_timer_delay)
unfolding create_reconnecting_sse
create_reconnecting_sse-Ends validate net raw o config fuel w valid enough =
    let start : ReconnectState = record { last_event_id = none; server_delay = none } in
    let opened = net.connect config start w in
    (
      elim opened.0
          as (λ c.
            let x : Option Trace = elim c [
              | failed_with e ↦ some (ends_with (some e))
              | connected r ↦
                  with_trace (after_report (reported_open r))
                    (reconnect_sse validate net o config fuel 0 (some r) none start opened.1)
            ] in
            Ends o o.max_attempts x) [
              | failed_with e ↦ (omega arith, tt)
              | connected r ↦
                  with_trace-Ends validate net o config (after_report (reported_open r))
                    (o.max_attempts - 0) o.max_attempts _ (λ t p. (omega (arith, p.0), p.1))
                    (reconnect_sse-Ends validate net o config fuel 0 (some r) none start opened.1
                      (omega arith) (omega arith))
            ],
      validated_longest raw o valid,
    )
