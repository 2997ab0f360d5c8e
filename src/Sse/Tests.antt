-- ===== src/Sse/Tests.antt =====
-- A stream of server-sent events that reconnects, at concrete inputs.
use request.Base.{
  ℕ, ◌+◌, ◌≤◌, ◌==◌, ◌≡◌, refl, true, false, [], ◌∷◌, Option, none, some, arith, finite,
  max_timer_delay, if◌then◌else◌,
}
use request.Stream.Lines.{Text, failed}
use request.Stream.Events.{ServerSentEvent, decode_events}
use request.Headers.Fields.{find}
use request.Headers.Merge.{merge_headers}
use request.Sse.Observe.{
  connecting, open_state, reconnecting, closed, errored, notify, notify_all, completes, throws,
  observe, is_over,
}
use request.Sse.Reconnect.{
  network_error, ReconnectOptions, Reconnects, validate_sse_reconnect, StreamConfig, last_event_id,
  reconnect_config, connected, failed_with, Network, reconnect_sse, create_reconnecting_sse,
  next_attempt, read_current,
}
use request.Sse.Bounds.{Ends, longest, create_reconnecting_sse-Ends}
use request.Sse.Resume.{merge_headers-reconnect_config}
use request.Sse.Reports.{IsCourse, latest, observe-IsCourse}

abbrev any_event : ℕ → ServerSentEvent → Option ServerSentEvent
any_event n e = some e

abbrev two_attempts : ReconnectOptions
two_attempts = record { max_attempts = finite 2 0; delay = some (finite 5 0); max_delay = none }

abbrev checked : Reconnects
checked = record { max_attempts = 2; delay = some 5; max_delay = none }

two_attempts-valid : validate_sse_reconnect two_attempts ≡ some checked
unfolding validate_sse_reconnect
two_attempts-valid = refl

-- The world counts the connections: the first breaks at once, all others fail.
abbrev flaky : Network ℕ
flaky = record {
  aborted_in = λ w. none;
  wait = λ d w. (none, w);
  connect = λ c s w. (
    if w == 0
        then connected (record {
          no_content = false;
          body =
              some (record { lines = record { lines = []; end = failed }; broken = network_error });
        })
        else failed_with network_error,
    w + 1,
  );
}

abbrev bare : StreamConfig
bare = record { headers = []; remove_headers = last_event_id ∷ [] }

flaky_run :
    create_reconnecting_sse any_event flaky checked bare 3 0
    ≡ some (record {
      events = [];
      reports = open_state ∷ reconnecting ∷ reconnecting ∷ [];
      configs = bare ∷ bare ∷ [];
      waits = 5 ∷ 5 ∷ [];
      thrown = some network_error;
    })
unfolding create_reconnecting_sse reconnect_sse next_attempt read_current reconnect_config
    decode_events
flaky_run = refl

create_reconnecting_sse-Ends_example :
    Ends checked 2 (create_reconnecting_sse any_event flaky checked bare 3 0)
    × (longest checked ≤ max_timer_delay)
create_reconnecting_sse-Ends_example =
    create_reconnecting_sse-Ends any_event flaky two_attempts checked bare 3 0 two_attempts-valid
      (omega arith)

abbrev seven : Text
seven = b'7' ∷ []

merge_headers-reconnect_config_example :
    find last_event_id (
      merge_headers
        ((last_event_id, b'1' ∷ []) ∷ [])
        (reconnect_config bare (some seven)).headers
        (last_event_id ∷ [])
        (reconnect_config bare (some seven)).remove_headers)
    ≡ some seven
merge_headers-reconnect_config_example =
    merge_headers-reconnect_config bare seven ((last_event_id, b'1' ∷ []) ∷ []) (last_event_id ∷ [])
      tt

observed_run :
    (observe false (open_state ∷ reconnecting ∷ reconnecting ∷ []) (throws false)).told
    ≡ errored ∷ reconnecting ∷ open_state ∷ connecting ∷ []
unfolding observe notify_all notify
observed_run = refl

observe-IsCourse_example :
    IsCourse (observe false (open_state ∷ closed ∷ []) completes).told
    × (is_over (latest (observe false (open_state ∷ closed ∷ []) completes).told) ≡ true)
observe-IsCourse_example = observe-IsCourse false (open_state ∷ closed ∷ []) completes
