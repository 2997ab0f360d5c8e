-- ===== src/Sse/Resume.antt =====
-- The configuration of a reconnection, `reconnectConfig` of src/client/reconnectSse.ts, and what becomes of
-- it where src/core/ConfigMerger.ts merges it with the defaults of a client.
use request.Base.{
  ◌≡◌, refl, true, false, ◌||◌, List, [], ◌∷◌, ◌++◌, none, some, arith, if◌then◌else◌, Bool-cases,
  inl, inr,
}
use request.Stream.Lines.{Text, is_empty}
use request.Stream.Events.{same_text}
use request.Headers.Fields.{Fields, find, put, remove, lower_case, find-put, same_text_refl}
use request.Headers.Normal.{IsNormal, last_value-find, put-IsNormal}
use request.Headers.Merge.{merge_headers, names, find-merge_headers}
use request.Sse.Reconnect.{StreamConfig, reconnect_config, keep_header, last_event_id}

names-keep_header : (k : Text) (ns : List Text) → names k (keep_header k ns) ≡ false
unfolding names keep_header
names-keep_header k [] = refl
names-keep_header k (n ∷ ns) = ground (arith, names-keep_header k ns)

names-append : (k : Text) (ns ms : List Text) → names k (ns ++ ms) ≡ (names k ns || names k ms)
unfolding names
names-append k [] ms = refl
names-append k (n ∷ ns) ms = ground (arith, names-append k ns ms)

lower : lower_case last_event_id ≡ last_event_id
unfolding lower_case
lower = refl

names-itself : names last_event_id (last_event_id ∷ []) ≡ true
unfolding names lower_case same_text
names-itself = refl

-- Where the headers of the stream are normal, as those of a `Headers` object are, and whatever they, the
-- defaults and the removals say of the header: a reconnection behind the event id `id` asks for the events
-- behind it, and one behind an empty id does not ask for any.
pub merge_headers-reconnect_config :
    (c : StreamConfig) (id : Text) (defaults : Fields) (default_removals : List Text)
    → IsNormal c.headers
    → let next = reconnect_config c (some id) in
      find last_event_id (merge_headers defaults next.headers default_removals next.remove_headers)
      ≡ (if is_empty id then none else some id)
unfolding reconnect_config
merge_headers-reconnect_config c id defaults default_removals n =
    let next = reconnect_config c (some id) in
    elim (Bool-cases (is_empty id)) [
      | inl empty ↦ ground (
        arith,
        empty,
        find-merge_headers defaults (remove last_event_id c.headers) default_removals
            (c.remove_headers ++ last_event_id ∷ []) last_event_id,
        names-append last_event_id c.remove_headers (last_event_id ∷ []),
        names-itself,
      )
      | inr full ↦ ground (
        arith,
        full,
        find-merge_headers defaults (put last_event_id id c.headers) default_removals
            (keep_header last_event_id c.remove_headers) last_event_id,
        names-keep_header last_event_id c.remove_headers,
        last_value-find last_event_id (put last_event_id id c.headers)
            (put-IsNormal last_event_id id c.headers lower n),
        find-put last_event_id last_event_id id c.headers,
        same_text_refl last_event_id,
      )
    ]
