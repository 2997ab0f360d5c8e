-- ===== src/Stream/Events.antt =====
-- `decodeServerSentEvents` of src/utils/parseStreamingResponse.ts over the lines of its stream, with
-- the observer of src/utils/sseControl.ts that src/client/reconnectSse.ts passes to it.
use request.Base.{
  ℕ, ◌+◌, ◌-◌, ◌*◌, Bool, true, false, ◌&&◌, ◌||◌, List, [], ◌∷◌, ◌++◌, Option, none, some, leb,
  ◌==◌, if◌then◌else◌, max_safe_integer,
}
use request.Stream.Lines.{Text, End, Lines}

pub record ServerSentEvent : Type 0 where
  pub text : Text
  pub event : Text
  pub id : Text
  pub retry : Option ℕ

-- What the observer notes.
pub record ReconnectState : Type 0 where
  pub last_event_id : Option Text
  pub server_delay : Option ℕ

pub record EventState : Type 0 where
  pub texts : List Text
  pub event : Text
  pub last_event_id : Text
  pub retry : Option ℕ
  pub item_index : ℕ
  pub observed : ReconnectState

-- `observer?.initialId ?? ''`
abbrev or_empty : Option Text → Text
or_empty none = []
or_empty (some t) = t

abbrev pub initial_state : ReconnectState → EventState
initial_state o = record {
  texts = [];
  event = [];
  last_event_id = or_empty o.last_event_id;
  retry = o.server_delay;
  item_index = 0;
  observed = o;
}

-- `texts.join('\n')`
abbrev pub join_lines : List Text → Text
join_lines [] = []
join_lines (t ∷ []) = t
join_lines (t ∷ u ∷ ts) = t ++ b'\n' ∷ join_lines (u ∷ ts)

unfoldable pub same_text : Text → Text → Bool
same_text [] [] = true
same_text (x ∷ t) (y ∷ u) = x == y && same_text t u
same_text _ _ = false

unfoldable pub has : ℕ → Text → Bool
has c [] = false
has c (x ∷ t) = x == c || has c t

-- The field and the value of a line, at its first colon.
unfoldable pub split_field : Text → Text × Text
split_field [] = ([], [])
split_field (c ∷ t) =
    let rest = split_field t in if c == b':' then ([], t) else (c ∷ rest.0, rest.1)

abbrev pub without_space : Text → Text
without_space [] = []
without_space (c ∷ t) = if c == b' ' then t else c ∷ t

unfoldable pub digits_from : ℕ → Text → Option ℕ
digits_from n [] = some n
digits_from n (c ∷ t) =
    let rest = digits_from (n * 10 + (c - b'0')) t in
    if leb b'0' c && leb c b'9' then rest else none

-- `/^\d+$/.test(value)` and `Number.isSafeInteger(Number(value))`
abbrev pub safe_decimal : Text → Option ℕ
safe_decimal [] = none
safe_decimal (c ∷ t) = elim (digits_from 0 (c ∷ t)) [
  | none ↦ none
  | some n ↦ if leb n max_safe_integer then some n else none
]

abbrev pub data_name : Text
data_name = b'd' ∷ b'a' ∷ b't' ∷ b'a' ∷ []

abbrev pub event_name : Text
event_name = b'e' ∷ b'v' ∷ b'e' ∷ b'n' ∷ b't' ∷ []

abbrev pub id_name : Text
id_name = b'i' ∷ b'd' ∷ []

abbrev pub retry_name : Text
retry_name = b'r' ∷ b'e' ∷ b't' ∷ b'r' ∷ b'y' ∷ []

abbrev pub message_name : Text
message_name = b'm' ∷ b'e' ∷ b's' ∷ b's' ∷ b'a' ∷ b'g' ∷ b'e' ∷ []

-- The `switch` on a field.
unfoldable pub read_field : Text → Text → EventState → EventState
read_field field value s =
    let noted = record s {
      last_event_id = value;
      observed = record (s.observed) { last_event_id = some value };
    } in
    let timed : EventState = elim (safe_decimal value) [
      | none ↦ s
      | some n ↦ record s {
        retry = some n;
        observed = record (s.observed) { server_delay = some n };
      }
    ] in
    if same_text field data_name
    then record s { texts = s.texts ++ value ∷ [] }
    else if same_text field event_name
    then record s { event = value }
    else if same_text field id_name
    then (if has 0 value then s else noted)
    else if same_text field retry_name
    then timed
    else s

-- `event || 'message'`
abbrev pub name_or_message : Text → Text
name_or_message [] = message_name
name_or_message (c ∷ t) = c ∷ t

-- The event that an empty line dispatches.
abbrev pub dispatched : EventState → Option ServerSentEvent
dispatched s = elim s.texts [
  | [] ↦ none
  | t ∷ ts ↦ some (record {
    text = join_lines (t ∷ ts);
    event = name_or_message s.event;
    id = s.last_event_id;
    retry = s.retry;
  })
]

-- The body of the loop over the lines.
unfoldable pub read_line : EventState → Text → EventState × Option ServerSentEvent
read_line s [] = (record s { texts = []; event = [] }, dispatched s)
read_line s (c ∷ t) =
    let (field, value) = split_field (c ∷ t) in
    (if c == b':' then s else read_field field (without_space value) s, none)

-- How the items end: as the lines do, or with an item that the schema refuses.
pub data ItemsEnd : Type 0 where
  ended : End → ItemsEnd
  refused : ItemsEnd

pub record Items {ℓ} (V : Type ℓ) : Type ℓ where
  pub items : List V
  pub end : ItemsEnd
  pub observed : ReconnectState

-- `validate i e` is what `validateStreamingItem` makes of the item `e`, the one of index `i`.
module _ {ℓ} {V : Type ℓ} (validate : ℕ → ServerSentEvent → Option V) where
  unfoldable pub decode_events : EventState → List Text → End → Items V
  decode_events s [] end = record { items = []; end = ended end; observed = s.observed }
  decode_events s (l ∷ ls) end =
      let (next, out) = read_line s l in
      elim out [
        | none ↦ decode_events next ls end
        | some e ↦ elim (validate s.item_index e) [
          | none ↦ record { items = []; end = refused; observed = s.observed }
          | some v ↦
              let rest = decode_events (record next { item_index = s.item_index + 1 }) ls end in
              record rest { items = v ∷ rest.items }
        ]
      ]

  -- `parseServerSentEvents` of the lines that `decodeLines` gives.
  abbrev pub parse_events : ReconnectState → Lines → Items V
  parse_events o ls = decode_events (initial_state o) ls.lines ls.end
