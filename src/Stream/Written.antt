-- ===== src/Stream/Written.antt =====
-- Server-sent events as a server writes them, read back by src/utils/parseStreamingResponse.ts.
use request.Base.{
  ℕ, ◌+◌, ◌≡◌, refl, sym, ap, subst, ◌∙◌, false, ◌||◌, List, [], ◌∷◌, ◌++◌, Option, none, some,
  ◌==◌, arith, if◌then◌else◌, map, All,
}
use request.Stream.Lines.{
  Text, piece, Limits, initial, finished, Lines, yield, is_empty, decode_lines,
}
use request.Stream.Reference.{lines_of, text_of, append_nil, append_assoc}
use request.Stream.Chunks.{decode_lines-eq-lines_of}
use request.Stream.Events.{
  ServerSentEvent, ReconnectState, EventState, initial_state, join_lines, has, same_text,
  split_field, read_field, read_line, data_name, event_name, id_name, name_or_message, ended, Items,
  decode_events, parse_events,
}

-- An event of some lines of data, its name and its id.
pub record Message : Type 0 where
  pub first : Text
  pub others : List Text
  pub event : Text
  pub id : Text

abbrev field_line : Text → Text → Text
field_line name value = name ++ b':' ∷ b' ' ∷ value

abbrev data_lines : List Text → List Text
data_lines [] = [] ∷ []
data_lines (t ∷ ts) = field_line data_name t ∷ data_lines ts

abbrev message_lines : Message → List Text
message_lines m =
    field_line event_name m.event ∷ field_line id_name m.id ∷ data_lines (m.first ∷ m.others)

abbrev all_lines : List Message → List Text
all_lines [] = []
all_lines (m ∷ ms) = message_lines m ++ all_lines ms

-- Every line with a line feed behind it.
abbrev write_lines : List Text → Text
write_lines [] = []
write_lines (l ∷ ls) = l ++ b'\n' ∷ write_lines ls

abbrev pub write_messages : List Message → Text
write_messages ms = write_lines (all_lines ms)

abbrev pub event_of : Message → ServerSentEvent
event_of m = record {
  text = join_lines (m.first ∷ m.others);
  event = m.event;
  id = m.id;
  retry = none;
}

abbrev pub IsLine : Text → Type 0
IsLine t = (has b'\n' t ≡ false) × (has b'\r' t ≡ false)

-- What a message must be to be written: it has a name, its id has no null character, and no part has
-- a line break.
pub record IsMessage (m : Message) : Type 0 where
  pub named : is_empty m.event ≡ false
  pub sound : has 0 m.id ≡ false
  pub event_line : IsLine m.event
  pub id_line : IsLine m.id
  pub texts : All IsLine (m.first ∷ m.others)

abbrev pub no_limits : Limits
no_limits = record { line = none; event = none }

abbrev pub accept : ℕ → ServerSentEvent → Option ServerSentEvent
accept i e = some e

abbrev pub unobserved : ReconnectState
unobserved = record { last_event_id = none; server_delay = none }

read_data :
    (s : EventState) (t : Text)
    → read_line s (field_line data_name t) ≡ (record s { texts = s.texts ++ t ∷ [] }, none)
unfolding read_line split_field read_field same_text
read_data s t = refl

read_event :
    (s : EventState) (t : Text)
    → read_line s (field_line event_name t) ≡ (record s { event = t }, none)
unfolding read_line split_field read_field same_text
read_event s t = refl

read_id :
    (s : EventState) (t : Text)
    → has 0 t ≡ false
    → read_line s (field_line id_name t) ≡ (
      record s { last_event_id = t; observed = record (s.observed) { last_event_id = some t } },
      none,
    )
unfolding read_line split_field read_field same_text
read_id s t h = rw h refl

append_snoc : (a : List Text) (t : Text) (b : List Text) → (a ++ t ∷ []) ++ b ≡ a ++ (t ∷ b)
append_snoc [] t b = refl
append_snoc (x ∷ a) t b = ap (◌∷◌ x) (append_snoc a t b)

abbrev gain : ServerSentEvent → Items ServerSentEvent → Items ServerSentEvent
gain e r = record r { items = e ∷ r.items }

-- What follows a line that was read as `o`.
abbrev following :
    EventState → EventState × Option ServerSentEvent → List Text → Items ServerSentEvent
following s (next, none) ls = decode_events accept next ls finished
following s (next, some e) ls =
    gain e (decode_events accept (record next { item_index = s.item_index + 1 }) ls finished)

decode_following :
    (s : EventState) (l : Text) (ls : List Text)
    → decode_events accept s (l ∷ ls) finished ≡ following s (read_line s l) ls
unfolding decode_events
decode_following s l ls = ground arith

-- A line that dispatches nothing.
decode_quiet :
    (s next : EventState) (l : Text) (ls : List Text)
    → read_line s l ≡ (next, none)
    → decode_events accept s (l ∷ ls) finished ≡ decode_events accept next ls finished
decode_quiet s next l ls h = decode_following s l ls ∙ ap (λ o. following s o ls) h

decode_data :
    (s : EventState) (t : Text) (ts : List Text) (rest : List Text)
    → decode_events accept s (data_lines (t ∷ ts) ++ rest) finished
      ≡ decode_events accept (record s { texts = s.texts ++ (t ∷ ts) }) ([] ∷ rest) finished
decode_data s t [] rest =
    decode_quiet s (record s { texts = s.texts ++ t ∷ [] }) (field_line data_name t) ([] ∷ rest)
      (read_data s t)
decode_data s t (u ∷ ts) rest =
    let next = record s { texts = s.texts ++ t ∷ [] } in
    decode_quiet s next (field_line data_name t) (data_lines (u ∷ ts) ++ rest) (read_data s t)
    ∙ decode_data next u ts rest
    ∙ ap (λ (x : List Text). decode_events accept (record s { texts = x }) ([] ∷ rest) finished)
        (append_snoc s.texts t (u ∷ ts))

-- A state between two events, with the retry time `r`.
record IsFresh (s : EventState) : Type 0 where
  quiet : s.texts ≡ []
  untimed : s.retry ≡ none

-- The state behind a message.
abbrev after : Message → EventState → EventState
after m s = record s {
  texts = [];
  event = [];
  last_event_id = m.id;
  item_index = s.item_index + 1;
  observed = record (s.observed) { last_event_id = some m.id };
}

named_lem : (t : Text) → is_empty t ≡ false → name_or_message t ≡ t
named_lem [] h = ground arith
named_lem (c ∷ t) h = refl

decode_message :
    (m : Message) (s : EventState) (rest : List Text)
    → IsMessage m
    → IsFresh s
    → decode_events accept s (message_lines m ++ rest) finished
      ≡ gain (event_of m) (decode_events accept (after m s) rest finished)
unfolding decode_events read_line
decode_message m s rest i f =
    let named = record s { event = m.event } in
    let known = record named {
      last_event_id = m.id;
      observed = record (s.observed) { last_event_id = some m.id };
    } in
    let texts = m.first ∷ m.others in
    decode_quiet s named (field_line event_name m.event)
      (field_line id_name m.id ∷ data_lines texts ++ rest) (read_event s m.event)
    ∙ decode_quiet named known (field_line id_name m.id) (data_lines texts ++ rest)
        (read_id named m.id i.sound)
    ∙ decode_data known m.first m.others rest
    ∙ (decode_following (record known { texts = s.texts ++ texts }) [] rest
        ∙ rw (f.quiet, f.untimed, named_lem m.event i.named) refl)

decode_messages :
    (ms : List Message) (s : EventState)
    → All IsMessage ms
    → IsFresh s
    → ((decode_events accept s (all_lines ms) finished).items ≡ map event_of ms)
      × ((decode_events accept s (all_lines ms) finished).end ≡ ended finished)
decode_messages [] s i f = unfold decode_events in (refl, refl)
decode_messages (m ∷ ms) s i f =
    let (items, end) =
      decode_messages ms (after m s) i.1 (record { quiet = refl; untimed = f.untimed }) in
    rw (decode_message m s (all_lines ms) i.0 f) (ap (◌∷◌ (event_of m)) items, end)

module _ (width : ℕ → ℕ) where
  line_back :
      (ev : ℕ) (u l : Text) (r : Text)
      → IsLine l
      → lines_of width no_limits false ev u (l ++ b'\n' ∷ r)
        ≡ yield
            (u ++ l)
            (lines_of width no_limits false (if is_empty (u ++ l) then 0 else ev + 0) [] r)
  unfolding lines_of has
  line_back ev u [] r i = rw (append_nil u) refl
  line_back ev u (c ∷ l) r i =
      let inside : (c == b'\n' || c == b'\r') ≡ false = ground (arith, i) in
      rw (lines_of, inside, ← append_assoc u (c ∷ []) l)
        (line_back ev (u ++ c ∷ []) l r (ground (arith, i)))

  lines_back :
      (ev : ℕ) (ls : List Text)
      → All IsLine ls
      → lines_of width no_limits false ev [] (write_lines ls)
        ≡ record { lines = ls; end = finished }
  unfolding lines_of
  lines_back ev [] i = refl
  lines_back ev (l ∷ ls) i =
      line_back ev [] l (write_lines ls) i.0
      ∙ ap (yield l) (lines_back (if is_empty l then 0 else ev + 0) ls i.1)

  data_lines-All :
      (ts : List Text) (rest : List Text)
      → All IsLine ts
      → All IsLine rest
      → All IsLine (data_lines ts ++ rest)
  unfolding has
  data_lines-All [] rest i j = ((refl, refl), j)
  data_lines-All (t ∷ ts) rest i j = (i.0, data_lines-All ts rest i.1 j)

  all_lines-All : (ms : List Message) → All IsMessage ms → All IsLine (all_lines ms)
  unfolding has
  all_lines-All [] i = tt
  all_lines-All (m ∷ ms) i = (
    i.0.event_line,
    (
      i.0.id_line,
      data_lines-All (m.first ∷ m.others) (all_lines ms) i.0.texts (all_lines-All ms i.1),
    ),
  )

  -- A response of well-formed messages, however its text is cut into chunks, is read as these messages in
  -- order and then ends, where no limits and no schema are set.
  pub parse_events-write :
      (ms : List Message) (ts : List Text)
      → All IsMessage ms
      → text_of ts ≡ write_messages ms
      → let read =
          parse_events accept unobserved (decode_lines width no_limits initial (map piece ts)) in
        (read.items ≡ map event_of ms) × (read.end ≡ ended finished)
  parse_events-write ms ts i whole =
      let lines =
        decode_lines-eq-lines_of width no_limits ts
        ∙ ap (lines_of width no_limits false 0 []) whole
        ∙ lines_back 0 (all_lines ms) (all_lines-All ms i) in
      subst
        (λ (ls : Lines).
          let read = parse_events accept unobserved ls in
          (read.items ≡ map event_of ms) × (read.end ≡ ended finished))
        (sym lines)
        (decode_messages ms (initial_state unobserved) i (record { quiet = refl; untimed = refl }))
