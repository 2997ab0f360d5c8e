-- ===== src/Stream/Tests.antt =====
-- Chunks and lines of streamed responses, read by src/utils/parseStreamingResponse.ts.
use request.Base.{ℕ, ◌≡◌, refl, true, false, List, [], ◌∷◌, Option, none, some, map}
use request.Stream.Lines.{
  Text, piece, rejects, Limits, initial, finished, failed, Lines, decode_lines, scan, measure,
}
use request.Stream.Reference.{lines_of, text_of}
use request.Stream.Chunks.{decode_lines-eq-lines_of}
use request.Stream.Events.{has, parse_events, ended}
use request.Stream.Ndjson.{
  malformed, decode_ndjson, is_blank, parse_ndjson, is_malformed, line_at, parse_ndjson_malformed,
}
use request.Stream.Written.{
  Message, IsMessage, write_messages, event_of, no_limits, accept, unobserved, parse_events-write,
}

abbrev one_byte : ℕ → ℕ
one_byte c = 1

-- `a`, CR, LF, `b`, cut between CR and LF.
abbrev cut : List Text
cut = (b'a' ∷ b'\r' ∷ []) ∷ (b'\n' ∷ b'b' ∷ []) ∷ []

abbrev small : Limits
small = record { line = some 3; event = some 10 }

cut_lines :
    decode_lines one_byte small initial (map piece cut)
    ≡ record { lines = (b'a' ∷ []) ∷ (b'b' ∷ []) ∷ []; end = finished }
unfolding decode_lines scan measure
cut_lines = refl

broken_lines :
    decode_lines one_byte small initial (piece (b'a' ∷ b'\n' ∷ b'b' ∷ []) ∷ rejects ∷ [])
    ≡ record { lines = (b'a' ∷ []) ∷ []; end = failed }
unfolding decode_lines scan measure
broken_lines = refl

decode_lines-eq-lines_of_example :
    decode_lines one_byte small initial (map piece cut)
    ≡ lines_of one_byte small false 0 [] (text_of cut)
decode_lines-eq-lines_of_example = decode_lines-eq-lines_of one_byte small cut

-- Lines of one digit are JSON.
abbrev parse_digit : Text → Option ℕ
parse_digit (c ∷ []) = some c
parse_digit _ = none

abbrev any_item : ℕ → ℕ → ℕ → Option ℕ
any_item index line j = some j

abbrev three_lines : Lines
three_lines = record { lines = (b'1' ∷ []) ∷ [] ∷ (b'{' ∷ b'2' ∷ []) ∷ []; end = finished }

three_lines_end : (parse_ndjson parse_digit any_item three_lines).end ≡ malformed 3
unfolding decode_ndjson is_blank
three_lines_end = refl

parse_ndjson_malformed_example :
    is_malformed parse_digit any_item (line_at parse_digit any_item 0 three_lines.lines 3) ≡ true
parse_ndjson_malformed_example =
    parse_ndjson_malformed parse_digit any_item three_lines 3 three_lines_end

abbrev greeting : Message
greeting = record {
  first = b'h' ∷ b'i' ∷ [];
  others = (b'!' ∷ []) ∷ [];
  event = b'm' ∷ [];
  id = b'7' ∷ [];
}

greeting-IsMessage : IsMessage greeting
unfolding has
greeting-IsMessage = record {
  named = refl;
  sound = refl;
  event_line = (refl, refl);
  id_line = (refl, refl);
  texts = ((refl, refl), ((refl, refl), tt));
}

-- The message in chunks of the first code point and the others.
abbrev first_and_others : Text → List Text
first_and_others [] = []
first_and_others (c ∷ t) = (c ∷ []) ∷ t ∷ []

abbrev greeting_chunks : List Text
greeting_chunks = first_and_others (write_messages (greeting ∷ []))

greeting_whole : text_of greeting_chunks ≡ write_messages (greeting ∷ [])
greeting_whole = refl

parse_events-write_example :
    let read =
      parse_events accept unobserved
        (decode_lines one_byte no_limits initial (map piece greeting_chunks)) in
    (read.items ≡ event_of greeting ∷ []) × (read.end ≡ ended finished)
parse_events-write_example =
    parse_events-write one_byte (greeting ∷ []) greeting_chunks (greeting-IsMessage, tt)
      greeting_whole
