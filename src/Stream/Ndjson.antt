-- ===== src/Stream/Ndjson.antt =====
-- `decodeNdjson` of src/utils/parseStreamingResponse.ts over the lines of its stream. `parse_json` is
-- `JSON.parse`, `validate` the schema, with the index of the item and the number of its line.
use request.Base.{
  ℕ, ◌+◌, ◌<◌, ◌≡◌, Bool, true, false, not, ◌&&◌, ◌||◌, List, [], ◌∷◌, Option, none, some, leb,
  ◌==◌, if◌then◌else◌, arith,
}
use request.Stream.Lines.{Text, End, Lines}

-- White space and line terminators, as `String.prototype.trim` removes them.
abbrev pub is_white : ℕ → Bool
is_white c =
    (leb 9 c && leb c 13)
    || c == 32
    || c == 0xA0
    || c == 0x1680
    || (leb 0x2000 c && leb c 0x200A)
    || c == 0x2028
    || c == 0x2029
    || c == 0x202F
    || c == 0x205F
    || c == 0x3000
    || c == 0xFEFF

-- `line.trim() === ''`
unfoldable pub is_blank : Text → Bool
is_blank [] = true
is_blank (c ∷ t) = is_white c && is_blank t

-- How the items end: as the lines do, at a line that is no JSON, or at one that the schema refuses.
pub data NdjsonEnd : Type 0 where
  ended : End → NdjsonEnd
  malformed refused : ℕ → NdjsonEnd

pub record NdjsonItems {ℓ} (V : Type ℓ) : Type ℓ where
  pub items : List V
  pub end : NdjsonEnd

module _ {ℓ κ} {J : Type ℓ} {V : Type κ} (parse_json : Text → Option J)
    (validate : ℕ → ℕ → J → Option V) where
  unfoldable pub decode_ndjson : ℕ → ℕ → List Text → End → NdjsonItems V
  decode_ndjson number index [] end = record { items = []; end = ended end }
  decode_ndjson number index (l ∷ ls) end = elim (is_blank l) [
    | true ↦ decode_ndjson (number + 1) index ls end
    | false ↦ elim (parse_json l) [
      | none ↦ record { items = []; end = malformed (number + 1) }
      | some j ↦ elim (validate index (number + 1) j) [
        | none ↦ record { items = []; end = refused (number + 1) }
        | some v ↦
            let rest = decode_ndjson (number + 1) (index + 1) ls end in
            record rest { items = v ∷ rest.items }
      ]
    ]
  ]

  abbrev pub parse_ndjson : Lines → NdjsonItems V
  parse_ndjson ls = decode_ndjson 0 0 ls.lines ls.end

  -- The line of the number `n` from `number` on.
  abbrev pub line_at : ℕ → List Text → ℕ → Option Text
  line_at number [] n = none
  line_at number (l ∷ ls) n = if n == number + 1 then some l else line_at (number + 1) ls n

  abbrev fails : Option J → Bool
  fails none = true
  fails (some j) = false

  -- A line that is there, not blank, and no JSON.
  abbrev pub is_malformed : Option Text → Bool
  is_malformed none = false
  is_malformed (some l) = not (is_blank l) && fails (parse_json l)

  malformed_line :
      (number index n : ℕ) (ls : List Text) (end : End)
      → (decode_ndjson number index ls end).end ≡ malformed n
      → (number < n) × (is_malformed (line_at number ls n) ≡ true)
  unfolding decode_ndjson
  malformed_line number index n [] end h = ground arith
  malformed_line number index n (l ∷ ls) end h = ground (
    arith,
    malformed_line (number + 1) index n ls end,
    malformed_line (number + 1) (index + 1) n ls end,
  )

  -- A parse error of a newline-delimited JSON response names a line of the stream that is not blank and
  -- no JSON.
  pub parse_ndjson_malformed :
      (ls : Lines) (n : ℕ)
      → (parse_ndjson ls).end ≡ malformed n
      → is_malformed (line_at 0 ls.lines n) ≡ true
  parse_ndjson_malformed ls n h = (malformed_line 0 0 n ls.lines ls.end h).1
