-- ===== src/Stream/Lines.antt =====
-- `decodeLines` of src/utils/parseStreamingResponse.ts. What the reader and the text decoder give is
-- a list of reads, the flush of the decoder last; `width` is the number of bytes of a code point.
use request.Base.{
  ℕ, ◌+◌, Bool, true, false, ◌&&◌, ◌||◌, List, [], ◌∷◌, ◌++◌, Option, none, some, leb, ◌==◌,
  if◌then◌else◌,
}

abbrev pub Text : Type 0
Text = List ℕ

-- A read gives a text, or rejects: the stream broke, its bytes are no UTF-8, or it was aborted.
pub data Read : Type 0 where
  piece : Text → Read
  rejects : Read

-- `maxStreamLineSize` and `maxSseEventSize`, where they are finite numbers.
pub record Limits : Type 0 where
  pub line : Option ℕ
  pub event : Option ℕ

pub record Decoder : Type 0 where
  pub fragments : List Text
  pub skip_lf : Bool
  pub fragment_size : ℕ
  pub event_size : ℕ

abbrev pub initial : Decoder
initial = record { fragments = []; skip_lf = false; fragment_size = 0; event_size = 0 }

-- How the lines end: with the stream, with an error of the stream, or above a limit.
pub data End : Type 0 where
  finished failed too_large : End

pub record Lines : Type 0 where
  pub lines : List Text
  pub end : End

abbrev pub yield : Text → Lines → Lines
yield l s = record s { lines = l ∷ s.lines }

abbrev pub is_empty {ℓ} : {A : Type ℓ} → List A → Bool
is_empty [] = true
is_empty (x ∷ xs) = false

-- `fragments.join('')`
abbrev pub join : List Text → Text
join [] = []
join (f ∷ fs) = f ++ join fs

abbrev pub within : Option ℕ → ℕ → Bool
within none n = true
within (some m) n = leb n m

abbrev pub is_set : Option ℕ → Bool
is_set none = false
is_set (some m) = true

abbrev pub is_limited : Limits → Bool
is_limited lim = is_set lim.line || is_set lim.event

-- The line feed that a carriage return at the end of the chunk before has answered for.
abbrev pub skip_first : Text → Decoder → Text × Decoder
skip_first [] d = ([], d)
skip_first (c ∷ t) d = (if d.skip_lf && c == b'\n' then t else c ∷ t, record d { skip_lf = false })

abbrev pub emit : List Text → Lines → Lines
emit [] s = s
emit (l ∷ ls) s = yield l (emit ls s)

abbrev pub last_line : Decoder → Lines
last_line d = record {
  lines = if is_empty d.fragments then [] else join d.fragments ∷ [];
  end = finished;
}

module _ (width : ℕ → ℕ) where
  -- `encoder.encode(text).byteLength`
  abbrev pub text_size : Text → ℕ
  text_size [] = 0
  text_size (c ∷ t) = width c + text_size t

  abbrev measured : Limits → Text → Decoder → Decoder
  measured lim t d = record d { fragment_size = d.fragment_size + text_size t }

  abbrev pub is_within : Limits → Decoder → Bool
  is_within lim d =
      within lim.line d.fragment_size && within lim.event (d.event_size + d.fragment_size)

  -- `measure`: `none` is the error RESPONSE_TOO_LARGE.
  unfoldable pub measure : Limits → Text → Decoder → Option Decoder
  measure lim t d =
      let m = measured lim t d in
      if is_limited lim then (if is_within lim m then some m else none) else some d

  -- The line that ends with the slice `t`, and the decoder behind it.
  abbrev pub end_line : Text → Bool → Decoder → Text × Decoder
  end_line t skip d =
      let line = join d.fragments ++ t in
      (
        line,
        record {
          fragments = [];
          skip_lf = skip;
          fragment_size = 0;
          event_size = if is_empty line then 0 else d.event_size + d.fragment_size;
        },
      )

  -- The `for` over a chunk: `t` is the slice from `start` to `index`, then comes the rest. What the
  -- chunk yields, and the decoder behind it unless a limit was exceeded.
  unfoldable pub scan : Limits → Text → Text → Decoder → List Text × Option Decoder
  scan lim t [] d = elim (is_empty t) [
    | true ↦ ([], some d)
    | false ↦ elim (measure lim t d) [
      | none ↦ ([], none)
      | some m ↦ ([], some (record m { fragments = m.fragments ++ t ∷ [] }))
    ]
  ]
  scan lim t (c ∷ []) d = elim (c == b'\n' || c == b'\r') [
    | false ↦ scan lim (t ++ c ∷ []) [] d
    | true ↦ elim (measure lim t d) [
      | none ↦ ([], none)
      | some m ↦
          let (line, next) = end_line t (c == b'\r') m in
          let rest = scan lim [] [] next in (line ∷ rest.0, rest.1)
    ]
  ]
  scan lim t (c ∷ e ∷ r) d = elim (c == b'\n' || c == b'\r') [
    | false ↦ scan lim (t ++ c ∷ []) (e ∷ r) d
    | true ↦ elim (measure lim t d) [
      | none ↦ ([], none)
      | some m ↦
          let (line, next) = end_line t false m in
          elim (c == b'\r' && e == b'\n') [
            | true ↦ let rest = scan lim [] r next in (line ∷ rest.0, rest.1)
            | false ↦ let rest = scan lim [] (e ∷ r) next in (line ∷ rest.0, rest.1)
          ]
    ]
  ]

  -- The `while` over the reads. What a chunk yields comes before what follows it.
  unfoldable pub decode_lines : Limits → Decoder → List Read → Lines
  decode_lines lim d [] = last_line d
  decode_lines lim d (rejects ∷ more) = record { lines = []; end = failed }
  decode_lines lim d (piece chunk ∷ more) =
      let (t, s) = skip_first chunk d in
      let done = scan lim [] t s in
      elim done.1 [
        | none ↦ record { lines = done.0; end = too_large }
        | some next ↦ emit done.0 (decode_lines lim next more)
      ]

  abbrev pub behind_chunk : Limits → List Text × Option Decoder → List Read → Lines
  behind_chunk lim done more = elim done.1 [
    | none ↦ record { lines = done.0; end = too_large }
    | some next ↦ emit done.0 (decode_lines lim next more)
  ]
