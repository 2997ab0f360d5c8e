-- ===== src/Retry/Server.antt =====
-- The delay that a server asks for, in src/plugins/retryPlugin.ts. `date_parse` is `Date.parse`, in
-- milliseconds, of a text that is a date; a date before 1970 counts as 1970, which is as past.
use Prim.Native.Char.{Char, code}
use request.Base.{
  ℕ, ◌+◌, ◌-◌, ◌*◌, Bool, true, false, ◌&&◌, ◌||◌, Option, none, some, String, leb, ◌==◌,
  if◌then◌else◌,
}
use request.Retry.Options.{Failure, request_error, other_error}

pub record Timing : Type 0 where
  pub value : String
  pub allow_timestamp : Bool

abbrev timing : String → Bool → Timing
timing value allowed = record { value = value; allow_timestamp = allowed }

unfoldable pub server_retry_timing : (String → Option String) → Option Timing
server_retry_timing lookup = elim (lookup "retry-after") [
  | some v ↦ some (timing v false)
  | none ↦ elim (lookup "ratelimit-reset") [
    | some v ↦ some (timing v true)
    | none ↦ elim (lookup "x-ratelimit-retry-after") [
      | some v ↦ some (timing v false)
      | none ↦ elim (lookup "x-ratelimit-reset") [
        | some v ↦ some (timing v true)
        | none ↦ elim (lookup "x-rate-limit-reset") [ some v ↦ some (timing v true) | none ↦ none ]
      ]
    ]
  ]
]

abbrev is_digit : Char → Bool
is_digit c = leb 48 (code c) && leb (code c) 57

-- The digits of a text, read after the number `n`.
unfoldable pub digits_from : ℕ → String → Option ℕ
digits_from n String.[] = some n
digits_from n (String.◌∷◌ c s) =
    let rest = digits_from (n * 10 + (code c - 48)) s in if is_digit c then rest else none

-- `/^\d+$/.test(value)`, and `Number(value)` if so.
unfoldable pub decimal : String → Option ℕ
decimal String.[] = none
decimal (String.◌∷◌ c s) = digits_from 0 (String.◌∷◌ c s)

unfoldable pub includes_colon : String → Bool
includes_colon String.[] = false
includes_colon (String.◌∷◌ c s) = code c == 58 || includes_colon s

-- `/^(Mo|T[uh]|We|Fr|S[au])/`
unfoldable pub starts_with_day : String → Bool
starts_with_day (String.◌∷◌ c (String.◌∷◌ d s)) =
    (code c == 77 && code d == 111)
    || (code c == 84 && (code d == 117 || code d == 104))
    || (code c == 87 && code d == 101)
    || (code c == 70 && code d == 114)
    || (code c == 83 && (code d == 97 || code d == 117))
starts_with_day _ = false

-- `Date.parse('2024-01-01T00:00:00Z')`
abbrev pub earliest_timestamp : ℕ
earliest_timestamp = 1_704_067_200_000

module _ (ms : ℕ) (date_parse : String → Option ℕ) where
  unfoldable pub timing_delay : Timing → ℕ → Option ℕ
  timing_delay t now = elim (decimal t.value) [
    | some n ↦
        let delay = n * 1000 * ms in
        some
          (if t.allow_timestamp && leb (earliest_timestamp * ms) delay then delay - now else delay)
    | none ↦
        let at : Option ℕ = elim (date_parse t.value) [
          | none ↦ none
          | some d ↦ some (d * ms - now)
        ] in
        if includes_colon t.value && starts_with_day t.value then at else none
  ]

  unfoldable pub parse_server_retry_delay : Failure → ℕ → Option ℕ
  parse_server_retry_delay other_error now = none
  parse_server_retry_delay (request_error c s none) now = none
  parse_server_retry_delay (request_error c s (some lookup)) now =
      elim (server_retry_timing lookup) [ none ↦ none | some t ↦ timing_delay t now ]
