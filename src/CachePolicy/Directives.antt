-- ===== src/CachePolicy/Directives.antt =====
-- Directives of a Cache-Control header, as src/plugins/cachePolicy.ts reads them.
use request.Base.{ℕ, Bool, ◌&&◌, List, [], ◌∷◌, Option, none, some, ◌==◌, if◌then◌else◌}
use request.Stream.Lines.{Text, is_empty}
use request.Stream.Events.{same_text, has, digits_from}
use request.Stream.Ndjson.{is_white}
use request.Headers.Fields.{lower_case}

abbrev pub prepend : ℕ → List Text → List Text
prepend c [] = (c ∷ []) ∷ []
prepend c (t ∷ ts) = (c ∷ t) ∷ ts

-- `split(',')`
unfoldable pub split_commas : Text → List Text
split_commas [] = [] ∷ []
split_commas (c ∷ t) = let rest = split_commas t in if c == b',' then [] ∷ rest else prepend c rest

unfoldable pub trim_start : Text → Text
trim_start [] = []
trim_start (c ∷ t) = let rest = trim_start t in if is_white c then rest else c ∷ t

unfoldable pub trim_end : Text → Text
trim_end [] = []
trim_end (c ∷ t) = let rest = trim_end t in if is_white c && is_empty rest then [] else c ∷ rest

abbrev pub trim : Text → Text
trim t = trim_end (trim_start t)

-- What stands before and behind the first `=`.
unfoldable pub before_equals : Text → Text
before_equals [] = []
before_equals (c ∷ t) = let rest = before_equals t in if c == b'=' then [] else c ∷ rest

unfoldable pub after_equals : Text → Text
after_equals [] = []
after_equals (c ∷ t) = let rest = after_equals t in if c == b'=' then t else rest

-- `is_separated` says that the directive has a `=`; its argument is the whole of it otherwise.
pub record Directive : Type 0 where
  pub name : Text
  pub is_separated : Bool
  pub argument : Text

unfoldable pub read_directive : Text → Directive
read_directive value =
    let d = trim value in
    record {
      name = lower_case (trim (before_equals d));
      is_separated = has b'=' d;
      argument = trim (if has b'=' d then after_equals d else d);
    }

-- `/^\d+$/`, and the number.
abbrev pub decimal : Text → Option ℕ
decimal [] = none
decimal (c ∷ t) = digits_from 0 (c ∷ t)

-- A text before a quotation mark at its end.
unfoldable pub before_quote : Text → Option Text
before_quote [] = none
before_quote (c ∷ t) =
    let rest = before_quote t in
    if is_empty t
    then (if c == b'"' then some [] else none)
    else elim rest [ none ↦ none | some u ↦ some (c ∷ u) ]

-- `/^(?:"(\d+)"|(\d+))$/`, and the number.
unfoldable pub delta_seconds : Text → Option ℕ
delta_seconds [] = none
delta_seconds (c ∷ t) =
    if c == b'"'
    then elim (before_quote t) [ none ↦ none | some u ↦ decimal u ]
    else decimal (c ∷ t)

abbrev pub no_store_name : Text
no_store_name = b'n' ∷ b'o' ∷ b'-' ∷ b's' ∷ b't' ∷ b'o' ∷ b'r' ∷ b'e' ∷ []

abbrev pub no_cache_name : Text
no_cache_name = b'n' ∷ b'o' ∷ b'-' ∷ b'c' ∷ b'a' ∷ b'c' ∷ b'h' ∷ b'e' ∷ []

abbrev pub max_age_name : Text
max_age_name = b'm' ∷ b'a' ∷ b'x' ∷ b'-' ∷ b'a' ∷ b'g' ∷ b'e' ∷ []

abbrev pub cache_control_name : Text
cache_control_name =
    b'c' ∷ b'a' ∷ b'c' ∷ b'h' ∷ b'e' ∷ b'-' ∷ b'c' ∷ b'o' ∷ b'n' ∷ b't' ∷ b'r' ∷ b'o' ∷ b'l' ∷ []

abbrev pub pragma_name : Text
pragma_name = b'p' ∷ b'r' ∷ b'a' ∷ b'g' ∷ b'm' ∷ b'a' ∷ []

abbrev pub vary_name : Text
vary_name = b'v' ∷ b'a' ∷ b'r' ∷ b'y' ∷ []

abbrev pub age_name : Text
age_name = b'a' ∷ b'g' ∷ b'e' ∷ []

abbrev pub etag_name : Text
etag_name = b'e' ∷ b't' ∷ b'a' ∷ b'g' ∷ []

abbrev pub last_modified_name : Text
last_modified_name =
    b'l' ∷ b'a' ∷ b's' ∷ b't' ∷ b'-' ∷ b'm' ∷ b'o' ∷ b'd' ∷ b'i' ∷ b'f' ∷ b'i' ∷ b'e' ∷ b'd' ∷ []

abbrev pub stale_if_error_name : Text
stale_if_error_name =
    b's' ∷ b't' ∷ b'a' ∷ b'l' ∷ b'e' ∷ b'-' ∷ b'i' ∷ b'f' ∷ b'-' ∷ b'e' ∷ b'r' ∷ b'r' ∷ b'o' ∷ b'r'
    ∷ []

abbrev pub stale_while_revalidate_name : Text
stale_while_revalidate_name =
    b's' ∷ b't' ∷ b'a' ∷ b'l' ∷ b'e' ∷ b'-' ∷ b'w' ∷ b'h' ∷ b'i' ∷ b'l' ∷ b'e' ∷ b'-' ∷ b'r' ∷ b'e'
    ∷ b'v' ∷ b'a' ∷ b'l' ∷ b'i' ∷ b'd' ∷ b'a' ∷ b't' ∷ b'e' ∷ []

abbrev pub is_no_store : Text → Bool
is_no_store value = same_text (read_directive value).name no_store_name

abbrev pub is_no_cache : Text → Bool
is_no_cache value = same_text (read_directive value).name no_cache_name

abbrev pub is_max_age : Text → Bool
is_max_age value = same_text (read_directive value).name max_age_name

abbrev pub seconds_of : Text → Option ℕ
seconds_of value = delta_seconds (read_directive value).argument
