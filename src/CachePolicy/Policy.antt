-- ===== src/CachePolicy/Policy.antt =====
-- `resolveRequestCachePolicy` and `resolveResponseCachePolicy` of src/plugins/cachePolicy.ts. Headers are a
-- `Headers` object: their names are in lower case. A configured time is a whole number of milliseconds or
-- infinite.
use request.Base.{
  ℕ, zero, ◌-◌, ◌*◌, min, Bool, true, false, not, ◌&&◌, ◌||◌, List, [], ◌∷◌, Option, none, some,
  leb, ltb, if◌then◌else◌, max_safe_integer,
}
use request.Limits.{Timeout, millis, forever}
use request.Stream.Lines.{Text}
use request.Stream.Events.{same_text}
use request.Headers.Fields.{Fields, find, lower_case}
use request.CachePolicy.Directives.{
  split_commas, trim, read_directive, decimal, no_cache_name, cache_control_name, pragma_name,
  vary_name, age_name, etag_name, last_modified_name, stale_if_error_name,
  stale_while_revalidate_name, is_no_store, is_no_cache, is_max_age, seconds_of,
}

pub data RequestCachePolicy : Type 0 where
  by_default revalidates no_store : RequestCachePolicy

abbrev is_zero : Option ℕ → Bool
is_zero (some zero) = true
is_zero _ = false

-- A `max-age` that is zero.
abbrev pub is_expired : Text → Bool
is_expired value =
    is_max_age value && (read_directive value).is_separated && is_zero (seconds_of value)

-- The loop over the directives; `revalidate` is the flag.
unfoldable pub request_directives : Bool → List Text → RequestCachePolicy
request_directives revalidate [] = if revalidate then revalidates else by_default
request_directives revalidate (v ∷ vs) =
    let next = request_directives (revalidate || is_no_cache v || is_expired v) vs in
    if is_no_store v then no_store else next

unfoldable pub any_text : (Text → Bool) → List Text → Bool
any_text p [] = false
any_text p (t ∷ ts) = p t || any_text p ts

-- Whether an item of the list in a header, which may be missing, passes a test.
abbrev pub any_item : (Text → Bool) → Option Text → Bool
any_item p none = false
any_item p (some value) = any_text p (split_commas value)

abbrev pub is_no_cache_pragma : Text → Bool
is_no_cache_pragma value = same_text (lower_case (trim value)) no_cache_name

-- The policy by the value of Cache-Control, which an empty one leaves to that by Pragma.
abbrev pub policy_by : Option Text → RequestCachePolicy → RequestCachePolicy
policy_by none by_pragma = by_pragma
policy_by (some []) by_pragma = by_pragma
policy_by (some (c ∷ t)) by_pragma = request_directives false (split_commas (c ∷ t))

unfoldable pub resolve_request_cache_policy : Fields → RequestCachePolicy
resolve_request_cache_policy headers =
    policy_by (find cache_control_name headers)
      (if any_item is_no_cache_pragma (find pragma_name headers) then revalidates else by_default)

pub record ResponseCachePolicy : Type 0 where
  pub persist : Bool
  pub ttl : Timeout

abbrev pub no_cache_policy : ResponseCachePolicy
no_cache_policy = record { persist = false; ttl = millis 0 }

-- What the loop over the directives comes to: the policy NO_CACHE_POLICY, or `maxAgeSeconds` and
-- `requiresRevalidation`.
pub data Directives : Type 0 where
  refused : Directives
  read : Option ℕ → Bool → Directives

unfoldable pub response_directives : Option ℕ → Bool → List Text → Directives
response_directives max_age requires [] = read max_age requires
response_directives max_age requires (v ∷ vs) =
    let revalidating = response_directives max_age true vs in
    let other = response_directives max_age requires vs in
    let aged = λ (n : ℕ). response_directives (some n) requires vs in
    if is_no_store v
    then refused
    else (if is_no_cache v
        then revalidating
        else (if not (is_max_age v) then other else elim max_age [
          | some n ↦ refused
          | none ↦ elim (seconds_of v) [ none ↦ refused | some n ↦ aged n ]
        ]))

-- `isRequestCacheControlHeader`, or any header.
abbrev pub is_varying : Text → Bool
is_varying value =
    let name = lower_case (trim value) in
    same_text name (b'*' ∷ []) || same_text name cache_control_name || same_text name pragma_name

abbrev pub positive : Timeout → Bool
positive (millis n) = ltb 0 n
positive forever = true

abbrev pub at_most : Timeout → ℕ → Timeout
at_most (millis m) n = millis (min m n)
at_most forever n = millis n

unfoldable pub parse_age : Option Text → ℕ
parse_age none = 0
parse_age (some value) = elim (decimal (trim value)) [
  | none ↦ 0
  | some n ↦ if leb n max_safe_integer then n else 0
]

-- The loop of `parseCacheDeltaSeconds`, with the seconds that were read before.
unfoldable pub parse_directive : Option ℕ → Text → List Text → Option ℕ
parse_directive seconds name [] = seconds
parse_directive seconds name (v ∷ vs) =
    let other = parse_directive seconds name vs in
    let aged = λ (n : ℕ). parse_directive (some n) name vs in
    let d = read_directive v in
    if not d.is_separated || not (same_text d.name name) then other else elim seconds [
      | some n ↦ none
      | none ↦ elim (seconds_of v) [ none ↦ none | some n ↦ aged n ]
    ]

unfoldable pub parse_cache_delta_seconds : Option Text → Text → Option ℕ
parse_cache_delta_seconds none name = none
parse_cache_delta_seconds (some value) name =
    elim (parse_directive none name (split_commas value)) [
      | none ↦ none
      | some n ↦
          if leb n max_safe_integer && leb (n * 1000) max_safe_integer
          then some (n * 1000)
          else none
    ]

unfoldable pub resolve_window : Fields → Option Timeout → Text → Timeout
resolve_window headers configured directive =
    let server = parse_cache_delta_seconds (find cache_control_name headers) directive in
    elim configured [
      | none ↦ elim server [ none ↦ millis 0 | some n ↦ millis n ]
      | some c ↦ elim server [ none ↦ c | some n ↦ at_most c n ]
    ]

abbrev has_field : Option Text → Bool
has_field none = false
has_field (some v) = true

abbrev pub has_response_validator : Fields → Bool
has_response_validator headers =
    has_field (find etag_name headers) || has_field (find last_modified_name headers)

abbrev pub is_safe_age : Option ℕ → Bool
is_safe_age none = true
is_safe_age (some n) = leb n max_safe_integer

-- The time that a response is fresh. Where a product passes 2^53 the source rounds it.
abbrev pub time_to_live : Timeout → Option ℕ → Bool → ℕ → Timeout
time_to_live configured max_age true age = millis 0
time_to_live configured none false age = configured
time_to_live configured (some n) false age = at_most configured ((n - age) * 1000)

-- An empty header has no directives.
abbrev pub directives_in : Option Text → List Text
directives_in none = []
directives_in (some []) = []
directives_in (some (c ∷ t)) = split_commas (c ∷ t)

abbrev pub directives_of : Fields → List Text
directives_of headers = directives_in (find cache_control_name headers)

module _ (headers : Fields) (configured : Timeout)
    (if_error while_revalidate : Option Timeout) where
  -- What follows the loop over the directives.
  unfoldable pub policy_of : Directives → ResponseCachePolicy
  policy_of refused = no_cache_policy
  policy_of (read max_age requires) =
      let ttl = time_to_live configured max_age requires (parse_age (find age_name headers)) in
      if any_item is_varying (find vary_name headers)
        || not (positive configured)
        || not (is_safe_age max_age)
      then no_cache_policy
      else record {
        persist =
            positive ttl
            || has_response_validator headers
            || positive (resolve_window headers if_error stale_if_error_name)
            || (not requires
                && positive (resolve_window headers while_revalidate stale_while_revalidate_name));
        ttl = ttl;
      }

  unfoldable pub resolve_response_cache_policy : ResponseCachePolicy
  resolve_response_cache_policy = policy_of (response_directives none false (directives_of headers))
