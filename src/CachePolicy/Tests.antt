-- ===== src/CachePolicy/Tests.antt =====
-- Policies of src/plugins/cachePolicy.ts at concrete headers.
use request.Base.{◌≡◌, refl, [], ◌∷◌, ◌++◌, none, some, ◌&&◌}
use request.Limits.{Timeout, millis}
use request.Stream.Lines.{Text, is_empty}
use request.Stream.Events.{same_text, has, digits_from}
use request.Headers.Fields.{Fields, find, lower_case}
use request.CachePolicy.Directives.{
  split_commas, trim_start, trim_end, before_equals, after_equals, read_directive, before_quote,
  delta_seconds, no_cache_name, max_age_name, cache_control_name, pragma_name, age_name,
}
use request.CachePolicy.Policy.{
  revalidates, any_text, any_item, is_no_cache_pragma, resolve_request_cache_policy,
  response_directives, resolve_response_cache_policy, no_cache_policy, directives_of, parse_age,
  policy_of, resolve_window,
}
use request.CachePolicy.Requests.{described_policy, resolve_request_cache_policy_lem}
use request.CachePolicy.Freshness.{
  Fresh, resolve_response_cache_policy-Fresh, resolve_response_cache_policy_no_store,
}

-- `Private, max-age="60"`, at the age of 10 seconds.
abbrev sixty : Text
sixty = b'P' ∷ b'r' ∷ b',' ∷ b' ' ∷ (max_age_name ++ b'=' ∷ b'"' ∷ b'6' ∷ b'0' ∷ b'"' ∷ [])

abbrev aged : Fields
aged = (cache_control_name, sixty) ∷ (age_name, b'1' ∷ b'0' ∷ []) ∷ []

abbrev hour : Timeout
hour = millis 3600000

aged_ttl : (resolve_response_cache_policy aged hour none none).ttl ≡ millis 50000
unfolding resolve_response_cache_policy policy_of response_directives find parse_age digits_from
    split_commas trim_start trim_end before_equals after_equals read_directive before_quote
    delta_seconds same_text has lower_case any_text resolve_window
aged_ttl = refl

resolve_response_cache_policy-Fresh_example :
    Fresh aged hour none none (resolve_response_cache_policy aged hour none none).ttl
unfolding resolve_response_cache_policy policy_of response_directives find parse_age digits_from
    split_commas trim_start trim_end before_equals after_equals read_directive before_quote
    delta_seconds same_text has lower_case any_text resolve_window
resolve_response_cache_policy-Fresh_example =
    resolve_response_cache_policy-Fresh aged hour none none refl

-- `No-Store , max-age=1`
abbrev secret : Fields
secret =
    (
      cache_control_name,
      b'N'
          ∷ b'o'
          ∷ b'-'
          ∷ b'S'
          ∷ b't'
          ∷ b'o'
          ∷ b'r'
          ∷ b'e'
          ∷ b' '
          ∷ b','
          ∷ (max_age_name ++ b'=' ∷ b'1' ∷ []),
    )
    ∷ []

resolve_response_cache_policy_no_store_example :
    resolve_response_cache_policy secret hour (some hour) none ≡ no_cache_policy
unfolding any_text find split_commas read_directive trim_start trim_end before_equals same_text
    lower_case
resolve_response_cache_policy_no_store_example =
    resolve_response_cache_policy_no_store secret hour (some hour) none refl

abbrev old_style : Fields
old_style = (pragma_name, no_cache_name) ∷ []

old_style_revalidates : resolve_request_cache_policy old_style ≡ revalidates
unfolding resolve_request_cache_policy any_text find split_commas trim_start trim_end same_text
    lower_case
old_style_revalidates = refl

resolve_request_cache_policy_lem_example :
    resolve_request_cache_policy old_style
    ≡ described_policy (directives_of old_style) (
        is_empty (directives_of old_style)
        && any_item is_no_cache_pragma (find pragma_name old_style))
resolve_request_cache_policy_lem_example = resolve_request_cache_policy_lem old_style
