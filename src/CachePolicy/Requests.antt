-- ===== src/CachePolicy/Requests.antt =====
-- What the policy of a request in src/plugins/cachePolicy.ts depends on.
use request.Base.{
  ◌==◌, ◌≡◌, refl, sym, ap, ◌∙◌, Bool, true, false, ◌&&◌, ◌||◌, List, [], ◌∷◌, Option, none, some,
  arith, if◌then◌else◌,
}
use request.Stream.Lines.{Text, is_empty}
use request.Headers.Fields.{Fields, find}
use request.CachePolicy.Directives.{
  split_commas, prepend, is_no_store, is_no_cache, pragma_name, cache_control_name,
}
use request.CachePolicy.Policy.{
  RequestCachePolicy, by_default, revalidates, no_store, is_expired, request_directives, any_text,
  any_item, is_no_cache_pragma, resolve_request_cache_policy, policy_by, directives_in,
  directives_of,
}

-- The policy of a request, read off its directives.
abbrev pub described_policy : List Text → Bool → RequestCachePolicy
described_policy vs pragma =
    if any_text is_no_store vs
    then no_store
    else (if any_text (λ v. is_no_cache v || is_expired v) vs || pragma
        then revalidates
        else by_default)

request_directives_lem :
    (r : Bool) (vs : List Text) → request_directives r vs ≡ described_policy vs r
unfolding request_directives any_text
request_directives_lem true [] = refl
request_directives_lem false [] = refl
request_directives_lem r (v ∷ vs) =
    ground (arith, request_directives_lem (r || is_no_cache v || is_expired v) vs)

split_commas-full : (t : Text) → is_empty (split_commas t) ≡ false
unfolding split_commas
split_commas-full [] = refl
split_commas-full (c ∷ t) = full (split_commas t)
  where
    full : (ts : List Text) → is_empty (if c == b',' then [] ∷ ts else prepend c ts) ≡ false
    full [] = ground arith
    full (u ∷ ts) = ground arith

policy_by_lem :
    (value : Option Text) (pragma : Bool)
    → policy_by value (if pragma then revalidates else by_default)
      ≡ described_policy (directives_in value) (is_empty (directives_in value) && pragma)
unfolding any_text
policy_by_lem none pragma = refl
policy_by_lem (some []) pragma = refl
policy_by_lem (some (c ∷ t)) pragma =
    request_directives_lem false (split_commas (c ∷ t))
    ∙ ap (λ e. described_policy (split_commas (c ∷ t)) (e && pragma))
        (sym (split_commas-full (c ∷ t)))

-- A request is sent on without the cache if a directive says so, and has a stored response checked if
-- a directive asks for that, or, where there are no directives, an old Pragma.
pub resolve_request_cache_policy_lem :
    (headers : Fields)
    → resolve_request_cache_policy headers
      ≡ described_policy (directives_of headers) (
          is_empty (directives_of headers)
          && any_item is_no_cache_pragma (find pragma_name headers))
unfolding resolve_request_cache_policy
resolve_request_cache_policy_lem headers =
    policy_by_lem (find cache_control_name headers)
      (any_item is_no_cache_pragma (find pragma_name headers))
