-- ===== src/CachePolicy/Freshness.antt =====
-- What the policy of a response in src/plugins/cachePolicy.ts promises.
use request.Base.{
  ℕ, ◌-◌, ◌*◌, ◌≤◌, ◌≡◌, refl, sym, subst, Bool, true, false, not, ◌||◌, List, [], ◌∷◌, Option,
  none, some, All, arith, if_cases, option_cases,
}
use request.Limits.{Timeout, millis, forever}
use request.Stream.Lines.{Text}
use request.Headers.Fields.{Fields, find}
use request.CachePolicy.Directives.{
  is_no_store, is_no_cache, is_max_age, seconds_of, vary_name, age_name,
}
use request.CachePolicy.Policy.{
  any_text, any_item, ResponseCachePolicy, no_cache_policy, policy_of, is_safe_age, Directives,
  refused, read, response_directives, is_varying, positive, at_most, parse_age, time_to_live,
  directives_of, resolve_response_cache_policy,
}

-- What a directive demands of the ways in which the rest of the header was read.
abbrev pub Heeded : Option ℕ → Bool → Text → Type 0
Heeded max_age requires v =
    (is_no_store v ≡ false)
    × (is_no_cache v ≡ true → requires ≡ true)
    × (is_no_cache v ≡ false
        → is_max_age v ≡ true
        → (n : ℕ) × ((seconds_of v ≡ some n) × (max_age ≡ some n)))

abbrev Kept : Option ℕ → Bool → List Text → Directives → Type 0
Kept max_age requires vs refused = Unit
Kept max_age requires vs (read a r) =
    All (Heeded a r) vs × (requires ≡ true → r ≡ true) × ((n : ℕ) → max_age ≡ some n → a ≡ some n)

-- A directive in front, read with `before`, where the rest is read with `after`.
Kept-cons :
    (before after : Option ℕ) (r q : Bool) (v : Text) (vs : List Text)
    → (r ≡ true → q ≡ true)
    → ((n : ℕ) → before ≡ some n → after ≡ some n)
    → ((a : Option ℕ) (x : Bool)
        → (q ≡ true → x ≡ true)
        → ((n : ℕ) → after ≡ some n → a ≡ some n)
        → Heeded a x v)
    → (d : Directives) → Kept after q vs d
    → Kept before r (v ∷ vs) d
Kept-cons before after r q v vs up same heed refused k = tt
Kept-cons before after r q v vs up same heed (read a x) (k, l, m) =
    ((heed a x l m, k), (λ h. l (up h)), (λ n h. m n (same n h)))

response_directives-Kept :
    (max_age : Option ℕ) (requires : Bool) (vs : List Text)
    → Kept max_age requires vs (response_directives max_age requires vs)
unfolding response_directives
response_directives-Kept max_age requires [] = (tt, (λ h. h), (λ n h. h))
response_directives-Kept max_age requires (v ∷ vs) =
    if_cases (Kept max_age requires (v ∷ vs)) (is_no_store v) _ _ (λ stores. tt)
      (λ keeps.
        if_cases (Kept max_age requires (v ∷ vs)) (is_no_cache v) _ _
          (λ checks.
            Kept-cons max_age max_age requires true v vs (λ h. refl) (λ n h. h)
              (λ a x l m. (keeps, (λ h. l refl), (λ h. absurd (ground (arith, h, checks)))))
              (response_directives max_age true vs) (response_directives-Kept max_age true vs))
          (λ plain.
            if_cases (Kept max_age requires (v ∷ vs)) (not (is_max_age v)) _ _
              (λ other.
                Kept-cons max_age max_age requires requires v vs (λ h. h) (λ n h. h)
                  (λ a x l m. (
                    keeps,
                    (λ h. absurd (ground (arith, h, plain))),
                    (λ h i. absurd (ground (arith, i, other))),
                  ))
                  (response_directives max_age requires vs)
                  (response_directives-Kept max_age requires vs))
              (λ aged.
                option_cases (Kept max_age requires (v ∷ vs)) max_age _ _
                  (λ first.
                    option_cases (Kept max_age requires (v ∷ vs)) (seconds_of v) _ _ (λ bad. tt)
                      (λ n e.
                        Kept-cons max_age (some n) requires requires v vs (λ h. h)
                          (λ j h. absurd (ground (arith, h, first)))
                          (λ a x l m. (
                            keeps,
                            (λ h. absurd (ground (arith, h, plain))),
                            (λ h i. (n, (e, m n refl))),
                          ))
                          (response_directives (some n) requires vs)
                          (response_directives-Kept (some n) requires vs)))
                  (λ n again. tt))))

abbrev pub Below : Timeout → ℕ → Type 0
Below (millis n) m = n ≤ m
Below forever m = ⊥

abbrev pub Within : Timeout → Timeout → Type 0
Within ttl (millis m) = Below ttl m
Within ttl forever = Unit

-- A directive allows a response to be fresh for a time, at an age.
abbrev pub Allows : Timeout → ℕ → Text → Type 0
Allows ttl age v =
    (is_no_store v ≡ false)
    × (is_no_cache v ≡ false)
    × (is_max_age v ≡ true → (n : ℕ) × ((seconds_of v ≡ some n) × Below ttl ((n - age) * 1000)))

at_most-Below : (c : Timeout) (n : ℕ) → Below (at_most c n) n
at_most-Below (millis m) n = ground arith
at_most-Below forever n = ground arith

at_most-Within : (c : Timeout) (n : ℕ) → Within (at_most c n) c
at_most-Within (millis m) n = ground arith
at_most-Within forever n = tt

time_to_live-Within : (c : Timeout) (m : Option ℕ) (age : ℕ) → Within (time_to_live c m false age) c
time_to_live-Within (millis n) none age = omega arith
time_to_live-Within forever none age = tt
time_to_live-Within c (some n) age = at_most-Within c ((n - age) * 1000)

Heeded-Allows :
    (c : Timeout) (m : Option ℕ) (age : ℕ) (v : Text)
    → Heeded m false v
    → Allows (time_to_live c m false age) age v
Heeded-Allows c m age v (keeps, checks, aged) =
    let plain : is_no_cache v ≡ false = ground (arith, checks) in
    (
      keeps,
      plain,
      (λ h.
          let (n, (read_n, same)) = aged plain h in
          (
            n,
            (
              read_n,
              subst (λ x. Below (time_to_live c x false age) ((n - age) * 1000)) (sym same)
                  (at_most-Below c ((n - age) * 1000)),
            ),
          )),
    )

All-Allows :
    (c : Timeout) (m : Option ℕ) (age : ℕ) (vs : List Text)
    → All (Heeded m false) vs
    → All (Allows (time_to_live c m false age) age) vs
All-Allows c m age [] h = tt
All-Allows c m age (v ∷ vs) (h, k) = (Heeded-Allows c m age v h, All-Allows c m age vs k)

Heeded-stores :
    (m : Option ℕ) (r : Bool) (vs : List Text)
    → All (Heeded m r) vs
    → any_text is_no_store vs ≡ false
unfolding any_text
Heeded-stores m r [] h = refl
Heeded-stores m r (v ∷ vs) ((keeps, checks, aged), k) =
    ground (arith, keeps, Heeded-stores m r vs k)

module _ (headers : Fields) (configured : Timeout)
    (if_error while_revalidate : Option Timeout) where
  abbrev pub Fresh : Timeout → Type 0
  Fresh ttl =
      All (Allows ttl (parse_age (find age_name headers))) (directives_of headers)
      × Within ttl configured
      × (any_item is_varying (find vary_name headers) ≡ false)

  policy_of-Fresh :
      (d : Directives)
      → Kept none false (directives_of headers) d
      → let policy = policy_of headers configured if_error while_revalidate d in
        positive policy.ttl ≡ true → Fresh policy.ttl
  unfolding policy_of
  policy_of-Fresh refused k = λ fresh. absurd (ground (arith, fresh))
  policy_of-Fresh (read m r) (k, l, j) =
      if_cases {A = ResponseCachePolicy} (λ p. positive p.ttl ≡ true → Fresh p.ttl)
        (any_item is_varying (find vary_name headers)
          || not (positive configured)
          || not (is_safe_age m))
        _ _ (λ bad fresh. absurd (ground (arith, fresh)))
        (λ good. by_flag r k (ground (arith, good)))
    where
      by_flag :
          (q : Bool)
          → All (Heeded m q) (directives_of headers)
          → any_item is_varying (find vary_name headers) ≡ false
          → positive (time_to_live configured m q (parse_age (find age_name headers))) ≡ true
          → Fresh (time_to_live configured m q (parse_age (find age_name headers)))
      by_flag true h told fresh = absurd (ground (arith, fresh))
      by_flag false h told fresh =
          let age = parse_age (find age_name headers) in
          (
            All-Allows configured m age (directives_of headers) h,
            time_to_live-Within configured m age,
            told,
          )

  -- A response that the cache takes for fresh is one that every directive allows to be so, for no longer
  -- than is configured, and that does not vary with a header that the cache does not tell apart.
  pub resolve_response_cache_policy-Fresh :
      let policy = resolve_response_cache_policy headers configured if_error while_revalidate in
      positive policy.ttl ≡ true → Fresh policy.ttl
  unfolding resolve_response_cache_policy
  resolve_response_cache_policy-Fresh =
      policy_of-Fresh (response_directives none false (directives_of headers))
        (response_directives-Kept none false (directives_of headers))

  policy_of_no_store :
      (d : Directives)
      → Kept none false (directives_of headers) d
      → any_text is_no_store (directives_of headers) ≡ true
      → policy_of headers configured if_error while_revalidate d ≡ no_cache_policy
  unfolding policy_of
  policy_of_no_store refused k h = refl
  policy_of_no_store (read m r) (k, l, j) h =
      absurd (ground (arith, h, Heeded-stores m r (directives_of headers) k))

  -- A response with a directive `no-store` is not kept.
  pub resolve_response_cache_policy_no_store :
      any_text is_no_store (directives_of headers) ≡ true
      → resolve_response_cache_policy headers configured if_error while_revalidate ≡ no_cache_policy
  unfolding resolve_response_cache_policy
  resolve_response_cache_policy_no_store =
      policy_of_no_store (response_directives none false (directives_of headers))
        (response_directives-Kept none false (directives_of headers))
