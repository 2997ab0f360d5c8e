-- ===== src/Auth/Priority.antt =====
-- Which token src/plugins/authPlugin.ts sends.
use request.Base.{
  ◌≡◌, refl, ap, subst, ◌∙◌, Bool, true, false, [], ◌∷◌, Option, none, some, arith, if◌then◌else◌,
  Bool-cases, inl, inr,
}
use request.Stream.Lines.{Text, is_empty}
use request.Stream.Events.{same_text}
use request.Headers.Fields.{Fields, find, find-put, same_text_refl}
use request.Hooks.Runners.{Result, ok, err}
use request.Auth.Tokens.{
  Provider, fixed, called, RequestAuth, AuthOptions, AuthConfig, ResolvedAuthorization,
  authorization_name, credentials, set_authorization_header, resolve_token, resolve_plugin_token,
  resolve_authorization, apply_resolved_authorization, resolved_config, apply_authorization,
  after_refresh,
}

module _ {W E : Type 0} (headers_of : Fields → Fields) where
  abbrev Immediate :
      AuthConfig W E
      → AuthOptions W E
      → W
      → Option (RequestAuth W E)
      → Option (Provider W E)
      → Type 0
  Immediate c o w auth token =
      let c' = record c { auth = auth } in
      let o' = record o { token = token } in
      apply_authorization headers_of c' o' w ≡ resolved_config headers_of c' o' w

  -- The plugin's own fixed token, which counts at once where the request says nothing, is the one that the
  -- resolution of the request's authorization finds.
  apply_authorization-eq-resolved_config :
      (c : AuthConfig W E) (o : AuthOptions W E) (w : W)
      → apply_authorization headers_of c o w ≡ resolved_config headers_of c o w
  unfolding apply_authorization resolve_authorization resolve_plugin_token resolve_token
      apply_resolved_authorization
  apply_authorization-eq-resolved_config c o w = by_parts c.auth o.token
    where
      by_parts :
          (auth : Option (RequestAuth W E)) (token : Option (Provider W E))
          → Immediate c o w auth token
      by_parts auth none = refl
      by_parts auth (some (called f)) = refl
      by_parts none (some (fixed [])) = refl
      by_parts none (some (fixed (x ∷ t))) = refl
      by_parts (some a) (some (fixed [])) = refl
      by_parts (some a) (some (fixed (x ∷ t))) = refl

  abbrev pub authorization_of : AuthConfig W E → Option Text
  authorization_of c = elim c.headers [ none ↦ none | some hs ↦ find authorization_name hs ]

  -- The configuration carries a token, the refreshed one if there is one.
  abbrev pub Carries : Option Text → AuthConfig W E → Type 0
  Carries refreshed d =
      (t : Text) × ((s : Option Text) × ((is_empty t ≡ false)
          × (authorization_of d ≡ some (credentials t s))
          × ((u : Text) → refreshed ≡ some u → t ≡ u)))

  set_authorization_header-find :
      (c : AuthConfig W E) (t : Text) (s : Option Text)
      → authorization_of (set_authorization_header headers_of c t s) ≡ some (credentials t s)
  unfolding set_authorization_header find
  set_authorization_header-find c t s = by_headers c.headers
    where
      chosen :
          (o : Option Text)
          → (if same_text authorization_name authorization_name then some (credentials t s) else o)
            ≡ some (credentials t s)
      chosen o =
          ap (λ b. if b then some (credentials t s) else o) (same_text_refl authorization_name)

      by_headers :
          (hs : Option Fields)
          → authorization_of (set_authorization_header headers_of (record c { headers = hs }) t s)
            ≡ some (credentials t s)
      by_headers none = chosen none
      by_headers (some hs) =
          find-put authorization_name authorization_name (credentials t s) (headers_of hs)
          ∙ chosen (find authorization_name (headers_of hs))

  -- What a refreshed request is sent with, once its authorization is resolved.
  abbrev Sent :
      Option Text → AuthConfig W E → AuthConfig W E → W → Result E ResolvedAuthorization → Type 0
  Sent refreshed c d v r =
      let x : Option (AuthConfig W E) × W = elim r [
        | err e ↦ (none, v)
        | ok a ↦
            if is_empty a.token
            then (none, v)
            else (some (set_authorization_header headers_of c a.token a.scheme), v)
      ] in
      x.0 ≡ some d → Carries refreshed d

  sent_ok :
      (refreshed : Option Text) (c d : AuthConfig W E) (v : W) (a : ResolvedAuthorization)
      → ((u : Text) → refreshed ≡ some u → a.token ≡ u)
      → Sent refreshed c d v (ok a)
  sent_ok refreshed c d v a same = elim (Bool-cases (is_empty a.token)) [
    | inl empty ↦ λ h. absurd (ground (arith, h, empty))
    | inr full ↦ λ h.
        let sends : some (set_authorization_header headers_of c a.token a.scheme) ≡ some d =
          ground (arith, h, full) in
        (
          a.token,
          (
            a.scheme,
            (
              full,
              subst
                  (λ x. elim x as (λ y. Type 0) [
                    | none ↦ Unit
                    | some e ↦ authorization_of e ≡ some (credentials a.token a.scheme)
                  ])
                  sends (set_authorization_header-find c a.token a.scheme),
              same,
            ),
          ),
        )
  ]

  sent : (c d : AuthConfig W E) (v : W) (r : Result E ResolvedAuthorization) → Sent none c d v r
  sent c d v (err e) h = absurd (ground (arith, h))
  sent c d v (ok a) h = sent_ok none c d v a (λ u e. absurd (ground (arith, e))) h

  -- A request is retried after a refresh only if the installation stayed active, and then with a token, which
  -- is the refreshed one if the callback returned one.
  pub after_refresh-Carries :
      (active still : Bool) (c d : AuthConfig W E) (o : AuthOptions W E) (refreshed : Option Text)
      (w : W)
      → (after_refresh headers_of active still c o (ok refreshed) w).0 ≡ some d
      → (active ≡ true) × (still ≡ true) × Carries refreshed d
  unfolding after_refresh resolve_authorization
  after_refresh-Carries false still c d o refreshed w h = absurd (ground (arith, h))
  after_refresh-Carries true false c d o refreshed w h = absurd (ground (arith, h))
  after_refresh-Carries true true c d o none w h =
      (refl, refl, sent c d _ (resolve_authorization c o none w).0 h)
  after_refresh-Carries true true c d o (some u) w h = (
    refl,
    refl,
    sent_ok (some u) c d w (record { token = u; scheme = _ }) (λ v e. ground (arith, e)) h,
  )
