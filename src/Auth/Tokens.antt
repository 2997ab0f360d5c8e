-- ===== src/Auth/Tokens.antt =====
-- The token and the header of a request, src/plugins/authPlugin.ts. A world `W` holds what the application's
-- providers and its storage change; a promise is what it settles with. Scheme and token are fit for a header.
use request.Base.{Bool, true, false, [], ◌∷◌, ◌++◌, Option, none, some, if◌then◌else◌}
use request.Stream.Lines.{Text, is_empty}
use request.Headers.Fields.{Fields, put}
use request.Hooks.Runners.{Result, ok, err}

abbrev pub Asked : Type 0 → Type 0 → Type 0 → Type 0
Asked W E A = W → Result E A × W

-- A token that the application gives: a text, or a function.
pub data Provider (W E : Type 0) : Type 0 where
  fixed : Text → Provider W E
  called : Asked W E Text → Provider W E

-- `get` and `set` of AuthTokenStorage; the plugin does not call `remove`.
pub record AuthTokenStorage (W E : Type 0) : Type 0 where
  pub get : Asked W E (Option Text)
  pub write : Text → Asked W E Unit

-- `extensions.auth` of a request
pub record RequestAuth (W E : Type 0) : Type 0 where
  pub token : Option (Provider W E)
  pub scheme : Option Text

-- AuthPluginOptions, less the two refresh callbacks.
pub record AuthOptions (W E : Type 0) : Type 0 where
  pub token : Option (Provider W E)
  pub scheme : Option Text
  pub storage : Option (AuthTokenStorage W E)

-- The parts of a request's configuration that the plugin reads and writes.
pub record AuthConfig (W E : Type 0) : Type 0 where
  pub headers : Option Fields
  pub auth : Option (RequestAuth W E)

pub record ResolvedAuthorization : Type 0 where
  pub token : Text
  pub scheme : Option Text

abbrev pub authorization_name : Text
authorization_name =
    b'a' ∷ b'u' ∷ b't' ∷ b'h' ∷ b'o' ∷ b'r' ∷ b'i' ∷ b'z' ∷ b'a' ∷ b't' ∷ b'i' ∷ b'o' ∷ b'n' ∷ []

abbrev bearer : Text
bearer = b'B' ∷ b'e' ∷ b'a' ∷ b'r' ∷ b'e' ∷ b'r' ∷ []

abbrev pub or_bearer : Option Text → Text
or_bearer none = bearer
or_bearer (some s) = s

abbrev pub credentials : Text → Option Text → Text
credentials token scheme = or_bearer scheme ++ b' ' ∷ token

module _ {W E : Type 0} where
  abbrev then_ask : {A B : Type 0} → Result E A × W → (A → Asked W E B) → Result E B × W
  then_ask (err e, w) next = (err e, w)
  then_ask (ok a, w) next = next a w

  -- `new Headers` is `headers_of`.
  unfoldable pub set_authorization_header :
      (Fields → Fields) → AuthConfig W E → Text → Option Text → AuthConfig W E
  set_authorization_header headers_of c token scheme = record c {
    headers = elim c.headers [
      | none ↦ some ((authorization_name, credentials token scheme) ∷ [])
      | some hs ↦ some (put authorization_name (credentials token scheme) (headers_of hs))
    ];
  }

  unfoldable pub resolve_token : Option (Provider W E) → Asked W E Text
  resolve_token none w = (ok [], w)
  resolve_token (some (fixed t)) w = (ok t, w)
  resolve_token (some (called f)) w = f w

  unfoldable pub resolve_stored_token : Option (AuthTokenStorage W E) → Asked W E Text
  resolve_stored_token none w = (ok [], w)
  resolve_stored_token (some s) w =
      then_ask (s.get w) (λ t v. (elim t [ none ↦ ok [] | some u ↦ ok u ], v))

  unfoldable pub resolve_plugin_token : AuthOptions W E → Asked W E Text
  resolve_plugin_token o w =
      then_ask (resolve_token o.token w)
        (λ t v. if is_empty t then resolve_stored_token o.storage v else (ok t, v))

  -- `Boolean(token)` of an option
  abbrev pub is_given : Option (Provider W E) → Bool
  is_given none = false
  is_given (some (fixed [])) = false
  is_given (some p) = true

  abbrev request_token : Option (RequestAuth W E) → Option (Provider W E)
  request_token none = none
  request_token (some a) = a.token

  abbrev request_scheme : Option (RequestAuth W E) → Option Text → Option Text
  request_scheme none s = s
  request_scheme (some a) s = elim a.scheme [ none ↦ s | some t ↦ some t ]

  unfoldable pub resolve_authorization :
      AuthConfig W E → AuthOptions W E → Option Text → Asked W E ResolvedAuthorization
  resolve_authorization c o override w =
      let own = request_token c.auth in
      let asked : Result E Text × W = elim override [
        | some t ↦ (ok t, w)
        | none ↦ if is_given own then resolve_token own w else resolve_plugin_token o w
      ] in
      then_ask asked
        (λ t v. (ok (record { token = t; scheme = request_scheme c.auth o.scheme }), v))

  unfoldable pub apply_resolved_authorization :
      (Fields → Fields) → AuthConfig W E → ResolvedAuthorization → AuthConfig W E
  apply_resolved_authorization headers_of c a =
      if is_empty a.token then c else set_authorization_header headers_of c a.token a.scheme

  abbrev pub resolved_config :
      (Fields → Fields) → AuthConfig W E → AuthOptions W E → Asked W E (AuthConfig W E)
  resolved_config headers_of c o w =
      then_ask (resolve_authorization c o none w)
        (λ a v. (ok (apply_resolved_authorization headers_of c a), v))

  -- A fixed token of the options, where it counts at once.
  abbrev pub immediate_token : AuthConfig W E → AuthOptions W E → Option Text
  immediate_token c o = elim o.token [
    | none ↦ none
    | some (called f) ↦ none
    | some (fixed t) ↦ if is_empty t then none else elim c.auth [ none ↦ some t | some a ↦ none ]
  ]

  unfoldable pub apply_authorization :
      (Fields → Fields) → AuthConfig W E → AuthOptions W E → Asked W E (AuthConfig W E)
  apply_authorization headers_of c o w = elim (immediate_token c o) [
    | some t ↦ (ok (set_authorization_header headers_of c t o.scheme), w)
    | none ↦ resolved_config headers_of c o w
  ]

  -- What `refreshRequest` does once the refresh came to `refreshed`: whether the installation was active
  -- then and after the token was resolved. `none` is no retry.
  unfoldable pub after_refresh :
      (Fields → Fields)
      → Bool
      → Bool
      → AuthConfig W E
      → AuthOptions W E
      → Result E (Option Text)
      → W
      → Option (AuthConfig W E) × W
  after_refresh headers_of active still c o (err e) w = (none, w)
  after_refresh headers_of active still c o (ok refreshed) w =
      let asked = resolve_authorization c o refreshed w in
      if active
      then elim asked.0 [
        | err e ↦ (none, asked.1)
        | ok a ↦
            if still
            then (if is_empty a.token
                then (none, asked.1)
                else (some (set_authorization_header headers_of c a.token a.scheme), asked.1))
            else (none, asked.1)
      ]
      else (none, w)
