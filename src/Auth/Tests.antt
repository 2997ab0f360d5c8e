-- ===== src/Auth/Tests.antt =====
-- Refreshes and tokens of src/plugins/authPlugin.ts at concrete inputs.
use request.Base.{ℕ, ◌+◌, ◌≡◌, ◌≢◌, refl, true, false, [], ◌∷◌, none, some, arith}
use request.Stream.Lines.{Text}
use request.Headers.Fields.{Fields}
use request.Hooks.Runners.{ok}
use request.Auth.Tokens.{
  fixed, called, AuthTokenStorage, AuthOptions, AuthConfig, after_refresh, resolve_authorization,
  set_authorization_header,
}
use request.Auth.Priority.{Carries, after_refresh-Carries}
use request.Auth.Refresh.{
  http_error, RequestContext, RefreshOptions, State, initial, install, uninstall,
  refresh_access_token, refresh_request, on_retry, token_arrives, drop, done, pending, Reach, start,
  next, installs, uninstalls, retries, token_comes, finish,
}
use request.Auth.Flight.{single_flight, late_result}

abbrev by_default : RefreshOptions
by_default = record { refresh_token = true; should_refresh = false }

abbrev unauthorized : ℕ → RequestContext
unauthorized n = record {
  id = n;
  error = some (http_error (some 401));
  streams = false;
  is_aborted = false;
}

abbrev token : Text
token = b't' ∷ []

-- Two installations, and a request of each that waits for a refresh.
abbrev two_installed : State
two_installed = install (install initial)

abbrev first_waits : State
first_waits = (on_retry by_default 0 (unauthorized 0) false two_installed).1

abbrev both_wait : State
both_wait = (on_retry by_default 1 (unauthorized 1) false first_waits).1

both_wait-Reach : Reach by_default both_wait
both_wait-Reach =
    next (next (next (next start installs) installs) (retries 0 (unauthorized 0) false))
      (retries 1 (unauthorized 1) false)

one_refresh : both_wait.started ≡ 1
unfolding on_retry refresh_request refresh_access_token install
one_refresh = refl

single_flight_example : ◌≡◌ {A = ℕ} 0 0
unfolding on_retry refresh_request refresh_access_token install
single_flight_example = single_flight both_wait-Reach 0 0 refl refl

abbrev stores : State
stores = token_arrives 0 (some token) pending (uninstall 0 both_wait)

stores-Reach : Reach by_default stores
stores-Reach = next (next both_wait-Reach (uninstalls 0)) (token_comes 0 (some token) pending)

stores_token : stores.stored ≡ (0, token) ∷ []
unfolding token_arrives uninstall on_retry refresh_request refresh_access_token install drop
stores_token = refl

-- Both installations go while the refresh runs, and one comes back and starts another.
abbrev left : State
left = uninstall 1 (uninstall 0 both_wait)

abbrev again : State
again = (on_retry by_default 2 (unauthorized 2) false (install left)).1

again-Reach : Reach by_default again
again-Reach =
    next (next (next (next both_wait-Reach (uninstalls 0)) (uninstalls 1)) installs)
      (retries 2 (unauthorized 2) false)

again_not_first : again.current ≢ some 0
unfolding uninstall on_retry refresh_request refresh_access_token install drop
again_not_first = λ e. absurd (ground (arith, e))

late_result_example :
    ((token_arrives 0 (some token) done again).stored ≡ again.stored)
    × ((finish 0 again).current ≡ again.current)
late_result_example = late_result again-Reach 0 (some token) done again_not_first

-- A retry hook that runs after its installation was removed still starts a refresh, whose token is stored.
abbrev removed : State
removed =
    token_arrives 0 (some token) done
      (on_retry by_default 0 (unauthorized 0) false (uninstall 0 (install initial))).1

removed_stores : removed.stored ≡ (0, token) ∷ []
unfolding token_arrives uninstall on_retry refresh_request refresh_access_token install
removed_stores = refl

-- The world counts the calls of the storage.
abbrev counting : AuthTokenStorage ℕ ℕ
counting = record { get = λ w. (ok (some token), w + 1); write = λ t w. (ok tt, w) }

abbrev configured : AuthOptions ℕ ℕ
configured = record { token = some (fixed (b'p' ∷ [])); scheme = none; storage = some counting }

abbrev stored_only : AuthOptions ℕ ℕ
stored_only = record {
  token = some (called (λ w. (ok [], w)));
  scheme = none;
  storage = some counting;
}

abbrev plain : AuthConfig ℕ ℕ
plain = record { headers = none; auth = none }

abbrev same_fields : Fields → Fields
same_fields hs = hs

abbrev sent : AuthConfig ℕ ℕ
sent = set_authorization_header same_fields plain token none

after_refresh-Carries_example :
    (true ≡ true) × (true ≡ true) × Carries same_fields (some token) sent
unfolding after_refresh resolve_authorization
after_refresh-Carries_example =
    after_refresh-Carries same_fields true true plain sent stored_only (some token) 0 refl
