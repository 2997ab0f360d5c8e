-- ===== src/Pipeline/Parts.antt =====
-- The data of the class Pipeline of src/core/Pipeline.ts. What it calls is in a record; a promise is
-- what it settles with, and a thrown value is never undefined.
use request.Base.{ℕ, Bool, true, false, List, [], ◌∷◌, Option, none, some}
use request.Hooks.Runners.{Result, ok, err, Context, Hook, RetryHook, Interceptor}

-- The adapter, `validateRequestConfig`, `throwIfAborted`, `validateStandardSchemaValue` with the
-- response that it replaces, `waitForRetry`, the interceptors and the hooks. `C`, `R` and `E` are
-- configurations, responses and errors; an interceptor may be given no response.
pub record Client (W C R E : Type 0) : Type 0 where
  pub validate : C → Option E
  pub aborted : C → W → Option E
  pub has_schema : C → Bool
  pub validate_schema : C → R → W → Result E R × W
  pub send : C → W → Result E R × W
  pub wait : ℕ → C → W → Option E × W
  pub request_interceptors : List (Interceptor W E C)
  pub response_interceptors : List (Interceptor W E (Option R))
  pub error_interceptors : List (Interceptor W E E)
  pub request_hooks : List (Hook W C R E)
  pub transport_hooks : List (Hook W C R E)
  pub response_hooks : List (Hook W C R E)
  pub error_hooks : List (Hook W C R E)
  pub settled_hooks : List (Hook W C R E)
  pub retry_hooks : List (RetryHook W C R E)

-- The end of a request: what it returns or throws, its context and the world.
pub record Done (W C R E : Type 0) : Type 0 where
  pub result : Result E (Option R)
  pub context : Context C R E
  pub world : W

pub record Notified (W C R E : Type 0) : Type 0 where
  pub succeeded : Bool
  pub error : E
  pub context : Context C R E
  pub world : W

abbrev pub is_active {ℓ} : {A : Type ℓ} → List A → Bool
is_active [] = false
is_active (x ∷ xs) = true

abbrev pub new_context : {C R E : Type 0} → C → Context C R E
new_context config = record {
  slots = record { config = config; response = none; fallback_response = none };
  error = none;
  attempt = 0;
}

abbrev pub with_response : {C R E : Type 0} → Context C R E → Option R → Context C R E
with_response c r = record c { slots = record (c.slots) { response = r } }

abbrev pub with_config : {C R E : Type 0} → Context C R E → C → Context C R E
with_config c config = record c { slots = record (c.slots) { config = config } }

abbrev pub with_error : {C R E : Type 0} → Context C R E → E → Context C R E
with_error c e = record c { error = some e }

abbrev pub done : {W C R E : Type 0} → Result E (Option R) → Context C R E → W → Done W C R E
done r c w = record { result = r; context = c; world = w }

-- An error, if there is one; else what comes next.
abbrev pub unless_err :
    {W C R E : Type 0} → Option E → Context C R E → W → Done W C R E → Done W C R E
unless_err none c w next = next
unless_err (some e) c w next = done (err e) c w

-- An error that ends what is done, or what comes next with the value.
abbrev pub and_then :
    {W C R E A : Type 0} → Result E A → Context C R E → W → (A → Done W C R E) → Done W C R E
and_then (err e) c w next = done (err e) c w
and_then (ok a) c w next = next a
