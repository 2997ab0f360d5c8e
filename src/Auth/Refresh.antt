-- ===== src/Auth/Refresh.antt =====
-- The shared refresh of src/plugins/authPlugin.ts. A step is what runs between two promises; the application's
-- callbacks do not call the plugin before they return.
use request.Base.{
  ℕ, ◌+◌, Bool, true, false, ◌&&◌, ◌||◌, not, List, [], ◌∷◌, Option, none, some, ◌==◌,
  if◌then◌else◌,
}
use request.Stream.Lines.{Text, is_empty}

abbrev pub has_number : ℕ → List ℕ → Bool
has_number i [] = false
has_number i (j ∷ js) = j == i || has_number i js

-- `add` and `delete` of a `Set`
abbrev pub add : ℕ → List ℕ → List ℕ
add i js = if has_number i js then js else i ∷ js

unfoldable pub drop : ℕ → List ℕ → List ℕ
drop i [] = []
drop i (j ∷ js) = let rest = drop i js in if j == i then rest else j ∷ rest

-- The value that a refresh came to, or the error that it rejects with.
pub data Settlement : Type 0 where
  got : Option Text → Settlement
  rejected : ℕ → Settlement

-- How far the promise of a refresh is: the callback runs, the storage writes, `finally` is due.
pub data Phase : Type 0 where
  asking : Phase
  storing : Option Text → Phase
  leaving : Settlement → Phase
  settled : Settlement → Phase

pub record Refresh : Type 0 where
  pub installations : List ℕ
  pub phase : Phase

-- The refreshes have numbers in the order of their starts, and so have the installations. `current` is
-- `refreshState`, `contexts` the WeakSet `refreshedContexts`, `stored` the writes that were begun.
pub record State : Type 0 where
  pub refreshes : ℕ → Refresh
  pub started : ℕ
  pub current : Option ℕ
  pub installed : ℕ
  pub active : ℕ → Bool
  pub contexts : ℕ → Bool
  pub stored : List (ℕ × Text)

abbrev pub initial : State
initial = record {
  refreshes = λ k. record { installations = []; phase = settled (got none) };
  started = 0;
  current = none;
  installed = 0;
  active = λ i. false;
  contexts = λ c. false;
  stored = [];
}

abbrev pub at {ℓ} : {A : Type ℓ} → ℕ → A → (ℕ → A) → ℕ → A
at k x f j = if j == k then x else f j

abbrev pub with_refresh : ℕ → Refresh → State → State
with_refresh k r s = record s { refreshes = at k r s.refreshes }

abbrev pub with_phase : ℕ → Phase → State → State
with_phase k p s =
    with_refresh k (record { installations = (s.refreshes k).installations; phase = p }) s

-- `install`
unfoldable pub install : State → State
install s = record s { installed = s.installed + 1; active = at s.installed true s.active }

-- The disposer that `install` returns.
unfoldable pub uninstall : ℕ → State → State
uninstall i s = elim s.current [
  | none ↦ record s { active = at i false s.active }
  | some k ↦
      let left = drop i (s.refreshes k).installations in
      record s {
        active = at i false s.active;
        refreshes =
            at k (record { installations = left; phase = (s.refreshes k).phase }) s.refreshes;
        current = if is_empty left then none else some k;
      }
]

-- `refreshAccessToken`, where `refreshToken` returns a promise, and the refresh that is waited for.
unfoldable pub refresh_access_token : ℕ → State → ℕ × State
refresh_access_token i s = elim s.current [
  | none ↦ (
    s.started,
    record s {
      refreshes = at s.started (record { installations = i ∷ []; phase = asking }) s.refreshes;
      started = s.started + 1;
      current = some s.started;
    },
  )
  | some k ↦ (
    k,
    with_refresh k
        (record {
          installations = add i (s.refreshes k).installations;
          phase = (s.refreshes k).phase;
        })
        s,
  )
]

-- How `options.storage?.set(token)` goes: there is no storage, it is done, it is a promise, or it throws.
pub data Write : Type 0 where
  no_storage done pending : Write
  throws : ℕ → Write

abbrev pub phase_after : Option Text → Write → Phase
phase_after t no_storage = leaving (got t)
phase_after t done = leaving (got t)
phase_after t pending = storing t
phase_after t (throws e) = leaving (rejected e)

abbrev pub is_token : Option Text → Bool
is_token none = false
is_token (some t) = not (is_empty t)

abbrev pub text_of : Option Text → Text
text_of none = []
text_of (some t) = t

abbrev pub with_write : ℕ → Text → Write → List (ℕ × Text) → List (ℕ × Text)
with_write k t no_storage ws = ws
with_write k t _ ws = (k, t) ∷ ws

-- The first `then` of a refresh.
unfoldable pub token_arrives : ℕ → Option Text → Write → State → State
token_arrives k t w s = elim (s.refreshes k).phase [
  | asking ↦
      if not (is_token t) || is_empty (s.refreshes k).installations
      then with_phase k (leaving (got t)) s
      else record (with_phase k (phase_after t w) s) {
        stored = with_write k (text_of t) w s.stored;
      }
  | storing u ↦ s
  | leaving r ↦ s
  | settled r ↦ s
]

-- The callback rejects.
unfoldable pub token_fails : ℕ → ℕ → State → State
token_fails k e s = elim (s.refreshes k).phase [
  | asking ↦ with_phase k (leaving (rejected e)) s
  | storing u ↦ s
  | leaving r ↦ s
  | settled r ↦ s
]

-- The write is done, or rejects.
unfoldable pub write_settles : ℕ → Option ℕ → State → State
write_settles k e s = elim (s.refreshes k).phase [
  | asking ↦ s
  | storing u ↦ with_phase k (leaving (elim e [ none ↦ got u | some x ↦ rejected x ])) s
  | leaving r ↦ s
  | settled r ↦ s
]

abbrev pub is_refresh : ℕ → Option ℕ → Bool
is_refresh k none = false
is_refresh k (some j) = j == k

-- The `finally`.
unfoldable pub finish : ℕ → State → State
finish k s = elim (s.refreshes k).phase [
  | asking ↦ s
  | storing u ↦ s
  | leaving r ↦
      let next = with_phase k (settled r) s in
      if is_refresh k s.current then record next { current = none } else next
  | settled r ↦ s
]

-- RequestError, as far as it is looked at, and the code HTTP_ERROR.
pub data Fault : Type 0 where
  http_error : Option ℕ → Fault
  other_error : ℕ → Fault

abbrev pub default_should_refresh : Fault → Bool
default_should_refresh (http_error (some status)) = status == 401
default_should_refresh (http_error none) = false
default_should_refresh (other_error e) = false

-- The part of a RequestContext that the hook reads; `is_aborted` is of its signal.
pub record RequestContext : Type 0 where
  pub id : ℕ
  pub error : Option Fault
  pub streams : Bool
  pub is_aborted : Bool

-- The options `refreshToken` and `shouldRefresh`: whether they are given.
pub record RefreshOptions : Type 0 where
  pub refresh_token : Bool
  pub should_refresh : Bool

-- What the hook waits for when it comes back: nothing, the caller's policy, a refresh; or it gives the abort.
pub data Waits : Type 0 where
  nothing policy aborts : Waits
  refresh : ℕ → Waits

-- `refreshRequest` up to its first promise; `refused` says that the callback throws at its call.
unfoldable pub refresh_request : ℕ → RequestContext → Bool → State → Waits × State
refresh_request i c refused s =
    let noted = record s { contexts = at c.id true s.contexts } in
    let next = refresh_access_token i noted in
    if c.is_aborted then (aborts, noted) else elim s.current [
      | none ↦ if refused then (nothing, noted) else (refresh next.0, next.1)
      | some k ↦ (refresh next.0, next.1)
    ]

-- The retry hook up to its first promise.
unfoldable pub on_retry : RefreshOptions → ℕ → RequestContext → Bool → State → Waits × State
on_retry o i c refused s = elim c.error [
  | none ↦ (nothing, s)
  | some e ↦
      if not o.refresh_token || c.streams || s.contexts c.id
      then (nothing, s)
      else (if o.should_refresh
          then (if c.is_aborted then (aborts, s) else (policy, s))
          else (if not (default_should_refresh e)
              then (nothing, s)
              else refresh_request i c refused s))
]

-- What follows the answer of `shouldRefresh`.
unfoldable pub on_policy : ℕ → RequestContext → Bool → Bool → State → Waits × State
on_policy i c answer refused s =
    if s.active i && answer then refresh_request i c refused s else (nothing, s)

pub data Step (o : RefreshOptions) (s : State) : State → Type 0 where
  installs : Step o s (install s)
  uninstalls : (i : ℕ) → Step o s (uninstall i s)
  retries : (i : ℕ) (c : RequestContext) (refused : Bool) → Step o s (on_retry o i c refused s).1
  answers :
      (i : ℕ) (c : RequestContext) (answer refused : Bool)
      → Step o s (on_policy i c answer refused s).1
  token_comes : (k : ℕ) (t : Option Text) (w : Write) → Step o s (token_arrives k t w s)
  token_does_not : (k e : ℕ) → Step o s (token_fails k e s)
  write_ends : (k : ℕ) (e : Option ℕ) → Step o s (write_settles k e s)
  finishes : (k : ℕ) → Step o s (finish k s)

pub data Reach (o : RefreshOptions) : State → Type 0 where
  start : Reach o initial
  next : {s t : State} → Reach o s → Step o s t → Reach o t
