-- ===== src/Auth/Flight.antt =====
-- What holds in every reachable state of the refreshes of src/plugins/authPlugin.ts.
use request.Base.{
  ℕ, ◌+◌, ◌≡◌, ◌≢◌, refl, Bool, true, false, ◌&&◌, ◌||◌, not, [], ◌∷◌, Option, some, arith, if_elim,
  if_cases, option_cases,
}
use request.Stream.Lines.{Text, is_empty}
use request.Auth.Refresh.{
  add, drop, got, rejected, asking, storing, leaving, State, at, install, uninstall,
  refresh_access_token, Write, is_token, token_arrives, token_fails, write_settles, is_refresh,
  finish, RequestContext, Waits, default_should_refresh, RefreshOptions, refresh_request, on_retry,
  on_policy, Step, installs, uninstalls, retries, answers, token_comes, token_does_not, write_ends,
  finishes, Reach, start, next,
}
use request.Auth.Wanted.{
  IsDistinct, is_wanted, Inv, initial-Inv, with_phase-Inv, same_refreshes-Inv, with_installations,
  with_installations-Inv, started-Inv, add-full, joined-Inv, phase_cases, flying, begins-Inv,
  settled-Inv,
}

uninstall-Inv : (n : ℕ) (s : State) → Inv s → Inv (uninstall n s)
unfolding uninstall
uninstall-Inv n s i =
    let off = at n false s.active in
    option_cases Inv s.current _ _ (λ e. same_refreshes-Inv off s.contexts s.installed s i)
      (λ k e.
        let js = drop n (s.refreshes k).installations in
        same_refreshes-Inv off s.contexts s.installed (with_installations k js s)
          (with_installations-Inv k js s e i))

refresh_access_token-Inv : (n : ℕ) (s : State) → Inv s → Inv (refresh_access_token n s).1
unfolding refresh_access_token
refresh_access_token-Inv n s i =
    option_cases {B = ℕ × State} (λ x. Inv x.1) s.current _ _
      (λ e. started-Inv (record { installations = n ∷ []; phase = asking }) s refl e i)
      (λ k e.
        joined-Inv k (add n (s.refreshes k).installations) s e
          (add-full n (s.refreshes k).installations) i)

token_arrives-Inv :
    (k : ℕ) (t : Option Text) (w : Write) (s : State) → Inv s → Inv (token_arrives k t w s)
unfolding token_arrives
token_arrives-Inv k t w s i =
    phase_cases Inv (s.refreshes k).phase _ _ _ _
      (λ e.
        if_elim Inv (not (is_token t) || is_empty (s.refreshes k).installations) _ _
          (with_phase-Inv k (leaving (got t)) s (flying k asking s e refl) refl refl i)
          (begins-Inv k t w s e i))
      (λ u e. i) (λ r e. i) (λ r e. i)

token_fails-Inv : (k x : ℕ) (s : State) → Inv s → Inv (token_fails k x s)
unfolding token_fails
token_fails-Inv k x s i =
    phase_cases Inv (s.refreshes k).phase _ _ _ _
      (λ e. with_phase-Inv k (leaving (rejected x)) s (flying k asking s e refl) refl refl i)
      (λ u e. i) (λ r e. i) (λ r e. i)

write_settles-Inv : (k : ℕ) (x : Option ℕ) (s : State) → Inv s → Inv (write_settles k x s)
unfolding write_settles
write_settles-Inv k x s i =
    phase_cases Inv (s.refreshes k).phase _ _ _ _ (λ e. i)
      (λ u e. with_phase-Inv k (leaving _) s (flying k (storing u) s e refl) refl refl i) (λ r e. i)
      (λ r e. i)

finish-Inv : (k : ℕ) (s : State) → Inv s → Inv (finish k s)
unfolding finish
finish-Inv k s i =
    phase_cases Inv (s.refreshes k).phase _ _ _ _ (λ e. i) (λ u e. i) (λ r e. settled-Inv k r s i)
      (λ r e. i)

refresh_request-Inv :
    (n : ℕ) (c : RequestContext) (refused : Bool) (s : State)
    → Inv s
    → Inv (refresh_request n c refused s).1
unfolding refresh_request
refresh_request-Inv n c refused s i =
    let noted = record s { contexts = at c.id true s.contexts } in
    let kept : Inv noted = same_refreshes-Inv s.active (at c.id true s.contexts) s.installed s i in
    let joined = refresh_access_token-Inv n noted kept in
    if_elim {A = Waits × State} (λ x. Inv x.1) c.is_aborted _ _ kept
      (option_cases {B = Waits × State} (λ x. Inv x.1) s.current _ _
        (λ e. if_elim {A = Waits × State} (λ x. Inv x.1) refused _ _ kept joined) (λ k e. joined))

on_retry-Inv :
    (o : RefreshOptions) (n : ℕ) (c : RequestContext) (refused : Bool) (s : State)
    → Inv s
    → Inv (on_retry o n c refused s).1
unfolding on_retry
on_retry-Inv o n c refused s i =
    option_cases {B = Waits × State} (λ x. Inv x.1) c.error _ _ (λ e. i)
      (λ f e.
        if_elim {A = Waits × State} (λ x. Inv x.1)
          (not o.refresh_token || c.streams || s.contexts c.id) _ _ i
          (if_elim {A = Waits × State} (λ x. Inv x.1) o.should_refresh _ _
            (if_elim {A = Waits × State} (λ x. Inv x.1) c.is_aborted _ _ i i)
            (if_elim {A = Waits × State} (λ x. Inv x.1) (not (default_should_refresh f)) _ _ i
              (refresh_request-Inv n c refused s i))))

on_policy-Inv :
    (n : ℕ) (c : RequestContext) (answer refused : Bool) (s : State)
    → Inv s
    → Inv (on_policy n c answer refused s).1
unfolding on_policy
on_policy-Inv n c answer refused s i =
    if_elim {A = Waits × State} (λ x. Inv x.1) (s.active n && answer) _ _
      (refresh_request-Inv n c refused s i) i

Step-Inv : {o : RefreshOptions} {s t : State} → Step o s t → Inv s → Inv t
unfolding install
Step-Inv {s} installs i =
    same_refreshes-Inv (at s.installed true s.active) s.contexts (s.installed + 1) s i
Step-Inv {s} (uninstalls n) i = uninstall-Inv n s i
Step-Inv {o} {s} (retries n c refused) i = on_retry-Inv o n c refused s i
Step-Inv {s} (answers n c answer refused) i = on_policy-Inv n c answer refused s i
Step-Inv {s} (token_comes k t w) i = token_arrives-Inv k t w s i
Step-Inv {s} (token_does_not k e) i = token_fails-Inv k e s i
Step-Inv {s} (write_ends k e) i = write_settles-Inv k e s i
Step-Inv {s} (finishes k) i = finish-Inv k s i

Reach-Inv : {o : RefreshOptions} {s : State} → Reach o s → Inv s
Reach-Inv start = initial-Inv
Reach-Inv (next r m) = Step-Inv m (Reach-Inv r)

-- Requests share one refresh: two refreshes that are not over and that an installation waits for are the same.
pub single_flight :
    {o : RefreshOptions} {s : State}
    → Reach o s
    → (j k : ℕ) → is_wanted (s.refreshes j) ≡ true
    → is_wanted (s.refreshes k) ≡ true
    → j ≡ k
single_flight r j k a b =
    let i = Reach-Inv r in ground (arith, i.wanted_current j a, i.wanted_current k b)

-- A refreshed token is stored once: no refresh begins a second write.
stored-IsDistinct : {o : RefreshOptions} {s : State} → Reach o s → IsDistinct s.stored
stored-IsDistinct r = (Reach-Inv r).written_once

-- In a reachable state the result of a refresh that is not the current one, as after the removal of the
-- installations that waited for it, is not stored, and does not reset the refresh that is.
pub late_result :
    {o : RefreshOptions} {s : State}
    → Reach o s
    → (k : ℕ) (t : Option Text) (w : Write) → s.current ≢ some k
    → ((token_arrives k t w s).stored ≡ s.stored) × ((finish k s).current ≡ s.current)
unfolding token_arrives finish
late_result {s} r k t w late =
    let i = Reach-Inv r in
    (
      phase_cases {A = State} (λ x. x.stored ≡ s.stored) (s.refreshes k).phase _ _ _ _
          (λ e.
            if_cases {A = State} (λ x. x.stored ≡ s.stored)
              (not (is_token t) || is_empty (s.refreshes k).installations) _ _ (λ unwanted. refl)
              (λ wanted. absurd (ground (arith, e, wanted, late, i.wanted_current k))))
          (λ u e. refl) (λ x e. refl) (λ x e. refl),
      phase_cases {A = State} (λ x. x.current ≡ s.current) (s.refreshes k).phase _ _ _ _ (λ e. refl)
          (λ u e. refl)
          (λ x e.
            if_cases {A = State} (λ y. y.current ≡ s.current) (is_refresh k s.current) _ _
              (λ same. absurd (ground (arith, same, late))) (λ other. refl))
          (λ x e. refl),
    )
