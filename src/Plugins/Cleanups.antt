-- ===== src/Plugins/Cleanups.antt =====
-- The cleanups of a scope, `createPluginScope` and `once` of src/plugins/PluginScope.ts. `once` wraps a cleanup;
-- each wrapped one has an id of its own, under which the store notes whether it ran. The cleanups of
-- interceptors are not wrapped in the source, and find nothing to eject the second time; here all are.
use request.Base.{
  ℕ, ◌≡◌, refl, ap, ◌∙◌, Bool, true, List, [], ◌∷◌, Option, none, some, ◌==◌, ==_refl, arith, All,
  if◌then◌else◌, if_elim, if_cases,
}

-- What the plugins change, and the cleanups that ran.
pub record Store (W : Type 0) : Type 0 where
  pub world : W
  pub spent : ℕ → Bool

-- A cleanup gives what it throws, if it does.
pub record Cleanup (W E : Type 0) : Type 0 where
  pub id : ℕ
  pub action : W → Option E × W

abbrev pub first_error : {E : Type 0} → Option E → Option E → Option E
first_error (some e) f = some e
first_error none f = f

first_error-none : {E : Type 0} (e : Option E) → first_error e none ≡ e
first_error-none none = refl
first_error-none (some e) = refl

module _ {W E : Type 0} where
  unfoldable pub once : Cleanup W E → Store W → Option E × Store W
  once c s =
      let ran = c.action s.world in
      if s.spent c.id
      then (none, s)
      else (ran.0, record { world = ran.1; spent = λ i. if i == c.id then true else s.spent i })

  -- The loop of `cleanup`, with the first error so far.
  unfoldable pub run_cleanups : List (Cleanup W E) → Option E → Store W → Option E × Store W
  run_cleanups [] error s = (error, s)
  run_cleanups (c ∷ cs) error s =
      let ran = once c s in run_cleanups cs (first_error error ran.0) ran.1

  -- The list in the reverse order of its registrations.
  unfoldable pub reversed : List (Cleanup W E) → List (Cleanup W E) → List (Cleanup W E)
  reversed [] done = done
  reversed (c ∷ cs) done = reversed cs (c ∷ done)

  unfoldable pub cleanup : List (Cleanup W E) → Store W → Option E × Store W
  cleanup cs s = run_cleanups (reversed cs []) none s

  abbrev pub IsSpent : Store W → Cleanup W E → Type 0
  IsSpent s c = s.spent c.id ≡ true

  once-IsSpent : (c d : Cleanup W E) (s : Store W) → IsSpent s d → IsSpent (once c s).1 d
  unfolding once
  once-IsSpent c d s h =
      if_elim {A = Option E × Store W} (λ r. IsSpent r.1 d) (s.spent c.id) _ _ h (ground (arith, h))

  once-spends : (c : Cleanup W E) (s : Store W) → IsSpent (once c s).1 c
  unfolding once
  once-spends c s =
      if_cases {A = Option E × Store W} (λ r. IsSpent r.1 c) (s.spent c.id) _ _ (λ h. h)
        (λ h. ground (arith, ==_refl c.id))

  run_cleanups-IsSpent :
      (cs : List (Cleanup W E)) (e : Option E) (d : Cleanup W E) (s : Store W)
      → IsSpent s d
      → IsSpent (run_cleanups cs e s).1 d
  unfolding run_cleanups
  run_cleanups-IsSpent [] e d s h = h
  run_cleanups-IsSpent (c ∷ cs) e d s h =
      run_cleanups-IsSpent cs (first_error e (once c s).0) d (once c s).1 (once-IsSpent c d s h)

  run_cleanups-spends :
      (cs : List (Cleanup W E)) (e : Option E) (s : Store W)
      → All (IsSpent (run_cleanups cs e s).1) cs
  unfolding run_cleanups
  run_cleanups-spends [] e s = tt
  run_cleanups-spends (c ∷ cs) e s =
      let error = first_error e (once c s).0 in
      (
        run_cleanups-IsSpent cs error c (once c s).1 (once-spends c s),
        run_cleanups-spends cs error (once c s).1,
      )

  All-reversed :
      (P : Cleanup W E → Type 0) (cs done : List (Cleanup W E))
      → All P (reversed cs done)
      → All P cs × All P done
  unfolding reversed
  All-reversed P [] done h = (tt, h)
  All-reversed P (c ∷ cs) done h =
      let rest = All-reversed P cs (c ∷ done) h in ((rest.1.0, rest.0), rest.1.1)

  -- Every cleanup has run, whatever the others throw.
  pub cleanup-spends : (cs : List (Cleanup W E)) (s : Store W) → All (IsSpent (cleanup cs s).1) cs
  unfolding cleanup
  cleanup-spends cs s =
      (All-reversed (IsSpent (cleanup cs s).1) cs []
        (run_cleanups-spends (reversed cs []) none s)).0

  once_spent : (c : Cleanup W E) (s : Store W) → IsSpent s c → once c s ≡ (none, s)
  unfolding once
  once_spent c s h =
      if_cases {A = Option E × Store W} (λ r. r ≡ (none, s)) (s.spent c.id) _ _ (λ spent. refl)
        (λ fresh. absurd (ground (arith, h, fresh)))

  -- Cleanups that have run do nothing.
  run_cleanups_spent :
      (cs : List (Cleanup W E)) (e : Option E) (s : Store W)
      → All (IsSpent s) cs
      → run_cleanups cs e s ≡ (e, s)
  unfolding run_cleanups
  run_cleanups_spent [] e s h = refl
  run_cleanups_spent (c ∷ cs) e s (h, k) =
      ap (λ r. run_cleanups cs (first_error e r.0) r.1) (once_spent c s h)
      ∙ ap (λ f. run_cleanups cs f s) (first_error-none e)
      ∙ run_cleanups_spent cs e s k

  reversed-All :
      (P : Cleanup W E → Type 0) (cs done : List (Cleanup W E))
      → All P cs
      → All P done
      → All P (reversed cs done)
  unfolding reversed
  reversed-All P [] done h k = k
  reversed-All P (c ∷ cs) done (h, hs) k = reversed-All P cs (c ∷ done) hs (h, k)

  -- A second cleanup does nothing.
  cleanup_again :
      (cs : List (Cleanup W E)) (s : Store W)
      → cleanup cs (cleanup cs s).1 ≡ (none, (cleanup cs s).1)
  unfolding cleanup
  cleanup_again cs s =
      let done = (cleanup cs s).1 in
      run_cleanups_spent (reversed cs []) none done
        (reversed-All (IsSpent done) cs [] (cleanup-spends cs s) tt)
