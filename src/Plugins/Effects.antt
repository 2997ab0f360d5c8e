-- ===== src/Plugins/Effects.antt =====
-- What the cleanups of a scope of src/plugins/PluginScope.ts do to the world.
use request.Base.{
  ◌≡◌, ◌≢◌, refl, sym, ap, ◌∙◌, false, List, [], ◌∷◌, Option, none, arith, All, if_cases,
}
use request.Plugins.Cleanups.{Store, Cleanup, once, run_cleanups, reversed, cleanup, first_error}

module _ {W E : Type 0} where
  -- No two cleanups have one id, and none has run.
  abbrev pub IsFresh : List (Cleanup W E) → Store W → Type 0
  IsFresh [] s = Unit
  IsFresh (c ∷ cs) s = (s.spent c.id ≡ false) × All (λ d. c.id ≢ d.id) cs × IsFresh cs s

  -- What the actions make of the world, the one registered last first.
  unfoldable pub undone : List (Cleanup W E) → W → W
  undone [] w = w
  undone (c ∷ cs) w = (c.action (undone cs w)).1

  unfoldable in_turn : List (Cleanup W E) → W → W
  in_turn [] w = w
  in_turn (c ∷ cs) w = in_turn cs (c.action w).1

  in_turn-reversed :
      (cs done : List (Cleanup W E)) (w : W)
      → in_turn (reversed cs done) w ≡ in_turn done (undone cs w)
  unfolding in_turn reversed undone
  in_turn-reversed [] done w = refl
  in_turn-reversed (c ∷ cs) done w = in_turn-reversed cs (c ∷ done) w

  once-world :
      (c : Cleanup W E) (s : Store W)
      → s.spent c.id ≡ false
      → (once c s).1.world ≡ (c.action s.world).1
  unfolding once
  once-world c s h = ground (arith, h)

  once-spares :
      (c d : Cleanup W E) (s : Store W)
      → c.id ≢ d.id
      → s.spent d.id ≡ false
      → (once c s).1.spent d.id ≡ false
  unfolding once
  once-spares c d s n h =
      if_cases {A = Option E × Store W} (λ r. r.1.spent d.id ≡ false) (s.spent c.id) _ _
        (λ spent. h) (λ fresh. ground (arith, h, n))

  once-IsFresh :
      (c : Cleanup W E) (cs : List (Cleanup W E)) (s : Store W)
      → All (λ d. c.id ≢ d.id) cs
      → IsFresh cs s
      → IsFresh cs (once c s).1
  once-IsFresh c [] s n h = tt
  once-IsFresh c (d ∷ cs) s (n, ns) (h, o, hs) =
      (once-spares c d s n h, o, once-IsFresh c cs s ns hs)

  run_cleanups-world :
      (cs : List (Cleanup W E)) (e : Option E) (s : Store W)
      → IsFresh cs s
      → (run_cleanups cs e s).1.world ≡ in_turn cs s.world
  unfolding run_cleanups in_turn
  run_cleanups-world [] e s h = refl
  run_cleanups-world (c ∷ cs) e s (h, o, hs) =
      run_cleanups-world cs (first_error e (once c s).0) (once c s).1 (once-IsFresh c cs s o hs)
      ∙ ap (in_turn cs) (once-world c s h)

  apart_from :
      (c : Cleanup W E) (cs done : List (Cleanup W E))
      → All (λ d. c.id ≢ d.id) cs
      → All (λ d. All (λ x. d.id ≢ x.id) done) cs
      → All (λ d. All (λ x. d.id ≢ x.id) (c ∷ done)) cs
  apart_from c [] done h k = tt
  apart_from c (d ∷ cs) done (h, hs) (k, ks) =
      ((λ (p : d.id ≡ c.id). h (sym p), k), apart_from c cs done hs ks)

  apart_from_none :
      (cs : List (Cleanup W E))
      → All (λ (c : Cleanup W E). All (λ (d : Cleanup W E). c.id ≢ d.id) []) cs
  apart_from_none [] = tt
  apart_from_none (c ∷ cs) = (tt, apart_from_none cs)

  reversed-IsFresh :
      (cs done : List (Cleanup W E)) (s : Store W)
      → IsFresh cs s
      → IsFresh done s
      → All (λ c. All (λ d. c.id ≢ d.id) done) cs
      → IsFresh (reversed cs done) s
  unfolding reversed
  reversed-IsFresh [] done s h k apart = k
  reversed-IsFresh (c ∷ cs) done s (h, o, hs) k (a, apart) =
      reversed-IsFresh cs (c ∷ done) s hs (h, a, k) (apart_from c cs done o apart)

  -- The cleanups of distinct ids that have not run all do what they do, in the reverse order.
  pub cleanup-world :
      (cs : List (Cleanup W E)) (s : Store W)
      → IsFresh cs s
      → (cleanup cs s).1.world ≡ undone cs s.world
  unfolding cleanup in_turn
  cleanup-world cs s h =
      run_cleanups-world (reversed cs []) none s
        (reversed-IsFresh cs [] s h tt (apart_from_none cs))
      ∙ in_turn-reversed cs [] s.world
