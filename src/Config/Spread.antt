-- ===== src/Config/Spread.antt =====
-- `{ ...defaults, ...overrides }` of objects with own properties, as src/core/ConfigMerger.ts uses it.
use request.Base.{String, ◌≡◌, refl, [], ◌∷◌, Option, none, some, eq_iff, arith}
use request.Base.Dict.{Dict, get, set, get-set, IsMap}

module _ {V : Type 0} where
  unfoldable pub spread : Dict V → Dict V → Dict V
  spread defaults [] = defaults
  spread defaults ((k, v) ∷ overrides) = spread (set k v defaults) overrides

  abbrev pub or_else : Option V → Option V → Option V
  or_else (some v) w = some v
  or_else none w = w

  pub get-spread :
      (k : String) (a b : Dict V) → IsMap b → get k (spread a b) ≡ or_else (get k b) (get k a)
  unfolding spread get
  get-spread k a [] h = refl
  get-spread k a ((j, v) ∷ b) (once, h) =
      ground (arith, get-spread k (set j v a) b h, get-set j k v a, eq_iff j k, once)
