-- ===== src/Base/Sweep.antt =====
-- The loop that the limiters run over their `Map` of records while it is above a limit: it goes once
-- through the map, stops when the limit is met, and deletes the records that are idle.
use Prim.Native.Nat.{ℕ, ◌+◌, ◌-◌, ◌≤◌}
use Prim.Native.String.{String}
use mathlib.Core.Path.{◌≡◌, refl}
use mathlib.Core.Bool.{Bool, false}
use mathlib.Core.Logic.{◌⊎◌, inl, inr}
use mathlib.Core.Option.{none, some}
use mathlib.Core.List.{[], ◌∷◌}
use native.Mathlib.Omega.{arith}
use text.Mathlib.TextEquality.{eq_iff}
use request.Base.Tests.{leb, if◌then◌else◌}
use request.Base.Lists.{length, All}
use request.Base.Dict.{Dict, get, IsMap}

-- `size` is the size of the map while the loop stands at `m`.
unfoldable pub sweep : (ℕ → Bool) → ℕ → ℕ → Dict ℕ → Dict ℕ
sweep idle limit size [] = []
sweep idle limit size ((k, r) ∷ m) =
    if leb size limit
    then (k, r) ∷ m
    else if idle r
    then sweep idle limit (size - 1) m
    else (k, r) ∷ sweep idle limit size m

module _ (idle : ℕ → Bool) where
  -- What is left meets the limit, or nothing in it is idle; `more` counts what stands before `m`.
  sweep_from_limit :
      (limit more size : ℕ) (m : Dict ℕ)
      → size ≡ length m + more
      → (length (sweep idle limit size m) + more ≤ limit)
        ⊎ All (λ e. idle e.1 ≡ false) (sweep idle limit size m)
  unfolding sweep
  sweep_from_limit limit more size [] h = inr tt
  sweep_from_limit limit more size ((k, r) ∷ m) h =
      ground
        (arith, sweep_from_limit limit more (size - 1) m, sweep_from_limit limit (more + 1) size m)

  pub sweep_limit :
      (limit : ℕ) (m : Dict ℕ)
      → (length (sweep idle limit (length m) m) ≤ limit)
        ⊎ All (λ e. idle e.1 ≡ false) (sweep idle limit (length m) m)
  sweep_limit limit m = elim (sweep_from_limit limit 0 (length m) m (omega arith)) [
    | inl fits ↦ inl (omega arith)
    | inr busy ↦ inr busy
  ]

  pub sweep-All {κ} :
      (P : String × ℕ → Type κ) (limit size : ℕ) (m : Dict ℕ)
      → All P m
      → All P (sweep idle limit size m)
  unfolding sweep
  sweep-All P limit size [] h = tt
  sweep-All P limit size ((k, r) ∷ m) h =
      ground (arith, sweep-All P limit size m h.1, sweep-All P limit (size - 1) m h.1)

  get-sweep-none :
      (limit size : ℕ) (m : Dict ℕ) (j : String)
      → get j m ≡ none
      → get j (sweep idle limit size m) ≡ none
  unfolding sweep get
  get-sweep-none limit size [] j h = refl
  get-sweep-none limit size ((k, r) ∷ m) j h =
      ground (arith, get-sweep-none limit size m j, get-sweep-none limit (size - 1) m j)

  pub sweep-IsMap : (limit size : ℕ) (m : Dict ℕ) → IsMap m → IsMap (sweep idle limit size m)
  unfolding sweep
  sweep-IsMap limit size [] h = tt
  sweep-IsMap limit size ((k, r) ∷ m) h = ground (
    arith,
    sweep-IsMap limit size m h.1,
    sweep-IsMap limit (size - 1) m h.1,
    get-sweep-none limit size m k h.0,
  )

  -- What is in use stays.
  pub get-sweep :
      (limit size : ℕ) (m : Dict ℕ) (j : String) (q : ℕ)
      → IsMap m
      → get j m ≡ some q
      → idle q ≡ false
      → get j (sweep idle limit size m) ≡ some q
  unfolding sweep get
  get-sweep limit size [] j q d h busy = ground arith
  get-sweep limit size ((k, r) ∷ m) j q d h busy =
      ground
        (arith, get-sweep limit size m j q d.1, get-sweep limit (size - 1) m j q d.1, eq_iff k j)
