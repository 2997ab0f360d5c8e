-- ===== src/Hooks/Entries.antt =====
-- The entries of a registry of hooks or interceptors, and their order: src/interceptors/PluginHooks.ts
-- and src/interceptors/InterceptorManager.ts.
use request.Base.{
  ℕ, ◌*◌, ◌-◌, ◌^◌, Bool, true, false, ◌||◌, ◌&&◌, List, [], ◌∷◌, Option, none, some, if◌then◌else◌,
  ltb, ◌==◌,
}

-- A priority as it is given. `finite r` is the finite number of the rank `r` in the ascending order of
-- the finite numbers of JavaScript.
pub data Priority : Type 0 where
  unset nan positive_infinity negative_infinity : Priority
  finite : ℕ → Priority

-- Below 0 there is a number for each exponent, sign and significand, and 0 is no significand.
abbrev pub rank_of_zero : ℕ
rank_of_zero = 2047 * 2 ^ 52 - 1

unfoldable pub normalize_priority : Priority → ℕ
normalize_priority (finite r) = r
normalize_priority _ = rank_of_zero

pub record Entry {ℓ} (A : Type ℓ) : Type ℓ where
  pub id : ℕ
  pub value : A
  pub priority : ℕ

module _ {ℓ} {A : Type ℓ} where
  -- `second.priority - first.priority || first.id - second.id` below 0.
  abbrev pub precedes : Entry A → Entry A → Bool
  precedes x y = ltb y.priority x.priority || (x.priority == y.priority && ltb x.id y.id)

  unfoldable pub insert : Entry A → List (Entry A) → List (Entry A)
  insert x [] = x ∷ []
  insert x (y ∷ ys) = let rest = insert x ys in if precedes x y then x ∷ y ∷ ys else y ∷ rest

  -- What `sort` makes of entries with different ids: it is stable, so the order is the only one.
  unfoldable pub sort : List (Entry A) → List (Entry A)
  sort [] = []
  sort (x ∷ xs) = insert x (sort xs)

  -- A `Map` of the entries by their ids, in the order of insertion.
  unfoldable pub find : ℕ → List (Entry A) → Option (Entry A)
  find i [] = none
  find i (x ∷ xs) = if x.id == i then some x else find i xs

  unfoldable pub delete : ℕ → List (Entry A) → List (Entry A)
  delete i [] = []
  delete i (x ∷ xs) = let rest = delete i xs in if x.id == i then rest else x ∷ rest

  abbrev pub has : ℕ → List (Entry A) → Bool
  has i xs = elim (find i xs) [ none ↦ false | some x ↦ true ]
