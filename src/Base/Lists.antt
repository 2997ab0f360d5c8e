-- ===== src/Base/Lists.antt =====
-- Lists measured by native numbers, predicates on every element, and heaps of cells.
use Prim.Native.Nat.{ℕ, suc, ◌+◌}
use mathlib.Core.Path.{◌≡◌, refl}
use mathlib.Core.Logic.{◌≢◌, ◌⊎◌, inl, inr}
use mathlib.Core.List.{List, [], ◌∷◌, ◌++◌}
use mathlib.Core.Bool.{true, false}
use native.Mathlib.Omega.{arith}
use request.Base.Tests.{◌==◌, if◌then◌else◌}

module _ {ℓ} {A : Type ℓ} where
  abbrev pub length : List A → ℕ
  length [] = 0
  length (x ∷ xs) = suc (length xs)

  pub length-append : (xs ys : List A) → length (xs ++ ys) ≡ length xs + length ys
  length-append [] ys = omega arith
  length-append (x ∷ xs) ys = omega (arith, length-append xs ys)

module _ {ℓ κ} {A : Type ℓ} (P : A → Type κ) where
  abbrev pub All : List A → Type κ
  All [] = Unit
  All (x ∷ xs) = P x × All xs

  pub All-append : (xs ys : List A) → All xs → All ys → All (xs ++ ys)
  All-append [] ys hx hy = hy
  All-append (x ∷ xs) ys hx hy = (hx.0, All-append xs ys hx.1 hy)

pub All-mono {ℓ κ} :
    {A : Type ℓ} (P Q : A → Type κ) (f : (a : A) → P a → Q a) (xs : List A) → All P xs → All Q xs
All-mono P Q f [] h = tt
All-mono P Q f (x ∷ xs) h = (f x h.0, All-mono P Q f xs h.1)

-- The objects that a program holds by reference: a cell for each reference.
module _ {ℓ} {A : Type ℓ} where
  abbrev pub update : (ℕ → A) → ℕ → A → ℕ → A
  update cell r v q = if q == r then v else cell q

  pub update_self : (cell : ℕ → A) (r : ℕ) (v : A) → update cell r v r ≡ v
  update_self cell r v = ground arith

  pub update_ne : (cell : ℕ → A) (r q : ℕ) (v : A) → q ≢ r → update cell r v q ≡ cell q
  update_ne cell r q v h = ground arith

  -- What holds of the new value and of the old cells holds of every cell.
  pub update_elim {κ} :
      (P : A → Type κ) (cell : ℕ → A) (r : ℕ) (v : A)
      → P v
      → ((q : ℕ) → P (cell q))
      → (q : ℕ) → P (update cell r v q)
  update_elim P cell r v new old q = elim (q == r) as (λ t. P (if t then v else cell q)) [
    | true ↦ new
    | false ↦ old q
  ]

pub List-cases {ℓ} : {A : Type ℓ} (xs : List A) → (xs ≡ []) ⊎ (xs ≢ [])
List-cases [] = inl refl
List-cases (x ∷ xs) = inr (λ e. cc)
