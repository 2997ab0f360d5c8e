-- ===== src/Circuit/Hooks/Live.antt =====
-- The admissions of src/plugins/circuitBreakerPlugin.ts that are not released: how many requests use
-- a circuit.
use request.Base.{
  ℕ, ◌+◌, ◌<◌, ◌≡◌, refl, List, [], ◌∷◌, ◌++◌, some, arith, All, ◌==◌, if◌then◌else◌,
}
use request.Circuit.Record.{Admission}
use request.Circuit.Hooks.{find_admission, remove_admission}

abbrev pub uses_by : ℕ → Admission → ℕ
uses_by r a = if a.circuit == r then 1 else 0

-- How many live admissions are of the circuit `r`.
abbrev pub uses : ℕ → List Admission → ℕ
uses r [] = 0
uses r (a ∷ l) = uses_by r a + uses r l

pub uses-append :
    (r : ℕ) (l : List Admission) (a : Admission) → uses r (l ++ a ∷ []) ≡ uses r l + uses_by r a
uses-append r [] a = omega arith
uses-append r (x ∷ l) a = omega (arith, uses-append r l a)

pub uses-remove :
    (r owner context : ℕ) (l : List Admission) (a : Admission)
    → find_admission owner context l ≡ some a
    → uses r l ≡ uses r (remove_admission owner context l) + uses_by r a
unfolding find_admission remove_admission
uses-remove r owner context [] a e = ground arith
uses-remove r owner context (x ∷ l) a e = ground (arith, uses-remove r owner context l a)

-- An admission is found under its own installation and context.
pub find_admission-of :
    (owner context : ℕ) (l : List Admission) (a : Admission)
    → find_admission owner context l ≡ some a
    → (a.owner ≡ owner) × (a.context ≡ context)
unfolding find_admission
find_admission-of owner context [] a e = ground arith
find_admission-of owner context (x ∷ l) a e = ground (arith, find_admission-of owner context l a)

pub remove_admission-All {κ} :
    (P : Admission → Type κ) (owner context : ℕ) (l : List Admission)
    → All P l
    → All P (remove_admission owner context l)
unfolding remove_admission
remove_admission-All P owner context [] h = tt
remove_admission-All P owner context (x ∷ l) h =
    ground (arith, remove_admission-All P owner context l h.1)

pub find_admission-All {κ} :
    (P : Admission → Type κ) (owner context : ℕ) (l : List Admission) (a : Admission)
    → All P l
    → find_admission owner context l ≡ some a
    → P a
unfolding find_admission
find_admission-All P owner context [] a h e = ground arith
find_admission-All P owner context (x ∷ l) a h e =
    ground (arith, find_admission-All P owner context l a h.1, h.0)

-- An unused reference is one that no live admission holds.
pub uses_fresh : (r : ℕ) (l : List Admission) → All (λ a. a.circuit < r) l → uses r l ≡ 0
uses_fresh r [] h = refl
uses_fresh r (a ∷ l) h = ground (arith, uses_fresh r l h.1)
