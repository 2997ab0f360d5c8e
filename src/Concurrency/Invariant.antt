-- ===== src/Concurrency/Invariant.antt =====
-- The invariant of the limiter of src/plugins/concurrencyPlugin.ts.
use request.Base.{
  ℕ, ◌+◌, ◌≤◌, ◌<◌, ◌≡◌, ◌≢◌, refl, true, List, [], ◌∷◌, String, some, arith, length, All, ◌==◌,
  if◌then◌else◌,
}
use request.Base.Dict.{get, IsMap}
use request.Concurrency.State.{
  Options, ConcurrencyRecord, Admission, Limiter, find_admission, remove_admission, is_active,
}

abbrev pub permits_by : ℕ → Admission → ℕ
permits_by r a = if a.record_ref == r then 1 else 0

-- How many permits of the record `r` are held.
abbrev pub permits : ℕ → List Admission → ℕ
permits r [] = 0
permits r (a ∷ l) = permits_by r a + permits r l

pub permits-remove :
    (r owner context : ℕ) (l : List Admission) (a : Admission)
    → find_admission owner context l ≡ some a
    → permits r l ≡ permits r (remove_admission owner context l) + permits_by r a
unfolding find_admission remove_admission
permits-remove r owner context [] a e = ground arith
permits-remove r owner context (x ∷ l) a e = ground (arith, permits-remove r owner context l a)

pub find_admission-holds :
    (owner context : ℕ) (l : List Admission) (a : Admission)
    → find_admission owner context l ≡ some a
    → (a.owner ≡ owner) × (a.context ≡ context)
unfolding find_admission
find_admission-holds owner context [] a e = ground arith
find_admission-holds owner context (x ∷ l) a e =
    ground (arith, find_admission-holds owner context l a)

pub remove_admission-All {κ} :
    (P : Admission → Type κ) (owner context : ℕ) (l : List Admission)
    → All P l
    → All P (remove_admission owner context l)
unfolding remove_admission
remove_admission-All P owner context [] h = tt
remove_admission-All P owner context (x ∷ l) h =
    ground (arith, remove_admission-All P owner context l h.1)

pub find_admission-All {κ} :
    (P : Admission → Type κ) (owner context : ℕ) (l : List Admission) (a : Admission)
    → All P l
    → find_admission owner context l ≡ some a
    → P a
unfolding find_admission
find_admission-All P owner context [] a h e = ground arith
find_admission-All P owner context (x ∷ l) a h e =
    ground (arith, find_admission-All P owner context l a h.1, h.0)

-- Whose request it is: of an installation that is not torn down.
abbrev pub IsInstalled : List ℕ → ℕ → Type 0
IsInstalled installed owner = is_active owner installed ≡ true

-- An entry of the map: a reference that is given out, to the record of its key.
abbrev pub IsListed : (ℕ → ConcurrencyRecord) → ℕ → String × ℕ → Type 0
IsListed cell fresh e = (e.1 < fresh) × ((cell e.1).key ≡ e.0)

-- A permit is counted for each admission and none else, within the limit; requests wait only while
-- no permit is free, within the queue's limit; and the record of an admission is the one of its key,
-- so that its release is never passed over.
pub record Inv (o : Options) (l : Limiter) : Type 0 where
  pub counted : (r : ℕ) → (l.cell r).active ≡ permits r l.admissions
  pub within : (r : ℕ) → (l.cell r).active ≤ o.max_concurrent
  pub busy : (r : ℕ) → (l.cell r).queue ≢ [] → (l.cell r).active ≡ o.max_concurrent
  pub queue_within : (r : ℕ) → length (l.cell r).queue ≤ o.max_queue
  pub keyed : IsMap l.records
  pub listed : All (IsListed l.cell l.fresh) l.records
  pub named : (r : ℕ) → 1 ≤ (l.cell r).active → get (l.cell r).key l.records ≡ some r
  pub below : All (λ a. a.record_ref < l.fresh) l.admissions
  pub owners : All (λ a. IsInstalled l.installed a.owner) l.admissions
  pub waiters : (r : ℕ) → All (λ e. IsInstalled l.installed e.owner) (l.cell r).queue

-- A reference that is not given out yet has no permits.
pub permits_fresh : (r : ℕ) (l : List Admission) → All (λ a. a.record_ref < r) l → permits r l ≡ 0
permits_fresh r [] h = refl
permits_fresh r (a ∷ l) h = ground (arith, permits_fresh r l h.1)

pub permits_below :
    (r fresh : ℕ) (l : List Admission)
    → All (λ a. a.record_ref < fresh) l
    → 1 ≤ permits r l
    → r < fresh
permits_below r fresh [] h k = absurd (omega arith)
permits_below r fresh (a ∷ l) h k = ground (arith, permits_below r fresh l h.1)
