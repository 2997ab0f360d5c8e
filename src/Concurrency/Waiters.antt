-- ===== src/Concurrency/Waiters.antt =====
-- The waiters and the admissions of an installation of src/plugins/concurrencyPlugin.ts, which its
-- teardown drops.
use request.Base.{
  ℕ, suc, ◌+◌, ◌≤◌, ◌≡◌, ◌≢◌, refl, ap, sym, subst, ◌∙◌, inl, inr, Bool, true, false, List, [], ◌∷◌,
  String, none, some, arith, length, All, List-cases, ◌==◌, ◌||◌, if◌then◌else◌, Bool-cases,
}
use request.Base.Dict.{Dict, get}
use request.Concurrency.State.{Options, QueueEntry, Admission, Limiter}
use request.Concurrency.Teardown.{others, drop_waiters, find_own, remove_own}
use request.Concurrency.Invariant.{Inv, permits, permits_by}
use request.Concurrency.Releases.{shortened_Inv}

others-length : (owner : ℕ) (q : List QueueEntry) → length (others owner q) ≤ length q
unfolding others
others-length owner [] = omega arith
others-length owner (e ∷ q) = ground (arith, others-length owner q)

others-All {κ} :
    (P : QueueEntry → Type κ) (owner : ℕ) (q : List QueueEntry) → All P q → All P (others owner q)
unfolding others
others-All P owner [] h = tt
others-All P owner (e ∷ q) h = ground (arith, others-All P owner q h.1)

-- Nobody of the installation `owner`.
abbrev pub IsRid : ℕ → List QueueEntry → Type 0
IsRid owner q = All (λ e. e.owner ≢ owner) q

others-IsRid : (owner : ℕ) (q : List QueueEntry) → IsRid owner (others owner q)
unfolding others
others-IsRid owner [] = tt
others-IsRid owner (e ∷ q) = ground (arith, others-IsRid owner q)

-- How many admissions an installation holds.
abbrev pub own_permits : ℕ → List Admission → ℕ
own_permits owner [] = 0
own_permits owner (a ∷ l) = (if a.owner == owner then 1 else 0) + own_permits owner l

pub own_permits-le : (owner : ℕ) (l : List Admission) → own_permits owner l ≤ length l
own_permits-le owner [] = omega arith
own_permits-le owner (a ∷ l) = ground (arith, own_permits-le owner l)

own_permits-none :
    (owner : ℕ) (l : List Admission) → own_permits owner l ≡ 0 → All (λ a. a.owner ≢ owner) l
own_permits-none owner [] h = tt
own_permits-none owner (a ∷ l) h = ground (arith, own_permits-none owner l)

pub find_own-none :
    (owner : ℕ) (l : List Admission) → find_own owner l ≡ none → own_permits owner l ≡ 0
unfolding find_own
find_own-none owner [] e = refl
find_own-none owner (a ∷ l) e = ground (arith, find_own-none owner l)

pub remove_own-permits :
    (owner r : ℕ) (l : List Admission) (a : Admission)
    → find_own owner l ≡ some a
    → (permits r l ≡ permits r (remove_own owner l) + permits_by r a)
      × (own_permits owner l ≡ suc (own_permits owner (remove_own owner l)))
unfolding find_own remove_own
remove_own-permits owner r [] a e = ground arith
remove_own-permits owner r (x ∷ l) a e = ground (arith, remove_own-permits owner r l a)

pub remove_own-All {κ} :
    (P : Admission → Type κ) (owner : ℕ) (l : List Admission) → All P l → All P (remove_own owner l)
unfolding remove_own
remove_own-All P owner [] h = tt
remove_own-All P owner (a ∷ l) h = ground (arith, remove_own-All P owner l h.1)

module _ (o : Options) (positive : 1 ≤ o.max_concurrent) (owner : ℕ) where
  -- The map holds the reference `r`.
  abbrev has_reference : ℕ → Dict ℕ → Bool
  has_reference r [] = false
  has_reference r ((k, q) ∷ m) = q == r || has_reference r m

  has_reference-get :
      (k : String) (r : ℕ) (m : Dict ℕ) → get k m ≡ some r → has_reference r m ≡ true
  unfolding get
  has_reference-get k r [] e = ground arith
  has_reference-get k r ((j, q) ∷ m) e = ground (arith, has_reference-get k r m)

  pub drop_waiters-Inv : (m : Dict ℕ) (l : Limiter) → Inv o l → Inv o (drop_waiters owner m l)
  unfolding drop_waiters
  drop_waiters-Inv [] l i = i
  drop_waiters-Inv ((k, r) ∷ m) l i = drop_waiters-Inv m _ (
      shortened_Inv o positive l r (others owner (l.cell r).queue) _ i
        (λ some_left none_there. some_left (unfold others in (ap (others owner) none_there)))
        (others-length owner (l.cell r).queue) (others-All _ owner (l.cell r).queue (i.waiters r)))

  -- Being rid of the installation's entries is not undone by the loop.
  drop_waiters_keeps :
      (m : Dict ℕ) (l : Limiter) (r : ℕ)
      → IsRid owner (l.cell r).queue
      → IsRid owner ((drop_waiters owner m l).cell r).queue
  unfolding drop_waiters
  drop_waiters_keeps [] l r h = h
  drop_waiters_keeps ((k, q) ∷ m) l r h =
      drop_waiters_keeps m _ r (ground (arith, others-IsRid owner (l.cell q).queue))

  drop_waiters-IsRid :
      (m : Dict ℕ) (l : Limiter) (r : ℕ)
      → has_reference r m ≡ true
      → IsRid owner ((drop_waiters owner m l).cell r).queue
  unfolding drop_waiters
  drop_waiters-IsRid [] l r h = ground arith
  drop_waiters-IsRid ((k, q) ∷ m) l r h = elim (Bool-cases (q == r)) [
    | inl here ↦ drop_waiters_keeps m _ r (ground (arith, others-IsRid owner (l.cell q).queue))
    | inr there ↦ drop_waiters-IsRid m _ r (ground arith)
  ]

  drop_waiters_same :
      (m : Dict ℕ) (l : Limiter) (r : ℕ)
      → has_reference r m ≡ false
      → (drop_waiters owner m l).cell r ≡ l.cell r
  unfolding drop_waiters
  drop_waiters_same [] l r h = refl
  drop_waiters_same ((k, q) ∷ m) l r h = drop_waiters_same m _ r (ground arith) ∙ ground arith

  -- After the loop over the map nobody of the installation waits anywhere.
  pub dropped_everywhere :
      (l : Limiter) (r : ℕ) → Inv o l → IsRid owner ((drop_waiters owner l.records l).cell r).queue
  dropped_everywhere l r i = elim (Bool-cases (has_reference r l.records)) [
    | inl there ↦ drop_waiters-IsRid l.records l r there
    | inr away ↦
        subst (IsRid owner) (ap (λ v. v.queue) (sym (drop_waiters_same l.records l r away)))
          (elim (List-cases (l.cell r).queue) [
            | inl quiet ↦ subst (IsRid owner) (sym quiet) tt
            | inr waits ↦ absurd (
                ground
                  (arith, i.busy r waits, i.named r, has_reference-get (l.cell r).key r l.records))
          ])
  ]
