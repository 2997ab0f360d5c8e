-- ===== src/Concurrency/Departures.antt =====
-- The teardown of src/plugins/concurrencyPlugin.ts keeps the invariant of the limiter.
use request.Base.{
  ℕ, zero, suc, ◌≤◌, ◌≡◌, ◌≢◌, refl, subst, ◌∙◌, inl, inr, true, List, [], ◌∷◌, some, arith, length,
  All, Option-cases,
}
use request.Base.Dict.{Dict}
use request.Concurrency.State.{
  Options, QueueEntry, Admission, Limiter, release_admission, release_to, is_active,
}
use request.Concurrency.Teardown.{
  drop_waiters, find_own, remove_own, release_all, without, uninstalled, teardown,
}
use request.Concurrency.Invariant.{Inv, permits, IsInstalled}
use request.Concurrency.Releases.{IsDropped, release_admission-Inv}
use request.Concurrency.Waiters.{
  IsRid, own_permits, own_permits-le, find_own-none, remove_own-permits, remove_own-All,
  drop_waiters-Inv, dropped_everywhere,
}

module _ (o : Options) (positive : 1 ≤ o.max_concurrent) (owner : ℕ) where
  -- While the admissions of the installation are released: nobody of it waits.
  abbrev Quiet : Limiter → Type 0
  Quiet l = (r : ℕ) → IsRid owner (l.cell r).queue

  own_IsDropped :
      (l : Limiter) (a : Admission)
      → Inv o l
      → find_own owner l.admissions ≡ some a
      → IsDropped o positive l a.record_ref (remove_own owner l.admissions)
  own_IsDropped l a i e = record {
    inv = i;
    one_less = λ q. ground (arith, remove_own-permits owner q l.admissions a e);
    below = remove_own-All _ owner l.admissions i.below;
    owners = remove_own-All _ owner l.admissions i.owners;
  }

  released_Quiet :
      (l : Limiter) (r : ℕ) (q : List QueueEntry)
      → Quiet l
      → (l.cell r).queue ≡ q
      → Quiet (release_to o r q l)
        × (own_permits owner (release_to o r q l).admissions ≡ own_permits owner l.admissions)
  released_Quiet l r [] h e = (λ x. ground (arith, h x), refl)
  released_Quiet l r (w ∷ q) h e =
      let (gone, rest) = subst (IsRid owner) e (h r) in (λ x. ground (arith, h x), ground arith)

  released_installed :
      (l : Limiter) (r : ℕ) (q : List QueueEntry) → (release_to o r q l).installed ≡ l.installed
  released_installed l r [] = refl
  released_installed l r (w ∷ q) = refl

  -- One round of the loop.
  round_Inv :
      (l : Limiter) (a : Admission)
      → Inv o l
      → Quiet l
      → find_own owner l.admissions ≡ some a
      → let l' =
          release_admission o a.record_ref
            (record l { admissions = remove_own owner l.admissions }) in
        Inv o l'
        × Quiet l'
        × (suc (own_permits owner l'.admissions) ≡ own_permits owner l.admissions)
        × (l'.installed ≡ l.installed)
  unfolding release_admission
  round_Inv l a i q e =
      let rest = remove_own owner l.admissions in
      let dropped = record l { admissions = rest } in
      let (quiet, same) = released_Quiet dropped a.record_ref (l.cell a.record_ref).queue q refl in
      (
        release_admission-Inv o positive l a.record_ref rest (own_IsDropped l a i e),
        quiet,
        omega (arith, same, (remove_own-permits owner 0 l.admissions a e).1),
        released_installed dropped a.record_ref (l.cell a.record_ref).queue,
      )

  release_all-Inv :
      (n : ℕ) (l : Limiter)
      → Inv o l
      → Quiet l
      → own_permits owner l.admissions ≤ n
      → let l' = release_all o owner n l in
        Inv o l' × (own_permits owner l'.admissions ≡ 0) × Quiet l' × (l'.installed ≡ l.installed)
  unfolding release_all
  release_all-Inv zero l i q h = (i, omega arith, q, refl)
  release_all-Inv (suc n) l i q h = elim (Option-cases (find_own owner l.admissions)) [
    | inl none_left ↦
        rw (none_left, release_all) (i, find_own-none owner l.admissions none_left, q, refl)
    | inr (a, e) ↦
        let (i', q', less, same) = round_Inv l a i q e in
        let (last, none_left, quiet, kept) = release_all-Inv n _ i' q' (omega arith) in
        rw (e, release_all) (last, none_left, quiet, kept ∙ same)
  ]

  still_installed :
      (x : ℕ) (l : List ℕ) → x ≢ owner → is_active x l ≡ true → is_active x (without owner l) ≡ true
  unfolding is_active without
  still_installed x [] ne h = h
  still_installed x (y ∷ l) ne h = ground (arith, still_installed x l ne)

  rid-IsInstalled :
      (l : List ℕ) (q : List QueueEntry)
      → IsRid owner q
      → All (λ e. IsInstalled l e.owner) q
      → All (λ e. IsInstalled (without owner l) e.owner) q
  rid-IsInstalled l [] r h = tt
  rid-IsInstalled l (e ∷ q) r h = (still_installed e.owner l r.0 h.0, rid-IsInstalled l q r.1 h.1)

  none-IsInstalled :
      (l : List ℕ) (q : List Admission)
      → own_permits owner q ≡ 0
      → All (λ e. IsInstalled l e.owner) q
      → All (λ e. IsInstalled (without owner l) e.owner) q
  none-IsInstalled l [] r h = tt
  none-IsInstalled l (e ∷ q) r h =
      (ground (arith, still_installed e.owner l), none-IsInstalled l q (ground arith) h.1)

no_admissions : (q : List Admission) (r : ℕ) → All (λ e. IsInstalled [] e.owner) q → permits r q ≡ 0
unfolding is_active
no_admissions [] r h = refl
no_admissions (a ∷ q) r h = ground arith

-- The installations that are left.
uninstalled-Inv :
    (o : Options) (rest : List ℕ) (l : Limiter)
    → Inv o l
    → All (λ a. IsInstalled rest a.owner) l.admissions
    → ((r : ℕ) → All (λ e. IsInstalled rest e.owner) (l.cell r).queue)
    → Inv o (uninstalled rest l)
uninstalled-Inv o (x ∷ rest) l i a w = record {
  counted = i.counted;
  within = i.within;
  busy = i.busy;
  queue_within = i.queue_within;
  keyed = i.keyed;
  listed = i.listed;
  named = i.named;
  below = i.below;
  owners = a;
  waiters = w;
}
uninstalled-Inv o [] l i a w = record {
  counted = i.counted;
  within = i.within;
  busy = i.busy;
  queue_within = i.queue_within;
  keyed = tt;
  listed = tt;
  named = λ r h. absurd (omega (arith, i.counted r, no_admissions l.admissions r a));
  below = i.below;
  owners = a;
  waiters = w;
}

module _ (o : Options) (positive : 1 ≤ o.max_concurrent) where
  drop_waiters-installed :
      (owner : ℕ) (m : Dict ℕ) (l : Limiter) → (drop_waiters owner m l).installed ≡ l.installed
  unfolding drop_waiters
  drop_waiters-installed owner [] l = refl
  drop_waiters-installed owner ((k, r) ∷ m) l = drop_waiters-installed owner m _

  pub teardown-Inv : (owner : ℕ) (l : Limiter) → Inv o l → Inv o (teardown o owner l)
  unfolding teardown
  teardown-Inv owner l i =
      let quiet = drop_waiters owner l.records l in
      let (last, none_left, rid, same) =
        release_all-Inv o positive owner (length quiet.admissions) quiet
          (drop_waiters-Inv o positive owner l.records l i)
          (λ r. dropped_everywhere o positive owner l r i)
          (own_permits-le owner quiet.admissions) in
      let kept = same ∙ drop_waiters-installed owner l.records l in
      let final = release_all o owner (length quiet.admissions) quiet in
      uninstalled-Inv o (without owner l.installed) _ last
        (none-IsInstalled o positive owner l.installed _ none_left (
          subst (λ x. All (λ (a : Admission). IsInstalled x a.owner) final.admissions) kept
            last.owners))
        (λ r. rid-IsInstalled o positive owner l.installed _ (rid r) (
          subst (λ x. All (λ (e : QueueEntry). IsInstalled x e.owner) (final.cell r).queue) kept
            (last.waiters r)))
