-- ===== src/Concurrency/Releases.antt =====
-- `releaseAdmission` and the `onSettled` hook of src/plugins/concurrencyPlugin.ts keep the invariant
-- of the limiter.
use request.Base.{
  ℕ, ◌+◌, ◌-◌, ◌≤◌, ◌<◌, ◌≡◌, ◌≢◌, refl, ap, subst, inl, inr, true, List, [], ◌∷◌, some, arith,
  update, update_elim, length, All, All-mono, ◌==◌, ◌&&◌, if_elim, if◌then◌else◌, Bool-cases,
  Option-cases, eq_iff,
}
use request.Base.Dict.{
  get, set, delete, IsMap, get-set, get-delete_ne, set-IsMap, delete-IsMap, All-set, All-delete,
}
use request.Base.Sweep.{sweep-All, sweep-IsMap, get-sweep}
use request.Concurrency.State.{
  Options, Outcome, QueueEntry, Admission, Limiter, ConcurrencyRecord, trim_records, touch_record,
  is_idle, let_go, hand_over, release_to, release_admission, on_settled, is_active, find_admission,
  remove_admission, refers_to, give_up, Refusal, is_waiting, remove_entry,
}
use request.Concurrency.Invariant.{
  Inv, IsListed, permits, permits-remove, permits_below, IsInstalled, find_admission-holds,
  remove_admission-All, find_admission-All,
}

module _ (o : Options) (positive : 1 ≤ o.max_concurrent) where
  -- The limiter `l` without one of the admissions of `r`: the others are `rest`.
  pub record IsDropped (l : Limiter) (r : ℕ) (rest : List Admission) : Type 0 where
    pub inv : Inv o l
    pub one_less : (q : ℕ) → permits q l.admissions ≡ permits q rest + (if r == q then 1 else 0)
    pub below : All (λ a. a.record_ref < l.fresh) rest
    pub owners : All (λ a. IsInstalled l.installed a.owner) rest

  held : (l : Limiter) (r : ℕ) (rest : List Admission) → IsDropped l r rest → 1 ≤ (l.cell r).active
  held l r rest d = ground (arith, d.one_less r, d.inv.counted r)

  distinct_keys :
      (l : Limiter) (r q : ℕ)
      → Inv o l
      → 1 ≤ (l.cell r).active
      → 1 ≤ (l.cell q).active
      → q ≢ r
      → (l.cell r).key ≢ (l.cell q).key
  distinct_keys l r q i hr hq ne = λ (p : (l.cell r).key ≡ (l.cell q).key).
      ground (arith, i.named r, i.named q, ap (λ k. get k l.records) p)

  touched_named :
      (l : Limiter) (r q : ℕ) (v : ConcurrencyRecord)
      → Inv o l
      → 1 ≤ (l.cell r).active
      → 1 ≤ (l.cell q).active
      → q ≢ r
      → get
          (l.cell q).key
          (trim_records (update l.cell r v) (touch_record (l.cell r).key r l.records) o.max_keys)
        ≡ some q
  unfolding trim_records touch_record
  touched_named l r q v i hr hq ne =
      let k = (l.cell r).key in
      let other = distinct_keys l r q i hr hq ne in
      get-sweep (is_idle (update l.cell r v)) o.max_keys _ (set k r (delete k l.records))
        (l.cell q).key q (set-IsMap k r _ (delete-IsMap k l.records i.keyed))
        (rw (get-set k (l.cell q).key r (delete k l.records)) (
          ground
            (arith, eq_iff k (l.cell q).key, get-delete_ne k (l.cell q).key l.records, i.named q)))
        (ground arith)

  touched_IsMap :
      (l : Limiter) (r : ℕ) (cell : ℕ → ConcurrencyRecord)
      → Inv o l
      → IsMap (trim_records cell (touch_record (l.cell r).key r l.records) o.max_keys)
  unfolding trim_records touch_record
  touched_IsMap l r cell i =
      sweep-IsMap (is_idle cell) _ _ _
        (set-IsMap (l.cell r).key r _ (delete-IsMap (l.cell r).key l.records i.keyed))

  touched-IsListed :
      (l : Limiter) (r : ℕ) (v : ConcurrencyRecord)
      → Inv o l
      → r < l.fresh
      → v.key ≡ (l.cell r).key
      → All
          (IsListed (update l.cell r v) l.fresh)
          (trim_records (update l.cell r v) (touch_record (l.cell r).key r l.records) o.max_keys)
  unfolding trim_records touch_record
  touched-IsListed l r v i lt same =
      let P = IsListed (update l.cell r v) l.fresh in
      let k = (l.cell r).key in
      let kept =
        All-mono (IsListed l.cell l.fresh) P (λ e h. (h.0, ground arith)) l.records i.listed in
      sweep-All (is_idle (update l.cell r v)) P _ _ _ (
        All-set P k r (delete k l.records) (λ j e. (lt, ground (arith, eq_iff j k)))
          (lt, ground arith) (All-delete P k l.records kept))

  let_go-Inv :
      (l : Limiter) (r : ℕ) (rest : List Admission)
      → IsDropped l r rest
      → (l.cell r).queue ≡ []
      → Inv o (let_go o r (record l { admissions = rest }))
  let_go-Inv l r rest d quiet =
      let i = d.inv in
      let has = held l r rest d in
      let v = record (l.cell r) { active = (l.cell r).active - 1 } in
      let lt = permits_below r l.fresh l.admissions i.below (omega (arith, i.counted r)) in
      record {
        counted = λ q. ground (arith, i.counted q, d.one_less q);
        within = λ q. ground (arith, i.within q);
        busy = λ q. ground (arith, i.busy q);
        queue_within = λ q. ground (arith, i.queue_within q);
        keyed = ground (arith, i.keyed, touched_IsMap l r (update l.cell r v) i);
        listed =
            if_elim (All (IsListed (update l.cell r v) l.fresh)) (v.active == 0) _ l.records
              (touched-IsListed l r v i lt refl)
              (All-mono (IsListed l.cell l.fresh) (IsListed (update l.cell r v) l.fresh)
                (λ e h. (h.0, ground arith)) l.records i.listed);
        named = λ q. ground (arith, i.named q, touched_named l r q v i has);
        below = d.below;
        owners = d.owners;
        waiters =
            update_elim (λ x. All (λ e. IsInstalled l.installed e.owner) x.queue) l.cell r v
              (i.waiters r) i.waiters;
      }

  hand_over-Inv :
      (l : Limiter) (r : ℕ) (rest : List Admission) (e : QueueEntry) (q : List QueueEntry)
      → IsDropped l r rest
      → (l.cell r).queue ≡ e ∷ q
      → Inv o (hand_over r e q (record l { admissions = rest }))
  hand_over-Inv l r rest e q d full =
      let i = d.inv in
      let has = held l r rest d in
      let v = record (l.cell r) { queue = q } in
      let lt = permits_below r l.fresh l.admissions i.below (omega (arith, i.counted r)) in
      let own = subst (λ x. All (λ w. IsInstalled l.installed w.owner) x) full (i.waiters r) in
      record {
        counted = λ x. ground (arith, i.counted x, d.one_less x);
        within = λ x. ground (arith, i.within x);
        busy = λ x. ground (arith, i.busy x, i.busy r, full);
        queue_within = λ x. ground (arith, i.queue_within x, full);
        keyed = i.keyed;
        listed =
            All-mono (IsListed l.cell l.fresh) (IsListed (update l.cell r v) l.fresh)
              (λ k h. (h.0, ground arith)) l.records i.listed;
        named = λ x. ground (arith, i.named x);
        below = (lt, d.below);
        owners = (own.0, d.owners);
        waiters =
            update_elim (λ x. All (λ w. IsInstalled l.installed w.owner) x.queue) l.cell r v own.1
              i.waiters;
      }

  to_next :
      (l : Limiter) (r : ℕ) (rest : List Admission) (waiting : List QueueEntry)
      → IsDropped l r rest
      → (l.cell r).queue ≡ waiting
      → Inv o (release_to o r waiting (record l { admissions = rest }))
  to_next l r rest [] d e = let_go-Inv l r rest d e
  to_next l r rest (w ∷ q) d e = hand_over-Inv l r rest w q d e

  pub release_admission-Inv :
      (l : Limiter) (r : ℕ) (rest : List Admission)
      → IsDropped l r rest
      → Inv o (release_admission o r (record l { admissions = rest }))
  unfolding release_admission
  release_admission-Inv l r rest d = to_next l r rest (l.cell r).queue d refl

  found_IsDropped :
      (l : Limiter) (owner context : ℕ) (a : Admission)
      → Inv o l
      → find_admission owner context l.admissions ≡ some a
      → IsDropped l a.record_ref (remove_admission a.owner a.context l.admissions)
  found_IsDropped l owner context a i e = record {
    inv = i;
    one_less = λ q. ground (
      arith,
      permits-remove q owner context l.admissions a e,
      find_admission-holds owner context l.admissions a e,
    );
    below = remove_admission-All _ a.owner a.context l.admissions i.below;
    owners = remove_admission-All _ a.owner a.context l.admissions i.owners;
  }

  -- The guard of the hook never passes the release of a live admission over.
  guard_passes :
      (l : Limiter) (owner context : ℕ) (a : Admission)
      → Inv o l
      → find_admission owner context l.admissions ≡ some a
      → (is_active a.owner l.installed
          && refers_to (get (l.cell a.record_ref).key l.records) a.record_ref)
        ≡ true
  guard_passes l owner context a i e =
      let has = held l a.record_ref _ (found_IsDropped l owner context a i e) in
      ground (
        arith,
        i.named a.record_ref has,
        find_admission-All (λ x. IsInstalled l.installed x.owner) owner context l.admissions a
            i.owners e,
      )

  -- In a limiter of at least one permit that satisfies the invariant, a request that holds a permit
  -- gives it up when it settles: no guard of the hook passes over the release.
  pub on_settled-eq-release :
      (l : Limiter) (owner context : ℕ) (a : Admission)
      → Inv o l
      → find_admission owner context l.admissions ≡ some a
      → on_settled o owner context l
        ≡ release_admission o a.record_ref
            (record l { admissions = remove_admission a.owner a.context l.admissions })
  unfolding on_settled
  on_settled-eq-release l owner context a i e =
      rw (e, on_settled, guard_passes l owner context a i e)

  pub on_settled-Inv :
      (owner context : ℕ) (l : Limiter) → Inv o l → Inv o (on_settled o owner context l)
  unfolding on_settled
  on_settled-Inv owner context l i =
      elim (Option-cases (find_admission owner context l.admissions)) [
        | inl missing ↦ rw (missing, on_settled) i
        | inr (a, e) ↦
            rw (on_settled-eq-release l owner context a i e)
              (release_admission-Inv l a.record_ref _ (found_IsDropped l owner context a i e))
      ]

  shorter_queue :
      (owner context : ℕ) (q : List QueueEntry) → length (remove_entry owner context q) ≤ length q
  unfolding remove_entry
  shorter_queue owner context [] = omega arith
  shorter_queue owner context (e ∷ q) = ground (arith, shorter_queue owner context q)

  remove_entry-All {κ} :
      (P : QueueEntry → Type κ) (owner context : ℕ) (q : List QueueEntry)
      → All P q
      → All P (remove_entry owner context q)
  unfolding remove_entry
  remove_entry-All P owner context [] h = tt
  remove_entry-All P owner context (e ∷ q) h =
      ground (arith, remove_entry-All P owner context q h.1)

  -- A change of a queue to a part of it.
  pub shortened_Inv :
      (l : Limiter) (r : ℕ) (rest : List QueueEntry) (out : List Outcome)
      → Inv o l
      → (rest ≢ [] → (l.cell r).queue ≢ [])
      → length rest ≤ length (l.cell r).queue
      → All (λ e. IsInstalled l.installed e.owner) rest
      → Inv o
          (record l { cell = update l.cell r (record (l.cell r) { queue = rest }); outcomes = out })
  shortened_Inv l r rest out i part less own = record {
    counted = λ x. ground (arith, i.counted x);
    within = λ x. ground (arith, i.within x);
    busy = λ x. ground (arith, i.busy x, i.busy r, part);
    queue_within = λ x. ground (arith, i.queue_within x, i.queue_within r);
    keyed = i.keyed;
    listed =
        All-mono (IsListed l.cell l.fresh)
          (IsListed (update l.cell r (record (l.cell r) { queue = rest })) l.fresh)
          (λ k h. (h.0, ground arith)) l.records i.listed;
    named = λ x. ground (arith, i.named x);
    below = i.below;
    owners = i.owners;
    waiters =
        update_elim (λ x. All (λ w. IsInstalled l.installed w.owner) x.queue) l.cell r _ own
          i.waiters;
  }

  pub give_up-Inv :
      (r : ℕ) (e : QueueEntry) (why : Refusal) (l : Limiter) → Inv o l → Inv o (give_up r e why l)
  unfolding give_up remove_entry
  give_up-Inv r e why l i = elim (Bool-cases (is_waiting e.owner e.context (l.cell r).queue)) [
    | inr settled ↦ rw (settled, give_up) i
    | inl there ↦
        rw (there, give_up)
          (shortened_Inv l r (remove_entry e.owner e.context (l.cell r).queue) _ i
            (λ some_left none_there. some_left (ap (remove_entry e.owner e.context) none_there))
            (shorter_queue e.owner e.context (l.cell r).queue)
            (remove_entry-All _ e.owner e.context (l.cell r).queue (i.waiters r)))
  ]
