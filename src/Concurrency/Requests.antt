-- ===== src/Concurrency/Requests.antt =====
-- The `onRequest` hook of src/plugins/concurrencyPlugin.ts keeps the invariant of the limiter.
use request.Base.{
  ℕ, ◌+◌, ◌-◌, ◌≤◌, ◌<◌, ◌≡◌, refl, ap, ◌∙◌, inl, inr, Bool, [], ◌∷◌, String, none, some, arith,
  update, update_elim, length, length-append, All, All-mono, All-append, Bool-cases, Option-cases,
  ltb, leb, eq_iff,
}
use request.Base.Dict.{get, set, get-set, set-IsMap, All-set, All-get}
use request.Base.Sweep.{sweep-All, sweep-IsMap, get-sweep}
use request.Limits.{Timeout, normalize_key}
use request.Concurrency.State.{
  Options, QueueEntry, Limiter, ConcurrencyRecord, Request, trim_records, get_record, gate,
  on_request, enqueued, is_expired, is_idle, new_record, is_active,
}
use request.Concurrency.Invariant.{Inv, IsListed, permits_fresh, IsInstalled}

module _ (o : Options) (positive : 1 ≤ o.max_concurrent) where
  made_named :
      (key : String) (l : Limiter) (r : ℕ)
      → Inv o l
      → get key l.records ≡ none
      → 1 ≤ (l.cell r).active
      → get (l.cell r).key (set key l.fresh (trim_records l.cell l.records (o.max_keys - 1)))
        ≡ some r
  unfolding trim_records
  made_named key l r i missing h =
      let there = i.named r h in
      let kept =
        get-sweep (is_idle l.cell) (o.max_keys - 1) (length l.records) l.records (l.cell r).key r
          i.keyed there (ground arith) in
      rw (get-set key (l.cell r).key l.fresh _) (ground (arith, eq_iff key (l.cell r).key))

  made_Inv :
      (key : String) (l : Limiter)
      → Inv o l
      → get key l.records ≡ none
      → Inv o (record l {
        records = set key l.fresh (trim_records l.cell l.records (o.max_keys - 1));
        cell = update l.cell l.fresh (new_record key);
        fresh = l.fresh + 1;
      })
  unfolding trim_records
  made_Inv key l i missing = record {
    counted = λ r. ground (arith, i.counted r, permits_fresh l.fresh l.admissions i.below);
    within = λ r. ground (arith, i.within r);
    busy = λ r. ground (arith, i.busy r);
    queue_within = λ r. ground (arith, i.queue_within r);
    keyed = set-IsMap key l.fresh _ (sweep-IsMap (is_idle l.cell) _ _ l.records i.keyed);
    listed =
        All-set _ key l.fresh _ (λ k e. (omega arith, ground (arith, eq_iff k key)))
          (omega arith, ground arith)
          (All-mono (IsListed l.cell l.fresh)
            (IsListed (update l.cell l.fresh (new_record key)) (l.fresh + 1))
            (λ e h. (omega arith, ground arith)) _
            (sweep-All (is_idle l.cell) (IsListed l.cell l.fresh) _ _ l.records i.listed));
    named = λ r. ground (arith, made_named key l r i missing);
    below = All-mono _ (λ a. a.record_ref < l.fresh + 1) (λ a h. omega arith) l.admissions i.below;
    owners = i.owners;
    waiters =
        update_elim (λ v. All (λ e. IsInstalled l.installed e.owner) v.queue) l.cell l.fresh
          (new_record key) tt i.waiters;
  }

  pub get_record-Inv :
      (key : String) (l : Limiter)
      → Inv o l
      → let (l', r) = get_record o key l in
        Inv o l'
        × (get key l'.records ≡ some r)
        × ((l'.cell r).key ≡ key)
        × (l'.installed ≡ l.installed)
  unfolding get_record
  get_record-Inv key l i = elim (Option-cases (get key l.records)) [
    | inl missing ↦
        rw (missing, get_record)
          (
            made_Inv key l i missing,
            rw (get-set key key l.fresh (trim_records l.cell l.records (o.max_keys - 1)))
                (ground (arith, eq_iff key key)),
            ground arith,
            refl,
          )
    | inr (r, e) ↦
        rw (e, get_record)
          (i, e, (All-get (IsListed l.cell l.fresh) key l.records i.listed e).1, refl)
  ]

  -- `gate` only changes the record `r`, to one with the same key.
  same_key-IsListed :
      (l : Limiter) (r : ℕ) (v : ConcurrencyRecord)
      → Inv o l
      → v.key ≡ (l.cell r).key
      → All (IsListed (update l.cell r v) l.fresh) l.records
  same_key-IsListed l r v i k =
      All-mono (IsListed l.cell l.fresh) (IsListed (update l.cell r v) l.fresh)
        (λ e h. (h.0, ground arith)) l.records i.listed

  admitted_Inv :
      (owner context : ℕ) (l : Limiter) (r : ℕ)
      → Inv o l
      → get (l.cell r).key l.records ≡ some r
      → IsInstalled l.installed owner
      → (l.cell r).active < o.max_concurrent
      → Inv o (record l {
        cell = update l.cell r (record (l.cell r) { active = (l.cell r).active + 1 });
        admissions = record { owner = owner; context = context; record_ref = r } ∷ l.admissions;
      })
  admitted_Inv owner context l r i there own room = record {
    counted = λ q. ground (arith, i.counted q);
    within = λ q. ground (arith, i.within q);
    busy = λ q. ground (arith, i.busy q);
    queue_within = λ q. ground (arith, i.queue_within q);
    keyed = i.keyed;
    listed = same_key-IsListed l r _ i refl;
    named = λ q. ground (arith, i.named q);
    below =
        ((All-get (IsListed l.cell l.fresh) (l.cell r).key l.records i.listed there).0, i.below);
    owners = (own, i.owners);
    waiters =
        update_elim (λ v. All (λ e. IsInstalled l.installed e.owner) v.queue) l.cell r _
          (i.waiters r) i.waiters;
  }

  enqueued-Inv :
      (e : QueueEntry) (l : Limiter) (r : ℕ)
      → Inv o l
      → IsInstalled l.installed e.owner
      → (l.cell r).active ≡ o.max_concurrent
      → length (l.cell r).queue < o.max_queue
      → Inv o (enqueued r e l)
  enqueued-Inv e l r i own full room = record {
    counted = λ q. ground (arith, i.counted q);
    within = λ q. ground (arith, i.within q);
    busy = λ q. ground (arith, i.busy q, full);
    queue_within = λ q. ground (arith, i.queue_within q, length-append (l.cell r).queue (e ∷ []));
    keyed = i.keyed;
    listed = same_key-IsListed l r _ i refl;
    named = λ q. ground (arith, i.named q);
    below = i.below;
    owners = i.owners;
    waiters =
        update_elim (λ v. All (λ x. IsInstalled l.installed x.owner) v.queue) l.cell r _
          (All-append _ (l.cell r).queue (e ∷ []) (i.waiters r) (own, tt)) i.waiters;
  }

  gate-Inv :
      (owner context : ℕ) (stopped : Bool) (timeout : Timeout) (l : Limiter) (r : ℕ)
      → Inv o l
      → get (l.cell r).key l.records ≡ some r
      → IsInstalled l.installed owner
      → Inv o (gate o owner context stopped timeout l r).0
  unfolding gate
  gate-Inv owner context stopped timeout l r i there own =
      elim (Bool-cases (ltb (l.cell r).active o.max_concurrent)) [
        | inl room ↦ rw room (admitted_Inv owner context l r i there own (ground arith))
        | inr full ↦ elim (Bool-cases stopped) [
          | inl gone ↦ rw (full, gone) i
          | inr going ↦ elim (Bool-cases (leb o.max_queue (length (l.cell r).queue))) [
            | inl crowded ↦ rw (full, going, crowded) i
            | inr room ↦ elim (Bool-cases (is_expired timeout)) [
              | inl late ↦ rw (full, going, room, late) i
              | inr waits ↦
                  rw (full, going, room, waits)
                    (enqueued-Inv (record { owner = owner; context = context }) l r i own
                      (ground (arith, i.within r)) (ground arith))
            ]
          ]
        ]
      ]

  pub on_request-Inv :
      (owner context : ℕ) (q : Request) (l : Limiter)
      → Inv o l
      → IsInstalled l.installed owner
      → Inv o (on_request o owner context q l).0
  unfolding on_request
  on_request-Inv owner context q l i own = elim (Bool-cases q.enabled) [
    | inr off ↦ rw off i
    | inl on ↦
        let key = normalize_key q.key in
        let (i', there, named, same) = get_record-Inv key l i in
        let found = get_record o key l in
        rw on (
          gate-Inv owner context q.signal_aborted _ found.0 found.1 i'
            (ap (λ k. get k found.0.records) named ∙ there) (ap (is_active owner) same ∙ own))
  ]
