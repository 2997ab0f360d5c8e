-- ===== src/RateLimit/Records.antt =====
-- What the calls of src/plugins/rateLimitPlugin.ts do to the map of its records.
use request.Base.{
  ℕ, ◌-◌, ◌≡◌, refl, sym, subst, inl, inr, true, false, List, [], ◌∷◌, Option, none, some, String,
  str_eq, eq_iff, arith, length, Bool-cases, Option-cases, if◌then◌else◌,
}
use request.Base.Dict.{Dict, get, set, IsMap, get-set, set-IsMap}
use request.RateLimit.State.{Options, RateLimitRecord, new_record, dequeued, or_else}
use request.RateLimit.Steps.{same_IsWindow}
use request.RateLimit.Histories.{Inv}
use request.RateLimit.Table.{trim_records, get_record, without_owner, remove_owner}
use request.RateLimit.Trimming.{record_of, at_key, trimmed-Inv, trim_records-IsMap, read_as}
use request.RateLimit.Keys.{noted}

-- Every record of the map is as its history has it; a key without one is as with a new record.
pub record KeyedInv (o : Options) (now : ℕ) (m : Dict RateLimitRecord) (history : String → List ℕ)
    : Type 0 where
  pub keys : IsMap m
  pub each : (k : String) → Inv o now (at_key (record_of k m) (history k))

module _ (o : Options) where
  pub rewrite-KeyedInv :
      (now : ℕ) (m : Dict RateLimitRecord) (key : String) (r : RateLimitRecord)
      (history after : String → List ℕ)
      → KeyedInv o now m history
      → ((k : String) → str_eq key k ≡ true → Inv o now (at_key r (after k)))
      → ((k : String) → str_eq key k ≡ false → history k ≡ after k)
      → KeyedInv o now (set key r m) after
  rewrite-KeyedInv now m key r history after i here elsewhere = record {
    keys = set-IsMap key r m i.keys;
    each = λ k. elim (Bool-cases (str_eq key k)) [
      | inl same ↦
          read_as o k _ (some r) now (after k) (ground (arith, get-set key k r m, same))
            (here k same)
      | inr other ↦
          read_as o k _ (get k m) now (after k) (ground (arith, get-set key k r m, other))
            (subst (λ ts. Inv o now (at_key (record_of k m) ts)) (elsewhere k other) (i.each k))
    ];
  }

  pub set-KeyedInv :
      (now : ℕ) (m : Dict RateLimitRecord) (key : String) (r : RateLimitRecord) (ts : List ℕ)
      (history : String → List ℕ)
      → KeyedInv o now m history
      → Inv o now (at_key r ts)
      → KeyedInv o now (set key r m) (noted key ts history)
  set-KeyedInv now m key r ts history i j =
      rewrite-KeyedInv now m key r history (noted key ts history) i
        (λ k same. subst (λ b. Inv o now (at_key r (if b then ts else history k))) (sym same) j)
        (λ k other. ground (arith, other))

  -- Writing the record of a key with its history as it was.
  pub keep-KeyedInv :
      (now : ℕ) (m : Dict RateLimitRecord) (key : String) (r : RateLimitRecord)
      (history : String → List ℕ)
      → KeyedInv o now m history
      → Inv o now (at_key r (history key))
      → KeyedInv o now (set key r m) history
  keep-KeyedInv now m key r history i j =
      rewrite-KeyedInv now m key r history history i
        (λ k same. subst (λ x. Inv o now (at_key r (history x))) ((eq_iff key k).0 same) j)
        (λ k other. refl)

  pub same-KeyedInv :
      (now : ℕ) (m : Dict RateLimitRecord) (key : String) (history : String → List ℕ)
      → KeyedInv o now m history
      → KeyedInv o now m (noted key (history key) history)
  same-KeyedInv now m key history i = record {
    keys = i.keys;
    each = λ k. elim (Bool-cases (str_eq key k)) [
      | inl same ↦
          let whose : history k ≡ noted key (history key) history k =
            ground (arith, same, (eq_iff key k).0 same) in
          subst (λ ts. Inv o now (at_key (record_of k m) ts)) whose (i.each k)
      | inr other ↦
          let whose : history k ≡ noted key (history key) history k = ground (arith, other) in
          subst (λ ts. Inv o now (at_key (record_of k m) ts)) whose (i.each k)
    ];
  }

  pub get_record-KeyedInv :
      (key : String) (now : ℕ) (m : Dict RateLimitRecord) (history : String → List ℕ)
      → KeyedInv o now m history
      → let found = get_record o key now m in
        KeyedInv o now found.1 history × Inv o now (at_key found.0 (history key))
  unfolding get_record
  get_record-KeyedInv key now m history i =
      let good = λ (found : RateLimitRecord × Dict RateLimitRecord).
        KeyedInv o now found.1 history × Inv o now (at_key found.0 (history key)) in
      elim (Option-cases (get key m)) [
        | inr (r, e) ↦
            let found : get_record o key now m ≡ (r, m) = ground (arith, e) in
            let held = λ (v : Option RateLimitRecord).
              Inv o now (at_key (or_else v new_record) (history key)) in
            subst good (sym found) (i, subst held e (i.each key))
        | inl e ↦
            let fewer = trim_records (o.max_keys - 1) now o.interval (length m) m in
            let found : get_record o key now m ≡ (new_record, set key new_record fewer) =
              ground (arith, e) in
            let held = λ (v : Option RateLimitRecord).
              Inv o now (at_key (or_else v new_record) (history key)) in
            let fresh = subst held e (i.each key) in
            let rest : KeyedInv o now fewer history = record {
              keys = trim_records-IsMap (o.max_keys - 1) now o.interval (length m) m i.keys;
              each = λ k.
                  trimmed-Inv o (o.max_keys - 1) now (length m) m k (history k) i.keys (i.each k);
            } in
            subst good (sym found)
              (keep-KeyedInv now fewer key new_record history rest fresh, fresh)
      ]

  remove_owner-none :
      (owner : ℕ) (m : Dict RateLimitRecord) (k : String)
      → get k m ≡ none
      → get k (remove_owner owner m) ≡ none
  unfolding get remove_owner
  remove_owner-none owner [] k h = refl
  remove_owner-none owner ((j, r) ∷ m) k h = ground (arith, remove_owner-none owner m k)

  pub remove_owner-IsMap :
      (owner : ℕ) (m : Dict RateLimitRecord) → IsMap m → IsMap (remove_owner owner m)
  unfolding remove_owner
  remove_owner-IsMap owner [] d = tt
  remove_owner-IsMap owner ((j, r) ∷ m) d =
      (remove_owner-none owner m j d.0, remove_owner-IsMap owner m d.1)

  pub remove_owner-Inv :
      (owner now : ℕ) (m : Dict RateLimitRecord) (k : String) (ts : List ℕ)
      → Inv o now (at_key (record_of k m) ts)
      → Inv o now (at_key (record_of k (remove_owner owner m)) ts)
  unfolding get remove_owner
  remove_owner-Inv owner now [] k ts i = i
  remove_owner-Inv owner now ((j, r) ∷ m) k ts i =
      let s = dequeued (without_owner owner r.queue) r in
      let held = λ (v : Option RateLimitRecord). Inv o now (at_key (or_else v new_record) ts) in
      elim (Bool-cases (str_eq j k)) [
        | inl here ↦
            let first : get k ((j, r) ∷ m) ≡ some r = ground (arith, here) in
            let was : Inv o now (at_key r ts) = subst held first i in
            read_as o k (remove_owner owner ((j, r) ∷ m)) (some s) now ts (ground (arith, here))
              (record { rolling = same_IsWindow o now r s ts (refl, refl) was.rolling })
        | inr other ↦
            let further : get k ((j, r) ∷ m) ≡ get k m = ground (arith, other) in
            read_as o k (remove_owner owner ((j, r) ∷ m)) (get k (remove_owner owner m)) now ts
              (ground (arith, other)) (remove_owner-Inv owner now m k ts (subst held further i))
      ]

  pub record_at :
      (key : String) (r : RateLimitRecord) (now : ℕ) (m : Dict RateLimitRecord)
      (history : String → List ℕ)
      → KeyedInv o now m history
      → get key m ≡ some r
      → Inv o now (at_key r (history key))
  record_at key r now m history i e =
      subst
        (λ (v : Option RateLimitRecord). Inv o now (at_key (or_else v new_record) (history key))) e
        (i.each key)
