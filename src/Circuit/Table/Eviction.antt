-- ===== src/Circuit/Table/Eviction.antt =====
-- Eviction in src/plugins/circuitBreakerPlugin.ts: what `trimCircuits` keeps and what it reaches.
use request.Base.{
  ℕ, zero, suc, ◌≤◌, ◌≡◌, ap, ◌∙◌, ◌⊎◌, inl, inr, ◌≢◌, [], ◌∷◌, String, none, some, length, arith,
  All, ltb, Bool-cases, Option-cases, eq_iff,
}
use request.Base.Dict.{
  Dict, get, delete, IsMap, delete-IsMap, get-delete_ne, length-delete, All-delete,
}
use request.Circuit.Record.{CircuitRecord}
use request.Circuit.Table.{removable_key, trim_rounds, trim_circuits}

module _ (cell : ℕ → CircuitRecord) where
  -- A circuit that a request is using.
  abbrev pub IsBusy : String × ℕ → Type 0
  IsBusy e = 1 ≤ (cell e.1).active_requests

  removable_key-none : (m : Dict ℕ) → removable_key cell m ≡ none → All IsBusy m
  unfolding removable_key
  removable_key-none [] e = tt
  removable_key-none ((k, r) ∷ m) e = ground (arith, removable_key-none m)

  none_of_get : (k j : String) (m : Dict ℕ) {r : ℕ} → get j m ≡ none → get k m ≡ some r → k ≢ j
  none_of_get k j m e h = λ (p : k ≡ j). ground arith

  get_of_removable_key :
      (k : String) (m : Dict ℕ)
      → IsMap m
      → removable_key cell m ≡ some k
      → (r : ℕ) × (get k m ≡ some r) × ((cell r).active_requests ≡ 0)
  unfolding removable_key get
  get_of_removable_key k [] d e = ground arith
  get_of_removable_key k ((j, r) ∷ m) d e = elim (Bool-cases (ltb 0 (cell r).active_requests)) [
    | inr idle ↦ (r, ground (arith, eq_iff j k), ground arith)
    | inl busy ↦
        let (q, found, idle) = get_of_removable_key k m d.1 (ground arith) in
        (q, ground (arith, eq_iff j k, none_of_get k j m d.0 found), idle)
  ]

  trim_rounds_limit :
      (fuel : ℕ) (m : Dict ℕ) (limit : ℕ)
      → IsMap m
      → length m ≤ fuel
      → (length (trim_rounds fuel cell m limit) ≤ limit)
        ⊎ All IsBusy (trim_rounds fuel cell m limit)
  unfolding trim_rounds
  trim_rounds_limit zero [] limit d h = inr tt
  trim_rounds_limit zero (e ∷ m) limit d h = absurd (omega arith)
  trim_rounds_limit (suc fuel) m limit d h = elim (Bool-cases (ltb limit (length m))) [
    | inr fits ↦ rw (fits, trim_rounds) (inl (ground arith))
    | inl over ↦ elim (Option-cases (removable_key cell m)) [
      | inl stuck ↦ rw (over, trim_rounds, stuck) (inr (removable_key-none m stuck))
      | inr (k, e) ↦
          let (r, found, _) = get_of_removable_key k m d e in
          rw (over, trim_rounds, e)
            (trim_rounds_limit fuel (delete k m) limit (delete-IsMap k m d)
              (omega (arith, length-delete k m found)))
    ]
  ]

  trim_rounds-IsMap :
      (fuel : ℕ) (m : Dict ℕ) (limit : ℕ) → IsMap m → IsMap (trim_rounds fuel cell m limit)
  unfolding trim_rounds
  trim_rounds-IsMap zero m limit d = d
  trim_rounds-IsMap (suc fuel) m limit d = elim (Bool-cases (ltb limit (length m))) [
    | inr fits ↦ rw (fits, trim_rounds) d
    | inl over ↦ elim (Option-cases (removable_key cell m)) [
      | inl stuck ↦ rw (over, trim_rounds, stuck) d
      | inr (k, e) ↦
          rw (over, trim_rounds, e) (trim_rounds-IsMap fuel (delete k m) limit (delete-IsMap k m d))
    ]
  ]

  get-trim_rounds :
      (fuel : ℕ) (m : Dict ℕ) (limit : ℕ) (k : String) (r : ℕ)
      → IsMap m
      → get k m ≡ some r
      → 1 ≤ (cell r).active_requests
      → get k (trim_rounds fuel cell m limit) ≡ some r
  unfolding trim_rounds
  get-trim_rounds zero m limit k r d g busy = g
  get-trim_rounds (suc fuel) m limit k r d g busy = elim (Bool-cases (ltb limit (length m))) [
    | inr fits ↦ rw (fits, trim_rounds) g
    | inl over ↦ elim (Option-cases (removable_key cell m)) [
      | inl stuck ↦ rw (over, trim_rounds, stuck) g
      | inr (j, e) ↦
          let (q, found, idle) = get_of_removable_key j m d e in
          rw (over, trim_rounds, e)
            (get-trim_rounds fuel (delete j m) limit k r (delete-IsMap j m d)
              (get-delete_ne j k m (λ (p : j ≡ k). ground (arith, ap (λ (x : String). get x m) p))
                ∙ g)
              busy)
    ]
  ]

  -- Trimming a map in which each key stands once ends within the limit, or with only circuits that are
  -- in use.
  pub trim_circuits_limit :
      (m : Dict ℕ) (limit : ℕ)
      → IsMap m
      → (length (trim_circuits cell m limit) ≤ limit) ⊎ All IsBusy (trim_circuits cell m limit)
  unfolding trim_circuits
  trim_circuits_limit m limit d = trim_rounds_limit (length m) m limit d (omega arith)

  pub trim_circuits-IsMap : (m : Dict ℕ) (limit : ℕ) → IsMap m → IsMap (trim_circuits cell m limit)
  unfolding trim_circuits
  trim_circuits-IsMap m limit d = trim_rounds-IsMap (length m) m limit d

  -- Trimming a map in which each key stands once evicts no circuit that a request is using.
  pub get-trim_circuits :
      (m : Dict ℕ) (limit : ℕ) (k : String) (r : ℕ)
      → IsMap m
      → get k m ≡ some r
      → 1 ≤ (cell r).active_requests
      → get k (trim_circuits cell m limit) ≡ some r
  unfolding trim_circuits
  get-trim_circuits m limit k r d g busy = get-trim_rounds (length m) m limit k r d g busy

  trim_rounds-All {κ} :
      (P : String × ℕ → Type κ) (fuel : ℕ) (m : Dict ℕ) (limit : ℕ)
      → All P m
      → All P (trim_rounds fuel cell m limit)
  unfolding trim_rounds
  trim_rounds-All P zero m limit h = h
  trim_rounds-All P (suc fuel) m limit h = elim (Bool-cases (ltb limit (length m))) [
    | inr fits ↦ rw (fits, trim_rounds) h
    | inl over ↦ elim (Option-cases (removable_key cell m)) [
      | inl stuck ↦ rw (over, trim_rounds, stuck) h
      | inr (k, e) ↦
          rw (over, trim_rounds, e) (trim_rounds-All P fuel (delete k m) limit (All-delete P k m h))
    ]
  ]

  pub trim_circuits-All {κ} :
      (P : String × ℕ → Type κ) (m : Dict ℕ) (limit : ℕ)
      → All P m
      → All P (trim_circuits cell m limit)
  unfolding trim_circuits
  trim_circuits-All P m limit h = trim_rounds-All P (length m) m limit h
