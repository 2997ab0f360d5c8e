-- ===== src/RateLimit/Eviction.antt =====
-- The bound on the records that `trimRecords` of src/plugins/rateLimitPlugin.ts leaves.
use request.Base.{
  ℕ, ◌+◌, ◌-◌, ◌≤◌, ◌≡◌, ◌⊎◌, inl, inr, false, [], ◌∷◌, none, String, arith, length, All,
}
use request.Base.Dict.{Dict, get, length-set-le}
use request.RateLimit.State.{Options, RateLimitRecord, new_record}
use request.RateLimit.Table.{is_idle, trim_records, get_record}

-- `more` counts what stands before `m`.
trim_from_limit :
    (limit now interval more size : ℕ) (m : Dict RateLimitRecord)
    → size ≡ length m + more
    → let left = trim_records limit now interval size m in
      (length left + more ≤ limit) ⊎ All (λ e. is_idle now e.1 ≡ false) left
unfolding trim_records
trim_from_limit limit now interval more size [] h = inr tt
trim_from_limit limit now interval more size ((k, r) ∷ m) h = ground (
  arith,
  trim_from_limit limit now interval more (size - 1) m,
  trim_from_limit limit now interval (more + 1) size m,
)

-- If `maxKeys` is at least one, then behind `getRecord` of a key that had no record the map is within
-- `maxKeys`, unless no record that trimming left is idle.
pub get_record_limit :
    (o : Options) (key : String) (now : ℕ) (m : Dict RateLimitRecord)
    → 1 ≤ o.max_keys
    → get key m ≡ none
    → (length (get_record o key now m).1 ≤ o.max_keys)
      ⊎ All
          (λ e. is_idle now e.1 ≡ false)
          (trim_records (o.max_keys - 1) now o.interval (length m) m)
unfolding get_record
get_record_limit o key now m positive fresh =
    let left = trim_records (o.max_keys - 1) now o.interval (length m) m in
    elim (trim_from_limit (o.max_keys - 1) now o.interval 0 (length m) m (omega arith)) [
      | inl fits ↦ inl (ground (arith, fresh, fits, length-set-le key new_record left))
      | inr busy ↦ inr busy
    ]
