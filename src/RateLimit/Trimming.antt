-- ===== src/RateLimit/Trimming.antt =====
-- What `trimRecords` of src/plugins/rateLimitPlugin.ts leaves of the records.
use request.Base.{
  ℕ, ◌-◌, ◌≡◌, refl, sym, ap, subst, ◌∙◌, inl, inr, List, [], ◌∷◌, Option, none, some, String,
  str_eq, eq_iff, arith, length, if_elim, leb, Bool-cases,
}
use request.Base.Dict.{Dict, get, IsMap}
use request.RateLimit.State.{
  Options, RateLimitRecord, new_record, prune_timestamps, active_count, or_else,
}
use request.RateLimit.Window.{prune-IsWindow, window, active_count-window, rev}
use request.RateLimit.Histories.{Traced, Inv}
use request.RateLimit.Table.{is_idle, trim_records}

abbrev pub record_of : String → Dict RateLimitRecord → RateLimitRecord
record_of k m = or_else (get k m) new_record

abbrev pub at_key : RateLimitRecord → List ℕ → Traced
at_key r history = record { rate = r; history = history }

length_nil : (ts : List ℕ) → length ts ≡ 0 → ts ≡ []
length_nil [] h = refl
length_nil (t ∷ ts) h = absurd (omega arith)

get-trim_records-none :
    (limit now interval size : ℕ) (m : Dict RateLimitRecord) (k : String)
    → get k m ≡ none
    → get k (trim_records limit now interval size m) ≡ none
unfolding get trim_records
get-trim_records-none limit now interval size [] k h = refl
get-trim_records-none limit now interval size ((j, r) ∷ m) k h = ground (
  arith,
  get-trim_records-none limit now interval size m k,
  get-trim_records-none limit now interval (size - 1) m k,
)

pub trim_records-IsMap :
    (limit now interval size : ℕ) (m : Dict RateLimitRecord)
    → IsMap m
    → IsMap (trim_records limit now interval size m)
unfolding trim_records
trim_records-IsMap limit now interval size [] d = tt
trim_records-IsMap limit now interval size ((j, r) ∷ m) d = ground (
  arith,
  trim_records-IsMap limit now interval size m d.1,
  trim_records-IsMap limit now interval (size - 1) m d.1,
  get-trim_records-none limit now interval size m j d.0,
)

module _ (o : Options) where
  emptied :
      (now : ℕ) (r : RateLimitRecord) (history : List ℕ)
      → Inv o now (at_key r history)
      → active_count r ≡ 0
      → Inv o now (at_key new_record history)
  emptied now r history i none_left =
      let bare : window r ≡ [] = length_nil (window r) (sym (active_count-window r) ∙ none_left) in
      record {
        rolling = record {
          old = i.rolling.old;
          split = i.rolling.split ∙ ap (λ ts. rev ts i.rolling.old) bare;
          past = i.rolling.past;
          spaced = i.rolling.spaced;
          head = omega arith;
        };
      }

  pub pruned-Inv :
      (now : ℕ) (r : RateLimitRecord) (history : List ℕ)
      → Inv o now (at_key r history)
      → Inv o now (at_key (prune_timestamps now o.interval r) history)
  pruned-Inv now r history i = record { rolling = prune-IsWindow o now r history i.rolling }

  pub read_as :
      (k : String) (x : Dict RateLimitRecord) (v : Option RateLimitRecord) (now : ℕ)
      (history : List ℕ)
      → get k x ≡ v
      → Inv o now (at_key (or_else v new_record) history)
      → Inv o now (at_key (record_of k x) history)
  read_as k x v now history e i =
      subst (λ (u : Option RateLimitRecord). Inv o now (at_key (or_else u new_record) history))
        (sym e) i

  -- What is left of a record behind the trimming.
  pub trimmed-Inv :
      (limit now size : ℕ) (m : Dict RateLimitRecord) (k : String) (history : List ℕ)
      → IsMap m
      → Inv o now (at_key (record_of k m) history)
      → Inv o now (at_key (record_of k (trim_records limit now o.interval size m)) history)
  unfolding get trim_records
  trimmed-Inv limit now size [] k history d i = i
  trimmed-Inv limit now size ((j, r) ∷ m) k history d i =
      let p = prune_timestamps now o.interval r in
      let trim = λ (n : ℕ). trim_records limit now o.interval n m in
      let good = λ (x : Dict RateLimitRecord). Inv o now (at_key (record_of k x) history) in
      let held =
        λ (x : Option RateLimitRecord). Inv o now (at_key (or_else x new_record) history) in
      elim (Bool-cases (str_eq j k)) [
        | inl here ↦
            let first : get k ((j, r) ∷ m) ≡ some r = ground (arith, here) in
            let this : Inv o now (at_key r history) = subst held first i in
            let gone : get k m ≡ none = ground (arith, d.0, (eq_iff j k).0 here) in
            let rid = get-trim_records-none limit now o.interval (size - 1) m k gone in
            let kept = pruned-Inv now r history this in
            if_elim good (leb size limit) _ _ i (elim (Bool-cases (is_idle now p)) [
              | inl idle ↦
                  read_as k _ none now history (ground (arith, idle, rid))
                    (emptied now p history kept (ground (arith, idle)))
              | inr busy ↦ read_as k _ (some p) now history (ground (arith, busy, here)) kept
            ])
        | inr other ↦
            let further : get k ((j, r) ∷ m) ≡ get k m = ground (arith, other) in
            let rest : good m = subst held further i in
            let next = λ (n : ℕ). trimmed-Inv limit now n m k history d.1 rest in
            if_elim good (leb size limit) _ _ i (elim (Bool-cases (is_idle now p)) [
              | inl idle ↦
                  read_as k _ (get k (trim (size - 1))) now history (ground (arith, idle))
                    (next (size - 1))
              | inr busy ↦
                  read_as k _ (get k (trim size)) now history (ground (arith, busy, other))
                    (next size)
            ])
      ]
