-- ===== src/Circuit/Hooks/Invariant.antt =====
-- The invariant of the circuit breaker of src/plugins/circuitBreakerPlugin.ts, and that every call
-- keeps it.
use request.Base.{
  ℕ, ◌≤◌, ◌<◌, ◌≡◌, ◌⊎◌, inl, inr, List, some, length, arith, All, All-append, All-mono, update,
}
use request.Base.Dict.{Dict, IsMap}
use request.Circuit.Options.{Options}
use request.Circuit.Record.{CircuitRecord, StateChange, Admission}
use request.Circuit.Record.Laws.{IsSound, IsReport}
use request.Circuit.Table.{Breaker}
use request.Circuit.Table.Eviction.{
  IsBusy, trim_circuits_limit, trim_circuits-IsMap, trim_circuits-All,
}
use request.Circuit.Hooks.{write, find_admission, finish}
use request.Circuit.Hooks.Live.{uses, uses-remove, find_admission-of, remove_admission-All}

-- The map is within its limit, or every circuit in it is in use.
abbrev pub IsBounded : Options → (ℕ → CircuitRecord) → Dict ℕ → Type 0
IsBounded o cell m = (length m ≤ o.max_circuits) ⊎ All (IsBusy cell) m

-- Of the parts that no step breaks even for a moment.
pub record Core (o : Options) (b : Breaker) : Type 0 where
  pub sound : (r : ℕ) → IsSound o (b.cell r)
  pub counted : (r : ℕ) → (b.cell r).active_requests ≡ uses r b.live
  pub keyed : IsMap b.circuits
  pub listed : All (λ e. e.1 < b.fresh) b.circuits
  pub below : All (λ a. a.circuit < b.fresh) b.live
  pub reports : All IsReport b.events

pub record Inv (o : Options) (b : Breaker) : Type 0 where
  pub core : Core o b
  pub bounded : IsBounded o b.cell b.circuits

pub update-active :
    (cell : ℕ → CircuitRecord) (r : ℕ) (v : CircuitRecord)
    → (cell r).active_requests ≤ v.active_requests
    → (q : ℕ) → (cell q).active_requests ≤ (update cell r v q).active_requests
update-active cell r v h q = ground arith

pub IsBounded-mono :
    (o : Options) (cell cell' : ℕ → CircuitRecord) (m : Dict ℕ)
    → ((q : ℕ) → (cell q).active_requests ≤ (cell' q).active_requests)
    → IsBounded o cell m
    → IsBounded o cell' m
IsBounded-mono o cell cell' m h (inl fits) = inl fits
IsBounded-mono o cell cell' m h (inr busy) =
    inr (All-mono (IsBusy cell) (IsBusy cell') (λ e p. omega (arith, h e.1)) m busy)

module _ (o : Options) where
  pub write-Core :
      (b : Breaker) (r : ℕ) (v : CircuitRecord) (e : List StateChange)
      → Core o b
      → IsSound o v
      → v.active_requests ≡ (b.cell r).active_requests
      → All IsReport e
      → Core o (write b r v e)
  write-Core b r v e c s same reports = record {
    sound = λ q. ground (arith, c.sound q);
    counted = λ q. ground (arith, c.counted q, same);
    keyed = c.keyed;
    listed = c.listed;
    below = c.below;
    reports = All-append IsReport b.events e c.reports reports;
  }

  pub write-Inv :
      (b : Breaker) (r : ℕ) (v : CircuitRecord) (e : List StateChange)
      → Inv o b
      → IsSound o v
      → v.active_requests ≡ (b.cell r).active_requests
      → All IsReport e
      → Inv o (write b r v e)
  write-Inv b r v e i s same reports = record {
    core = write-Core b r v e i.core s same reports;
    bounded =
        IsBounded-mono o b.cell (update b.cell r v) b.circuits
          (update-active b.cell r v (omega arith)) i.bounded;
  }

  pub finish-Inv :
      (b : Breaker) (owner context : ℕ) (a : Admission)
      → Core o b
      → find_admission owner context b.live ≡ some a
      → Inv o (finish o a b)
  unfolding finish
  finish-Inv b owner context a c e = record {
    core = record {
      sound = λ q. ground (arith, c.sound q);
      counted = λ q. ground (
        arith,
        c.counted q,
        uses-remove q owner context b.live a e,
        find_admission-of owner context b.live a e,
      );
      keyed = trim_circuits-IsMap _ b.circuits o.max_circuits c.keyed;
      listed = trim_circuits-All _ (λ e. e.1 < b.fresh) b.circuits o.max_circuits c.listed;
      below = remove_admission-All _ a.owner a.context b.live c.below;
      reports = c.reports;
    };
    bounded = trim_circuits_limit _ b.circuits o.max_circuits c.keyed;
  }
