-- ===== src/Circuit/Hooks/Requests.antt =====
-- The `onRequest` hook of src/plugins/circuitBreakerPlugin.ts keeps the invariant of the breaker.
use request.Base.{
  ℕ, ◌+◌, ◌-◌, ◌≤◌, ◌<◌, ◌≡◌, refl, ◌⊎◌, inl, inr, Bool, true, false, List, [], ◌∷◌, ◌++◌, String,
  some, length, arith, All, All-append, All-mono, update, Bool-cases, Option-cases,
}
use request.Base.Dict.{
  Dict, get, set, delete, set-IsMap, delete-IsMap, length-set-le, length-delete, All-delete,
  All-set, All-get,
}
use request.Circuit.Options.{Options, IsNormal, normalize_key}
use request.Circuit.Record.{CircuitRecord, StateChange, Admission, reopen_if_due, admit, closed}
use request.Circuit.Record.Laws.{
  IsSound, IsReport, reopen_if_due-IsSound, admit-IsSound, reopen_if_due-IsReport,
  reopen_if_due-active, admit-active, admit_closed,
}
use request.Circuit.Table.{Breaker, trim_circuits, create_circuit, find_circuit, same_reference}
use request.Circuit.Table.Eviction.{
  IsBusy, trim_circuits_limit, trim_circuits-IsMap, trim_circuits-All,
}
use request.Circuit.Hooks.{write, gate, on_request}
use request.Circuit.Hooks.Live.{uses-append, uses_fresh}
use request.Circuit.Hooks.Invariant.{
  Core, Inv, IsBounded, IsBounded-mono, update-active, write-Core,
}

module _ (o : Options) (n : IsNormal o) where
  admitted-Core :
      (b : Breaker) (r : ℕ) (a : Admission) (v w : CircuitRecord) (p : Bool) (e : List StateChange)
      → Core o b
      → a.circuit ≡ r
      → r < b.fresh
      → IsSound o v
      → v.active_requests ≡ (b.cell r).active_requests
      → admit o v ≡ some (w, p)
      → All IsReport e
      → Core o (record (write b r w e) { live = b.live ++ a ∷ [] })
  admitted-Core b r a v w p e c here lt s same adm reports = record {
    sound = λ q. ground (arith, c.sound q, admit-IsSound o n v w p s adm);
    counted = λ q.
        ground (arith, c.counted q, same, here, admit-active o v w p adm, uses-append q b.live a);
    keyed = c.keyed;
    listed = c.listed;
    below = All-append (λ x. x.circuit < b.fresh) b.live (a ∷ []) c.below (omega arith, tt);
    reports = All-append IsReport b.events e c.reports reports;
  }

  gate-Core :
      (owner context : ℕ) (key : String) (now : ℕ) (b : Breaker) (r : ℕ)
      → Core o b
      → r < b.fresh
      → Core o (gate o owner context key now b r).0
  unfolding gate
  gate-Core owner context key now b r c lt =
      let v = reopen_if_due o key (b.cell r) now in
      let s = reopen_if_due-IsSound o n key (b.cell r) now (c.sound r) in
      let same = reopen_if_due-active o key (b.cell r) now in
      let reports = reopen_if_due-IsReport o key (b.cell r) now in
      elim (Option-cases (admit o v.0)) [
        | inl refused ↦ rw (refused, gate) (write-Core o b r v.0 v.1 c s same reports)
        | inr (q, adm) ↦
            rw (adm, gate) (admitted-Core b r _ v.0 q.0 q.1 v.1 c refl lt s same adm reports)
      ]

  -- The limit holds but for the circuit `r`, which may be in the map and not in use.
  abbrev IsBoundedBut : ℕ → (ℕ → CircuitRecord) → Dict ℕ → Type 0
  IsBoundedBut r cell m =
      (length m ≤ o.max_circuits) ⊎ All (λ e. (e.1 ≡ r) ⊎ (1 ≤ (cell e.1).active_requests)) m

  -- What finding a circuit leaves: the limit, or a new circuit that is about to be used.
  abbrev Ready : ℕ → Breaker → Type 0
  Ready r b =
      IsBounded o b.cell b.circuits
      ⊎ (((b.cell r).state ≡ closed) × IsBoundedBut r b.cell b.circuits)

  IsBounded-once_used :
      (r : ℕ) (cell : ℕ → CircuitRecord) (w : CircuitRecord) (m : Dict ℕ)
      → 1 ≤ w.active_requests
      → IsBoundedBut r cell m
      → IsBounded o (update cell r w) m
  IsBounded-once_used r cell w m h (inl fits) = inl fits
  IsBounded-once_used r cell w m h (inr busy) =
      inr (All-mono _ (IsBusy (update cell r w)) (λ e p. ground arith) m busy)

  gate-IsBounded :
      (owner context : ℕ) (key : String) (now : ℕ) (b : Breaker) (r : ℕ)
      → Ready r b
      → IsBounded o
          (gate o owner context key now b r).0.cell
          (gate o owner context key now b r).0.circuits
  unfolding gate
  gate-IsBounded owner context key now b r ready =
      let v = reopen_if_due o key (b.cell r) now in
      let same = reopen_if_due-active o key (b.cell r) now in
      elim (Option-cases (admit o v.0)) [
        | inl refused ↦ elim ready [
          | inl fits ↦
              rw (refused, gate)
                (IsBounded-mono o b.cell (update b.cell r v.0) b.circuits
                  (update-active b.cell r v.0 (omega (arith, same))) fits)
          | inr (shut, _) ↦ absurd (admit_closed o key now (b.cell r) shut refused)
        ]
        | inr (q, adm) ↦
            let more = admit-active o v.0 q.0 q.1 adm in
            elim ready [
              | inl fits ↦
                  rw (adm, gate)
                    (IsBounded-mono o b.cell (update b.cell r q.0) b.circuits
                      (update-active b.cell r q.0 (omega (arith, same, more))) fits)
              | inr (_, but) ↦
                  rw (adm, gate)
                    (IsBounded-once_used r b.cell q.0 b.circuits (omega (arith, more)) but)
            ]
      ]

  create_circuit-Core : (key : String) (b : Breaker) → Core o b → Core o (create_circuit o key b).0
  unfolding create_circuit
  create_circuit-Core key b c = record {
    sound = λ q. ground (arith, c.sound q, n.failures_positive, n.successes_positive);
    counted = λ q. ground (arith, c.counted q, uses_fresh b.fresh b.live c.below);
    keyed = set-IsMap key b.fresh _ (trim_circuits-IsMap b.cell b.circuits _ c.keyed);
    listed =
        All-set _ key b.fresh _ (λ i e. omega arith) (omega arith)
          (All-mono (λ e. e.1 < b.fresh) (λ e. e.1 < b.fresh + 1) (λ e h. omega arith) _
            (trim_circuits-All b.cell (λ e. e.1 < b.fresh) b.circuits _ c.listed));
    below = All-mono _ (λ a. a.circuit < b.fresh + 1) (λ a h. omega arith) b.live c.below;
    reports = c.reports;
  }

  create_circuit-Ready :
      (key : String) (b : Breaker) → Core o b → Ready b.fresh (create_circuit o key b).0
  unfolding create_circuit
  create_circuit-Ready key b c =
      let m = trim_circuits b.cell b.circuits (o.max_circuits - 1) in
      elim (trim_circuits_limit b.cell b.circuits (o.max_circuits - 1) c.keyed) [
        | inl fits ↦ inl (inl (omega (arith, length-set-le key b.fresh m, n.circuits_positive)))
        | inr busy ↦ inr (
          ground arith,
          inr (
              All-set _ key b.fresh m (λ i e. inl refl) (inl refl)
                (All-mono (IsBusy b.cell) _ (λ e h. ground arith) m busy)),
        )
      ]

  moved_length :
      (key : String) (r : ℕ) (m : Dict ℕ)
      → get key m ≡ some r
      → length (set key r (delete key m)) ≤ length m
  moved_length key r m e = omega (arith, length-set-le key r (delete key m), length-delete key m e)

  moved_All {κ} :
      (P : String × ℕ → Type κ) (key : String) (r : ℕ) (m : Dict ℕ)
      → ((i : String) → P (i, r))
      → All P m
      → All P (set key r (delete key m))
  moved_All P key r m here h =
      All-set P key r (delete key m) (λ i e. here i) (here key) (All-delete P key m h)

  -- The circuit found by its key is in the map, and finding it keeps the invariant.
  found_Inv :
      (key : String) (b : Breaker) (r : ℕ)
      → Inv o b
      → get key b.circuits ≡ some r
      → Inv o (record b { circuits = set key r (delete key b.circuits); latest_circuit = some r })
  found_Inv key b r i e =
      let c = i.core in
      let lt = All-get (λ x. x.1 < b.fresh) key b.circuits c.listed e in
      record {
        core = record {
          sound = c.sound;
          counted = c.counted;
          keyed = set-IsMap key r _ (delete-IsMap key b.circuits c.keyed);
          listed = moved_All (λ x. x.1 < b.fresh) key r b.circuits (λ _. lt) c.listed;
          below = c.below;
          reports = c.reports;
        };
        bounded = elim i.bounded [
          | inl fits ↦ inl (omega (arith, moved_length key r b.circuits e))
          | inr busy ↦ inr (
              moved_All (IsBusy b.cell) key r b.circuits
                (λ _. All-get (IsBusy b.cell) key b.circuits busy e) busy)
        ];
      }

  find_circuit-Inv :
      (key : String) (b : Breaker)
      → Inv o b
      → let (b', r) = find_circuit o key b in Core o b' × Ready r b' × (r < b'.fresh)
  unfolding find_circuit
  find_circuit-Inv key b i = elim (Option-cases (get key b.circuits)) [
    | inl missing ↦
        rw (missing, find_circuit)
          (
            create_circuit-Core key b i.core,
            create_circuit-Ready key b i.core,
            unfold create_circuit in (omega arith),
          )
    | inr (r, e) ↦
        let lt = All-get (λ x. x.1 < b.fresh) key b.circuits i.core.listed e in
        elim (Bool-cases (same_reference (some r) b.latest_circuit)) [
          | inl latest ↦
              rw (e, find_circuit, latest)
                (
                  record {
                    sound = i.core.sound;
                    counted = i.core.counted;
                    keyed = i.core.keyed;
                    listed = i.core.listed;
                    below = i.core.below;
                    reports = i.core.reports;
                  },
                  inl i.bounded,
                  lt,
                )
          | inr moved ↦
              rw (e, find_circuit, moved)
                ((found_Inv key b r i e).core, inl (found_Inv key b r i e).bounded, lt)
        ]
  ]

  pub on_request-Inv :
      (owner context : ℕ) (enabled : Bool) (key : String) (now : ℕ) (b : Breaker)
      → Inv o b
      → Inv o (on_request o owner context enabled key now b).0
  unfolding on_request
  on_request-Inv owner context false key now b i = i
  on_request-Inv owner context true key now b i =
      let k = normalize_key key in
      let (core, ready, lt) = find_circuit-Inv k b i in
      record {
        core = gate-Core owner context k now (find_circuit o k b).0 (find_circuit o k b).1 core lt;
        bounded =
            gate-IsBounded owner context k now (find_circuit o k b).0 (find_circuit o k b).1 ready;
      }
