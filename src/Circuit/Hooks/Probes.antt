-- ===== src/Circuit/Hooks/Probes.antt =====
-- How many probes of src/plugins/circuitBreakerPlugin.ts are under way at once.
use request.Base.{
  All, ℕ, ◌+◌, ◌≤◌, ◌<◌, ◌≡◌, refl, inl, inr, Bool, false, List, [], ◌∷◌, ◌++◌, String, some, arith,
  ◌==◌, if◌then◌else◌, ◌&&◌, Option-cases, Bool-cases, not, ◌||◌,
}
use request.Circuit.Options.{Options}
use request.Circuit.Record.{
  CircuitRecord, StateChange, Admission, is_half_open, apply_success, count_failure, reopen_if_due,
  admit,
}
use request.Circuit.Table.{Breaker}
use request.Circuit.Hooks.{
  admission, gate, find_admission, finish, settle, Settlement, is_stale, released, remove_admission,
  success, judged, pending, throws, succeed, apply_failure, is_active, write,
}
use request.Circuit.Hooks.Live.{find_admission-of}
use request.Circuit.Hooks.Invariant.{Inv}

-- The probes of the circuit `r`, of any generation, that are not released.
abbrev probes_by : ℕ → Admission → ℕ
probes_by r a = if a.circuit == r && a.probe then 1 else 0

abbrev pub probes_of : ℕ → List Admission → ℕ
probes_of r [] = 0
probes_of r (a ∷ l) = probes_by r a + probes_of r l

probes_of-append :
    (r : ℕ) (l : List Admission) (a : Admission)
    → probes_of r (l ++ a ∷ []) ≡ probes_of r l + probes_by r a
probes_of-append r [] a = omega arith
probes_of-append r (x ∷ l) a = omega (arith, probes_of-append r l a)

probes_of-remove :
    (r owner context : ℕ) (l : List Admission) (a : Admission)
    → find_admission owner context l ≡ some a
    → probes_of r l ≡ probes_of r (remove_admission owner context l) + probes_by r a
unfolding find_admission remove_admission
probes_of-remove r owner context [] a e = ground arith
probes_of-remove r owner context (x ∷ l) a e = ground (arith, probes_of-remove r owner context l a)

-- The counter of a circuit is the number of its probes, and only a half-open circuit has any.
abbrev pub IsExact : Breaker → Type 0
IsExact b =
    (r : ℕ)
    → (probes_of r b.live ≡ (b.cell r).probes)
      × (is_half_open (b.cell r).state ≡ false → (b.cell r).probes ≡ 0)

admit_probes :
    (o : Options) (v w : CircuitRecord) (p : Bool)
    → admit o v ≡ some (w, p)
    → (w.probes ≡ v.probes + (if p then 1 else 0))
      × (w.state ≡ v.state)
      × (p ≡ is_half_open v.state)
unfolding admit
admit_probes o v w p e = ground arith

reopen_probes :
    (o : Options) (key : String) (r : CircuitRecord) (now : ℕ)
    → (is_half_open r.state ≡ false → r.probes ≡ 0)
    → let v = (reopen_if_due o key r now).0 in
      (v.probes ≡ r.probes) × (is_half_open v.state ≡ false → v.probes ≡ 0)
unfolding reopen_if_due
reopen_probes o key r now h = ground arith

module _ (o : Options) (single : o.half_open_max_requests ≡ 1) where
  pub gate-IsExact :
      (owner context : ℕ) (key : String) (now : ℕ) (b : Breaker) (r : ℕ)
      → IsExact b
      → IsExact (gate o owner context key now b r).0
  unfolding gate
  gate-IsExact owner context key now b r x q =
      let v = reopen_if_due o key (b.cell r) now in
      elim (Option-cases (admit o v.0)) [
        | inl refused ↦
            rw (refused, gate) (ground (arith, x q, reopen_probes o key (b.cell r) now (x r).1))
        | inr (w, adm) ↦
            rw (adm, gate)
              (ground (
                arith,
                x q,
                reopen_probes o key (b.cell r) now (x r).1,
                admit_probes o v.0 w.0 w.1 adm,
                probes_of-append q b.live (admission owner context key w.0 w.1 r),
              ))
      ]

  pub finish-IsExact :
      (owner context : ℕ) (a : Admission) (b : Breaker)
      → IsExact b
      → find_admission owner context b.live ≡ some a
      → IsExact (finish o a b)
  unfolding finish
  finish-IsExact owner context a b x e q = ground (
    arith,
    x q,
    find_admission-of owner context b.live a e,
    probes_of-remove q owner context b.live a e,
  )

  -- A probe of a half-open circuit that settles is its only one.
  success_probes :
      (a : Admission) (r : CircuitRecord) (now : ℕ)
      → r.probes ≤ 1
      → (is_half_open r.state ≡ false → r.probes ≡ 0)
      → (if a.probe then 1 else 0) ≤ r.probes
      → let v = (apply_success o a r now).0 in (released a v).probes ≡ (released a r).probes
  unfolding apply_success
  success_probes a r now h k l = ground arith

  failure_probes :
      (a : Admission) (r : CircuitRecord) (now : ℕ)
      → r.probes ≤ 1
      → (is_half_open r.state ≡ false → r.probes ≡ 0)
      → (if a.probe then 1 else 0) ≤ r.probes
      → let v = (count_failure o a r now).0 in (released a v).probes ≡ (released a r).probes
  unfolding count_failure
  failure_probes a r now h k l = ground arith

  -- What an outcome leaves of the probes when its admission is released as well.
  abbrev Settles : Admission → CircuitRecord → CircuitRecord → Type 0
  Settles a r v =
      ((released a v).probes ≡ (released a r).probes)
      × (is_half_open v.state ≡ false → (released a v).probes ≡ 0)

  success-Settles :
      (a : Admission) (r : CircuitRecord) (now : ℕ)
      → r.probes ≤ 1
      → (is_half_open r.state ≡ false → r.probes ≡ 0)
      → (if a.probe then 1 else 0) ≤ r.probes
      → Settles a r (apply_success o a r now).0
  unfolding apply_success
  success-Settles a r now h k l = ground arith

  failure-Settles :
      (a : Admission) (r : CircuitRecord) (now : ℕ)
      → r.probes ≤ 1
      → (is_half_open r.state ≡ false → r.probes ≡ 0)
      → (if a.probe then 1 else 0) ≤ r.probes
      → Settles a r (count_failure o a r now).0
  unfolding count_failure
  failure-Settles a r now h k l = ground arith

  written_IsExact :
      (owner context : ℕ) (a : Admission) (b : Breaker) (v : CircuitRecord) (e : List StateChange)
      → IsExact b
      → find_admission owner context b.live ≡ some a
      → Settles a (b.cell a.circuit) v
      → IsExact (finish o a (write b a.circuit v e))
  unfolding finish
  written_IsExact owner context a b v e x f s q = ground (
    arith,
    x q,
    find_admission-of owner context b.live a f,
    probes_of-remove q owner context b.live a f,
  )

  probe_counted :
      (owner context : ℕ) (a : Admission) (b : Breaker)
      → IsExact b
      → find_admission owner context b.live ≡ some a
      → (if a.probe then 1 else 0) ≤ (b.cell a.circuit).probes
  probe_counted owner context a b x f =
      ground (arith, x a.circuit, probes_of-remove a.circuit owner context b.live a f)

  succeed-IsExact :
      (owner context : ℕ) (a : Admission) (now : ℕ) (b : Breaker)
      → Inv o b
      → IsExact b
      → find_admission owner context b.live ≡ some a
      → IsExact (finish o a (succeed o a now b))
  succeed-IsExact owner context a now b i x f = written_IsExact owner context a b _ _ x f (
      success-Settles a (b.cell a.circuit) now
        (omega (arith, (i.core.sound a.circuit).probes_bounded)) (x a.circuit).1
        (probe_counted owner context a b x f))

  pub judged_IsExact :
      (owner context : ℕ) (a : Admission) (counted : Bool) (now : ℕ) (b : Breaker)
      → Inv o b
      → IsExact b
      → find_admission owner context b.live ≡ some a
      → IsExact (finish o a (apply_failure o a counted now b))
  unfolding apply_failure
  judged_IsExact owner context a counted now b i x f =
      elim (Bool-cases (not (is_active a.owner b.installed) || is_stale a b || not counted)) [
        | inl ignored ↦ rw ignored (finish-IsExact owner context a b x f)
        | inr applied ↦ rw applied (
            written_IsExact owner context a b _ _ x f (
              failure-Settles a (b.cell a.circuit) now
                (omega (arith, (i.core.sound a.circuit).probes_bounded)) (x a.circuit).1
                (probe_counted owner context a b x f)))
      ]

  pub settled_IsExact :
      (owner context : ℕ) (a : Admission) (how : Settlement) (now : ℕ) (b : Breaker)
      → Inv o b
      → IsExact b
      → find_admission owner context b.live ≡ some a
      → IsExact (settle o a how now b)
  unfolding settle
  settled_IsExact owner context a how now b i x f =
      elim (Bool-cases (not (is_active a.owner b.installed) || is_stale a b)) [
        | inl gone ↦ rw (gone, settle) (finish-IsExact owner context a b x f)
        | inr current ↦ rw (current, settle) (by_kind how)
      ]
    where
      by_kind :
          (h : Settlement)
          → IsExact (elim h [
            | success ↦ finish o a (succeed o a now b)
            | judged counted ↦ finish o a (apply_failure o a counted now b)
            | pending ↦ b
            | throws ↦ finish o a b
          ])
      by_kind success = succeed-IsExact owner context a now b i x f
      by_kind (judged counted) = judged_IsExact owner context a counted now b i x f
      by_kind pending = x
      by_kind throws = finish-IsExact owner context a b x f

pub probes_fresh : (r : ℕ) (l : List Admission) → All (λ a. a.circuit < r) l → probes_of r l ≡ 0
probes_fresh r [] h = refl
probes_fresh r (a ∷ l) h = ground (arith, probes_fresh r l h.1)
