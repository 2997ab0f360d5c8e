-- ===== src/Circuit/Hooks/Settling.antt =====
-- The `onSettled` hook of src/plugins/circuitBreakerPlugin.ts and the teardown keep the invariant of
-- the breaker.
use request.Base.{
  ℕ, ◌≡◌, inl, inr, Bool, not, ◌||◌, List, [], String, Option, none, some, arith, Bool-cases,
  Option-cases,
}
use request.Base.Dict.{delete-IsMap, length-delete-le, All-delete}
use request.Circuit.Options.{Options, IsNormal}
use request.Circuit.Record.{Admission, apply_success, count_failure}
use request.Circuit.Record.Laws.{
  apply_success-IsSound, count_failure-IsSound, apply_success-IsReport, count_failure-IsReport,
  apply_success-active, count_failure-active,
}
use request.Circuit.Table.{Breaker, reset}
use request.Circuit.Table.Eviction.{IsBusy}
use request.Circuit.Hooks.{
  find_admission, finish, apply_failure, succeed, is_stale, is_active, settle, Settlement, success,
  judged, pending, throws, on_settled, on_judged,
}
use request.Circuit.Hooks.Invariant.{Inv, write-Inv, finish-Inv}

module _ (o : Options) (n : IsNormal o) where
  succeed-Inv : (a : Admission) (now : ℕ) (b : Breaker) → Inv o b → Inv o (succeed o a now b)
  succeed-Inv a now b i =
      let r = b.cell a.circuit in
      write-Inv o b a.circuit (apply_success o a r now).0 (apply_success o a r now).1 i
        (apply_success-IsSound o n a r now (i.core.sound a.circuit))
        (apply_success-active o a r now) (apply_success-IsReport o a r now)

  apply_failure-Inv :
      (a : Admission) (counted : Bool) (now : ℕ) (b : Breaker)
      → Inv o b
      → Inv o (apply_failure o a counted now b)
  unfolding apply_failure
  apply_failure-Inv a counted now b i =
      let r = b.cell a.circuit in
      elim (Bool-cases (not (is_active a.owner b.installed) || is_stale a b || not counted)) [
        | inl ignored ↦ rw ignored i
        | inr applied ↦ rw applied (
            write-Inv o b a.circuit (count_failure o a r now).0 (count_failure o a r now).1 i
              (count_failure-IsSound o n a r now (i.core.sound a.circuit))
              (count_failure-active o a r now) (count_failure-IsReport o a r now))
      ]

  apply_failure-live :
      (a : Admission) (counted : Bool) (now : ℕ) (b : Breaker)
      → (apply_failure o a counted now b).live ≡ b.live
  unfolding apply_failure
  apply_failure-live a counted now b = ground arith

  judged_Inv :
      (owner context : ℕ) (a : Admission) (counted : Bool) (now : ℕ) (b : Breaker)
      → Inv o b
      → find_admission owner context b.live ≡ some a
      → Inv o (finish o a (apply_failure o a counted now b))
  judged_Inv owner context a counted now b i e =
      finish-Inv o (apply_failure o a counted now b) owner context a
        (apply_failure-Inv a counted now b i).core (rw (apply_failure-live a counted now b) e)

  settled_Inv :
      (owner context : ℕ) (a : Admission) (how : Settlement) (now : ℕ) (b : Breaker)
      → Inv o b
      → find_admission owner context b.live ≡ some a
      → Inv o (settle o a how now b)
  unfolding settle
  settled_Inv owner context a how now b i e =
      elim (Bool-cases (not (is_active a.owner b.installed) || is_stale a b)) [
        | inl gone ↦ rw (gone, settle) (finish-Inv o b owner context a i.core e)
        | inr current ↦ rw (current, settle) (by_kind how)
      ]
    where
      by_kind :
          (h : Settlement)
          → Inv o (elim h [
            | success ↦ finish o a (succeed o a now b)
            | judged counted ↦ finish o a (apply_failure o a counted now b)
            | pending ↦ b
            | throws ↦ finish o a b
          ])
      by_kind success =
          finish-Inv o (succeed o a now b) owner context a (succeed-Inv a now b i).core e
      by_kind (judged counted) = judged_Inv owner context a counted now b i e
      by_kind pending = i
      by_kind throws = finish-Inv o b owner context a i.core e

  pub on_settled-Inv :
      (owner context : ℕ) (how : Settlement) (now : ℕ) (b : Breaker)
      → Inv o b
      → Inv o (on_settled o owner context how now b)
  unfolding on_settled
  on_settled-Inv owner context how now b i =
      elim (Option-cases (find_admission owner context b.live)) [
        | inl missing ↦ rw (missing, on_settled) i
        | inr (a, e) ↦ rw (e, on_settled) (settled_Inv owner context a how now b i e)
      ]

  pub on_judged-Inv :
      (owner context : ℕ) (verdict : Option Bool) (now : ℕ) (b : Breaker)
      → Inv o b
      → Inv o (on_judged o owner context verdict now b)
  unfolding on_judged
  on_judged-Inv owner context none now b i =
      elim (Option-cases (find_admission owner context b.live)) [
        | inl missing ↦ rw (missing, on_judged) i
        | inr (a, e) ↦ rw (e, on_judged) (finish-Inv o b owner context a i.core e)
      ]
  on_judged-Inv owner context (some counted) now b i =
      elim (Option-cases (find_admission owner context b.live)) [
        | inl missing ↦ rw (missing, on_judged) i
        | inr (a, e) ↦ rw (e, on_judged) (judged_Inv owner context a counted now b i e)
      ]

  pub reset-Inv : (key : String) (b : Breaker) → Inv o b → Inv o (reset key b)
  unfolding reset
  reset-Inv key b i = record {
    core = record {
      sound = i.core.sound;
      counted = i.core.counted;
      keyed = delete-IsMap key b.circuits i.core.keyed;
      listed = All-delete _ key b.circuits i.core.listed;
      below = i.core.below;
      reports = i.core.reports;
    };
    bounded = elim i.bounded [
      | inl fits ↦ inl (omega (arith, length-delete-le key b.circuits))
      | inr busy ↦ inr (All-delete (IsBusy b.cell) key b.circuits busy)
    ];
  }

  pub cleared_Inv :
      (b : Breaker) (installed : List ℕ)
      → Inv o b
      → Inv o (record b { installed = installed; circuits = []; latest_circuit = none })
  cleared_Inv b installed i = record {
    core = record {
      sound = i.core.sound;
      counted = i.core.counted;
      keyed = tt;
      listed = tt;
      below = i.core.below;
      reports = i.core.reports;
    };
    bounded = inr tt;
  }
