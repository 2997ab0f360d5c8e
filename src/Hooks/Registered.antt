-- ===== src/Hooks/Registered.antt =====
-- What the managers of src/interceptors/ hold, and in which order they run it.
use request.Base.{
  ℕ, ◌+◌, ◌≤◌, ◌<◌, ◌⊎◌, true, All, All-mono, List, [], ◌∷◌, ◌++◌, Option, none, some, ◌≡◌, refl,
  sym, subst, ◌∙◌, ap, arith, if◌then◌else◌, ◌==◌, Bool-cases, inl, inr,
}
use request.Hooks.Entries.{Entry, Priority, precedes, sort, find, delete, has}
use request.Hooks.Registry.{
  InterceptorManager, no_interceptors, refresh_order, entry, use_interceptor, eject, clear,
  Operation, using, ejecting, clearing, operate, operate_all,
}
use request.Hooks.Order.{
  Ordered, Distinct, find-sort, sort-Ordered, find-delete, delete-Distinct, find-append,
  append-Distinct,
}

-- The registrations as a function of the ids, and the next id.
pub record Registrations {ℓ} (A : Type ℓ) : Type ℓ where
  pub next : ℕ
  pub at : ℕ → Option (Entry A)

module _ {ℓ} {A : Type ℓ} where
  abbrev pub nothing : Registrations A
  nothing = record { next = 0; at = λ i. none }

  -- A registration is under the next id until it is ejected.
  abbrev pub note : Operation A → Registrations A → Registrations A
  note (using a p) s = record {
    next = s.next + 1;
    at = λ i. if s.next == i then some (entry s.next a p) else s.at i;
  }
  note (ejecting j) s = record s { at = λ i. if j == i then none else s.at i }
  note clearing s = record s { at = λ i. none }

  unfoldable pub note_all : List (Operation A) → Registrations A → Registrations A
  note_all [] s = s
  note_all (o ∷ os) s = note_all os (note o s)

  -- The entries that a manager holds have ids below the next.
  abbrev pub IsKept : ℕ → List (Entry A) → Type ℓ
  IsKept next xs = Distinct xs × ((i : ℕ) → next ≤ i → find i xs ≡ none)

  append-IsKept :
      (next : ℕ) (xs : List (Entry A)) (a : A) (p : Priority)
      → IsKept next xs
      → IsKept (next + 1) (xs ++ (entry next a p ∷ []))
  append-IsKept next xs a p (d, below) =
      let absent = below next (omega arith) in
      (
        append-Distinct xs (entry next a p) d absent,
        λ i le. ground (arith, find-append i xs (entry next a p) absent, below i (omega arith)),
      )

  delete-IsKept : (next j : ℕ) (xs : List (Entry A)) → IsKept next xs → IsKept next (delete j xs)
  delete-IsKept next j xs (d, below) =
      (delete-Distinct j xs d, λ i le. ground (arith, find-delete i j xs, below i le))

  abbrev pub Refines : InterceptorManager A → Registrations A → Type ℓ
  Refines m s =
      (m.next_id ≡ s.next)
      × IsKept m.next_id m.interceptors
      × (m.ordered_interceptors ≡ sort m.interceptors)
      × ((i : ℕ) → find i m.interceptors ≡ s.at i)

  eject-Refines :
      (j : ℕ) (m : InterceptorManager A) (s : Registrations A)
      → Refines m s
      → Refines (eject j m) (note (ejecting j) s)
  unfolding eject
  eject-Refines j m s (same, kept, order, at) =
      let noted = note (ejecting j) s in
      let less : InterceptorManager A =
        refresh_order (record m { interceptors = delete j m.interceptors }) in
      let kept_less = delete-IsKept m.next_id j m.interceptors kept in
      elim (Bool-cases (has j m.interceptors)) [
        | inl there ↦
            subst (λ b. Refines (if b then less else m) noted) (sym there)
              (same, kept_less, refl, λ i. ground (arith, find-delete i j m.interceptors, at i))
        | inr gone ↦
            subst (λ b. Refines (if b then less else m) noted) (sym gone)
              (same, kept, order, λ i. ground (arith, gone, at i, at j))
      ]

  pub operate-Refines :
      (o : Operation A) (m : InterceptorManager A) (s : Registrations A)
      → Refines m s
      → Refines (operate o m) (note o s)
  unfolding use_interceptor clear find sort
  operate-Refines (using a p) m s (same, kept, order, at) =
      let absent = kept.1 m.next_id (omega arith) in
      (
        ground (arith, same),
        append-IsKept m.next_id m.interceptors a p kept,
        refl,
        λ i.
            subst
              (λ n.
                find i (m.interceptors ++ (entry m.next_id a p ∷ []))
                ≡ (if n == i then some (entry n a p) else s.at i))
              same
              (ground (arith, find-append i m.interceptors (entry m.next_id a p) absent, at i)),
      )
  operate-Refines (ejecting j) m s h = eject-Refines j m s h
  operate-Refines clearing m s (same, kept, order, at) = (same, (tt, λ i le. refl), refl, λ i. refl)

  operate_all-Refines :
      (os : List (Operation A)) (m : InterceptorManager A) (s : Registrations A)
      → Refines m s
      → Refines (operate_all os m) (note_all os s)
  unfolding operate_all note_all
  operate_all-Refines [] m s h = h
  operate_all-Refines (o ∷ os) m s h =
      operate_all-Refines os (operate o m) (note o s) (operate-Refines o m s h)

  pub starts-Refines : Refines no_interceptors nothing
  unfolding sort find
  starts-Refines = (refl, (tt, λ i le. refl), refl, λ i. refl)

  -- An entry of a higher priority, or of the same and older.
  abbrev pub RunsBefore : Entry A → Entry A → Type 0
  RunsBefore x y = (y.priority < x.priority) ⊎ ((x.priority ≡ y.priority) × (x.id < y.id))

  -- Each runs before all behind it.
  abbrev pub IsInOrder : List (Entry A) → Type 0
  IsInOrder [] = Unit
  IsInOrder (x ∷ xs) = All (RunsBefore x) xs × IsInOrder xs

  precedes-RunsBefore : (x y : Entry A) → precedes x y ≡ true → RunsBefore x y
  precedes-RunsBefore x y h = ground (arith, h)

  Ordered-IsInOrder : (xs : List (Entry A)) → Ordered xs → IsInOrder xs
  Ordered-IsInOrder [] o = tt
  Ordered-IsInOrder (x ∷ xs) (first, o) =
      (All-mono _ (RunsBefore x) (λ y. precedes-RunsBefore x y) xs first, Ordered-IsInOrder xs o)

  -- After any operations a manager runs exactly the interceptors that are registered, each once, those
  -- of a higher priority first, and of equal ones the older first.
  pub operate_all-Registrations :
      (os : List (Operation A))
      → let ordered = (operate_all os no_interceptors).ordered_interceptors in
        IsInOrder ordered × ((i : ℕ) → find i ordered ≡ (note_all os nothing).at i)
  operate_all-Registrations os =
      let m = operate_all os no_interceptors in
      let (same, kept, order, at) = operate_all-Refines os no_interceptors nothing starts-Refines in
      (
        subst IsInOrder (sym order)
            (Ordered-IsInOrder (sort m.interceptors) (sort-Ordered m.interceptors kept.0)),
        λ i. ap (find i) order ∙ find-sort i m.interceptors kept.0 ∙ at i,
      )
