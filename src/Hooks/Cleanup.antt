-- ===== src/Hooks/Cleanup.antt =====
-- What the cleanup of a plugin's scope, src/plugins/PluginScope.ts, leaves of its interceptors.
use request.Base.{
  ℕ, ◌+◌, ◌≤◌, ◌<◌, ap, true, false, List, [], ◌∷◌, none, some, ◌≡◌, refl, sym, subst, ◌∙◌, arith,
  if◌then◌else◌, ◌==◌, Bool-cases, inl, inr,
}
use request.Hooks.Entries.{Priority, find, sort}
use request.Hooks.Registry.{
  InterceptorManager, no_interceptors, entry, eject, Operation, using, ejecting, clearing, operate,
}
use request.Hooks.Scope.{
  ScopedInterceptor, contains, without, or_priority, scoped_use, scoped_eject, eject_all, clean_up,
  ScopedOperation, own_use, own_eject, foreign, scoped_operate_all,
}
use request.Hooks.Order.{Ordered, find-sort, sort-Ordered}
use request.Hooks.Registered.{Registrations, nothing, note, IsKept, Refines, operate-Refines}

contains-without :
    (i j : ℕ) (js : List ℕ) → contains i (without j js) ≡ (if j == i then false else contains i js)
contains-without i j [] = ground arith
contains-without i j (x ∷ js) = ground (arith, contains-without i j js)

module _ {ℓ} {A : Type ℓ} where
  -- The registrations of the others; a registration of the plugin takes an id alone.
  abbrev pub note_foreign : ScopedOperation A → Registrations A → Registrations A
  note_foreign (own_use a p) s = record s { next = s.next + 1 }
  note_foreign (own_eject i) s = note (ejecting i) s
  note_foreign (foreign o) s = note o s

  unfoldable pub note_foreign_all : List (ScopedOperation A) → Registrations A → Registrations A
  note_foreign_all [] s = s
  note_foreign_all (o ∷ os) s = note_foreign_all os (note_foreign o s)

  -- The registrations that a manager holds.
  abbrev held : InterceptorManager A → Registrations A
  held m = record { next = m.next_id; at = λ i. find i m.interceptors }

  abbrev IsGood : InterceptorManager A → Type ℓ
  IsGood m = IsKept m.next_id m.interceptors × (m.ordered_interceptors ≡ sort m.interceptors)

  operate-held :
      (o : Operation A) (m : InterceptorManager A)
      → IsGood m
      → Refines (operate o m) (note o (held m))
  operate-held o m (kept, order) = operate-Refines o m (held m) (refl, kept, order, λ i. refl)

  -- All but what the plugin registered is the others'.
  abbrev Shared : ScopedInterceptor A → Registrations A → Type ℓ
  Shared s others =
      IsGood s.manager
      × (s.manager.next_id ≡ others.next)
      × ((i : ℕ) → contains i s.ids ≡ false → find i s.manager.interceptors ≡ others.at i)
      × ((i : ℕ) → contains i s.ids ≡ true → others.at i ≡ none)
      × ((i : ℕ) → s.manager.next_id ≤ i → contains i s.ids ≡ false)

  note-next :
      (o : Operation A) (s t : Registrations A)
      → s.next ≡ t.next
      → ((note o s).next ≡ (note o t).next) × (s.next ≤ (note o s).next)
  note-next (using a p) s t h = (ground (arith, h), ground arith)
  note-next (ejecting j) s t h = (h, omega arith)
  note-next clearing s t h = (h, omega arith)

  note-at :
      (o : Operation A) (i : ℕ) (s t : Registrations A)
      → s.next ≡ t.next
      → s.at i ≡ t.at i
      → (note o s).at i ≡ (note o t).at i
  note-at (using a p) i s t h e =
      subst (λ n. (note (using a p) s).at i ≡ (if n == i then some (entry n a p) else t.at i)) h
        (ground (arith, e))
  note-at (ejecting j) i s t h e = ground (arith, e)
  note-at clearing i s t h e = refl

  note-old :
      (o : Operation A) (i : ℕ) (s : Registrations A)
      → i < s.next
      → s.at i ≡ none
      → (note o s).at i ≡ none
  note-old (using a p) i s h e = ground (arith, e)
  note-old (ejecting j) i s h e = ground (arith, e)
  note-old clearing i s h e = refl

  foreign-Shared :
      (o : Operation A) (s : ScopedInterceptor A) (others : Registrations A)
      → Shared s others
      → Shared (record s { manager = operate o s.manager }) (note o others)
  foreign-Shared o s others (good, next, outside, inside, fresh) =
      let (same, kept, order, at) = operate-held o s.manager good in
      let (then_next, later) = note-next o (held s.manager) others next in
      (
        (kept, order),
        same ∙ then_next,
        λ i out. at i ∙ note-at o i (held s.manager) others next (outside i out),
        λ i own. note-old o i others (ground (arith, own, fresh i, next)) (inside i own),
        λ i le. fresh i (omega (arith, same)),
      )

  own_use-Shared :
      (plugin : Priority) (a : A) (p : Priority) (s : ScopedInterceptor A)
      (others : Registrations A)
      → Shared s others
      → Shared (scoped_use plugin a p s) (note_foreign (own_use a p) others)
  unfolding scoped_use
  own_use-Shared plugin a p s others (good, next, outside, inside, fresh) =
      let (same, kept, order, at) = operate-held (using a (or_priority p plugin)) s.manager good in
      let new = s.manager.next_id in
      (
        (kept, order),
        ground (arith, same, next),
        λ i out. ground (arith, at i, out, outside i),
        λ i own. elim (Bool-cases (new == i)) [
          | inl e ↦
              let le : new ≤ i = ground (arith, e) in sym (outside i (fresh i le)) ∙ good.0.1 i le
          | inr e ↦ ground (arith, e, own, inside i)
        ],
        λ i le. ground (arith, same, le, fresh i),
      )

  own_eject-Shared :
      (j : ℕ) (s : ScopedInterceptor A) (others : Registrations A)
      → Shared s others
      → Shared (scoped_eject j s) (note_foreign (own_eject j) others)
  unfolding scoped_eject
  own_eject-Shared j s others (good, next, outside, inside, fresh) =
      let (same, kept, order, at) = operate-held (ejecting j) s.manager good in
      (
        (kept, order),
        ground (arith, same, next),
        λ i out. ground (arith, at i, out, outside i, contains-without i j s.ids),
        λ i own. ground (arith, own, inside i, contains-without i j s.ids),
        λ i le. ground (arith, same, le, fresh i, contains-without i j s.ids),
      )

  scoped_operate_all-Shared :
      (plugin : Priority) (os : List (ScopedOperation A)) (s : ScopedInterceptor A)
      (others : Registrations A)
      → Shared s others
      → Shared (scoped_operate_all plugin os s) (note_foreign_all os others)
  unfolding scoped_operate_all note_foreign_all
  scoped_operate_all-Shared plugin [] s others h = h
  scoped_operate_all-Shared plugin (own_use a p ∷ os) s others h =
      scoped_operate_all-Shared plugin os (scoped_use plugin a p s)
        (note_foreign (own_use a p) others) (own_use-Shared plugin a p s others h)
  scoped_operate_all-Shared plugin (own_eject j ∷ os) s others h =
      scoped_operate_all-Shared plugin os (scoped_eject j s) (note_foreign (own_eject j) others)
        (own_eject-Shared j s others h)
  scoped_operate_all-Shared plugin (foreign o ∷ os) s others h =
      scoped_operate_all-Shared plugin os (record s { manager = operate o s.manager })
        (note o others) (foreign-Shared o s others h)

  eject_all-held :
      (js : List ℕ) (m : InterceptorManager A)
      → IsGood m
      → IsGood (eject_all js m)
        × ((i : ℕ)
            → find i (eject_all js m).interceptors
              ≡ (if contains i js then none else find i m.interceptors))
  unfolding eject_all
  eject_all-held [] m h = (h, λ i. refl)
  eject_all-held (j ∷ js) m h =
      let (same, kept, order, at) = operate-held (ejecting j) m h in
      let (good, rest) = eject_all-held js (eject j m) (kept, order) in
      (good, λ i. ground (arith, rest i, at i))

  abbrev pub starts : ScopedInterceptor A
  starts = record { manager = no_interceptors; ids = [] }

  starts-Shared : Shared starts nothing
  unfolding sort find
  starts-Shared = (((tt, λ i le. refl), refl), refl, λ i h. refl, λ i h. refl, λ i h. refl)

  -- Whatever a plugin and others do with a manager, behind the cleanup of the plugin's scope the manager
  -- runs what it would run if the plugin had registered nothing.
  pub clean_up-foreign :
      (plugin : Priority) (os : List (ScopedOperation A))
      → let ordered =
          (clean_up (scoped_operate_all plugin os starts)).manager.ordered_interceptors in
        Ordered ordered × ((i : ℕ) → find i ordered ≡ (note_foreign_all os nothing).at i)
  unfolding clean_up
  clean_up-foreign plugin os =
      let s = scoped_operate_all plugin os starts in
      let (good, next, outside, inside, fresh) =
        scoped_operate_all-Shared plugin os starts nothing starts-Shared in
      let ((kept, order), at) = eject_all-held s.ids s.manager good in
      let m = eject_all s.ids s.manager in
      (
        subst Ordered (sym order) (sort-Ordered m.interceptors kept.0),
        λ i.
            ap (find i) order
            ∙ find-sort i m.interceptors kept.0
            ∙ at i
            ∙ ground (arith, outside i, inside i),
      )
