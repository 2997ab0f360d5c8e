-- ===== src/Hooks/Order.antt =====
-- The order that `sort` of src/interceptors/ leaves, and that it keeps the entries.
use request.Base.{
  ℕ, true, false, List, [], ◌∷◌, ◌++◌, none, some, ◌≡◌, refl, sym, subst, ◌∙◌, arith, if◌then◌else◌,
  ◌==◌, All, All-mono, Bool-cases, inl, inr, if_elim, ◌≢◌,
}
use request.Hooks.Entries.{Entry, precedes, insert, sort, find, delete}

module _ {ℓ} {A : Type ℓ} where
  -- Each entry precedes all behind it.
  abbrev pub Ordered : List (Entry A) → Type 0
  Ordered [] = Unit
  Ordered (x ∷ xs) = All (λ y. precedes x y ≡ true) xs × Ordered xs

  -- No two entries have the same id.
  abbrev pub Distinct : List (Entry A) → Type ℓ
  Distinct [] = Unit
  Distinct (x ∷ xs) = (find x.id xs ≡ none) × Distinct xs

  find-insert :
      (i : ℕ) (x : Entry A) (xs : List (Entry A))
      → find x.id xs ≡ none
      → find i (insert x xs) ≡ (if x.id == i then some x else find i xs)
  unfolding find insert
  find-insert i x [] h = refl
  find-insert i x (y ∷ ys) h = ground (arith, h, find-insert i x ys)

  pub find-sort : (i : ℕ) (xs : List (Entry A)) → Distinct xs → find i (sort xs) ≡ find i xs
  unfolding sort find
  find-sort i [] d = refl
  find-sort i (x ∷ xs) d =
      ground (arith, find-insert i x (sort xs) (find-sort x.id xs d.1 ∙ d.0), find-sort i xs d.1)

  All-insert :
      (P : Entry A → Type 0) (x : Entry A) (xs : List (Entry A))
      → P x
      → All P xs
      → All P (insert x xs)
  unfolding insert
  All-insert P x [] h a = (h, a)
  All-insert P x (y ∷ ys) h a =
      if_elim (All P) (precedes x y) _ _ (h, a) (a.0, All-insert P x ys h a.1)

  precedes_trans :
      (x y z : Entry A) → precedes x y ≡ true → precedes y z ≡ true → precedes x z ≡ true
  precedes_trans x y z h k = ground arith

  precedes-total : (x y : Entry A) → x.id ≢ y.id → precedes x y ≡ false → precedes y x ≡ true
  precedes-total x y h k = ground arith

  insert-Ordered :
      (x : Entry A) (xs : List (Entry A)) → find x.id xs ≡ none → Ordered xs → Ordered (insert x xs)
  unfolding insert find
  insert-Ordered x [] h o = (tt, o)
  insert-Ordered x (y ∷ ys) h o = elim (Bool-cases (precedes x y)) [
    | inl before ↦
        let all =
          All-mono (λ z. precedes y z ≡ true) (λ z. precedes x z ≡ true)
            (λ z. precedes_trans x y z before) ys o.0 in
        subst (λ b. Ordered (if b then x ∷ y ∷ ys else y ∷ insert x ys)) (sym before)
          ((before, all), o)
    | inr behind ↦
        let other : x.id ≢ y.id = λ e. ground (arith, h, e) in
        subst (λ b. Ordered (if b then x ∷ y ∷ ys else y ∷ insert x ys)) (sym behind)
          (
            All-insert (λ z. precedes y z ≡ true) x ys (precedes-total x y other behind) o.0,
            insert-Ordered x ys (ground (arith, h)) o.1,
          )
  ]

  pub sort-Ordered : (xs : List (Entry A)) → Distinct xs → Ordered (sort xs)
  unfolding sort
  sort-Ordered [] d = tt
  sort-Ordered (x ∷ xs) d =
      insert-Ordered x (sort xs) (find-sort x.id xs d.1 ∙ d.0) (sort-Ordered xs d.1)

  pub find-delete :
      (i j : ℕ) (xs : List (Entry A)) → find i (delete j xs) ≡ (if j == i then none else find i xs)
  unfolding find delete
  find-delete i j [] = ground arith
  find-delete i j (x ∷ xs) = ground (arith, find-delete i j xs)

  pub delete-Distinct : (j : ℕ) (xs : List (Entry A)) → Distinct xs → Distinct (delete j xs)
  unfolding delete
  delete-Distinct j [] d = tt
  delete-Distinct j (x ∷ xs) d =
      if_elim Distinct (x.id == j) _ _ (delete-Distinct j xs d.1)
        (ground (arith, find-delete x.id j xs, d.0), delete-Distinct j xs d.1)

  pub find-append :
      (i : ℕ) (xs : List (Entry A)) (y : Entry A)
      → find y.id xs ≡ none
      → find i (xs ++ (y ∷ [])) ≡ (if y.id == i then some y else find i xs)
  unfolding find
  find-append i [] y h = refl
  find-append i (x ∷ xs) y h = ground (arith, h, find-append i xs y)

  pub append-Distinct :
      (xs : List (Entry A)) (y : Entry A)
      → Distinct xs
      → find y.id xs ≡ none
      → Distinct (xs ++ (y ∷ []))
  unfolding find
  append-Distinct [] y d h = (refl, tt)
  append-Distinct (x ∷ xs) y d h =
      let absent : find y.id xs ≡ none = ground (arith, h) in
      (ground (arith, h, d.0, find-append x.id xs y absent), append-Distinct xs y d.1 absent)
