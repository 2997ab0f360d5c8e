-- ===== src/Cache/Usage.antt =====
-- The store of src/plugins/cacheStores.ts holds its entries in the order of use.
use request.Base.{
  ℕ, zero, suc, ◌-◌, ◌≡◌, refl, sym, ap, ◌∙◌, inl, inr, List, [], ◌∷◌, ◌++◌, String, Option, none,
  some, length, arith, leb, leb→le, Option-cases, if◌then◌else◌, if_cases,
}
use request.Base.Dict.{Dict, get, set, delete, get-delete_self}
use request.Cache.Memory.{
  CacheEntry, Capacity, at_most, endless, MemoryCacheStore, is_zero, is_tagged, forget, empty,
  lookup, make_room, store, remove, without_tags, invalidate_tags, Call, lookups, removes, stores,
  invalidates, clears, step, run,
}
use request.Cache.Recency.{IsTidy, lookup_lem, get-make_room, empty-IsTidy, step-IsTidy}

abbrev pub Entries {ℓ} : Type ℓ → Type ℓ
Entries D = Dict (CacheEntry D)

module _ {ℓ} {D : Type ℓ} where
  -- The entries, the one used last at the end, without any note of it.
  abbrev touched : String → Option (CacheEntry D) → Entries D → Entries D
  touched key none m = m
  touched key (some e) m = delete key m ++ (key, e) ∷ []

  abbrev without_first : ℕ → Entries D → Entries D
  without_first zero m = m
  without_first (suc n) [] = []
  without_first (suc n) (x ∷ m) = without_first n m

  -- The last entries, fewer than the capacity.
  abbrev roomy : Capacity → Entries D → Entries D
  roomy (at_most n) m = without_first (suc (length m) - n) m
  roomy endless m = m

  unfoldable pub untagged : List String → Entries D → Entries D
  untagged tags [] = []
  untagged tags ((k, e) ∷ m) =
      let rest = untagged tags m in if is_tagged tags e then rest else (k, e) ∷ rest

  abbrev use_step : Capacity → Entries D → Call D → Entries D
  use_step c m (lookups key) = touched key (get key m) m
  use_step c m (removes key) = delete key m
  use_step c m (stores key e) = if is_zero c then m else roomy c (delete key m) ++ (key, e) ∷ []
  use_step c m (invalidates tags) = untagged tags m
  use_step c m clears = []

  unfoldable pub used : Capacity → Entries D → List (Call D) → Entries D
  used c m [] = m
  used c m (x ∷ xs) = used c (use_step c m x) xs

  set_absent :
      (key : String) (e : CacheEntry D) (m : Entries D)
      → get key m ≡ none
      → set key e m ≡ m ++ (key, e) ∷ []
  unfolding get set
  set_absent key e [] h = refl
  set_absent key e ((k, x) ∷ m) h = ground (arith, h, set_absent key e m)

  nothing_left : (n : ℕ) → [] ≡ without_first n []
  nothing_left zero = refl
  nothing_left (suc n) = refl

  make_room-eq-roomy : (c : Capacity) (m : Entries D) → make_room c m ≡ roomy c m
  unfolding make_room
  make_room-eq-roomy endless [] = refl
  make_room-eq-roomy endless (x ∷ m) = refl
  make_room-eq-roomy (at_most n) [] = nothing_left (1 - n)
  make_room-eq-roomy (at_most n) (x ∷ m) =
      if_cases (λ k. k ≡ without_first (suc (suc (length m)) - n) (x ∷ m)) (leb n (suc (length m)))
        _ _
        (λ full.
          let one_more : suc (suc (length m) - n) ≡ suc (suc (length m)) - n =
            omega (arith, leb→le n (suc (length m)) full) in
          make_room-eq-roomy (at_most n) m ∙ ap (λ k. without_first k (x ∷ m)) one_more)
        (λ room.
          let none_more : 0 ≡ suc (suc (length m)) - n = ground (arith, room) in
          ap (λ k. without_first k (x ∷ m)) none_more)

  without_tags-untagged :
      (tags : List String) (m : Entries D) (newest : Option String)
      → (without_tags tags m newest).0 ≡ untagged tags m
  unfolding without_tags untagged
  without_tags-untagged tags [] newest = refl
  without_tags-untagged tags ((k, e) ∷ m) newest =
      ground
        (arith, without_tags-untagged tags m newest, without_tags-untagged tags m (forget k newest))

  lookup_missing :
      (key : String) (s : MemoryCacheStore D) → get key s.entries ≡ none → lookup key s ≡ (none, s)
  unfolding lookup
  lookup_missing key s missing = ground (arith, missing)

  step-use_step :
      (c : Capacity) (s : MemoryCacheStore D) (x : Call D)
      → IsTidy c s
      → (step c s x).entries ≡ use_step c s.entries x
  unfolding step lookup store remove invalidate_tags
  step-use_step c s (lookups key) t = elim (Option-cases (get key s.entries)) [
    | inl missing ↦
        ap (λ (r : Option (CacheEntry D) × MemoryCacheStore D). r.1.entries)
          (lookup_missing key s missing)
        ∙ ap (λ o. touched key o s.entries) (sym missing)
    | inr (e, there) ↦
        ap (λ (r : Option (CacheEntry D) × MemoryCacheStore D). r.1.entries)
          (lookup_lem c key e s t there)
        ∙ set_absent key e (delete key s.entries) (get-delete_self key s.entries t.keyed)
        ∙ ap (λ o. touched key o s.entries) (sym there)
  ]
  step-use_step c s (removes key) t = refl
  step-use_step c s (stores key e) t =
      if_cases (λ (r : MemoryCacheStore D). r.entries ≡ use_step c s.entries (stores key e))
        (is_zero c) _ _ (λ nothing. rw nothing refl)
        (λ some_room. rw some_room (
          set_absent key e (make_room c (delete key s.entries))
            (get-make_room c key (delete key s.entries) (get-delete_self key s.entries t.keyed))
          ∙ ap (λ m. m ++ (key, e) ∷ []) (make_room-eq-roomy c (delete key s.entries))))
  step-use_step c s (invalidates tags) t = without_tags-untagged tags s.entries s.newest_key
  step-use_step c s clears t = refl

  run_from-used :
      (c : Capacity) (s : MemoryCacheStore D) (xs : List (Call D))
      → IsTidy c s
      → (run c s xs).entries ≡ used c s.entries xs
  unfolding run used
  run_from-used c s [] t = refl
  run_from-used c s (x ∷ xs) t =
      run_from-used c (step c s x) xs (step-IsTidy c s x t)
      ∙ ap (λ m. used c m xs) (step-use_step c s x t)

  -- After any calls on an empty store it holds what the same calls leave of a plain list of entries, in
  -- which each lookup that finds an entry puts it at the end; so does a store, which first takes entries
  -- from the front until there are fewer than the capacity, and does nothing if that is zero; and the calls
  -- that remove entries take those of the key, of the tags, or all.
  pub run_store-eq-used :
      (c : Capacity) (xs : List (Call D)) → (run c empty xs).entries ≡ used c [] xs
  run_store-eq-used c xs = run_from-used c empty xs (empty-IsTidy c)
