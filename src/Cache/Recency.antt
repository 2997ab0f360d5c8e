-- ===== src/Cache/Recency.antt =====
-- MemoryCacheStore of src/plugins/cacheStores.ts keeps its capacity and the order of use; its note of
-- the newest key only saves work.
use request.Base.{
  ℕ, ◌≤◌, ◌<◌, ◌≡◌, ◌≢◌, refl, ap, subst, sym, inl, inr, true, false, List, [], ◌∷◌, String, Option,
  none, some, length, arith, eq_iff, Bool-cases, Option-cases,
}
use request.Base.Dict.{
  Dict, get, set, delete, IsMap, delete-IsMap, set-IsMap, get-delete_self, get-set, length-delete,
  length-set-le, length-delete-le,
}
use request.Cache.Memory.{
  CacheEntry, Capacity, at_most, endless, MemoryCacheStore, is_newest, is_zero, forget, empty,
  lookup, make_room, store, remove, without_tags, invalidate_tags, Call, lookups, removes, stores,
  invalidates, clears, step,
}

abbrev later : Option String → String → Option String
later none k = some k
later (some j) k = some j

-- The key that was used last.
abbrev pub last_key {ℓ} : {V : Type ℓ} → Dict V → Option String
last_key [] = none
last_key ((k, v) ∷ m) = later (last_key m) k

module _ {ℓ} {V : Type ℓ} where
  last_key-get : (k : String) (m : Dict V) → last_key m ≡ some k → get k m ≢ none
  unfolding get
  last_key-get k [] h = λ p. ground arith
  last_key-get k ((j, w) ∷ m) h =
      λ (p : get k ((j, w) ∷ m) ≡ none). ground (arith, eq_iff j k, last_key-get k m)

  last_key-set : (k : String) (v : V) (m : Dict V) → get k m ≡ none → last_key (set k v m) ≡ some k
  unfolding get set
  last_key-set k v [] h = refl
  last_key-set k v ((j, w) ∷ m) h = ground (arith, last_key-set k v m)

  last_key-some : (k : String) (v : V) (m : Dict V) → last_key ((k, v) ∷ m) ≢ none
  last_key-some k v m = λ (p : last_key ((k, v) ∷ m) ≡ none). ground arith

  last_key-delete :
      (j k : String) (m : Dict V) → last_key m ≡ some k → j ≢ k → last_key (delete j m) ≡ some k
  unfolding delete
  last_key-delete j k [] h n = ground arith
  last_key-delete j k ((i, w) ∷ []) h n = ground (arith, eq_iff i j)
  last_key-delete j k ((i, w) ∷ (x, u) ∷ m) h n =
      ground (arith, eq_iff i j, last_key-some x u m, last_key-delete j k ((x, u) ∷ m))

  -- Moving the last entry to the end changes nothing.
  move_last :
      (k : String) (v : V) (m : Dict V)
      → IsMap m
      → last_key m ≡ some k
      → get k m ≡ some v
      → set k v (delete k m) ≡ m
  unfolding get set delete
  move_last k v [] d h g = ground arith
  move_last k v ((j, w) ∷ []) d h g = ground (arith, eq_iff j k)
  move_last k v ((j, w) ∷ (i, u) ∷ m) d h g =
      ground (arith, eq_iff j k, d.0, last_key-get k ((i, u) ∷ m), move_last k v ((i, u) ∷ m) d.1)

is_newest_lem :
    (newest : Option String) (key : String) → is_newest newest key ≡ true → newest ≡ some key
is_newest_lem none key h = ground arith
is_newest_lem (some k) key h = ground (arith, eq_iff k key)

forget_kept :
    (key k : String) (newest : Option String)
    → forget key newest ≡ some k
    → (newest ≡ some k) × (key ≢ k)
forget_kept key k none h = ground arith
forget_kept key k (some j) h =
    (ground (arith, eq_iff j key), λ (p : key ≡ k). ground (arith, eq_iff j key))

module _ {ℓ} {D : Type ℓ} where
  -- As many entries as the capacity, if it has an end.
  abbrev pub Fits : Capacity → Dict (CacheEntry D) → Type 0
  Fits (at_most n) m = length m ≤ n
  Fits endless m = Unit

  pub record IsTidy (c : Capacity) (s : MemoryCacheStore D) : Type ℓ where
    pub keyed : IsMap s.entries
    pub fits : Fits c s.entries
    pub newest : (k : String) → s.newest_key ≡ some k → last_key s.entries ≡ some k

  -- In a store whose note of the newest key is right, `get` of a key that it holds gives the entry, takes
  -- it out of the order of use and puts it at the end, although it leaves the newest one where it is.
  pub lookup_lem :
      (c : Capacity) (key : String) (e : CacheEntry D) (s : MemoryCacheStore D)
      → IsTidy c s
      → get key s.entries ≡ some e
      → (lookup key s
          ≡ (some e, record { entries = set key e (delete key s.entries); newest_key = some key }))
  unfolding lookup
  lookup_lem c key e s t g = elim (Bool-cases (is_newest s.newest_key key)) [
    | inr other ↦ rw (g, lookup, other) refl
    | inl same ↦
        let known : s.newest_key ≡ some key = is_newest_lem s.newest_key key same in
        let kept = move_last key e s.entries t.keyed (t.newest key known) g in
        rw (g, lookup, same, kept)
          (ap (λ k. (some e, record { entries = s.entries; newest_key = k })) known)
  ]

  make_room-IsMap : (c : Capacity) (m : Dict (CacheEntry D)) → IsMap m → IsMap (make_room c m)
  unfolding make_room
  make_room-IsMap c [] d = tt
  make_room-IsMap c ((k, e) ∷ m) d = ground (arith, make_room-IsMap c m d.1)

  pub get-make_room :
      (c : Capacity) (k : String) (m : Dict (CacheEntry D))
      → get k m ≡ none
      → get k (make_room c m) ≡ none
  unfolding make_room get
  get-make_room c k [] d = refl
  get-make_room c k ((j, e) ∷ m) d = ground (arith, get-make_room c k m)

  make_room_fits : (n : ℕ) (m : Dict (CacheEntry D)) → 1 ≤ n → length (make_room (at_most n) m) < n
  unfolding make_room
  make_room_fits n [] h = omega arith
  make_room_fits n (x ∷ m) h = ground (arith, make_room_fits n m h)

  Fits-le : (c : Capacity) (m k : Dict (CacheEntry D)) → length k ≤ length m → Fits c m → Fits c k
  Fits-le (at_most n) m k h f = omega arith
  Fits-le endless m k h f = tt

  stored_Fits :
      (c : Capacity) (key : String) (e : CacheEntry D) (m : Dict (CacheEntry D))
      → is_zero c ≡ false
      → Fits c (set key e (make_room c m))
  stored_Fits (at_most n) key e m z =
      ground (arith, make_room_fits n m, length-set-le key e (make_room (at_most n) m))
  stored_Fits endless key e m z = tt

  store-IsTidy :
      (c : Capacity) (key : String) (e : CacheEntry D) (s : MemoryCacheStore D)
      → IsTidy c s
      → IsTidy c (store c key e s)
  unfolding store
  store-IsTidy c key e s t = elim (Bool-cases (is_zero c)) [
    | inl nothing ↦ rw (nothing, store) t
    | inr some_room ↦
        let kept = make_room c (delete key s.entries) in
        let keyed = make_room-IsMap c (delete key s.entries) (delete-IsMap key s.entries t.keyed) in
        let new =
          get-make_room c key (delete key s.entries) (get-delete_self key s.entries t.keyed) in
        rw (some_room, store)
          record {
            keyed = set-IsMap key e kept keyed;
            fits = stored_Fits c key e (delete key s.entries) some_room;
            newest = λ k h. ground (arith, last_key-set key e kept new);
          }
  ]

  remove-IsTidy :
      (c : Capacity) (key : String) (s : MemoryCacheStore D) → IsTidy c s → IsTidy c (remove key s)
  unfolding remove
  remove-IsTidy c key s t = record {
    keyed = delete-IsMap key s.entries t.keyed;
    fits = Fits-le c s.entries (delete key s.entries) (length-delete-le key s.entries) t.fits;
    newest = λ k h.
        let (known, other) = forget_kept key k s.newest_key h in
        last_key-delete key k s.entries (t.newest k known) other;
  }

  lookup-IsTidy :
      (c : Capacity) (key : String) (s : MemoryCacheStore D)
      → IsTidy c s
      → IsTidy c (lookup key s).1
  unfolding lookup
  lookup-IsTidy c key s t = elim (Option-cases (get key s.entries)) [
    | inl missing ↦ rw (missing, lookup) t
    | inr (e, g) ↦
        let rest = delete key s.entries in
        subst (λ (d : Option (CacheEntry D) × MemoryCacheStore D). IsTidy c d.1)
          (sym (lookup_lem c key e s t g))
          (record {
            keyed = set-IsMap key e rest (delete-IsMap key s.entries t.keyed);
            fits =
                Fits-le c s.entries (set key e rest)
                  (omega (arith, length-set-le key e rest, length-delete key s.entries g)) t.fits;
            newest = λ k h.
                ground (arith, last_key-set key e rest (get-delete_self key s.entries t.keyed));
          })
  ]

  without_tags-get :
      (tags : List String) (m : Dict (CacheEntry D)) (newest : Option String) (k : String)
      → get k m ≡ none
      → get k (without_tags tags m newest).0 ≡ none
  unfolding without_tags get
  without_tags-get tags [] newest k h = refl
  without_tags-get tags ((j, e) ∷ m) newest k h =
      ground (arith, without_tags-get tags m newest k, without_tags-get tags m (forget j newest) k)

  without_tags-IsMap :
      (tags : List String) (m : Dict (CacheEntry D)) (newest : Option String)
      → IsMap m
      → IsMap (without_tags tags m newest).0 × (length (without_tags tags m newest).0 ≤ length m)
  unfolding without_tags
  without_tags-IsMap tags [] newest d = (tt, omega arith)
  without_tags-IsMap tags ((j, e) ∷ m) newest d = ground (
    arith,
    without_tags-IsMap tags m newest d.1,
    without_tags-IsMap tags m (forget j newest) d.1,
    without_tags-get tags m newest j,
  )

  -- The note of the newest key goes with its entry.
  without_tags-newest :
      (tags : List String) (m : Dict (CacheEntry D)) (newest : Option String) (k : String)
      → (without_tags tags m newest).1 ≡ some k
      → (newest ≡ some k) × (last_key m ≡ some k → last_key (without_tags tags m newest).0 ≡ some k)
  unfolding without_tags
  without_tags-newest tags [] newest k h = (h, λ l. l)
  without_tags-newest tags ((j, e) ∷ []) newest k h = ground (arith, forget_kept j k newest)
  without_tags-newest tags ((j, e) ∷ (i, u) ∷ m) newest k h = ground (
    arith,
    last_key-some i u m,
    forget_kept j k newest,
    without_tags-newest tags ((i, u) ∷ m) newest k,
    without_tags-newest tags ((i, u) ∷ m) (forget j newest) k,
  )

  invalidate_tags-IsTidy :
      (c : Capacity) (tags : List String) (s : MemoryCacheStore D)
      → IsTidy c s
      → IsTidy c (invalidate_tags tags s).1
  unfolding invalidate_tags
  invalidate_tags-IsTidy c tags s t =
      let (keyed, shorter) = without_tags-IsMap tags s.entries s.newest_key t.keyed in
      record {
        keyed = keyed;
        fits = Fits-le c s.entries (without_tags tags s.entries s.newest_key).0 shorter t.fits;
        newest = λ k h.
            let (known, kept) = without_tags-newest tags s.entries s.newest_key k h in
            kept (t.newest k known);
      }

  pub empty-IsTidy : (c : Capacity) → IsTidy c (empty {D = D})
  empty-IsTidy (at_most n) = record { keyed = tt; fits = omega arith; newest = λ k h. ground arith }
  empty-IsTidy endless = record { keyed = tt; fits = tt; newest = λ k h. ground arith }

  pub step-IsTidy :
      (c : Capacity) (s : MemoryCacheStore D) (x : Call D) → IsTidy c s → IsTidy c (step c s x)
  unfolding step
  step-IsTidy c s (lookups key) t = lookup-IsTidy c key s t
  step-IsTidy c s (removes key) t = remove-IsTidy c key s t
  step-IsTidy c s (stores key e) t = store-IsTidy c key e s t
  step-IsTidy c s (invalidates tags) t = invalidate_tags-IsTidy c tags s t
  step-IsTidy c s clears t = empty-IsTidy c

  -- An entry that is stored, in a store of a capacity other than zero, is found.
  lookup-store :
      (c : Capacity) (key : String) (e : CacheEntry D) (s : MemoryCacheStore D)
      → is_zero c ≡ false
      → (lookup key (store c key e s)).0 ≡ some e
  unfolding lookup store
  lookup-store c key e s room =
      let found = get-set key key e (make_room c (delete key s.entries)) in
      ground (arith, found, eq_iff key key)
