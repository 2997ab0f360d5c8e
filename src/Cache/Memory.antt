-- ===== src/Cache/Memory.antt =====
-- MemoryCacheStore of src/plugins/cacheStores.ts: a map in the order of use, oldest first.
use request.Base.{
  ℕ, suc, Bool, false, ◌||◌, List, [], ◌∷◌, String, Option, none, some, length, leb, ◌==◌, str_eq,
  Number, positive_infinity, finite, if◌then◌else◌,
}
use request.Base.Dict.{Dict, get, set, delete}

-- `value` stands for `data`, the parsed body, and for the raw response.
pub record CacheEntry {ℓ} (D : Type ℓ) : Type ℓ where
  pub value : D
  pub expires_at : ℕ
  pub status : ℕ
  pub status_text : String
  pub headers : List (String × String)
  pub tags : Option (List String)

-- `maxEntries`: a number of entries, or `Infinity`.
pub data Capacity : Type 0 where
  at_most : ℕ → Capacity
  endless : Capacity

pub record MemoryCacheStore {ℓ} (D : Type ℓ) : Type ℓ where
  pub entries : Dict (CacheEntry D)
  pub newest_key : Option String

unfoldable pub normalize_max_entries : Option Number → Capacity
normalize_max_entries none = at_most 1000
normalize_max_entries (some positive_infinity) = endless
normalize_max_entries (some (finite whole fraction)) = at_most whole
normalize_max_entries (some _) = at_most 0

abbrev pub is_newest : Option String → String → Bool
is_newest none key = false
is_newest (some k) key = str_eq k key

abbrev pub is_zero : Capacity → Bool
is_zero (at_most n) = n == 0
is_zero endless = false

-- `entries.size >= maxEntries`
abbrev pub is_full : ℕ → Capacity → Bool
is_full size (at_most n) = leb n size
is_full size endless = false

unfoldable pub has_tag : List String → String → Bool
has_tag [] t = false
has_tag (x ∷ xs) t = str_eq x t || has_tag xs t

unfoldable pub has_some_tag : List String → List String → Bool
has_some_tag expected [] = false
has_some_tag expected (t ∷ ts) = has_tag expected t || has_some_tag expected ts

abbrev pub is_tagged {ℓ} : {D : Type ℓ} → List String → CacheEntry D → Bool
is_tagged expected e = elim e.tags [ none ↦ false | some ts ↦ has_some_tag expected ts ]

abbrev pub forget : String → Option String → Option String
forget key newest = if is_newest newest key then none else newest

pub data Call {ℓ} (D : Type ℓ) : Type ℓ where
  lookups removes : String → Call D
  stores : String → CacheEntry D → Call D
  invalidates : List String → Call D
  clears : Call D

module _ {ℓ} {D : Type ℓ} where
  abbrev pub empty : MemoryCacheStore D
  empty = record { entries = []; newest_key = none }

  unfoldable pub lookup : String → MemoryCacheStore D → Option (CacheEntry D) × MemoryCacheStore D
  lookup key s = elim (get key s.entries) [
    | none ↦ (none, s)
    | some e ↦ (
      some e,
      if is_newest s.newest_key key
          then s
          else record { entries = set key e (delete key s.entries); newest_key = some key },
    )
  ]

  -- The `while` of `set`: the oldest entries go until there is room.
  unfoldable pub make_room : Capacity → Dict (CacheEntry D) → Dict (CacheEntry D)
  make_room c [] = []
  make_room c (x ∷ m) =
      let rest = make_room c m in if is_full (suc (length m)) c then rest else x ∷ m

  unfoldable pub store : Capacity → String → CacheEntry D → MemoryCacheStore D → MemoryCacheStore D
  store c key e s =
      let kept = make_room c (delete key s.entries) in
      if is_zero c then s else record { entries = set key e kept; newest_key = some key }

  unfoldable pub remove : String → MemoryCacheStore D → MemoryCacheStore D
  remove key s = record { entries = delete key s.entries; newest_key = forget key s.newest_key }

  -- The loop of `invalidateTags`: what is left, the newest key, and how many entries went.
  unfoldable pub without_tags :
      List String → Dict (CacheEntry D) → Option String → Dict (CacheEntry D) × Option String × ℕ
  without_tags expected [] newest = ([], newest, 0)
  without_tags expected ((k, e) ∷ m) newest =
      let gone = without_tags expected m (forget k newest) in
      let stays = without_tags expected m newest in
      if is_tagged expected e
      then (gone.0, gone.1, suc gone.2)
      else ((k, e) ∷ stays.0, stays.1, stays.2)

  unfoldable pub invalidate_tags : List String → MemoryCacheStore D → ℕ × MemoryCacheStore D
  invalidate_tags expected s =
      let done = without_tags expected s.entries s.newest_key in
      (done.2, record { entries = done.0; newest_key = done.1 })

  abbrev pub clear : MemoryCacheStore D → MemoryCacheStore D
  clear s = empty

  unfoldable pub step : Capacity → MemoryCacheStore D → Call D → MemoryCacheStore D
  step c s (lookups key) = (lookup key s).1
  step c s (removes key) = remove key s
  step c s (stores key e) = store c key e s
  step c s (invalidates tags) = (invalidate_tags tags s).1
  step c s clears = clear s

  unfoldable pub run : Capacity → MemoryCacheStore D → List (Call D) → MemoryCacheStore D
  run c s [] = s
  run c s (x ∷ xs) = run c (step c s x) xs
