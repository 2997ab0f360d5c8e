-- ===== src/Cache/Tests.antt =====
-- The memory store of src/plugins/cacheStores.ts with room for two entries.
use request.Base.{ℕ, ◌≡◌, refl, [], ◌∷◌, List, none, some}
use request.Base.Dict.{get, set, delete}
use request.Cache.Memory.{
  CacheEntry, at_most, MemoryCacheStore, empty, lookup, make_room, store, without_tags,
  invalidate_tags, has_tag, has_some_tag, Call, lookups, stores, step, run,
}
use request.Cache.Usage.{used, run_store-eq-used}

abbrev entry : ℕ → CacheEntry ℕ
entry n = record {
  value = n;
  expires_at = 1000;
  status = 200;
  status_text = "OK";
  headers = [];
  tags = some ("even" ∷ []);
}

abbrev calls : List (Call ℕ)
calls = stores "a" (entry 1) ∷ stores "b" (entry 2) ∷ lookups "a" ∷ stores "c" (entry 3) ∷ []

abbrev held : MemoryCacheStore ℕ
held = run (at_most 2) empty calls

-- The entry that was looked up outlives the other, and a tag clears both that are left.
oldest_evicted :
    (held.entries ≡ ("a", entry 1) ∷ ("c", entry 3) ∷ [])
    × ((lookup "b" held).0 ≡ none)
    × (get "a" held.entries ≡ some (entry 1))
    × ((invalidate_tags ("odd" ∷ "even" ∷ []) held).0 ≡ 2)
unfolding run step lookup store make_room invalidate_tags without_tags has_tag has_some_tag get set
    delete
oldest_evicted = (refl, refl, refl, refl)

run_store-eq-used_example : held.entries ≡ used (at_most 2) [] calls
run_store-eq-used_example = run_store-eq-used (at_most 2) calls
