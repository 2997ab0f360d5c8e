-- ===== src/Base/Dict.antt =====
-- A JavaScript `Map` with text keys: its entries in insertion order. `set` writes an old key in
-- place and appends a new one.
use Prim.Native.Nat.{◌+◌, ◌≤◌}
use Prim.Native.String.{String}
use mathlib.Core.Path.{◌≡◌, refl}
use mathlib.Core.Logic.{◌≢◌}
use mathlib.Core.Bool.{true}
use mathlib.Core.Option.{Option, none, some}
use mathlib.Core.List.{List, [], ◌∷◌}
use native.Mathlib.Omega.{arith}
use text.Mathlib.Text.{◌==◌ as str_eq}
use text.Mathlib.TextEquality.{eq_iff}
use request.Base.Tests.{if◌then◌else◌}
use request.Base.Lists.{length, All}

abbrev pub Dict {ℓ} : Type ℓ → Type ℓ
Dict V = List (String × V)

module _ {ℓ} {V : Type ℓ} where
  unfoldable pub get : String → Dict V → Option V
  get k [] = none
  get k ((j, v) ∷ m) = if str_eq j k then some v else get k m

  unfoldable pub set : String → V → Dict V → Dict V
  set k v [] = (k, v) ∷ []
  set k v ((j, w) ∷ m) = if str_eq j k then (j, v) ∷ m else (j, w) ∷ set k v m

  unfoldable pub delete : String → Dict V → Dict V
  delete k [] = []
  delete k ((j, v) ∷ m) = if str_eq j k then m else (j, v) ∷ delete k m

  pub get-set :
      (k j : String) (v : V) (m : Dict V)
      → get j (set k v m) ≡ (if str_eq k j then some v else get j m)
  unfolding get set
  get-set k j v [] = refl
  get-set k j v ((i, w) ∷ m) = ground (arith, eq_iff k j, eq_iff i k, eq_iff i j, get-set k j v m)

  pub get-delete_ne : (k j : String) (m : Dict V) → k ≢ j → get j (delete k m) ≡ get j m
  unfolding get delete
  get-delete_ne k j [] h = refl
  get-delete_ne k j ((i, w) ∷ m) h = ground (arith, eq_iff i k, eq_iff i j, get-delete_ne k j m h)

  pub length-delete-le : (k : String) (m : Dict V) → length (delete k m) ≤ length m
  unfolding delete
  length-delete-le k [] = omega arith
  length-delete-le k ((i, w) ∷ m) = ground (arith, length-delete-le k m)

  pub length-delete :
      (k : String) (m : Dict V) {v : V} → get k m ≡ some v → length (delete k m) + 1 ≡ length m
  unfolding get delete
  length-delete k [] h = ground arith
  length-delete k ((i, w) ∷ m) {v} h = ground (arith, length-delete k m {v = v})

  pub length-set_new :
      (k : String) (v : V) (m : Dict V) → get k m ≡ none → length (set k v m) ≡ length m + 1
  unfolding get set
  length-set_new k v [] h = omega arith
  length-set_new k v ((i, w) ∷ m) h = ground (arith, length-set_new k v m)

  pub length-set-le : (k : String) (v : V) (m : Dict V) → length (set k v m) ≤ length m + 1
  unfolding set
  length-set-le k v [] = omega arith
  length-set-le k v ((i, w) ∷ m) = ground (arith, length-set-le k v m)

  -- Each key stands once.
  abbrev pub IsMap : Dict V → Type ℓ
  IsMap [] = Unit
  IsMap ((k, v) ∷ m) = (get k m ≡ none) × IsMap m

  get-delete-none : (k j : String) (m : Dict V) → get j m ≡ none → get j (delete k m) ≡ none
  unfolding get delete
  get-delete-none k j [] h = refl
  get-delete-none k j ((i, w) ∷ m) h = ground (arith, get-delete-none k j m)

  pub delete-IsMap : (k : String) (m : Dict V) → IsMap m → IsMap (delete k m)
  unfolding delete
  delete-IsMap k [] h = tt
  delete-IsMap k ((i, w) ∷ m) h = ground (arith, delete-IsMap k m h.1, get-delete-none k i m h.0)

  pub set-IsMap : (k : String) (v : V) (m : Dict V) → IsMap m → IsMap (set k v m)
  unfolding set get
  set-IsMap k v [] h = (refl, tt)
  set-IsMap k v ((i, w) ∷ m) h =
      ground (arith, set-IsMap k v m h.1, get-set k i v m, eq_iff k i, eq_iff i k, h.0)

  pub get-delete_self : (k : String) (m : Dict V) → IsMap m → get k (delete k m) ≡ none
  unfolding get delete
  get-delete_self k [] h = refl
  get-delete_self k ((i, w) ∷ m) h = ground (arith, get-delete_self k m h.1, eq_iff i k)

module _ {ℓ κ} {V : Type ℓ} (P : String × V → Type κ) where
  pub All-get : (k : String) (m : Dict V) {v : V} → All P m → get k m ≡ some v → P (k, v)
  unfolding get
  All-get k [] h e = ground arith
  All-get k ((i, w) ∷ m) {v} h e = ground (arith, All-get k m {v = v} h.1, eq_iff i k, h.0)

  pub All-delete : (k : String) (m : Dict V) → All P m → All P (delete k m)
  unfolding delete
  All-delete k [] h = tt
  All-delete k ((i, w) ∷ m) h = ground (arith, All-delete k m)

  pub All-set :
      (k : String) (v : V) (m : Dict V)
      → ((i : String) → str_eq i k ≡ true → P (i, v))
      → P (k, v)
      → All P m
      → All P (set k v m)
  unfolding set
  All-set k v [] old new h = (new, tt)
  All-set k v ((i, w) ∷ m) old new h = ground (arith, All-set k v m old new h.1, old i)
