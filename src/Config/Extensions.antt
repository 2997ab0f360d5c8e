-- ===== src/Config/Extensions.antt =====
-- `mergeExtensions` of src/core/ConfigMerger.ts.
use request.Base.{
  String, ◌≡◌, refl, [], ◌∷◌, Option, none, some, str_eq, eq_iff, arith, option_cases, ap, ◌∙◌,
  if◌then◌else◌,
}
use request.Base.Dict.{Dict, get, set, get-set, IsMap}
use request.Config.Spread.{spread, or_else, get-spread}

-- The value of an extension: a plain object, or anything else.
pub data Extension (V : Type 0) : Type 0 where
  plain : Dict V → Extension V
  other : V → Extension V

-- The extensions of a configuration: `undefined`, an object that is no list, or anything else, which is
-- refused later.
pub data Extensions (V : Type 0) : Type 0 where
  absent : Extensions V
  fields : Dict (Extension V) → Extensions V
  odd : V → Extensions V

module _ {V : Type 0} where
  -- Both values are plain objects.
  abbrev pub both_plain : Option (Extension V) → Extension V → Option (Dict V × Dict V)
  both_plain (some (plain a)) (plain b) = some (a, b)
  both_plain _ _ = none

  -- The loop over the extensions of the request.
  unfoldable pub merge_each :
      Dict (Extension V) → Dict (Extension V) → Dict (Extension V) → Dict (Extension V)
  merge_each defaults [] result = result
  merge_each defaults ((k, v) ∷ extensions) result =
      let kept = merge_each defaults extensions result in
      elim (both_plain (get k defaults) v) [
        | none ↦ kept
        | some (a, b) ↦ merge_each defaults extensions (set k (plain (spread a b)) result)
      ]

  unfoldable pub merge_fields : Dict (Extension V) → Dict (Extension V) → Dict (Extension V)
  merge_fields defaults extensions = merge_each defaults extensions (spread defaults extensions)

  unfoldable pub merge_extensions : Extensions V → Extensions V → Extensions V
  merge_extensions defaults (odd e) = odd e
  merge_extensions (odd d) absent = odd d
  merge_extensions (odd d) (fields e) = fields e
  merge_extensions absent absent = absent
  merge_extensions absent (fields e) = fields e
  merge_extensions (fields d) absent = fields d
  merge_extensions (fields d) (fields e) = fields (merge_fields d e)

  -- What becomes of one extension.
  abbrev pub merged_extension : Option (Extension V) → Option (Extension V) → Option (Extension V)
  merged_extension d none = d
  merged_extension d (some v) = elim (both_plain d v) [
    | none ↦ some v
    | some (a, b) ↦ some (plain (spread a b))
  ]

  abbrev overwritten :
      Option (Extension V) → Option (Extension V) → Option (Extension V) → Option (Extension V)
  overwritten d none r = r
  overwritten d (some v) r = elim (both_plain d v) [
    | none ↦ r
    | some (a, b) ↦ some (plain (spread a b))
  ]

  get-merge_each :
      (k : String) (d e r : Dict (Extension V))
      → IsMap e
      → get k (merge_each d e r) ≡ overwritten (get k d) (get k e) (get k r)
  unfolding merge_each get
  get-merge_each k d [] r h = refl
  get-merge_each k d ((j, v) ∷ e) r (once, h) =
      option_cases
        (λ m. get k m ≡ overwritten (get k d) (if str_eq j k then some v else get k e) (get k r))
        (both_plain (get j d) v) _ _
        (λ none_plain. ground (arith, none_plain, eq_iff j k, once, get-merge_each k d e r h))
        (λ (a, b) plain_ones.
          let r' = set j (plain (spread a b)) r in
          ground (
            arith,
            plain_ones,
            eq_iff j k,
            once,
            get-merge_each k d e r' h,
            get-set j k (plain (spread a b)) r,
          ))

  -- Where the extensions of the request have each key once, one of them stands in for that of the defaults,
  -- but where both are plain objects their properties are merged, one level deep.
  pub get-merge_fields :
      (k : String) (d e : Dict (Extension V))
      → IsMap e
      → get k (merge_fields d e) ≡ merged_extension (get k d) (get k e)
  unfolding merge_fields
  get-merge_fields k d e h =
      get-merge_each k d e (spread d e) h
      ∙ chosen (get k d) (get k e) (get k (spread d e)) (get-spread k d e h)
    where
      chosen :
          (x y z : Option (Extension V))
          → z ≡ or_else y x
          → overwritten x y z ≡ merged_extension x y
      chosen x none z h = h
      chosen x (some v) z h =
          ap
            (λ w. elim (both_plain x v) as (λ q. Option (Extension V)) [
              | none ↦ w
              | some (a, b) ↦ some (plain (spread a b))
            ])
            h
