-- ===== src/Headers/Merge.antt =====
-- `mergeHeaders` of src/core/ConfigMerger.ts. The three forms of headers that it takes are their fields in
-- order, with their names as they are given; the value of a field is a text.
use request.Base.{
  ◌≡◌, refl, Bool, false, ◌||◌, List, [], ◌∷◌, Option, none, some, arith, if◌then◌else◌,
}
use request.Stream.Lines.{Text}
use request.Stream.Events.{same_text}
use request.Headers.Fields.{Fields, find, put, remove, lower_case, find-put, find-remove}

unfoldable pub append_headers : Fields → Fields → Fields
append_headers result [] = result
append_headers result ((k, v) ∷ hs) = append_headers (put (lower_case k) v result) hs

unfoldable pub remove_headers : Fields → List Text → Fields
remove_headers result [] = result
remove_headers result (n ∷ ns) = remove_headers (remove (lower_case n) result) ns

-- `undefined` is the empty list.
unfoldable pub merge_headers : Fields → Fields → List Text → List Text → Fields
merge_headers defaults headers default_removals removals =
    remove_headers
      (append_headers (remove_headers (append_headers [] defaults) default_removals) headers)
      removals

-- The value of the last field of a name.
unfoldable pub last_value : Text → Fields → Option Text
last_value k [] = none
last_value k ((j, v) ∷ hs) = elim (last_value k hs) [
  | some w ↦ some w
  | none ↦ if same_text (lower_case j) k then some v else none
]

unfoldable pub names : Text → List Text → Bool
names k [] = false
names k (n ∷ ns) = same_text (lower_case n) k || names k ns

abbrev pub or_value : Option Text → Option Text → Option Text
or_value (some v) w = some v
or_value none w = w

-- What the merged headers say of a name.
abbrev pub merged_value : Fields → Fields → List Text → List Text → Text → Option Text
merged_value defaults headers default_removals removals k =
    if names k removals
    then none
    else or_value (last_value k headers)
        (if names k default_removals then none else last_value k defaults)

find-append_headers :
    (k : Text) (hs result : Fields)
    → find k (append_headers result hs) ≡ or_value (last_value k hs) (find k result)
unfolding append_headers last_value
find-append_headers k [] result = refl
find-append_headers k ((j, v) ∷ hs) result = ground (
  arith,
  find-append_headers k hs (put (lower_case j) v result),
  find-put (lower_case j) k v result,
)

find-remove_headers :
    (k : Text) (ns : List Text) (result : Fields)
    → find k (remove_headers result ns) ≡ (if names k ns then none else find k result)
unfolding remove_headers names
find-remove_headers k [] result = refl
find-remove_headers k (n ∷ ns) result = ground (
  arith,
  find-remove_headers k ns (remove (lower_case n) result),
  find-remove (lower_case n) k result,
)

-- A name that the request removes is not there; else the request's value counts, and only if it gives none
-- the default's, unless the defaults remove it.
pub find-merge_headers :
    (defaults headers : Fields) (default_removals removals : List Text) (k : Text)
    → find k (merge_headers defaults headers default_removals removals)
      ≡ merged_value defaults headers default_removals removals k
unfolding merge_headers find
find-merge_headers defaults headers default_removals removals k =
    let first = append_headers [] defaults in
    let second = remove_headers first default_removals in
    let third = append_headers second headers in
    ground (
      arith,
      find-remove_headers k removals third,
      find-append_headers k headers second,
      find-remove_headers k default_removals first,
      find-append_headers k defaults [],
    )
