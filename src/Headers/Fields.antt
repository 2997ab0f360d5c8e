-- ===== src/Headers/Fields.antt =====
-- Header fields by name, each name once: a `Headers` object, or the plain objects that
-- src/core/ConfigMerger.ts builds. Names of fields are ASCII.
use request.Base.{
  ℕ, ◌+◌, ◌≡◌, ◌↔◌, refl, subst, true, ◌&&◌, List, [], ◌∷◌, Option, none, some, leb, arith,
  if◌then◌else◌,
}
use request.Stream.Lines.{Text}
use request.Stream.Events.{same_text}

abbrev pub to_lower : ℕ → ℕ
to_lower c = if leb b'A' c && leb c b'Z' then c + 32 else c

-- `toLowerCase`
unfoldable pub lower_case : Text → Text
lower_case [] = []
lower_case (c ∷ t) = to_lower c ∷ lower_case t

abbrev pub Fields : Type 0
Fields = List (Text × Text)

unfoldable pub find : Text → Fields → Option Text
find k [] = none
find k ((j, v) ∷ m) = if same_text j k then some v else find k m

-- An old name keeps its place.
unfoldable pub put : Text → Text → Fields → Fields
put k v [] = (k, v) ∷ []
put k v ((j, w) ∷ m) = let rest = put k v m in if same_text j k then (k, v) ∷ m else (j, w) ∷ rest

unfoldable pub remove : Text → Fields → Fields
remove k [] = []
remove k ((j, v) ∷ m) = let rest = remove k m in if same_text j k then rest else (j, v) ∷ rest

pub same_text_refl : (t : Text) → same_text t t ≡ true
unfolding same_text
same_text_refl [] = refl
same_text_refl (c ∷ t) = ground (arith, same_text_refl t)

pub same_text_eq : (s t : Text) → same_text s t ≡ true → s ≡ t
unfolding same_text
same_text_eq [] [] h = refl
same_text_eq [] (c ∷ t) h = ground (arith, h)
same_text_eq (c ∷ s) [] h = ground (arith, h)
same_text_eq (c ∷ s) (d ∷ t) h = ground (arith, same_text_eq s t)

pub same_text_iff : (s t : Text) → (same_text s t ≡ true) ↔ (s ≡ t)
same_text_iff s t = (same_text_eq s t, λ e. subst (λ u. same_text s u ≡ true) e (same_text_refl s))

pub lower_case_lower : (t : Text) → lower_case (lower_case t) ≡ lower_case t
unfolding lower_case
lower_case_lower [] = refl
lower_case_lower (c ∷ t) = ground (arith, lower_case_lower t)

pub find-put :
    (k j v : Text) (m : Fields) → find j (put k v m) ≡ (if same_text k j then some v else find j m)
unfolding find put
find-put k j v [] = refl
find-put k j v ((i, w) ∷ m) =
    ground (arith, same_text_iff k j, same_text_iff i k, same_text_iff i j, find-put k j v m)

pub find-remove :
    (k j : Text) (m : Fields) → find j (remove k m) ≡ (if same_text k j then none else find j m)
unfolding find remove
find-remove k j [] = ground arith
find-remove k j ((i, w) ∷ m) =
    ground (arith, same_text_iff k j, same_text_iff i k, same_text_iff i j, find-remove k j m)
