-- ===== src/Config/Tests.antt =====
-- Merged extensions and bodies at concrete inputs.
use request.Base.{ℕ, ◌≡◌, refl, [], ◌∷◌, none, some}
use request.Base.Dict.{Dict, get, set, IsMap}
use request.Config.Spread.{spread}
use request.Config.Extensions.{
  Extension, plain, other, fields, odd, merge_each, merge_fields, merge_extensions,
  merged_extension, get-merge_fields,
}
use request.Config.Bodies.{missing, given, BodyConfig, merge_body}

abbrev defaults : Dict (Extension ℕ)
defaults = ("retry", plain (("retries", 3) ∷ ("delay", 100) ∷ [])) ∷ ("auth", other 1) ∷ []

abbrev extensions : Dict (Extension ℕ)
extensions = ("retry", plain (("delay", 5) ∷ [])) ∷ ("auth", plain []) ∷ []

extensions-IsMap : IsMap extensions
unfolding get
extensions-IsMap = (refl, (refl, tt))

retry_merged :
    get "retry" (merge_fields defaults extensions)
    ≡ some (plain (("retries", 3) ∷ ("delay", 5) ∷ []))
unfolding merge_fields merge_each spread get set
retry_merged = refl

odd_extensions : merge_extensions (fields defaults) (odd 7) ≡ odd 7
unfolding merge_extensions
odd_extensions = refl

get-merge_fields_example :
    get "auth" (merge_fields defaults extensions)
    ≡ merged_extension (get "auth" defaults) (get "auth" extensions)
get-merge_fields_example = get-merge_fields "auth" defaults extensions extensions-IsMap

abbrev json_body : BodyConfig ℕ
json_body = record { body = missing; json = given (some 1); form = missing; form_data = missing }

abbrev form_body : BodyConfig ℕ
form_body = record { body = missing; json = missing; form = given (some 2); form_data = missing }

only_form :
    merge_body json_body form_body
    ≡ record { body = given none; json = given none; form = given (some 2); form_data = given none }
unfolding merge_body
only_form = refl
