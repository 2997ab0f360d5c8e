-- ===== src/Headers/Tests.antt =====
-- Merged header fields at concrete inputs.
use request.Base.{◌≡◌, refl, true, false, [], ◌∷◌, some, none}
use request.Stream.Lines.{Text}
use request.Stream.Events.{same_text}
use request.Headers.Fields.{Fields, find, put, remove, lower_case}
use request.Headers.Normal.{
  HeaderConfig, config_headers, merge_headers-IsNormal, find-config_headers,
}
use request.Headers.Merge.{
  append_headers, remove_headers, merge_headers, merged_value, find-merge_headers,
}

abbrev upper : Text
upper = b'A' ∷ []

abbrev lower : Text
lower = b'a' ∷ []

abbrev other : Text
other = b'b' ∷ []

abbrev value : Text
value = b'1' ∷ []

-- A default that the defaults remove comes back with the request; another one that the request removes does not.
abbrev defaults : Fields
defaults = (upper, other) ∷ (other, value) ∷ []

abbrev headers : Fields
headers = (upper, value) ∷ (other, other) ∷ []

merged : merge_headers defaults headers (lower ∷ []) (other ∷ []) ≡ (lower, value) ∷ []
unfolding merge_headers append_headers remove_headers put remove lower_case same_text
merged = refl

find-merge_headers_example :
    find lower (merge_headers defaults headers (lower ∷ []) (other ∷ []))
    ≡ merged_value defaults headers (lower ∷ []) (other ∷ []) lower
find-merge_headers_example = find-merge_headers defaults headers (lower ∷ []) (other ∷ []) lower

-- The defaults of a client are merged ones.
abbrev trusted_defaults : HeaderConfig
trusted_defaults = record {
  headers = some (merge_headers defaults [] [] []);
  remove_headers = none;
}

abbrev no_headers : HeaderConfig
no_headers = record { headers = none; remove_headers = none }

find-config_headers_example :
    find lower (config_headers true trusted_defaults no_headers)
    ≡ find lower (config_headers false trusted_defaults no_headers)
find-config_headers_example =
    find-config_headers lower true trusted_defaults no_headers
      (merge_headers-IsNormal defaults [] [] [])
