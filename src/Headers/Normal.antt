-- ===== src/Headers/Normal.antt =====
-- Merged headers are normal, and so need no second merge: the headers of `mergeConfig` in
-- src/core/ConfigMerger.ts, where the defaults are trusted.
use request.Base.{◌≡◌, refl, sym, ◌∙◌, Bool, true, false, List, [], ◌∷◌, Option, none, some, arith}
use request.Stream.Lines.{Text}
use request.Headers.Fields.{
  Fields, find, put, remove, lower_case, find-put, find-remove, same_text_iff, lower_case_lower,
}
use request.Headers.Merge.{
  append_headers, remove_headers, merge_headers, last_value, names, find-merge_headers,
}

-- Names in lower case, each once, as in a `Headers` object.
abbrev pub IsNormal : Fields → Type 0
IsNormal [] = Unit
IsNormal ((k, v) ∷ hs) = (lower_case k ≡ k) × (find k hs ≡ none) × IsNormal hs

pub last_value-find : (k : Text) (hs : Fields) → IsNormal hs → last_value k hs ≡ find k hs
unfolding last_value find
last_value-find k [] n = refl
last_value-find k ((j, v) ∷ hs) (low, once, n) =
    ground (arith, last_value-find k hs n, low, once, same_text_iff j k)

pub put-IsNormal :
    (k v : Text) (hs : Fields) → lower_case k ≡ k → IsNormal hs → IsNormal (put k v hs)
unfolding put find
put-IsNormal k v [] low n = (low, refl, tt)
put-IsNormal k v ((j, w) ∷ hs) low (lower, once, n) =
    ground
      (arith, put-IsNormal k v hs low n, find-put k j v hs, same_text_iff j k, same_text_iff k j)

remove-IsNormal : (k : Text) (hs : Fields) → IsNormal hs → IsNormal (remove k hs)
unfolding remove
remove-IsNormal k [] n = tt
remove-IsNormal k ((j, w) ∷ hs) (low, once, n) =
    ground (arith, low, once, remove-IsNormal k hs n, find-remove k j hs)

append_headers-IsNormal :
    (result hs : Fields) → IsNormal result → IsNormal (append_headers result hs)
unfolding append_headers
append_headers-IsNormal result [] n = n
append_headers-IsNormal result ((k, v) ∷ hs) n =
    append_headers-IsNormal (put (lower_case k) v result) hs
      (put-IsNormal (lower_case k) v result (lower_case_lower k) n)

remove_headers-IsNormal :
    (result : Fields) (ns : List Text) → IsNormal result → IsNormal (remove_headers result ns)
unfolding remove_headers
remove_headers-IsNormal result [] n = n
remove_headers-IsNormal result (m ∷ ns) n =
    remove_headers-IsNormal (remove (lower_case m) result) ns
      (remove-IsNormal (lower_case m) result n)

pub merge_headers-IsNormal :
    (defaults headers : Fields) (default_removals removals : List Text)
    → IsNormal (merge_headers defaults headers default_removals removals)
unfolding merge_headers
merge_headers-IsNormal defaults headers default_removals removals =
    let first = append_headers [] defaults in
    let second = remove_headers first default_removals in
    remove_headers-IsNormal (append_headers second headers) removals (
      append_headers-IsNormal second headers
        (remove_headers-IsNormal first default_removals (append_headers-IsNormal [] defaults tt)))

-- What a configuration says of its headers; `undefined` is `none`.
pub record HeaderConfig : Type 0 where
  pub headers : Option Fields
  pub remove_headers : Option (List Text)

abbrev or_none {ℓ} : {A : Type ℓ} → Option (List A) → List A
or_none none = []
or_none (some xs) = xs

-- The defaults' headers, where they can be taken as they are: they are trusted, and nothing else is said.
abbrev pub copied :
    Bool → Option Fields → Option Fields → Option (List Text) → Option (List Text) → Option Fields
copied true defaults none none none = defaults
copied _ _ _ _ _ = none

-- The headers of a merged configuration where there are any; `trusted` says that the client's defaults are.
unfoldable pub config_headers : Bool → HeaderConfig → HeaderConfig → Fields
config_headers trusted d c =
    elim (copied trusted d.headers c.headers d.remove_headers c.remove_headers) [
      | some hs ↦ hs
      | none ↦
          merge_headers (or_none d.headers) (or_none c.headers) (or_none d.remove_headers)
            (or_none c.remove_headers)
    ]

abbrev pub AreNormal : Option Fields → Type 0
AreNormal none = Unit
AreNormal (some hs) = IsNormal hs

-- Trusted defaults whose headers, if any, are normal give the headers that a merge would give.
pub find-config_headers :
    (k : Text) (trusted : Bool) (d c : HeaderConfig)
    → AreNormal d.headers
    → find k (config_headers trusted d c) ≡ find k (config_headers false d c)
unfolding config_headers names last_value
find-config_headers k trusted d c n =
    by_parts trusted d.headers c.headers d.remove_headers c.remove_headers n
  where
    by_parts :
        (t : Bool) (h g : Option Fields) (r q : Option (List Text))
        → AreNormal h
        → find k (
            config_headers t
              (record { headers = h; remove_headers = r })
              (record { headers = g; remove_headers = q }))
          ≡ find k (
              config_headers false
                (record { headers = h; remove_headers = r })
                (record { headers = g; remove_headers = q }))
    by_parts false h g r q n = refl
    by_parts true none none none none n = refl
    by_parts true (some hs) none none none n =
        sym (find-merge_headers hs [] [] [] k ∙ last_value-find k hs n)
    by_parts true h (some g) r q n = refl
    by_parts true h none (some r) q n = refl
    by_parts true h none none (some q) n = refl
