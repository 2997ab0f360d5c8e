-- ===== src/Plugins/Lookups.antt =====
-- What the searches of src/client/Client.ts for a name or a plugin find.
use request.Base.{
  String, ap, refl, ◌≡◌, ◌≢◌, subst, Bool, true, false, List, [], ◌∷◌, Option, none, some, str_eq,
  eq_iff, arith, if◌then◌else◌, if_cases,
}
use request.Base.Dict.{Dict, get, delete, get-delete_ne, get-delete_self, IsMap}
use request.Plugins.Installed.{
  Plugin, InstalledPlugin, includes, find_name, truthy, Installed, find_plugin,
}

-- What no name of a list passes.
pub find_name-none :
    (p : String → Bool) (n : String) (ns : List String)
    → find_name p ns ≡ none
    → includes n ns ≡ true
    → p n ≡ false
unfolding find_name includes
find_name-none p n [] h i = ground (arith, i)
find_name-none p n (m ∷ ns) h i = ground (arith, h, i, find_name-none p n ns, eq_iff m n)

pub get-delete :
    {V : Type 0} (k j : String) (m : Dict V)
    → IsMap m
    → get j (delete k m) ≡ (if str_eq k j then none else get j m)
get-delete k j m h =
    if_cases (λ x. get j (delete k m) ≡ x) (str_eq k j) _ _
      (λ same. subst (λ i. get i (delete k m) ≡ none) ((eq_iff k j).0 same) (get-delete_self k m h))
      (λ other. get-delete_ne k j m (λ e. absurd (ground (arith, eq_iff k j, e, other))))

pub find_name-some :
    (p : String → Bool) (n : String) (ns : List String)
    → find_name p ns ≡ some n
    → (p n ≡ true) × (includes n ns ≡ true)
unfolding find_name includes
find_name-some p n [] h = ground (arith, h)
find_name-some p n (m ∷ ns) h = ground (arith, h, find_name-some p n ns, eq_iff m n)

pub truthy-none : (o : Option String) → truthy o ≡ none → o ≢ some "" → o ≡ none
unfolding truthy
truthy-none none h n = refl
truthy-none (some k) h n = absurd (n (ap some ((eq_iff k "").0 (ground (arith, h)))))

module _ {W E : Type 0} where
  pub find_plugin-none :
      (p : Plugin W E → Bool) (k : String) (i : InstalledPlugin W E) (m : Installed W E)
      → find_plugin p m ≡ none
      → get k m ≡ some i
      → p i.plugin ≡ false
  unfolding find_plugin get
  find_plugin-none p k i [] h e = ground (arith, e)
  find_plugin-none p k i ((j, x) ∷ m) h e = ground (arith, h, e, find_plugin-none p k i m)

  pub find_plugin-named :
      (p : Plugin W E → Bool) (m : Installed W E)
      → IsMap m
      → ((k : String) (i : InstalledPlugin W E) → get k m ≡ some i → i.plugin.name ≢ "")
      → find_plugin p m ≢ some ""
  unfolding find_plugin get
  find_plugin-named p [] d named = λ e. ground (arith, e)
  find_plugin-named p ((j, x) ∷ m) d named =
      let rest : (k : String) (i : InstalledPlugin W E) → get k m ≡ some i → i.plugin.name ≢ "" =
        λ k i e. named k i (ground (arith, e, d.0, eq_iff j k)) in
      λ e. ground (arith, e, named j x (ground (arith, eq_iff j j)), find_plugin-named p m d.1 rest)
