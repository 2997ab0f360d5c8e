-- ===== src/Plugins/Consistent.antt =====
-- The plugins of a client are consistent after any calls of `use` and `unuse` of src/client/Client.ts.
use request.Base.{
  String, refl, All, inl, inr, Option-cases, ◌≡◌, ◌≢◌, Bool, true, false, not, List, [], ◌∷◌,
  Option, none, some, eq_iff, arith, if_cases, option_cases,
}
use request.Base.Dict.{get, set, delete, get-set, IsMap, delete-IsMap, set-IsMap}
use request.Plugins.Cleanups.{Store, Cleanup}
use request.Plugins.Lookups.{
  find_name-none, get-delete, find_name-some, truthy-none, find_plugin-none, find_plugin-named,
}
use request.Plugins.Installed.{
  Installing, returns, throws, Plugin, InstalledPlugin, Failure, Client, includes, find_name,
  truthy, Installed, has_plugin, find_plugin, validate_plugin, find_dependent, with_cleanup,
  installed, use_plugin, unuse_plugin, Call, uses, unuses, call, calls,
}

abbrev pub Answer : Type 0 → Type 0 → Type 0
Answer W E = Option (Failure E) × Client W E

module _ {W E : Type 0} where
  -- All that an installed plugin requires is installed; none conflicts with another; each has a name.
  pub record Consistent (m : Installed W E) : Type 0 where
    pub is_map : IsMap m
    pub required :
        (k : String) (i : InstalledPlugin W E) (n : String)
        → get k m ≡ some i
        → includes n i.plugin.requires ≡ true
        → has_plugin n m ≡ true
    pub peaceful :
        (k l : String) (i j : InstalledPlugin W E)
        → get k m ≡ some i
        → get l m ≡ some j
        → k ≢ l
        → includes l i.plugin.conflicts ≡ false
    pub named :
        (k : String) (i : InstalledPlugin W E) → get k m ≡ some i → (k ≢ "") × (i.plugin.name ≢ "")

  -- A plugin that has a name and requires none without.
  abbrev pub IsNamed : Plugin W E → Type 0
  IsNamed p = (p.name ≢ "") × (includes "" p.requires ≡ false)

  abbrev pub UsesNamed : Call W E → Type 0
  UsesNamed (uses p) = IsNamed p
  UsesNamed (unuses n) = Unit

  nobody_unnamed : (m : Installed W E) → Consistent m → has_plugin "" m ≢ true
  nobody_unnamed m c = λ e. elim (Option-cases (get "" m)) [
    | inl absent ↦ ground (arith, e, absent)
    | inr (i, there) ↦ absurd ((c.named "" i there).0 refl)
  ]

  validate_plugin-none :
      (p : Plugin W E) (m : Installed W E)
      → validate_plugin p m ≡ none
      → (truthy (find_name (λ n. not (has_plugin n m)) p.requires) ≡ none)
        × (truthy (find_name (λ n. has_plugin n m) p.conflicts) ≡ none)
        × (find_plugin (λ q. includes p.name q.conflicts) m ≡ none)
  unfolding validate_plugin
  validate_plugin-none p m h = (ground (arith, h), ground (arith, h), ground (arith, h))

  -- Nothing that a plugin requires is missing, and it conflicts with nothing that is there.
  validate_plugin_lem :
      (p : Plugin W E) (m : Installed W E)
      → validate_plugin p m ≡ none
      → IsNamed p
      → Consistent m
      → (find_name (λ n. not (has_plugin n m)) p.requires ≡ none)
        × (find_name (λ n. has_plugin n m) p.conflicts ≡ none)
        × (find_plugin (λ q. includes p.name q.conflicts) m ≡ none)
  validate_plugin_lem p m valid named c =
      let (met, calm, welcome) = validate_plugin-none p m valid in
      let missing : String → Bool = λ n. not (has_plugin n m) in
      (
        truthy-none (find_name missing p.requires) met
            (λ e. ground (arith, named.1, find_name-some missing "" p.requires e)),
        truthy-none (find_name (λ n. has_plugin n m) p.conflicts) calm
            (λ e. nobody_unnamed m c (find_name-some (λ n. has_plugin n m) "" p.conflicts e).0),
        welcome,
      )

  set-Consistent :
      (p : Plugin W E) (cs : List (Cleanup W E)) (m : Installed W E)
      → validate_plugin p m ≡ none
      → IsNamed p
      → get p.name m ≡ none
      → Consistent m
      → Consistent (set p.name (record { plugin = p; cleanups = cs }) m)
  set-Consistent p cs m valid named fresh c =
      let (met, calm, welcome) = validate_plugin_lem p m valid named c in
      let x : InstalledPlugin W E = record { plugin = p; cleanups = cs } in
      record {
        is_map = set-IsMap p.name x m c.is_map;
        required = λ k i r e q. ground (
          arith,
          e,
          q,
          get-set p.name k x m,
          get-set p.name r x m,
          c.required k i r,
          find_name-none (λ n. not (has_plugin n m)) r p.requires met,
        );
        peaceful = λ k l i j e f ne. ground (
          arith,
          e,
          f,
          ne,
          get-set p.name k x m,
          get-set p.name l x m,
          eq_iff p.name k,
          eq_iff p.name l,
          c.peaceful k l i j,
          find_name-none (λ n. has_plugin n m) l p.conflicts calm,
          find_plugin-none (λ q. includes p.name q.conflicts) k i m welcome,
        );
        named =
            λ k i e. ground (arith, e, get-set p.name k x m, eq_iff p.name k, c.named k i, named.0);
      }

  delete-Consistent :
      (n : String) (m : Installed W E)
      → truthy (find_dependent n m) ≡ none
      → Consistent m
      → Consistent (delete n m)
  delete-Consistent n m truly_free c =
      let free =
        truthy-none (find_dependent n m) truly_free (
          find_plugin-named (λ q. includes n q.requires) m c.is_map (λ k i e. (c.named k i e).1)) in
      record {
        is_map = delete-IsMap n m c.is_map;
        required = λ k i r e q. ground (
          arith,
          e,
          q,
          get-delete n k m c.is_map,
          get-delete n r m c.is_map,
          c.required k i r,
          find_plugin-none (λ x. includes n x.requires) k i m free,
          eq_iff n r,
        );
        peaceful = λ k l i j e f ne. ground (
          arith,
          e,
          f,
          ne,
          get-delete n k m c.is_map,
          get-delete n l m c.is_map,
          c.peaceful k l i j,
        );
        named = λ k i e. ground (arith, e, get-delete n k m c.is_map, c.named k i);
      }

  installed-Consistent :
      (p : Plugin W E) (m : Installed W E) (x : Installing W E)
      → validate_plugin p m ≡ none
      → IsNamed p
      → get p.name m ≡ none
      → Consistent m
      → Consistent (installed p m x).1.installed_plugins
  installed-Consistent p m (returns cs own s) valid named fresh c =
      set-Consistent p (with_cleanup cs own) m valid named fresh c
  installed-Consistent p m (throws cs e s) valid named fresh c = c

  use_plugin-Consistent :
      (p : Plugin W E) (c : Client W E)
      → IsNamed p
      → Consistent c.installed_plugins
      → Consistent (use_plugin p c).1.installed_plugins
  unfolding use_plugin
  use_plugin-Consistent p c named h =
      let m = c.installed_plugins in
      if_cases {A = Answer W E} (λ a. Consistent a.1.installed_plugins) (has_plugin p.name m) _ _
        (λ there. h)
        (λ new.
          option_cases {B = Answer W E} (λ a. Consistent a.1.installed_plugins)
            (validate_plugin p m) _ _
            (λ valid.
              installed-Consistent p m (p.install c.store) valid named (ground (arith, new)) h)
            (λ f e. h))

  unuse_plugin-Consistent :
      (n : String) (c : Client W E)
      → Consistent c.installed_plugins
      → Consistent (unuse_plugin n c).1.installed_plugins
  unfolding unuse_plugin
  unuse_plugin-Consistent n c h =
      let m = c.installed_plugins in
      option_cases {B = Answer W E} (λ a. Consistent a.1.installed_plugins) (get n m) _ _
        (λ absent. h)
        (λ i e.
          option_cases {B = Answer W E} (λ a. Consistent a.1.installed_plugins)
            (truthy (find_dependent n m)) _ _ (λ free. delete-Consistent n m free h) (λ d f. h))

  empty-Consistent : Consistent []
  unfolding get
  empty-Consistent = record {
    is_map = tt;
    required = λ k i n e q. ground (arith, e);
    peaceful = λ k l i j e f ne. ground (arith, e);
    named = λ k i e. ground (arith, e);
  }

  call-Consistent :
      (x : Call W E) (c : Client W E)
      → UsesNamed x
      → Consistent c.installed_plugins
      → Consistent (call x c).installed_plugins
  unfolding call
  call-Consistent (uses p) c named h = use_plugin-Consistent p c named h
  call-Consistent (unuses n) c named h = unuse_plugin-Consistent n c h

  calls_from :
      (xs : List (Call W E)) (c : Client W E)
      → All UsesNamed xs
      → Consistent c.installed_plugins
      → Consistent (calls xs c).installed_plugins
  unfolding calls
  calls_from [] c named h = h
  calls_from (x ∷ xs) c (named, rest) h =
      calls_from xs (call x c) rest (call-Consistent x c named h)

  -- After any calls on a new client, where each plugin that is used has a name that is not empty and
  -- requires no empty name, the plugins that an installed one requires are installed, and none of those that
  -- it conflicts with.
  pub calls-Consistent :
      (xs : List (Call W E)) (s : Store W)
      → All UsesNamed xs
      → Consistent (calls xs (record { installed_plugins = []; store = s })).installed_plugins
  calls-Consistent xs s named =
      calls_from xs (record { installed_plugins = []; store = s }) named empty-Consistent
