-- ===== src/Plugins/Installed.antt =====
-- `use` and `unuse` of src/client/Client.ts. What a plugin's `install` does is its own: the registrations of its
-- scope, which the cleanups stand for, and what it returns or throws. It does not call `use` or `unuse`.
use request.Base.{
  String, Bool, true, false, not, ◌||◌, List, [], ◌∷◌, ◌++◌, Option, none, some, str_eq,
  if◌then◌else◌,
}
use request.Base.Dict.{Dict, get, set, delete}
use request.Plugins.Cleanups.{Store, Cleanup, cleanup}

-- What `install` comes to: it returns, maybe with a cleanup, or throws.
pub data Installing (W E : Type 0) : Type 0 where
  returns : List (Cleanup W E) → Option (Cleanup W E) → Store W → Installing W E
  throws : List (Cleanup W E) → E → Store W → Installing W E

pub record Plugin (W E : Type 0) : Type 0 where
  pub name : String
  pub requires : List String
  pub conflicts : List String
  pub install : Store W → Installing W E

pub record InstalledPlugin (W E : Type 0) : Type 0 where
  pub plugin : Plugin W E
  pub cleanups : List (Cleanup W E)

-- PluginError with its code and its related plugin, or what a plugin threw.
pub data Failure (E : Type 0) : Type 0 where
  missing_dependency plugin_conflict dependency_in_use : String → Failure E
  thrown : E → Failure E

pub record Client (W E : Type 0) : Type 0 where
  pub installed_plugins : Dict (InstalledPlugin W E)
  pub store : Store W

unfoldable pub includes : String → List String → Bool
includes n [] = false
includes n (m ∷ ms) = str_eq m n || includes n ms

abbrev pub is_there : {A : Type 0} → Option A → Bool
is_there none = false
is_there (some a) = true

unfoldable pub find_name : (String → Bool) → List String → Option String
find_name p [] = none
find_name p (n ∷ ns) = let rest = find_name p ns in if p n then some n else rest

-- What a test `if (name)` takes for a name: an empty one is as none.
unfoldable pub truthy : Option String → Option String
truthy none = none
truthy (some n) = if str_eq n "" then none else some n

abbrev pub Installed : Type 0 → Type 0 → Type 0
Installed W E = Dict (InstalledPlugin W E)

abbrev pub thrown_by : {E : Type 0} → Option E → Option (Failure E)
thrown_by none = none
thrown_by (some e) = some (thrown e)

pub data Call (W E : Type 0) : Type 0 where
  uses : Plugin W E → Call W E
  unuses : String → Call W E

module _ {W E : Type 0} where
  abbrev pub has_plugin : String → Installed W E → Bool
  has_plugin n m = is_there (get n m)

  -- The name of the first plugin that passes a test.
  unfoldable pub find_plugin : (Plugin W E → Bool) → Installed W E → Option String
  find_plugin p [] = none
  find_plugin p ((k, i) ∷ m) =
      let rest = find_plugin p m in if p i.plugin then some i.plugin.name else rest

  unfoldable pub validate_plugin : Plugin W E → Installed W E → Option (Failure E)
  validate_plugin p m = elim (truthy (find_name (λ n. not (has_plugin n m)) p.requires)) [
    | some n ↦ some (missing_dependency n)
    | none ↦ elim (truthy (find_name (λ n. has_plugin n m) p.conflicts)) [
      | some n ↦ some (plugin_conflict n)
      | none ↦ elim (find_plugin (λ q. includes p.name q.conflicts) m) [
        | some n ↦ some (plugin_conflict n)
        | none ↦ none
      ]
    ]
  ]

  abbrev pub find_dependent : String → Installed W E → Option String
  find_dependent n m = find_plugin (λ q. includes n q.requires) m

  abbrev pub with_cleanup : List (Cleanup W E) → Option (Cleanup W E) → List (Cleanup W E)
  with_cleanup cs none = cs
  with_cleanup cs (some c) = cs ++ c ∷ []

  -- The `try` of `use`.
  abbrev pub installed :
      Plugin W E → Installed W E → Installing W E → Option (Failure E) × Client W E
  installed p m (returns cs own s) = (
    none,
    record {
      installed_plugins = set p.name (record { plugin = p; cleanups = with_cleanup cs own }) m;
      store = s;
    },
  )
  installed p m (throws cs e s) =
      (some (thrown e), record { installed_plugins = m; store = (cleanup cs s).1 })

  unfoldable pub use_plugin : Plugin W E → Client W E → Option (Failure E) × Client W E
  use_plugin p c =
      let m = c.installed_plugins in
      if has_plugin p.name m then (none, c) else elim (validate_plugin p m) [
        | some f ↦ (some f, c)
        | none ↦ installed p m (p.install c.store)
      ]

  unfoldable pub unuse_plugin : String → Client W E → Option (Failure E) × Client W E
  unuse_plugin n c =
      let m = c.installed_plugins in
      elim (get n m) [
        | none ↦ (none, c)
        | some i ↦ elim (truthy (find_dependent n m)) [
          | some d ↦ (some (dependency_in_use d), c)
          | none ↦
              let done = cleanup i.cleanups c.store in
              (thrown_by done.0, record { installed_plugins = delete n m; store = done.1 })
        ]
      ]

  unfoldable pub call : Call W E → Client W E → Client W E
  call (uses p) c = (use_plugin p c).1
  call (unuses n) c = (unuse_plugin n c).1

  unfoldable pub calls : List (Call W E) → Client W E → Client W E
  calls [] c = c
  calls (x ∷ xs) c = calls xs (call x c)
