-- ===== src/Plugins/Undone.antt =====
-- What is left of a plugin that does not install, or that is removed, by src/client/Client.ts.
use request.Base.{
  String, ◌≡◌, refl, sym, ap, subst, false, List, none, some, arith, All, if_cases, option_cases,
}
use request.Base.Dict.{get, get-delete_self, IsMap}
use request.Plugins.Cleanups.{Store, Cleanup, cleanup, IsSpent, cleanup-spends}
use request.Plugins.Effects.{IsFresh, undone, cleanup-world}
use request.Plugins.Installed.{
  throws, Plugin, InstalledPlugin, thrown, Client, is_there, has_plugin, validate_plugin,
  find_dependent, truthy, installed, use_plugin, unuse_plugin,
}
use request.Plugins.Consistent.{Answer}

module _ {W E : Type 0} where
  -- Where a plugin is not installed and may be, but its installation throws, and the cleanups that it
  -- registered by then are distinct and none of them has run: `use` gives what the installation throws, the
  -- plugins stay as they are, and the world is what the actions of all the cleanups, the one registered last
  -- first, make of the world at the throw, whatever they throw.
  pub use_plugin_throws :
      (p : Plugin W E) (c : Client W E) (cs : List (Cleanup W E)) (e : E) (s : Store W)
      → p.install c.store ≡ throws cs e s
      → has_plugin p.name c.installed_plugins ≡ false
      → validate_plugin p c.installed_plugins ≡ none
      → IsFresh cs s
      → let used = use_plugin p c in
        (used.0 ≡ some (thrown e))
        × (used.1.installed_plugins ≡ c.installed_plugins)
        × (used.1.store.world ≡ undone cs s.world)
  unfolding use_plugin
  use_plugin_throws p c cs e s fails new valid fresh =
      let m = c.installed_plugins in
      let Undone : Answer W E → Type 0 = λ a.
        (a.0 ≡ some (thrown e))
        × (a.1.installed_plugins ≡ m)
        × (a.1.store.world ≡ undone cs s.world) in
      if_cases {A = Answer W E} Undone (has_plugin p.name m) _ _
        (λ there. absurd (ground (arith, there, new)))
        (λ absent.
          option_cases {B = Answer W E} Undone (validate_plugin p m) _ _
            (λ none_wrong.
              subst (λ x. Undone (installed p m x)) (sym fails)
                (refl, refl, cleanup-world cs s fresh))
            (λ f wrong. absurd (ground (arith, valid, wrong))))

  -- A plugin that is installed and that no other one requires is removed, and all its cleanups run, whatever they
  -- throw.
  unuse_plugin_lem :
      (n : String) (c : Client W E) (i : InstalledPlugin W E)
      → IsMap c.installed_plugins
      → get n c.installed_plugins ≡ some i
      → truthy (find_dependent n c.installed_plugins) ≡ none
      → let left = (unuse_plugin n c).1 in
        (has_plugin n left.installed_plugins ≡ false) × All (IsSpent left.store) i.cleanups
  unfolding unuse_plugin
  unuse_plugin_lem n c i is_map there free =
      let m = c.installed_plugins in
      let Gone : List (Cleanup W E) → Answer W E → Type 0 =
        λ cs a. (has_plugin n a.1.installed_plugins ≡ false) × All (IsSpent a.1.store) cs in
      option_cases {B = Answer W E} (Gone i.cleanups) (get n m) _ _
        (λ absent. absurd (ground (arith, there, absent)))
        (λ j e.
          let same : j ≡ i = ground (arith, there, e) in
          option_cases {B = Answer W E} (Gone i.cleanups) (truthy (find_dependent n m)) _ _
            (λ unneeded. (
              ap is_there (get-delete_self n m is_map),
              subst (λ x. All (IsSpent (cleanup j.cleanups c.store).1) x.cleanups) same
                  (cleanup-spends j.cleanups c.store),
            ))
            (λ d needed. absurd (ground (arith, free, needed))))
