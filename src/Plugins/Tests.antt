-- ===== src/Plugins/Tests.antt =====
-- Plugins that are installed and removed, at concrete inputs. The world is the list of the cleanups that ran.
use request.Base.{ℕ, ◌≡◌, ◌≢◌, refl, true, false, List, [], ◌∷◌, none, some, arith, eq_iff}
use request.Base.Dict.{get, set, delete}
use request.Plugins.Cleanups.{Store, Cleanup, cleanup, run_cleanups, once, reversed}
use request.Plugins.Effects.{undone}
use request.Plugins.Installed.{
  Plugin, returns, throws, thrown, missing_dependency, dependency_in_use, truthy, has_plugin,
  Client, validate_plugin, find_name, find_plugin, includes, use_plugin, unuse_plugin, uses, unuses,
  calls,
}
use request.Plugins.Consistent.{Consistent, calls-Consistent}
use request.Plugins.Undone.{use_plugin_throws}

abbrev Log : Type 0
Log = List ℕ

abbrev logs : ℕ → Cleanup Log ℕ
logs n = record { id = n; action = λ w. (none, n ∷ w) }

abbrev logs_and_throws : ℕ → Cleanup Log ℕ
logs_and_throws n = record { id = n; action = λ w. (some n, n ∷ w) }

abbrev clean : Store Log
clean = record { world = []; spent = λ i. false }

abbrev auth : Plugin Log ℕ
auth = record {
  name = "auth";
  requires = [];
  conflicts = "retry" ∷ [];
  install = λ s. returns (logs 0 ∷ logs_and_throws 1 ∷ []) (some (logs 2)) s;
}

abbrev trace : Plugin Log ℕ
trace = record {
  name = "trace";
  requires = "auth" ∷ [];
  conflicts = [];
  install = λ s. returns [] none s;
}

abbrev broken : Plugin Log ℕ
broken = record {
  name = "broken";
  requires = [];
  conflicts = [];
  install = λ s. throws (logs 5 ∷ logs_and_throws 6 ∷ logs 7 ∷ []) 9 s;
}

abbrev new_client : Client Log ℕ
new_client = record { installed_plugins = []; store = clean }

abbrev with_auth : Client Log ℕ
with_auth = (use_plugin auth new_client).1

needs_auth : (use_plugin trace new_client).0 ≡ some (missing_dependency "auth")
unfolding use_plugin validate_plugin find_name truthy get
needs_auth = refl

held_by_trace :
    (unuse_plugin "auth" (use_plugin trace with_auth).1).0 ≡ some (dependency_in_use "trace")
unfolding use_plugin unuse_plugin validate_plugin find_name find_plugin truthy includes get set
held_by_trace = refl

removed_in_reverse : (unuse_plugin "auth" with_auth).1.store.world ≡ 0 ∷ 1 ∷ 2 ∷ []
unfolding use_plugin unuse_plugin validate_plugin find_name find_plugin truthy includes get set
    cleanup run_cleanups once reversed
removed_in_reverse = refl

auth_named : auth.name ≢ ""
auth_named = λ e. let same : false ≡ true = (eq_iff auth.name "").1 e in ground (arith, same)

trace_named : trace.name ≢ ""
trace_named = λ e. let same : false ≡ true = (eq_iff trace.name "").1 e in ground (arith, same)

-- A plugin without a name does not hold what it requires.
abbrev nameless : Plugin Log ℕ
nameless = record {
  name = "";
  requires = "auth" ∷ [];
  conflicts = [];
  install = λ s. returns [] none s;
}

abbrev left_nameless : Client Log ℕ
left_nameless = (unuse_plugin "auth" (use_plugin nameless with_auth).1).1

not_held_by_nameless :
    (has_plugin "" left_nameless.installed_plugins ≡ true)
    × (has_plugin "auth" left_nameless.installed_plugins ≡ false)
unfolding use_plugin unuse_plugin validate_plugin find_name find_plugin truthy includes get set
    delete
not_held_by_nameless = (refl, refl)

calls-Consistent_example :
    Consistent (calls (uses auth ∷ uses trace ∷ unuses "auth" ∷ []) new_client).installed_plugins
unfolding includes
calls-Consistent_example =
    calls-Consistent (uses auth ∷ uses trace ∷ unuses "auth" ∷ []) clean
      ((auth_named, refl), ((trace_named, refl), (tt, tt)))

use_plugin_throws_example :
    let used = use_plugin broken with_auth in
    (used.0 ≡ some (thrown 9))
    × (used.1.installed_plugins ≡ with_auth.installed_plugins)
    × (used.1.store.world ≡ undone (logs 5 ∷ logs_and_throws 6 ∷ logs 7 ∷ []) [])
unfolding use_plugin validate_plugin find_name find_plugin truthy includes get set
use_plugin_throws_example =
    use_plugin_throws broken with_auth (logs 5 ∷ logs_and_throws 6 ∷ logs 7 ∷ []) 9 with_auth.store
      refl refl refl
      (
        refl,
        ((λ e. omega (arith, e)), ((λ e. omega (arith, e)), tt)),
        (refl, ((λ e. omega (arith, e)), tt), (refl, tt, tt)),
      )
