-- ===== src/Hooks/Scope.antt =====
-- The registrations of one plugin, src/plugins/PluginScope.ts: `createScopedInterceptor`.
use request.Base.{ℕ, Bool, false, ◌||◌, List, [], ◌∷◌, if◌then◌else◌, ◌==◌}
use request.Hooks.Entries.{Priority, unset}
use request.Hooks.Registry.{InterceptorManager, use_interceptor, eject, Operation, operate}

pub record ScopedInterceptor {ℓ} (A : Type ℓ) : Type ℓ where
  pub manager : InterceptorManager A
  pub ids : List ℕ

abbrev pub contains : ℕ → List ℕ → Bool
contains i [] = false
contains i (j ∷ js) = j == i || contains i js

abbrev pub without : ℕ → List ℕ → List ℕ
without i [] = []
without i (j ∷ js) = let rest = without i js in if j == i then rest else j ∷ rest

-- `options.priority ?? pluginPriority`
abbrev pub or_priority : Priority → Priority → Priority
or_priority unset plugin = plugin
or_priority p plugin = p

module _ {ℓ} {A : Type ℓ} where
  -- An id that `use` returns is new, so `add` puts it in.
  unfoldable pub scoped_use : Priority → A → Priority → ScopedInterceptor A → ScopedInterceptor A
  scoped_use plugin a p s = record {
    manager = use_interceptor a (or_priority p plugin) s.manager;
    ids = s.manager.next_id ∷ s.ids;
  }

  unfoldable pub scoped_eject : ℕ → ScopedInterceptor A → ScopedInterceptor A
  scoped_eject i s = record { manager = eject i s.manager; ids = without i s.ids }

  unfoldable pub eject_all : List ℕ → InterceptorManager A → InterceptorManager A
  eject_all [] m = m
  eject_all (i ∷ is) m = eject_all is (eject i m)

  -- The cleanup that it pushes.
  unfoldable pub clean_up : ScopedInterceptor A → ScopedInterceptor A
  clean_up s = record { manager = eject_all s.ids s.manager; ids = [] }

-- A run of the plugin's calls and of the calls of all others.
pub data ScopedOperation {ℓ} (A : Type ℓ) : Type ℓ where
  own_use : A → Priority → ScopedOperation A
  own_eject : ℕ → ScopedOperation A
  foreign : Operation A → ScopedOperation A

module _ {ℓ} {A : Type ℓ} (plugin : Priority) where
  abbrev pub scoped_operate : ScopedOperation A → ScopedInterceptor A → ScopedInterceptor A
  scoped_operate (own_use a p) s = scoped_use plugin a p s
  scoped_operate (own_eject i) s = scoped_eject i s
  scoped_operate (foreign o) s = record s { manager = operate o s.manager }

  unfoldable pub scoped_operate_all :
      List (ScopedOperation A) → ScopedInterceptor A → ScopedInterceptor A
  scoped_operate_all [] s = s
  scoped_operate_all (o ∷ os) s = scoped_operate_all os (scoped_operate o s)
