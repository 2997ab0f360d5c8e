-- ===== src/Hooks/Registry.antt =====
-- `InterceptorManager` of src/interceptors/InterceptorManager.ts, less the run of the interceptors, and
-- `HookRegistry` of src/interceptors/PluginHooks.ts.
use request.Base.{ℕ, ◌+◌, List, [], ◌∷◌, ◌++◌, map, if◌then◌else◌}
use request.Hooks.Entries.{Entry, Priority, normalize_priority, sort, delete, has}

pub record InterceptorManager {ℓ} (A : Type ℓ) : Type ℓ where
  pub next_id : ℕ
  pub interceptors : List (Entry A)
  pub ordered_interceptors : List (Entry A)

module _ {ℓ} {A : Type ℓ} where
  abbrev pub no_interceptors : InterceptorManager A
  no_interceptors = record { next_id = 0; interceptors = []; ordered_interceptors = [] }

  abbrev pub refresh_order : InterceptorManager A → InterceptorManager A
  refresh_order m = record m { ordered_interceptors = sort m.interceptors }

  abbrev pub entry : ℕ → A → Priority → Entry A
  entry id value p = record { id = id; value = value; priority = normalize_priority p }

  unfoldable pub use_interceptor : A → Priority → InterceptorManager A → InterceptorManager A
  use_interceptor a p m = refresh_order (record m {
    next_id = m.next_id + 1;
    interceptors = m.interceptors ++ (entry m.next_id a p ∷ []);
  })

  unfoldable pub eject : ℕ → InterceptorManager A → InterceptorManager A
  eject i m =
      if has i m.interceptors
      then refresh_order (record m { interceptors = delete i m.interceptors })
      else m

  unfoldable pub clear : InterceptorManager A → InterceptorManager A
  clear m = record m { interceptors = []; ordered_interceptors = [] }

-- A run of operations on a manager.
pub data Operation {ℓ} (A : Type ℓ) : Type ℓ where
  using : A → Priority → Operation A
  ejecting : ℕ → Operation A
  clearing : Operation A

module _ {ℓ} {A : Type ℓ} where
  abbrev pub operate : Operation A → InterceptorManager A → InterceptorManager A
  operate (using a p) m = use_interceptor a p m
  operate (ejecting i) m = eject i m
  operate clearing m = clear m

  unfoldable pub operate_all : List (Operation A) → InterceptorManager A → InterceptorManager A
  operate_all [] m = m
  operate_all (o ∷ os) m = operate_all os (operate o m)

pub record HookRegistry {ℓ} (A : Type ℓ) : Type ℓ where
  pub next_id : ℕ
  pub hooks : List (Entry A)
  pub ordered_hooks : List A

module _ {ℓ} {A : Type ℓ} where
  abbrev pub no_hooks : HookRegistry A
  no_hooks = record { next_id = 0; hooks = []; ordered_hooks = [] }

  abbrev pub hook_of : Entry A → A
  hook_of x = x.value

  abbrev pub refresh_hooks : HookRegistry A → HookRegistry A
  refresh_hooks r = record r { ordered_hooks = map hook_of (sort r.hooks) }

  -- The disposer that `register` returns is `dispose` of the id `next_id`.
  unfoldable pub register : A → Priority → HookRegistry A → HookRegistry A
  register a p r =
      refresh_hooks
        (record r { next_id = r.next_id + 1; hooks = r.hooks ++ (entry r.next_id a p ∷ []) })

  unfoldable pub dispose : ℕ → HookRegistry A → HookRegistry A
  dispose i r = if has i r.hooks then refresh_hooks (record r { hooks = delete i r.hooks }) else r
