-- ===== src/Hooks/Tests.antt =====
-- Examples for the managers of src/interceptors/ and the scopes of src/plugins/PluginScope.ts.
use request.Base.{ℕ, ◌+◌, true, false, List, [], ◌∷◌, none, some, map, ◌≡◌, refl}
use request.Hooks.Entries.{
  unset, nan, finite, rank_of_zero, normalize_priority, sort, find, insert, delete,
}
use request.Hooks.Registry.{
  InterceptorManager, no_interceptors, Operation, using, ejecting, clearing, operate_all,
  use_interceptor, eject, clear, no_hooks, register, dispose, hook_of,
}
use request.Hooks.RawResponses.{ResponseHooks, no_response_hooks, on_response, dispose_response}
use request.Hooks.Order.{Ordered}
use request.Hooks.Registered.{nothing, note_all, IsInOrder, operate_all-Registrations}
use request.Hooks.Scope.{
  ScopedOperation, own_use, own_eject, foreign, scoped_use, scoped_eject, eject_all,
  scoped_operate_all, clean_up,
}
use request.Hooks.Cleanup.{note_foreign_all, starts, clean_up-foreign}

abbrev three : List (Operation ℕ)
three =
    using 10 nan
    ∷ using 11 (finite (rank_of_zero + 5))
    ∷ using 12 unset
    ∷ ejecting 0
    ∷ using 13 (finite rank_of_zero)
    ∷ []

abbrev order_of : InterceptorManager ℕ → List ℕ
order_of m = map hook_of m.ordered_interceptors

three_order : order_of (operate_all three no_interceptors) ≡ 11 ∷ 12 ∷ 13 ∷ []
unfolding operate_all use_interceptor eject normalize_priority sort insert delete find
three_order = refl

cleared_order : order_of (operate_all (clearing ∷ []) (operate_all three no_interceptors)) ≡ []
unfolding operate_all clear
cleared_order = refl

registry_order :
    (dispose {A = ℕ} 1 (register 8 unset (register 7 (finite 3) no_hooks))).ordered_hooks ≡ 7 ∷ []
unfolding register dispose normalize_priority sort insert delete find
registry_order = refl

operate_all-Registrations_example :
    IsInOrder (operate_all three no_interceptors).ordered_interceptors
    × ((i : ℕ)
        → find i (operate_all three no_interceptors).ordered_interceptors
          ≡ (note_all three nothing).at i)
operate_all-Registrations_example = operate_all-Registrations three

abbrev shared : List (ScopedOperation ℕ)
shared =
    foreign (using 10 nan)
    ∷ own_use 11 unset
    ∷ own_use 12 nan
    ∷ own_eject 1
    ∷ foreign (using 13 unset)
    ∷ []

shared_order :
    order_of (scoped_operate_all (finite (rank_of_zero + 1)) shared starts).manager
    ≡ 10 ∷ 12 ∷ 13 ∷ []
unfolding scoped_operate_all scoped_use scoped_eject use_interceptor eject normalize_priority sort
    insert delete find
shared_order = refl

cleaned_order :
    order_of (clean_up (scoped_operate_all (finite (rank_of_zero + 1)) shared starts)).manager
    ≡ 10 ∷ 13 ∷ []
unfolding clean_up eject_all scoped_operate_all scoped_use scoped_eject use_interceptor eject
    normalize_priority sort insert delete find
cleaned_order = refl

clean_up-foreign_example :
    let ordered =
      (clean_up (
        scoped_operate_all
          (finite (rank_of_zero + 1))
          shared
          starts)).manager.ordered_interceptors in
    Ordered ordered × ((i : ℕ) → find i ordered ≡ (note_foreign_all shared nothing).at i)
clean_up-foreign_example = clean_up-foreign (finite (rank_of_zero + 1)) shared

-- Of three response hooks one needs no raw response, and one is disposed of twice.
abbrev three_response_hooks : ResponseHooks ℕ
three_response_hooks =
    on_response 3 unset (some false)
      (on_response 2 unset none (on_response 1 unset (some true) no_response_hooks))

raw_count : (dispose_response 1 (dispose_response 1 three_response_hooks)).raw_response_hooks ≡ 1
unfolding on_response dispose_response register dispose sort insert find delete normalize_priority
raw_count = refl
