-- ===== src/Concurrency/Tests.antt =====
-- Runs of the limiter of src/plugins/concurrencyPlugin.ts on concrete histories.
use request.Base.{◌≡◌, refl, true, false, List, [], ◌∷◌, none, some, finite}
use request.Base.Dict.{get, set, delete}
use request.Base.Sweep.{sweep}
use request.Limits.{
  normalize_positive_integer, normalize_non_negative_integer, normalize_duration, normalize_key,
  trim_start, trim_end, is_white,
}
use request.Concurrency.State.{
  PluginOptions, normalize_options, Request, Limiter, Admission, resolved, initial, get_record,
  trim_records, gate, on_request, on_settled, find_admission, remove_admission, release_admission,
  is_active,
}
use request.Concurrency.Teardown.{
  Call, installs, requests, settles, tears_down, step, run, install, get_state, teardown,
  drop_waiters, release_all, find_own, without,
}
use request.Concurrency.Invariant.{Inv}
use request.Concurrency.Histories.{AreTimely, run_limiter-Inv, run_limiter-on_settled}

-- One permit for a key.
abbrev single : PluginOptions
single = record {
  max_concurrent = some (finite 1 0);
  max_queue = none;
  queue_timeout = none;
  max_keys = none;
}

abbrev to_api : Request
to_api = record { enabled = true; key = " api"; queue_timeout = none; signal_aborted = false }

abbrev two_requests : List Call
two_requests = installs ∷ requests 0 1 to_api ∷ requests 0 2 to_api ∷ []

abbrev handed_over : List Call
handed_over = installs ∷ requests 0 1 to_api ∷ requests 0 2 to_api ∷ settles 0 1 ∷ []

abbrev after : List Call → Limiter
after cs = run (normalize_options single) initial cs

-- The second request waits, and gets the permit of the first.
states :
    (get_state "api" (after two_requests) ≡ (1, 1))
    × (get_state "api" (after handed_over) ≡ (1, 0))
    × ((after handed_over).outcomes ≡ resolved (record { owner = 0; context = 2 }) ∷ [])
unfolding get_state run step install on_request get_record trim_records sweep gate on_settled
    find_admission remove_admission release_admission is_active normalize_options
    normalize_positive_integer normalize_non_negative_integer normalize_duration normalize_key
    trim_start trim_end is_white get set delete
states = (refl, refl, refl)

handed_over-AreTimely : AreTimely (normalize_options single) initial handed_over
unfolding run step install on_request get_record trim_records sweep gate on_settled find_admission
    remove_admission release_admission is_active normalize_options normalize_positive_integer
    normalize_non_negative_integer normalize_duration normalize_key trim_start trim_end is_white get
    set delete
handed_over-AreTimely = (tt, (refl, (refl, (tt, tt))))

run_limiter-Inv_example : Inv (normalize_options single) (after handed_over)
run_limiter-Inv_example = run_limiter-Inv single handed_over handed_over-AreTimely

abbrev first : Admission
first = record { owner = 0; context = 1; record_ref = 0 }

first_held :
    (find_admission 0 1 (after two_requests).admissions ≡ some first)
    × AreTimely (normalize_options single) initial two_requests
unfolding run step install on_request get_record trim_records sweep gate find_admission is_active
    normalize_options normalize_positive_integer normalize_non_negative_integer normalize_duration
    normalize_key trim_start trim_end is_white get set delete
first_held = (refl, (tt, (refl, (refl, tt))))

run_limiter-on_settled_example :
    let l = after two_requests in
    on_settled (normalize_options single) 0 1 l
    ≡ release_admission
        (normalize_options single)
        0
        (record l { admissions = remove_admission 0 1 l.admissions })
run_limiter-on_settled_example =
    run_limiter-on_settled single two_requests 0 1 first first_held.1 first_held.0

-- A permit that a hook takes behind the teardown of its installation is never given back.
permit_lost :
    get_state "api"
      (after (installs ∷ installs ∷ tears_down 0 ∷ requests 0 1 to_api ∷ settles 0 1 ∷ []))
    ≡ (1, 0)
unfolding get_state run step install on_request get_record trim_records sweep gate on_settled
    find_admission remove_admission release_admission is_active normalize_options
    normalize_positive_integer normalize_non_negative_integer normalize_duration normalize_key
    trim_start trim_end is_white get set delete teardown drop_waiters release_all find_own without
permit_lost = refl
