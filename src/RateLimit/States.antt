-- ===== src/RateLimit/States.antt =====
-- What `getState` of src/plugins/rateLimitPlugin.ts tells of the requests to come.
use request.Base.{
  ℕ, ◌≤◌, ◌≡◌, refl, inl, inr, Bool, true, false, ◌&&◌, List, [], ◌∷◌, String, arith, length, ltb,
  ◌==◌, Option-cases,
}
use request.Base.Dict.{get}
use request.Limits.{Timeout}
use request.RateLimit.State.{
  Options, QueueEntry, prune_timestamps, expired_count, on_transport, Answer, admitted, is_empty,
}
use request.RateLimit.Table.{Limiter, get_record, create_state, get_state, transport}

abbrev pub is_admitted : Answer → Bool
is_admitted admitted = true
is_admitted _ = false

is_empty-length {ℓ} : {A : Type ℓ} (xs : List A) → is_empty xs ≡ (length xs == 0)
is_empty-length [] = refl
is_empty-length (x ∷ xs) = ground arith

module _ (o : Options) (positive : 1 ≤ o.max_requests) where
  -- If `maxRequests` is at least one, a request passes at once exactly if `getState` would tell, at the
  -- same time, that permits remain and nobody waits.
  pub transport-get_state :
      (live : Bool) (key : String) (e : QueueEntry) (stopped : Bool) (timeout : Timeout) (now : ℕ)
      (l : Limiter)
      → let s = (get_state o key now l).0 in
        is_admitted (transport o live key e stopped timeout now l).0
        ≡ (s.queued == 0 && ltb 0 s.remaining)
  unfolding transport get_record get_state create_state on_transport prune_timestamps expired_count
  transport-get_state live key e stopped timeout now l = elim (Option-cases (get key l.records)) [
    | inl fresh ↦ ground (arith, fresh)
    | inr (r, there) ↦
        ground (arith, there, is_empty-length (prune_timestamps now o.interval r).queue)
  ]
