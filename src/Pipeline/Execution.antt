-- ===== src/Pipeline/Execution.antt =====
-- `executeLifecycle` and `executeConfigured` of src/core/Pipeline.ts. The times of the context, the raw
-- response that it preserves and its `background` are not modelled. The source returns what `fail` and `recoverFromError`
-- give without waiting for it, so that a part of them that is behind a promise runs after the settled hooks.
-- Here the whole of them runs before: they are taken to end without a promise, as they do where the schema,
-- the hooks and the interceptors that they run are synchronous.
use request.Base.{ℕ, Bool, ◌||◌, Option, none, some, if◌then◌else◌}
use request.Hooks.Runners.{
  Result, ok, err, Context, with_slots, has_response, run_hooks, run_settled_hooks,
  run_interceptors,
}
use request.Pipeline.Parts.{Client, Done, is_active, new_context, with_config, done}
use request.Pipeline.Responses.{fail, process_response, or_fail}
use request.Pipeline.Attempts.{attempts}

module _ {W C R E : Type 0} (k : Client W C R E) where
  -- The request's configuration when its attempts begin, or what stops it before.
  abbrev pub Prepared : Type 0
  Prepared = Option E × Context C R E × W

  unfoldable pub hooked : Context C R E → W → Prepared
  hooked c w =
      let ran = run_hooks k.request_hooks c w in
      let next = with_slots c ran.0 in
      elim ran.1 [
        | some e ↦ (some e, next, ran.2)
        | none ↦ (k.validate next.slots.config, next, ran.2)
      ]

  unfoldable pub validated : Context C R E → W → Prepared
  validated c w = elim (k.validate c.slots.config) [
    | some e ↦ (some e, c, w)
    | none ↦ if is_active k.request_hooks then hooked c w else (none, c, w)
  ]

  unfoldable pub prepare : C → W → Prepared
  prepare config w =
      let c = new_context config in
      let ran = run_interceptors (k.aborted config) k.request_interceptors config w in
      if is_active k.request_interceptors
      then (elim ran.0 [
        | err e ↦ (some e, c, ran.1)
        | ok next ↦ validated (with_config c next) ran.1
      ])
      else validated c w

  unfoldable pub execute_body : ℕ → C → W → Option (Done W C R E)
  execute_body fuel config w =
      let (stopped, c, w') = prepare config w in
      elim stopped [
        | some e ↦ some (fail k c e w')
        | none ↦
            if has_response c.slots
            then some (or_fail k (process_response k c w'))
            else attempts k fuel c w'
      ]

  -- The settled hooks see the context, behind a recovery that ended without a promise, and leave the result.
  unfoldable pub settle : Done W C R E → Done W C R E
  settle d =
      let ran = run_settled_hooks k.settled_hooks d.context d.world in
      done d.result (with_slots d.context ran.0) ran.1

  unfoldable pub execute_lifecycle : ℕ → C → W → Option (Done W C R E)
  execute_lifecycle fuel config w = elim (execute_body fuel config w) [
    | none ↦ none
    | some d ↦ some (settle d)
  ]

  -- `hooks.active`, or an interceptor.
  abbrev pub is_configured : Bool
  is_configured =
      is_active k.request_hooks
      || is_active k.transport_hooks
      || is_active k.response_hooks
      || is_active k.error_hooks
      || is_active k.settled_hooks
      || is_active k.retry_hooks
      || is_active k.request_interceptors
      || is_active k.response_interceptors
      || is_active k.error_interceptors

  unfoldable pub send_directly : C → W → Result E (Option R) × W
  send_directly config w = elim (k.validate config) [
    | some e ↦ (err e, w)
    | none ↦ elim (k.aborted config w) [
      | some e ↦ (err e, w)
      | none ↦
          let sent = k.send config w in (elim sent.0 [ err e ↦ err e | ok r ↦ ok (some r) ], sent.1)
    ]
  ]

  unfoldable pub execute_configured : ℕ → C → W → Option (Result E (Option R) × W)
  execute_configured fuel config w =
      if k.has_schema config || is_configured
      then elim (execute_lifecycle fuel config w) [
        | none ↦ none
        | some d ↦ some (d.result, d.world)
      ]
      else some (send_directly config w)
