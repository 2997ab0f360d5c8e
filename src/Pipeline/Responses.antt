-- ===== src/Pipeline/Responses.antt =====
-- The ways of src/core/Pipeline.ts with a response and with an error.
use request.Base.{true, false, Option, none, some, if◌then◌else◌}
use request.Hooks.Runners.{Result, ok, err, Context, with_slots, run_hooks, run_interceptors}
use request.Pipeline.Parts.{
  Client, Done, Notified, is_active, with_response, with_error, done, unless_err, and_then,
}

module _ {W C R E : Type 0} (k : Client W C R E) where
  abbrev pub not_aborted : W → Option E
  not_aborted w = none

  unfoldable pub complete_failure : Context C R E → E → W → Done W C R E
  complete_failure c e w =
      let ran = run_interceptors not_aborted k.error_interceptors e w in
      if is_active k.error_interceptors
      then and_then ran.0 c ran.1 (λ changed. done (err changed) (with_error c changed) ran.1)
      else done (err e) c w

  unfoldable pub notify_error : Context C R E → E → W → Notified W C R E
  notify_error c e w =
      let noted = with_error c e in
      let ran = run_hooks k.error_hooks noted w in
      let kept = with_slots noted ran.0 in
      elim ran.1 [
        | none ↦ record { succeeded = true; error = e; context = kept; world = ran.2 }
        | some thrown ↦ record {
          succeeded = false;
          error = thrown;
          context = with_error kept thrown;
          world = ran.2;
        }
      ]

  unfoldable pub fail : Context C R E → E → W → Done W C R E
  fail c e w = let n = notify_error c e w in complete_failure n.context n.error n.world

  unfoldable pub process_response_interceptors : Context C R E → W → Done W C R E
  process_response_interceptors c w =
      let ran =
        run_interceptors (k.aborted c.slots.config) k.response_interceptors c.slots.response w in
      if is_active k.response_interceptors
      then and_then ran.0 c ran.1 (λ r. done (ok r) (with_response c r) ran.1)
      else done (ok c.slots.response) c w

  unfoldable pub validate_response_schema : Context C R E → W → Result E (Context C R E) × W
  validate_response_schema c w = elim (k.has_schema c.slots.config) [
    | false ↦ (ok c, w)
    | true ↦ elim c.slots.response [
      | none ↦ (ok c, w)
      | some r ↦
          let ran = k.validate_schema c.slots.config r w in
          (elim ran.0 [ err e ↦ err e | ok value ↦ ok (with_response c (some value)) ], ran.1)
    ]
  ]

  unfoldable pub process_validated_response : Context C R E → W → Done W C R E
  process_validated_response c w =
      let valid = validate_response_schema c w in
      unless_err (k.aborted c.slots.config w) c w
        (and_then valid.0 c valid.1 (λ v. process_response_interceptors v valid.1))

  unfoldable pub process_response : Context C R E → W → Done W C R E
  process_response c w =
      let ran = run_hooks k.response_hooks c w in
      let next = with_slots c ran.0 in
      unless_err ran.1 next ran.2 (process_validated_response next ran.2)

  -- A failure of the lifecycle outside the attempts.
  abbrev pub or_fail : Done W C R E → Done W C R E
  or_fail d = elim d.result [ ok r ↦ d | err e ↦ fail d.context e d.world ]

  abbrev pub without_fallback : Done W C R E → Done W C R E
  without_fallback d = record d {
    context = record (d.context) { slots = record (d.context.slots) { fallback_response = none } };
  }

  unfoldable pub recover_from_error : Context C R E → W → Done W C R E
  recover_from_error c w =
      let recovered = record (with_response c c.slots.fallback_response) { error = none } in
      without_fallback (or_fail (process_response recovered w))
