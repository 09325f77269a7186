-- ===== src/Api/Refines.antt =====
-- Each call of the routes of src/api has the effect of one request to the engine.
pub mod Handlers
use qrib.Api.Refines.Handlers.{
  complete-effect, resolve-effect, operator_refund-effect, quote-effect, authorize-effect,
  execute-effect, cancel-effect, refund-effect, webhook-effect,
}
use qrib.Api.Idempotency.{Site, idempotency, Endpoint, has_key}
use qrib.Engine.Common.{truthy, is_text}
use qrib.Engine.Execute.{execute}
use qrib.Api.Changes.Handlers.{
  Runs-shape, payment_errors-rel, final_state, show-rel, tasks-rel, list-rel, task-rel, qris-rel,
}
use qrib.Engine.Serve.{serve_one, after, execute_it}
use qrib.Api.Operator.{
  complete_handler, resolve_handler, operator_refund_handler, ReportFields, ResolveFields,
  RefundFields, read_report, refund_hash, reason_of, reference_in, cost_of, cost_in, exit_of,
  authed, tasks_handler, task_handler,
}
use qrib.Api.Callbacks.{webhook_handler, EventFields, no_event_fields, read_event, qris_handler}
use qrib.Api.Payments.{
  quote_handler, execute_handler, cancel_handler, QuoteFields, shaped, faulty_settlement,
  no_quote_fields, bigint_or_null, refund_handler, authorize_handler, show_handler, list_handler,
}
use qrib.Api.Server.{
  Server, post_quote, post_execute, post_cancel, post_webhook, OperatorAction, resolve_payment,
  refund_payment, answer_call, act, post_authorize, post_refund, on_world, keyed, unless_refused,
  HttpCall, list_tasks_by, get_payment, show_task, post_qris, internal, get_payments,
}
use qrib.Db.{Act, Intent, World, pure, Runs-pure, or_raise, plain_error, type_error, ◌>>=◌}
use qrib.Api.Answers.{
  or_err_json, or_rethrow, Answer, Body, fields_or, fields_of, refuse, reason_required,
}
use qrib.Common.{
  none, Option, Text, Bool, true, false, ◌≡◌, if◌then◌else◌, ◌∙◌, Bool-cases, codes, inr, inl, refl,
  Option-cases, not, first, is_some, ◌&&◌, or_else, some, [],
}
use qrib.Api.Effects.{
  Effect, perform, effect_of, is_admitted, is_new, after-catch, after-bind, action_effect,
  after_raise, quote_effect, execute_effect, after_case, asks, any_providers, same, effect_case,
}

module _ (server : Server) where
  -- The state after a call, if its handler has such an effect.
  abbrev effect_if : Bool → Effect → World → World
  effect_if b effect w = if b then perform server.cfg effect w else w

  world-refines :
      (m : Act Answer) (f : Effect) (b : Bool) (s : Site)
      → after m s.world ≡ effect_if b f s.world
      → (on_world m s).1.world ≡ effect_if b f s.world
  world-refines m f b s h = final_state (m s.world) ∙ h

  keyed-refines :
      (e : Endpoint) (m : Act Answer) (f : Effect) (s : Site)
      → after m s.world ≡ perform server.cfg f s.world
      → (keyed e m s).1.world ≡ effect_if (is_new e s) f s.world
  unfolding idempotency
  keyed-refines e m f s h = elim (Bool-cases (truthy e.key)) [
    | inr none_given ↦ rw none_given refl
    | inl given ↦ elim (Option-cases (first (has_key (or_else e.key [])) s.keys)) [
      | inl new ↦ rw (given, new) (final_state (m s.world) ∙ h)
      | inr (row, known) ↦ rw (given, known) refl
    ]
  ]

  -- Both branches leave the tables alone.
  idle : (b : Bool) (w : World) → w ≡ effect_if b Effect.no_effect w
  idle true w = refl
  idle false w = refl

  act-refines :
      (e : Endpoint) (action : OperatorAction) (s : Site)
      → (act server e action s).1.world
        ≡ effect_if (is_new e s) (action_effect server action) s.world
  unfolding act
  act-refines e (list_tasks_by status) s =
      world-refines (tasks_handler status) Effect.no_effect (is_new e s) s
        ((tasks-rel {c = same} status).at s.world ∙ idle (is_new e s) s.world)
  act-refines e (show_task id) s =
      world-refines (task_handler id) Effect.no_effect (is_new e s) s
        ((task-rel {c = same} id).at s.world ∙ idle (is_new e s) s.world)
  act-refines e (OperatorAction.complete_task id body) s =
      keyed-refines e (complete_handler server.cfg server.env_providers id body) _ s
        (complete-effect server id body s.world)
  act-refines e (resolve_payment id body) s =
      keyed-refines e (resolve_handler id body) _ s (resolve-effect server id body s.world)
  act-refines e (refund_payment id body) s =
      keyed-refines e (operator_refund_handler id body) _ s
        (operator_refund-effect server id body s.world)

  unless_refused-refines :
      (o : Option Answer) (next : Site → Answer × Site) (b : Bool) (f : Effect) (s : Site)
      → (next s).1.world ≡ effect_if b f s.world
      → (unless_refused o next s).1.world ≡ effect_if (not (is_some o) && b) f s.world
  unless_refused-refines none next b f s h = h
  unless_refused-refines (some a) next b f s h = refl

  -- A call of any route leaves the tables exactly as the one request leaves them that the call
  -- stands for: authorize, cancel, execute, refund, a webhook, an operator's result, a review or a
  -- new quote. A call that only reads, whose body is not fit, that has no key or one that is known,
  -- or, on an operator's route, no valid signature, leaves them as they are.
  pub answer_call-refines :
      (e : Endpoint) (call : HttpCall) (s : Site)
      → (answer_call server e call s).1.world ≡ (
          if is_admitted server e call s
          then perform server.cfg (effect_of server call) s.world
          else s.world)
  unfolding answer_call
  answer_call-refines e (post_quote body) s =
      keyed-refines e (quote_handler server.cfg server.sha256_hex server.env_providers body) _ s
        (quote-effect server body s.world)
  answer_call-refines e (post_authorize id) s =
      keyed-refines e (authorize_handler id) (effect_of server (post_authorize id)) s
        (authorize-effect server id s.world)
  answer_call-refines e (post_execute id body) s =
      keyed-refines e (execute_handler server.cfg server.sha256_hex server.env_providers id body) _
        s (execute-effect server id body s.world)
  answer_call-refines e (post_cancel id body) s =
      keyed-refines e (cancel_handler id body) _ s (cancel-effect server id body s.world)
  answer_call-refines e (post_refund id) s =
      keyed-refines e (refund_handler id) (effect_of server (post_refund id)) s
        (refund-effect server id s.world)
  answer_call-refines e (get_payment id) s =
      world-refines (show_handler id) Effect.no_effect (is_new e s) s
        ((show-rel {c = same} id).at s.world ∙ idle (is_new e s) s.world)
  answer_call-refines e get_payments s =
      world-refines list_handler Effect.no_effect (is_new e s) s
        ((list-rel {c = same}).at s.world ∙ idle (is_new e s) s.world)
  answer_call-refines e (post_webhook provider body) s =
      world-refines (webhook_handler provider body) _ true s
        (webhook-effect server provider body s.world)
  answer_call-refines e (post_qris body) s =
      world-refines (qris_handler body) Effect.no_effect (is_new e s) s
        ((qris-rel {c = same} body).at s.world ∙ idle (is_new e s) s.world)
  answer_call-refines e (internal c action) s =
      unless_refused-refines (authed server.hmac_sha256 server.secret c) (act server e action)
        (is_new e s) (action_effect server action) s (act-refines e action s)
