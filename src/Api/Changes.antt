-- ===== src/Api/Changes.antt =====
-- A relation that the writes of the engine respect holds between the states before and after every
-- sequence of calls of the routes of src/api.
pub mod Handlers
use qrib.States.{refunded, expired, failed, authorized}
use qrib.Engine.Payment.{exit_state}
use qrib.Engine.Changes.Steps.{Runs-execute}
use qrib.Engine.Execute.{execute}
use qrib.Engine.Quote.{QuoteInput, create_quote}
use qrib.Store.{list_intents}
use qrib.Api.Operator.{
  complete_handler, resolve_handler, operator_refund_handler, tasks_handler, ReportFields,
  ResolveFields, RefundFields, task_handler, authed,
}
use qrib.Api.Callbacks.{webhook_handler, EventFields, qris_handler}
use qrib.Engine.Faulty.{faulty_poll}
use qrib.Engine.Providers.{Providers}
use qrib.Engine.Common.{truthy, is_text}
use qrib.Engine.Changes.Writes.{Runs-known_intent, Runs-latest_attempts, Respects}
use qrib.Db.{
  Change, Fault, Act, Runs, World, Runs-catch, Runs-bind, Intent, Result, Runs-pure, payment_error,
  Runs-raise, Runs-gets, ok, err, ◌>>=◌, or_raise, Runs-or_raise, Runs-option_case, plain_error,
  pure, Runs-if, api,
}
use qrib.Common.{
  Bool-cases, inr, inl, Option-cases, first, or_else, ◌≡◌, subst, sym, codes, if◌then◌else◌, refl,
  arith, ◌∷◌, Text, Bool, true, false, none, some, Option, List, [],
}
use qrib.Api.Answers.{Answer, or_err_json, or_rethrow, answered, payment_errors_only, final, Body}
use qrib.Api.Idempotency.{idempotency, Endpoint, Site, has_key}
use qrib.Api.Server.{
  answer_calls, answer_call, act, on_world, keyed, HttpCall, Server, unless_refused, OperatorAction,
  post_quote, list_tasks_by, post_authorize, show_task, post_execute, complete_task, post_cancel,
  resolve_payment, post_refund, refund_payment, get_payment, post_webhook, post_qris, internal,
  get_payments,
}
use qrib.Api.Payments.{
  shaped, shape, show_handler, execute_handler, cancel_handler, quote_handler, refund_handler,
  authorize_handler, list_handler, QuoteFields, quote_input, faulty_settlement,
}
use qrib.Engine.Serve.Keeps.{AllowsAll}
use qrib.Engine.Changes.Calls.{
  Runs-authorize, Runs-refund, Runs-cancel, Runs-handle_webhook, Runs-complete_operator_task,
  Runs-resolve_review,
}
use qrib.Api.Changes.Handlers.{
  AllowsServer, payment_errors-rel, answered-rel, keyed-rel, world-rel, quote-rel, authorize-rel,
  chosen-rel, execute-rel, cancel-rel, refund-rel, webhook-rel, complete-rel, resolve-rel,
  operator_refund-rel, tasks-rel, task-rel, show-rel, list-rel, qris-rel,
}

module _ {c : Change} (server : Server) (a : AllowsServer c server) where
  act-rel :
      (e : Endpoint) (action : OperatorAction) (s : Site)
      → c.rel s.world (act server e action s).1.world
  unfolding act
  act-rel e (list_tasks_by status) s = world-rel {c = c} _ (tasks-rel status) s
  act-rel e (show_task id) s = world-rel {c = c} _ (task-rel id) s
  act-rel e (complete_task id body) s = keyed-rel {c = c} e _ (complete-rel server a id body) s
  act-rel e (resolve_payment id body) s = keyed-rel {c = c} e _ (resolve-rel server a id body) s
  act-rel e (refund_payment id body) s =
      keyed-rel {c = c} e _ (operator_refund-rel server a id body) s

  unless_refused-rel :
      (o : Option Answer) (next : Site → Answer × Site) (s : Site)
      → c.rel s.world (next s).1.world
      → c.rel s.world (unless_refused o next s).1.world
  unless_refused-rel none next s h = h
  unless_refused-rel (some x) next s h = c.rel_refl s.world

  answer_call-rel :
      (e : Endpoint) (call : HttpCall) (s : Site)
      → c.rel s.world (answer_call server e call s).1.world
  unfolding answer_call
  answer_call-rel e (post_quote body) s = keyed-rel {c = c} e _ (quote-rel server a body) s
  answer_call-rel e (post_authorize id) s = keyed-rel {c = c} e _ (authorize-rel server a id) s
  answer_call-rel e (post_execute id body) s =
      keyed-rel {c = c} e _ (execute-rel server a id body) s
  answer_call-rel e (post_cancel id body) s = keyed-rel {c = c} e _ (cancel-rel server a id body) s
  answer_call-rel e (post_refund id) s = keyed-rel {c = c} e _ (refund-rel server a id) s
  answer_call-rel e (get_payment id) s = world-rel {c = c} _ (show-rel id) s
  answer_call-rel e get_payments s = world-rel {c = c} _ (list-rel) s
  answer_call-rel e (post_webhook provider body) s =
      world-rel {c = c} _ (webhook-rel server a provider body) s
  answer_call-rel e (post_qris body) s = world-rel {c = c} _ (qris-rel body) s
  answer_call-rel e (internal call action) s =
      unless_refused-rel (authed server.hmac_sha256 server.secret call) (act server e action) s
        (act-rel e action s)

  pub answer_calls-rel :
      (calls : List (Endpoint × HttpCall)) (s : Site)
      → c.rel s.world (answer_calls server calls s).world
  unfolding answer_calls
  answer_calls-rel [] s = c.rel_refl s.world
  answer_calls-rel (call ∷ rest) s =
      let next = (answer_call server call.0 call.1 s).1 in
      c.rel_trans s.world next.world (answer_calls server rest next).world
        (answer_call-rel call.0 call.1 s) (answer_calls-rel rest next)
