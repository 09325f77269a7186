-- ===== src/Api/Server.antt =====
-- `createApp` of src/app.ts: the routes over the database, each with the middlewares that guard it.
use qrib.Engine.Providers.{Providers}
use qrib.Db.{Act, World}
use qrib.Engine.Config.{Config}
use qrib.Common.{none, some, Option, List, Text, [], ◌∷◌}
use qrib.Api.Answers.{Answer, Body, answered}
use qrib.Api.Idempotency.{Endpoint, Site, idempotency}
use qrib.Api.Payments.{
  QuoteFields, quote_handler, authorize_handler, execute_handler, cancel_handler, refund_handler,
  show_handler, list_handler,
}
use qrib.Api.Operator.{
  SignedCall, authed, tasks_handler, task_handler, complete_handler, resolve_handler,
  operator_refund_handler, ReportFields, ResolveFields, RefundFields,
}
use qrib.Api.Callbacks.{EventFields, webhook_handler, qris_handler}

-- What is fixed when the server starts: the tuning, the environment, and the libraries' hashes.
pub record Server : Type 0 where
  pub cfg : Config
  pub sha256_hex : Text → Text
  pub hmac_sha256 : Text → Text → Text
  pub secret : Option Text
  pub env_providers : Option Providers

-- The operator's actions.
pub data OperatorAction : Type 0 where
  list_tasks_by : Option Text → OperatorAction
  show_task : Text → OperatorAction
  complete_task : Text → Body ReportFields → OperatorAction
  resolve_payment : Text → Body ResolveFields → OperatorAction
  refund_payment : Text → Body RefundFields → OperatorAction

-- A call of a route with what its handler reads.
pub data HttpCall : Type 0 where
  post_quote : Body QuoteFields → HttpCall
  post_authorize : Text → HttpCall
  post_execute : Text → Body (Option Text) → HttpCall
  post_cancel : Text → Body (Option Text) → HttpCall
  post_refund : Text → HttpCall
  get_payment : Text → HttpCall
  get_payments : HttpCall
  post_webhook : Text → Body EventFields → HttpCall
  post_qris : Body (Option Text) → HttpCall
  internal : SignedCall → OperatorAction → HttpCall

-- A handler without middleware.
abbrev pub on_world : Act Answer → Site → Answer × Site
on_world m s = placed (answered m s.world)
  where
    placed : Answer × World → Answer × Site
    placed (a, w) = (a, record s { world = w })

abbrev pub keyed : Endpoint → Act Answer → Site → Answer × Site
keyed e m = idempotency e (answered m)

abbrev pub unless_refused : Option Answer → (Site → Answer × Site) → Site → Answer × Site
unless_refused none next s = next s
unless_refused (some a) next s = (a, s)

module _ (server : Server) where
  unfoldable pub act : Endpoint → OperatorAction → Site → Answer × Site
  act e (list_tasks_by status) = on_world (tasks_handler status)
  act e (show_task id) = on_world (task_handler id)
  act e (complete_task id body) = keyed e (complete_handler server.cfg server.env_providers id body)
  act e (resolve_payment id body) = keyed e (resolve_handler id body)
  act e (refund_payment id body) = keyed e (operator_refund_handler id body)

  unfoldable pub answer_call : Endpoint → HttpCall → Site → Answer × Site
  answer_call e (post_quote body) =
      keyed e (quote_handler server.cfg server.sha256_hex server.env_providers body)
  answer_call e (post_authorize id) = keyed e (authorize_handler id)
  answer_call e (post_execute id body) =
      keyed e (execute_handler server.cfg server.sha256_hex server.env_providers id body)
  answer_call e (post_cancel id body) = keyed e (cancel_handler id body)
  answer_call e (post_refund id) = keyed e (refund_handler id)
  answer_call e (get_payment id) = on_world (show_handler id)
  answer_call e get_payments = on_world (list_handler)
  answer_call e (post_webhook provider body) = on_world (webhook_handler provider body)
  answer_call e (post_qris body) = on_world (qris_handler body)
  answer_call e (internal c action) =
      unless_refused (authed server.hmac_sha256 server.secret c) (act e action)

  -- The calls one after the other; each finds what the ones before it have left.
  unfoldable pub answer_calls : List (Endpoint × HttpCall) → Site → Site
  answer_calls [] s = s
  answer_calls (c ∷ rest) s = answer_calls rest (answer_call c.0 c.1 s).1
