-- ===== src/Api/Refines/Handlers.antt =====
-- The effect of each handler of src/api is that of one request to the engine.
use qrib.Engine.Common.{truthy, is_text}
use qrib.Engine.Execute.{execute}
use qrib.Api.Changes.Handlers.{Runs-shape, payment_errors-rel}
use qrib.Engine.Serve.{serve_one, after, execute_it}
use qrib.Api.Operator.{
  complete_handler, resolve_handler, operator_refund_handler, ReportFields, ResolveFields,
  RefundFields, read_report, refund_hash, reason_of, reference_in, cost_of, cost_in, exit_of,
}
use qrib.Api.Callbacks.{webhook_handler, EventFields, no_event_fields, read_event}
use qrib.Api.Payments.{
  quote_handler, execute_handler, cancel_handler, QuoteFields, shaped, faulty_settlement,
  no_quote_fields, bigint_or_null, refund_handler, authorize_handler,
}
use qrib.Api.Server.{
  Server, post_quote, post_execute, post_cancel, post_webhook, OperatorAction, resolve_payment,
  refund_payment, post_authorize, post_refund,
}
use qrib.Db.{Act, Intent, World, pure, Runs-pure, or_raise, plain_error, type_error, ◌>>=◌}
use qrib.Api.Answers.{
  or_err_json, or_rethrow, Answer, Body, fields_or, fields_of, refuse, reason_required,
}
use qrib.Common.{
  none, Option, Text, Bool, true, false, ◌≡◌, if◌then◌else◌, ◌∙◌, Bool-cases, codes, inr, inl, refl,
}
use qrib.Api.Effects.{
  perform, effect_of, after-catch, after-bind, action_effect, after_raise, quote_effect,
  execute_effect, after_case, asks, any_providers, same, effect_case,
}

after-or_err_json : (m : Act Answer) (w : World) → after (or_err_json m) w ≡ after m w
unfolding or_err_json
after-or_err_json m w = after-catch m _ _ (λ a. Runs-pure a) (λ e. Runs-pure _) w

after-or_rethrow : (m : Act Answer) (w : World) → after (or_rethrow m) w ≡ after m w
unfolding or_rethrow
after-or_rethrow m w = after-catch m _ _ (λ a. Runs-pure a) (λ e. payment_errors-rel e) w

after-shaped : (m : Act Intent) (w : World) → after (shaped m) w ≡ after m w
after-shaped m w = after-bind m _ (λ intent. Runs-shape intent.id) w

-- A handler that answers with the payment changes what the engine changes.
after_payment : (m : Act Intent) (w : World) → after (or_err_json (shaped m)) w ≡ after m w
after_payment m w = after-or_err_json (shaped m) w ∙ after-shaped m w

after_reply {ℓ} :
    {A : Type ℓ} (m : Act A) (f : A → Answer) (w : World)
    → after (or_rethrow (m >>= λ a. pure (f a))) w ≡ after m w
after_reply m f w = after-or_rethrow _ w ∙ after-bind m _ (λ a. Runs-pure (f a)) w

module _ (server : Server) where
  pub quote-effect :
      (body : Body QuoteFields) (w : World)
      → after (quote_handler server.cfg server.sha256_hex server.env_providers body) w
        ≡ perform server.cfg (effect_of server (post_quote body)) w
  unfolding quote_handler
  quote-effect body w =
      after_raise server.cfg (quote_effect server) _ w (fields_or no_quote_fields body) type_error
        λ f. after_case server.cfg _ _ w (bigint_or_null f.fiat_amount) _ (Runs-pure _) λ fiat.
          after-catch _ _ _ (λ q. Runs-pure _) (λ e. Runs-pure _) w
          ∙ after_raise server.cfg _ _ w server.env_providers plain_error (λ p. refl)

  chosen-effect :
      (b : Bool) (id : Text) (w : World)
      → after
          ((if b
              then pure (faulty_settlement server.cfg server.sha256_hex server.env_providers)
              else or_raise server.env_providers plain_error)
            >>= λ p. shaped (execute server.cfg p id))
          w
        ≡ perform server.cfg
            (if b
              then asks (any_providers server) (execute_it id)
              else effect_case server.env_providers (λ p. asks p (execute_it id)))
            w
  unfolding ◌>>=◌ serve_one
  chosen-effect true id w = after-shaped (execute server.cfg (any_providers server) id) w
  chosen-effect false id w =
      after_raise server.cfg _ _ w server.env_providers plain_error
        (λ p. after-shaped (execute server.cfg p id) w)

  pub execute-effect :
      (id : Text) (body : Body (Option Text)) (w : World)
      → after (execute_handler server.cfg server.sha256_hex server.env_providers id body) w
        ≡ perform server.cfg (effect_of server (post_execute id body)) w
  unfolding execute_handler
  execute-effect id body w =
      after-or_err_json _ w
      ∙ after_raise server.cfg (execute_effect server id) _ w (fields_or none body) type_error
          (λ provider. chosen-effect (is_text (codes "faulty-settle-fail") provider) id w)

  pub cancel-effect :
      (id : Text) (body : Body (Option Text)) (w : World)
      → after (cancel_handler id body) w
        ≡ perform server.cfg (effect_of server (post_cancel id body)) w
  unfolding cancel_handler serve_one
  cancel-effect id body w =
      after-or_err_json _ w
      ∙ after_raise server.cfg _ _ w (fields_or none body) type_error (λ reason. after-shaped _ w)

  pub webhook-effect :
      (provider : Text) (body : Body EventFields) (w : World)
      → after (webhook_handler provider body) w
        ≡ perform server.cfg (effect_of server (post_webhook provider body)) w
  unfolding webhook_handler serve_one
  webhook-effect provider body w =
      after_raise server.cfg _ _ w (fields_or no_event_fields body) type_error λ f.
        after_case server.cfg _ _ w (read_event f) _ (Runs-pure _)
          λ event. after-bind _ _ (λ out. Runs-pure _) w

  pub complete-effect :
      (id : Text) (body : Body ReportFields) (w : World)
      → after (complete_handler server.cfg server.env_providers id body) w
        ≡ perform server.cfg (action_effect server (OperatorAction.complete_task id body)) w
  unfolding complete_handler serve_one
  complete-effect id body w =
      after_case server.cfg _ _ w (read_report (fields_of body)) _ (Runs-pure _) λ report.
        after-or_rethrow _ w
        ∙ after_raise server.cfg _ _ w server.env_providers plain_error
            (λ p. after-bind _ _ (λ out. Runs-pure _) w)

  pub resolve-effect :
      (id : Text) (body : Body ResolveFields) (w : World)
      → after (resolve_handler id body) w
        ≡ perform server.cfg (action_effect server (resolve_payment id body)) w
  unfolding resolve_handler serve_one
  resolve-effect id body w = elim (Bool-cases (truthy (reason_of (fields_of body)))) [
    | inr missing ↦ rw missing ((Runs-pure {c = same} (refuse 400 reason_required)).at w)
    | inl given ↦ rw given (
        after_case server.cfg _ _ w (exit_of (fields_of body)) _ (Runs-pure _)
          λ to. after_reply _ _ w)
  ]

  pub operator_refund-effect :
      (id : Text) (body : Body RefundFields) (w : World)
      → after (operator_refund_handler id body) w
        ≡ perform server.cfg (action_effect server (refund_payment id body)) w
  unfolding operator_refund_handler serve_one
  operator_refund-effect id body w =
      after_case server.cfg _ _ w (refund_hash (reference_in (fields_of body))) _ (Runs-pure _)
        λ reference.
          after_case server.cfg _ _ w (cost_of (cost_in (fields_of body))) _ (Runs-pure _)
            λ cost. after_reply _ _ w

module _ (server : Server) where
  pub authorize-effect :
      (id : Text) (w : World)
      → after (authorize_handler id) w ≡ perform server.cfg (effect_of server (post_authorize id)) w
  unfolding authorize_handler serve_one
  authorize-effect id w = after_payment _ w

  pub refund-effect :
      (id : Text) (w : World)
      → after (refund_handler id) w ≡ perform server.cfg (effect_of server (post_refund id)) w
  unfolding refund_handler serve_one
  refund-effect id w = after_payment _ w
