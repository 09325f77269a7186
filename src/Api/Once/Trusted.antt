-- ===== src/Api/Once/Trusted.antt =====
-- The providers that a call of a route asks are those of the environment or write nothing.
use qrib.Api.Callbacks.{no_event_fields, read_event}
use qrib.Api.Payments.{no_quote_fields, bigint_or_null, quote_input}
use qrib.Api.Answers.{fields_of, fields_or}
use qrib.Api.Operator.{reason_of, read_report, exit_of, refund_hash, reference_in, cost_of, cost_in}
use qrib.Engine.Common.{is_text, truthy}
use Option.{none}
use qrib.Api.Changes.Handlers.{faulty-Respects}
use qrib.Api.Books.{Trusts}
use qrib.Engine.Providers.{Providers}
use qrib.Engine.Changes.Writes.{Respects, outside}
use qrib.Engine.Quote.{QuoteInput}
use qrib.Engine.Serve.{Request}
use qrib.Db.{Runs}
use qrib.Api.Server.{
  Server, HttpCall, OperatorAction, list_tasks_by, post_quote, show_task, post_authorize,
  resolve_payment, post_execute, post_cancel, post_refund, refund_payment, get_payment,
  post_webhook, post_qris, internal, get_payments,
}
use qrib.Common.{◌≡◌, refl, some, Option, Bool, true, false, if◌then◌else◌, not, codes}
use mathlib.Core.Option
use qrib.Api.Effects.{effect_of, any_providers, Effect, effect_case, action_effect}

-- The providers of an effect are trusted.
pub data IsTrusted : Effect → Type 0 where
  idle : IsTrusted Effect.no_effect
  asked : (p : Providers) (req : Request) → Respects outside p → IsTrusted (Effect.asks p req)
  quoted_by :
      (p : Providers) (input : QuoteInput)
      → Runs outside p.off_ramp.ref_rate6
      → IsTrusted (Effect.quotes p input)

module _ (server : Server) (t : Trusts server) where
  effect_case-IsTrusted {ℓ} :
      {A : Type ℓ} (o : Option A) (f : A → Effect)
      → ((a : A) → o ≡ some a → IsTrusted (f a))
      → IsTrusted (effect_case o f)
  effect_case-IsTrusted none f h = idle
  effect_case-IsTrusted (some a) f h = h a refl

  if-IsTrusted :
      (b : Bool) (f g : Effect) → IsTrusted f → IsTrusted g → IsTrusted (if b then f else g)
  if-IsTrusted true f g h k = h
  if-IsTrusted false f g h k = k

  faulty-IsTrusted : (req : Request) → IsTrusted (Effect.asks (any_providers server) req)
  faulty-IsTrusted req = asked _ req (faulty-Respects server)

  env-IsTrusted :
      (req : Request) → IsTrusted (effect_case server.env_providers (λ p. Effect.asks p req))
  env-IsTrusted req =
      effect_case-IsTrusted server.env_providers (λ p. Effect.asks p req)
        (λ p given. asked p req (t.calls p given))

  action_effect-IsTrusted : (action : OperatorAction) → IsTrusted (action_effect server action)
  action_effect-IsTrusted (list_tasks_by status) = idle
  action_effect-IsTrusted (show_task id) = idle
  action_effect-IsTrusted (OperatorAction.complete_task id body) =
      effect_case-IsTrusted (read_report (fields_of body)) _ λ report _. env-IsTrusted _
  action_effect-IsTrusted (resolve_payment id body) =
      if-IsTrusted (not (truthy (reason_of (fields_of body)))) _ _ idle
        (effect_case-IsTrusted (exit_of (fields_of body)) _ λ to _. faulty-IsTrusted _)
  action_effect-IsTrusted (refund_payment id body) =
      effect_case-IsTrusted (refund_hash (reference_in (fields_of body))) _ λ hash _.
        effect_case-IsTrusted (cost_of (cost_in (fields_of body))) _ λ cost _. faulty-IsTrusted _

  pub effect_of-IsTrusted : (call : HttpCall) → IsTrusted (effect_of server call)
  effect_of-IsTrusted (post_quote body) =
      effect_case-IsTrusted (fields_or no_quote_fields body) _ λ f _.
        effect_case-IsTrusted (bigint_or_null f.fiat_amount) _ λ fiat _.
          effect_case-IsTrusted server.env_providers _
            λ p given. quoted_by p (quote_input fiat f) (t.rates p given)
  effect_of-IsTrusted (post_authorize id) = faulty-IsTrusted _
  effect_of-IsTrusted (post_execute id body) =
      effect_case-IsTrusted (fields_or none body) _ λ provider _.
        if-IsTrusted (is_text (codes "faulty-settle-fail") provider) _ _ (faulty-IsTrusted _)
          (env-IsTrusted _)
  effect_of-IsTrusted (post_cancel id body) =
      effect_case-IsTrusted (fields_or none body) _ λ reason _. faulty-IsTrusted _
  effect_of-IsTrusted (post_refund id) = faulty-IsTrusted _
  effect_of-IsTrusted (get_payment id) = idle
  effect_of-IsTrusted get_payments = idle
  effect_of-IsTrusted (post_webhook provider body) =
      effect_case-IsTrusted (fields_or no_event_fields body) _
        λ f _. effect_case-IsTrusted (read_event f) _ λ event _. faulty-IsTrusted _
  effect_of-IsTrusted (post_qris body) = idle
  effect_of-IsTrusted (internal c action) = action_effect-IsTrusted action
