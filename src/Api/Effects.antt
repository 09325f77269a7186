-- ===== src/Api/Effects.antt =====
-- What each call of the routes of src/api asks of the engine.
use qrib.Api.Callbacks.{no_event_fields, read_event}
use qrib.Engine.Payment.{default_network_cost}
use qrib.Api.Operator.{
  read_report, reason_of, authed, exit_of, refund_hash, reference_in, cost_of, cost_in,
}
use qrib.Api.Answers.{fields_or, fields_of}
use qrib.Engine.Common.{is_text, truthy}
use qrib.Api.Payments.{faulty_settlement, QuoteFields, bigint_or_null, quote_input, no_quote_fields}
use qrib.Engine.Quote.{QuoteInput, create_quote}
use qrib.Db.{
  Change, Result, catch, World, Act, Runs, Fault, option_case, continue, handle, or_raise, api, ok,
  err, ◌>>=◌,
}
use qrib.Api.Idempotency.{Endpoint, Site, has_key}
use qrib.Api.Server.{
  Server, OperatorAction, HttpCall, list_tasks_by, post_quote, show_task, post_webhook,
  post_authorize, internal, resolve_payment, post_execute, post_cancel, refund_payment, post_refund,
  get_payment, post_qris, get_payments,
}
use qrib.Engine.Config.{Config}
use qrib.Engine.Serve.{
  Request, serve_one, after, execute_it, authorize_it, resolve, cancel_it, refund_it, webhook,
}
use qrib.Engine.Providers.{Providers}
use qrib.Common.{
  if◌then◌else◌, ◌≡◌, ◌∙◌, codes, ◌&&◌, not, is_some, first, or_else, none, some, Option, Text,
  Bool, true, [], refl,
}

pub data Effect : Type 0 where
  no_effect : Effect
  asks : Providers → Request → Effect
  quotes : Providers → QuoteInput → Effect

-- The effect on the tables.
abbrev pub perform : Config → Effect → World → World
perform cfg no_effect w = w
perform cfg (asks p req) w = serve_one cfg p req w
perform cfg (quotes p input) w = after (create_quote cfg p.off_ramp input) w

abbrev pub effect_case {ℓ} : {A : Type ℓ} → Option A → (A → Effect) → Effect
effect_case none f = no_effect
effect_case (some a) f = f a

module _ (server : Server) where
  -- A route that asks no provider passes any.
  abbrev pub any_providers : Providers
  any_providers = faulty_settlement server.cfg server.sha256_hex server.env_providers

  abbrev pub quote_effect : QuoteFields → Effect
  quote_effect f =
      effect_case (bigint_or_null f.fiat_amount)
        λ fiat. effect_case server.env_providers λ p. quotes p (quote_input fiat f)

  abbrev pub execute_effect : Text → Option Text → Effect
  execute_effect id provider =
      if is_text (codes "faulty-settle-fail") provider
      then asks any_providers (execute_it id)
      else effect_case server.env_providers (λ p. asks p (execute_it id))

  abbrev pub action_effect : OperatorAction → Effect
  action_effect (list_tasks_by status) = no_effect
  action_effect (show_task id) = no_effect
  action_effect (OperatorAction.complete_task id body) =
      effect_case (read_report (fields_of body))
        λ report. effect_case server.env_providers λ p. asks p (Request.complete_task id report)
  action_effect (resolve_payment id body) =
      if not (truthy (reason_of (fields_of body)))
      then no_effect
      else effect_case (exit_of (fields_of body))
          (λ to. asks any_providers (resolve id to (or_else (reason_of (fields_of body)) [])))
  action_effect (refund_payment id body) =
      effect_case (refund_hash (reference_in (fields_of body))) λ reference.
        effect_case (cost_of (cost_in (fields_of body)))
          λ cost. asks any_providers (refund_it id cost)

  -- The engine's request that a call stands for, read off the call.
  abbrev pub effect_of : HttpCall → Effect
  effect_of (post_quote body) = effect_case (fields_or no_quote_fields body) quote_effect
  effect_of (post_authorize id) = asks any_providers (authorize_it id api)
  effect_of (post_execute id body) = effect_case (fields_or none body) (execute_effect id)
  effect_of (post_cancel id body) =
      effect_case (fields_or none body) (λ reason. asks any_providers (cancel_it id reason))
  effect_of (post_refund id) = asks any_providers (refund_it id default_network_cost)
  effect_of (get_payment id) = no_effect
  effect_of get_payments = no_effect
  effect_of (post_webhook provider body) =
      effect_case (fields_or no_event_fields body)
        λ f. effect_case (read_event f) λ event. asks any_providers (webhook provider event)
  effect_of (post_qris body) = no_effect
  effect_of (internal c action) = action_effect action

-- There is a key, and no answer is stored under it.
abbrev pub is_new : Endpoint → Site → Bool
is_new e s = truthy e.key && not (is_some (first (has_key (or_else e.key [])) s.keys))

module _ (server : Server) where
  -- A call reaches its handler: a callback always, any other with a new key, and an operator's with
  -- its signature too.
  abbrev pub is_admitted : Endpoint → HttpCall → Site → Bool
  is_admitted e (post_webhook provider body) s = true
  is_admitted e (internal c action) s =
      not (is_some (authed server.hmac_sha256 server.secret c)) && is_new e s
  is_admitted e _ s = is_new e s

-- No table has changed.
abbrev pub same : Change
same = record { rel = λ s t. t ≡ s; rel_refl = λ s. refl; rel_trans = λ s t u f g. g ∙ f }

module _ {ℓ κ} {A : Type ℓ} {B : Type κ} where
  after-continue :
      (r : Result A) (f : A → Act B)
      → ((a : A) → Runs same (f a))
      → (w : World) → (continue r f w).1 ≡ w
  after-continue (ok a) f k w = (k a).at w
  after-continue (err e) f k w = refl

  -- What only reads adds nothing.
  pub after-bind :
      (m : Act A) (f : A → Act B)
      → ((a : A) → Runs same (f a))
      → (w : World) → after (m >>= f) w ≡ after m w
  unfolding ◌>>=◌
  after-bind m f k w = after-continue (m w).0 f k (m w).1

  after-handle :
      (r : Result A) (f : A → Act B) (g : Fault → Act B)
      → ((a : A) → Runs same (f a))
      → ((e : Fault) → Runs same (g e))
      → (w : World) → (handle r f g w).1 ≡ w
  after-handle (ok a) f g k l w = (k a).at w
  after-handle (err e) f g k l w = (l e).at w

  pub after-catch :
      (m : Act A) (f : A → Act B) (g : Fault → Act B)
      → ((a : A) → Runs same (f a))
      → ((e : Fault) → Runs same (g e))
      → (w : World) → after (catch m f g) w ≡ after m w
  unfolding catch
  after-catch m f g k l w = after-handle (m w).0 f g k l (m w).1

  module _ (cfg : Config) (g : A → Effect) (f : A → Act B) (w : World) where
    pub after_case :
        (o : Option A) (m : Act B)
        → Runs same m
        → ((a : A) → after (f a) w ≡ perform cfg (g a) w)
        → after (option_case o m f) w ≡ perform cfg (effect_case o g) w
    unfolding option_case
    after_case none m k h = k.at w
    after_case (some a) m k h = h a

    pub after_raise :
        (o : Option A) (x : Fault)
        → ((a : A) → after (f a) w ≡ perform cfg (g a) w)
        → after (or_raise o x >>= f) w ≡ perform cfg (effect_case o g) w
    unfolding ◌>>=◌
    after_raise none x h = refl
    after_raise (some a) x h = h a
