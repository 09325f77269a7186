-- ===== src/Api/Payments.antt =====
-- src/api/payments.ts: the handlers of the payment routes.
use qrib.Store.{list_intents, sort_desc, latest_attempts}
use qrib.Engine.Providers.{Providers}
use qrib.Engine.Common.{known_intent, is_text, quote_of}
use qrib.Engine.Config.{Config}
use qrib.Db.{
  Act, Intent, ◌>>=◌, gets, or_raise, api, plain_error, type_error, pure, option_case, catch,
}
use qrib.Common.{
  if◌then◌else◌, is_decimal, pos, select, codes, decimal_from, head?, none, some, Option, ℤ, Text,
}
use qrib.Api.Answers.{
  Answer, Body, fields_or, refuse, or_err_json, ok_json, amount_required, list_reply, payment_reply,
  quote_reply, message_of,
}
use qrib.Engine.Execute.{execute}
use qrib.Engine.Payment.{authorize, cancel, refund, default_network_cost}
use qrib.Engine.Quote.{create_quote, QuoteInput}
use qrib.Engine.Faulty.{faulty_qris, SettleFault}
use qrib.Engine.Mock.{mock_off_ramp, mock_chain}

-- `bigintOrNull`
abbrev pub bigint_or_null : Option Text → Option ℤ
bigint_or_null none = none
bigint_or_null (some s) = if is_decimal s then some (pos (decimal_from 0 s)) else none

pub record QuoteFields : Type 0 where
  pub fiat_amount : Option Text
  pub merchant_name : Option Text
  pub merchant_id : Option Text
  pub user_id : Option Text

abbrev pub no_quote_fields : QuoteFields
no_quote_fields = record {
  fiat_amount = none;
  merchant_name = none;
  merchant_id = none;
  user_id = none;
}

abbrev pub quote_input : ℤ → QuoteFields → QuoteInput
quote_input fiat f = record {
  fiat_amount_idr = fiat;
  merchant_name = f.merchant_name;
  merchant_ref = f.merchant_id;
  user_id = f.user_id;
  ttl_sec = none;
}

-- `shape`: the payment with its latest quote and the head of its trail.
unfoldable pub shape : Text → Act Answer
shape id = do
  intent ← known_intent id
  quotes ← gets (λ w. sort_desc (λ q. q.created_at) (select (quote_of id) w.quotes))
  attempts ← latest_attempts id
  pure (
      ok_json
        (payment_reply (record { intent = intent; quote = head? quotes; attempts = attempts })))

-- The handlers answer with the payment that the engine returned.
abbrev pub shaped : Act Intent → Act Answer
shaped m = do intent ← m; shape intent.id

unfoldable pub authorize_handler : Text → Act Answer
authorize_handler id = or_err_json (shaped (authorize id api))

unfoldable pub cancel_handler : Text → Body (Option Text) → Act Answer
cancel_handler id body =
    or_err_json (do reason ← or_raise (fields_or none body) type_error; shaped (cancel id reason))

unfoldable pub refund_handler : Text → Act Answer
refund_handler id = or_err_json (shaped (refund id default_network_cost))

unfoldable pub show_handler : Text → Act Answer
show_handler id = or_err_json (shape id)

unfoldable pub list_handler : Act Answer
list_handler = do intents ← list_intents 50; pure (ok_json (list_reply intents))

module _ (cfg : Config) (sha256_hex : Text → Text) (env_providers : Option Providers) where
  -- `providersFromEnv(db)` inside a handler.
  abbrev pub providers : Act Providers
  providers = or_raise env_providers plain_error

  unfoldable pub quote_handler : Body QuoteFields → Act Answer
  quote_handler body = do
    f ← or_raise (fields_or no_quote_fields body) type_error
    option_case (bigint_or_null f.fiat_amount) (pure (refuse 400 amount_required)) (λ fiat.
        catch (do p ← providers; create_quote cfg p.off_ramp (quote_input fiat f))
          (λ q. pure (ok_json (quote_reply q))) (λ e. pure (refuse 422 (message_of e))))

  -- The providers that `body.provider` asks for.
  abbrev pub faulty_settlement : Providers
  faulty_settlement = record {
    off_ramp = mock_off_ramp cfg;
    payment = faulty_qris SettleFault.failed;
    chain = mock_chain sha256_hex;
  }

  abbrev pub chosen : Option Text → Act Providers
  chosen provider =
      if is_text (codes "faulty-settle-fail") provider then pure faulty_settlement else providers

  unfoldable pub execute_handler : Text → Body (Option Text) → Act Answer
  execute_handler id body = or_err_json (do
    provider ← or_raise (fields_or none body) type_error
    p ← chosen provider
    shaped (execute cfg p id))
