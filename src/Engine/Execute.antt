-- ===== src/Engine/Execute.antt =====
-- `execute` of src/engine/service.ts under its lock, with `resumeConversion` and
-- `resumeSettlement`.
use qrib.Engine.Settlement.{begin_settlement}
use qrib.Store.{transition}
use mathlib.Core.Option.{none}
use qrib.Engine.Common.{latest_quote, known_intent, because, the_intent}
use qrib.Engine.Funding.{execute_fresh, resume_funding}
use qrib.Engine.Conversion.{leg_status_eq, legs_of, done_leg, settle_remainder}
use qrib.States.{
  State, authorized, crypto_submitted, conversion_pending, fiat_settlement_pending, completed,
  reconciliation_required,
}
use qrib.Common.{Text, Bool, Option, ℤ, ◌||◌, some, if◌then◌else◌, any, ◌&&◌, not, is_some}
use qrib.Engine.Providers.{Providers}
use qrib.Engine.Config.{Config}
use qrib.Db.{
  Conversion, Act, Intent, LegStatus, pure, raise, payment_error, ◌>>=◌, gets, option_case,
  resume_without_conversion,
}

abbrev is_open : Conversion → Bool
is_open l = leg_status_eq l.status LegStatus.pending || leg_status_eq l.status LegStatus.partial

module _ (cfg : Config) (p : Providers) where
  -- `resumeConversion`: an open leg is the operator's.
  unfoldable pub resume_conversion : Text → Act Intent
  resume_conversion id = do
    q ← latest_quote id
    legs ← gets (legs_of id)
    if any is_open legs && not (is_some (done_leg legs))
        then the_intent id
        else settle_remainder cfg p id q.fiat_amount q.crypto_amount

  abbrev delivered_of : Option Conversion → Option ℤ
  delivered_of none = none
  delivered_of (some l) = l.fiat_amount

  -- `resumeSettlement`
  unfoldable pub resume_settlement : Text → Act Intent
  resume_settlement id = do
    q ← latest_quote id
    legs ← gets (legs_of id)
    option_case (delivered_of (done_leg legs))
        (transition id reconciliation_required (because resume_without_conversion))
        (λ delivered. begin_settlement cfg p id q.fiat_amount delivered)

  -- The dispatch of `execute` on the status.
  unfoldable pub execute_from : State → Text → Intent → Act Intent
  execute_from authorized id intent = execute_fresh cfg p id
  execute_from crypto_submitted id intent = resume_funding cfg p id
  execute_from conversion_pending id intent = resume_conversion id
  execute_from fiat_settlement_pending id intent = resume_settlement id
  execute_from completed id intent = pure intent
  execute_from _ id intent = raise (payment_error 409)

  -- `execute`
  unfoldable pub execute : Text → Act Intent
  execute id = do intent ← known_intent id; execute_from intent.status id intent
