-- ===== src/Engine/Conversion.antt =====
-- `runConversionLeg` and `settleRemainder` of src/engine/service.ts: the off-ramp leg, run once.
use qrib.Store.{transition}
use qrib.States.{reconciliation_required}
use qrib.Engine.Settlement.{begin_settlement}
use qrib.Engine.Common.{draw, log_call, because, the_intent}
use qrib.Engine.Providers.{Providers, ConversionReply}
use qrib.Engine.Config.{Config}
use qrib.Db.{
  LegStatus, Conversion, World, Act, Intent, ◌>>=◌, gets, option_case, pure, ◌>>◌, catch, convert,
  modify, conversion_unknown, or_raise, type_error, partial_conversion,
}
use qrib.Common.{
  Text, ℤ, Bool, List, Option, text_eq, true, select, ◌++◌, false, first, some, ◌∷◌, [], head?,
  if◌then◌else◌, not, none, ltb_ℤ,
}

-- A row of `conversions` to insert.
unfoldable pub file_conversion :
    Text → Text → Text → ℤ → Option ℤ → Option ℤ → Text → LegStatus → World → World
file_conversion leg_id id provider usdc fiat rate ref status w = record w {
  conversions =
      w.conversions
      ++ record {
        id = leg_id;
        payment_id = id;
        provider = provider;
        crypto_amount = usdc;
        fiat_amount = fiat;
        rate_executed = rate;
        reference = some ref;
        status = status;
      }
        ∷ [];
}

abbrev pub of_leg : Text → Conversion → Bool
of_leg id l = text_eq l.payment_id id

abbrev pub leg_status_eq : LegStatus → LegStatus → Bool
leg_status_eq LegStatus.pending LegStatus.pending = true
leg_status_eq LegStatus.partial LegStatus.partial = true
leg_status_eq LegStatus.completed LegStatus.completed = true
leg_status_eq _ _ = false

abbrev pub done_leg : List Conversion → Option Conversion
done_leg legs = first (λ l. leg_status_eq l.status LegStatus.completed) legs

-- `select().from(conversions).where(paymentId = id)`
abbrev pub legs_of : Text → World → List Conversion
legs_of id w = select (of_leg id) w.conversions

module _ (cfg : Config) (p : Providers) where
  -- What an answered conversion leaves: nothing yet, too little, or the rupiah delivered.
  unfoldable pub record_conversion : Text → ℤ → ℤ → ConversionReply → Act (Intent × Option ℤ)
  record_conversion id fiat_idr usdc reply = do
    leg_id ← draw
    if not reply.is_completed
        then (do
          modify (
              file_conversion leg_id id p.off_ramp.name usdc none none reply.reference
                LegStatus.pending)
          intent ← the_intent id
          pure (intent, none))
        else do
          fiat ← or_raise reply.fiat_amount_idr type_error
          rate ← or_raise reply.rate_executed6 type_error
          if ltb_ℤ fiat fiat_idr
              then (do
                modify (
                    file_conversion leg_id id p.off_ramp.name usdc (some fiat) (some rate)
                      reply.reference LegStatus.partial)
                intent ←
                    transition id reconciliation_required
                      (because (partial_conversion fiat fiat_idr))
                pure (intent, none))
              else do
                modify (
                    file_conversion leg_id id p.off_ramp.name usdc (some fiat) (some rate)
                      reply.reference LegStatus.completed)
                intent ← the_intent id
                pure (intent, some fiat)

  -- `runConversionLeg`: the payment, and the rupiah delivered if the leg is complete. A leg that is
  -- already there is never run again.
  unfoldable pub run_conversion_leg : Text → ℤ → ℤ → Act (Intent × Option ℤ)
  run_conversion_leg id fiat_idr usdc = do
    existing ← gets (legs_of id)
    option_case (done_leg existing)
        (option_case (head? existing)
          (catch (log_call (convert id) >> p.off_ramp.execute id usdc fiat_idr)
            (record_conversion id fiat_idr usdc)
            (λ e. do
              intent ← transition id reconciliation_required (because conversion_unknown)
              pure (intent, none)))
          (λ _. do intent ← the_intent id; pure (intent, none)))
        (λ leg. do
          intent ← the_intent id
          fiat ← or_raise leg.fiat_amount type_error
          pure (intent, some fiat))

  -- `settleRemainder`
  unfoldable pub settle_remainder : Text → ℤ → ℤ → Act Intent
  settle_remainder id fiat_idr usdc = do
    ran ← run_conversion_leg id fiat_idr usdc
    option_case ran.1 (pure ran.0) (λ delivered. begin_settlement cfg p id fiat_idr delivered)
