-- ===== src/Engine/Settlement.antt =====
-- `beginSettlement` and `completeSettlement` of src/engine/service.ts: the merchant is paid, and
-- fees and spread are booked.
use qrib.Common.{
  ℕ, zero, suc, ℤ, pos, ◌-ℤ◌, Text, text_eq, Bool, true, false, ◌&&◌, not, List, [], ◌∷◌, ◌++◌,
  Option, none, some, leb_ℤ, if◌then◌else◌, first, select, update_where,
}
use qrib.States.{
  State, state_eq, completed, conversion_pending, fiat_settlement_pending, refund_required,
  reconciliation_required,
}
use qrib.Db.{
  Intent, Settlement, LegStatus, Account, provider_conversion, spread, merchant_fiat, fees, idr,
  World, Fault, payment_error, provider_timeout, Act, ⊤, pure, raise, gets, modify, raise_if, ◌>>=◌,
  ◌>>◌, option_case, catch, transaction, open_settlement, settlement_started, poll_timed_out,
  settlement_failed, settled_via,
}
use qrib.Store.{transition, transition_with}
use qrib.Ledger.{Entry, post_entries}
use qrib.Engine.Config.{Config}
use qrib.Engine.Providers.{Providers, SettlementState}
use qrib.Engine.Common.{
  latest_quote, known_intent, the_intent, because, draw, log_call, truthy, is_text,
}

abbrev entry_idr : Account → ℤ → ℤ → Entry
entry_idr a d c = record { account = a; debit = d; credit = c; currency = idr }

-- Surplus over the locked rate is spread income, a shortfall is a spread loss.
unfoldable pub spread_legs : ℤ → List Entry
spread_legs drift =
    if leb_ℤ (pos 0) drift
    then entry_idr provider_conversion drift (pos 0) ∷ entry_idr spread (pos 0) drift ∷ []
    else entry_idr spread (pos 0 -ℤ drift) (pos 0)
      ∷ entry_idr provider_conversion (pos 0) (pos 0 -ℤ drift)
      ∷ []

unfoldable pub settlement_entries : ℤ → ℤ → ℤ → List Entry
settlement_entries fiat_idr fee_idr drift =
    entry_idr merchant_fiat fiat_idr (pos 0)
    ∷ entry_idr provider_conversion (pos 0) fiat_idr
    ∷ entry_idr provider_conversion fee_idr (pos 0)
    ∷ entry_idr fees (pos 0) fee_idr
    ∷ spread_legs drift

abbrev settled : Settlement → Settlement
settled l = record l { status = LegStatus.completed }

unfoldable pub close_legs : Text → World → World
close_legs ref w = record w {
  settlements = update_where (λ l. is_text ref l.reference) settled w.settlements;
}

-- `completeSettlement`; the last argument is the rupiah that the conversion delivered.
unfoldable pub complete_settlement : Text → Text → ℤ → ℤ → Act Intent
complete_settlement id ref fiat_idr delivered = do
  cur ← known_intent id
  if state_eq cur.status completed then pure cur else do
    q ← latest_quote id
    transaction do
      modify (close_legs ref)
      post_entries id (settlement_entries fiat_idr q.fee_fiat (delivered -ℤ fiat_idr))
      transition_with id completed (because (settled_via ref))

abbrev of_payment : Text → Settlement → Bool
of_payment id l = text_eq l.payment_id id

abbrev pub is_pending : Settlement → Bool
is_pending l = pending_status l.status
  where
    pending_status : LegStatus → Bool
    pending_status LegStatus.pending = true
    pending_status LegStatus.partial = false
    pending_status LegStatus.completed = false

-- The filed leg that a resume takes up again.
abbrev pub open_leg : Text → World → Option Settlement
open_leg id w =
    first (λ l. is_pending l && truthy l.reference) (select (of_payment id) w.settlements)

unfoldable pub file_leg : Text → Text → Text → ℤ → Text → World → World
file_leg leg_id id provider fiat_idr ref w = record w {
  settlements =
      w.settlements
      ++ record {
        id = leg_id;
        payment_id = id;
        provider = provider;
        fiat_amount = fiat_idr;
        reference = some ref;
        proof = none;
        status = LegStatus.pending;
      }
        ∷ [];
}

abbrev reference_of : Option Settlement → Option Text
reference_of none = none
reference_of (some l) = l.reference

module _ (cfg : Config) (p : Providers) where
  -- The reference to poll: of the filed leg, or of a new one.
  unfoldable pub settlement_ref : Text → ℤ → Act Text
  settlement_ref id fiat_idr = do
    found ← gets (open_leg id)
    option_case (reference_of found)
        (do
          log_call (open_settlement id)
          ref ← p.payment.create_payment id fiat_idr
          leg_id ← draw
          modify (file_leg leg_id id p.payment.name fiat_idr ref)
          pure ref)
        (λ ref. pure ref)

  -- A poll's answer: paid, failed, or another poll.
  unfoldable pub on_status : Text → Text → ℤ → ℤ → Act Intent → SettlementState → Act Intent
  on_status id ref fiat_idr delivered again SettlementState.completed =
      complete_settlement id ref fiat_idr delivered
  on_status id ref fiat_idr delivered again SettlementState.failed =
      transition id refund_required (because (settlement_failed ref))
  on_status id ref fiat_idr delivered again SettlementState.pending = again

  abbrev is_timeout : Fault → Bool
  is_timeout provider_timeout = true
  is_timeout _ = false

  -- The loop of polls, by the number of polls left.
  unfoldable pub poll_settlement : ℕ → Text → Text → ℤ → ℤ → Act Intent
  poll_settlement zero id ref fiat_idr delivered = the_intent id
  poll_settlement (suc n) id ref fiat_idr delivered =
      let again = poll_settlement n id ref fiat_idr delivered in
      catch (p.payment.get_payment ref) (on_status id ref fiat_idr delivered again) (λ e.
        if is_timeout e
        then transition id reconciliation_required (because (poll_timed_out ref))
        else raise e)

  -- CONVERSION_PENDING moves on; FIAT_SETTLEMENT_PENDING resumes; any other state is refused.
  unfoldable pub enter_settlement : Text → State → Act ⊤
  enter_settlement id status =
      if state_eq status conversion_pending
      then transition id fiat_settlement_pending (because settlement_started) >> pure tt
      else raise_if (not (state_eq status fiat_settlement_pending)) (payment_error 409)

  -- `beginSettlement`
  unfoldable pub begin_settlement : Text → ℤ → ℤ → Act Intent
  begin_settlement id fiat_idr delivered = do
    cur ← known_intent id
    if state_eq cur.status completed then pure cur else do
      enter_settlement id cur.status
      ref ← settlement_ref id fiat_idr
      poll_settlement cfg.settle_polls id ref fiat_idr delivered
