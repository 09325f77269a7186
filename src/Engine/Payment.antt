-- ===== src/Engine/Payment.antt =====
-- `authorize`, `cancel`, `refund` and `resolveReview` of src/engine/service.ts.
pub mod Refunds
pub mod Permits
pub mod Reviews
use mathlib.Core.Option.{none}
use qrib.Store.{transition, latest_attempts, transition_with}
use qrib.Engine.Common.{known_intent, by_actor, latest_quote, because}
use qrib.Ledger.{Entry, post_entries}
use qrib.Db.{
  Account, Actor, Act, Intent, Reason, usdc, user_crypto, cancelled_by_user, ◌>>=◌, ◌>>◌, raise_if,
  note, fees, payment_error, provider_conversion, pure, api, gets, transaction, operator,
  quote_expired, raise, rate_locked, refunded_minus,
}
use qrib.States.{
  State, authorized, includes, created, crypto_confirmed, refund_required, quoted,
  conversion_pending, state_eq, fiat_settlement_pending, refunded, reconciliation_required, expired,
  failed, completed,
}
use qrib.Common.{
  Text, ℤ, Bool, Option, List, pos, ℕ, false, leb, all, ◌-ℤ◌, true, ◌&&◌, ◌∷◌, ◌||◌, some,
  if◌then◌else◌, not, ◌==◌, [], any, is_space,
}

-- `authorize`: an expired quote moves the payment to EXPIRED and is refused.
unfoldable pub authorize : Text → Actor → Act Intent
authorize id actor = do
  intent ← known_intent id
  if state_eq intent.status authorized then pure intent else do
    raise_if (not (state_eq intent.status quoted)) (payment_error 409)
    q ← latest_quote id
    now ← gets (λ w. w.now)
    if leb q.expires_at now
        then transition id expired (by_actor actor quote_expired) >> raise (payment_error 410)
        else transition id authorized (by_actor actor (rate_locked q.rate))

abbrev pub is_cancellable : State → Bool
is_cancellable s = includes (created ∷ quoted ∷ authorized ∷ []) s

abbrev cancel_reason : Option Text → Reason
cancel_reason none = cancelled_by_user
cancel_reason (some r) = note r

-- `cancel`; without a reason the source records "cancelled by user".
unfoldable pub cancel : Text → Option Text → Act Intent
cancel id reason = do
  intent ← known_intent id
  raise_if (not (is_cancellable intent.status)) (payment_error 409)
  transition id failed (by_actor api (cancel_reason reason))

abbrev refund_entry : Account → ℤ → ℤ → Entry
refund_entry a d c = record { account = a; debit = d; credit = c; currency = usdc }

unfoldable pub refund_entries : ℤ → ℤ → List Entry
refund_entries held cost =
    refund_entry user_crypto (held -ℤ cost) (pos 0)
    ∷ refund_entry fees cost (pos 0)
    ∷ refund_entry provider_conversion (pos 0) held
    ∷ []

-- The cost that `refund` takes where the caller names none.
abbrev pub default_network_cost : ℤ
default_network_cost = pos 10_000

-- `refund`
unfoldable pub refund : Text → ℤ → Act Intent
refund id cost = do
  intent ← known_intent id
  if state_eq intent.status refunded then pure intent else do
    raise_if (not (state_eq intent.status refund_required)) (payment_error 409)
    q ← latest_quote id
    transaction do
      post_entries id (refund_entries q.crypto_amount cost)
      transition_with id refunded (because (refunded_minus cost))

-- The states that show that funds have left the wallet.
abbrev pub shows_funding : State → Bool
shows_funding s =
    includes
      (crypto_confirmed ∷ conversion_pending ∷ fiat_settlement_pending ∷ completed ∷ refund_required
        ∷ refunded ∷ [])
      s

-- The targets of `resolveReview`.
pub data ReviewExit : Type 0 where
  retry give_up refund_funds : ReviewExit

abbrev pub exit_state : ReviewExit → State
exit_state retry = authorized
exit_state give_up = failed
exit_state refund_funds = refund_required

-- The two guards on the target: an unfunded payment is not refunded, a funded one is only refunded.
abbrev pub exit_refused : Bool → ReviewExit → Bool
exit_refused true refund_funds = false
exit_refused true _ = true
exit_refused false refund_funds = true
exit_refused false _ = false

-- `!reason?.trim()`
abbrev pub is_blank : Text → Bool
is_blank reason = all is_space reason

-- `resolveReview`
unfoldable pub resolve_review : Text → ReviewExit → Text → Act Intent
resolve_review id to reason = do
  raise_if (is_blank reason) (payment_error 422)
  intent ← known_intent id
  raise_if (not (state_eq intent.status reconciliation_required)) (payment_error 409)
  attempts ← latest_attempts id
  raise_if (exit_refused (any (λ a. shows_funding a.state) attempts) to) (payment_error 409)
  transition id (exit_state to) (by_actor operator (note reason))
