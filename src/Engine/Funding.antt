-- ===== src/Engine/Funding.antt =====
-- The funding leg of src/engine/service.ts: `waitConfirmations`, `confirmFunding`, `recordChainTx`,
-- `executeFresh` and `resumeFunding`.
pub mod Polls
use Prim.Native.Nat.{zero}
use qrib.Engine.Conversion.{settle_remainder}
use qrib.Store.{transition_with, latest_attempts, transition}
use qrib.Engine.Common.{truthy, latest_quote, because, log_call}
use qrib.States.{
  state_eq, crypto_submitted, crypto_confirmed, reconciliation_required, conversion_pending,
}
use qrib.Engine.Providers.{Providers}
use qrib.Ledger.{Entry, post_entries}
use qrib.Engine.Config.{Config}
use qrib.Common.{
  ℤ, Text, List, Bool, codes, ℕ, text_eq, if◌then◌else◌, some, update_where, Option, pos, any, ◌&&◌,
  none, ◌+◌, or_else, ◌∷◌, ◌++◌, [], suc, leb, ◌/◌, ◌*◌, ltb,
}
use qrib.Db.{
  Account, ChainTx, Act, World, Attempt, ⊤, usdc, provider_conversion, modify, transaction,
  QuoteRow, Intent, raise, out_of_fuel, user_crypto, ◌>>=◌, ◌>>◌, gets, option_case,
  chain_confirmations, confirmations_not_reached, funding_broadcast, no_tx_hash, catch,
  off_ramp_started, broadcast, pure, broadcast_unknown,
}

abbrev usdc_entry : Account → ℤ → ℤ → Entry
usdc_entry a d c = record { account = a; debit = d; credit = c; currency = usdc }

unfoldable pub funding_entries : ℤ → List Entry
funding_entries micros =
    usdc_entry provider_conversion micros (pos 0) ∷ usdc_entry user_crypto (pos 0) micros ∷ []

abbrev pub has_hash : Text → ChainTx → Bool
has_hash hash t = text_eq t.tx_hash hash

-- `recordChainTx`: the hash is unique, and a second insert does nothing.
unfoldable pub record_chain_tx : ChainTx → World → World
record_chain_tx t w =
    if any (has_hash t.tx_hash) w.chain_txs
    then w
    else record w { chain_txs = w.chain_txs ++ t ∷ [] }

abbrev pub is_submitted_of : Text → Attempt → Bool
is_submitted_of id a = text_eq a.payment_id id && state_eq a.state crypto_submitted

abbrev pub with_hash : Text → Attempt → Attempt
with_hash hash a = record a { tx_hash = some hash }

-- The hash goes onto every CRYPTO_SUBMITTED attempt of the payment.
unfoldable pub set_tx_hash : Text → Text → World → World
set_tx_hash id hash w = record w {
  attempts = update_where (is_submitted_of id) (with_hash hash) w.attempts;
}

-- The hash of the latest CRYPTO_SUBMITTED attempt that has one.
abbrev pub recorded_hash : List Attempt → Option Text
recorded_hash [] = none
recorded_hash (a ∷ rest) =
    if state_eq a.state crypto_submitted && truthy a.tx_hash then a.tx_hash else recorded_hash rest

abbrev undisclosed : Text × Text
undisclosed = (codes "undisclosed", codes "undisclosed")

-- The pause between two polls of the chain.
abbrev pub poll_ms : ℕ
poll_ms = 2000

unfoldable pub sleep : Act ⊤
sleep = modify (λ w. record w { now = w.now + poll_ms })

module _ (cfg : Config) (p : Providers) where
  -- One round of `waitConfirmations`; `again` is the next round.
  unfoldable pub confirm_round : Text → ℕ → Act (Option ℕ) → Act (Option ℕ)
  confirm_round hash deadline again = do
    n ← p.chain.confirmations hash
    now ← gets (λ w. w.now)
    if leb cfg.required_confirmations n
        then pure (some n)
        else if ltb deadline now
        then pure none
        else sleep >> again

  -- Its loop. Running out of fuel is no outcome of the source.
  unfoldable pub poll_confirmations : ℕ → Text → ℕ → Act (Option ℕ)
  poll_confirmations zero hash deadline = raise out_of_fuel
  poll_confirmations (suc fuel) hash deadline =
      let again = poll_confirmations fuel hash deadline in confirm_round hash deadline again

  -- `waitConfirmations`
  unfoldable pub wait_confirmations : Text → Act (Option ℕ)
  wait_confirmations hash = do
    now ← gets (λ w. w.now)
    poll_confirmations (cfg.confirm_timeout_sec / 2 + 2) hash (now + cfg.confirm_timeout_sec * 1000)

  -- `confirmFunding`
  unfoldable pub confirm_funding : Text → Text → ℤ → ℕ → Act ⊤
  confirm_funding id hash micros n = transaction do
    let parties = or_else p.chain.leg_parties undisclosed
    modify (
        record_chain_tx (record {
          payment_id = id;
          tx_hash = hash;
          chain = p.chain.name;
          from_address = parties.0;
          to_address = parties.1;
          amount = micros;
          confirmations = n;
        }))
    transition_with id crypto_confirmed (because (chain_confirmations n))
    post_entries id (funding_entries micros)

  -- From a known hash to the merchant: poll, book, convert, settle.
  unfoldable pub after_broadcast : Text → Text → Act QuoteRow → Act Intent
  after_broadcast id hash the_quote = do
    polled ← wait_confirmations hash
    option_case polled
        (transition id reconciliation_required (because (confirmations_not_reached hash)))
        (λ n. do
          q ← the_quote
          confirm_funding id hash q.crypto_amount n
          transition id conversion_pending (because off_ramp_started)
          settle_remainder cfg p id q.fiat_amount q.crypto_amount)

  -- `executeFresh` from the broadcast on; an error leaves open whether the transaction is out.
  unfoldable pub funding_tail : Text → QuoteRow → Act Intent
  funding_tail id q =
      catch (log_call (broadcast id q.crypto_amount) >> p.chain.submit_payment id q.crypto_amount)
        (λ hash. do modify (set_tx_hash id hash); after_broadcast id hash (pure q))
        (λ e. transition id reconciliation_required (because broadcast_unknown))

  -- `executeFresh`: the status is written first, then the one broadcast is made.
  unfoldable pub execute_fresh : Text → Act Intent
  execute_fresh id = do
    q ← latest_quote id
    transition id crypto_submitted (because funding_broadcast)
    funding_tail id q

  -- `resumeFunding`: it polls the recorded hash, and never broadcasts.
  unfoldable pub resume_funding : Text → Act Intent
  resume_funding id = do
    attempts ← latest_attempts id
    option_case (recorded_hash attempts)
        (transition id reconciliation_required (because no_tx_hash))
        (λ hash. after_broadcast id hash (latest_quote id))
