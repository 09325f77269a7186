-- ===== src/Tests/Runs.antt =====
-- Runs of `execute` on the sample.
use qrib.Engine.Mock.{mock_off_ramp, mock_qris}
use qrib.Engine.Providers.{Providers}
use qrib.Engine.Payment.{retry, resolve_review}
use qrib.Engine.Serve.Broadcasts.{broadcasts}
use qrib.Engine.Settlement.{
  begin_settlement, enter_settlement, settlement_ref, file_leg, poll_settlement, on_status,
  complete_settlement, settlement_entries, spread_legs, close_legs,
}
use qrib.Engine.Conversion.{
  settle_remainder, run_conversion_leg, record_conversion, file_conversion,
}
use qrib.Ledger.{post_entries, insert_rows, ledger_row, add_nets}
use qrib.Engine.Common.{known_intent, latest_quote, log_call, draw, the_intent}
use qrib.Engine.Funding.{
  execute_fresh, funding_tail, set_tx_hash, after_broadcast, wait_confirmations, poll_confirmations,
  confirm_round, sleep, confirm_funding, record_chain_tx, funding_entries,
}
use qrib.Common.{length, ◌≡◌, refl, ◌∷◌, quot, ◌*ℤ◌, ◌-ℤ◌, ◌+ℤ◌, ℕ, codes}
use qrib.Tests.Sample.{mocks, dead_chain, payment, ready}
use qrib.Store.{
  find_intent, transition, transition_with, advance, moved, audit_row, latest_attempts,
}
use qrib.Engine.Config.{engine_config, Config}
use qrib.Engine.Execute.{execute, execute_from}
use qrib.States.{State, reconciliation_required, completed, state_eq, can_transition}
use mathlib.Core.Option.{Option, some, none}
use qrib.Engine.Serve.{serve, serve_one, execute_it, resolve}
use qrib.Db.{World, Intent, ◌>>◌, option_case, catch, transaction, pure}
use mathlib.Core.List.{[], ◌∷◌}
use mathlib.Core.Option

-- The payment's status, the rows of its trail and of the ledger, and its broadcasts.
abbrev summary : World → Option State × (ℕ × (ℕ × ℕ))
summary w = (
  Option.map (λ (i : Intent). i.status) (find_intent payment w),
  (length w.attempts, (length w.ledger, broadcasts payment w.calls)),
)

-- Two taps take the payment from AUTHORIZED to COMPLETED: five rows are added to the trail of two,
-- the books have the two entries of the funding and the six of the settlement, and one transaction
-- is broadcast.
execute_completes :
    summary (serve engine_config mocks (execute_it payment ∷ execute_it payment ∷ []) ready)
    ≡ (some completed, (7, (8, 1)))
unfolding serve serve_one execute execute_from execute_fresh funding_tail known_intent latest_quote
    transition ◌>>◌ option_case catch transaction log_call set_tx_hash after_broadcast
    wait_confirmations poll_confirmations confirm_round sleep confirm_funding record_chain_tx
    transition_with post_entries insert_rows funding_entries advance moved audit_row
    settle_remainder run_conversion_leg record_conversion file_conversion draw the_intent
    begin_settlement enter_settlement settlement_ref file_leg poll_settlement on_status
    complete_settlement settlement_entries spread_legs close_legs ledger_row quot ◌*ℤ◌ state_eq
    can_transition add_nets ◌-ℤ◌ ◌+ℤ◌
execute_completes = refl

-- A broadcast that is not answered leaves the payment to a human, and nothing is booked.
dead_chain_reviews :
    summary (serve engine_config dead_chain (execute_it payment ∷ []) ready)
    ≡ (some reconciliation_required, (4, (0, 1)))
unfolding serve serve_one execute execute_from execute_fresh funding_tail known_intent latest_quote
    transition ◌>>◌ option_case catch transaction log_call set_tx_hash after_broadcast
    wait_confirmations poll_confirmations confirm_round sleep confirm_funding record_chain_tx
    transition_with post_entries insert_rows funding_entries advance moved audit_row
    settle_remainder run_conversion_leg record_conversion file_conversion draw the_intent
    begin_settlement enter_settlement settlement_ref file_leg poll_settlement on_status
    complete_settlement settlement_entries spread_legs close_legs ledger_row quot ◌*ℤ◌ state_eq
    can_transition add_nets ◌-ℤ◌ ◌+ℤ◌
dead_chain_reviews = refl

-- A gateway that takes every broadcast and confirms none.
abbrev slow_chain : Providers
slow_chain = record {
  off_ramp = mock_off_ramp engine_config;
  payment = mock_qris;
  chain = record {
    name = codes "slow";
    submit_payment = λ id usdc. pure (codes "0x1");
    confirmations = λ hash. pure 0;
    leg_parties = none;
  };
}

-- The same tuning with a wait of two seconds.
abbrev hasty_config : Config
hasty_config = record engine_config { confirm_timeout_sec = 2 }

-- A broadcast that is not confirmed in time goes to review; a human may send the payment back to
-- AUTHORIZED, and then a second transaction is broadcast.
review_broadcasts_again :
    summary (
      serve hasty_config slow_chain
        (execute_it payment ∷ resolve payment retry (codes "retry") ∷ execute_it payment ∷ [])
        ready)
    ≡ (some reconciliation_required, (7, (0, 2)))
unfolding serve serve_one execute execute_from execute_fresh funding_tail known_intent latest_quote
    transition ◌>>◌ option_case catch transaction log_call set_tx_hash after_broadcast
    wait_confirmations poll_confirmations confirm_round sleep confirm_funding record_chain_tx
    transition_with post_entries insert_rows funding_entries advance moved audit_row
    settle_remainder run_conversion_leg record_conversion file_conversion draw the_intent
    begin_settlement enter_settlement settlement_ref file_leg poll_settlement on_status
    complete_settlement settlement_entries spread_legs close_legs ledger_row quot ◌*ℤ◌ state_eq
    can_transition add_nets ◌-ℤ◌ ◌+ℤ◌ resolve_review latest_attempts
review_broadcasts_again = refl
