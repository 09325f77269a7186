-- ===== src/Tests/Records.antt =====
-- The theorems on one transition, one posting, one quote and one path, at the sample.
use qrib.Engine.Quote.Outcome.{Quotes, create_quote-Quotes}
use qrib.Db.{ok, err, Fault, funding_broadcast, fees, usdc, Runs-pure}
use qrib.Engine.Mock.{mock_off_ramp}
use qrib.Engine.Config.{engine_config}
use qrib.Engine.Funding.{funding_entries}
use qrib.Tests.Sample.{payment, ready}
use qrib.Engine.Quote.Pricing.{ceil_div-covers}
use qrib.Engine.Quote.{create_quote, QuoteInput, ceil_div}
use qrib.Common.{
  ◌≤◌, pos, ◌≡◌, arith, ◌⊎◌, refl, ◌∷◌, ◌*◌, ◌<◌, ◌+◌, ◌+ℤ◌, ◌-ℤ◌, none, some, List, ℕ, ℤ, true, [],
}
use qrib.States.{
  can_transition, is_funded, state_eq, refunded, crypto_submitted, Unreviewed, Unreviewed-bounded,
  fiat_settlement_pending, refund_required, reconciliation_required, funded_stays,
}
use qrib.Ledger.Balance.{IsBalanced, IsStorable, post_entries_outcome}
use qrib.Ledger.{Entry, post_entries, insert_rows}
use qrib.Store.Transition.{Settles, transition-Settles}
use qrib.Store.{Opts, transition}

abbrev broadcast_opts : Opts
broadcast_opts = record { actor = none; reason = some funding_broadcast; tx_hash = none }

transition-Settles_example :
    Settles payment crypto_submitted broadcast_opts ready
      (transition payment crypto_submitted broadcast_opts ready)
transition-Settles_example = transition-Settles payment crypto_submitted broadcast_opts ready

abbrev funding : List Entry
funding = funding_entries (pos 2_030_051)

post_entries_outcome_example :
    (IsBalanced funding
      × IsStorable payment funding ready
      × (post_entries payment funding ready ≡ (ok tt, insert_rows payment funding ready)))
    ⊎ (¬ (IsBalanced funding × IsStorable payment funding ready)
        × ((f : Fault) × (post_entries payment funding ready ≡ (err f, ready))))
post_entries_outcome_example = post_entries_outcome payment funding ready

abbrev lone_leg : List Entry
lone_leg = record { account = fees; debit = pos 5; credit = pos 0; currency = usdc } ∷ []

lone_leg-unbalanced : ¬ IsBalanced lone_leg
unfolding ◌+ℤ◌ ◌-ℤ◌
lone_leg-unbalanced h = ground (arith, h.usdc_net)

paid_path : Unreviewed 2 fiat_settlement_pending refunded
unfolding can_transition state_eq
paid_path =
    Unreviewed.step (λ e. ground (arith, e)) refl
      (Unreviewed.step {s = refund_required} (λ e. ground (arith, e)) refl Unreviewed.here)

Unreviewed-bounded_example : 2 ≤ 8
Unreviewed-bounded_example = Unreviewed-bounded paid_path

funded_stays_example : (is_funded refunded ≡ true) ⊎ (refunded ≡ reconciliation_required)
funded_stays_example = funded_stays refl paid_path

ceil_div-covers_example :
    (n : ℕ) × (ceil_div (pos 7) (pos 2) ready ≡ (ok (pos n), ready)) × (7 ≤ n * 2) × (n * 2 < 7 + 2)
ceil_div-covers_example = ceil_div-covers 7 2 ready (omega arith)

abbrev of_amount : ℤ → QuoteInput
of_amount amount = record {
  fiat_amount_idr = amount;
  merchant_name = none;
  merchant_ref = none;
  user_id = none;
  ttl_sec = none;
}

create_quote-Quotes_example :
    Quotes engine_config
      (of_amount (pos 32_000))
      ready
      (create_quote engine_config (mock_off_ramp engine_config) (of_amount (pos 32_000)) ready)
create_quote-Quotes_example =
    create_quote-Quotes engine_config (of_amount (pos 32_000)) ready (mock_off_ramp engine_config)
      (Runs-pure _)
