-- ===== src/Tests/Money.antt =====
-- The theorems on polls, postings and callbacks, at the sample.
use qrib.Engine.Payment.Reviews.{Reviews, resolve_review-Reviews}
use qrib.States.{refund_required, reconciliation_required}
use qrib.Engine.Payment.Refunds.{Refunds, refund-Refunds}
use mathlib.Core.List.{[]}
use qrib.Engine.Webhook.Redelivery.{handle_webhook-redelivered}
use qrib.Db.{ok, pure, World}
use qrib.Engine.Postings.{settlement_entries-IsBalanced, refund_entries_iff}
use qrib.Tests.Sample.{ready, dead_chain, world_in, payment}
use qrib.Engine.Config.{engine_config}
use qrib.Common.{codes, pos, some, ◌-ℤ◌, ◌↔◌, ◌≡◌, ◌≤ℤ◌, arith, true}
use qrib.Engine.Payment.{refund_entries, refund, give_up, resolve_review}
use qrib.Engine.Settlement.{settlement_entries}
use qrib.Engine.Funding.{wait_confirmations}
use qrib.Engine.Webhook.{Event, handle_webhook, noop}
use qrib.Ledger.Balance.{IsBalanced}
use qrib.Engine.Funding.Polls.{Polled, wait_confirmations_returns}

-- A gateway that never confirms: the wait ends past its deadline.
wait_confirmations_returns_example :
    Polled 12 302_000 (wait_confirmations engine_config dead_chain (codes "0x1") ready)
unfolding pure
wait_confirmations_returns_example =
    wait_confirmations_returns engine_config dead_chain (codes "0x1") ready (λ w. omega arith)

-- The conversion delivered Rp 150 less than the locked rate.
settlement_entries-IsBalanced_example :
    IsBalanced (settlement_entries (pos 32_000) (pos 320) (pos 31_850 -ℤ pos 32_000))
settlement_entries-IsBalanced_example =
    settlement_entries-IsBalanced (pos 32_000) (pos 320) (pos 31_850 -ℤ pos 32_000) (omega arith)
      (omega arith)

refund_entries_iff_example :
    IsBalanced (refund_entries (pos 2_030_051) (pos 10_000))
    ↔ ((pos 0 ≤ℤ pos 10_000) × (pos 10_000 ≤ℤ pos 2_030_051))
refund_entries_iff_example = refund_entries_iff (pos 2_030_051) (pos 10_000) (omega arith)

abbrev event : Event
event = record {
  event_id = codes "e1";
  kind = codes "settlement.completed";
  ref = some (codes "qris-p1");
}

handle_webhook-redelivered_example :
    let once = (handle_webhook (codes "mock-qris") event ready).1 in
    handle_webhook (codes "mock-qris") event once
    ≡ (ok (record { deduped = true; status = noop }), once)
handle_webhook-redelivered_example = handle_webhook-redelivered (codes "mock-qris") event ready

-- The payment's settlement failed, and its funds are to be returned.
abbrev stuck : World
stuck = world_in refund_required []

refund-Refunds_example : Refunds payment (pos 10_000) stuck (refund payment (pos 10_000) stuck)
refund-Refunds_example = refund-Refunds payment (pos 10_000) stuck

-- The payment waits for a review, and nothing has left the wallet.
abbrev reviewed : World
reviewed = world_in reconciliation_required []

resolve_review-Reviews_example :
    Reviews payment give_up
      (codes "no funds")
      reviewed
      (resolve_review payment give_up (codes "no funds") reviewed)
resolve_review-Reviews_example = resolve_review-Reviews payment give_up (codes "no funds") reviewed
