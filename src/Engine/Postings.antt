-- ===== src/Engine/Postings.antt =====
-- The postings of src/engine/service.ts: those of `completeSettlement`, `confirmFunding` and
-- `refund` are accepted by `postEntries`.
use qrib.Ledger.Balance.{IsBalanced}
use qrib.Common.{ℤ, pos, ◌≤ℤ◌, ◌↔◌, Bool-cases, int_laws, leb_ℤ, inl, refl, arith, inr}
use qrib.Engine.Payment.{refund_entries}
use qrib.Engine.Settlement.{settlement_entries, spread_legs}

-- The rupiah and the fee are not negative: then the settlement's posting is balanced, whatever the
-- conversion delivered, more than the locked rate or less.
pub settlement_entries-IsBalanced :
    (fiat_idr fee_idr drift : ℤ)
    → pos 0 ≤ℤ fiat_idr
    → pos 0 ≤ℤ fee_idr
    → IsBalanced (settlement_entries fiat_idr fee_idr drift)
unfolding settlement_entries spread_legs
settlement_entries-IsBalanced fiat_idr fee_idr drift h k = elim (Bool-cases (leb_ℤ (pos 0) drift)) [
  | inl gain ↦
      let up : pos 0 ≤ℤ drift = ground (arith, gain) in
      rw gain
        (record { legs = grind (int_laws, h, k, up); idr_net = omega int_laws; usdc_net = refl })
  | inr loss ↦
      let down : drift ≤ℤ pos 0 = ground (arith, loss) in
      rw loss
        (record { legs = grind (int_laws, h, k, down); idr_net = omega int_laws; usdc_net = refl })
]

-- A refund's posting is balanced exactly when the cost is not negative and no more than is held.
pub refund_entries_iff :
    (held cost : ℤ)
    → pos 0 ≤ℤ held
    → IsBalanced (refund_entries held cost) ↔ ((pos 0 ≤ℤ cost) × (cost ≤ℤ held))
unfolding refund_entries
refund_entries_iff held cost h = (
  λ b. (grind (int_laws, b.legs), grind (int_laws, b.legs)),
  λ c. record { legs = grind (int_laws, h, c); idr_net = refl; usdc_net = omega int_laws },
)
