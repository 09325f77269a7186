-- ===== src/Engine/Quote/Pricing.antt =====
-- The amounts of `createQuote` of src/engine/quote.ts: the ceiling, and the caps.
use qrib.Engine.Providers.{OffRampProvider}
use mathlib.Core.Option.{none}
use qrib.Store.{sum_fiat, counts_today, daily_total_idr}
use qrib.Db.{◌>>◌, World, ok, err, quote_rejected}
use qrib.Common.{
  ℤ, ltb_ℤ, Option, quot, ◌≡◌, Text, ◌+ℤ◌, pos, ◌-ℤ◌, ℕ, some, arith, ◌↔◌, ◌<◌, ◌≤◌, select, ◌*◌,
  ◌∷◌, ◌≤ℤ◌, ◌⊎◌, inl, inr, Bool-cases, ◌+◌, refl, ◌/◌, ◌-◌,
}
use qrib.Engine.Config.{Config}
use qrib.Engine.Quote.{ceil_div, QuoteInput, check_daily_cap, check_caps, create_quote}
use native.Mathlib.Nat.{div-add-mod', mod-lt}
use mathlib.Core.List.{[]}

-- For an amount that is not negative and a positive rate, `ceilDiv` rounds up to the next whole micro: the result times the rate covers the amount, and
-- exceeds it by less than one micro's worth.
pub ceil_div-covers :
    (a b : ℕ) (w : World)
    → 0 < b
    → (n : ℕ) × (ceil_div (pos a) (pos b) w ≡ (ok (pos n), w)) × (a ≤ n * b) × (n * b < a + b)
unfolding ceil_div ◌>>◌ quot ◌+ℤ◌ ◌-ℤ◌
ceil_div-covers a b w h = (
  (a + b - 1) / b,
  ground (arith, h),
  omega (arith, h, div-add-mod' (a + b - 1) b, mod-lt (a + b - 1) h),
  omega (arith, h, div-add-mod' (a + b - 1) b, mod-lt (a + b - 1) h),
)

-- The user's payments of the last 24 hours and this one are within the daily cap; a missing or
-- empty user has none.
abbrev pub WithinDay : Config → Option Text → ℤ → World → Type 0
WithinDay cfg none amount w = Unit
WithinDay cfg (some []) amount w = Unit
WithinDay cfg (some (c ∷ u)) amount w =
    sum_fiat (select (counts_today (c ∷ u) w.now) w.intents) +ℤ amount ≤ℤ pos cfg.max_daily_idr

daily_cap-cases :
    (cfg : Config) (user : Option Text) (amount : ℤ) (w : World)
    → ((check_daily_cap cfg user amount w ≡ (ok tt, w)) × WithinDay cfg user amount w)
      ⊎ ((check_daily_cap cfg user amount w ≡ (err quote_rejected, w))
          × ¬ WithinDay cfg user amount w)
unfolding check_daily_cap daily_total_idr ◌>>◌
daily_cap-cases cfg none amount w = inl (refl, tt)
daily_cap-cases cfg (some []) amount w = inl (refl, tt)
daily_cap-cases cfg (some (c ∷ u)) amount w =
    let total = sum_fiat (select (counts_today (c ∷ u) w.now) w.intents) +ℤ amount in
    elim (Bool-cases (ltb_ℤ (pos cfg.max_daily_idr) total)) [
      | inl over ↦ inr (rw over refl, ground (arith, over))
      | inr within ↦ inl (rw within refl, ground (arith, within))
    ]

-- What `createQuote` accepts: a positive amount within the cap of a payment and the daily cap.
abbrev pub Admits : Config → QuoteInput → World → Type 0
Admits cfg input w =
    (pos 1 ≤ℤ input.fiat_amount_idr)
    × (input.fiat_amount_idr ≤ℤ pos cfg.max_payment_idr)
    × WithinDay cfg input.user_id input.fiat_amount_idr w

pub check_caps-cases :
    (cfg : Config) (input : QuoteInput) (w : World)
    → ((check_caps cfg input w ≡ (ok tt, w)) × Admits cfg input w)
      ⊎ ((check_caps cfg input w ≡ (err quote_rejected, w)) × ¬ Admits cfg input w)
unfolding check_caps ◌>>◌
check_caps-cases cfg input w = elim (daily_cap-cases cfg input.user_id input.fiat_amount_idr w) [
  | inl (passes, within) ↦ ground (arith, passes, within)
  | inr (fails, over) ↦ ground (arith, fails, over)
]

-- `createQuote` passes its three guards exactly when the amount is positive, within the cap of a
-- payment, and within the daily cap of the user, if one is named.
pub check_caps_iff :
    (cfg : Config) (input : QuoteInput) (w : World)
    → (check_caps cfg input w ≡ (ok tt, w)) ↔ Admits cfg input w
check_caps_iff cfg input w = elim (check_caps-cases cfg input w) [
  | inl (passes, admitted) ↦ (λ _. admitted, λ _. passes)
  | inr (fails, over) ↦ (λ e. absurd (ground (arith, e, fails)), λ admitted. absurd (over admitted))
]

-- An amount outside the caps is refused before the provider is asked for its rate, and nothing is
-- written.
pub create_quote_refused :
    (cfg : Config) (off_ramp : OffRampProvider) (input : QuoteInput) (w : World)
    → ¬ Admits cfg input w
    → create_quote cfg off_ramp input w ≡ (err quote_rejected, w)
unfolding create_quote ◌>>◌
create_quote_refused cfg off_ramp input w h = elim (check_caps-cases cfg input w) [
  | inl (passes, admitted) ↦ absurd (h admitted)
  | inr (fails, over) ↦ rw fails refl
]
