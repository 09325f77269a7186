-- ===== src/Engine/Quote.antt =====
-- src/engine/quote.ts: `createQuote`, with its caps and the ceiling.
pub mod Pricing
pub mod Display
pub mod Changes
pub mod Outcome
use qrib.States.{created, quoted}
use qrib.Store.{daily_total_idr, transition_with}
use qrib.Engine.Common.{truthy, draw, by_actor}
use qrib.Engine.Providers.{OffRampProvider}
use qrib.Db.{
  Act, World, ⊤, transaction, ◌>>◌, raise_if, ◌>>=◌, gets, range_error, pure, quote_rejected,
  modify, api, quote_locked,
}
use qrib.Engine.Config.{Config}
use qrib.Common.{
  ℤ, Text, Option, ℕ, quot, ◌*ℤ◌, if◌then◌else◌, not, pos, eqb_ℤ, leb_ℤ, ◌-ℤ◌, ◌||◌, ◌+ℤ◌, ltb_ℤ,
  none, ◌+◌, or_else, ◌*◌, ◌++◌, ◌∷◌, some,
}
use mathlib.Core.List.{[]}

-- `ceilDiv` on bigints; a division by `0n` throws.
unfoldable pub ceil_div : ℤ → ℤ → Act ℤ
ceil_div a b = do raise_if (eqb_ℤ b (pos 0)) range_error; pure (quot (a +ℤ b -ℤ pos 1) b)

pub record QuoteInput : Type 0 where
  pub fiat_amount_idr : ℤ
  pub merchant_name : Option Text
  pub merchant_ref : Option Text
  pub user_id : Option Text
  pub ttl_sec : Option ℕ

-- `Quote`, without the texts that only display its numbers.
pub record Quote : Type 0 where
  pub payment_id : Text
  pub usdc_micros : ℤ
  pub fiat_amount : ℤ
  pub rate6 : ℤ
  pub spread_bps : ℕ
  pub fee_crypto : ℕ
  pub fee_fiat : ℕ
  pub expires_at : ℕ

module _ (cfg : Config) where
  -- The three guards on the amount.
  unfoldable pub check_daily_cap : Option Text → ℤ → Act ⊤
  check_daily_cap user amount = if not (truthy user) then pure tt else do
    day ← daily_total_idr (or_else user [])
    raise_if (ltb_ℤ (pos cfg.max_daily_idr) (day +ℤ amount)) quote_rejected

  unfoldable pub check_caps : QuoteInput → Act ⊤
  check_caps input = do
    raise_if (leb_ℤ input.fiat_amount_idr (pos 0)) quote_rejected
    raise_if (ltb_ℤ (pos cfg.max_payment_idr) input.fiat_amount_idr) quote_rejected
    check_daily_cap input.user_id input.fiat_amount_idr

  -- The quoted rate: the reference less the spread.
  unfoldable pub quoted_rate6 : ℤ → ℤ
  quoted_rate6 ref6 = quot (ref6 *ℤ (pos 10_000 -ℤ pos cfg.spread_bps)) (pos 10_000)

  unfoldable pub insert_merchant : QuoteInput → Act (Option Text)
  insert_merchant input =
      if not (truthy input.merchant_name || truthy input.merchant_ref) then pure none else do
        id ← draw
        modify (λ w. record w {
          merchants =
              w.merchants
              ++ record { id = id; merchant_id = input.merchant_ref; name = input.merchant_name }
                ∷ [];
        })
        pure (some id)

  -- The row of a new payment. That the user is one of the table of users is not checked here, as the
  -- database does.
  unfoldable pub insert_intent : Text → Option Text → QuoteInput → World → World
  insert_intent id merchant_id input w = record w {
    intents =
        w.intents
        ++ record {
          id = id;
          user_id = input.user_id;
          merchant_id = merchant_id;
          fiat_amount = input.fiat_amount_idr;
          status = created;
          state_entered_at = w.now;
          failure_reason = none;
          created_at = w.now;
          updated_at = w.now;
        }
          ∷ [];
  }

  unfoldable pub insert_quote : Quote → World → World
  insert_quote q w = record w {
    quotes =
        w.quotes
        ++ record {
          payment_id = q.payment_id;
          crypto_amount = q.usdc_micros;
          fiat_amount = q.fiat_amount;
          rate = q.rate6;
          spread_bps = q.spread_bps;
          fee_crypto = pos q.fee_crypto;
          fee_fiat = pos q.fee_fiat;
          expires_at = q.expires_at;
          created_at = w.now;
        }
          ∷ [];
  }

  -- The transaction of `createQuote`: no payment is left unquoted.
  unfoldable pub store_quote : QuoteInput → ℤ → ℤ → ℕ → Act Quote
  store_quote input quoted6 total expires_at = transaction do
    merchant_id ← insert_merchant input
    id ← draw
    modify (insert_intent id merchant_id input)
    let q : Quote = record {
      payment_id = id;
      usdc_micros = total;
      fiat_amount = input.fiat_amount_idr;
      rate6 = quoted6;
      spread_bps = cfg.spread_bps;
      fee_crypto = cfg.fee_usdc_micros;
      fee_fiat = cfg.fee_idr;
      expires_at = expires_at;
    }
    modify (insert_quote q)
    transition_with id quoted (by_actor api quote_locked)
    pure q

  -- `createQuote`
  unfoldable pub create_quote : OffRampProvider → QuoteInput → Act Quote
  create_quote off_ramp input = do
    check_caps input
    ref6 ← off_ramp.ref_rate6
    let quoted6 = quoted_rate6 ref6
    crypto ← ceil_div (input.fiat_amount_idr *ℤ pos 1_000_000_000_000) quoted6
    now ← gets (λ w. w.now)
    store_quote input quoted6 (crypto +ℤ pos cfg.fee_usdc_micros)
        (now + or_else input.ttl_sec cfg.quote_ttl_sec * 1000)
