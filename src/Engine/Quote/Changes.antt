-- ===== src/Engine/Quote/Changes.antt =====
-- A relation that the writes of `createQuote` of src/engine/quote.ts respect.
use qrib.Engine.Common.{draw}
use qrib.States.{quoted}
use qrib.Db.{
  Runs, Runs-gets, Runs-if, Runs-then, World, Runs-transaction, Runs-pure, Runs-raise_if, Runs-bind,
  Runs-modify, Change,
}
use qrib.Engine.Config.{Config}
use qrib.Store.{daily_total_idr, Opts, transition_with}
use qrib.Engine.Providers.{OffRampProvider}
use qrib.Common.{none, Option, ℕ, ℤ, Text, refl}
use qrib.Engine.Changes.Writes.{Untouched, Untouched-refl}
use qrib.Engine.Quote.{
  create_quote, store_quote, insert_merchant, insert_intent, insert_quote, check_caps,
  check_daily_cap, ceil_div, QuoteInput, Quote,
}

-- What `createQuote` needs of a relation on states.
pub record AllowsQuote (c : Change) : Type 0 where
  pub untouched : (s t : World) → Untouched s t → c.rel s t
  pub intents :
      (cfg : Config) (id : Text) (merchant : Option Text) (input : QuoteInput) (s : World)
      → c.rel s (insert_intent cfg id merchant input s)
  pub quotes : (cfg : Config) (q : Quote) (s : World) → c.rel s (insert_quote cfg q s)
  pub moves : (id : Text) (opts : Opts) → Runs c (transition_with id quoted opts)

module _ {c : Change} (a : AllowsQuote c) where
  Runs-drawn : Runs c draw
  unfolding draw
  Runs-drawn =
      Runs-bind _ _ (Runs-gets _)
        λ id. Runs-then _ _ (Runs-modify _ λ s. a.untouched s _ (Untouched-refl s)) (Runs-pure id)

  daily_total-rel : (user : Text) → Runs c (daily_total_idr user)
  unfolding daily_total_idr
  daily_total-rel user = Runs-gets _

  check_daily_cap-rel :
      (cfg : Config) (user : Option Text) (amount : ℤ) → Runs c (check_daily_cap cfg user amount)
  unfolding check_daily_cap
  check_daily_cap-rel cfg user amount =
      Runs-if _ _ _ (Runs-pure tt) (Runs-bind _ _ (daily_total-rel _) λ day. Runs-raise_if _ _)

  check_caps-rel : (cfg : Config) (input : QuoteInput) → Runs c (check_caps cfg input)
  unfolding check_caps
  check_caps-rel cfg input = Runs-then _ _ (Runs-raise_if _ _) (
      Runs-then _ _ (Runs-raise_if _ _)
        (check_daily_cap-rel cfg input.user_id input.fiat_amount_idr))

  ceil_div-rel : (x y : ℤ) → Runs c (ceil_div x y)
  unfolding ceil_div
  ceil_div-rel x y = Runs-then _ _ (Runs-raise_if _ _) (Runs-pure _)

  insert_merchant-rel : (cfg : Config) (input : QuoteInput) → Runs c (insert_merchant cfg input)
  unfolding insert_merchant
  insert_merchant-rel cfg input = Runs-if _ _ _ (Runs-pure none) (
      Runs-bind _ _ Runs-drawn λ id.
        Runs-then _ _ (Runs-modify _ λ s. a.untouched s _ (refl, refl, refl, refl, refl))
          (Runs-pure _))

  store_quote-rel :
      (cfg : Config) (input : QuoteInput) (quoted6 total : ℤ) (expires_at : ℕ)
      → Runs c (store_quote cfg input quoted6 total expires_at)
  unfolding store_quote
  store_quote-rel cfg input quoted6 total expires_at = Runs-transaction _ (
      Runs-bind _ _ (insert_merchant-rel cfg input) λ merchant. Runs-bind _ _ Runs-drawn λ id.
        Runs-then _ _ (Runs-modify _ (a.intents cfg id merchant input)) (
          Runs-then _ _ (Runs-modify _ (a.quotes cfg _))
            (Runs-then _ _ (a.moves id _) (Runs-pure _))))

  pub create_quote-rel :
      (cfg : Config) (off_ramp : OffRampProvider) (input : QuoteInput)
      → Runs c off_ramp.ref_rate6
      → Runs c (create_quote cfg off_ramp input)
  unfolding create_quote
  create_quote-rel cfg off_ramp input rate = Runs-then _ _ (check_caps-rel cfg input) (
      Runs-bind _ _ rate λ ref6.
        Runs-bind _ _ (ceil_div-rel _ _)
          λ crypto. Runs-bind _ _ (Runs-gets _) λ now. store_quote-rel cfg input _ _ _)
