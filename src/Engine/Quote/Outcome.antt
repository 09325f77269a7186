-- ===== src/Engine/Quote/Outcome.antt =====
-- `createQuote` of src/engine/quote.ts on every branch.
use qrib.Engine.Common.{draw, truthy, by_actor}
use qrib.Store.Transition.{transition_with-cases, Settles, transition-Settles}
use qrib.States.{State}
use qrib.Db.{
  QuoteRow, Intent, Result, Act, ok, continue, err, pure, ◌>>=◌, ◌>>◌, commit, transaction, Runs,
  modify, api, quote_locked,
}
use qrib.Engine.Quote.Pricing.{Admits, check_caps-cases}
use qrib.Engine.Quote.{
  create_quote, store_quote, insert_merchant, insert_intent, insert_quote, ceil_div, QuoteInput,
  Quote, Config, World, quoted, OffRampProvider,
}
use qrib.Engine.Changes.Writes.{Untouched, outside, Untouched-refl}
use qrib.Store.{find_intent, transition_with, Opts, advance, transition}
use qrib.Common.{
  ◌≡◌, refl, inl, ap, inr, ◌∙◌, ◌++◌, some, Option, List, ℕ, ℤ, Text, [], ◌∷◌, Bool-cases, eqb_ℤ,
  ◌||◌, pos, subst, sym,
}

-- The row of a quote.
abbrev IsRowOf : Quote → QuoteRow → Type 0
IsRowOf q r =
    (r.payment_id ≡ q.payment_id)
    × (r.crypto_amount ≡ q.usdc_micros)
    × (r.fiat_amount ≡ q.fiat_amount)
    × (r.rate ≡ q.rate6)
    × (r.expires_at ≡ q.expires_at)

-- The row that `createQuote` writes.
abbrev row_of : Quote → ℕ → QuoteRow
row_of q now = record {
  payment_id = q.payment_id;
  crypto_amount = q.usdc_micros;
  fiat_amount = q.fiat_amount;
  rate = q.rate6;
  spread_bps = q.spread_bps;
  fee_crypto = pos q.fee_crypto;
  fee_fiat = pos q.fee_fiat;
  expires_at = q.expires_at;
  created_at = now;
}

module _ (cfg : Config) (input : QuoteInput) (w : World) where
  -- A quoted payment with the row of its quote behind the quotes of before.
  abbrev pub IsOffer : Quote → World → Type 0
  IsOffer q t =
      (q.fiat_amount ≡ input.fiat_amount_idr)
      × ((i : Intent) × (find_intent q.payment_id t ≡ some i) × (i.status ≡ quoted))
      × ((r : QuoteRow) × IsRowOf q r × (t.quotes ≡ w.quotes ++ r ∷ []))

  abbrev pub Quotes : Result Quote × World → Type 0
  Quotes (ok q, t) = Admits cfg input w × IsOffer q t
  Quotes (err e, t) = Untouched w t

  abbrev Offers : Result Quote × World → Type 0
  Offers (ok q, t) = IsOffer q t
  Offers (err e, t) = Unit

  continue-Offers {ℓ} :
      {A : Type ℓ} (p : Result A × World) (f : A → Act Quote)
      → p.1.quotes ≡ w.quotes
      → ((a : A) (t : World) → t.quotes ≡ w.quotes → Offers (f a t))
      → Offers (continue p.0 f p.1)
  continue-Offers (ok a, t) f h k = k a t h
  continue-Offers (err e, t) f h k = tt

  settled-Offers :
      (q : Quote) (r : QuoteRow) (opts : Opts) (s : World) (p : Result Intent × World)
      → q.fiat_amount ≡ input.fiat_amount_idr
      → IsRowOf q r
      → p.1.quotes ≡ w.quotes ++ r ∷ []
      → Settles q.payment_id quoted opts s (commit s p)
      → Offers (continue p.0 (λ _. pure q) p.1)
  unfolding pure
  settled-Offers q r opts s (ok i, t) amount row kept (found, at, _, _) =
      (amount, (i, found, at), (r, row, kept))
  settled-Offers q r opts s (err e, t) amount row kept same = tt

  advance-quotes :
      (id : Text) (i : Intent) (to : State) (opts : Opts) (s : World)
      → (advance id i to opts s).quotes ≡ s.quotes
  unfolding advance
  advance-quotes id i to opts s = refl

  transition_with-quotes :
      (id : Text) (to : State) (opts : Opts) (s : World)
      → (transition_with id to opts s).1.quotes ≡ s.quotes
  transition_with-quotes id to opts s = elim (transition_with-cases id to opts s) [
    | inl same ↦ ap (λ (t : World). t.quotes) same
    | inr (intent, found, edge, e) ↦
        ap (λ (t : World). t.quotes) e ∙ advance-quotes id intent to opts s
  ]

  insert_merchant-quotes : (s : World) → (insert_merchant cfg input s).1.quotes ≡ s.quotes
  unfolding insert_merchant draw ◌>>=◌ ◌>>◌
  insert_merchant-quotes s =
      elim (Bool-cases (truthy input.merchant_name || truthy input.merchant_ref)) [
        | inl named ↦ rw named refl
        | inr nameless ↦ rw nameless refl
      ]

  draw-quotes : (s : World) → (draw s).1.quotes ≡ s.quotes
  unfolding draw ◌>>=◌ ◌>>◌
  draw-quotes s = refl

  -- The payment, its quote and the move to QUOTED.
  placed-Offers :
      (q : Quote) (merchant : Option Text) (s : World)
      → q.fiat_amount ≡ input.fiat_amount_idr
      → s.quotes ≡ w.quotes
      → Offers (
          (modify (insert_intent cfg q.payment_id merchant input)
              >> (modify (insert_quote cfg q)
                  >> (transition_with q.payment_id quoted (by_actor api quote_locked) >> pure q)))
            s)
  unfolding ◌>>=◌ ◌>>◌ insert_intent insert_quote transition transaction
  placed-Offers q merchant s amount h =
      let next = insert_quote cfg q (insert_intent cfg q.payment_id merchant input s) in
      settled-Offers q (row_of q s.now) (by_actor api quote_locked) next
        (transition_with q.payment_id quoted (by_actor api quote_locked) next) amount
        (refl, refl, refl, refl, refl)
        (transition_with-quotes q.payment_id quoted (by_actor api quote_locked) next
          ∙ ap (λ (rows : List QuoteRow). rows ++ row_of q s.now ∷ []) h)
        (transition-Settles q.payment_id quoted (by_actor api quote_locked) next)

  commit-Quotes :
      (s : World) (p : Result Quote × World)
      → Admits cfg input w
      → Untouched w s
      → Offers p
      → Quotes (commit s p)
  commit-Quotes s (ok q, t) admitted u offer = (admitted, offer)
  commit-Quotes s (err e, t) admitted u offer = u

  store_quote-Quotes :
      (quoted6 total : ℤ) (expires_at : ℕ) (s : World)
      → Admits cfg input w
      → Untouched w s
      → Quotes (store_quote cfg input quoted6 total expires_at s)
  unfolding store_quote transaction ◌>>=◌
  store_quote-Quotes quoted6 total expires_at s admitted u = commit-Quotes s _ admitted u (
      continue-Offers (insert_merchant cfg input s) _ (insert_merchant-quotes s ∙ u.2)
        λ merchant t h.
          continue-Offers (draw t) _ (draw-quotes t ∙ h)
            λ id t' h'. placed-Offers _ merchant t' refl h')

  continue-Quotes {ℓ} :
      {A : Type ℓ} (p : Result A × World) (f : A → Act Quote)
      → Untouched w p.1
      → ((a : A) (t : World) → Untouched w t → Quotes (f a t))
      → Quotes (continue p.0 f p.1)
  continue-Quotes (ok a, t) f u k = k a t u
  continue-Quotes (err e, t) f u k = u

  ceil_div_state : (a c : ℤ) (s : World) → (ceil_div a c s).1 ≡ s
  unfolding ceil_div ◌>>◌
  ceil_div_state a c s = elim (Bool-cases (eqb_ℤ c (pos 0))) [
    | inl zero_rate ↦ rw zero_rate refl
    | inr some_rate ↦ rw some_rate refl
  ]

  -- `createQuote` on every branch. It returns only where the amount is positive and within the caps;
  -- there is then a payment with the id that it returns, which is QUOTED, and behind the quotes of
  -- before the row of the quote returned, for the amount asked for. Where it throws, no payment, no
  -- quote, no audit row, no ledger entry and no call is written. What is assumed of the provider is
  -- that asking it for its rate writes none of these.
  pub create_quote-Quotes :
      (off_ramp : OffRampProvider)
      → Runs outside off_ramp.ref_rate6
      → Quotes (create_quote cfg off_ramp input w)
  unfolding create_quote ◌>>◌ ◌>>=◌
  create_quote-Quotes off_ramp rate = elim (check_caps-cases cfg input w) [
    | inr (fails, over) ↦ rw fails (Untouched-refl w)
    | inl (passes, admitted) ↦ rw passes (
        continue-Quotes (off_ramp.ref_rate6 w) _ (rate.at w) λ ref6 t u.
          continue-Quotes (ceil_div _ _ t) _ (subst (Untouched w) (sym (ceil_div_state _ _ t)) u)
            λ crypto t' u'. store_quote-Quotes _ _ _ t' admitted u')
  ]
