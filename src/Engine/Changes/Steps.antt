-- ===== src/Engine/Changes/Steps.antt =====
-- `execute` and the operator's completions of src/engine/service.ts, for every relation that the
-- writes respect.
use Prim.Native.Nat.{zero}
use qrib.Engine.Changes.Legs.{Runs-settle_remainder, Runs-begin_settlement}
use qrib.Engine.Common.{log_call}
use qrib.States.{
  State, authorized, crypto_confirmed, reconciliation_required, crypto_submitted,
  conversion_pending, fiat_settlement_pending, completed,
}
use qrib.Common.{Text, ℕ, ℤ, ◌≢◌, suc, refl, Option, leb, some, ltb, none}
use qrib.Engine.Execute.{resume_conversion, resume_settlement, execute_from, execute}
use qrib.Engine.Funding.{
  poll_confirmations, wait_confirmations, confirm_funding, after_broadcast, execute_fresh,
  resume_funding, confirm_round, funding_tail,
}
use qrib.Engine.Providers.{Providers}
use qrib.Engine.Config.{Config}
use qrib.Engine.Changes.Writes.{
  Allows, Respects, Runs-latest_attempts, Runs-latest_quote, Runs-record_chain_tx, Runs-transition,
  Runs-known_intent, Runs-sleep, Runs-the_intent, Runs-set_tx_hash,
}
use qrib.Db.{
  Change, Runs, Act, Intent, Runs-raise, Runs-bind, Runs-transaction, QuoteRow, Runs-gets,
  Runs-then, Runs-option_case, broadcast, Runs-if, Runs-pure, Runs-catch,
}

module _ {c : Change} (a : Allows c) (cfg : Config) (p : Providers) (r : Respects c p) where
  Runs-confirm_round :
      (hash : Text) (deadline : ℕ) (again : Act (Option ℕ))
      → Runs c again
      → Runs c (confirm_round cfg p hash deadline again)
  unfolding confirm_round
  Runs-confirm_round hash deadline again k = Runs-bind _ _ (r.confirmations hash) λ n.
      Runs-bind _ _ (Runs-gets _) λ now.
        Runs-if (leb cfg.required_confirmations n) _ _ (Runs-pure (some n))
          (Runs-if (ltb deadline now) _ _ (Runs-pure none) (Runs-then _ _ (Runs-sleep a) k))

  Runs-poll_confirmations :
      (fuel : ℕ) (hash : Text) (deadline : ℕ) → Runs c (poll_confirmations cfg p fuel hash deadline)
  unfolding poll_confirmations
  Runs-poll_confirmations zero hash deadline = Runs-raise _
  Runs-poll_confirmations (suc fuel) hash deadline =
      Runs-confirm_round hash deadline _ (Runs-poll_confirmations fuel hash deadline)

  Runs-wait_confirmations : (hash : Text) → Runs c (wait_confirmations cfg p hash)
  unfolding wait_confirmations
  Runs-wait_confirmations hash = Runs-bind _ _ (Runs-gets _) λ now. Runs-poll_confirmations _ hash _

  Runs-confirm_funding :
      (id hash : Text) (micros : ℤ) (n : ℕ) → Runs c (confirm_funding cfg p id hash micros n)
  unfolding confirm_funding
  Runs-confirm_funding id hash micros n = Runs-transaction _ (
      Runs-then _ _ (Runs-record_chain_tx a _)
        (Runs-then _ _ (a.moves id crypto_confirmed _ refl) (a.posts id _)))

  pub Runs-after_broadcast :
      (id hash : Text) (the_quote : Act QuoteRow)
      → Runs c the_quote
      → Runs c (after_broadcast cfg p id hash the_quote)
  unfolding after_broadcast
  Runs-after_broadcast id hash the_quote k = Runs-bind _ _ (Runs-wait_confirmations hash) λ polled.
      Runs-option_case _ _ _ (Runs-transition a id reconciliation_required _ refl) λ n.
        Runs-bind _ _ k λ q. Runs-then _ _ (Runs-confirm_funding id hash q.crypto_amount n) (
          Runs-then _ _ (Runs-transition a id conversion_pending _ refl)
            (Runs-settle_remainder a cfg p r id q.fiat_amount q.crypto_amount))

  -- From the broadcast on.
  pub Runs-funding_tail :
      (id : Text) (q : QuoteRow)
      → Runs c (log_call (broadcast id q.crypto_amount))
      → Runs c (funding_tail cfg p id q)
  unfolding funding_tail
  Runs-funding_tail id q logs =
      Runs-catch _ _ _ (Runs-then _ _ logs (r.submit_payment id q.crypto_amount))
        (λ hash.
          Runs-then _ _ (Runs-set_tx_hash a id hash) (Runs-after_broadcast id hash _ (Runs-pure q)))
        (λ e. Runs-transition a id reconciliation_required _ refl)

  pub Runs-execute_fresh :
      (id : Text)
      → ((usdc : ℤ) → Runs c (log_call (broadcast id usdc)))
      → Runs c (execute_fresh cfg p id)
  unfolding execute_fresh
  Runs-execute_fresh id logs = Runs-bind _ _ (Runs-latest_quote id) λ q.
      Runs-then _ _ (Runs-transition a id crypto_submitted _ refl)
        (Runs-funding_tail id q (logs q.crypto_amount))

  Runs-resume_funding : (id : Text) → Runs c (resume_funding cfg p id)
  unfolding resume_funding
  Runs-resume_funding id = Runs-bind _ _ (Runs-latest_attempts id) λ attempts.
      Runs-option_case _ _ _ (Runs-transition a id reconciliation_required _ refl)
        λ hash. Runs-after_broadcast id hash _ (Runs-latest_quote id)

  Runs-resume_conversion : (id : Text) → Runs c (resume_conversion cfg p id)
  unfolding resume_conversion
  Runs-resume_conversion id = Runs-bind _ _ (Runs-latest_quote id) λ q.
      Runs-bind _ _ (Runs-gets _) λ legs.
        Runs-if _ _ _ (Runs-the_intent id)
          (Runs-settle_remainder a cfg p r id q.fiat_amount q.crypto_amount)

  Runs-resume_settlement : (id : Text) → Runs c (resume_settlement cfg p id)
  unfolding resume_settlement
  Runs-resume_settlement id = Runs-bind _ _ (Runs-latest_quote id) λ q.
      Runs-bind _ _ (Runs-gets _) λ legs.
        Runs-option_case _ _ _ (Runs-transition a id reconciliation_required _ refl)
          (Runs-begin_settlement a cfg p r id q.fiat_amount)

  -- From a status other than AUTHORIZED `execute` makes no broadcast.
  pub Runs-execute_from :
      (status : State) (id : Text) (intent : Intent)
      → status ≢ authorized
      → Runs c (execute_from cfg p status id intent)
  unfolding execute_from
  Runs-execute_from authorized id intent h = absurd (h refl)
  Runs-execute_from crypto_submitted id intent h = Runs-resume_funding id
  Runs-execute_from conversion_pending id intent h = Runs-resume_conversion id
  Runs-execute_from fiat_settlement_pending id intent h = Runs-resume_settlement id
  Runs-execute_from completed id intent h = Runs-pure intent
  Runs-execute_from _ id intent h = Runs-raise _

  Runs-execute_at :
      (status : State) (id : Text) (intent : Intent)
      → ((usdc : ℤ) → Runs c (log_call (broadcast id usdc)))
      → Runs c (execute_from cfg p status id intent)
  unfolding execute_from
  Runs-execute_at authorized id intent logs = Runs-execute_fresh id logs
  Runs-execute_at status id intent logs = Runs-execute_from status id intent (λ e. cc)

  pub Runs-execute :
      (id : Text) → ((usdc : ℤ) → Runs c (log_call (broadcast id usdc))) → Runs c (execute cfg p id)
  unfolding execute
  Runs-execute id logs =
      Runs-bind _ _ (Runs-known_intent id) λ intent. Runs-execute_at intent.status id intent logs
