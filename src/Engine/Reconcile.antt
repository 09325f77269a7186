-- ===== src/Engine/Reconcile.antt =====
-- src/engine/reconcile.ts and src/engine/alert.ts: the scheduled check that chain, providers and
-- ledger agree, and the alert.
pub mod Quiet
pub mod Sound
use mathlib.Core.Option.{none}
use mathlib.Core.Bool.{true, false, not}
use qrib.Store.{find_intent, list_intents, stuck_intents, dwells_past}
use qrib.Engine.Common.{truthy}
use qrib.Ledger.{payment_net, currency_eq}
use qrib.Common.{
  Text, ℤ, Bool, Option, ℕ, List, true, if◌then◌else◌, any, length, ◌∷◌, first, text_eq, ◌==◌, some,
  [], eqb_ℤ, ◌++◌, pos, or_else, ◌&&◌, map,
}
use qrib.Db.{
  Currency, World, Act, LedgerRow, Conversion, Settlement, Intent, ◌>>=◌, pure, gets, catch, usdc,
  idr,
}
use qrib.States.{
  State, dwell_sec, state_eq, crypto_confirmed, conversion_pending, fiat_settlement_pending,
  refund_required, refunded, completed,
}

-- `check` with what `detail` inserts.
pub data Check : Type 0 where
  exists : Check
  ledger_balanced : Currency → ℤ → Check
  chain_receipt conversion_ref settlement_ref : Check
  dwell : State → Option ℕ → Check

-- `Issue`
pub record Issue : Type 0 where
  pub payment_id : Text
  pub check : Check

-- `PAST_FUNDING.includes(status)`
abbrev pub past_funding : State → Bool
past_funding crypto_confirmed = true
past_funding conversion_pending = true
past_funding fiat_settlement_pending = true
past_funding completed = true
past_funding refund_required = true
past_funding refunded = true
past_funding _ = false

abbrev pub issue : Text → Check → Issue
issue id check = record { payment_id = id; check = check }

-- An issue, where the test holds.
abbrev pub issue_if : Bool → Text → Check → List Issue
issue_if b id check = if b then issue id check ∷ [] else []

abbrev pub net_issue : Text → Currency → World → List Issue
net_issue id c w =
    let net = payment_net id c w.ledger in
    issue_if (not (eqb_ℤ net (pos 0))) id (ledger_balanced c net)

-- The nets of `paymentNets`. The database gives its groups in no order; here rupiah come first. A
-- currency without rows nets to 0.
unfoldable pub net_issues : Text → World → List Issue
net_issues id w = net_issue id idr w ++ net_issue id usdc w

abbrev pub has_receipt : Text → World → Bool
has_receipt id w = any (λ t. text_eq t.payment_id id) w.chain_txs

abbrev pub reference_of_conversion : Option Conversion → Option Text
reference_of_conversion none = none
reference_of_conversion (some l) = l.reference

abbrev pub reference_of_settlement : Option Settlement → Option Text
reference_of_settlement none = none
reference_of_settlement (some l) = l.reference

abbrev pub is_converted : Text → World → Bool
is_converted id w =
    truthy (reference_of_conversion (first (λ l. text_eq l.payment_id id) w.conversions))

abbrev pub is_settled : Text → World → Bool
is_settled id w =
    truthy (reference_of_settlement (first (λ l. text_eq l.payment_id id) w.settlements))

abbrev pub is_completed : State → Bool
is_completed s = state_eq s completed

module _ (id : Text) (now : ℕ) (intent : Intent) (w : World) where
  abbrev pub unfunded : Bool
  unfunded = past_funding intent.status && not (has_receipt id w)

  abbrev pub unconverted : Bool
  unconverted = is_completed intent.status && not (is_converted id w)

  abbrev pub unsettled : Bool
  unsettled = is_completed intent.status && not (is_settled id w)

  abbrev pub late : Bool
  late = dwells_past (dwell_sec intent.status) now intent

  abbrev pub late_issue : List Issue
  late_issue = issue_if late id (dwell intent.status (dwell_sec intent.status))

  abbrev pub settlement_issues : List Issue
  settlement_issues = issue_if unsettled id settlement_ref ++ late_issue

  abbrev pub leg_issues : List Issue
  leg_issues = issue_if unconverted id conversion_ref ++ settlement_issues

  unfoldable pub intent_issues : List Issue
  intent_issues = issue_if unfunded id chain_receipt ++ leg_issues

abbrev pub issues_of : Text → ℕ → Option Intent → World → List Issue
issues_of id now none w = issue id exists ∷ []
issues_of id now (some intent) w = net_issues id w ++ intent_issues id now intent w

-- `reconcilePayment`
unfoldable pub reconcile_payment : Text → ℕ → World → List Issue
reconcile_payment id now w = issues_of id now (find_intent id w) w

pub record Report : Type 0 where
  pub issues : List Issue
  pub stuck : List Text

abbrev pub reconcile_each : ℕ → World → List Intent → List Issue
reconcile_each now w [] = []
reconcile_each now w (i ∷ rest) = reconcile_payment i.id now w ++ reconcile_each now w rest

-- `reconcileAll`
unfoldable pub reconcile_all : ℕ → Act Report
reconcile_all now = do
  intents ← list_intents 500
  issues ← gets (λ w. reconcile_each now w intents)
  stuck ← stuck_intents now dwell_sec
  pure (record { issues = issues; stuck = map (λ i. i.id) stuck })

pub data AlertResult : Type 0 where
  sent skipped failed : AlertResult

-- `issuesQuiet`
abbrev pub issues_quiet : Report → Bool
issues_quiet r = (length r.issues == 0) && (length r.stuck == 0)

abbrev pub alert_of : Bool → AlertResult
alert_of true = AlertResult.sent
alert_of false = AlertResult.failed

module _ (post : Text → Report → Act Bool) where
  -- `alertIfNeeded`; the request is the platform's, and says whether the answer was a success.
  unfoldable pub alert_if_needed : Option Text → Report → Act AlertResult
  alert_if_needed url r =
      if issues_quiet r
      then pure AlertResult.skipped
      else if not (truthy url)
      then pure AlertResult.skipped
      else catch (post (or_else url []) r) (λ is_ok. pure (alert_of is_ok))
          (λ _. pure AlertResult.failed)
