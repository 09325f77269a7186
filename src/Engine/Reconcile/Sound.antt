-- ===== src/Engine/Reconcile/Sound.antt =====
-- What an empty report of src/engine/reconcile.ts says.
use qrib.States.{state_eq→eq, state_eq_refl}
use qrib.Common.{
  ◌≡◌, ◌++◌, ◌↔◌, ◌&&◌, ◌∷◌, arith, pos, Option-cases, ap, not, eqb_ℤ→eq, eqb_ℤ, inl, refl, inr,
  sym, ◌∙◌, some, Option, List, ℕ, Text, Bool, true, false, [],
}
use qrib.Engine.Reconcile.{
  unfunded, unconverted, unsettled, late, leg_issues, settlement_issues, late_issue, Issue, Check,
  reconcile_payment, issue, issues_of, net_issue, net_issues, issue_if, intent_issues, past_funding,
  has_receipt, is_completed, is_converted, is_settled, Currency, idr, World, payment_net, usdc,
  Intent, find_intent, dwells_past, State, completed, dwell_sec,
}
use qrib.Engine.Reconcile.Quiet.{balanced_net}

-- What the reconciler checks of a payment.
pub record IsSound (id : Text) (now : ℕ) (w : World) : Type 0 where
  pub intent : Intent
  pub known : find_intent id w ≡ some intent
  pub nets : (c : Currency) → payment_net id c w.ledger ≡ pos 0
  pub receipt : past_funding intent.status ≡ true → has_receipt id w ≡ true
  pub converted : intent.status ≡ completed → is_converted id w ≡ true
  pub settled : intent.status ≡ completed → is_settled id w ≡ true
  pub in_time : dwells_past (dwell_sec intent.status) now intent ≡ false

append_nil_iff : (xs ys : List Issue) → (xs ++ ys ≡ []) ↔ ((xs ≡ []) × (ys ≡ []))
append_nil_iff [] ys = (λ e. (refl, e), λ h. h.1)
append_nil_iff (x ∷ xs) ys = (λ e. absurd (ground (arith, e)), λ h. absurd (ground (arith, h.0)))

issue_if_iff : (b : Bool) (id : Text) (check : Check) → (issue_if b id check ≡ []) ↔ (b ≡ false)
issue_if_iff true id check = (λ e. absurd (ground (arith, e)), λ e. absurd (ground (arith, e)))
issue_if_iff false id check = (λ e. refl, λ e. refl)

every_currency : (P : Currency → Type 0) → P idr → P usdc → (c : Currency) → P c
every_currency P r u idr = r
every_currency P r u usdc = u

net_issue_iff :
    (id : Text) (c : Currency) (w : World)
    → (net_issue id c w ≡ []) ↔ (payment_net id c w.ledger ≡ pos 0)
net_issue_iff id c w =
    let net = payment_net id c w.ledger in
    (
      λ e. eqb_ℤ→eq net (pos 0) (
          ground
            (arith, (issue_if_iff (not (eqb_ℤ net (pos 0))) id (Check.ledger_balanced c net)).0 e)),
      balanced_net id c w,
    )

module _ (id : Text) (now : ℕ) (w : World) where
  nets_iff : (net_issues id w ≡ []) ↔ ((c : Currency) → payment_net id c w.ledger ≡ pos 0)
  unfolding net_issues
  nets_iff = (
    λ e.
        let (r, u) = (append_nil_iff (net_issue id idr w) (net_issue id usdc w)).0 e in
        every_currency (λ c. payment_net id c w.ledger ≡ pos 0) ((net_issue_iff id idr w).0 r)
          ((net_issue_iff id usdc w).0 u),
    λ h. rw ((net_issue_iff id idr w).1 (h idr), (net_issue_iff id usdc w).1 (h usdc)) refl,
  )

  intent_iff :
      (intent : Intent)
      → (intent_issues id now intent w ≡ []) ↔ (
          (unfunded id now intent w ≡ false)
          × (unconverted id now intent w ≡ false)
          × (unsettled id now intent w ≡ false)
          × (late id now intent w ≡ false))
  unfolding intent_issues
  intent_iff intent = (
    λ e.
        let limit = Check.dwell intent.status (dwell_sec intent.status) in
        let (a, e1) =
          (append_nil_iff (issue_if (unfunded id now intent w) id Check.chain_receipt)
              (leg_issues id now intent w)).0
            e in
        let (b, e2) =
          (append_nil_iff (issue_if (unconverted id now intent w) id Check.conversion_ref)
              (settlement_issues id now intent w)).0
            e1 in
        let (c, d) =
          (append_nil_iff (issue_if (unsettled id now intent w) id Check.settlement_ref)
              (late_issue id now intent w)).0
            e2 in
        (
          (issue_if_iff (unfunded id now intent w) id Check.chain_receipt).0 a,
          (issue_if_iff (unconverted id now intent w) id Check.conversion_ref).0 b,
          (issue_if_iff (unsettled id now intent w) id Check.settlement_ref).0 c,
          (issue_if_iff (late id now intent w) id limit).0 d,
        ),
    λ (a, b, c, d). rw (a, b, c, d) refl,
  )

  rest-IsSound :
      (intent : Intent)
      → find_intent id w ≡ some intent
      → net_issues id w ≡ []
      → intent_issues id now intent w ≡ []
      → IsSound id now w
  rest-IsSound intent found nets rest =
      let (receipt, conv, settle, on_time) = (intent_iff intent).0 rest in
      record {
        intent = intent;
        known = found;
        nets = nets_iff.0 nets;
        receipt = λ past. ground (arith, receipt, past);
        converted = λ done. required (is_converted id w) intent.status done conv;
        settled = λ done. required (is_settled id w) intent.status done settle;
        in_time = on_time;
      }
    where
      required :
          (b : Bool) (s : State) → s ≡ completed → (is_completed s && not b) ≡ false → b ≡ true
      required b s done h =
          let yes : is_completed s ≡ true = ap is_completed done ∙ state_eq_refl completed in
          ground (arith, h, yes)

  quiet_of : IsSound id now w → reconcile_payment id now w ≡ []
  unfolding reconcile_payment
  quiet_of h =
      rw (h.known, nets_iff.1 h.nets)
        ((intent_iff h.intent).1 (
          implied (past_funding h.intent.status) (has_receipt id w) h.receipt,
          implied (is_completed h.intent.status) (is_converted id w)
              (λ e. h.converted (state_eq→eq _ _ e)),
          implied (is_completed h.intent.status) (is_settled id w)
              (λ e. h.settled (state_eq→eq _ _ e)),
          h.in_time,
        ))
    where
      implied : (a b : Bool) → (a ≡ true → b ≡ true) → (a && not b) ≡ false
      implied true b h = ground (arith, h refl)
      implied false b h = refl

  report-IsSound : reconcile_payment id now w ≡ [] → IsSound id now w
  unfolding reconcile_payment
  report-IsSound e = elim (Option-cases (find_intent id w)) [
    | inl missing ↦
        absurd (no_issue (ap (λ (o : Option Intent). issues_of id now o w) (sym missing) ∙ e))
    | inr (intent, found) ↦
        let same : net_issues id w ++ intent_issues id now intent w ≡ [] =
          ap (λ (o : Option Intent). issues_of id now o w) (sym found) ∙ e in
        let (nets, rest) =
          (append_nil_iff (net_issues id w) (intent_issues id now intent w)).0 same in
        rest-IsSound intent found nets rest
  ]
    where
      no_issue : issue id Check.exists ∷ [] ≡ [] → ⊥
      no_issue e = ground (arith, e)

-- `reconcilePayment` reports nothing exactly where the payment is known, its ledger entries net to 0
-- in both currencies, there is an on-chain record if its status is past funding, both legs have a
-- reference if it is completed, and it is within the limit of its state.
pub reconcile_payment-IsSound_iff :
    (id : Text) (now : ℕ) (w : World) → (reconcile_payment id now w ≡ []) ↔ IsSound id now w
reconcile_payment-IsSound_iff id now w = (report-IsSound id now w, quiet_of id now w)
