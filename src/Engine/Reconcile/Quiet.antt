-- ===== src/Engine/Reconcile/Quiet.antt =====
-- The engine keeps the ledger check of src/engine/reconcile.ts quiet.
use qrib.Engine.Changes.Writes.{Respects, outside}
use qrib.Engine.Providers.{Providers}
use qrib.Engine.Config.{Config}
use qrib.Common.{
  ◌≡◌, ◌++◌, ◌||◌, ◌∷◌, arith, pos, Option-cases, ap, not, eqb_ℤ, inl, refl, inr, any, List, ℕ, ℤ,
  Text, Bool, true, false, [],
}
use qrib.Engine.Reconcile.{
  unfunded, unconverted, unsettled, late, leg_issues, settlement_issues, late_issue, Issue, Check,
  reconcile_payment, net_issue, net_issues, issue_if, intent_issues, Currency, idr, World,
  payment_net, usdc, Intent, find_intent, dwell_sec,
}
use qrib.Engine.Serve.Books.{serve-BooksBalance}
use qrib.Engine.Serve.{serve, Request}
use qrib.Ledger.Balance.{BooksBalance}

abbrev pub is_ledger_check : Check → Bool
is_ledger_check (Check.ledger_balanced c net) = true
is_ledger_check _ = false

-- Some issue is about the ledger.
abbrev pub has_ledger_issue : List Issue → Bool
has_ledger_issue issues = any (λ i. is_ledger_check i.check) issues

any-append {ℓ} :
    {A : Type ℓ} (p : A → Bool) (xs ys : List A) → any p (xs ++ ys) ≡ (any p xs || any p ys)
any-append p [] ys = refl
any-append p (x ∷ xs) ys = ground (arith, any-append p xs ys)

pub balanced_net :
    (id : Text) (c : Currency) (w : World)
    → payment_net id c w.ledger ≡ pos 0
    → net_issue id c w ≡ []
balanced_net id c w e =
    ap (λ (net : ℤ). issue_if (not (eqb_ℤ net (pos 0))) id (Check.ledger_balanced c net)) e

balanced_nets : (id : Text) (w : World) → BooksBalance w → net_issues id w ≡ []
unfolding net_issues
balanced_nets id w h =
    rw (balanced_net id idr w (h id idr), balanced_net id usdc w (h id usdc)) refl

quiet_if :
    (b : Bool) (id : Text) (check : Check)
    → is_ledger_check check ≡ false
    → has_ledger_issue (issue_if b id check) ≡ false
quiet_if true id check e = ground (arith, e)
quiet_if false id check e = refl

quiet-append :
    (xs ys : List Issue)
    → has_ledger_issue xs ≡ false
    → has_ledger_issue ys ≡ false
    → has_ledger_issue (xs ++ ys) ≡ false
quiet-append xs ys hx hy =
    ground (arith, hx, hy, any-append (λ (i : Issue). is_ledger_check i.check) xs ys)

no_ledger_issue :
    (id : Text) (now : ℕ) (intent : Intent) (w : World)
    → has_ledger_issue (intent_issues id now intent w) ≡ false
unfolding intent_issues
no_ledger_issue id now intent w =
    let limit = Check.dwell intent.status (dwell_sec intent.status) in
    quiet-append (issue_if (unfunded id now intent w) id Check.chain_receipt)
      (leg_issues id now intent w) (quiet_if (unfunded id now intent w) id Check.chain_receipt refl)
      (quiet-append (issue_if (unconverted id now intent w) id Check.conversion_ref)
        (settlement_issues id now intent w)
        (quiet_if (unconverted id now intent w) id Check.conversion_ref refl)
        (quiet-append (issue_if (unsettled id now intent w) id Check.settlement_ref)
          (late_issue id now intent w)
          (quiet_if (unsettled id now intent w) id Check.settlement_ref refl)
          (quiet_if (late id now intent w) id limit refl)))

balanced_is_quiet :
    (id : Text) (now : ℕ) (w : World)
    → BooksBalance w
    → has_ledger_issue (reconcile_payment id now w) ≡ false
unfolding reconcile_payment
balanced_is_quiet id now w h = elim (Option-cases (find_intent id w)) [
  | inl missing ↦ rw missing refl
  | inr (intent, found) ↦ rw (found, balanced_nets id w h) (no_ledger_issue id now intent w)
]

-- However many requests the engine has served, and however the providers answered or failed: the
-- reconciler finds no payment whose ledger entries are out of balance, if the books balanced
-- before. The providers write to no payment, audit row, quote or ledger entry.
pub serve_reconciles :
    (cfg : Config) (p : Providers) (reqs : List Request) (w : World)
    → Respects outside p
    → BooksBalance w
    → (id : Text) (now : ℕ)
    → has_ledger_issue (reconcile_payment id now (serve cfg p reqs w)) ≡ false
serve_reconciles cfg p reqs w r h id now =
    balanced_is_quiet id now (serve cfg p reqs w) (serve-BooksBalance cfg p reqs w r h)
