-- ===== src/Tests/Reports.antt =====
-- The theorems on the reconciler, at the sample.
use qrib.Ledger.{payment_net}
use qrib.Common.{◌≡◌, ◌∷◌, refl, false, []}
use qrib.Engine.Reconcile.{reconcile_payment}
use qrib.Engine.Reconcile.Quiet.{serve_reconciles, has_ledger_issue}
use qrib.Engine.Serve.{serve, Request}
use qrib.Engine.Config.{engine_config}
use qrib.Tests.Sample.{ready, payment, mocks, mocks-Respects}

-- The payment is executed, and executed again.
serve_reconciles_example :
    has_ledger_issue (
      reconcile_payment payment 3000 (
        serve engine_config mocks
          (Request.execute_it payment ∷ Request.execute_it payment ∷ [])
          ready))
    ≡ false
unfolding payment_net
serve_reconciles_example =
    serve_reconciles engine_config mocks
      (Request.execute_it payment ∷ Request.execute_it payment ∷ []) ready mocks-Respects
      (λ id c. refl) payment 3000
