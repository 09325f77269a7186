-- ===== src/Tests/Calls.antt =====
-- The theorems on the routes, at the sample.
use qrib.Api.Reach.{answer_calls-terminal}
use qrib.States.{state_eq, authorized, failed}
use qrib.Api.Trail.{answer_calls-TrailIsValid}
use qrib.Engine.Serve.Trail.{TrailIsValid}
use qrib.Tests.Requests.{ready-TrailIsValid}
use qrib.Api.Payments.{QuoteFields, no_quote_fields}
use qrib.Api.Once.{answer_calls_once}
use qrib.Api.Refines.{answer_call-refines}
use qrib.Engine.Serve.{serve_one, Request}
use qrib.Engine.Serve.Broadcasts.{broadcasts}
use qrib.Engine.Providers.{Providers}
use qrib.Store.{list_intents, find_intent}
use qrib.Engine.Changes.Writes.{Respects, outside}
use qrib.Ledger.{payment_net}
use qrib.Db.{World, Runs, Runs-pure, ◌>>=◌, Intent}
use qrib.Common.{◌∷◌, ◌≡◌, codes, arith, refl, subst, ◌≤◌, ◌+◌, none, some, List, []}
use qrib.Api.Answers.{Answer, Body, answered, list_reply}
use qrib.Api.Idempotency.{Endpoint, Site, idempotency}
use qrib.Api.Payments.{execute_handler, cancel_handler, list_handler}
use qrib.Api.Replays.{Visit, visit, idempotency_replays}
use qrib.Api.Server.{Server, HttpCall, OperatorAction, answer_call, answer_calls}
use qrib.Api.Operator.{SignedCall}
use qrib.Api.Signed.{Guards, operator_route-Guards}
use qrib.Api.Books.{answer_calls-BooksBalance, Trusts}
use qrib.Engine.Config.{engine_config}
use qrib.Ledger.Balance.{BooksBalance}
use qrib.Tests.Sample.{ready, payment, mocks, mocks-Respects, intent_in, cancelled}

-- The mocks, with a keyed hash that returns its key.
abbrev pub server : Server
server = record {
  cfg = engine_config;
  sha256_hex = λ s. s;
  hmac_sha256 = λ key s. key;
  secret = some (codes "s3cret");
  env_providers = some mocks;
}

abbrev pub site : Site
site = record { world = ready; keys = [] }

abbrev pub pay : Endpoint
pay = record { method = codes "POST"; path = codes "/payments/p1/execute"; key = some (codes "k1") }

abbrev drop_it : Endpoint
drop_it = record {
  method = codes "POST";
  path = codes "/payments/p1/cancel";
  key = some (codes "k2");
}

-- The payment is cancelled; the answer is stored. Later it is executed under another key.
abbrev cancel_it : World → Answer × World
cancel_it = answered (cancel_handler payment Body.malformed)

abbrev execute_it : World → Answer × World
execute_it = answered (execute_handler engine_config (λ s. s) (some mocks) payment Body.malformed)

abbrev between : List Visit
between = record { endpoint = pay; handler = execute_it } ∷ []

-- The list of the payments.
abbrev list_them : World → Answer × World
list_them = answered list_handler

idempotency_replays_example :
    idempotency drop_it cancel_it (visit between (idempotency drop_it list_them site).1)
    ≡ ((idempotency drop_it list_them site).0, visit between (idempotency drop_it list_them site).1)
unfolding idempotency list_handler list_intents ◌>>=◌
idempotency_replays_example =
    idempotency_replays drop_it list_them cancel_it between site (list_reply ready.intents) refl
      refl

abbrev unsigned_call : SignedCall
unsigned_call = record {
  method = codes "POST";
  path = codes "/internal/payments/p1/refund";
  raw = [];
  signature = none;
}

operator_route-Guards_example :
    Guards server pay unsigned_call (OperatorAction.refund_payment payment Body.malformed) site
operator_route-Guards_example =
    operator_route-Guards server pay unsigned_call
      (OperatorAction.refund_payment payment Body.malformed) site

same_providers : (p : Providers) → some mocks ≡ some p → mocks ≡ p
same_providers p given = ground (arith, given)

pub server-Trusts : Trusts server
server-Trusts = record {
  calls = λ p given. subst (Respects outside) (same_providers p given) mocks-Respects;
  rates = λ p given.
      subst (λ (q : Providers). Runs outside q.off_ramp.ref_rate6) (same_providers p given)
        (Runs-pure _);
}

abbrev lunch : QuoteFields
lunch = record no_quote_fields { fiat_amount = some (codes "32000") }

abbrev ask : Endpoint
ask = record { method = codes "POST"; path = codes "/payments/quote"; key = some (codes "k4") }

-- A quote is asked for, and another payment is executed.
abbrev ask_and_pay : List (Endpoint × HttpCall)
ask_and_pay =
    (ask, HttpCall.post_quote (Body.object lunch))
    ∷ (pay, HttpCall.post_execute payment Body.malformed)
    ∷ []

answer_calls-TrailIsValid_example : TrailIsValid (answer_calls server ask_and_pay site).world
answer_calls-TrailIsValid_example =
    answer_calls-TrailIsValid server ask_and_pay site server-Trusts ready-TrailIsValid

-- The payment is executed twice under one key.
answer_calls-BooksBalance_example :
    BooksBalance
      (answer_calls server
        ((pay, HttpCall.post_execute payment Body.malformed)
          ∷ (pay, HttpCall.post_execute payment Body.malformed)
          ∷ [])
        site).world
unfolding payment_net
answer_calls-BooksBalance_example =
    answer_calls-BooksBalance server
      ((pay, HttpCall.post_execute payment Body.malformed)
        ∷ (pay, HttpCall.post_execute payment Body.malformed)
        ∷ [])
      site server-Trusts (λ id c. refl)

abbrev pay_again : Endpoint
pay_again = record {
  method = codes "POST";
  path = codes "/payments/p1/execute";
  key = some (codes "k3");
}

-- The payment is executed, and executed again under another key.
answer_calls_once_example :
    broadcasts payment
      (answer_calls server
        ((pay, HttpCall.post_execute payment Body.malformed)
          ∷ (pay_again, HttpCall.post_execute payment Body.malformed)
          ∷ [])
        site).world.calls
    ≤ broadcasts payment site.world.calls + 1
answer_calls_once_example =
    answer_calls_once server server-Trusts payment
      ((pay, HttpCall.post_execute payment Body.malformed)
        ∷ (pay_again, HttpCall.post_execute payment Body.malformed)
        ∷ [])
      site (intent_in authorized) refl refl

answer_call-refines_example :
    (answer_call server pay (HttpCall.post_execute payment Body.malformed) site).1.world
    ≡ serve_one engine_config mocks (Request.execute_it payment) ready
answer_call-refines_example =
    answer_call-refines server pay (HttpCall.post_execute payment Body.malformed) site

-- A payment that was cancelled is executed.
answer_calls-terminal_example :
    (j : Intent) × (find_intent payment
        (answer_calls server
          ((pay, HttpCall.post_execute payment Body.malformed) ∷ [])
          (record { world = cancelled; keys = [] })).world
      ≡ some j)
    × (j.status ≡ failed)
unfolding state_eq
answer_calls-terminal_example =
    answer_calls-terminal server ((pay, HttpCall.post_execute payment Body.malformed) ∷ [])
      (record { world = cancelled; keys = [] }) payment (intent_in failed) server-Trusts refl refl
