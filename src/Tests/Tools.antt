-- ===== src/Tests/Tools.antt =====
-- The theorems on the scripts, at the sample.
use qrib.Api.Answers.{Body}
use qrib.Engine.Reconcile.Sound.{IsSound}
use qrib.Tests.Sample.{payment, ready}
use qrib.Db.{pure, ok}
use qrib.Api.Server.{answer_call, HttpCall, OperatorAction, act}
use qrib.Scripts.Reconcile.{reconcile_main, reconcile_main-IsSound}
use qrib.Api.Operator.{SignedCall}
use qrib.Scripts.Operator.{
  OperatorCall, main_call, add_flags, script_call, Scripted, report_flags, before_query,
}
use qrib.Scripts.Operator.Accepted.{
  script_call_accepted, ReadsPaths, before_query_plain, before_query_followed,
}
use qrib.Tests.Calls.{server, site, pay}
use qrib.Common.{◌≡◌, codes, ◌∷◌, refl, none, some, List, Text, true, [], ◌⊎◌, ap}

-- `operator refund p1 --reference 0x1 --cost 5`
abbrev refund_argv : List Text
refund_argv =
    codes "node"
    ∷ codes "operator.ts"
    ∷ codes "refund"
    ∷ codes "p1"
    ∷ codes "--reference"
    ∷ codes "0x1"
    ∷ codes "--cost"
    ∷ codes "5"
    ∷ []

abbrev refund_it : OperatorCall
refund_it =
    OperatorCall.post_to (codes "/internal/payments/p1/refund")
      ((codes "reference", codes "0x1") ∷ (codes "networkCostUsdcMicros", codes "5") ∷ [])

refund_argv_prepared : main_call refund_argv ≡ Scripted.prepared refund_it
unfolding main_call
refund_argv_prepared = refl

-- Two flags for one field: the later one counts.
flags_alias :
    add_flags
      (codes "--fiatAmountIdr" ∷ codes "1" ∷ codes "--fiat" ∷ codes "2" ∷ [])
      report_flags
      []
    ≡ (codes "fiatAmountIdr", codes "2") ∷ []
flags_alias = refl

-- A text for the fields that is easy to write.
abbrev first_value : List (Text × Text) → Text
first_value [] = []
first_value ((k, v) ∷ rest) = v

abbrev refund_signed : SignedCall
refund_signed = record {
  method = codes "POST";
  path = codes "/internal/payments/p1/refund";
  raw = codes "0x1";
  signature = some (codes "s3cret");
}

-- A reader of addresses: it leaves the query away.
before_query-ReadsPaths : ReadsPaths before_query
before_query-ReadsPaths = record {
  bare = λ p h. ap (λ (t : Text). b'/' ∷ t) (before_query_plain p h);
  queried = λ p q h. ap (λ (t : Text). b'/' ∷ t) (before_query_followed p q h);
}

script_call_accepted_example :
    answer_call server pay
      (HttpCall.internal refund_signed (OperatorAction.refund_payment payment Body.malformed))
      site
    ≡ act server pay (OperatorAction.refund_payment payment Body.malformed) site
unfolding script_call
script_call_accepted_example =
    script_call_accepted server first_value before_query before_query-ReadsPaths refund_argv
      refund_it pay (OperatorAction.refund_payment payment Body.malformed) site refund_signed refl
      refund_argv_prepared refl

reconcile_main-IsSound_example :
    (IsSound payment 2000 ready
      × (reconcile_main (λ url r. pure true) none 2000 (some payment) ready ≡ (ok 0, ready)))
    ⊎ (¬ IsSound payment 2000 ready
        × (reconcile_main (λ url r. pure true) none 2000 (some payment) ready ≡ (ok 1, ready)))
reconcile_main-IsSound_example =
    reconcile_main-IsSound (λ url r. pure true) none 2000 payment ready refl refl
