-- ===== src/Tests/Requests.antt =====
-- The theorems on sequences of requests, at the sample: a double tap, a replayed webhook, a refund
-- that is refused, and the operator.
use qrib.Engine.Payment.{give_up}
use qrib.Engine.Config.{engine_config}
use qrib.Store.{find_intent}
use qrib.Tests.Sample.{payment, ready, dead_chain, dead_chain-Respects}
use qrib.Common.{
  codes, Bool-cases, text_eq, inl, ◌≡◌, text_eq_sound, inr, ◌∷◌, subst, pos, arith, some, List,
  Text, [], refl,
}
use qrib.Engine.Serve.Trail.{TrailIsValid, status_or_created, follow}
use qrib.States.{can_transition, state_eq, created}
use qrib.Engine.Serve.Reach.{Reaches, serve-Reaches}
use qrib.Engine.Serve.{Request, execute_it, serve, webhook, refund_it, resolve}
use qrib.Engine.Webhook.{Event}

abbrev settled_event : Event
settled_event = record {
  event_id = codes "e1";
  kind = codes "settlement.completed";
  ref = some (codes "qris-p1");
}

abbrev requests : List Request
requests =
    execute_it payment
    ∷ execute_it payment
    ∷ webhook (codes "mock-qris") settled_event
    ∷ webhook (codes "mock-qris") settled_event
    ∷ refund_it payment (pos 10_000)
    ∷ resolve payment give_up (codes "no funds")
    ∷ []

serve-Reaches_example : Reaches ready (serve engine_config dead_chain requests ready)
serve-Reaches_example = serve-Reaches engine_config dead_chain requests ready dead_chain-Respects

pub ready-TrailIsValid : TrailIsValid ready
unfolding can_transition state_eq
ready-TrailIsValid id = elim (Bool-cases (text_eq payment id)) [
  | inl same ↦
      subst
        (λ (x : Text).
          follow x created ready.attempts ≡ some (status_or_created (find_intent x ready)))
        (text_eq_sound payment id same) refl
  | inr apart ↦ ground (arith, apart)
]
