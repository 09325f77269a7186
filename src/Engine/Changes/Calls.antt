-- ===== src/Engine/Changes/Calls.antt =====
-- `handleWebhook`, `completeOperatorTask` and the direct requests of src/engine/service.ts, for
-- every relation that the writes respect.
use mathlib.Core.Option.{none}
use qrib.Engine.Changes.Legs.{Runs-complete_settlement, Runs-begin_settlement}
use qrib.Engine.Payment.{authorize, cancel, refund, resolve_review, ReviewExit, exit_state}
use qrib.Store.{Opts, transition_with, transition}
use qrib.Engine.Providers.{Providers}
use qrib.Engine.Config.{Config}
use qrib.Engine.Operator.{
  big_or_422, finish_conversion, ensure_conversion_leg, complete_conversion_task,
  ensure_settlement_leg, complete_settlement_task, complete_task_of, complete_operator_task,
  complete_refund_task,
}
use qrib.Engine.Webhook.{
  finish_event, settle_by_event, handle_webhook, WebhookStatus, Event, on_event,
}
use qrib.Engine.Changes.Writes.{
  Allows, Respects, Runs-mark_processed, Runs-get_intent, Runs-known_intent, Runs-record_event,
  Runs-draw, Runs-update_leg, Runs-file_conversion, Runs-file_leg, Runs-mark_task,
  Runs-latest_attempts, Runs-transition, Runs-latest_quote, Runs-set_proof,
}
use qrib.Db.{
  Change, Runs, Settlement, Runs-then, Runs-bind, Runs-raise, Runs-gets, Task, OperatorResult,
  Runs-pure, Runs-option_case, Runs-if, TaskKind, Runs-or_raise, Runs-transaction, Actor, Intent,
  Runs-raise_if,
}
use qrib.Common.{refl, not, Text, Option, ℤ, some, Bool, ltb_ℤ, ◌||◌, leb, is_decimal}
use qrib.States.{
  completed, failed, State, state_eq, conversion_pending, fiat_settlement_pending, authorized,
  refunded, reconciliation_required, refund_required, expired,
}

module _ {c : Change} (a : Allows c) where
  Runs-finish_event :
      (provider event_id : Text) (status : WebhookStatus)
      → Runs c (finish_event provider event_id status)
  unfolding finish_event
  Runs-finish_event provider event_id status =
      Runs-then _ _ (Runs-mark_processed a provider event_id) (Runs-pure _)

  Runs-settle_by_event :
      (provider : Text) (event : Event) (ref : Text) (leg : Settlement)
      → Runs c (settle_by_event provider event ref leg)
  unfolding settle_by_event
  Runs-settle_by_event provider event ref leg = Runs-bind _ _ (Runs-get_intent _) λ intent.
      Runs-bind _ _ (Runs-gets _) λ legs.
        Runs-option_case _ _ _ (Runs-finish_event provider event.event_id _) λ conv.
          Runs-then _ _ (Runs-complete_settlement a leg.payment_id ref _ _)
            (Runs-finish_event provider event.event_id _)

  pub Runs-handle_webhook :
      (provider : Text) (event : Event) → Runs c (handle_webhook provider event)
  unfolding handle_webhook on_event
  Runs-handle_webhook provider event = Runs-bind _ _ (Runs-gets _) λ known.
      Runs-if known _ _ (Runs-pure _) (
        Runs-then _ _ (Runs-record_event a provider event.event_id) (
          Runs-option_case _ _ _ (Runs-finish_event provider event.event_id _) λ ref.
            Runs-bind _ _ (Runs-gets _) λ leg.
              Runs-option_case _ _ _ (Runs-finish_event provider event.event_id _)
                (Runs-settle_by_event provider event ref)))

  Runs-big_or_422 : (t : Option Text) → Runs c (big_or_422 t)
  unfolding big_or_422
  Runs-big_or_422 none = Runs-raise _
  Runs-big_or_422 (some s) = Runs-if (is_decimal s) _ _ (Runs-pure _) (Runs-raise _)

  module _ (cfg : Config) (p : Providers) (r : Respects c p) where
    Runs-finish_conversion :
        (id leg_id : Text) (expected actual rate : ℤ) (ref : Option Text)
        → Runs c (finish_conversion cfg p id leg_id expected actual rate ref)
    unfolding finish_conversion
    Runs-finish_conversion id leg_id expected actual rate ref =
        Runs-if (ltb_ℤ actual expected) _ _
          (Runs-then _ _ (Runs-update_leg a leg_id actual rate ref _)
            (Runs-transition a id reconciliation_required _ refl))
          (Runs-then _ _ (Runs-update_leg a leg_id actual rate ref _)
            (Runs-begin_settlement a cfg p r id expected actual))

    Runs-ensure_conversion_leg :
        (task : Task) (id : Text) (crypto : ℤ) (ref : Text)
        → Runs c (ensure_conversion_leg cfg p task id crypto ref)
    unfolding ensure_conversion_leg
    Runs-ensure_conversion_leg task id crypto ref = Runs-bind _ _ (Runs-gets _) λ legs.
        Runs-option_case _ _ _
          (Runs-bind _ _ (Runs-draw a)
            λ leg_id. Runs-then _ _ (Runs-file_conversion a leg_id id _ _ _ _ ref _) (Runs-gets _))
          (λ _. Runs-pure legs)

    Runs-complete_conversion_task :
        (task : Task) (replayed : Bool) (intent : Intent) (result : OperatorResult)
        → Runs c (complete_conversion_task cfg p task replayed intent result)
    unfolding complete_conversion_task
    Runs-complete_conversion_task task replayed intent result =
        Runs-if (not (state_eq intent.status conversion_pending)) _ _
          (Runs-if
            (state_eq intent.status completed || state_eq intent.status fiat_settlement_pending) _ _
            (Runs-pure _) (Runs-raise _))
          (Runs-if (not result.is_completed) _ _
            (Runs-then _ _ (Runs-mark_task a task.id _ result) (
              Runs-bind _ _ (Runs-transition a task.payment_id refund_required _ refl)
                λ out. Runs-pure _))
            (Runs-then _ _ (Runs-raise_if _ _) (
              Runs-bind _ _ (Runs-latest_quote task.payment_id) λ q.
                Runs-bind _ _ (Runs-big_or_422 _) λ actual.
                  Runs-bind _ _ (Runs-big_or_422 _) λ rate.
                    Runs-then _ _ (Runs-mark_task a task.id _ result) (
                      Runs-bind _ _
                        (Runs-ensure_conversion_leg task task.payment_id q.crypto_amount _)
                        λ legs. Runs-bind _ _ (Runs-or_raise _ _) λ leg.
                          Runs-bind _ _
                            (Runs-finish_conversion task.payment_id leg.id q.fiat_amount actual rate
                              _)
                            λ out. Runs-pure _))))

    Runs-ensure_settlement_leg :
        (task : Task) (id : Text) (fiat : ℤ) → Runs c (ensure_settlement_leg cfg p task id fiat)
    unfolding ensure_settlement_leg
    Runs-ensure_settlement_leg task id fiat = Runs-bind _ _ (Runs-gets _) λ legs.
        Runs-option_case _ _ _
          (Runs-bind _ _ (Runs-draw a)
            λ leg_id. Runs-then _ _ (Runs-file_leg a leg_id id _ _ _) (Runs-gets _))
          (λ _. Runs-pure legs)

    Runs-complete_settlement_task :
        (task : Task) (replayed : Bool) (intent : Intent) (result : OperatorResult)
        → Runs c (complete_settlement_task cfg p task replayed intent result)
    unfolding complete_settlement_task
    Runs-complete_settlement_task task replayed intent result =
        Runs-if (not (state_eq intent.status fiat_settlement_pending)) _ _
          (Runs-if (state_eq intent.status completed) _ _ (Runs-pure _) (Runs-raise _))
          (Runs-if (not result.is_completed) _ _
            (Runs-then _ _ (Runs-mark_task a task.id _ result) (
              Runs-bind _ _ (Runs-transition a task.payment_id refund_required _ refl)
                λ out. Runs-pure _))
            (Runs-then _ _ (Runs-raise_if _ _) (
              Runs-bind _ _ (Runs-latest_quote task.payment_id) λ q.
                Runs-bind _ _ (Runs-ensure_settlement_leg task task.payment_id q.fiat_amount)
                  λ legs. Runs-bind _ _ (Runs-or_raise _ _) λ leg.
                    Runs-then _ _ (Runs-raise_if _ _) (
                      Runs-bind _ _ (Runs-gets _) λ convs.
                        Runs-then _ _ (Runs-set_proof a leg.id _) (
                          Runs-then _ _ (Runs-mark_task a task.id _ result) (
                            Runs-bind _ _ (Runs-complete_settlement a task.payment_id _ _ _)
                              λ out. Runs-pure _))))))

    Runs-complete_task_of :
        (kind : TaskKind) (task : Task) (replayed : Bool) (intent : Intent)
        (result : OperatorResult)
        → Runs c (complete_task_of cfg p kind task replayed intent result)
    unfolding complete_task_of complete_refund_task
    Runs-complete_task_of TaskKind.conversion task replayed intent result =
        Runs-complete_conversion_task task replayed intent result
    Runs-complete_task_of TaskKind.fiat_settlement task replayed intent result =
        Runs-complete_settlement_task task replayed intent result
    Runs-complete_task_of TaskKind.refund task replayed intent result =
        Runs-then _ _ (Runs-raise_if _ _)
          (Runs-then _ _ (Runs-mark_task a task.id _ result) (Runs-pure _))

    pub Runs-complete_operator_task :
        (task_id : Text) (result : OperatorResult)
        → Runs c (complete_operator_task cfg p task_id result)
    unfolding complete_operator_task
    Runs-complete_operator_task task_id result = Runs-bind _ _ (Runs-gets _) λ found.
        Runs-bind _ _ (Runs-or_raise _ _) λ task. Runs-then _ _ (Runs-raise_if _ _) (
          Runs-bind _ _ (Runs-known_intent task.payment_id)
            λ intent. Runs-complete_task_of task.kind task _ intent result)

-- The four requests that move a payment directly also use targets outside `is_target`.
module _ {c : Change} (id : Text) where
  Runs-move :
      (to : State) (opts : Opts)
      → Runs c (transition_with id to opts)
      → Runs c (transition id to opts)
  unfolding transition
  Runs-move to opts move = Runs-transaction _ move

  pub Runs-authorize :
      ((opts : Opts) → Runs c (transition_with id expired opts))
      → ((opts : Opts) → Runs c (transition_with id authorized opts))
      → (actor : Actor) → Runs c (authorize id actor)
  unfolding authorize
  Runs-authorize expires opens actor = Runs-bind _ _ (Runs-known_intent id) λ intent.
      Runs-if (state_eq intent.status authorized) _ _ (Runs-pure intent) (
        Runs-then _ _ (Runs-raise_if _ _) (
          Runs-bind _ _ (Runs-latest_quote id) λ q. Runs-bind _ _ (Runs-gets _) λ now.
            Runs-if (leb q.expires_at now) _ _
              (Runs-then _ _ (Runs-move expired _ (expires _)) (Runs-raise _))
              (Runs-move authorized _ (opens _))))

  pub Runs-cancel :
      ((opts : Opts) → Runs c (transition_with id failed opts))
      → (reason : Option Text) → Runs c (cancel id reason)
  unfolding cancel
  Runs-cancel fails reason =
      Runs-bind _ _ (Runs-known_intent id)
        λ intent. Runs-then _ _ (Runs-raise_if _ _) (Runs-move failed _ (fails _))

  pub Runs-refund :
      Allows c
      → ((opts : Opts) → Runs c (transition_with id refunded opts))
      → (cost : ℤ) → Runs c (refund id cost)
  unfolding refund
  Runs-refund a refunds cost = Runs-bind _ _ (Runs-known_intent id) λ intent.
      Runs-if (state_eq intent.status refunded) _ _ (Runs-pure intent) (
        Runs-then _ _ (Runs-raise_if _ _) (
          Runs-bind _ _ (Runs-latest_quote id)
            λ q. Runs-transaction _ (Runs-then _ _ (a.posts id _) (refunds _))))

  pub Runs-resolve_review :
      (to : ReviewExit)
      → ((opts : Opts) → Runs c (transition_with id (exit_state to) opts))
      → (reason : Text) → Runs c (resolve_review id to reason)
  unfolding resolve_review
  Runs-resolve_review to exits reason = Runs-then _ _ (Runs-raise_if _ _) (
      Runs-bind _ _ (Runs-known_intent id) λ intent. Runs-then _ _ (Runs-raise_if _ _) (
        Runs-bind _ _ (Runs-latest_attempts id)
          λ attempts. Runs-then _ _ (Runs-raise_if _ _) (Runs-move (exit_state to) _ (exits _))))
