-- ===== src/Engine/Operator.antt =====
-- `completeOperatorTask` of src/engine/service.ts: a signed operator action resumes a manual leg.
mod Reports
pub use Reports.*
unfoldable pub use Reports.{mark_task, big_or_422, update_leg, set_proof}
use qrib.Engine.Settlement.{file_leg, begin_settlement, is_pending, complete_settlement}
use qrib.Store.{transition}
use qrib.Engine.Common.{truthy, draw, known_intent, by_actor, latest_quote}
use qrib.States.{
  state_eq, conversion_pending, fiat_settlement_pending, reconciliation_required, refund_required,
  completed,
}
use mathlib.Core.Option.{none}
use qrib.Engine.Conversion.{legs_of, file_conversion}
use qrib.Engine.Providers.{Providers}
use qrib.Engine.Config.{Config}
use qrib.Db.{
  OperatorResult, TaskStatus, Task, Conversion, Intent, Settlement, Act, LegStatus, TaskKind, raise,
  pure, ◌>>=◌, ◌>>◌, payment_error, gets, raise_if, modify, option_case, or_raise, operator,
  short_conversion, conversion_failure_reported, settlement_failure_reported, type_error,
}
use qrib.Common.{
  Text, ℤ, Bool, Option, some, not, ◌&&◌, List, or_else, if◌then◌else◌, ltb_ℤ, head?, ◌||◌, codes,
  ◌++◌,
}

module _ (cfg : Config) (p : Providers) where
  -- The reported amount is short of the quote: the leg is partial, and a human reviews it.
  unfoldable pub finish_conversion : Text → Text → ℤ → ℤ → ℤ → Option Text → Act Intent
  finish_conversion id leg_id expected actual rate ref =
      if ltb_ℤ actual expected
      then (do
        modify (update_leg leg_id actual rate ref LegStatus.partial)
        transition id reconciliation_required
            (by_actor operator (short_conversion actual expected)))
      else do
        modify (update_leg leg_id actual rate ref LegStatus.completed)
        begin_settlement cfg p id expected actual

  -- The legs of the payment; where none landed before a crash, one is rebuilt from the task.
  unfoldable pub ensure_conversion_leg : Task → Text → ℤ → Text → Act (List Conversion)
  ensure_conversion_leg task id crypto ref = do
    legs ← gets (legs_of id)
    option_case (head? legs)
        (do
          leg_id ← draw
          modify (
              file_conversion leg_id id p.off_ramp.name (or_else task.payload.usdc_micros crypto)
                none none ref LegStatus.pending)
          gets (legs_of id))
        (λ _. pure legs)

  unfoldable pub complete_conversion_task :
      Task → Bool → Intent → OperatorResult → Act OperatorReply
  complete_conversion_task task replayed intent result =
      let id = task.payment_id in
      if not (state_eq intent.status conversion_pending)
      then (if state_eq intent.status completed || state_eq intent.status fiat_settlement_pending
          then reply replayed intent
          else raise (payment_error 409))
      else if not result.is_completed
      then (do
        modify (mark_task task.id TaskStatus.failed result)
        out ←
            transition id refund_required
              (by_actor operator (note_or result.note conversion_failure_reported))
        reply replayed out)
      else do
        raise_if (not (truthy result.reference)) (payment_error 422)
        q ← latest_quote id
        actual ← big_or_422 result.fiat_amount_idr
        rate ← big_or_422 result.rate_executed6
        modify (mark_task task.id TaskStatus.completed result)
        legs ← ensure_conversion_leg task id q.crypto_amount (reference_text result.reference)
        leg ← or_raise (first_or_head pending_conversion legs) type_error
        out ← finish_conversion id leg.id q.fiat_amount actual rate result.reference
        reply replayed out

  unfoldable pub ensure_settlement_leg : Task → Text → ℤ → Act (List Settlement)
  ensure_settlement_leg task id fiat = do
    legs ← gets (settlements_of id)
    option_case (head? legs)
        (do
          leg_id ← draw
          modify (
              file_leg leg_id id p.payment.name (or_else task.payload.fiat_amount_idr fiat)
                (codes "mqris-" ++ task.id))
          gets (settlements_of id))
        (λ _. pure legs)

  abbrev delivered_or : Option Conversion → ℤ → ℤ
  delivered_or none d = d
  delivered_or (some l) d = or_else l.fiat_amount d

  unfoldable pub complete_settlement_task :
      Task → Bool → Intent → OperatorResult → Act OperatorReply
  complete_settlement_task task replayed intent result =
      let id = task.payment_id in
      if not (state_eq intent.status fiat_settlement_pending)
      then (if state_eq intent.status completed
          then reply replayed intent
          else raise (payment_error 409))
      else if not result.is_completed
      then (do
        modify (mark_task task.id TaskStatus.failed result)
        out ←
            transition id refund_required
              (by_actor operator (note_or result.note settlement_failure_reported))
        reply replayed out)
      else do
        raise_if (not (truthy result.reference)) (payment_error 422)
        q ← latest_quote id
        legs ← ensure_settlement_leg task id q.fiat_amount
        leg ← or_raise (first_or_head is_pending legs) (payment_error 409)
        raise_if (not (truthy leg.reference)) (payment_error 409)
        convs ← gets (legs_of id)
        modify (set_proof leg.id result.proof)
        modify (mark_task task.id TaskStatus.completed result)
        out ←
            complete_settlement id (reference_text leg.reference) q.fiat_amount
              (delivered_or (head? convs) leg.fiat_amount)
        reply replayed out

  unfoldable pub complete_refund_task : Task → Bool → Intent → OperatorResult → Act OperatorReply
  complete_refund_task task replayed intent result = do
    raise_if (not (truthy result.reference)) (payment_error 422)
    modify (mark_task task.id TaskStatus.completed result)
    reply replayed intent

  unfoldable pub complete_task_of :
      TaskKind → Task → Bool → Intent → OperatorResult → Act OperatorReply
  complete_task_of TaskKind.conversion = complete_conversion_task
  complete_task_of TaskKind.fiat_settlement = complete_settlement_task
  complete_task_of TaskKind.refund = complete_refund_task

  -- `completeOperatorTask`: a replay must report what was reported before.
  unfoldable pub complete_operator_task : Text → OperatorResult → Act OperatorReply
  complete_operator_task task_id result = do
    found ← gets (find_task task_id)
    task ← or_raise found (payment_error 404)
    let replayed = not (is_open_task task)
    raise_if (replayed && not (matches_prior task.result result)) (payment_error 409)
    intent ← known_intent task.payment_id
    complete_task_of task.kind task replayed intent result
