-- ===== src/Engine/Webhook.antt =====
-- `handleWebhook` of src/engine/service.ts.
pub mod Redelivery
use qrib.Engine.Common.{truthy, is_text}
use qrib.Engine.Conversion.{legs_of}
use qrib.States.{state_eq, fiat_settlement_pending}
use qrib.Store.{get_intent}
use qrib.Engine.Settlement.{is_pending, complete_settlement}
use qrib.Db.{
  WebhookEvent, World, Act, Settlement, Intent, ◌>>=◌, ◌>>◌, modify, gets, pure, option_case,
}
use qrib.Common.{
  Text, Option, Bool, true, codes, text_eq, ◌++◌, update_where, if◌then◌else◌, some, ◌&&◌, false,
  ◌∷◌, none, any, [], first, head?, or_else,
}

-- The body of a callback.
pub record Event : Type 0 where
  pub event_id : Text
  pub kind : Text
  pub ref : Option Text

abbrev pub is_event : Text → Text → WebhookEvent → Bool
is_event provider event_id e = text_eq e.provider provider && text_eq e.event_id event_id

unfoldable pub record_event : Text → Text → World → World
record_event provider event_id w = record w {
  webhook_events =
      w.webhook_events
      ++ record { provider = provider; event_id = event_id; processed = false } ∷ [];
}

abbrev pub processed_event : WebhookEvent → WebhookEvent
processed_event e = record e { processed = true }

unfoldable pub mark_processed : Text → Text → World → World
mark_processed provider event_id w = record w {
  webhook_events = update_where (is_event provider event_id) processed_event w.webhook_events;
}

pub data WebhookStatus : Type 0 where
  noop settled recorded : WebhookStatus

pub record WebhookReply : Type 0 where
  pub deduped : Bool
  pub status : WebhookStatus

abbrev settlement_completed : Text
settlement_completed = codes "settlement.completed"

-- The leg of the reference, if it is open.
abbrev pending_leg : Text → World → Option Settlement
pending_leg ref w = keep_pending (first (λ l. is_text ref l.reference) w.settlements)
  where
    keep_pending : Option Settlement → Option Settlement
    keep_pending none = none
    keep_pending (some l) = if is_pending l then some l else none

-- The payment waits for its settlement and has a conversion.
abbrev is_awaiting : Option Intent → Bool
is_awaiting none = false
is_awaiting (some i) = state_eq i.status fiat_settlement_pending

unfoldable pub finish_event : Text → Text → WebhookStatus → Act WebhookReply
finish_event provider event_id status = do
  modify (mark_processed provider event_id)
  pure (record { deduped = false; status = status })

-- What an event of a completed settlement does with the leg of its reference.
unfoldable pub settle_by_event : Text → Event → Text → Settlement → Act WebhookReply
settle_by_event provider event ref leg = do
  intent ← get_intent leg.payment_id
  legs ← gets (legs_of leg.payment_id)
  option_case (if is_awaiting intent then head? legs else none)
      (finish_event provider event.event_id recorded)
      (λ conv. do
        complete_settlement leg.payment_id ref leg.fiat_amount
            (or_else conv.fiat_amount leg.fiat_amount)
        finish_event provider event.event_id settled)

abbrev event_ref : Event → Option Text
event_ref e = if text_eq e.kind settlement_completed && truthy e.ref then e.ref else none

-- What a new event does.
unfoldable pub on_event : Text → Event → Act WebhookReply
on_event provider event =
    option_case (event_ref event) (finish_event provider event.event_id recorded) (λ ref. do
      leg ← gets (pending_leg ref)
      option_case leg (finish_event provider event.event_id recorded)
          (settle_by_event provider event ref))

-- `handleWebhook`: an event that is known already does nothing.
unfoldable pub handle_webhook : Text → Event → Act WebhookReply
handle_webhook provider event = do
  known ← gets (λ w. any (is_event provider event.event_id) w.webhook_events)
  if known
      then pure (record { deduped = true; status = noop })
      else do modify (record_event provider event.event_id); on_event provider event
