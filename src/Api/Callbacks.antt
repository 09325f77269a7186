-- ===== src/Api/Callbacks.antt =====
-- src/api/webhooks.ts and src/api/qris.ts: the handlers that take no idempotency key.
use qrib.Db.{Act, ◌>>=◌, or_raise, type_error, option_case, pure}
use qrib.Qris.Reader.{Parsed, not_a_payload, ok, err}
use qrib.Common.{none, some, Option, Text}
use qrib.Api.Answers.{
  Answer, Body, fields_or, ok_json, qris_reply, refuse, event_required, qris_message, event_reply,
}
use qrib.Engine.Webhook.{handle_webhook, Event}
use qrib.Qris.Code.{parse_qris, QrisData, is_dynamic}

pub record EventFields : Type 0 where
  pub event_id : Option Text
  pub kind : Option Text
  pub ref : Option Text

abbrev pub no_event_fields : EventFields
no_event_fields = record { event_id = none; kind = none; ref = none }

-- `eventId` and `type` are texts.
abbrev pub read_event : EventFields → Option Event
read_event f = both f.event_id f.kind
  where
    both : Option Text → Option Text → Option Event
    both (some event_id) (some kind) =
        some (record { event_id = event_id; kind = kind; ref = f.ref })
    both _ _ = none

unfoldable pub webhook_handler : Text → Body EventFields → Act Answer
webhook_handler provider body = do
  f ← or_raise (fields_or no_event_fields body) type_error
  option_case (read_event f) (pure (refuse 400 event_required))
      (λ event. do out ← handle_webhook provider event; pure (ok_json (event_reply out)))

abbrev pub qris_answer : Parsed QrisData → Answer
qris_answer (ok d) = ok_json (qris_reply d (is_dynamic d.initiation))
qris_answer (err e) = refuse 422 (qris_message e)

-- `payload` is no text: a `QrisError` too.
abbrev pub parse_payload : Option Text → Parsed QrisData
parse_payload none = err not_a_payload
parse_payload (some payload) = parse_qris payload

unfoldable pub qris_handler : Body (Option Text) → Act Answer
qris_handler body = do
  payload ← or_raise (fields_or none body) type_error
  pure (qris_answer (parse_payload payload))
