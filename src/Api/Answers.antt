-- ===== src/Api/Answers.antt =====
-- The bodies that the routes of src/api read and answer.
use qrib.Wallet.Usdc.{Balance, ReceiveInfo}
use qrib.Qris.Code.{QrisData}
use qrib.Engine.Webhook.{WebhookReply}
use qrib.States.{State}
use qrib.Engine.Quote.{Quote}
use qrib.Common.{none, some, Option, List, ℕ, Text, Bool}
use qrib.Qris.Reader.{QrisError}
use qrib.Db.{
  Fault, Result, ok, err, Intent, World, Act, catch, pure, payment_error, raise, invalid_transition,
  QuoteRow, Attempt, Task,
}

-- A body as `c.req.json()` gives it: text that is no JSON, the value `null`, or an object, of which
-- a field is `none` where it is missing or no text.
pub data Body (F : Type 0) : Type 0 where
  malformed null_value : Body F
  object : F → Body F

-- `await c.req.json().catch(() => ({}))`; `none` where reading a field of it throws.
abbrev pub fields_or : {F : Type 0} → F → Body F → Option F
fields_or empty malformed = some empty
fields_or empty null_value = none
fields_or empty (object f) = some f

-- `await c.req.json().catch(() => null)`
abbrev pub fields_of : {F : Type 0} → Body F → Option F
fields_of malformed = none
fields_of null_value = none
fields_of (object f) = some f

-- `error` of an answer.
pub data ErrorText : Type 0 where
  message_of : Fault → ErrorText
  qris_message : QrisError → ErrorText
  key_required other_endpoint : ErrorText
  amount_required id_missing : ErrorText
  bad_signature unknown_task bad_status reason_required bad_exit : ErrorText
  hash_required bad_cost event_required : ErrorText
  unknown_network bad_address bad_usdc_amount : ErrorText

-- `shape` of src/api/payments.ts
pub record Shape : Type 0 where
  pub intent : Intent
  pub quote : Option QuoteRow
  pub attempts : List Attempt

-- The bodies of the answers.
pub data Reply : Type 0 where
  error_reply : ErrorText → Reply
  payment_reply : Shape → Reply
  list_reply : List Intent → Reply
  quote_reply : Quote → Reply
  task_reply : Task → Reply
  tasks_reply : List Task → Reply
  -- replayed, status, paymentId
  done_reply : Bool → State → Text → Reply
  resolve_reply : State → Text → Reply
  refund_reply : State → Text → Text → Reply
  event_reply : WebhookReply → Reply
  -- whether the amount is confirmed, not entered
  qris_reply : QrisData → Bool → Reply
  -- network, address
  balance_reply : Text → Text → Balance → Reply
  receive_reply : Text → ReceiveInfo → Reply
  health_reply ready_reply not_ready_reply : Reply

-- A status with a JSON body, or with none.
pub record Answer : Type 0 where
  pub status : ℕ
  pub body : Option Reply

abbrev pub json : ℕ → Reply → Answer
json status body = record { status = status; body = some body }

abbrev pub ok_json : Reply → Answer
ok_json body = json 200 body

abbrev pub refuse : ℕ → ErrorText → Answer
refuse status e = json status (error_reply e)

-- The web framework's answer to a handler that throws.
abbrev pub plain_500 : Answer
plain_500 = record { status = 500; body = none }

-- `errJson` of src/api/payments.ts
abbrev pub err_json : Fault → Answer
err_json (payment_error status) = refuse status (message_of (payment_error status))
err_json (invalid_transition from to) = refuse 409 (message_of (invalid_transition from to))
err_json e = refuse 500 (message_of e)

-- `try { … } catch (err) { return errJson(c, err); }`
unfoldable pub or_err_json : Act Answer → Act Answer
or_err_json m = catch m pure (λ e. pure (err_json e))

-- A catch that rethrows all but a `PaymentError`.
abbrev pub payment_errors_only : Fault → Act Answer
payment_errors_only (payment_error status) =
    pure (refuse status (message_of (payment_error status)))
payment_errors_only e = raise e

unfoldable pub or_rethrow : Act Answer → Act Answer
or_rethrow m = catch m pure payment_errors_only

abbrev pub final : Result Answer × World → Answer × World
final (ok a, w) = (a, w)
final (err e, w) = (plain_500, w)

-- What the web framework answers for a handler.
abbrev pub answered : Act Answer → World → Answer × World
answered m w = final (m w)
