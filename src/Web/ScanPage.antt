-- ===== src/Web/ScanPage.antt =====
-- web/app/(app)/scan/page.tsx: the page that scans a code and pays. Its calls are answered later, so
-- that a press and an answer are two steps.
pub mod Waiting
pub mod Jobs
pub mod Paid
pub mod Session
pub mod Calm
use qrib.States.{State, completed, failed, expired, reconciliation_required, refund_required}
use qrib.Engine.Quote.{Quote}
use qrib.Qris.Code.{QrisData}
use qrib.Web.Client.{ClientCall, Fetched, Message}
use qrib.Api.Answers.{Reply, Shape, payment_reply, qris_reply, quote_reply}
use qrib.Common.{
  select, not, ◌&&◌, is_digit, trim, text_eq, ◌||◌, is_some, is_decimal, if◌then◌else◌, leb,
  or_else, none, some, Option, ℕ, Text, Bool, true, false, [],
}

pub data PageError : Type 0 where
  call_failed : Message → PageError
  amount_not_whole : PageError
  -- a body of another type, which no route sends, counts as an error
  body_mismatch : PageError

-- `QrisParse`: the code, and whether its amount is only confirmed.
pub record ParsedCode : Type 0 where
  pub code : QrisData
  pub confirms : Bool

-- The state of the page.
pub record ScanPage : Type 0 where
  pub payload : Text
  pub parsed : Option ParsedCode
  pub amount : Text
  pub quote : Option Quote
  pub quote_expired : Bool
  pub payment : Option Shape
  pub busy : Bool
  pub error : Option PageError

abbrev pub empty_page : ScanPage
empty_page = record {
  payload = [];
  parsed = none;
  amount = [];
  quote = none;
  quote_expired = false;
  payment = none;
  busy = false;
  error = none;
}

-- What a run waits for; `nothing` where its function returns at once, `failing` where it throws.
pub data Job : Type 0 where
  parsing : Text → Job
  quoting : Text → ParsedCode → Job
  authorizing executing refreshing cancelling : Text → Job
  nothing : Job
  failing : PageError → Job

-- What the user, the camera and the timer do.
pub data PageEvent : Type 0 where
  type_payload type_amount scanned : Text → PageEvent
  press_parse press_quote press_pay press_refresh press_cancel : PageEvent
  -- the interval of the quote, at a time
  tick : ℕ → PageEvent

-- `TERMINAL`; no state is called CANCELLED.
abbrev pub is_final : State → Bool
is_final completed = true
is_final failed = true
is_final expired = true
is_final reconciliation_required = true
is_final refund_required = true
is_final _ = false

abbrev pub is_under_way : Option Shape → Bool
is_under_way none = false
is_under_way (some shape) = not (is_final shape.intent.status)

abbrev pub enters_amount : Option ParsedCode → Bool
enters_amount none = false
enters_amount (some p) = not p.confirms

-- Whether the page shows the control and it is not disabled.
abbrev pub is_enabled : PageEvent → ScanPage → Bool
is_enabled (type_payload text) page = true
is_enabled (type_amount text) page = enters_amount page.parsed
is_enabled (scanned text) page = true
is_enabled press_parse page = not page.busy && not (text_eq (trim page.payload) [])
is_enabled press_quote page = is_some page.parsed && not page.busy && is_decimal page.amount
is_enabled press_pay page = is_some page.quote && not page.busy && not page.quote_expired
is_enabled press_refresh page = is_under_way page.payment && not page.busy
is_enabled press_cancel page = is_under_way page.payment && not page.busy
is_enabled (tick now) page = is_some page.quote

-- `run`, up to the first await of its function.
abbrev pub start : Job → ScanPage → ScanPage × Option Job
start job page = (record page { busy = true; error = none }, some job)

abbrev pub quote_job : Option ParsedCode → Text → Job
quote_job none amount = failing amount_not_whole
quote_job (some p) amount = if is_decimal amount then quoting amount p else failing amount_not_whole

abbrev pub pay_job : Option Quote → Bool → Job
pay_job none is_expired = nothing
pay_job (some q) is_expired = if is_expired then nothing else authorizing q.payment_id

abbrev pub refresh_job : Option Shape → Job
refresh_job none = nothing
refresh_job (some shape) = refreshing shape.intent.id

-- `payment?.id ?? quote?.paymentId`
abbrev pub cancel_job : Option Shape → Option Quote → Job
cancel_job (some shape) quote = cancelling shape.intent.id
cancel_job none (some q) = cancelling q.payment_id
cancel_job none none = nothing

abbrev pub has_expired : ℕ → Option Quote → Bool
has_expired now none = false
has_expired now (some q) = leb q.expires_at now

-- What the page does at an event, and the job it starts.
unfoldable pub handle_event : PageEvent → ScanPage → ScanPage × Option Job
handle_event (type_payload text) page = (record page { payload = text }, none)
handle_event (type_amount text) page = (record page { amount = select is_digit text }, none)
handle_event (scanned text) page = start (parsing text) (record page { payload = text })
handle_event press_parse page = start (parsing (trim page.payload)) page
handle_event press_quote page = start (quote_job page.parsed page.amount) page
handle_event press_pay page = start (pay_job page.quote page.quote_expired) page
handle_event press_refresh page = start (refresh_job page.payment) page
handle_event press_cancel page = start (cancel_job page.payment page.quote) page
handle_event (tick now) page =
    (record page { quote_expired = page.quote_expired || has_expired now page.quote }, none)

-- The call that a job waits for.
abbrev pub call_of : Job → Option ClientCall
call_of (parsing text) = some (ClientCall.parse_code text)
call_of (quoting amount p) =
    some (ClientCall.request_quote amount p.code.merchant_name p.code.merchant_id)
call_of (authorizing id) = some (ClientCall.authorize_payment id)
call_of (executing id) = some (ClientCall.execute_payment id)
call_of (refreshing id) = some (ClientCall.get_one id)
call_of (cancelling id) = some (ClientCall.cancel_payment id)
call_of nothing = none
call_of (failing e) = none

-- The end of `run`.
abbrev pub finish : ScanPage → ScanPage × Option Job
finish page = (record page { busy = false }, none)

abbrev pub fail : PageError → ScanPage → ScanPage × Option Job
fail e page = (record page { busy = false; error = some e }, none)

abbrev pub payment_in : Reply → Option Shape
payment_in (payment_reply shape) = some shape
payment_in _ = none

abbrev pub show_code : Reply → ScanPage → ScanPage × Option Job
show_code (qris_reply d confirms) page = finish (record page {
  parsed = some (record { code = d; confirms = confirms });
  amount = or_else d.amount_idr [];
  quote = none;
  quote_expired = false;
  payment = none;
})
show_code _ page = fail body_mismatch page

abbrev pub show_quote : Reply → ScanPage → ScanPage × Option Job
show_quote (quote_reply q) page = finish (record page { quote = some q; quote_expired = false })
show_quote _ page = fail body_mismatch page

abbrev pub then_execute : Option Shape → ScanPage → ScanPage × Option Job
then_execute none page = fail body_mismatch page
then_execute (some shape) page = (page, some (executing shape.intent.id))

abbrev pub show_payment : Option Shape → ScanPage → ScanPage × Option Job
show_payment none page = fail body_mismatch page
show_payment (some shape) page = finish (record page { payment = some shape })

-- What the page does when the call of a job has returned, and the job that follows.
abbrev pub on_reply : Job → Reply → ScanPage → ScanPage × Option Job
on_reply (parsing text) r page = show_code r page
on_reply (quoting amount p) r page = show_quote r page
on_reply (authorizing id) r page = then_execute (payment_in r) page
on_reply nothing r page = finish page
on_reply (failing e) r page = fail e page
on_reply _ r page = show_payment (payment_in r) page

unfoldable pub handle_answer : Job → Fetched Reply → ScanPage → ScanPage × Option Job
handle_answer job (Fetched.received r) page = on_reply job r page
handle_answer job (Fetched.thrown m) page = fail (call_failed m) page

-- A job without a call ends by itself.
unfoldable pub handle_return : Job → ScanPage → ScanPage × Option Job
handle_return (failing e) page = fail e page
handle_return _ page = finish page
