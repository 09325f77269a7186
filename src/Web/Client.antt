-- ===== src/Web/Client.antt =====
-- web/lib/api.ts: the calls of the pages, and what they make of the answers.
use qrib.States.{
  State, quoted, authorized, crypto_submitted, crypto_confirmed, conversion_pending,
  fiat_settlement_pending, completed, failed, expired, reconciliation_required, refund_required,
}
use qrib.Api.Server.{HttpCall, Server, answer_call}
use qrib.Api.Idempotency.{Endpoint, Site}
use qrib.Api.Answers.{Answer, Reply, ErrorText, error_reply, Body, not_ready_reply}
use qrib.Common.{codes, ◌++◌, leb, ◌&&◌, if◌then◌else◌, none, some, Option, ℕ, Text, Bool, []}

-- The message of the error that a call throws.
pub data Message : Type 0 where
  server_said : ErrorText → Message
  http_status : ℕ → Message
  -- no answer has come
  network_down : Message

pub data Fetched {ℓ} (A : Type ℓ) : Type ℓ where
  received : A → Fetched A
  thrown : Message → Fetched A

-- `res.ok`
abbrev pub is_ok : ℕ → Bool
is_ok status = leb 200 status && leb status 299

-- `api`, from the answer on; a body that is no JSON counts as null.
abbrev pub api_body : ℕ → Option Reply → Fetched Reply
api_body status none = thrown (http_status status)
api_body status (some (error_reply e)) = thrown (server_said e)
api_body status (some not_ready_reply) = thrown (http_status status)
api_body status (some r) = if is_ok status then received r else thrown (http_status status)

abbrev pub api_result : Answer → Fetched Reply
api_result a = api_body a.status a.body

-- The calls of the engine.
pub data ClientCall : Type 0 where
  parse_code : Text → ClientCall
  -- amount, the merchant's name, the merchant's id
  request_quote : Text → Text → Option Text → ClientCall
  authorize_payment execute_payment cancel_payment refund_payment : Text → ClientCall
  get_one : Text → ClientCall
  get_all : ClientCall

abbrev payment_path : Text → Text → Text
payment_path id verb = codes "/payments/" ++ (id ++ verb)

-- `post`, with the fresh key of `idemKey`.
abbrev post_to : Text → Text → Endpoint
post_to key path = record { method = codes "POST"; path = path; key = some key }

abbrev get_from : Text → Endpoint
get_from path = record { method = codes "GET"; path = path; key = none }

-- Where a call goes, under the key that it draws.
abbrev pub endpoint_of : Text → ClientCall → Endpoint
endpoint_of key (parse_code payload) = record {
  method = codes "POST";
  path = codes "/qris/parse";
  key = none;
}
endpoint_of key (request_quote amount name id) = post_to key (codes "/payments/quote")
endpoint_of key (authorize_payment id) = post_to key (payment_path id (codes "/authorize"))
endpoint_of key (execute_payment id) = post_to key (payment_path id (codes "/execute"))
endpoint_of key (cancel_payment id) = post_to key (payment_path id (codes "/cancel"))
endpoint_of key (refund_payment id) = post_to key (payment_path id (codes "/refund"))
endpoint_of key (get_one id) = get_from (payment_path id [])
endpoint_of key get_all = get_from (codes "/payments")

-- What its route reads.
abbrev pub http_of : ClientCall → HttpCall
http_of (parse_code payload) = HttpCall.post_qris (Body.object (some payload))
http_of (request_quote amount name id) = HttpCall.post_quote (
    Body.object (record {
      fiat_amount = some amount;
      merchant_name = some name;
      merchant_id = id;
      user_id = none;
    }))
http_of (authorize_payment id) = HttpCall.post_authorize id
http_of (execute_payment id) = HttpCall.post_execute id (Body.object none)
http_of (cancel_payment id) = HttpCall.post_cancel id (Body.object none)
http_of (refund_payment id) = HttpCall.post_refund id
http_of (get_one id) = HttpCall.get_payment id
http_of get_all = HttpCall.get_payments

-- The call on its way through the server.
abbrev pub fetch_from : Server → Text → ClientCall → Site → Fetched Reply × Site
fetch_from server key call s = fetched (answer_call server (endpoint_of key call) (http_of call) s)
  where
    fetched : Answer × Site → Fetched Reply × Site
    fetched (a, t) = (api_result a, t)

-- `STATUS_ID`; any other status is shown as it is.
abbrev pub status_id : State → Option Text
status_id quoted = some (codes "Menunggu kunci kurs")
status_id authorized = some (codes "Kurs terkunci")
status_id crypto_submitted = some (codes "Dana dikirim")
status_id crypto_confirmed = some (codes "Dana terkonfirmasi")
status_id conversion_pending = some (codes "Penukaran berjalan")
status_id fiat_settlement_pending = some (codes "Pelunasan berjalan")
status_id completed = some (codes "Lunas")
status_id failed = some (codes "Gagal")
status_id expired = some (codes "Kedaluwarsa")
status_id reconciliation_required = some (codes "Perlu peninjauan")
status_id refund_required = some (codes "Perlu refund")
status_id _ = none
