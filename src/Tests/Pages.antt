-- ===== src/Tests/Pages.antt =====
-- The theorems on the pages, at the sample.
use qrib.Web.ScanPage.Waiting.{In}
use qrib.Web.ScanPage.Paid.{IsPaid, executing-IsPaid}
use qrib.Api.Payments.{authorize_handler, shape}
use qrib.Engine.Payment.{authorize}
use qrib.Engine.Common.{known_intent}
use qrib.Store.{get_intent, latest_attempts}
use qrib.Api.Answers.{or_err_json}
use qrib.Db.{catch, gets, pure, or_raise, ◌>>=◌}
use qrib.States.{state_eq}
use qrib.Api.Idempotency.{idempotency}
use qrib.Api.Server.{answer_call}
use qrib.Web.ScanPage.Session.{settled}
use qrib.Wallet.Browser.{browser_decrypt}
use qrib.Tests.Wallet.{test_net}
use qrib.Web.WalletPage.Kept.{opened_page-IsKept}
use qrib.Tests.Keys.{locked_on_phone, desk, phone}
use qrib.Web.ScanPage.Calm.Events.{Moves-IsCalm}
use qrib.Web.WalletPage.Keeps.{IsKept}
use qrib.Web.WalletPage.Session.{Browser, WalletSession, put_back, WalletMoves, WalletMove, Ends}
use qrib.Web.WalletPage.{
  Device, WalletPage, opened_page, on_unlocked, WalletEvent, WalletJob, handle_wallet_event,
}
use qrib.Web.ScanPage.Calm.{IsCalm}
use qrib.Web.Client.{ClientCall, fetch_from, Message}
use qrib.Api.Idempotency.{Site}
use qrib.Tests.Sample.{payment}
use qrib.Web.ScanPage.Session.{Session, Moves, Move}
use qrib.Web.ScanPage.{ScanPage, handle_event, empty_page, handle_answer, Job, PageError, PageEvent}
use qrib.Engine.Quote.{Quote}
use qrib.Tests.Calls.{server, site}
use qrib.Common.{codes, pos, ◌∷◌, refl, inl, none, some, Text, true, []}

abbrev the_quote : Quote
the_quote = record {
  payment_id = payment;
  usdc_micros = pos 2_030_051;
  fiat_amount = pos 32_000;
  rate6 = pos 15_920_000_000;
  spread_bps = 50;
  fee_crypto = 20_000;
  fee_fiat = 320;
  expires_at = 91_000;
}

-- A page that shows a quote.
abbrev quoted_page : ScanPage
quoted_page = record empty_page { quote = some the_quote }

abbrev paying : Session
paying = record { page = quoted_page; jobs = []; site = site }

-- The user presses; the answer is lost. The user presses again; the call is lost.
abbrev stopped : Site → Session
stopped s = record {
  page = record quoted_page { error = some (PageError.call_failed Message.network_down) };
  jobs = [];
  site = s;
}

abbrev waiting_at : Session → Session
waiting_at s = record {
  page = record s.page { busy = true; error = none };
  jobs = Job.authorizing payment ∷ [];
  site = s.site;
}

abbrev the_call : ClientCall
the_call = ClientCall.authorize_payment payment

abbrev the_key : Text
the_key = codes "k9"

abbrev later : Site
later = (fetch_from server the_key the_call site).1

steps : Moves server paying (stopped later)
unfolding handle_event handle_answer
steps = Moves.next _ _ _ (Move.happens paying PageEvent.press_pay refl) (
    Moves.next _ _ _
      (Move.loses_answer (waiting_at paying) [] [] (Job.authorizing payment) the_call the_key refl
        refl refl)
      (Moves.next _ _ _ (Move.happens (stopped later) PageEvent.press_pay refl) (
        Moves.next _ _ _
          (Move.loses_call (waiting_at (stopped later)) [] [] (Job.authorizing payment) the_call
            refl refl)
          (Moves.no_more _))))

Moves-IsCalm_example : IsCalm (stopped later)
unfolding steps
Moves-IsCalm_example =
    Moves-IsCalm server paying (stopped later) steps refl
      (IsCalm.resting quoted_page site refl (λ e. refl))

-- The user presses, and the authorization is answered.
abbrev granted : Session
granted =
    let (reply, site') = fetch_from server the_key the_call site in
    settled [] [] (handle_answer (Job.authorizing payment) reply (waiting_at paying).page) site'

granted_steps : Moves server paying granted
unfolding handle_event
granted_steps = Moves.next _ _ _ (Move.happens paying PageEvent.press_pay refl) (
    Moves.next _ _ _
      (Move.answers (waiting_at paying) [] [] (Job.authorizing payment) the_call the_key refl refl
        refl)
      (Moves.no_more _))

granted_executes : In (Job.executing payment) granted.jobs
unfolding handle_answer answer_call idempotency authorize_handler authorize shape known_intent
    get_intent or_err_json latest_attempts state_eq ◌>>=◌ catch gets pure or_raise
granted_executes = inl refl

executing-IsPaid_example : IsPaid payment granted_steps
executing-IsPaid_example =
    executing-IsPaid server paying granted granted_steps payment refl granted_executes

-- A page whose storage holds a keystore; the user types the passphrase and unlocks it.
abbrev device : Device
device = record { keystore_item = some locked_on_phone; address_item = none }

abbrev browser : Browser
browser = record { platform = desk; subtle = phone; eth = test_net; network = none }

abbrev word : Text
word = codes "passw0rd"

abbrev opened_session : WalletSession
opened_session = record { page = opened_page true device; device = device; jobs = [] }

abbrev typed_page : WalletPage
typed_page = record (opened_page true device) { passphrase = word }

abbrev busy_page : WalletPage
busy_page = record typed_page { busy = true; error = none }

abbrev unlocked_session : WalletSession
unlocked_session =
    put_back [] [] (on_unlocked (browser_decrypt desk phone locked_on_phone word) busy_page device)

unlocking_moves : WalletMoves browser opened_session unlocked_session
unfolding handle_wallet_event
unlocking_moves =
    WalletMoves.next _ _ _
      (WalletMove.happens opened_session (WalletEvent.type_passphrase word) refl)
      (WalletMoves.next _ _ _
        (WalletMove.happens (record opened_session { page = typed_page })
          (WalletEvent.press_unlock true) refl)
        (WalletMoves.next _ _ _
          (WalletMove.ends
            (record {
              page = busy_page;
              device = device;
              jobs = WalletJob.unlocking locked_on_phone word ∷ [];
            })
            [] [] (WalletJob.unlocking locked_on_phone word) _ refl
            (Ends.unlocks locked_on_phone word))
          (WalletMoves.no_more _)))

opened_page-IsKept_example : IsKept browser (some locked_on_phone) unlocked_session
opened_page-IsKept_example = opened_page-IsKept browser true device unlocked_session unlocking_moves
