-- ===== src/Web/ScanPage/Jobs.antt =====
-- Which jobs web/app/(app)/scan/page.tsx starts at an event and after an answer.
use qrib.Common.{
  ◌≡◌, arith, Bool-cases, is_decimal, inr, inl, ap, refl, is_some, ◌&&◌, not, none, some, Option,
  Text, Bool, true, false,
}
use qrib.Api.Answers.{Reply, Shape, payment_reply}
use qrib.Engine.Quote.{Quote}
use qrib.Web.Client.{Message, Fetched}
use qrib.Web.ScanPage.{
  ScanPage, Job, PageEvent, ParsedCode, handle_event, handle_answer, handle_return, is_enabled,
  then_execute, show_payment, show_code, show_quote, payment_in, quote_job, pay_job, refresh_job,
  cancel_job,
}

abbrev pub is_executing : Option Job → Bool
is_executing (some (Job.executing id)) = true
is_executing _ = false

abbrev pub authorized_by : Option Job → Option Text
authorized_by (some (Job.authorizing id)) = some id
authorized_by _ = none

-- The user presses the button that pays, under a quote of the payment that has not expired, on a
-- page that waits for nothing.
abbrev pub Presses : Text → PageEvent → ScanPage → Type 0
Presses asked e page =
    (e ≡ PageEvent.press_pay)
    × (page.busy ≡ false)
    × (page.quote_expired ≡ false)
    × ((q : Quote) × (page.quote ≡ some q) × (q.payment_id ≡ asked))

quote_job-steady :
    (o : Option ParsedCode) (amount : Text)
    → (is_executing (some (quote_job o amount)) ≡ false)
      × (authorized_by (some (quote_job o amount)) ≡ none)
quote_job-steady none amount = (refl, refl)
quote_job-steady (some p) amount = elim (Bool-cases (is_decimal amount)) [
  | inl whole ↦ rw whole (refl, refl)
  | inr bad ↦ rw bad (refl, refl)
]

-- No event starts an execution.
pub event_executes_none :
    (e : PageEvent) (page : ScanPage) → is_executing (handle_event e page).1 ≡ false
unfolding handle_event
event_executes_none (PageEvent.type_payload text) page = refl
event_executes_none (PageEvent.type_amount text) page = refl
event_executes_none (PageEvent.scanned text) page = refl
event_executes_none PageEvent.press_parse page = refl
event_executes_none PageEvent.press_quote page = (quote_job-steady page.parsed page.amount).0
event_executes_none PageEvent.press_pay page = pays page.quote page.quote_expired
  where
    pays : (o : Option Quote) (b : Bool) → is_executing (some (pay_job o b)) ≡ false
    pays none b = refl
    pays (some q) true = refl
    pays (some q) false = refl
event_executes_none PageEvent.press_refresh page = refreshes page.payment
  where
    refreshes : (o : Option Shape) → is_executing (some (refresh_job o)) ≡ false
    refreshes none = refl
    refreshes (some shape) = refl
event_executes_none PageEvent.press_cancel page = cancels page.payment page.quote
  where
    cancels : (o : Option Shape) (q : Option Quote) → is_executing (some (cancel_job o q)) ≡ false
    cancels (some shape) q = refl
    cancels none none = refl
    cancels none (some q) = refl
event_executes_none (PageEvent.tick now) page = refl

pay_parts :
    (asked : Text) (o : Option Quote) (busy late : Bool)
    → is_some o && not busy && not late ≡ true
    → authorized_by (some (pay_job o late)) ≡ some asked
    → (busy ≡ false) × (late ≡ false) × ((q : Quote) × (o ≡ some q) × (q.payment_id ≡ asked))
pay_parts asked none busy late on e = absurd (ground (arith, on))
pay_parts asked (some q) true late on e = absurd (ground (arith, on))
pay_parts asked (some q) false true on e = absurd (ground (arith, on))
pay_parts asked (some q) false false on e = (refl, refl, (q, refl, ground (arith, e)))

refresh_job-steady : (o : Option Shape) → authorized_by (some (refresh_job o)) ≡ none
refresh_job-steady none = refl
refresh_job-steady (some shape) = refl

cancel_job-steady :
    (o : Option Shape) (q : Option Quote) → authorized_by (some (cancel_job o q)) ≡ none
cancel_job-steady (some shape) q = refl
cancel_job-steady none none = refl
cancel_job-steady none (some q) = refl

pub no_job : {o : Option Text} {asked : Text} → o ≡ none → o ≡ some asked → ⊥
no_job e h = ground (arith, e, h)

-- Only the button that pays starts an authorization.
pub event_authorizes :
    (e : PageEvent) (page : ScanPage) (asked : Text)
    → is_enabled e page ≡ true
    → authorized_by (handle_event e page).1 ≡ some asked
    → Presses asked e page
unfolding handle_event
event_authorizes PageEvent.press_pay page asked on e =
    let (rests, valid, shown) = pay_parts asked page.quote page.busy page.quote_expired on e in
    (refl, rests, valid, shown)
event_authorizes PageEvent.press_quote page asked on e =
    absurd (no_job (quote_job-steady page.parsed page.amount).1 e)
event_authorizes PageEvent.press_refresh page asked on e =
    absurd (no_job (refresh_job-steady page.payment) e)
event_authorizes PageEvent.press_cancel page asked on e =
    absurd (no_job (cancel_job-steady page.payment page.quote) e)
event_authorizes _ page asked on e = absurd (ground (arith, e))

-- The answer of an authorization that names the payment.
abbrev pub Grants : Text → Text → Job → Fetched Reply → Type 0
Grants asked id job r =
    (job ≡ Job.authorizing asked)
    × ((shape : Shape) × (r ≡ Fetched.received (payment_reply shape)) × (shape.intent.id ≡ id))

-- After a call comes no authorization, and an execution only after an authorization.
then_nothing : (o : Option Shape) (page : ScanPage) → (show_payment o page).1 ≡ none
then_nothing none page = refl
then_nothing (some shape) page = refl

code_then_nothing : (r : Reply) (page : ScanPage) → (show_code r page).1 ≡ none
code_then_nothing (Reply.qris_reply d confirms) page = refl
code_then_nothing _ page = refl

quote_then_nothing : (r : Reply) (page : ScanPage) → (show_quote r page).1 ≡ none
quote_then_nothing (Reply.quote_reply q) page = refl
quote_then_nothing _ page = refl

then_granted :
    (asked id : Text) (r : Reply) (page : ScanPage)
    → (then_execute (payment_in r) page).1 ≡ some (Job.executing id)
    → Grants asked id (Job.authorizing asked) (Fetched.received r)
then_granted asked id (payment_reply shape) page e = (refl, (shape, refl, ground (arith, e)))
then_granted asked id _ page e = absurd (ground (arith, e))

pub no_next : {o : Option Job} {job : Job} → o ≡ none → o ≡ some job → ⊥
no_next e h = ground (arith, e, h)

pub answer_executes :
    (job : Job) (r : Fetched Reply) (page : ScanPage) (id : Text)
    → (handle_answer job r page).1 ≡ some (Job.executing id)
    → (asked : Text) × Grants asked id job r
unfolding handle_answer
answer_executes job (Fetched.thrown m) page id e = absurd (ground (arith, e))
answer_executes (Job.parsing text) (Fetched.received r) page id e =
    absurd (no_next (code_then_nothing r page) e)
answer_executes (Job.quoting amount p) (Fetched.received r) page id e =
    absurd (no_next (quote_then_nothing r page) e)
answer_executes (Job.authorizing asked) (Fetched.received r) page id e =
    (asked, then_granted asked id r page e)
answer_executes (Job.executing other) (Fetched.received r) page id e =
    absurd (no_next (then_nothing (payment_in r) page) e)
answer_executes (Job.refreshing other) (Fetched.received r) page id e =
    absurd (no_next (then_nothing (payment_in r) page) e)
answer_executes (Job.cancelling other) (Fetched.received r) page id e =
    absurd (no_next (then_nothing (payment_in r) page) e)
answer_executes Job.nothing (Fetched.received r) page id e = absurd (ground (arith, e))
answer_executes (Job.failing x) (Fetched.received r) page id e = absurd (ground (arith, e))

then_no_authorization :
    (o : Option Shape) (page : ScanPage) → authorized_by (then_execute o page).1 ≡ none
then_no_authorization none page = refl
then_no_authorization (some shape) page = refl

pub answer_authorizes_none :
    (job : Job) (r : Fetched Reply) (page : ScanPage)
    → authorized_by (handle_answer job r page).1 ≡ none
unfolding handle_answer
answer_authorizes_none job (Fetched.thrown m) page = refl
answer_authorizes_none (Job.parsing text) (Fetched.received r) page =
    ap authorized_by (code_then_nothing r page)
answer_authorizes_none (Job.quoting amount p) (Fetched.received r) page =
    ap authorized_by (quote_then_nothing r page)
answer_authorizes_none (Job.authorizing asked) (Fetched.received r) page =
    then_no_authorization (payment_in r) page
answer_authorizes_none (Job.executing other) (Fetched.received r) page =
    ap authorized_by (then_nothing (payment_in r) page)
answer_authorizes_none (Job.refreshing other) (Fetched.received r) page =
    ap authorized_by (then_nothing (payment_in r) page)
answer_authorizes_none (Job.cancelling other) (Fetched.received r) page =
    ap authorized_by (then_nothing (payment_in r) page)
answer_authorizes_none Job.nothing (Fetched.received r) page = refl
answer_authorizes_none (Job.failing x) (Fetched.received r) page = refl

pub return_starts_none : (job : Job) (page : ScanPage) → (handle_return job page).1 ≡ none
unfolding handle_return
return_starts_none (Job.failing e) page = refl
return_starts_none _ page = refl

-- After a failure comes nothing.
pub lost_none :
    {next_one : Job} (job : Job) (page : ScanPage)
    → (handle_answer job (Fetched.thrown Message.network_down) page).1 ≡ some next_one
    → ⊥
unfolding handle_answer
lost_none job page e = ground (arith, e)

pub no_execution :
    {o : Option Job} {id : Text} → is_executing o ≡ false → o ≡ some (Job.executing id) → ⊥
no_execution e h = absurd (ground (arith, e, ap is_executing h))
