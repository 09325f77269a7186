-- ===== src/Web/ScanPage/Calm.antt =====
-- The calls of web/app/(app)/scan/page.tsx are one at a time, where the camera gives no code while
-- the page is busy.
pub mod Events
use qrib.Web.Client.{Fetched}
use qrib.Api.Answers.{Reply, Shape, qris_reply, quote_reply}
use qrib.Api.Server.{Server}
use qrib.Api.Idempotency.{Site}
use qrib.Web.ScanPage.{
  ScanPage, Job, PageEvent, handle_event, handle_answer, handle_return, call_of, Quote, finish,
  PageError, ParsedCode, pay_job, fail, show_code, show_quote, then_execute, show_payment, on_reply,
  quote_job, refresh_job, cancel_job, payment_in,
}
use qrib.Web.ScanPage.Session.{Session, Moves, Move, settled, after_event, no_more, next}
use qrib.Common.{
  List, ◌≡◌, is_some, ◌∷◌, refl, Bool-cases, ap, arith, is_decimal, inl, inr, ◌||◌, none, some,
  Option, Text, Bool, true, false, [],
}

-- A payment is shown under a quote.
abbrev pub IsOrdered : ScanPage → Type 0
IsOrdered page = is_some page.payment ≡ true → is_some page.quote ≡ true

-- A payment is authorized that the quote on the page names; no payment is handled without a quote.
abbrev pub Pays : Job → ScanPage → Type 0
Pays (Job.authorizing id) page = (q : Quote) × (page.quote ≡ some q) × (q.payment_id ≡ id)
Pays (Job.executing id) page = is_some page.quote ≡ true
Pays (Job.refreshing id) page = is_some page.quote ≡ true
Pays (Job.cancelling id) page = is_some page.quote ≡ true
Pays _ page = Unit

-- The page rests, or is busy with one job.
pub data IsCalm : Session → Type 0 where
  resting :
      (page : ScanPage) (site : Site)
      → page.busy ≡ false
      → IsOrdered page
      → IsCalm (record { page = page; jobs = []; site = site })
  waiting :
      (page : ScanPage) (job : Job) (site : Site)
      → page.busy ≡ true
      → IsOrdered page
      → Pays job page
      → IsCalm (record { page = page; jobs = job ∷ []; site = site })

-- The camera gives a code while the page is busy.
abbrev pub scans_busy : PageEvent → ScanPage → Bool
scans_busy (PageEvent.scanned text) page = page.busy
scans_busy _ page = false

abbrev pub disturbs : {server : Server} {s u : Session} → Moves server s u → Bool
disturbs (no_more s) = false
disturbs (next s t u (Move.happens s' e on) rest) = scans_busy e s'.page || disturbs rest
disturbs (next s t u _ rest) = disturbs rest

module _ (page : ScanPage) (site : Site) where
  finish-IsCalm : IsOrdered page → IsCalm (settled [] [] (finish page) site)
  finish-IsCalm h = IsCalm.resting _ site refl h

  fail-IsCalm : (e : PageError) → IsOrdered page → IsCalm (settled [] [] (fail e page) site)
  fail-IsCalm e h = IsCalm.resting _ site refl h

  show_code-IsCalm : (r : Reply) → IsOrdered page → IsCalm (settled [] [] (show_code r page) site)
  show_code-IsCalm (qris_reply d confirms) h =
      IsCalm.resting _ site refl (λ e. absurd (ground (arith, e)))
  show_code-IsCalm _ h = fail-IsCalm _ h

  show_quote-IsCalm : (r : Reply) → IsOrdered page → IsCalm (settled [] [] (show_quote r page) site)
  show_quote-IsCalm (quote_reply q) h = IsCalm.resting _ site refl (λ e. refl)
  show_quote-IsCalm _ h = fail-IsCalm _ h

  then_execute-IsCalm :
      (o : Option Shape)
      → page.busy ≡ true
      → IsOrdered page
      → is_some page.quote ≡ true
      → IsCalm (settled [] [] (then_execute o page) site)
  then_execute-IsCalm none b h k = fail-IsCalm _ h
  then_execute-IsCalm (some shape) b h k = IsCalm.waiting page _ site b h k

  show_payment-IsCalm :
      (o : Option Shape)
      → IsOrdered page
      → is_some page.quote ≡ true
      → IsCalm (settled [] [] (show_payment o page) site)
  show_payment-IsCalm none h k = fail-IsCalm _ h
  show_payment-IsCalm (some shape) h k = IsCalm.resting _ site refl (λ e. k)

  on_reply-IsCalm :
      (job : Job) (r : Reply)
      → page.busy ≡ true
      → IsOrdered page
      → Pays job page
      → IsCalm (settled [] [] (on_reply job r page) site)
  on_reply-IsCalm (Job.parsing text) r b h k = show_code-IsCalm r h
  on_reply-IsCalm (Job.quoting amount p) r b h k = show_quote-IsCalm r h
  on_reply-IsCalm (Job.authorizing id) r b h (q, shown, same) =
      then_execute-IsCalm (payment_in r) b h (ap is_some shown)
  on_reply-IsCalm (Job.executing id) r b h k = show_payment-IsCalm (payment_in r) h k
  on_reply-IsCalm (Job.refreshing id) r b h k = show_payment-IsCalm (payment_in r) h k
  on_reply-IsCalm (Job.cancelling id) r b h k = show_payment-IsCalm (payment_in r) h k
  on_reply-IsCalm Job.nothing r b h k = finish-IsCalm h
  on_reply-IsCalm (Job.failing e) r b h k = fail-IsCalm e h

  pub handle_answer-IsCalm :
      (job : Job) (r : Fetched Reply)
      → page.busy ≡ true
      → IsOrdered page
      → Pays job page
      → IsCalm (settled [] [] (handle_answer job r page) site)
  unfolding handle_answer
  handle_answer-IsCalm job (Fetched.received r) b h k = on_reply-IsCalm job r b h k
  handle_answer-IsCalm job (Fetched.thrown m) b h k = fail-IsCalm _ h

  pub handle_return-IsCalm :
      (job : Job) → IsOrdered page → IsCalm (settled [] [] (handle_return job page) site)
  unfolding handle_return
  handle_return-IsCalm (Job.failing e) h = fail-IsCalm e h
  handle_return-IsCalm _ h = finish-IsCalm h

  -- A press on a page that rests starts one job.
  pub start-IsCalm :
      (job : Job)
      → IsOrdered page
      → Pays job (record page { busy = true; error = none })
      → IsCalm (record {
        page = record page { busy = true; error = none };
        jobs = job ∷ [];
        site = site;
      })
  start-IsCalm job h k = IsCalm.waiting _ job site refl h k

pub quote_job-Pays :
    (o : Option ParsedCode) (amount : Text) (other : ScanPage) → Pays (quote_job o amount) other
quote_job-Pays none amount other = tt
quote_job-Pays (some p) amount other = elim (Bool-cases (is_decimal amount)) [
  | inl whole ↦ rw whole tt
  | inr bad ↦ rw bad tt
]

pub pay_job-Pays :
    (o : Option Quote) (b : Bool) (other : ScanPage) → other.quote ≡ o → Pays (pay_job o b) other
pay_job-Pays none b other e = tt
pay_job-Pays (some q) true other e = tt
pay_job-Pays (some q) false other e = (q, e, refl)

pub refresh_job-Pays :
    (o : Option Shape) (other : ScanPage)
    → (is_some o ≡ true → is_some other.quote ≡ true)
    → Pays (refresh_job o) other
refresh_job-Pays none other h = tt
refresh_job-Pays (some shape) other h = h refl

pub cancel_job-Pays :
    (o : Option Shape) (q : Option Quote) (other : ScanPage)
    → (is_some o ≡ true → is_some other.quote ≡ true)
    → other.quote ≡ q
    → Pays (cancel_job o q) other
cancel_job-Pays none none other h e = tt
cancel_job-Pays none (some q) other h e = ap is_some e
cancel_job-Pays (some shape) q other h e = h refl
