-- ===== src/Web/ScanPage/Calm/Events.antt =====
-- A step of web/app/(app)/scan/page.tsx keeps the page calm.
use qrib.Api.Server.{Server}
use qrib.Api.Idempotency.{Site}
use qrib.Web.ScanPage.Calm.{
  Pays, scans_busy, IsOrdered, IsCalm, disturbs, start-IsCalm, handle_answer-IsCalm, quote_job-Pays,
  handle_return-IsCalm, pay_job-Pays, refresh_job-Pays, cancel_job-Pays,
}
use qrib.Web.ScanPage.{
  ScanPage, Job, PageEvent, handle_event, handle_answer, handle_return, is_enabled,
}
use qrib.Web.ScanPage.Session.{Session, Moves, Move, settled, after_event, no_more, next}
use qrib.Common.{
  ◌≡◌, ◌++◌, ◌∷◌, arith, refl, ◌∙◌, ap, subst, is_some, sym, neither, only_one, not_empty, Option,
  List, true, false, [],
}

-- What a job pays depends on the quote alone.
Pays-same :
    (job : Job) (page other : ScanPage) → other.quote ≡ page.quote → Pays job page → Pays job other
Pays-same (Job.authorizing id) page other e (q, shown, same) = (q, e ∙ shown, same)
Pays-same (Job.executing id) page other e k = ap is_some e ∙ k
Pays-same (Job.refreshing id) page other e k = ap is_some e ∙ k
Pays-same (Job.cancelling id) page other e k = ap is_some e ∙ k
Pays-same (Job.parsing text) page other e k = tt
Pays-same (Job.quoting amount p) page other e k = tt
Pays-same Job.nothing page other e k = tt
Pays-same (Job.failing x) page other e k = tt

module _ (page : ScanPage) (site : Site) (h : IsOrdered page) where
  resting_event :
      (e : PageEvent)
      → page.busy ≡ false
      → IsCalm (after_event e (record { page = page; jobs = []; site = site }))
  unfolding handle_event
  resting_event (PageEvent.type_payload text) rests = IsCalm.resting _ site rests h
  resting_event (PageEvent.type_amount text) rests = IsCalm.resting _ site rests h
  resting_event (PageEvent.scanned text) rests =
      start-IsCalm (record page { payload = text }) site _ h tt
  resting_event PageEvent.press_parse rests = start-IsCalm page site _ h tt
  resting_event PageEvent.press_quote rests =
      start-IsCalm page site _ h (quote_job-Pays page.parsed page.amount _)
  resting_event PageEvent.press_pay rests =
      start-IsCalm page site _ h (pay_job-Pays page.quote page.quote_expired _ refl)
  resting_event PageEvent.press_refresh rests =
      start-IsCalm page site _ h (refresh_job-Pays page.payment _ h)
  resting_event PageEvent.press_cancel rests =
      start-IsCalm page site _ h (cancel_job-Pays page.payment page.quote _ h refl)
  resting_event (PageEvent.tick now) rests = IsCalm.resting _ site rests h

  waiting_event :
      (e : PageEvent) (job : Job)
      → page.busy ≡ true
      → Pays job page
      → is_enabled e page ≡ true
      → scans_busy e page ≡ false
      → IsCalm (after_event e (record { page = page; jobs = job ∷ []; site = site }))
  unfolding handle_event
  waiting_event (PageEvent.type_payload text) job busy k on calm =
      IsCalm.waiting _ job site busy h (Pays-same job page _ refl k)
  waiting_event (PageEvent.type_amount text) job busy k on calm =
      IsCalm.waiting _ job site busy h (Pays-same job page _ refl k)
  waiting_event (PageEvent.tick now) job busy k on calm =
      IsCalm.waiting _ job site busy h (Pays-same job page _ refl k)
  waiting_event (PageEvent.scanned text) job busy k on calm = absurd (ground (arith, busy, calm))
  waiting_event PageEvent.press_parse job busy k on calm = absurd (ground (arith, busy, on))
  waiting_event PageEvent.press_quote job busy k on calm = absurd (ground (arith, busy, on))
  waiting_event PageEvent.press_pay job busy k on calm = absurd (ground (arith, busy, on))
  waiting_event PageEvent.press_refresh job busy k on calm = absurd (ground (arith, busy, on))
  waiting_event PageEvent.press_cancel job busy k on calm = absurd (ground (arith, busy, on))

-- A job of a calm page ends.
ending :
    (s : Session) (before after : List Job) (job : Job) (site : Site)
    (f : ScanPage → ScanPage × Option Job)
    → ((page : ScanPage)
        → page.busy ≡ true
        → IsOrdered page
        → Pays job page
        → IsCalm (settled [] [] (f page) site))
    → s.jobs ≡ before ++ job ∷ after
    → IsCalm s
    → IsCalm (settled before after (f s.page) site)
ending s before after job site f k at (IsCalm.resting page site' b h) =
    absurd (not_empty before after job at)
ending s before after job site f k at (IsCalm.waiting page j site' b h p) =
    let (e, e', same) = only_one before after j job at in
    rw (e, e') (k page b h (subst (λ (x : Job). Pays x page) (sym same) p))

happens-IsCalm :
    (s : Session) (e : PageEvent)
    → is_enabled e s.page ≡ true
    → scans_busy e s.page ≡ false
    → IsCalm s
    → IsCalm (after_event e s)
happens-IsCalm s e on calm (IsCalm.resting page site b h) = resting_event page site h e b
happens-IsCalm s e on calm (IsCalm.waiting page job site b h p) =
    waiting_event page site h e job b p on calm

elsewhere-IsCalm : (s : Session) (site : Site) → IsCalm s → IsCalm (record s { site = site })
elsewhere-IsCalm s site (IsCalm.resting page site' b h) = IsCalm.resting page site b h
elsewhere-IsCalm s site (IsCalm.waiting page job site' b h p) = IsCalm.waiting page job site b h p

module _ (server : Server) where
  -- However the user presses and types, whatever the network loses and whatever others ask of the
  -- server: where the camera gives no code while the page is busy, the page waits for no more than
  -- one call at a time, it is busy exactly while it waits, a payment is authorized only if the quote
  -- on the page names it, and no payment is executed or shown without a quote.
  pub Moves-IsCalm :
      (s u : Session) (steps : Moves server s u) → disturbs steps ≡ false → IsCalm s → IsCalm u
  Moves-IsCalm s u (no_more s') quiet h = h
  Moves-IsCalm s u (next s' t u' (Move.happens s'' e on) rest) quiet h =
      let (now, later) = neither (scans_busy e s.page) (disturbs rest) quiet in
      Moves-IsCalm t u rest later (happens-IsCalm s e on now h)
  Moves-IsCalm s u (next s' t u' (Move.answers s'' before after job call key at asks fresh) rest)
        quiet h =
      Moves-IsCalm t u rest quiet (
        ending s before after job _ (handle_answer job _)
          (λ page b o k. handle_answer-IsCalm page _ job _ b o k) at h)
  Moves-IsCalm s u
        (next s' t u' (Move.loses_answer s'' before after job call key at asks fresh) rest) quiet
        h =
      Moves-IsCalm t u rest quiet (
        ending s before after job _ (handle_answer job _)
          (λ page b o k. handle_answer-IsCalm page _ job _ b o k) at h)
  Moves-IsCalm s u (next s' t u' (Move.loses_call s'' before after job call at asks) rest) quiet h =
      Moves-IsCalm t u rest quiet (
        ending s before after job _ (handle_answer job _)
          (λ page b o k. handle_answer-IsCalm page _ job _ b o k) at h)
  Moves-IsCalm s u (next s' t u' (Move.returns s'' before after job at ends) rest) quiet h =
      Moves-IsCalm t u rest quiet (
        ending s before after job _ (handle_return job)
          (λ page b o k. handle_return-IsCalm page _ job o) at h)
  Moves-IsCalm s u (next s' t u' (Move.elsewhere s'' e call) rest) quiet h =
      Moves-IsCalm t u rest quiet (elsewhere-IsCalm s _ h)
