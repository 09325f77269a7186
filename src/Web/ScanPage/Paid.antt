-- ===== src/Web/ScanPage/Paid.antt =====
-- Which payments web/app/(app)/scan/page.tsx executes.
use qrib.Common.{◌⊎◌, ◌≡◌, inl, subst, inr, ap, Text, []}
use qrib.Api.Server.{Server}
use qrib.Web.Client.{fetch_from}
use qrib.Web.ScanPage.{Job, handle_event, handle_answer}
use qrib.Web.ScanPage.Waiting.{In, In-append, In-listed, In-settled, In-here}
use qrib.Web.ScanPage.Jobs.{
  authorized_by, Presses, Grants, event_executes_none, event_authorizes, answer_executes,
  answer_authorizes_none, return_starts_none, no_next, no_job, no_execution, lost_none,
}
use qrib.Web.ScanPage.Session.{Session, Moves, Move, no_more, next}

-- The step is a press of the button that pays the payment.
abbrev pub IsPress : {server : Server} {s t : Session} → Text → Move server s t → Type 0
IsPress asked (Move.happens s e on) = Presses asked e s.page
IsPress asked _ = ⊥

-- The step is the answer to the authorization of one payment, and names the other.
abbrev pub IsGrant : {server : Server} {s t : Session} → Text → Text → Move server s t → Type 0
IsGrant {server = server} asked id (Move.answers s before after job call key at asks fresh) =
    Grants asked id job (fetch_from server key call s.site).0
IsGrant asked id _ = ⊥

-- Such an answer comes at some time.
abbrev pub IsGranted : {server : Server} {s u : Session} → Text → Text → Moves server s u → Type 0
IsGranted asked id (no_more s) = ⊥
IsGranted asked id (next s t u step rest) = IsGrant asked id step ⊎ IsGranted asked id rest

-- The user presses the button that pays a payment, and later the answer to its authorization names
-- this one.
abbrev pub IsPaid : {server : Server} {s u : Session} → Text → Moves server s u → Type 0
IsPaid id (no_more s) = ⊥
IsPaid id (next s t u step rest) =
    ((asked : Text) × IsPress asked step × IsGranted asked id rest) ⊎ IsPaid id rest

module _ {server : Server} where
  -- An execution that waits after a step waited before, or follows an authorization.
  execution_from :
      (s t : Session) (step : Move server s t) (id : Text)
      → In (Job.executing id) t.jobs
      → In (Job.executing id) s.jobs
        ⊎ ((asked : Text) × In (Job.authorizing asked) s.jobs × IsGrant asked id step)
  execution_from s t (Move.happens s' e on) id h = elim (In-append _ s.jobs _ h) [
    | inl before ↦ inl before
    | inr new ↦
        absurd
          (no_execution (event_executes_none e s.page) (In-listed _ (handle_event e s.page).1 new))
  ]
  execution_from s t (Move.answers s' before after job call key at asks fresh) id h =
      let r = (fetch_from server key call s.site).0 in
      elim (In-settled _ job (handle_answer job r s.page).1 before after s.jobs at h) [
        | inl earlier ↦ inl earlier
        | inr new ↦
            let (asked, grants) = answer_executes job r s.page id new in
            inr (
              asked,
              subst (λ (j : Job). In j s.jobs) grants.0 (In-here job before after s.jobs at),
              grants,
            )
      ]
  execution_from s t (Move.loses_answer s' before after job call key at asks fresh) id h =
      elim (In-settled _ job _ before after s.jobs at h) [
        | inl earlier ↦ inl earlier
        | inr new ↦ absurd (lost_none job s.page new)
      ]
  execution_from s t (Move.loses_call s' before after job call at asks) id h =
      elim (In-settled _ job _ before after s.jobs at h) [
        | inl earlier ↦ inl earlier
        | inr new ↦ absurd (lost_none job s.page new)
      ]
  execution_from s t (Move.returns s' before after job at ends) id h =
      elim (In-settled _ job _ before after s.jobs at h) [
        | inl earlier ↦ inl earlier
        | inr new ↦ absurd (no_next (return_starts_none job s.page) new)
      ]
  execution_from s t (Move.elsewhere s' e call) id h = inl h

  -- An authorization that waits after a step waited before, or was started by the press.
  authorization_from :
      (s t : Session) (step : Move server s t) (asked : Text)
      → In (Job.authorizing asked) t.jobs
      → In (Job.authorizing asked) s.jobs ⊎ IsPress asked step
  authorization_from s t (Move.happens s' e on) asked h = elim (In-append _ s.jobs _ h) [
    | inl before ↦ inl before
    | inr new ↦ inr (
        event_authorizes e s.page asked on
          (ap authorized_by (In-listed _ (handle_event e s.page).1 new)))
  ]
  authorization_from s t (Move.answers s' before after job call key at asks fresh) asked h =
      let r = (fetch_from server key call s.site).0 in
      elim (In-settled _ job (handle_answer job r s.page).1 before after s.jobs at h) [
        | inl earlier ↦ inl earlier
        | inr new ↦ absurd (no_job (answer_authorizes_none job r s.page) (ap authorized_by new))
      ]
  authorization_from s t (Move.loses_answer s' before after job call key at asks fresh) asked h =
      elim (In-settled _ job _ before after s.jobs at h) [
        | inl earlier ↦ inl earlier
        | inr new ↦ absurd (lost_none job s.page new)
      ]
  authorization_from s t (Move.loses_call s' before after job call at asks) asked h =
      elim (In-settled _ job _ before after s.jobs at h) [
        | inl earlier ↦ inl earlier
        | inr new ↦ absurd (lost_none job s.page new)
      ]
  authorization_from s t (Move.returns s' before after job at ends) asked h =
      elim (In-settled _ job _ before after s.jobs at h) [
        | inl earlier ↦ inl earlier
        | inr new ↦ absurd (no_next (return_starts_none job s.page) new)
      ]
  authorization_from s t (Move.elsewhere s' e call) asked h = inl h

  Moves-IsPaid :
      (s u : Session) (steps : Moves server s u) (id : Text)
      → In (Job.executing id) u.jobs
      → In (Job.executing id) s.jobs
        ⊎ (((asked : Text) × In (Job.authorizing asked) s.jobs × IsGranted asked id steps)
            ⊎ IsPaid id steps)
  Moves-IsPaid s u (no_more s') id h = inl h
  Moves-IsPaid s u (next s' t u' step rest) id h = elim (Moves-IsPaid t u rest id h) [
    | inl waits ↦ elim (execution_from s t step id waits) [
      | inl before ↦ inl before
      | inr (asked, authorizes, granted) ↦ inr (inl (asked, authorizes, inl granted))
    ]
    | inr (inl (asked, authorizes, granted)) ↦ elim (authorization_from s t step asked authorizes) [
      | inl before ↦ inr (inl (asked, before, inr granted))
      | inr pressed ↦ inr (inr (inl (asked, pressed, granted)))
    ]
    | inr (inr paid) ↦ inr (inr (inr paid))
  ]

-- However the user presses, scans and types, whatever the network loses and whatever others ask of
-- the server: a page that waited for nothing comes to wait for the execution of a payment only after
-- the user has pressed the button that pays, under a quote that was not marked as expired and with
-- the page not busy, and after the server has then answered the authorization of the payment that
-- the quote names with the payment that is executed.
pub executing-IsPaid :
    (server : Server) (s u : Session) (steps : Moves server s u) (id : Text)
    → s.jobs ≡ []
    → In (Job.executing id) u.jobs
    → IsPaid id steps
executing-IsPaid server s u steps id rests h = elim (Moves-IsPaid s u steps id h) [
  | inl waits ↦ absurd (subst (In (Job.executing id)) rests waits)
  | inr (inl (asked, waits, granted)) ↦ absurd (subst (In (Job.authorizing asked)) rests waits)
  | inr (inr paid) ↦ paid
]
