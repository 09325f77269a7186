-- ===== src/Web/ScanPage/Session.antt =====
-- web/app/(app)/scan/page.tsx over the server: the user, the network and everyone else.
use qrib.Api.Server.{Server, HttpCall, answer_call}
use qrib.Api.Idempotency.{Site, Endpoint, has_key}
use qrib.Web.ScanPage.{
  ScanPage, Job, PageEvent, is_enabled, handle_event, handle_answer, handle_return, call_of,
}
use qrib.Web.Client.{ClientCall, Fetched, Message, fetch_from}
use qrib.Common.{◌∷◌, ◌++◌, ◌≡◌, first, none, some, Option, List, Text, true, []}

-- The page, the jobs it waits for, and the server's database.
pub record Session : Type 0 where
  pub page : ScanPage
  pub jobs : List Job
  pub site : Site

abbrev pub listed : Option Job → List Job
listed none = []
listed (some job) = job ∷ []

abbrev pub after_event : PageEvent → Session → Session
after_event e s =
    let (page, job) = handle_event e s.page in
    record { page = page; jobs = s.jobs ++ listed job; site = s.site }

-- A job ends, or the next one takes its place.
abbrev pub settled : List Job → List Job → ScanPage × Option Job → Site → Session
settled before after (page, job) site = record {
  page = page;
  jobs = before ++ (listed job ++ after);
  site = site;
}

-- One step. A call under a fresh key reaches the server and its answer comes back, or one of the
-- two is lost on the way.
pub data Move (server : Server) : Session → Session → Type 0 where
  happens :
      (s : Session) (e : PageEvent) → is_enabled e s.page ≡ true → Move server s (after_event e s)
  answers :
      (s : Session) (before after : List Job) (job : Job) (call : ClientCall) (key : Text)
      → s.jobs ≡ before ++ job ∷ after
      → call_of job ≡ some call
      → first (has_key key) s.site.keys ≡ none
      → Move server s (
          settled before after
            (handle_answer job (fetch_from server key call s.site).0 s.page)
            (fetch_from server key call s.site).1)
  loses_answer :
      (s : Session) (before after : List Job) (job : Job) (call : ClientCall) (key : Text)
      → s.jobs ≡ before ++ job ∷ after
      → call_of job ≡ some call
      → first (has_key key) s.site.keys ≡ none
      → Move server s (
          settled before after
            (handle_answer job (Fetched.thrown Message.network_down) s.page)
            (fetch_from server key call s.site).1)
  loses_call :
      (s : Session) (before after : List Job) (job : Job) (call : ClientCall)
      → s.jobs ≡ before ++ job ∷ after
      → call_of job ≡ some call
      → Move server s (
          settled before after
            (handle_answer job (Fetched.thrown Message.network_down) s.page)
            s.site)
  returns :
      (s : Session) (before after : List Job) (job : Job)
      → s.jobs ≡ before ++ job ∷ after
      → call_of job ≡ none
      → Move server s (settled before after (handle_return job s.page) s.site)
  -- a call of someone else
  elsewhere :
      (s : Session) (e : Endpoint) (call : HttpCall)
      → Move server s (record s { site = (answer_call server e call s.site).1 })

-- Any number of steps, the first one first.
pub data Moves (server : Server) : Session → Session → Type 0 where
  no_more : (s : Session) → Moves server s s
  next : (s t u : Session) → Move server s t → Moves server t u → Moves server s u
