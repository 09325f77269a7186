-- ===== src/Api/Trail.antt =====
-- The audit trail under every sequence of calls of the routes of src/api.
use qrib.States.{quoted, created}
use qrib.Store.{has_id}
use qrib.Engine.Changes.Writes.{Respects-outside}
use qrib.Db.{World, Intent}
use qrib.Api.Changes.Handlers.{AllowsServer}
use qrib.Api.Idempotency.{Endpoint, Site}
use qrib.Api.Books.{Trusts}
use qrib.Engine.Config.{Config}
use qrib.Api.Server.{Server, HttpCall, answer_calls}
use qrib.Engine.Quote.Changes.{AllowsQuote, create_quote-rel}
use qrib.Engine.Quote.{insert_intent, insert_quote, QuoteInput, Quote}
use qrib.Common.{first, ◌∙◌, ◌≡◌, sym, refl, ◌++◌, ap, ◌∷◌, arith, some, Option, List, Text, []}
use qrib.Api.Changes.{answer_calls-rel}
use qrib.Engine.Serve.Trail.{
  TrailIsValid, trail, trail_engine, trail_allowed, transition_with-trail, status_or_created,
}

-- A payment that is stored anew is CREATED; one that was known keeps its status.
status-append :
    (id : Text) (intents : List Intent) (new : Intent)
    → new.status ≡ created
    → status_or_created (first (has_id id) (intents ++ new ∷ []))
      ≡ status_or_created (first (has_id id) intents)
status-append id [] new fresh = ground (arith, fresh)
status-append id (i ∷ rest) new fresh = ground (arith, status-append id rest new fresh)

insert_intent-TrailIsValid :
    (cfg : Config) (new : Text) (merchant : Option Text) (input : QuoteInput) (s : World)
    → TrailIsValid s
    → TrailIsValid (insert_intent cfg new merchant input s)
unfolding insert_intent
insert_intent-TrailIsValid cfg new merchant input s h id =
    h id ∙ ap some (sym (status-append id s.intents _ refl))

insert_quote-TrailIsValid :
    (cfg : Config) (q : Quote) (s : World) → TrailIsValid s → TrailIsValid (insert_quote cfg q s)
unfolding insert_quote
insert_quote-TrailIsValid cfg q s h = h

trail_quote : AllowsQuote trail
trail_quote = record {
  untouched = trail_engine.untouched;
  intents = insert_intent-TrailIsValid;
  quotes = insert_quote-TrailIsValid;
  moves = λ id opts. transition_with-trail id quoted opts;
}

abbrev allowed : (server : Server) → Trusts server → AllowsServer trail server
allowed server t = record {
  engine = trail_allowed;
  quotes = λ p input given. create_quote-rel trail_quote server.cfg p.off_ramp input (record {
    at = λ s. trail_engine.untouched s (p.off_ramp.ref_rate6 s).1 ((t.rates p given).at s);
  });
  given = λ p given. Respects-outside trail_engine p (t.calls p given);
}

-- Whatever calls of its routes the server answers, and however the providers answer or fail: if the
-- audit rows of every payment lead along edges of the diagram from CREATED to its status, and those
-- of an id without a payment to CREATED, as having none does, then this holds afterwards, of the
-- payments that `createQuote` has stored meanwhile too. What is assumed of the server's providers is
-- that a call of theirs does not write to the payments, the audit trail, the quotes, the ledger or
-- the log of calls.
pub answer_calls-TrailIsValid :
    (server : Server) (calls : List (Endpoint × HttpCall)) (s : Site)
    → Trusts server
    → TrailIsValid s.world
    → TrailIsValid (answer_calls server calls s).world
answer_calls-TrailIsValid server calls s t h = answer_calls-rel server (allowed server t) calls s h
