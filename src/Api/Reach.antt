-- ===== src/Api/Reach.antt =====
-- The status of a payment under every sequence of calls of the routes of src/api.
use qrib.States.{includes, Route, terminal, terminal_absorbs, quoted}
use qrib.Store.{has_id, find_intent}
use qrib.Engine.Changes.Writes.{Respects-outside}
use qrib.Db.{World, Intent}
use qrib.Api.Changes.Handlers.{AllowsServer}
use qrib.Api.Idempotency.{Endpoint, Site}
use qrib.Api.Books.{Trusts}
use qrib.Engine.Config.{Config}
use qrib.Api.Server.{Server, HttpCall, answer_calls}
use qrib.Engine.Quote.Changes.{AllowsQuote, create_quote-rel}
use qrib.Engine.Quote.{insert_intent, insert_quote, QuoteInput, Quote}
use qrib.Common.{some, Option, List, Text, true, first-append, ◌∙◌, ◌≡◌, sym, refl}
use qrib.Api.Changes.{answer_calls-rel}
use qrib.Engine.Serve.Reach.{Reaches, reach, reach_engine, reach_allowed, transition_with-reach}

insert_intent-Reaches :
    (cfg : Config) (new : Text) (merchant : Option Text) (input : QuoteInput) (s : World)
    → Reaches s (insert_intent cfg new merchant input s)
unfolding insert_intent
insert_intent-Reaches cfg new merchant input s id i found =
    (i, first-append (has_id id) s.intents _ ∙ rw found refl, 0, Route.here)

insert_quote-Reaches : (cfg : Config) (q : Quote) (s : World) → Reaches s (insert_quote cfg q s)
unfolding insert_quote
insert_quote-Reaches cfg q s id i found = (i, found, 0, Route.here)

reach_quote : AllowsQuote reach
reach_quote = record {
  untouched = reach_engine.untouched;
  intents = insert_intent-Reaches;
  quotes = insert_quote-Reaches;
  moves = λ id opts. transition_with-reach id quoted opts;
}

abbrev allowed : (server : Server) → Trusts server → AllowsServer reach server
allowed server t = record {
  engine = reach_allowed;
  quotes = λ p input given. create_quote-rel reach_quote server.cfg p.off_ramp input (record {
    at = λ s. reach_engine.untouched s (p.off_ramp.ref_rate6 s).1 ((t.rates p given).at s);
  });
  given = λ p given. Respects-outside reach_engine p (t.calls p given);
}

-- Whatever calls of its routes the server answers, and however the providers answer or fail: a
-- payment that is COMPLETED, EXPIRED, FAILED or REFUNDED is not lost and
-- keeps that status for good. What is assumed of the server's providers is that a call of theirs does not write to the
-- payments, the audit trail, the quotes, the ledger or the log of calls.
pub answer_calls-terminal :
    (server : Server) (calls : List (Endpoint × HttpCall)) (s : Site) (id : Text) (i : Intent)
    → Trusts server
    → find_intent id s.world ≡ some i
    → includes terminal i.status ≡ true
    → (j : Intent) × (find_intent id (answer_calls server calls s).world ≡ some j)
      × (j.status ≡ i.status)
answer_calls-terminal server calls s id i t found h =
    let (j, found', n, route) = answer_calls-rel server (allowed server t) calls s id i found in
    (j, found', sym (terminal_absorbs h route))
