-- ===== src/Api/Books.antt =====
-- The books under every sequence of calls of the routes of src/api.
use qrib.Engine.Quote.Changes.{AllowsQuote, create_quote-rel}
use qrib.States.{quoted}
use qrib.Db.{Runs, World}
use qrib.Engine.Config.{Config}
use qrib.Engine.Providers.{Providers}
use qrib.Common.{◌≡◌, some, Option, List, Text}
use qrib.Api.Changes.Handlers.{AllowsServer}
use qrib.Api.Changes.{answer_calls-rel}
use qrib.Api.Server.{Server, answer_calls, HttpCall}
use qrib.Api.Idempotency.{Endpoint, Site}
use qrib.Engine.Serve.Books.{books, books_allowed, books_engine}
use qrib.Engine.Changes.Writes.{Respects, Respects-outside, outside}
use qrib.Engine.Quote.{insert_intent, insert_quote, QuoteInput, Quote}
use qrib.Ledger.Balance.{BooksBalance}

-- The server's providers leave payments, audit trail, quotes, books and calls alone.
pub record Trusts (server : Server) : Type 0 where
  pub calls : (p : Providers) → server.env_providers ≡ some p → Respects outside p
  pub rates : (p : Providers) → server.env_providers ≡ some p → Runs outside p.off_ramp.ref_rate6

insert_intent-books :
    (cfg : Config) (id : Text) (merchant : Option Text) (input : QuoteInput) (s : World)
    → BooksBalance s
    → BooksBalance (insert_intent cfg id merchant input s)
unfolding insert_intent
insert_intent-books cfg id merchant input s h = h

insert_quote-books :
    (cfg : Config) (q : Quote) (s : World) → BooksBalance s → BooksBalance (insert_quote cfg q s)
unfolding insert_quote
insert_quote-books cfg q s h = h

abbrev books_quote : AllowsQuote books
books_quote = record {
  untouched = books_engine.untouched;
  intents = insert_intent-books;
  quotes = insert_quote-books;
  moves = λ id opts. books_allowed.moves id quoted opts;
}

abbrev allowed : (server : Server) → Trusts server → AllowsServer books server
allowed server t = record {
  engine = books_allowed;
  quotes = λ p input given. create_quote-rel books_quote server.cfg p.off_ramp input (record {
    at = λ s. books_engine.untouched s (p.off_ramp.ref_rate6 s).1 ((t.rates p given).at s);
  });
  given = λ p given. Respects-outside books_engine p (t.calls p given);
}

-- Whatever calls the server answers, in whatever order, signed or not, repeated or not, with bodies
-- of any form: the ledger entries of every payment net to 0 in every currency after them, if they
-- did before. The providers are assumed not to write to the payments, the audit trail, the quotes
-- or the ledger.
pub answer_calls-BooksBalance :
    (server : Server) (calls : List (Endpoint × HttpCall)) (s : Site)
    → Trusts server
    → BooksBalance s.world
    → BooksBalance (answer_calls server calls s).world
answer_calls-BooksBalance server calls s t h = answer_calls-rel server (allowed server t) calls s h
