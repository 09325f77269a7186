-- ===== src/Engine/Serve/Books.antt =====
-- The books under every sequence of requests.
use qrib.Engine.Serve.{Request, serve}
use qrib.States.{State, state_eq}
use qrib.Engine.Providers.{Providers}
use qrib.Common.{◌≡◌, refl, List, Text}
use qrib.Ledger.Balance.{BooksBalance, post_entries-BooksBalance}
use qrib.Engine.Config.{Config}
use qrib.Engine.Serve.Keeps.{AllowsAll, serve-rel}
use qrib.Engine.Changes.Writes.{Allows, Respects, Runs-get_intent, outside, Respects-outside}
use qrib.Engine.Funding.{set_tx_hash}
use qrib.Engine.Common.{log_call}
use qrib.Store.{advance, transition_with, Opts}
use qrib.Db.{
  Change, World, Call, broadcast, Intent, Runs, convert, Runs-modify, open_settlement, Runs-bind,
  Runs-or_raise, Runs-if, Runs-pure, Runs-then, Runs-raise_if, Runs-gets,
}

abbrev pub books : Change
books = record {
  rel = λ s t. BooksBalance s → BooksBalance t;
  rel_refl = λ s h. h;
  rel_trans = λ s t u f g h. g (f h);
}

pub same_ledger : (s t : World) → t.ledger ≡ s.ledger → BooksBalance s → BooksBalance t
same_ledger s t e h id c = rw e (h id c)

advance-ledger :
    (id : Text) (i : Intent) (to : State) (opts : Opts) (w : World)
    → (advance id i to opts w).ledger ≡ w.ledger
unfolding advance
advance-ledger id i to opts w = refl

pub transition_with-books :
    (id : Text) (to : State) (opts : Opts) → Runs books (transition_with id to opts)
unfolding transition_with
transition_with-books id to opts = Runs-bind _ _ (Runs-get_intent id) λ found.
    Runs-bind _ _ (Runs-or_raise _ _) λ intent.
      Runs-if (state_eq intent.status to) _ _ (Runs-pure intent) (
        Runs-then _ _ (Runs-raise_if _ _) (
          Runs-bind _ _ (Runs-gets _) λ now.
            Runs-then _ _
              (Runs-modify _ (λ s.
                same_ledger s (advance id intent to opts s) (advance-ledger id intent to opts s)))
              (Runs-pure _)))

pub log_call-books : (call : Call) → Runs books (log_call call)
unfolding log_call
log_call-books call = Runs-modify _ (λ s h. h)

pub set_tx_hash-books :
    (id hash : Text) (s : World) → BooksBalance s → BooksBalance (set_tx_hash id hash s)
unfolding set_tx_hash
set_tx_hash-books id hash s h = h

abbrev pub books_engine : Allows books
books_engine = record {
  untouched = λ s t u. same_ledger s t u.3;
  moves = λ id to opts _. transition_with-books id to opts;
  posts = λ id entries. record { at = λ s. post_entries-BooksBalance id entries s };
  hashes = set_tx_hash-books;
  logs_convert = λ id. log_call-books (convert id);
  logs_open = λ id. log_call-books (open_settlement id);
}

abbrev pub books_allowed : AllowsAll books
books_allowed = record {
  engine = books_engine;
  moves = transition_with-books;
  logs_broadcast = λ id usdc. log_call-books (broadcast id usdc);
}

-- Whatever requests come, in whatever order, and however the providers answer or fail: the ledger
-- entries of every payment net to 0 in every currency after them, if they did before. What is
-- assumed of the providers is that a call of theirs does not write to the payments, the audit
-- trail, the quotes or the ledger.
pub serve-BooksBalance :
    (cfg : Config) (p : Providers) (reqs : List Request) (w : World)
    → Respects outside p
    → BooksBalance w
    → BooksBalance (serve cfg p reqs w)
serve-BooksBalance cfg p reqs w r h =
    serve-rel books_allowed cfg p (Respects-outside books_engine p r) reqs w h
