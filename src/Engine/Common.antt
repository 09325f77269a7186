-- ===== src/Engine/Common.antt =====
-- What the parts of src/engine/service.ts share: the latest quote, reasons, and new rows.
use qrib.Common.{
  ◌+◌, Text, text_eq, Bool, true, false, [], ◌∷◌, ◌++◌, Option, none, some, head?, select,
}
use qrib.Db.{
  Actor, Reason, Intent, QuoteRow, Call, payment_error, type_error, Act, ⊤, gets, or_raise, modify,
  ◌>>=◌, ◌>>◌, pure,
}
use qrib.Store.{Opts, get_intent, sort_desc}

abbrev pub quote_of : Text → QuoteRow → Bool
quote_of id q = text_eq q.payment_id id

-- `latestQuote`
unfoldable pub latest_quote : Text → Act QuoteRow
latest_quote id = do
  rows ← gets (λ w. sort_desc (λ q. q.created_at) (select (quote_of id) w.quotes))
  or_raise (head? rows) (payment_error 409)

-- `getIntent` followed by a throw of status 404.
unfoldable pub known_intent : Text → Act Intent
unfolding get_intent
known_intent id = do or_raise (← get_intent id) (payment_error 404)

-- `(await getIntent(db, id))!`
unfoldable pub the_intent : Text → Act Intent
unfolding get_intent
the_intent id = do or_raise (← get_intent id) type_error

abbrev pub because : Reason → Opts
because r = record { actor = none; reason = some r; tx_hash = none }

abbrev pub by_actor : Actor → Reason → Opts
by_actor a r = record { actor = some a; reason = some r; tx_hash = none }

-- The next uuid of the database.
unfoldable pub draw : Act Text
draw = do id ← gets (λ w. w.uuids w.drawn); modify (λ w. record w { drawn = w.drawn + 1 }); pure id

-- A call to a provider, as it leaves the program.
unfoldable pub log_call : Call → Act ⊤
log_call c = modify (λ w. record w { calls = w.calls ++ c ∷ [] })

-- A text that is there and not empty: `if (x)`.
abbrev pub truthy : Option Text → Bool
truthy none = false
truthy (some []) = false
truthy (some (c ∷ s)) = true

abbrev pub is_text : Text → Option Text → Bool
is_text t none = false
is_text t (some s) = text_eq s t
