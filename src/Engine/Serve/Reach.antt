-- ===== src/Engine/Serve/Reach.antt =====
-- The status of a payment under every sequence of requests.
use qrib.Ledger.Balance.{post_entries-frame}
use qrib.Store.Transition.{transition_with-cases, find_intent-advance, find_intent-advance_other}
use mathlib.Core.Option.{some}
use qrib.Engine.Serve.{Request, serve}
use qrib.Ledger.{Entry, post_entries}
use qrib.Engine.Providers.{Providers}
use qrib.States.{State, Route, can_transition, includes, terminal, terminal_absorbs}
use qrib.Engine.Config.{Config}
use qrib.Engine.Serve.Keeps.{AllowsAll, serve-rel}
use qrib.Engine.Changes.Writes.{Allows, Respects, outside, Respects-outside}
use qrib.Engine.Funding.{set_tx_hash}
use qrib.Engine.Common.{log_call}
use qrib.Common.{
  Text, ℕ, ◌≡◌, List, ap, refl, suc, first, ◌∙◌, true, inl, inr, Bool-cases, sym, text_eq,
  text_eq_sound, ◌++◌, ◌∷◌, [],
}
use qrib.Store.{moved, find_intent, Opts, transition_with, has_id, advance}
use qrib.Db.{World, Change, Intent, Call, convert, broadcast, Runs, open_settlement, Runs-modify}
use mathlib.Core.Option

-- Every payment is still there, and its status has moved along edges of the diagram.
abbrev pub Reaches : World → World → Type 0
Reaches s t =
    (id : Text) (i : Intent)
    → find_intent id s ≡ some i
    → (j : Intent) × (find_intent id t ≡ some j) × (n : ℕ) × Route n i.status j.status

pub Reaches-refl : (s : World) → Reaches s s
Reaches-refl s id i e = (i, e, 0, Route.here)

Route-append : {n m : ℕ} {a b c : State} → Route n a b → Route m b c → (k : ℕ) × Route k a c
Route-append {m} Route.here q = (m, q)
Route-append (Route.step e p) q = let (k, r) = Route-append p q in (suc k, Route.step e r)

pub Reaches-trans : (s t u : World) → Reaches s t → Reaches t u → Reaches s u
Reaches-trans s t u f g id i e =
    let (j, found, n, p) = f id i e in
    let (k, found', m, q) = g id j found in let (l, r) = Route-append p q in (k, found', l, r)

abbrev pub reach : Change
reach = record { rel = Reaches; rel_refl = Reaches-refl; rel_trans = Reaches-trans }

same_intents : (s t : World) → t.intents ≡ s.intents → Reaches s t
same_intents s t e id i found = (i, ap (first (has_id id)) e ∙ found, 0, Route.here)

advance-Reaches :
    (id : Text) (intent : Intent) (to : State) (opts : Opts) (w : World)
    → find_intent id w ≡ some intent
    → can_transition intent.status to ≡ true
    → Reaches w (advance id intent to opts w)
unfolding moved
advance-Reaches id intent to opts w found edge other i e = elim (Bool-cases (text_eq id other)) [
  | inl same ↦
      let at : find_intent id w ≡ some i = rw (text_eq_sound id other same) e in
      let same_row : intent ≡ i = cc in
      (
        moved to opts w.now i,
        rw (← text_eq_sound id other same)
            (find_intent-advance id to opts w intent ∙ ap (Option.map (moved to opts w.now)) at),
        1,
        Route.step (rw (← same_row) edge) Route.here,
      )
  | inr ne ↦ (i, find_intent-advance_other id to opts w intent other ne ∙ e, 0, Route.here)
]

pub transition_with-reach :
    (id : Text) (to : State) (opts : Opts) → Runs reach (transition_with id to opts)
transition_with-reach id to opts = record {
  at = λ w. elim (transition_with-cases id to opts w) [
    | inl same ↦ rw same (Reaches-refl w)
    | inr (intent, found, edge, e) ↦ rw e (advance-Reaches id intent to opts w found edge)
  ];
}

post_entries-reach : (id : Text) (entries : List Entry) → Runs reach (post_entries id entries)
post_entries-reach id entries = record {
  at = λ w. same_intents w (post_entries id entries w).1 ((post_entries-frame id entries w).0);
}

log_call-reach : (call : Call) → Runs reach (log_call call)
unfolding log_call
log_call-reach call =
    Runs-modify _ (λ s. same_intents s (record s { calls = s.calls ++ call ∷ [] }) refl)

set_tx_hash-reach : (id hash : Text) (s : World) → Reaches s (set_tx_hash id hash s)
unfolding set_tx_hash
set_tx_hash-reach id hash s = same_intents s (set_tx_hash id hash s) refl

pub reach_engine : Allows reach
reach_engine = record {
  untouched = λ s t u. same_intents s t u.0;
  moves = λ id to opts _. transition_with-reach id to opts;
  posts = post_entries-reach;
  hashes = set_tx_hash-reach;
  logs_convert = λ id. log_call-reach (convert id);
  logs_open = λ id. log_call-reach (open_settlement id);
}

pub reach_allowed : AllowsAll reach
reach_allowed = record {
  engine = reach_engine;
  moves = transition_with-reach;
  logs_broadcast = λ id usdc. log_call-reach (broadcast id usdc);
}

-- Whatever requests come and however the providers answer or fail: no payment is lost, and the
-- status of each has moved along edges of the diagram alone. What is assumed of the providers is
-- that a call of theirs does not write to the payments, the audit trail, the quotes or the ledger.
pub serve-Reaches :
    (cfg : Config) (p : Providers) (reqs : List Request) (w : World)
    → Respects outside p
    → Reaches w (serve cfg p reqs w)
serve-Reaches cfg p reqs w r =
    serve-rel reach_allowed cfg p (Respects-outside reach_engine p r) reqs w

-- A payment that is COMPLETED, EXPIRED, FAILED or REFUNDED keeps that status for good, whatever
-- requests come and however the providers answer or fail, where a provider's call does not write to
-- the payments, the audit trail, the quotes or the ledger.
pub serve-terminal :
    (cfg : Config) (p : Providers) (reqs : List Request) (w : World) (id : Text) (i : Intent)
    → Respects outside p
    → find_intent id w ≡ some i
    → includes terminal i.status ≡ true
    → (j : Intent) × (find_intent id (serve cfg p reqs w) ≡ some j) × (j.status ≡ i.status)
serve-terminal cfg p reqs w id i r found h =
    let (j, found', n, route) = serve-Reaches cfg p reqs w r id i found in
    (j, found', sym (terminal_absorbs h route))
