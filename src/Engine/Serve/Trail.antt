-- ===== src/Engine/Serve/Trail.antt =====
-- The audit trail under the writes of src/engine.
use qrib.Ledger.Balance.{post_entries-frame}
use qrib.Store.Transition.{transition_with-cases, find_intent-advance, find_intent-advance_other}
use qrib.Engine.Serve.Keeps.{AllowsAll}
use qrib.Engine.Changes.Writes.{Allows}
use qrib.Engine.Common.{log_call}
use qrib.Ledger.{Entry, post_entries}
use qrib.Engine.Funding.{is_submitted_of, set_tx_hash, with_hash}
use mathlib.Core.Option
use qrib.Store.{find_intent, Opts, advance, has_id, audit_row, moved, transition_with}
use qrib.States.{State, created, can_transition}
use qrib.Db.{
  World, Change, Intent, Attempt, Runs, Call, convert, broadcast, Runs-modify, open_settlement,
}
use qrib.Common.{
  ◌≡◌, ap, text_eq, update_where, ◌∙◌, sym, ◌∷◌, if◌then◌else◌, ◌++◌, arith, first_sound,
  text_eq_sound, Bool-cases, inl, refl, inr, none, some, Option, List, Text, true, false, [],
}

-- The state that the audit rows of a payment lead to from `s`, if each is an edge further.
abbrev pub follow : Text → State → List Attempt → Option State
follow id s [] = some s
follow id s (a ∷ rest) =
    let next = follow id a.state rest in
    let same = follow id s rest in
    if text_eq a.payment_id id then (if can_transition s a.state then next else none) else same

-- The status of a payment, and CREATED where there is none.
abbrev pub status_or_created : Option Intent → State
status_or_created none = created
status_or_created (some i) = i.status

-- The rows of every payment lead along edges from CREATED to its status. Those of an id
-- without a payment lead to CREATED, as having none does.
abbrev pub TrailIsValid : World → Type 0
TrailIsValid w =
    (id : Text) → follow id created w.attempts ≡ some (status_or_created (find_intent id w))

follow-append_own :
    (id : Text) (s m : State) (rows : List Attempt) (a : Attempt)
    → follow id s rows ≡ some m
    → text_eq a.payment_id id ≡ true
    → can_transition m a.state ≡ true
    → follow id s (rows ++ a ∷ []) ≡ some a.state
follow-append_own id s m [] a e own edge = ground arith
follow-append_own id s m (b ∷ rows) a e own edge =
    ground (arith, follow-append_own id b.state m rows a, follow-append_own id s m rows a)

follow-append_other :
    (id : Text) (s : State) (rows : List Attempt) (a : Attempt)
    → text_eq a.payment_id id ≡ false
    → follow id s (rows ++ a ∷ []) ≡ follow id s rows
follow-append_other id s [] a other = ground arith
follow-append_other id s (b ∷ rows) a other =
    ground
      (arith, follow-append_other id b.state rows a other, follow-append_other id s rows a other)

-- A hash that is written onto rows of the trail does not change where it leads.
follow-with_hash :
    (id other hash : Text) (s : State) (rows : List Attempt)
    → follow id s (update_where (is_submitted_of other) (with_hash hash) rows) ≡ follow id s rows
follow-with_hash id other hash s [] = refl
follow-with_hash id other hash s (b ∷ rows) =
    ground
      (arith, follow-with_hash id other hash b.state rows, follow-with_hash id other hash s rows)

abbrev pub trail : Change
trail = record {
  rel = λ s t. TrailIsValid s → TrailIsValid t;
  rel_refl = λ s h. h;
  rel_trans = λ s t u f g h. g (f h);
}

same_trail :
    (s t : World)
    → t.intents ≡ s.intents
    → t.attempts ≡ s.attempts
    → TrailIsValid s
    → TrailIsValid t
same_trail s t e f h id = rw (e, f) (h id)

follow-advance :
    (id : Text) (intent : Intent) (to : State) (opts : Opts) (w : World)
    → find_intent id w ≡ some intent
    → can_transition intent.status to ≡ true
    → follow id created w.attempts ≡ some intent.status
    → follow id created (advance id intent to opts w).attempts ≡ some to
unfolding advance audit_row
follow-advance id intent to opts w found edge h =
    follow-append_own id created intent.status w.attempts (audit_row intent to opts w.attempts) h
      (first_sound (has_id id) w.intents found) edge

follow-advance_other :
    (id other : Text) (intent : Intent) (to : State) (opts : Opts) (w : World)
    → find_intent id w ≡ some intent
    → text_eq id other ≡ false
    → follow other created (advance id intent to opts w).attempts ≡ follow other created w.attempts
unfolding advance audit_row
follow-advance_other id other intent to opts w found ne =
    let own : intent.id ≡ id =
      text_eq_sound intent.id id (first_sound (has_id id) w.intents found) in
    follow-append_other other created w.attempts (audit_row intent to opts w.attempts) (rw own ne)

advance-TrailIsValid :
    (id : Text) (intent : Intent) (to : State) (opts : Opts) (w : World)
    → find_intent id w ≡ some intent
    → can_transition intent.status to ≡ true
    → TrailIsValid w
    → TrailIsValid (advance id intent to opts w)
unfolding moved
advance-TrailIsValid id intent to opts w found edge h other = elim (Bool-cases (text_eq id other)) [
  | inl same ↦
      let now : find_intent id (advance id intent to opts w) ≡ some (moved to opts w.now intent) =
        find_intent-advance id to opts w intent ∙ ap (Option.map (moved to opts w.now)) found in
      let before : follow id created w.attempts ≡ some intent.status =
        h id ∙ ap (λ (o : Option Intent). some (status_or_created o)) found in
      rw (← text_eq_sound id other same, now) (follow-advance id intent to opts w found edge before)
  | inr ne ↦
      follow-advance_other id other intent to opts w found ne
      ∙ h other
      ∙ ap (λ (o : Option Intent). some (status_or_created o))
          (sym (find_intent-advance_other id to opts w intent other ne))
]

pub transition_with-trail :
    (id : Text) (to : State) (opts : Opts) → Runs trail (transition_with id to opts)
transition_with-trail id to opts = record {
  at = λ w h. elim (transition_with-cases id to opts w) [
    | inl same ↦ rw same h
    | inr (intent, found, edge, e) ↦ rw e (advance-TrailIsValid id intent to opts w found edge h)
  ];
}

post_entries-trail : (id : Text) (entries : List Entry) → Runs trail (post_entries id entries)
post_entries-trail id entries = record {
  at = λ w.
      let f = post_entries-frame id entries w in
      same_trail w (post_entries id entries w).1 (f.0) (f.1);
}

log_call-trail : (call : Call) → Runs trail (log_call call)
unfolding log_call
log_call-trail call = Runs-modify _ (λ s h. h)

set_tx_hash-trail :
    (id hash : Text) (s : World) → TrailIsValid s → TrailIsValid (set_tx_hash id hash s)
unfolding set_tx_hash
set_tx_hash-trail id hash s h other = follow-with_hash other id hash created s.attempts ∙ h other

pub trail_engine : Allows trail
trail_engine = record {
  untouched = λ s t u. same_trail s t u.0 u.1;
  moves = λ id to opts _. transition_with-trail id to opts;
  posts = post_entries-trail;
  hashes = set_tx_hash-trail;
  logs_convert = λ id. log_call-trail (convert id);
  logs_open = λ id. log_call-trail (open_settlement id);
}

pub trail_allowed : AllowsAll trail
trail_allowed = record {
  engine = trail_engine;
  moves = transition_with-trail;
  logs_broadcast = λ id usdc. log_call-trail (broadcast id usdc);
}
