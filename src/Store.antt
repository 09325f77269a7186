-- ===== src/Store.antt =====
-- src/engine/store.ts: durable, idempotent transitions with an audit row each, and the queries.
pub mod Transition
use qrib.Common.{
  ℕ, zero, suc, ◌+◌, ◌*◌, ℤ, pos, ◌+ℤ◌, Text, text_eq, Bool, true, false, ◌&&◌, ◌||◌, not, List, [],
  ◌∷◌, ◌++◌, Option, none, some, ltb, leb, if◌then◌else◌, first, select, update_where, take,
  or_else, head?,
}
use qrib.States.{State, state_eq, failed, reconciliation_required, can_transition}
use qrib.Db.{
  Actor, system, Reason, prior_to, Intent, Attempt, World, Fault, invalid_transition,
  unknown_payment, Act, ⊤, pure, raise, gets, or_raise, modify, raise_if, ◌>>=◌, ◌>>◌, transaction,
}

-- `where id = …`; a text that is no uuid is the id of no row, where Postgres throws.
abbrev pub has_id : Text → Intent → Bool
has_id id i = text_eq i.id id

abbrev pub find_intent : Text → World → Option Intent
find_intent id w = first (has_id id) w.intents

-- `getIntent`
unfoldable pub get_intent : Text → Act (Option Intent)
get_intent id = gets (find_intent id)

-- The third argument of `transition`.
pub record Opts : Type 0 where
  pub actor : Option Actor
  pub reason : Option Reason
  pub tx_hash : Option Text

-- `max(attempt_no)`, and 0 where there is no row.
abbrev pub max_attempt_no : Text → List Attempt → ℕ
max_attempt_no id [] = 0
max_attempt_no id (a ∷ rest) =
    let top = max_attempt_no id rest in
    if text_eq a.payment_id id && ltb top a.attempt_no then a.attempt_no else top

-- The audit row of a transition.
unfoldable pub audit_row : Intent → State → Opts → List Attempt → Attempt
audit_row intent to opts attempts = record {
  payment_id = intent.id;
  attempt_no = max_attempt_no intent.id attempts + 1;
  state = to;
  tx_hash = opts.tx_hash;
  actor = or_else opts.actor system;
  reason = or_else opts.reason (prior_to intent.status to);
}

-- The columns that a transition sets.
unfoldable pub moved : State → Opts → ℕ → Intent → Intent
moved to opts now intent = record intent {
  status = to;
  state_entered_at = now;
  updated_at = now;
  failure_reason =
      if state_eq to failed || state_eq to reconciliation_required
      then opts.reason
      else intent.failure_reason;
}

-- The two writes of `transitionWith`: the audit row, and the new status.
unfoldable pub advance : Text → Intent → State → Opts → World → World
advance id intent to opts w = record w {
  attempts = w.attempts ++ audit_row intent to opts w.attempts ∷ [];
  intents = update_where (has_id id) (moved to opts w.now) w.intents;
}

-- `transitionWith`: a replay of the present state changes nothing.
unfoldable pub transition_with : Text → State → Opts → Act Intent
unfolding get_intent
transition_with id to opts = do
  intent ← or_raise (← get_intent id) (unknown_payment id)
  if state_eq intent.status to then pure intent else do
    raise_if (not (can_transition intent.status to)) (invalid_transition intent.status to)
    now ← gets (λ w. w.now)
    modify (advance id intent to opts)
    pure (moved to opts now intent)

-- `transition`
unfoldable pub transition : Text → State → Opts → Act Intent
unfolding transition_with transaction
transition id to opts = transaction (transition_with id to opts)

-- `order by … desc`: the largest first, ties in the order of the table.
abbrev insert_desc {ℓ} : {A : Type ℓ} → (A → ℕ) → A → List A → List A
insert_desc key x [] = x ∷ []
insert_desc key x (y ∷ ys) = if ltb (key x) (key y) then y ∷ insert_desc key x ys else x ∷ y ∷ ys

abbrev pub sort_desc {ℓ} : {A : Type ℓ} → (A → ℕ) → List A → List A
sort_desc key [] = []
sort_desc key (x ∷ xs) = insert_desc key x (sort_desc key xs)

-- `listIntents`
unfoldable pub list_intents : ℕ → Act (List Intent)
list_intents limit = gets (λ w. take limit (sort_desc (λ i. i.created_at) w.intents))

-- 24 hours in milliseconds.
abbrev pub day_ms : ℕ
day_ms = 86_400_000

-- `eq(userId)` and `created_at > now() - interval '24 hours'`
abbrev pub counts_today : Text → ℕ → Intent → Bool
counts_today user now i = is_user i.user_id && ltb now (i.created_at + day_ms)
  where
    is_user : Option Text → Bool
    is_user none = false
    is_user (some u) = text_eq u user

abbrev pub sum_fiat : List Intent → ℤ
sum_fiat [] = pos 0
sum_fiat (i ∷ rest) = i.fiat_amount +ℤ sum_fiat rest

-- `dailyTotalIdr`
unfoldable pub daily_total_idr : Text → Act ℤ
daily_total_idr user = gets (λ w. sum_fiat (select (counts_today user w.now) w.intents))

abbrev pub of_payment : Text → Attempt → Bool
of_payment id a = text_eq a.payment_id id

-- `latestAttempts`
unfoldable pub latest_attempts : Text → Act (List Attempt)
latest_attempts id =
    gets (λ w. take 20 (sort_desc (λ a. a.attempt_no) (select (of_payment id) w.attempts)))

-- `now - stateEnteredAt > dwell * 1000`, false for a state that has no limit.
abbrev pub dwells_past : Option ℕ → ℕ → Intent → Bool
dwells_past none now i = false
dwells_past (some dwell) now i = ltb (i.state_entered_at + dwell * 1000) now

-- `stuckIntents`
unfoldable pub stuck_intents : ℕ → (State → Option ℕ) → Act (List Intent)
stuck_intents now dwell_sec =
    gets (λ w. select (λ i. dwells_past (dwell_sec i.status) now i) w.intents)
