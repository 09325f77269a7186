-- ===== src/Engine/Serve/Spent.antt =====
-- A payment that is past AUTHORIZED stays past it, and no broadcast is made of it: what `execute`
-- of src/engine/service.ts relies on for double taps, retries and resumes.
use mathlib.Core.Option
use qrib.Ledger.Balance.{post_entries-frame}
use qrib.Store.Transition.{transition_with-cases, find_intent-advance, find_intent-advance_other}
use qrib.Ledger.{Entry, post_entries}
use qrib.Engine.Changes.Writes.{Allows, is_target}
use qrib.Engine.Funding.{set_tx_hash}
use qrib.Engine.Common.{log_call}
use qrib.States.{State, authorized, created, quoted}
use qrib.Store.{moved, find_intent, Opts, transition_with, has_id, advance}
use qrib.Db.{World, Change, Intent, Call, convert, Runs, open_settlement, Runs-modify}
use qrib.Common.{
  Text, List, ◌≡◌, some, sym, true, ap, first, arith, inl, ◌∙◌, Bool-cases, inr, text_eq,
  text_eq_sound, subst, Bool, false,
}

-- The states before a payment's broadcast.
abbrev pub is_waiting : State → Bool
is_waiting created = true
is_waiting quoted = true
is_waiting authorized = true
is_waiting _ = false

-- The payment, if it is there, is past its broadcast or will have none.
abbrev pub IsSpent : Text → World → Type 0
IsSpent id w = (i : Intent) → find_intent id w ≡ some i → is_waiting i.status ≡ false

module _ (id : Text) where
  abbrev pub spent : Change
  spent = record {
    rel = λ s t. IsSpent id s → IsSpent id t;
    rel_refl = λ s h. h;
    rel_trans = λ s t u f g h. g (f h);
  }

  same-IsSpent : (s t : World) → t.intents ≡ s.intents → IsSpent id s → IsSpent id t
  same-IsSpent s t e h i found = h i (sym (ap (first (has_id id)) e) ∙ found)

  -- After a transition to a state past AUTHORIZED the payment is spent.
  advance_own-IsSpent :
      (intent : Intent) (to : State) (opts : Opts) (w : World)
      → find_intent id w ≡ some intent
      → is_waiting to ≡ false
      → IsSpent id (advance id intent to opts w)
  unfolding moved
  advance_own-IsSpent intent to opts w found ne i e =
      let now : find_intent id (advance id intent to opts w) ≡ some (moved to opts w.now intent) =
        find_intent-advance id to opts w intent ∙ ap (Option.map (moved to opts w.now)) found in
      let status : i.status ≡ to = ground arith in ap is_waiting status ∙ ne

  advance-IsSpent :
      (other : Text) (intent : Intent) (to : State) (opts : Opts) (w : World)
      → find_intent other w ≡ some intent
      → is_waiting to ≡ false
      → IsSpent id w
      → IsSpent id (advance other intent to opts w)
  advance-IsSpent other intent to opts w found ne h = elim (Bool-cases (text_eq other id)) [
    | inl same ↦
        let e = text_eq_sound other id same in
        let found' : find_intent id w ≡ some intent =
          subst (λ (x : Text). find_intent x w ≡ some intent) e found in
        subst (λ (x : Text). IsSpent id (advance x intent to opts w)) (sym e)
          (advance_own-IsSpent intent to opts w found' ne)
    | inr apart ↦ λ i e. h i (sym (find_intent-advance_other other to opts w intent id apart) ∙ e)
  ]

  -- A transition of another payment.
  pub transition_with_other-spent :
      (other : Text) (to : State) (opts : Opts)
      → text_eq other id ≡ false
      → Runs spent (transition_with other to opts)
  transition_with_other-spent other to opts apart = record {
    at = λ w h. elim (transition_with-cases other to opts w) [
      | inl same ↦ rw same h
      | inr (intent, found, edge, e) ↦
          rw e
            (λ i here. h i (sym (find_intent-advance_other other to opts w intent id apart) ∙ here))
    ];
  }

  is_target-past : (to : State) → is_target to ≡ true → is_waiting to ≡ false
  is_target-past to e = ground arith

  pub transition_with-spent :
      (other : Text) (to : State) (opts : Opts)
      → is_waiting to ≡ false
      → Runs spent (transition_with other to opts)
  transition_with-spent other to opts past = record {
    at = λ w h. elim (transition_with-cases other to opts w) [
      | inl same ↦ rw same h
      | inr (intent, found, edge, e) ↦ rw e (advance-IsSpent other intent to opts w found past h)
    ];
  }

  post_entries-spent :
      (other : Text) (entries : List Entry) → Runs spent (post_entries other entries)
  post_entries-spent other entries = record {
    at = λ w.
        same-IsSpent w (post_entries other entries w).1 ((post_entries-frame other entries w).0);
  }

  pub log_call-spent : (call : Call) → Runs spent (log_call call)
  unfolding log_call
  log_call-spent call = Runs-modify _ (λ s h. h)

  set_tx_hash-IsSpent :
      (other hash : Text) (s : World) → IsSpent id s → IsSpent id (set_tx_hash other hash s)
  unfolding set_tx_hash
  set_tx_hash-IsSpent other hash s h = h

  pub spent_engine : Allows spent
  spent_engine = record {
    untouched = λ s t u. same-IsSpent s t u.0;
    moves = λ other to opts e. transition_with-spent other to opts (is_target-past to e);
    posts = post_entries-spent;
    hashes = set_tx_hash-IsSpent;
    logs_convert = λ other. log_call-spent (convert other);
    logs_open = λ other. log_call-spent (open_settlement other);
  }
