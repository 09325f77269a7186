-- ===== src/Api/Once/Keeps.antt =====
-- What a call of a route keeps of a payment: its row, and that it is past AUTHORIZED.
use Option.{none}
use qrib.Engine.Quote.Changes.{AllowsQuote}
use qrib.Engine.Serve.Reach.{serve-Reaches}
use qrib.Store.Transition.{transition_with-cases, find_intent-advance, find_intent-advance_other}
use qrib.Engine.Serve.Spent.{is_waiting}
use qrib.Engine.Serve.Broadcasts.{broadcasts, same_calls, advance-calls}
use qrib.Engine.Providers.{Providers}
use qrib.Engine.Config.{Config}
use qrib.Engine.Changes.Writes.{Untouched, Respects, outside}
use qrib.Engine.Serve.Retries.{Guarded, Guarded-trans}
use qrib.Store.{Opts, find_intent, transition_with, has_id, advance, moved}
use qrib.States.{State, can_transition, quoted, state_eq}
use qrib.Engine.Quote.{insert_intent, insert_quote, QuoteInput, Quote}
use qrib.Engine.Serve.{serve, Request, serve_one}
use qrib.Db.{World, Change, Intent, Runs}
use qrib.Common.{
  inl, ◌≡◌, ap, first, first-append, refl, ◌∙◌, arith, inr, sym, ◌∷◌, some, Option, Text, true,
  false, [], Bool-cases, text_eq, text_eq_sound, subst,
}
use mathlib.Core.Option
use qrib.Engine.Serve.Guards.{is_retry, Guarded-one}

module _ (id : Text) where
  abbrev pub IsKnown : World → Type 0
  IsKnown w = (i : Intent) × (find_intent id w ≡ some i)

  -- A payment that is there stays there, and is guarded.
  abbrev pub Kept : World → World → Type 0
  Kept s t = IsKnown s → IsKnown t × Guarded id s t

  abbrev pub kept : Change
  kept = record {
    rel = Kept;
    rel_refl = λ s h. (h, (λ k. k, inl refl));
    rel_trans = λ s t u f g h.
        let (known, guards) = f h in
        let (known', guards') = g known in (known', Guarded-trans id s t u guards guards');
  }

  -- The payment's row and its broadcasts are as before.
  same_row :
      (s t : World)
      → (IsKnown s → find_intent id t ≡ find_intent id s)
      → broadcasts id t.calls ≡ broadcasts id s.calls
      → Kept s t
  same_row s t row calls h =
      let e = row h in ((h.0, e ∙ h.1), (λ past i found. past i (sym e ∙ found), inl calls))

  pub Untouched-Kept : (s t : World) → Untouched s t → Kept s t
  Untouched-Kept s t u = same_row s t (λ h. ap (first (has_id id)) u.0) (same_calls s t u.4 id)

  pub request-Kept :
      (cfg : Config) (p : Providers) (req : Request) (w : World)
      → Respects outside p
      → is_retry id req ≡ false
      → Kept w (serve_one cfg p req w)
  unfolding serve
  request-Kept cfg p req w r e (i, found) =
      let (j, found', _, _) = serve-Reaches cfg p (req ∷ []) w r id i found in
      ((j, found'), Guarded-one id cfg p r req w e)

  insert_intent-Kept :
      (cfg : Config) (new : Text) (merchant : Option Text) (input : QuoteInput) (s : World)
      → Kept s (insert_intent cfg new merchant input s)
  unfolding insert_intent
  insert_intent-Kept cfg new merchant input s =
      same_row s (insert_intent cfg new merchant input s)
        (λ h. first-append (has_id id) s.intents _ ∙ rw h.1 refl) refl

  insert_quote-Kept : (cfg : Config) (q : Quote) (s : World) → Kept s (insert_quote cfg q s)
  unfolding insert_quote
  insert_quote-Kept cfg q s = same_row s (insert_quote cfg q s) (λ h. refl) refl

  -- Nothing leads back to QUOTED from behind AUTHORIZED.
  quoted_from-waiting : (a : State) → can_transition a quoted ≡ true → is_waiting a ≡ true
  unfolding can_transition state_eq
  quoted_from-waiting a edge = ground (arith, edge)

  advance-Kept :
      (other : Text) (intent : Intent) (opts : Opts) (w : World)
      → find_intent other w ≡ some intent
      → can_transition intent.status quoted ≡ true
      → Kept w (advance other intent quoted opts w)
  advance-Kept other intent opts w found edge h =
      let calls =
        same_calls w (advance other intent quoted opts w) (advance-calls other intent quoted opts w)
          id in
      elim (Bool-cases (text_eq other id)) [
        | inl same ↦
            let k = text_eq_sound other id same in
            let found' : find_intent id w ≡ some intent =
              subst (λ (x : Text). find_intent x w ≡ some intent) k found in
            let here : IsKnown (advance other intent quoted opts w) = (
              moved quoted opts w.now intent,
              subst
                  (λ (x : Text).
                    find_intent x (advance other intent quoted opts w)
                    ≡ some (moved quoted opts w.now intent))
                  k
                  (find_intent-advance other quoted opts w intent
                    ∙ ap (Option.map (moved quoted opts w.now)) found),
            ) in
            let waits = quoted_from-waiting intent.status edge in
            (here, (λ past. absurd (ground (arith, waits, past intent found')), inl calls))
        | inr apart ↦
            same_row w (advance other intent quoted opts w)
              (λ _. find_intent-advance_other other quoted opts w intent id apart) calls h
      ]

  quoted-Kept : (other : Text) (opts : Opts) → Runs kept (transition_with other quoted opts)
  quoted-Kept other opts = record {
    at = λ w. elim (transition_with-cases other quoted opts w) [
      | inl same ↦ rw same (kept.rel_refl w)
      | inr (intent, found, edge, e) ↦ rw e (advance-Kept other intent opts w found edge)
    ];
  }

  pub kept_quote : AllowsQuote kept
  kept_quote = record {
    untouched = Untouched-Kept;
    intents = insert_intent-Kept;
    quotes = insert_quote-Kept;
    moves = quoted-Kept;
  }
