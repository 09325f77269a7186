-- ===== src/Engine/Webhook/Redelivery.antt =====
-- A callback of src/engine/service.ts that is delivered twice.
use qrib.Engine.Changes.Writes.{Runs-known_intent, Runs-get_intent, Runs-latest_quote}
use qrib.Store.Transition.{transition_with-cases}
use qrib.Ledger.Balance.{post_entries-cases}
use qrib.Engine.Settlement.{close_legs, complete_settlement}
use qrib.Store.{advance, Opts, transition_with}
use qrib.Ledger.{insert_rows, Entry, post_entries}
use qrib.Engine.Webhook.{
  is_event, mark_processed, finish_event, settle_by_event, on_event, record_event, handle_webhook,
  WebhookStatus, Event, processed_event, noop,
}
use qrib.Db.{
  ok, Change, WebhookEvent, World, Intent, Runs, ◌>>◌, modify, Runs-bind, Runs-then, Settlement,
  Runs-option_case, Runs-modify, Runs-gets, Result, Runs-if, Runs-pure, ⊤, Runs-transaction,
}
use qrib.States.{completed, State, state_eq}
use qrib.Common.{
  ◌++◌, ◌∷◌, ◌≡◌, ap, update_where, ◌∙◌, refl, Bool-cases, arith, inl, text_eq_refl, inr, any, List,
  ℤ, Text, Bool, true, false, [],
}

module _ (provider event_id : Text) where
  abbrev is_known : World → Bool
  is_known w = any (is_event provider event_id) w.webhook_events

  -- A known event stays known.
  abbrev remembers : Change
  remembers = record {
    rel = λ s t. is_known s ≡ true → is_known t ≡ true;
    rel_refl = λ s h. h;
    rel_trans = λ s t u f g h. g (f h);
  }

  same_events : (s t : World) → t.webhook_events ≡ s.webhook_events → remembers.rel s t
  same_events s t e h = ap (any (is_event provider event_id)) e ∙ h

  any-update_where :
      (other : WebhookEvent → Bool) (xs : List WebhookEvent)
      → any (is_event provider event_id) (update_where other processed_event xs)
        ≡ any (is_event provider event_id) xs
  any-update_where other [] = refl
  any-update_where other (x ∷ xs) = ground (arith, any-update_where other xs)

  mark_processed-known : (p e : Text) (s : World) → remembers.rel s (mark_processed p e s)
  unfolding mark_processed
  mark_processed-known p e s h = any-update_where (is_event p e) s.webhook_events ∙ h

  insert_rows-events :
      (id : Text) (entries : List Entry) (w : World)
      → (insert_rows id entries w).webhook_events ≡ w.webhook_events
  unfolding insert_rows
  insert_rows-events id entries w = refl

  advance-events :
      (id : Text) (i : Intent) (to : State) (opts : Opts) (w : World)
      → (advance id i to opts w).webhook_events ≡ w.webhook_events
  unfolding advance
  advance-events id i to opts w = refl

  post_entries-known : (id : Text) (entries : List Entry) → Runs remembers (post_entries id entries)
  post_entries-known id entries = record {
    at = λ s. elim (post_entries-cases id entries s) [
      | inl (balanced, e) ↦
          same_events s (post_entries id entries s).1
            (ap (λ (o : Result ⊤ × World). o.1.webhook_events) e ∙ insert_rows-events id entries s)
      | inr same ↦
          same_events s (post_entries id entries s).1 (ap (λ (t : World). t.webhook_events) same)
    ];
  }

  transition_with-known :
      (id : Text) (to : State) (opts : Opts) → Runs remembers (transition_with id to opts)
  transition_with-known id to opts = record {
    at = λ s. elim (transition_with-cases id to opts s) [
      | inl same ↦
          same_events s (transition_with id to opts s).1 (ap (λ (t : World). t.webhook_events) same)
      | inr (intent, found, edge, e) ↦
          same_events s (transition_with id to opts s).1
            (ap (λ (t : World). t.webhook_events) e ∙ advance-events id intent to opts s)
    ];
  }

  close_legs-known : (ref : Text) → Runs remembers (modify (close_legs ref))
  unfolding close_legs
  close_legs-known ref = Runs-modify _ (λ s h. h)

  complete_settlement-known :
      (id ref : Text) (fiat delivered : ℤ)
      → Runs remembers (complete_settlement id ref fiat delivered)
  unfolding complete_settlement
  complete_settlement-known id ref fiat delivered = Runs-bind _ _ (Runs-known_intent id) λ cur.
      Runs-if (state_eq cur.status completed) _ _ (Runs-pure cur) (
        Runs-bind _ _ (Runs-latest_quote id) λ q. Runs-transaction _ (
          Runs-then _ _ (close_legs-known ref)
            (Runs-then _ _ (post_entries-known id _) (transition_with-known id completed _))))

  finish_event-known :
      (p e : Text) (status : WebhookStatus) → Runs remembers (finish_event p e status)
  unfolding finish_event
  finish_event-known p e status =
      Runs-then _ _ (Runs-modify _ (mark_processed-known p e)) (Runs-pure _)

  settle_by_event-known :
      (p : Text) (event : Event) (ref : Text) (leg : Settlement)
      → Runs remembers (settle_by_event p event ref leg)
  unfolding settle_by_event
  settle_by_event-known p event ref leg = Runs-bind _ _ (Runs-get_intent _) λ intent.
      Runs-bind _ _ (Runs-gets _) λ legs.
        Runs-option_case _ _ _ (finish_event-known p event.event_id _) λ conv.
          Runs-then _ _ (complete_settlement-known leg.payment_id ref _ _)
            (finish_event-known p event.event_id _)

  pub on_event-known : (p : Text) (event : Event) → Runs remembers (on_event p event)
  unfolding on_event
  on_event-known p event = Runs-option_case _ _ _ (finish_event-known p event.event_id _) λ ref.
      Runs-bind _ _ (Runs-gets _) λ leg.
        Runs-option_case _ _ _ (finish_event-known p event.event_id _)
          (settle_by_event-known p event ref)

  record_event-known : (s : World) → is_known (record_event provider event_id s) ≡ true
  unfolding record_event
  record_event-known s = any-last s.webhook_events
    where
      any-last :
          (xs : List WebhookEvent)
          → any
              (is_event provider event_id)
              (xs ++ record { provider = provider; event_id = event_id; processed = false } ∷ [])
            ≡ true
      any-last [] = ground (arith, text_eq_refl provider, text_eq_refl event_id)
      any-last (x ∷ xs) = ground (arith, any-last xs)

handle_webhook-known :
    (provider : Text) (event : Event) (w : World)
    → is_known provider event.event_id (handle_webhook provider event w).1 ≡ true
unfolding handle_webhook ◌>>◌
handle_webhook-known provider event w = elim (Bool-cases (is_known provider event.event_id w)) [
  | inl known ↦ rw known known
  | inr new ↦ rw new (
      (on_event-known provider event.event_id provider event).at
        (record_event provider event.event_id w) (record_event-known provider event.event_id w))
]

-- An event that is delivered again is answered as a duplicate, and changes nothing: also where its
-- first delivery has thrown.
pub handle_webhook-redelivered :
    (provider : Text) (event : Event) (w : World)
    → let once = (handle_webhook provider event w).1 in
      handle_webhook provider event once ≡ (ok (record { deduped = true; status = noop }), once)
unfolding handle_webhook ◌>>◌
handle_webhook-redelivered provider event w = rw (handle_webhook-known provider event w) refl
