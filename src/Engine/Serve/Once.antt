-- ===== src/Engine/Serve/Once.antt =====
-- Any sequence of requests of src/engine/service.ts, and the broadcasts it makes of one payment.
use qrib.Engine.Serve.Guards.{is_retry, Guarded-one}
use qrib.Engine.Serve.Retries.{other_broadcast-quiet}
use qrib.Engine.Changes.Calls.{
  Runs-authorize, Runs-resolve_review, Runs-cancel, Runs-refund, Runs-handle_webhook,
  Runs-complete_operator_task,
}
use qrib.Engine.Serve.{
  Request, resolve, after, serve_one, authorize_it, cancel_it, execute_it, refund_it, webhook,
  complete_task, serve,
}
use qrib.Engine.Payment.{exit_state}
use qrib.Engine.Changes.Steps.{Runs-execute_from, Runs-execute}
use qrib.Engine.Execute.{execute_from, execute}
use qrib.Engine.Providers.{Providers}
use qrib.Engine.Config.{Config}
use qrib.Engine.Common.{log_call, known_intent}
use qrib.Engine.Serve.Broadcasts.{
  broadcasts, quiet, quiet_engine, transition_with-quiet, quiet_providers, Adds-execute,
}
use qrib.Store.{find_intent}
use qrib.Engine.Serve.Spent.{IsSpent, is_waiting}
use qrib.States.{authorized, expired, failed, refunded}
use qrib.Engine.Changes.Writes.{Allows, Respects, outside, Respects-outside}
use qrib.Db.{
  World, Change, Act, Runs, Result, ◌>>=◌, Intent, broadcast, err, Runs-modify, payment_error,
}
use qrib.Common.{
  Text, inl, inr, ◌∙◌, ◌≡◌, ◌⊎◌, false, refl, ap, ℤ, List, text_eq, ◌∷◌, [], arith, Bool-cases,
  text_eq_sound, Option-cases, ◌≤◌, ◌+◌, ◌≢◌, none, some, any, ℕ, neither,
}

module _ (id : Text) (cfg : Config) (p : Providers) (r : Respects outside p) where
  execute_from_spent :
      (i : Intent) (w : World)
      → is_waiting i.status ≡ false
      → broadcasts id (after (execute_from cfg p i.status id i) w).calls ≡ broadcasts id w.calls
  execute_from_spent i w past =
      let ne : i.status ≢ authorized = λ e. ground (arith, e, past) in
      (Runs-execute_from quiet_engine cfg p (quiet_providers cfg p r) i.status id i ne).at w id

  execute_missing :
      (w : World) → find_intent id w ≡ none → execute cfg p id w ≡ (err (payment_error 404), w)
  unfolding execute known_intent ◌>>=◌
  execute_missing w missing = ground arith

  execute_found :
      (w : World) (i : Intent)
      → find_intent id w ≡ some i
      → execute cfg p id w ≡ execute_from cfg p i.status id i w
  unfolding execute known_intent ◌>>=◌
  execute_found w i found = ground arith

  abbrev calls_after : Result Intent × World → ℕ
  calls_after out = broadcasts id out.1.calls

  execute_own_spent :
      (w : World)
      → IsSpent id w
      → broadcasts id (after (execute cfg p id) w).calls ≡ broadcasts id w.calls
  execute_own_spent w h = elim (Option-cases (find_intent id w)) [
    | inl missing ↦ ap calls_after (execute_missing w missing)
    | inr (i, found) ↦ ap calls_after (execute_found w i found) ∙ execute_from_spent i w (h i found)
  ]

  -- The broadcasts of this payment alone.
  abbrev still : Change
  still = record {
    rel = λ s t. broadcasts id t.calls ≡ broadcasts id s.calls;
    rel_refl = λ s. refl;
    rel_trans = λ s t u f g. g ∙ f;
  }

  Runs-still {ℓ} : {A : Type ℓ} (m : Act A) → Runs quiet m → Runs still m
  Runs-still m q = record { at = λ s. q.at s id }

  still_engine : Allows still
  still_engine = record {
    untouched = λ s t u. quiet_engine.untouched s t u id;
    moves = λ other to opts e. Runs-still _ (quiet_engine.moves other to opts e);
    posts = λ other es. Runs-still _ (quiet_engine.posts other es);
    hashes = λ other hash s. quiet_engine.hashes other hash s id;
    logs_convert = λ other. Runs-still _ (quiet_engine.logs_convert other);
    logs_open = λ other. Runs-still _ (quiet_engine.logs_open other);
  }

  other_broadcast-still :
      (other : Text) (usdc : ℤ)
      → text_eq other id ≡ false
      → Runs still (log_call (broadcast other usdc))
  unfolding log_call
  other_broadcast-still other usdc apart =
      Runs-modify _ (λ s. other_broadcast-quiet id other usdc s.calls apart)

  execute_spent :
      (other : Text) (w : World)
      → IsSpent id w
      → broadcasts id (after (execute cfg p other) w).calls ≡ broadcasts id w.calls
  execute_spent other w h = elim (Bool-cases (text_eq other id)) [
    | inl same ↦ rw (text_eq_sound other id same) (execute_own_spent w h)
    | inr apart ↦
        (Runs-execute still_engine cfg p (Respects-outside still_engine p r) other
            (λ usdc. other_broadcast-still other usdc apart)).at
          w
  ]

  -- Only `execute` makes a broadcast.
  quiet_or_execute :
      (req : Request) (w : World)
      → (broadcasts id (serve_one cfg p req w).calls ≡ broadcasts id w.calls)
        ⊎ ((other : Text) × (req ≡ execute_it other))
  unfolding serve_one
  quiet_or_execute (authorize_it other actor) w = inl (
      (Runs-authorize other (transition_with-quiet other expired)
          (transition_with-quiet other authorized) actor).at
        w id)
  quiet_or_execute (cancel_it other reason) w =
      inl ((Runs-cancel other (transition_with-quiet other failed) reason).at w id)
  quiet_or_execute (execute_it other) w = inr (other, refl)
  quiet_or_execute (refund_it other cost) w =
      inl ((Runs-refund other quiet_engine (transition_with-quiet other refunded) cost).at w id)
  quiet_or_execute (webhook provider event) w =
      inl ((Runs-handle_webhook quiet_engine provider event).at w id)
  quiet_or_execute (complete_task task_id result) w = inl (
      (Runs-complete_operator_task quiet_engine cfg p (quiet_providers cfg p r) task_id result).at w
        id)
  quiet_or_execute (resolve other to reason) w =
      inl (
        (Runs-resolve_review other to (transition_with-quiet other (exit_state to)) reason).at w id)

  execute_one-le :
      (other : Text) (w : World)
      → broadcasts id (serve_one cfg p (execute_it other) w).calls ≤ broadcasts id w.calls + 1
  unfolding serve_one
  execute_one-le other w = (Adds-execute cfg p r other).at w id

  execute_one_spent :
      (other : Text) (w : World)
      → IsSpent id w
      → broadcasts id (serve_one cfg p (execute_it other) w).calls ≡ broadcasts id w.calls
  unfolding serve_one
  execute_one_spent other w h = execute_spent other w h

  pub one_more :
      (req : Request) (w : World)
      → broadcasts id (serve_one cfg p req w).calls ≤ broadcasts id w.calls + 1
  one_more req w = elim (quiet_or_execute req w) [
    | inl same ↦ omega (arith, same)
    | inr (other, e) ↦ rw e (execute_one-le other w)
  ]

  pub one_spent :
      (req : Request) (w : World)
      → IsSpent id w
      → broadcasts id (serve_one cfg p req w).calls ≡ broadcasts id w.calls
  one_spent req w h = elim (quiet_or_execute req w) [
    | inl same ↦ same
    | inr (other, e) ↦ rw e (execute_one_spent other w h)
  ]

  serve_spent :
      (reqs : List Request) (w : World)
      → any (is_retry id) reqs ≡ false
      → IsSpent id w
      → broadcasts id (serve cfg p reqs w).calls ≡ broadcasts id w.calls
  unfolding serve
  serve_spent [] w e h = refl
  serve_spent (req ∷ rest) w e h =
      let (now, later) = neither (is_retry id req) (any (is_retry id) rest) e in
      serve_spent rest (serve_one cfg p req w) later ((Guarded-one id cfg p r req w now).0 h)
      ∙ one_spent req w h

  -- Whatever requests come, in whatever order, and however the providers answer or fail: unless a
  -- human sends the payment back to AUTHORIZED, at most one funding transaction of it is broadcast
  -- by them all. Requests on other payments are not restricted. What is assumed of the
  -- providers is that a call of theirs does not write to the payments, the audit trail, the
  -- quotes, the ledger or the log of calls.
  pub serve_once :
      (reqs : List Request) (w : World)
      → any (is_retry id) reqs ≡ false
      → broadcasts id (serve cfg p reqs w).calls ≤ broadcasts id w.calls + 1
  unfolding serve
  serve_once [] w e = omega arith
  serve_once (req ∷ rest) w e =
      let (now, later) = neither (is_retry id req) (any (is_retry id) rest) e in
      elim ((Guarded-one id cfg p r req w now).1) [
        | inl same ↦ omega (arith, same, serve_once rest (serve_one cfg p req w) later)
        | inr past ↦
            omega (arith, one_more req w, serve_spent rest (serve_one cfg p req w) later past)
      ]
