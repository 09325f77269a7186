-- ===== src/Engine/Serve/Guards.antt =====
-- Each request of src/engine/service.ts keeps a payment that is past AUTHORIZED there, but for a human
-- who sends it back.
use qrib.Engine.Serve.Retries.{
  guarded, Guarded, guarded_other, guarded_move, guarded_execute, guarded_engine, guarded_providers,
}
use qrib.Engine.Changes.Calls.{
  Runs-authorize, Runs-resolve_review, Runs-cancel, Runs-refund, Runs-handle_webhook,
  Runs-complete_operator_task,
}
use qrib.Engine.Serve.{
  Request, resolve, after, serve_one, authorize_it, cancel_it, execute_it, refund_it, webhook,
  complete_task,
}
use qrib.Engine.Payment.{authorize, ReviewExit, resolve_review, retry, give_up, refund_funds}
use qrib.Engine.Providers.{Providers}
use qrib.Engine.Config.{Config}
use qrib.Engine.Common.{known_intent}
use qrib.Engine.Serve.Broadcasts.{quiet, transition_with-quiet}
use qrib.Store.{find_intent}
use qrib.Engine.Serve.Spent.{IsSpent}
use qrib.States.{authorized, state_eq, expired, refund_required, failed, refunded}
use qrib.Engine.Changes.Writes.{Respects, outside}
use qrib.Db.{World, Runs, ◌>>◌, Actor}
use qrib.Common.{
  Text, inl, inr, ◌≡◌, false, refl, text_eq, arith, Bool-cases, text_eq_sound, Bool, Option-cases,
}

module _ (id : Text) where
  authorize_spent : (actor : Actor) (w : World) → IsSpent id w → after (authorize id actor) w ≡ w
  unfolding authorize known_intent ◌>>◌ state_eq
  authorize_spent actor w h = elim (Option-cases (find_intent id w)) [
    | inl missing ↦ ground arith
    | inr (intent, found) ↦ let past = h intent found in ground arith
  ]

  guarded_authorize : (other : Text) (actor : Actor) → Runs (guarded id) (authorize other actor)
  guarded_authorize other actor = elim (Bool-cases (text_eq other id)) [
    | inl same ↦
        let q : Runs quiet (authorize id actor) =
          Runs-authorize id (λ opts. transition_with-quiet id expired opts)
            (λ opts. transition_with-quiet id authorized opts) actor in
        rw (text_eq_sound other id same)
          (record { at = λ w. (λ h. rw (authorize_spent actor w h) h, inl (q.at w id)) })
    | inr apart ↦
        Runs-authorize other (λ opts. guarded_other id other expired opts apart)
          (λ opts. guarded_other id other authorized opts apart) actor
  ]

  -- A human sends this payment back to AUTHORIZED.
  abbrev pub is_retry : Request → Bool
  is_retry (resolve other retry reason) = text_eq other id
  is_retry _ = false

  guarded_resolve :
      (other : Text) (to : ReviewExit) (reason : Text)
      → is_retry (resolve other to reason) ≡ false
      → Runs (guarded id) (resolve_review other to reason)
  guarded_resolve other retry reason e =
      Runs-resolve_review other retry (λ opts. guarded_other id other authorized opts e) reason
  guarded_resolve other give_up reason e =
      Runs-resolve_review other give_up (λ opts. guarded_move id other failed opts refl) reason
  guarded_resolve other refund_funds reason e =
      Runs-resolve_review other refund_funds
        (λ opts. guarded_move id other refund_required opts refl) reason

  module _ (cfg : Config) (p : Providers) (r : Respects outside p) where
    pub Guarded-one :
        (req : Request) (w : World) → is_retry req ≡ false → Guarded id w (serve_one cfg p req w)
    unfolding serve_one
    Guarded-one (authorize_it other actor) w e = (guarded_authorize other actor).at w
    Guarded-one (cancel_it other reason) w e =
        (Runs-cancel other (λ opts. guarded_move id other failed opts refl) reason).at w
    Guarded-one (execute_it other) w e = (guarded_execute id cfg p r other).at w
    Guarded-one (refund_it other cost) w e =
        (Runs-refund other (guarded_engine id) (λ opts. guarded_move id other refunded opts refl)
            cost).at
          w
    Guarded-one (webhook provider event) w e =
        (Runs-handle_webhook (guarded_engine id) provider event).at w
    Guarded-one (complete_task task_id result) w e =
        (Runs-complete_operator_task (guarded_engine id) cfg p (guarded_providers id cfg p r)
            task_id result).at
          w
    Guarded-one (resolve other to reason) w e = (guarded_resolve other to reason e).at w
