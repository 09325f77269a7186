-- ===== src/Engine/Serve/Keeps.antt =====
-- A relation that the engine's writes respect holds between the states before and after any
-- sequence of requests.
use qrib.Engine.Payment.{exit_state}
use qrib.Engine.Changes.Steps.{Runs-execute}
use qrib.Engine.Changes.Calls.{
  Runs-authorize, Runs-cancel, Runs-refund, Runs-handle_webhook, Runs-complete_operator_task,
  Runs-resolve_review,
}
use mathlib.Core.List.{[]}
use qrib.Engine.Common.{log_call}
use qrib.Engine.Serve.{
  serve, Request, serve_one, authorize_it, cancel_it, execute_it, refund_it, webhook, complete_task,
  resolve,
}
use qrib.Store.{Opts, transition_with}
use qrib.States.{State, expired, authorized, refunded, failed}
use qrib.Engine.Providers.{Providers}
use qrib.Common.{Text, List, ℤ, ◌∷◌}
use qrib.Engine.Config.{Config}
use qrib.Engine.Changes.Writes.{Allows, Respects}
use qrib.Db.{Change, Runs, World, broadcast}

-- The writes of every request: those of `Allows`, a transition to any state, and a broadcast.
pub record AllowsAll (c : Change) : Type 0 where
  pub engine : Allows c
  pub moves : (id : Text) (to : State) (opts : Opts) → Runs c (transition_with id to opts)
  pub logs_broadcast : (id : Text) (usdc : ℤ) → Runs c (log_call (broadcast id usdc))

module _ {c : Change} (a : AllowsAll c) (cfg : Config) (p : Providers) (r : Respects c p) where
  serve_one-rel : (req : Request) (w : World) → c.rel w (serve_one cfg p req w)
  unfolding serve_one
  serve_one-rel (authorize_it id actor) w =
      (Runs-authorize id (a.moves id expired) (a.moves id authorized) actor).at w
  serve_one-rel (cancel_it id reason) w = (Runs-cancel id (a.moves id failed) reason).at w
  serve_one-rel (execute_it id) w = (Runs-execute a.engine cfg p r id (a.logs_broadcast id)).at w
  serve_one-rel (refund_it id cost) w = (Runs-refund id a.engine (a.moves id refunded) cost).at w
  serve_one-rel (webhook provider event) w = (Runs-handle_webhook a.engine provider event).at w
  serve_one-rel (complete_task task_id result) w =
      (Runs-complete_operator_task a.engine cfg p r task_id result).at w
  serve_one-rel (resolve id to reason) w =
      (Runs-resolve_review id to (a.moves id (exit_state to)) reason).at w

  pub serve-rel : (reqs : List Request) (w : World) → c.rel w (serve cfg p reqs w)
  unfolding serve
  serve-rel [] w = c.rel_refl w
  serve-rel (req ∷ rest) w =
      c.rel_trans w (serve_one cfg p req w) (serve cfg p rest (serve_one cfg p req w))
        (serve_one-rel req w) (serve-rel rest (serve_one cfg p req w))
