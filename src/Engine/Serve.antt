-- ===== src/Engine/Serve.antt =====
-- The requests that the routes of src/api and the jobs hand to src/engine/service.ts, one after the
-- other. A request that throws leaves what it wrote; the next one goes on from there.
pub mod Keeps
pub mod Books
pub mod Reach
pub mod Trail
pub mod Broadcasts
pub mod Spent
pub mod Retries
pub mod Guards
pub mod Once
use mathlib.Core.List.{[]}
use qrib.Engine.Operator.{complete_operator_task}
use qrib.Engine.Execute.{execute}
use qrib.Engine.Webhook.{Event, handle_webhook}
use qrib.Engine.Payment.{authorize, cancel, refund, ReviewExit, resolve_review}
use qrib.Engine.Providers.{Providers}
use qrib.Engine.Config.{Config}
use qrib.Db.{Act, Actor, World, OperatorResult}
use qrib.Common.{Text, Option, List, ℤ, ◌∷◌}

-- A request to a payment that there is. `createQuote`, which stores a new one, is none of them: it
-- comes in with the calls of Api.Server.
pub data Request : Type 0 where
  authorize_it : Text → Actor → Request
  cancel_it : Text → Option Text → Request
  execute_it : Text → Request
  refund_it : Text → ℤ → Request
  webhook : Text → Event → Request
  complete_task : Text → OperatorResult → Request
  resolve : Text → ReviewExit → Text → Request

module _ {ℓ} {A : Type ℓ} where
  -- The state after an action, whether it returned or threw.
  abbrev pub after : Act A → World → World
  after m w = (m w).1

module _ (cfg : Config) (p : Providers) where
  unfoldable pub serve_one : Request → World → World
  serve_one (authorize_it id actor) = after (authorize id actor)
  serve_one (cancel_it id reason) = after (cancel id reason)
  serve_one (execute_it id) = after (execute cfg p id)
  serve_one (refund_it id cost) = after (refund id cost)
  serve_one (webhook provider event) = after (handle_webhook provider event)
  serve_one (complete_task task_id result) = after (complete_operator_task cfg p task_id result)
  serve_one (resolve id to reason) = after (resolve_review id to reason)

  unfoldable pub serve : List Request → World → World
  serve [] w = w
  serve (r ∷ rest) w = serve rest (serve_one r w)
