-- ===== src/Api/Changes/Handlers.antt =====
-- A relation that the writes of the engine respect holds between the states before and after every
-- handler of src/api.
use qrib.States.{refunded, expired, failed, authorized}
use qrib.Engine.Payment.{exit_state}
use qrib.Engine.Changes.Steps.{Runs-execute}
use qrib.Engine.Execute.{execute}
use qrib.Engine.Quote.{QuoteInput, create_quote}
use qrib.Store.{list_intents}
use qrib.Api.Operator.{
  complete_handler, resolve_handler, operator_refund_handler, tasks_handler, ReportFields,
  ResolveFields, RefundFields, task_handler,
}
use qrib.Api.Callbacks.{webhook_handler, EventFields, qris_handler}
use qrib.Engine.Faulty.{faulty_poll}
use qrib.Engine.Providers.{Providers}
use qrib.Engine.Common.{truthy, is_text}
use qrib.Engine.Changes.Writes.{Runs-known_intent, Runs-latest_attempts, Respects}
use qrib.Db.{
  Change, Fault, Act, Runs, World, Runs-catch, Runs-bind, Intent, Result, Runs-pure, payment_error,
  Runs-raise, Runs-gets, ok, err, ◌>>=◌, or_raise, Runs-or_raise, Runs-option_case, plain_error,
  pure, Runs-if, api,
}
use qrib.Common.{
  Bool-cases, inr, inl, Option-cases, first, or_else, ◌≡◌, subst, sym, codes, if◌then◌else◌, refl,
  arith, none, some, Option, Text, Bool, true, false, [],
}
use qrib.Api.Answers.{Answer, or_err_json, or_rethrow, answered, payment_errors_only, final, Body}
use qrib.Api.Idempotency.{idempotency, Endpoint, Site, has_key}
use qrib.Api.Server.{on_world, keyed, Server}
use qrib.Api.Payments.{
  shaped, shape, show_handler, execute_handler, cancel_handler, quote_handler, refund_handler,
  authorize_handler, list_handler, QuoteFields, quote_input, faulty_settlement,
}
use qrib.Engine.Serve.Keeps.{AllowsAll}
use qrib.Engine.Changes.Calls.{
  Runs-authorize, Runs-refund, Runs-cancel, Runs-handle_webhook, Runs-complete_operator_task,
  Runs-resolve_review,
}

pub final_state : (p : Result Answer × World) → (final p).1 ≡ p.1
final_state (ok a, w) = refl
final_state (err e, w) = refl

module _ {c : Change} where
  pub payment_errors-rel : (e : Fault) → Runs c (payment_errors_only e)
  payment_errors-rel (payment_error status) = Runs-pure _
  payment_errors-rel _ = Runs-raise _

  Runs-or_err_json : (m : Act Answer) → Runs c m → Runs c (or_err_json m)
  unfolding or_err_json
  Runs-or_err_json m k = Runs-catch _ _ _ k (λ a. Runs-pure a) (λ e. Runs-pure _)

  Runs-or_rethrow : (m : Act Answer) → Runs c m → Runs c (or_rethrow m)
  unfolding or_rethrow
  Runs-or_rethrow m k = Runs-catch _ _ _ k (λ a. Runs-pure a) (λ e. payment_errors-rel e)

  pub Runs-shape : (id : Text) → Runs c (shape id)
  unfolding shape
  Runs-shape id = Runs-bind _ _ (Runs-known_intent id) λ intent.
      Runs-bind _ _ (Runs-gets _)
        λ quotes. Runs-bind _ _ (Runs-latest_attempts id) λ attempts. Runs-pure _

  Runs-shaped : (m : Act Intent) → Runs c m → Runs c (shaped m)
  Runs-shaped m k = Runs-bind _ _ k λ intent. Runs-shape intent.id

  pub answered-rel : (m : Act Answer) → Runs c m → (s : World) → c.rel s (answered m s).1
  answered-rel m k s = subst (c.rel s) (sym (final_state (m s))) (k.at s)

  pub keyed-rel :
      (e : Endpoint) (m : Act Answer) → Runs c m → (s : Site) → c.rel s.world (keyed e m s).1.world
  unfolding idempotency
  keyed-rel e m k s = elim (Bool-cases (truthy e.key)) [
    | inr none_given ↦ rw none_given (c.rel_refl s.world)
    | inl given ↦ elim (Option-cases (first (has_key (or_else e.key [])) s.keys)) [
      | inl new ↦ rw (given, new) (answered-rel m k s.world)
      | inr (row, known) ↦ rw (given, known) (c.rel_refl s.world)
    ]
  ]

  pub world-rel : (m : Act Answer) → Runs c m → (s : Site) → c.rel s.world (on_world m s).1.world
  world-rel m k s = answered-rel m k s.world

-- What the handlers need of a relation on states.
pub record AllowsServer (c : Change) (server : Server) : Type 0 where
  pub engine : AllowsAll c
  pub quotes :
      (p : Providers) (input : QuoteInput)
      → server.env_providers ≡ some p
      → Runs c (create_quote server.cfg p.off_ramp input)
  pub given : (p : Providers) → server.env_providers ≡ some p → Respects c p

Runs-provided :
    {c : Change} {A : Type 0} {B : Type 0} (o : Option A) (x : Fault) (f : A → Act B)
    → ((v : A) → o ≡ some v → Runs c (f v))
    → Runs c (or_raise o x >>= f)
unfolding ◌>>=◌
Runs-provided {c = c} none x f k = record { at = λ s. c.rel_refl s }
Runs-provided (some v) x f k = record { at = λ s. (k v refl).at s }

module _ {c : Change} where
  -- The providers that fail a settlement write nothing.
  pub faulty-Respects :
      (server : Server)
      → Respects c (faulty_settlement server.cfg server.sha256_hex server.env_providers)
  unfolding faulty_poll
  faulty-Respects server = record {
    execute = λ id usdc fiat. Runs-pure _;
    create_payment = λ id fiat. Runs-pure _;
    get_payment = λ ref. Runs-pure _;
    submit_payment = λ id usdc. Runs-pure _;
    confirmations = λ hash. Runs-pure _;
  }

module _ {c : Change} (server : Server) (a : AllowsServer c server) where
  pub quote-rel :
      (body : Body QuoteFields)
      → Runs c (quote_handler server.cfg server.sha256_hex server.env_providers body)
  unfolding quote_handler
  quote-rel body = Runs-bind _ _ (Runs-or_raise _ _) λ f.
      Runs-option_case _ _ _ (Runs-pure _) λ fiat.
        Runs-catch _ _ _
          (Runs-provided server.env_providers plain_error _
            λ p given. a.quotes p (quote_input fiat f) given)
          (λ q. Runs-pure _) (λ e. Runs-pure _)

  pub authorize-rel : (id : Text) → Runs c (authorize_handler id)
  unfolding authorize_handler
  authorize-rel id = Runs-or_err_json _ (
      Runs-shaped _
        (Runs-authorize id (a.engine.moves id expired) (a.engine.moves id authorized) api))

  run_with : (id : Text) (p : Providers) → Respects c p → Runs c (shaped (execute server.cfg p id))
  run_with id p r =
      Runs-shaped _ (Runs-execute a.engine.engine server.cfg p r id (a.engine.logs_broadcast id))

  pub chosen-rel :
      (b : Bool) (id : Text)
      → Runs c (
          (if b
            then pure (faulty_settlement server.cfg server.sha256_hex server.env_providers)
            else or_raise server.env_providers plain_error)
          >>= λ p. shaped (execute server.cfg p id))
  unfolding pure or_raise
  chosen-rel true id =
      Runs-provided (some (faulty_settlement server.cfg server.sha256_hex server.env_providers))
        plain_error _
        λ p given.
          run_with id p (subst (Respects c) (ground (arith, given)) (faulty-Respects server))
  chosen-rel false id =
      Runs-provided server.env_providers plain_error _ λ p given. run_with id p (a.given p given)

  pub execute-rel :
      (id : Text) (body : Body (Option Text))
      → Runs c (execute_handler server.cfg server.sha256_hex server.env_providers id body)
  unfolding execute_handler
  execute-rel id body = Runs-or_err_json _ (
      Runs-bind _ _ (Runs-or_raise _ _)
        λ provider. chosen-rel (is_text (codes "faulty-settle-fail") provider) id)

  pub cancel-rel : (id : Text) (body : Body (Option Text)) → Runs c (cancel_handler id body)
  unfolding cancel_handler
  cancel-rel id body = Runs-or_err_json _ (
      Runs-bind _ _ (Runs-or_raise _ _)
        λ reason. Runs-shaped _ (Runs-cancel id (a.engine.moves id failed) reason))

  pub refund-rel : (id : Text) → Runs c (refund_handler id)
  unfolding refund_handler
  refund-rel id =
      Runs-or_err_json _
        (Runs-shaped _ (Runs-refund id a.engine.engine (a.engine.moves id refunded) _))

  pub webhook-rel :
      (provider : Text) (body : Body EventFields) → Runs c (webhook_handler provider body)
  unfolding webhook_handler
  webhook-rel provider body = Runs-bind _ _ (Runs-or_raise _ _) λ f.
      Runs-option_case _ _ _ (Runs-pure _) λ event.
        Runs-bind _ _ (Runs-handle_webhook a.engine.engine provider event) λ out. Runs-pure _

  pub complete-rel :
      (id : Text) (body : Body ReportFields)
      → Runs c (complete_handler server.cfg server.env_providers id body)
  unfolding complete_handler
  complete-rel id body = Runs-option_case _ _ _ (Runs-pure _) λ report. Runs-or_rethrow _ (
      Runs-provided server.env_providers plain_error _ λ p given.
        Runs-bind _ _
          (Runs-complete_operator_task a.engine.engine server.cfg p (a.given p given) id report)
          λ out. Runs-pure _)

  pub resolve-rel : (id : Text) (body : Body ResolveFields) → Runs c (resolve_handler id body)
  unfolding resolve_handler
  resolve-rel id body = Runs-if _ _ _ (Runs-pure _) (
      Runs-option_case _ _ _ (Runs-pure _) λ to. Runs-or_rethrow _ (
        Runs-bind _ _ (Runs-resolve_review id to (a.engine.moves id (exit_state to)) _)
          λ intent. Runs-pure _))

  pub operator_refund-rel :
      (id : Text) (body : Body RefundFields) → Runs c (operator_refund_handler id body)
  unfolding operator_refund_handler
  operator_refund-rel id body = Runs-option_case _ _ _ (Runs-pure _) λ reference.
      Runs-option_case _ _ _ (Runs-pure _) λ cost. Runs-or_rethrow _ (
        Runs-bind _ _ (Runs-refund id a.engine.engine (a.engine.moves id refunded) cost)
          λ intent. Runs-pure _)

-- What only reads.
module _ {c : Change} where
  pub tasks-rel : (status : Option Text) → Runs c (tasks_handler status)
  unfolding tasks_handler
  tasks-rel status = Runs-bind _ _ (Runs-gets _) λ tasks. Runs-pure _

  pub task-rel : (id : Text) → Runs c (task_handler id)
  unfolding task_handler
  task-rel id =
      Runs-bind _ _ (Runs-gets _) λ found. Runs-option_case _ _ _ (Runs-pure _) λ task. Runs-pure _

  pub show-rel : (id : Text) → Runs c (show_handler id)
  unfolding show_handler
  show-rel id = Runs-or_err_json _ (Runs-shape id)

  pub list-rel : Runs c list_handler
  unfolding list_handler list_intents
  list-rel = Runs-bind _ _ (Runs-gets _) λ intents. Runs-pure _

  pub qris-rel : (body : Body (Option Text)) → Runs c (qris_handler body)
  unfolding qris_handler
  qris-rel body = Runs-bind _ _ (Runs-or_raise _ _) λ payload. Runs-pure _
