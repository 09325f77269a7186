-- ===== src/Api/Operator.antt =====
-- src/api/operator.ts: the signed routes of the operator.
use qrib.Engine.Common.{is_text, truthy}
use qrib.Engine.Providers.{Providers}
use qrib.Db.{
  Act, TaskStatus, World, OperatorResult, option_case, ◌>>=◌, Task, gets, pure, or_raise,
  plain_error,
}
use qrib.Engine.Config.{Config}
use qrib.Common.{
  ◌∷◌, ◌++◌, if◌then◌else◌, text_eq, is_decimal, not, codes, pos, decimal_from, or_else, none, some,
  Option, List, ℤ, Text, Bool, true, false, [],
}
use qrib.Api.Answers.{
  Answer, Body, fields_of, ok_json, refuse, tasks_reply, unknown_task, bad_status, reason_required,
  hash_required, bad_signature, task_reply, or_rethrow, bad_exit, bad_cost, resolve_reply,
  refund_reply, done_reply, plain_500,
}
use qrib.Engine.Operator.{complete_operator_task, find_task}
use qrib.Engine.Payment.{refund, resolve_review, ReviewExit, default_network_cost}
use qrib.Engine.Real.{is_hash}
use qrib.Engine.Tasks.{list_tasks}

-- A signed call: the method, the path as `new URL(c.req.url).pathname` reads it, the raw body and
-- the header `X-Operator-Signature`.
pub record SignedCall : Type 0 where
  pub method : Text
  pub path : Text
  pub raw : Text
  pub signature : Option Text

abbrev newline : Text
newline = 10 ∷ []

-- The raw body is empty for a GET.
abbrev pub signed_body : SignedCall → Text
signed_body c = if text_eq c.method (codes "GET") then [] else c.raw

module _ (hmac_sha256 : Text → Text → Text) where
  -- `signOperator`; the keyed hash is a library's.
  abbrev pub sign_operator : Text → Text → Text → Text → Text
  sign_operator secret method path raw =
      hmac_sha256 secret (method ++ (newline ++ (path ++ (newline ++ raw))))

  -- `authed`: the answer with which a call is refused. `secret()` throws where the environment has
  -- none, outside every handler.
  unfoldable pub authed : Option Text → SignedCall → Option Answer
  authed secret c =
      if not (truthy secret)
      then some plain_500
      else if text_eq (or_else c.signature [])
          (sign_operator (or_else secret []) c.method c.path (signed_body c))
      then none
      else some (refuse 401 bad_signature)

abbrev status_named : Text → Option TaskStatus
status_named s =
    if text_eq s (codes "PENDING")
    then some TaskStatus.pending
    else if text_eq s (codes "COMPLETED")
    then some TaskStatus.completed
    else if text_eq s (codes "FAILED")
    then some TaskStatus.failed
    else none

-- `listTasks` by the query's status: all where it names none, and no task where it is no status.
abbrev tasks_by : Option Text → World → List Task
tasks_by none w = w.tasks
tasks_by (some []) w = w.tasks
tasks_by (some s) w = listed (status_named s)
  where
    listed : Option TaskStatus → List Task
    listed none = []
    listed (some status) = list_tasks (some status) w

unfoldable pub tasks_handler : Option Text → Act Answer
tasks_handler status = do tasks ← gets (tasks_by status); pure (ok_json (tasks_reply tasks))

unfoldable pub task_handler : Text → Act Answer
task_handler id = do
  found ← gets (find_task id)
  option_case found (pure (refuse 404 unknown_task)) (λ task. pure (ok_json (task_reply task)))

-- The body of a report: its `status` and the rest.
pub record ReportFields : Type 0 where
  pub status : Option Text
  pub reference : Option Text
  pub fiat_amount_idr : Option Text
  pub rate_executed6 : Option Text
  pub proof : Option Text
  pub note : Option Text

abbrev pub report_of : Bool → ReportFields → OperatorResult
report_of is_completed f = record {
  is_completed = is_completed;
  reference = f.reference;
  fiat_amount_idr = f.fiat_amount_idr;
  rate_executed6 = f.rate_executed6;
  proof = f.proof;
  note = f.note;
}

-- The report, if there is a body with one of the two statuses.
abbrev pub read_report : Option ReportFields → Option OperatorResult
read_report none = none
read_report (some f) =
    if is_text (codes "COMPLETED") f.status
    then some (report_of true f)
    else if is_text (codes "FAILED") f.status
    then some (report_of false f)
    else none

abbrev pub exit_named : Option Text → Option ReviewExit
exit_named to =
    if is_text (codes "AUTHORIZED") to
    then some ReviewExit.retry
    else if is_text (codes "FAILED") to
    then some ReviewExit.give_up
    else if is_text (codes "REFUND_REQUIRED") to
    then some ReviewExit.refund_funds
    else none

pub record ResolveFields : Type 0 where
  pub to : Option Text
  pub reason : Option Text

pub record RefundFields : Type 0 where
  pub reference : Option Text
  pub network_cost : Option Text

abbrev pub reason_of : Option ResolveFields → Option Text
reason_of none = none
reason_of (some f) = f.reason

abbrev pub exit_of : Option ResolveFields → Option ReviewExit
exit_of none = none
exit_of (some f) = exit_named f.to

abbrev pub reference_in : Option RefundFields → Option Text
reference_in none = none
reference_in (some f) = f.reference

-- The hash of the refund's transaction.
abbrev pub refund_hash : Option Text → Option Text
refund_hash none = none
refund_hash (some t) = if is_hash t then some t else none

-- The cost: the default where none is given, `none` where it is no whole number.
abbrev pub cost_of : Option Text → Option ℤ
cost_of none = some default_network_cost
cost_of (some s) = if is_decimal s then some (pos (decimal_from 0 s)) else none

abbrev pub cost_in : Option RefundFields → Option Text
cost_in none = none
cost_in (some f) = f.network_cost

module _ (cfg : Config) (env_providers : Option Providers) where
  unfoldable pub complete_handler : Text → Body ReportFields → Act Answer
  complete_handler task_id body =
      option_case (read_report (fields_of body)) (pure (refuse 400 bad_status)) (λ report.
        or_rethrow (do
          p ← or_raise env_providers plain_error
          out ← complete_operator_task cfg p task_id report
          pure (ok_json (done_reply out.replayed out.intent.status out.intent.id))))

unfoldable pub resolve_handler : Text → Body ResolveFields → Act Answer
resolve_handler id body =
    if not (truthy (reason_of (fields_of body)))
    then pure (refuse 400 reason_required)
    else option_case (exit_of (fields_of body)) (pure (refuse 400 bad_exit)) (λ to. or_rethrow (do
      intent ← resolve_review id to (or_else (reason_of (fields_of body)) [])
      pure (ok_json (resolve_reply intent.status intent.id))))

unfoldable pub operator_refund_handler : Text → Body RefundFields → Act Answer
operator_refund_handler id body =
    option_case (refund_hash (reference_in (fields_of body))) (pure (refuse 400 hash_required))
      (λ reference.
        option_case (cost_of (cost_in (fields_of body))) (pure (refuse 400 bad_cost)) (λ cost.
          or_rethrow (do
            intent ← refund id cost
            pure (ok_json (refund_reply intent.status intent.id reference)))))
