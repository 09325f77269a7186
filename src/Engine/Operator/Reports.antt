-- ===== src/Engine/Operator/Reports.antt =====
-- What `completeOperatorTask` of src/engine/service.ts reads of a task and of a report, and the rows
-- it writes; `getTask` of src/engine/tasks.ts.
use mathlib.Core.Option.{none}
use qrib.Engine.Conversion.{leg_status_eq}
use qrib.Db.{
  OperatorResult, TaskStatus, Task, Conversion, Intent, World, Settlement, Act, LegStatus, Reason,
  raise, pure, payment_error,
}
use qrib.Common.{
  Text, ℤ, Bool, Option, some, text_eq, first, not, ◌&&◌, false, update_where, true, List, [],
  if◌then◌else◌, select, is_some, pos, head?, is_decimal, decimal_from,
}

abbrev pub has_task_id : Text → Task → Bool
has_task_id task_id t = text_eq t.id task_id

-- `getTask` of src/engine/tasks.ts
abbrev pub find_task : Text → World → Option Task
find_task task_id w = first (has_task_id task_id) w.tasks

abbrev pub option_eq : Option Text → Option Text → Bool
option_eq none none = true
option_eq none (some t) = false
option_eq (some s) none = false
option_eq (some s) (some t) = text_eq s t

abbrev pub bool_eq : Bool → Bool → Bool
bool_eq true b = b
bool_eq false b = not b

-- The two results have the same JSON text, for keys in the same order.
abbrev pub same_result : OperatorResult → OperatorResult → Bool
same_result a b =
    bool_eq a.is_completed b.is_completed
    && option_eq a.reference b.reference
    && option_eq a.fiat_amount_idr b.fiat_amount_idr
    && option_eq a.rate_executed6 b.rate_executed6
    && option_eq a.proof b.proof
    && option_eq a.note b.note

-- The source compares the JSON texts of the two, so that there the fields must also come in one
-- order.
abbrev pub matches_prior : Option OperatorResult → OperatorResult → Bool
matches_prior none r = false
matches_prior (some prior) r = same_result prior r

abbrev pub task_marked : TaskStatus → OperatorResult → Task → Task
task_marked status result t = record t { status = status; result = some result }

-- `markTask`
unfoldable pub mark_task : Text → TaskStatus → OperatorResult → World → World
mark_task task_id status result w = record w {
  tasks = update_where (has_task_id task_id) (task_marked status result) w.tasks;
}

-- `bigOr422`
unfoldable pub big_or_422 : Option Text → Act ℤ
big_or_422 none = raise (payment_error 422)
big_or_422 (some s) =
    if is_decimal s then pure (pos (decimal_from 0 s)) else raise (payment_error 422)

abbrev pub is_open_task : Task → Bool
is_open_task t = pending_status t.status
  where
    pending_status : TaskStatus → Bool
    pending_status TaskStatus.pending = true
    pending_status TaskStatus.completed = false
    pending_status TaskStatus.failed = false

abbrev pub pending_conversion : Conversion → Bool
pending_conversion l = leg_status_eq l.status LegStatus.pending

-- `legs.find(pending) ?? legs[0]`
abbrev pub first_or_head {ℓ} : {A : Type ℓ} → (A → Bool) → List A → Option A
first_or_head p xs = if is_some (first p xs) then first p xs else head? xs

abbrev pub has_leg_id : Text → Conversion → Bool
has_leg_id leg_id l = text_eq l.id leg_id

abbrev pub executed : ℤ → ℤ → Option Text → LegStatus → Conversion → Conversion
executed actual rate ref status l = record l {
  fiat_amount = some actual;
  rate_executed = some rate;
  reference = ref;
  status = status;
}

unfoldable pub update_leg : Text → ℤ → ℤ → Option Text → LegStatus → World → World
update_leg leg_id actual rate ref status w = record w {
  conversions = update_where (has_leg_id leg_id) (executed actual rate ref status) w.conversions;
}

abbrev pub settlements_of : Text → World → List Settlement
settlements_of id w = select (λ l. text_eq l.payment_id id) w.settlements

abbrev pub has_settlement_id : Text → Settlement → Bool
has_settlement_id leg_id l = text_eq l.id leg_id

abbrev pub with_proof : Option Text → Settlement → Settlement
with_proof proof l = record l { proof = proof }

unfoldable pub set_proof : Text → Option Text → World → World
set_proof leg_id proof w = record w {
  settlements = update_where (has_settlement_id leg_id) (with_proof proof) w.settlements;
}

-- What the caller is told: the payment, and whether the task was done before.
pub record OperatorReply : Type 0 where
  pub intent : Intent
  pub replayed : Bool

abbrev pub reply : Bool → Intent → Act OperatorReply
reply replayed intent = pure (record { intent = intent; replayed = replayed })

abbrev pub note_or : Option Text → Reason → Reason
note_or none r = r
note_or (some t) r = Reason.note t

abbrev pub reference_text : Option Text → Text
reference_text none = []
reference_text (some t) = t
