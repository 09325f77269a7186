-- ===== src/Engine/Manual/Polls.antt =====
-- What the manual providers of src/engine/providers.manual.ts do to the state.
use mathlib.Core.Option.{none}
use qrib.Common.{codes, ◌≡◌, true, arith, ap, refl, ◌↔◌}
use qrib.Engine.Providers.{Providers}
use qrib.Engine.Common.{draw}
use qrib.Db.{
  World, Runs, Task, Runs-bind, Runs-pure, Runs-gets, Runs-then, Runs-modify, TaskStatus, Result,
  ◌>>=◌, ok,
}
use qrib.Engine.Manual.{
  file_conversion_task, file_settlement_task, poll_task, manual_off_ramp, manual_qris, task_id_of,
  ref_of, is_task_id, settlement_of, Text, ℤ, Option, SettlementState, TaskKind, TaskPayload, some,
}
use qrib.Engine.Manual.Refs.{task_id_of_iff}
use qrib.Engine.Operator.{find_task}
use qrib.Engine.Tasks.{status_of, create_task, file_task, db_task_store}
use qrib.Engine.Changes.Writes.{Respects, outside, Untouched-refl, Untouched}

file_task-Untouched :
    (id payment_id : Text) (kind : TaskKind) (payload : TaskPayload) (s : World)
    → Untouched s (file_task id payment_id kind payload s)
unfolding file_task
file_task-Untouched id payment_id kind payload s = Untouched-refl s

create_task-outside :
    (payment_id : Text) (kind : TaskKind) (payload : TaskPayload)
    → Runs outside (create_task payment_id kind payload)
unfolding create_task draw
create_task-outside payment_id kind payload =
    Runs-bind _ _
      (Runs-bind _ _ (Runs-gets _)
        λ id. Runs-then _ _ (Runs-modify _ Untouched-refl) (Runs-pure id))
      λ id.
        Runs-then _ _ (Runs-modify _ (file_task-Untouched id payment_id kind payload))
          (Runs-pure id)

poll_task-outside : (id : Option Text) → Runs outside (poll_task db_task_store id)
unfolding poll_task
poll_task-outside none = Runs-pure _
poll_task-outside (some id) = Runs-bind _ _ (Runs-gets _) λ status. Runs-pure _

-- The manual providers over the database's task queue leave payments, audit trail, quotes, books and
-- calls alone, with any chain gateway that does so.
pub manual_providers-Respects :
    (ref6 : ℤ) (p : Providers)
    → Respects outside p
    → Respects outside (record p {
      off_ramp = manual_off_ramp db_task_store ref6;
      payment = manual_qris db_task_store;
    })
unfolding file_conversion_task file_settlement_task
manual_providers-Respects ref6 p r = record {
  execute = λ id usdc fiat. Runs-bind _ _ (create_task-outside id _ _) λ task. Runs-pure _;
  create_payment = λ id fiat. Runs-bind _ _ (create_task-outside id _ _) λ task. Runs-pure _;
  get_payment = λ ref. poll_task-outside (task_id_of ref (codes "mqris"));
  submit_payment = r.submit_payment;
  confirmations = r.confirmations;
}

-- The task that a reference of the manual settlement names, completed by an operator.
abbrev pub IsDone : Text → World → Type 0
IsDone ref w =
    (id : Text) × (t : Task) × (is_task_id id ≡ true)
    × (ref ≡ ref_of (codes "mqris") id)
    × (find_task id w ≡ some t)
    × (t.status ≡ TaskStatus.completed)

abbrev pub answers : SettlementState → World → Result SettlementState × World
answers state w = (ok state, w)

answers_inj : (a b : SettlementState) (w : World) → answers a w ≡ answers b w → a ≡ b
answers_inj a b w e =
    let results : ok a ≡ ok b = ap (λ (p : Result SettlementState × World). p.0) e in
    ground (arith, results)

settled_only :
    (o : Option Task)
    → settlement_of (status_of o) ≡ SettlementState.completed
    → (t : Task) × (o ≡ some t) × (t.status ≡ TaskStatus.completed)
settled_only none e = absurd (ground (arith, e))
settled_only (some t) e = (t, refl, completed_only t.status e)
  where
    completed_only :
        (s : TaskStatus)
        → settlement_of (some s) ≡ SettlementState.completed
        → s ≡ TaskStatus.completed
    completed_only TaskStatus.completed e = refl
    completed_only TaskStatus.failed e = absurd (ground (arith, e))
    completed_only TaskStatus.pending e = absurd (ground (arith, e))

poll_task-done :
    (o : Option Text) (w : World)
    → poll_task db_task_store o w ≡ answers SettlementState.completed w
    → (id : Text) × (t : Task) × (o ≡ some id)
      × (find_task id w ≡ some t)
      × (t.status ≡ TaskStatus.completed)
unfolding poll_task ◌>>=◌
poll_task-done none w e =
    absurd (ground (arith, answers_inj SettlementState.pending SettlementState.completed w e))
poll_task-done (some id) w e =
    let (t, found, done) =
      settled_only (find_task id w) (answers_inj _ SettlementState.completed w e) in
    (id, t, refl, found, done)

-- A poll of the manual settlement says COMPLETED exactly where its reference names a task that an
-- operator has completed.
pub manual_qris-IsDone_iff :
    (ref : Text) (w : World)
    → ((manual_qris db_task_store).get_payment ref w ≡ answers SettlementState.completed w)
      ↔ IsDone ref w
unfolding poll_task ◌>>=◌
manual_qris-IsDone_iff ref w = (
  λ e.
      let (id, t, read, found, done) = poll_task-done (task_id_of ref (codes "mqris")) w e in
      let (valid, same) = (task_id_of_iff ref (codes "mqris") id).0 read in
      (id, t, valid, same, found, done),
  λ (id, t, valid, same, found, done).
      rw ((task_id_of_iff ref (codes "mqris") id).1 (valid, same), found, done) refl,
)
