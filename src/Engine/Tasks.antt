-- ===== src/Engine/Tasks.antt =====
-- src/engine/tasks.ts: the queue of operator tasks, as the manual providers see it.
use qrib.Engine.Common.{draw}
use qrib.Db.{gets, TaskStatus, TaskKind, Task, World, TaskPayload, Act, ◌>>=◌, ◌>>◌, modify, pure}
use qrib.Common.{Text, Bool, true, List, some, none, ◌++◌, false, select, ◌∷◌, [], Option}
use qrib.Engine.Operator.{find_task}

-- `TaskStore`
pub record TaskStore : Type 0 where
  pub create : Text → TaskKind → TaskPayload → Act Text
  pub status : Text → Act (Option TaskStatus)

abbrev new_task : Text → Text → TaskKind → TaskPayload → Task
new_task id payment_id kind payload = record {
  id = id;
  payment_id = payment_id;
  kind = kind;
  status = TaskStatus.pending;
  payload = payload;
  result = none;
}

unfoldable pub file_task : Text → Text → TaskKind → TaskPayload → World → World
file_task id payment_id kind payload w = record w {
  tasks = w.tasks ++ new_task id payment_id kind payload ∷ [];
}

abbrev pub status_of : Option Task → Option TaskStatus
status_of none = none
status_of (some t) = some t.status

unfoldable pub create_task : Text → TaskKind → TaskPayload → Act Text
create_task payment_id kind payload = do
  id ← draw
  modify (file_task id payment_id kind payload)
  pure id

-- `dbTaskStore`
abbrev pub db_task_store : TaskStore
db_task_store = record {
  create = create_task;
  status = λ id. gets (λ w. status_of (find_task id w));
}

abbrev pub task_status_eq : TaskStatus → TaskStatus → Bool
task_status_eq TaskStatus.pending TaskStatus.pending = true
task_status_eq TaskStatus.completed TaskStatus.completed = true
task_status_eq TaskStatus.failed TaskStatus.failed = true
task_status_eq _ _ = false

-- `listTasks`
abbrev pub list_tasks : Option TaskStatus → World → List Task
list_tasks none w = w.tasks
list_tasks (some status) w = select (λ t. task_status_eq t.status status) w.tasks
