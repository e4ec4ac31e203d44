-- ===== src/References.antt =====
-- The foreign keys that an insert or update may break with an id of the request
-- (backend/app/models/task.py, project.py and workflow.py): an id that is set has to be a row's.
use tasktrack.Prelude.{ℕ, Bool, true, Option, none, some, ◌==◌, any}
use tasktrack.Model.{Tables}

-- `ForeignKey("users.id")`
unfoldable pub is_user : ℕ → Tables → Bool
is_user id t = any (λ u. u.id == id) t.users

unfoldable pub is_user_or_null : Option ℕ → Tables → Bool
unfolding is_user
is_user_or_null none t = true
is_user_or_null (some id) t = is_user id t

-- `ForeignKey("tasks.id")`: a deleted task has its row still.
unfoldable pub is_task_or_null : Option ℕ → Tables → Bool
is_task_or_null none t = true
is_task_or_null (some id) t = any (λ task. task.id == id) t.tasks

-- `ForeignKey("task_types.id")`
unfoldable pub is_task_type : ℕ → Tables → Bool
is_task_type id t = any (λ y. y.id == id) t.task_types
