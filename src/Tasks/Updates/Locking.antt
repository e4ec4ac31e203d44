-- ===== src/Tasks/Updates/Locking.antt =====
-- The optimistic lock of `update_task`: a request names the version that it has read.
use tasktrack.Prelude.{ℕ, ◌+◌, ◌≡◌, refl, subst, ◌≢◌, some, arith, inl, inr}
use tasktrack.Model.{Task, Tables}
use tasktrack.Query.{Context, Error, ok, err, Result-cases, ◌>>=◌}
use tasktrack.Exec.{Session}
use tasktrack.Notifications.{notify_task_assigned}
use tasktrack.Tasks.{get_task, get_task-ok, find_task, save_task, find_task-save_task}
use tasktrack.Tasks.Updates.{TaskUpdate, updated, checked_update, update_task}

-- The checks pass at the task that is there, at the version that the request names, for a writer.
checked_update-ok :
    (ctx : Context) (id : ℕ) (dto : TaskUpdate) (t : Tables) (task : Task)
    → checked_update ctx id dto t ≡ ok task
    → (get_task ctx id t ≡ ok task) × (dto.version ≡ task.version)
unfolding checked_update ◌>>=◌
checked_update-ok ctx id dto t task h = ground arith

update_task_refused :
    (ctx : Context) (id : ℕ) (dto : TaskUpdate) (s : Session) {e : Error}
    → checked_update ctx id dto s.tables ≡ err e
    → update_task ctx id dto s ≡ (err e, s)
unfolding update_task
update_task_refused ctx id dto s h = ground arith

update_task_effect :
    (ctx : Context) (id : ℕ) (dto : TaskUpdate) (s : Session) (task : Task)
    → checked_update ctx id dto s.tables ≡ ok task
    → ((update_task ctx id dto s).0 ≡ ok (updated dto task))
      × ((update_task ctx id dto s).1.committed.tasks
          ≡ (save_task (updated dto task) s.tables).tasks)
unfolding update_task save_task notify_task_assigned
update_task_effect ctx id dto s task h = ground arith

-- An update names the current version, and stores the task with the next one.
pub update_task-version :
    (ctx : Context) (id : ℕ) (dto : TaskUpdate) (s s' : Session) (task' : Task)
    → update_task ctx id dto s ≡ (ok task', s')
    → (task : Task) × (get_task ctx id s.tables ≡ ok task)
      × (dto.version ≡ task.version)
      × (task' ≡ updated dto task)
      × (find_task id s'.committed ≡ some (updated dto task))
unfolding find_task
update_task-version ctx id dto s s' task' h =
    elim (Result-cases (checked_update ctx id dto s.tables)) [
      | inr (e, failed) ↦ absurd (ground (arith, update_task_refused ctx id dto s failed))
      | inl (task, passed) ↦
          let (got, same) = checked_update-ok ctx id dto s.tables task passed in
          let (answer, tasks) = update_task_effect ctx id dto s task passed in
          let stored =
            find_task-save_task id (updated dto task) s.tables (get_task-ok ctx id s.tables got).0
              (unfold updated in refl) in
          (task, got, same, ground (arith, answer), ground (arith, tasks, stored))
    ]

-- Of two updates that have read the same version, once the first is committed the second never
-- succeeds, whoever sends it and whatever it asks for.
pub second_update_refused :
    (ctx ctx' : Context) (id : ℕ) (dto dto' : TaskUpdate) (s s₁ s₂ s₃ : Session)
    (task₁ task₂ : Task)
    → update_task ctx id dto s ≡ (ok task₁, s₁)
    → s₂.tables ≡ s₁.committed
    → dto'.version ≡ dto.version
    → update_task ctx' id dto' s₂ ≢ (ok task₂, s₃)
second_update_refused ctx ctx' id dto dto' s s₁ s₂ s₃ task₁ task₂ first_wins seen stale second =
    let (task, got, same, result, stored) = update_task-version ctx id dto s s₁ task₁ first_wins in
    let (task', got', same', _, _) = update_task-version ctx' id dto' s₂ s₃ task₂ second in
    let found : find_task id s₁.committed ≡ some task' =
      subst (λ t. find_task id t ≡ some task') seen (get_task-ok ctx' id s₂.tables got').0 in
    let version : task'.version ≡ task.version + 1 =
      unfold updated in ground (arith, stored, found) in
    omega arith
