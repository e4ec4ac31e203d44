-- ===== src/Tasks/Creation/Numbering.antt =====
-- The numbers of new tasks (backend/app/services/task_service.py).
use tasktrack.Prelude.{
  ℕ, String, ◌+◌, ◌≡◌, refl, true, sym, ap, ◌∙◌, subst, inl, inr, none, some, [], ◌∷◌, ◌++◌, ◌==◌,
  arith, first, first-modify, first-append_none, ==_refl,
}
use tasktrack.Model.{Project, Task, TaskType, Status, Tables}
use tasktrack.Query.{Context, Error, ok, err, Result-cases, ◌>>=◌}
use tasktrack.References.{is_user_or_null, is_task_or_null}
use tasktrack.Exec.{Session}
use tasktrack.Notifications.{notify_task_assigned}
use tasktrack.Permissions.{find_project}
use tasktrack.Workflow.Boards.{map_workflow_to_boards}
use tasktrack.Tasks.{find_task}
use tasktrack.Tasks.Creation.{
  TaskCreate, check_references, checked_creation, chosen_workflow, find_default_status, create_task,
  new_task, next_number, task_key, show_process, notify_if_assigned,
}

pub checked_creation-ok :
    (ctx : Context) (project_id : ℕ) (dto : TaskCreate) (t : Tables) (project : Project)
    (task_type : TaskType) (workflow_id : ℕ) (status : Status)
    → checked_creation ctx project_id dto t ≡ ok (project, task_type, workflow_id, status)
    → (find_project project_id t ≡ some project)
      × (chosen_workflow dto.workflow_id project_id task_type.id t ≡ ok workflow_id)
      × (find_default_status workflow_id t ≡ some status)
unfolding checked_creation ◌>>=◌
checked_creation-ok ctx project_id dto t project task_type workflow_id status h = ground arith

references_known :
    (ctx : Context) (project_id : ℕ) (dto : TaskCreate) (t : Tables) (project : Project)
    (task_type : TaskType) (workflow_id : ℕ) (status : Status)
    → checked_creation ctx project_id dto t ≡ ok (project, task_type, workflow_id, status)
    → (is_user_or_null dto.assignee_id t ≡ true) × (is_task_or_null dto.parent_task_id t ≡ true)
unfolding checked_creation check_references ◌>>=◌
references_known ctx project_id dto t project task_type workflow_id status h =
    (ground arith, ground arith)

pub create_task_refused :
    (ctx : Context) (new_id project_id : ℕ) (dto : TaskCreate) (s : Session) {e : Error}
    → checked_creation ctx project_id dto s.tables ≡ err e
    → create_task ctx new_id project_id dto s ≡ (err e, s)
unfolding create_task
create_task_refused ctx new_id project_id dto s h = ground arith

pub create_task_effect :
    (ctx : Context) (new_id project_id : ℕ) (dto : TaskCreate) (s : Session) (project : Project)
    (task_type : TaskType) (workflow_id : ℕ) (status : Status)
    → checked_creation ctx project_id dto s.tables ≡ ok (project, task_type, workflow_id, status)
    → let task = new_task ctx new_id dto project task_type workflow_id status in
      let r = create_task ctx new_id project_id dto s in
      (r.0 ≡ ok task)
      × (r.1.committed.tasks ≡ s.tables.tasks ++ task ∷ [])
      × (r.1.committed.projects ≡ (next_number project_id s.tables).projects)
unfolding create_task next_number show_process map_workflow_to_boards notify_if_assigned
    notify_task_assigned
create_task_effect ctx new_id project_id dto s project task_type workflow_id status h = ground arith

ok-eq : {A : Type 0} {a b : A} → ok a ≡ ok b → a ≡ b
ok-eq h = ground arith

some-eq : {A : Type 0} {a b : A} → some a ≡ some b → a ≡ b
some-eq h = ground arith

-- What a successful `create_task` has found and done.
pub record HasCreated (ctx : Context) (new_id project_id : ℕ) (dto : TaskCreate) (s s' : Session)
    (task : Task) : Type 0 where
  pub project : Project
  pub task_type : TaskType
  pub status : Status
  pub found : find_project project_id s.tables ≡ some project
  pub on_workflow :
      chosen_workflow dto.workflow_id project_id task_type.id s.tables ≡ ok task.workflow_id
  pub starts : find_default_status task.workflow_id s.tables ≡ some status
  pub at_start : task.current_status_id ≡ status.id
  pub numbered : task.key ≡ task_key project.key (project.task_seq + 1)
  pub counted :
      find_project project_id s'.committed
      ≡ some (record project { task_seq = project.task_seq + 1 })
  pub stored : find_task new_id s'.committed ≡ some task
  pub assignee : is_user_or_null task.assignee_id s.tables ≡ true
  pub parent : is_task_or_null task.parent_task_id s.tables ≡ true

pub next_number-find_project :
    (project_id : ℕ) (t u : Tables) {project : Project}
    → u.projects ≡ (next_number project_id t).projects
    → find_project project_id t ≡ some project
    → find_project project_id u ≡ some (record project { task_seq = project.task_seq + 1 })
unfolding find_project next_number
next_number-find_project project_id t u {project} same found = ground (
  arith,
  same,
  found,
  first-modify (λ p. p.id == project_id) (λ p. record p { task_seq = p.task_seq + 1 }) t.projects
      (λ x h. h),
)

added_task :
    (task : Task) (t u : Tables)
    → u.tasks ≡ t.tasks ++ task ∷ []
    → find_task task.id t ≡ none
    → find_task task.id u ≡ some task
unfolding find_task first
added_task task t u same fresh = ground (
  arith,
  same,
  fresh,
  ==_refl task.id,
  first-append_none (λ r. r.id == task.id) t.tasks (task ∷ []),
)

-- A new task starts in the default status of the workflow chosen for it, and takes the project's
-- next number, which the project then counts; its assignee and parent, where it has them, are there.
pub create_task-HasCreated :
    (ctx : Context) (new_id project_id : ℕ) (dto : TaskCreate) (s s' : Session) (task : Task)
    → find_task new_id s.tables ≡ none
    → create_task ctx new_id project_id dto s ≡ (ok task, s')
    → HasCreated ctx new_id project_id dto s s' task
unfolding new_task
create_task-HasCreated ctx new_id project_id dto s s' task fresh h =
    elim (Result-cases (checked_creation ctx project_id dto s.tables)) [
      | inr (e, failed) ↦
          absurd (ground (arith, create_task_refused ctx new_id project_id dto s failed))
      | inl ((project, task_type, workflow_id, status), passed) ↦
          let (found, chosen, starts) =
            checked_creation-ok ctx project_id dto s.tables project task_type workflow_id status
              passed in
          let (answer, tasks, projects) =
            create_task_effect ctx new_id project_id dto s project task_type workflow_id status
              passed in
          let (known, there) =
            references_known ctx project_id dto s.tables project task_type workflow_id status
              passed in
          let made = new_task ctx new_id dto project task_type workflow_id status in
          let after = (create_task ctx new_id project_id dto s).1 in
          let same : made ≡ task = ok-eq (sym answer ∙ ap (λ r. r.0) h) in
          subst (λ v. HasCreated ctx new_id project_id dto s v task) (ap (λ r. r.1) h)
            (subst (λ k. HasCreated ctx new_id project_id dto s after k) same
              (record {
                project = project;
                task_type = task_type;
                status = status;
                found = found;
                on_workflow = chosen;
                starts = starts;
                at_start = refl;
                numbered = refl;
                counted =
                    next_number-find_project project_id s.tables after.committed projects found;
                stored = added_task made s.tables after.committed tasks fresh;
                assignee = known;
                parent = there;
              }))
    ]

-- Two tasks created one after the other in a project take consecutive numbers of its one counter.
pub next_task_next_number :
    (ctx ctx' : Context) (id₁ id₂ project_id : ℕ) (dto dto' : TaskCreate) (s s₁ s₂ s₃ : Session)
    (task₁ task₂ : Task)
    → find_task id₁ s.tables ≡ none
    → find_task id₂ s₂.tables ≡ none
    → create_task ctx id₁ project_id dto s ≡ (ok task₁, s₁)
    → s₂.tables ≡ s₁.committed
    → create_task ctx' id₂ project_id dto' s₂ ≡ (ok task₂, s₃)
    → (key : String) × (n : ℕ) × (task₁.key ≡ task_key key n) × (task₂.key ≡ task_key key (n + 1))
next_task_next_number ctx ctx' id₁ id₂ project_id dto dto' s s₁ s₂ s₃ task₁ task₂ fresh₁ fresh₂ h₁
      seen h₂ =
    let one = create_task-HasCreated ctx id₁ project_id dto s s₁ task₁ fresh₁ h₁ in
    let two = create_task-HasCreated ctx' id₂ project_id dto' s₂ s₃ task₂ fresh₂ h₂ in
    let again = sym one.counted ∙ ap (find_project project_id) (sym seen) ∙ two.found in
    let same = some-eq again in
    (
      one.project.key,
      one.project.task_seq + 1,
      one.numbered,
      two.numbered ∙ ap (λ p. task_key p.key (p.task_seq + 1)) (sym same),
    )
