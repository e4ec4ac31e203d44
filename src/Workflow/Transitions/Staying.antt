-- ===== src/Workflow/Transitions/Staying.antt =====
-- The status that a task moves to (backend/app/services/task_service.py).
use tasktrack.Prelude.{ℕ, ◌≡◌, sym, subst, true, ◌&&◌, some, ◌==◌, arith, first, first_sound}
use tasktrack.Model.{Task, Transition, Tables}
use tasktrack.Query.{Context, ok}
use tasktrack.Exec.{Session}
use tasktrack.Tasks.{TaskStatusTransition}
use tasktrack.Tasks.Transitions.{transition_status, transition_status-HasMoved}
use tasktrack.Workflow.{find_status, find_transition}
use tasktrack.Workflow.Transitions.{belongs_to}
use tasktrack.Workflow.Transitions.Links.{joins, IsLinked, All-first}

-- What a selected transition says.
ends :
    (tr : Transition) (task : Task) (status_id : ℕ)
    → (tr.workflow_id == task.workflow_id
        && (tr.from_status_id == task.current_status_id && tr.to_status_id == status_id))
      ≡ true
    → (tr.workflow_id ≡ task.workflow_id) × (tr.to_status_id ≡ status_id)
ends tr task status_id h = (ground arith, ground arith)

to_end :
    (tr : Transition) (t : Tables)
    → joins t.statuses tr ≡ true
    → belongs_to tr.workflow_id (find_status tr.to_status_id t) ≡ true
unfolding joins find_status
to_end tr t h = ground arith

-- Where every transition is between statuses of its own workflow, a task that changes its status gets
-- a status of the workflow it runs on.
pub transition_status_stays :
    (ctx : Context) (id : ℕ) (dto : TaskStatusTransition) (s s' : Session) (task' : Task)
    → IsLinked s.tables
    → transition_status ctx id dto s ≡ (ok task', s')
    → belongs_to task'.workflow_id (find_status task'.current_status_id s.tables) ≡ true
unfolding IsLinked find_transition
transition_status_stays ctx id dto s s' task' linked h =
    let done = transition_status-HasMoved ctx id dto s s' task' h in
    let task = done.task in
    let tr = done.tr in
    let chosen = λ (r : Transition).
      r.workflow_id == task.workflow_id
      && (r.from_status_id == task.current_status_id && r.to_status_id == dto.status_id) in
    let edge : first chosen s.tables.transitions ≡ some tr = done.allowed.edge in
    let joined = All-first (joins s.tables.statuses) chosen s.tables.transitions linked edge in
    let (own, target) = ends tr task dto.status_id (first_sound chosen s.tables.transitions edge) in
    subst (λ k. belongs_to k.workflow_id (find_status k.current_status_id s.tables) ≡ true)
      (sym done.result)
      (subst (λ w. belongs_to w (find_status dto.status_id s.tables) ≡ true) own
        (subst (λ n. belongs_to tr.workflow_id (find_status n s.tables) ≡ true) target
          (to_end tr s.tables joined)))
