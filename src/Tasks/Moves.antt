-- ===== src/Tasks/Moves.antt =====
-- When the checks of `transition_status` pass (backend/app/services/task_service.py).
use tasktrack.Prelude.{
  ℕ, ◌≤◌, ◌≡◌, refl, sym, subst, ◌⊎◌, true, false, ==→≡, none, some, Option, is_nil, All, arith,
}
use tasktrack.Json
use tasktrack.Model.Enums.{ProjectMemberRole}
use tasktrack.Model.{Task, Transition, ProjectMember, Tables}
use tasktrack.Query.{Context, ok, ◌>>=◌}
use tasktrack.Permissions.{rank, find_member, get_project, require_project_access, require_writer}
use tasktrack.Permissions.Laws.{can_read, require_role_lem}
use tasktrack.Workflow.{find_transition}
use tasktrack.Tasks.{
  TaskStatusTransition, find_task, checked_move, get_task, check_version_if_given,
  check_transition_role, may_move, missing_fields, check_review_before_final, check_ready_to_start,
  check_decision_task_unblocked,
}
use tasktrack.Tasks.Rules.{
  IsRoleMet, IsReviewed, IsReady, IsUnblocked, role_sound, role_complete, review_sound,
  review_complete, IsReady-sound, ready_complete, IsUnblocked-sound, unblocked_complete,
  filled_sound, filled_complete, mover_sound, mover_complete,
}

-- What a move of `task` to `status_id` by `member`, the user's membership in the task's project, has
-- to meet.
pub record IsAllowed (ctx : Context) (task : Task) (member : ProjectMember) (tr : Transition)
    (status_id : ℕ) (t : Tables) : Type 0 where
  pub reader : can_read ctx.user.id task.project_id t ≡ true
  pub of_project : find_member task.project_id ctx.user.id t ≡ some member
  pub writer : 1 ≤ rank member.role
  pub mover : (task.assignee_id ≡ some ctx.user.id) ⊎ (2 ≤ rank member.role)
  pub edge : find_transition task.workflow_id task.current_status_id status_id t ≡ some tr
  pub role : IsRoleMet tr.required_role member
  pub filled : All (λ f. Json.is_blank (Json.get f task.meta) ≡ false) tr.required_fields
  pub reviewed : IsReviewed task status_id t
  pub ready : IsReady ctx task status_id t
  pub unblocked : IsUnblocked task t

-- The request names no version, or the task's.
pub data IsVersion : Option ℕ → ℕ → Type 0 where
  unnamed : (version : ℕ) → IsVersion none version
  current : (version : ℕ) → IsVersion (some version) version

IsVersion-sound :
    (task : Task) (version : Option ℕ) (t : Tables)
    → check_version_if_given task version t ≡ ok tt
    → IsVersion version task.version
IsVersion-sound task none t h = IsVersion.unnamed task.version
IsVersion-sound task (some version) t h =
    let same : version ≡ task.version = ==→≡ version task.version (ground arith) in
    subst (λ n. IsVersion (some n) task.version) (sym same) (IsVersion.current task.version)

named : (version n : ℕ) → IsVersion (some version) n → version ≡ n
named version n (IsVersion.current _) = refl

version_complete :
    (task : Task) (version : Option ℕ) (t : Tables)
    → IsVersion version task.version
    → check_version_if_given task version t ≡ ok tt
version_complete task none t fits = refl
version_complete task (some version) t fits = ground (arith, named version task.version fits)

writer_sound :
    (ctx : Context) (project_id : ℕ) (t : Tables) (member : ProjectMember)
    → require_writer ctx project_id t ≡ ok member
    → (can_read ctx.user.id project_id t ≡ true)
      × (find_member project_id ctx.user.id t ≡ some member)
      × (1 ≤ rank member.role)
unfolding require_writer rank
writer_sound ctx project_id t member h =
    ground (arith, require_role_lem ctx project_id ProjectMemberRole.member t)

writer_complete :
    (ctx : Context) (project_id : ℕ) (t : Tables) (member : ProjectMember)
    → can_read ctx.user.id project_id t ≡ true
    → find_member project_id ctx.user.id t ≡ some member
    → 1 ≤ rank member.role
    → require_writer ctx project_id t ≡ ok member
unfolding require_writer rank
writer_complete ctx project_id t member reads there high =
    ground (arith, require_role_lem ctx project_id ProjectMemberRole.member t)

-- What the checks have found, one by one.
checked_move-ok :
    (ctx : Context) (id : ℕ) (dto : TaskStatusTransition) (t : Tables) (task : Task)
    (member : ProjectMember) (tr : Transition)
    → checked_move ctx id dto t ≡ ok (task, member, tr)
    → (get_task ctx id t ≡ ok task)
      × (require_writer ctx task.project_id t ≡ ok member)
      × (check_version_if_given task dto.version t ≡ ok tt)
      × (may_move ctx task member ≡ true)
      × (find_transition task.workflow_id task.current_status_id dto.status_id t ≡ some tr)
      × (check_transition_role tr.required_role member t ≡ ok tt)
      × (is_nil (missing_fields tr.required_fields task.meta) ≡ true)
      × (check_review_before_final task dto.status_id t ≡ ok tt)
      × (check_ready_to_start ctx task dto.status_id t ≡ ok tt)
      × (check_decision_task_unblocked task t ≡ ok tt)
unfolding checked_move ◌>>=◌
checked_move-ok ctx id dto t task member tr h = ground arith

-- The checks pass only on an allowed move.
pub checked_move-IsAllowed :
    (ctx : Context) (id : ℕ) (dto : TaskStatusTransition) (t : Tables) (task : Task)
    (member : ProjectMember) (tr : Transition)
    → checked_move ctx id dto t ≡ ok (task, member, tr)
    → (get_task ctx id t ≡ ok task)
      × IsVersion dto.version task.version
      × IsAllowed ctx task member tr dto.status_id t
checked_move-IsAllowed ctx id dto t task member tr h =
    let (got, writer, version, mover, edge, role, filled, reviewed, ready, unblocked) =
      checked_move-ok ctx id dto t task member tr h in
    let (reads, there, high) = writer_sound ctx task.project_id t member writer in
    (
      got,
      IsVersion-sound task dto.version t version,
      record {
        reader = reads;
        of_project = there;
        writer = high;
        mover = mover_sound ctx task member mover;
        edge = edge;
        role = role_sound tr.required_role member t role;
        filled = filled_sound tr.required_fields task.meta filled;
        reviewed = review_sound task dto.status_id t reviewed;
        ready = IsReady-sound ctx task dto.status_id t ready;
        unblocked = IsUnblocked-sound task t unblocked;
      },
    )

get_task_complete :
    (ctx : Context) (id : ℕ) (t : Tables) (task : Task)
    → find_task id t ≡ some task
    → task.deleted_at ≡ none
    → can_read ctx.user.id task.project_id t ≡ true
    → get_task ctx id t ≡ ok task
unfolding get_task require_project_access get_project can_read ◌>>=◌
get_task_complete ctx id t task there alive reads = ground arith

-- The checks pass on every allowed move of a task that is there, at a version that fits.
pub IsAllowed-checked_move :
    (ctx : Context) (id : ℕ) (dto : TaskStatusTransition) (t : Tables) (task : Task)
    (member : ProjectMember) (tr : Transition)
    → find_task id t ≡ some task
    → task.deleted_at ≡ none
    → IsVersion dto.version task.version
    → IsAllowed ctx task member tr dto.status_id t
    → checked_move ctx id dto t ≡ ok (task, member, tr)
unfolding checked_move ◌>>=◌
IsAllowed-checked_move ctx id dto t task member tr there alive version allowed = ground (
  arith,
  get_task_complete ctx id t task there alive allowed.reader,
  writer_complete ctx task.project_id t member allowed.reader allowed.of_project allowed.writer,
  version_complete task dto.version t version,
  mover_complete ctx task member allowed.mover,
  allowed.edge,
  role_complete tr.required_role member t allowed.role,
  filled_complete tr.required_fields task.meta allowed.filled,
  review_complete task dto.status_id t allowed.reviewed,
  ready_complete ctx task dto.status_id t allowed.ready,
  unblocked_complete task t allowed.unblocked,
)
