-- ===== src/WorkProposals.antt =====
-- Decisions on work proposals (backend/app/services/work_proposal_service.py).
pub mod Decided
pub mod Standing
use Prim.Native.String.{◌++◌ as joined}
use tasktrack.Prelude.{
  ℕ, String, Bool, true, false, Option, none, some, List, [], ◌∷◌, ◌++◌, not, ◌&&◌, ◌||◌, ◌==◌,
  str_eq, is_some, is_some_of, if◌then◌else◌, first, modify,
}
use tasktrack.Json
use tasktrack.Json.{Json, Dict, entry, empty, opt}
use tasktrack.Model.Enums.{TaskPriority}
use tasktrack.Model.{
  Task, ExternalObject, TaskBasis, WorkProposal, WorkProposalState, WorkProposalVersion, Tables,
}
use tasktrack.Query.{
  Context, Query, http, attribute_error, work_proposal_not_found, work_proposal_already_decided,
  reason_required, task_id_required, task_of_other_project, merge_target_required,
  merge_target_of_other_project, select_from, or_raise, require, ◌>>=◌, ◌>>◌,
}
use tasktrack.Query
use tasktrack.Exec
use tasktrack.Exec.{Exec, ask, write, commit}
use tasktrack.Audit
use tasktrack.Permissions.{require_project_access, require_manager}
use tasktrack.Tasks.{get_task}
use tasktrack.Tasks.Creation.{TaskCreate, create_task as add_task}
use tasktrack.Packages.Bases.{find_object}

pub data Action : Type 0 where
  create_task link merge defer reject : Action

pub record WorkProposalDecide : Type 0 where
  pub action : Action
  pub reason : Option String
  pub task_id : Option ℕ
  pub merge_into_id : Option ℕ
  pub title : Option String
  pub task_type_key : String

unfoldable pub find_work_proposal : ℕ → Tables → Option WorkProposal
find_work_proposal id t = first (λ p. p.id == id) t.work_proposals

-- `_load`
unfoldable pub load_work_proposal : Context → ℕ → Query WorkProposal
load_work_proposal ctx proposal_id = do
  found ← select_from (find_work_proposal proposal_id)
  proposal ← or_raise found (http 404 work_proposal_not_found)
  require_project_access ctx proposal.project_id
  Query.pure proposal

-- `FINAL`
abbrev pub is_final : WorkProposalState → Bool
is_final WorkProposalState.undecided = false
is_final WorkProposalState.deferred = false
is_final _ = true

abbrev asks_reason : Action → Bool
asks_reason Action.create_task = false
asks_reason Action.link = false
asks_reason _ = true

-- `not data.reason`
abbrev is_unset : Option String → Bool
is_unset none = true
is_unset (some text) = str_eq text ""

unfoldable pub checked_decision : Context → ℕ → WorkProposalDecide → Query WorkProposal
checked_decision ctx proposal_id dto = do
  proposal ← load_work_proposal ctx proposal_id
  require_manager ctx proposal.project_id
  require (not (is_final proposal.state)) (http 409 work_proposal_already_decided)
  require (not (asks_reason dto.action && is_unset dto.reason)) (http 422 reason_required)
  Query.pure proposal

-- The version that `decide` works with.
unfoldable pub find_version : WorkProposal → Tables → Option WorkProposalVersion
find_version p t =
    first (λ v. v.proposal_id == p.id && v.version == p.current_version) t.work_proposal_versions

abbrev default_title : WorkProposal → ExternalObject → String
default_title p basis = joined p.work_kind (
    joined ": " (
      joined basis.type
        (joined "/" (joined basis.ext_id (joined " (" (joined p.work_scope_key ")"))))))

-- `data.title or f"…"`; a title is not empty.
unfoldable pub title_of : Option String → WorkProposal → Query String
title_of none p = do
  found ← select_from (find_object p.basis_object_id)
  basis ← or_raise found attribute_error
  Query.pure (default_title p basis)
title_of (some title) p = Query.pure title

-- The task that the decision asks for.
unfoldable pub conversion_order : WorkProposalDecide → WorkProposal → Query TaskCreate
conversion_order dto p = do
  title ← title_of dto.title p
  known ← select_from (find_version p)
  version ← or_raise known attribute_error
  Query.pure (record {
    title = title;
    description = some (joined version.expected_output (joined "\n\nПричина: " version.reason));
    task_type_key = dto.task_type_key;
    priority = TaskPriority.medium;
    workflow_id = none;
    assignee_id = none;
    parent_task_id = none;
    start_date = none;
    due_date = none;
    duration_days = none;
    meta = empty;
  })

abbrev cause_of : Context → ℕ → ℕ → WorkProposal → ExternalObject → WorkProposalVersion → TaskBasis
cause_of ctx new_id task_id p basis version = record {
  id = new_id;
  task_id = task_id;
  object_id = basis.id;
  revision = version.basis_revision;
  role = "cause";
  meaning =
      some (joined "предложение работы: " (joined p.work_kind (joined " / " p.work_scope_key)));
  freshness = "pinned";
  created_by = ctx.user.id;
}

abbrev is_cause : ℕ → ℕ → TaskBasis → Bool
is_cause task_id object_id b =
    b.task_id == task_id && (b.object_id == object_id && str_eq b.role "cause")

unfoldable pub with_cause :
    Context → ℕ → ℕ → WorkProposal → ExternalObject → WorkProposalVersion → Tables → Tables
with_cause ctx new_id task_id p basis version t =
    if is_some (first (is_cause task_id basis.id) t.bases)
    then t
    else record t { bases = t.bases ++ cause_of ctx new_id task_id p basis version ∷ [] }

unfoldable pub cause_material : WorkProposal → Query (ExternalObject × WorkProposalVersion)
cause_material p = do
  found ← select_from (find_object p.basis_object_id)
  basis ← or_raise found attribute_error
  known ← select_from (find_version p)
  version ← or_raise known attribute_error
  Query.pure (basis, version)

-- `_cause_basis`
unfoldable pub cause_basis : Context → ℕ → ℕ → WorkProposal → Exec (Unit {0})
unfolding Exec.◌>>=◌
cause_basis ctx new_id task_id p =
    Exec.◌>>=◌ (ask (cause_material p))
      λ (basis, version). write (with_cause ctx new_id task_id p basis version)

-- `action == "create_task"`: `create_task` commits.
unfoldable pub convert : Context → ℕ → ℕ → WorkProposalDecide → WorkProposal → Exec WorkProposal
unfolding Exec.◌>>=◌
convert ctx new_id basis_id dto p = Exec.◌>>=◌ (ask (conversion_order dto p)) λ order.
    Exec.◌>>=◌ (add_task ctx new_id p.project_id order) λ task.
      Exec.◌>>=◌ (cause_basis ctx basis_id task.id p)
        λ _. Exec.pure (record p { task_id = some task.id; state = WorkProposalState.converted })

unfoldable pub linked_task : Context → Option ℕ → WorkProposal → Query Task
linked_task ctx none p = Query.raise (http 422 task_id_required)
linked_task ctx (some task_id) p = do
  task ← get_task ctx task_id
  require (task.project_id == p.project_id) (http 422 task_of_other_project)
  Query.pure task

unfoldable pub link_to : Context → ℕ → WorkProposalDecide → WorkProposal → Exec WorkProposal
unfolding Exec.◌>>=◌
link_to ctx basis_id dto p = Exec.◌>>=◌ (ask (linked_task ctx dto.task_id p)) λ task.
    Exec.◌>>=◌ (cause_basis ctx basis_id task.id p)
      λ _. Exec.pure (record p { task_id = some task.id; state = WorkProposalState.linked })

unfoldable pub merge_target : Context → Option ℕ → WorkProposal → Query WorkProposal
merge_target ctx none p = Query.raise (http 422 merge_target_required)
merge_target ctx (some target_id) p = do
  require (not (target_id == p.id)) (http 422 merge_target_required)
  target ← load_work_proposal ctx target_id
  require (target.project_id == p.project_id) (http 422 merge_target_of_other_project)
  Query.pure target

unfoldable pub merge_into : Context → WorkProposalDecide → WorkProposal → Exec WorkProposal
unfolding Exec.◌>>=◌
merge_into ctx dto p = Exec.◌>>=◌ (ask (merge_target ctx dto.merge_into_id p)) λ target.
    Exec.pure (record p { merged_into_id = some target.id; state = WorkProposalState.merged })

-- The branches of `decide`.
unfoldable pub act :
    Context → ℕ → ℕ → WorkProposalDecide → WorkProposal → Action → Exec WorkProposal
act ctx new_id basis_id dto p Action.create_task = convert ctx new_id basis_id dto p
act ctx new_id basis_id dto p Action.link = link_to ctx basis_id dto p
act ctx new_id basis_id dto p Action.merge = merge_into ctx dto p
act ctx new_id basis_id dto p Action.defer =
    Exec.pure (record p { state = WorkProposalState.deferred })
act ctx new_id basis_id dto p Action.reject =
    Exec.pure (record p { state = WorkProposalState.rejected })

abbrev pub decided : Context → WorkProposalDecide → WorkProposal → WorkProposal
decided ctx dto p = record p {
  decision_reason = dto.reason;
  decided_by = some ctx.user.id;
  decided_at = some ctx.now;
  updated_since_decision = false;
}

unfoldable pub save_work_proposal : WorkProposal → Tables → Tables
save_work_proposal p t = record t {
  work_proposals = modify (λ r. r.id == p.id) (λ _. p) t.work_proposals;
}

abbrev action_text : Action → String
action_text Action.create_task = "create_task"
action_text Action.link = "link"
action_text Action.merge = "merge"
action_text Action.defer = "defer"
action_text Action.reject = "reject"

-- `_audit`
abbrev pub decision_entry : Context → WorkProposalDecide → WorkProposal → Exec (Unit {0})
decision_entry ctx dto p = Audit.log ctx (record {
  project_id = some p.project_id;
  task_id = p.task_id;
  entity_type = "work_proposal";
  entity_id = p.id;
  action = "decided";
  before = none;
  after = some (
      entry "action" (Json.text (action_text dto.action)) (
        entry "reason" (opt Json.text dto.reason) (
          entry "task_id" (opt Json.uuid p.task_id) (
            entry "merged_into_id" (opt Json.uuid p.merged_into_id)
              (entry "version" (Json.int p.current_version) empty)))));
})

-- After `create_task` has committed, the request writes in its next transaction.
abbrev pub after_act : Context → Action → Context
after_act ctx Action.create_task = record ctx { xid = ctx.next_xid }
after_act ctx _ = ctx

unfoldable pub decide : Context → ℕ → ℕ → ℕ → WorkProposalDecide → Exec WorkProposal
unfolding Exec.◌>>=◌
decide ctx new_id basis_id proposal_id dto =
    Exec.◌>>=◌ (ask (checked_decision ctx proposal_id dto)) λ p.
      Exec.◌>>=◌ (act ctx new_id basis_id dto p dto.action) λ q.
        Exec.◌>>=◌ (write (save_work_proposal (decided ctx dto q))) λ _.
          Exec.◌>>=◌ (decision_entry (after_act ctx dto.action) dto (decided ctx dto q))
            λ _. Exec.◌>>=◌ commit λ _. Exec.pure (decided ctx dto q)
