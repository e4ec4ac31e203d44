-- ===== src/Results.antt =====
-- backend/app/services/result_service.py, proposals and reviews: what the operations look up and the
-- state that they derive. The operations stand in the modules below.
pub mod Submission
pub mod Reviews
pub mod Derived
pub mod Lifecycle
pub mod States
pub mod Superseding
pub mod Versions
pub mod Requests
pub mod Acceptance
pub mod Deliveries
use tasktrack.Prelude.{
  ℕ, ◌+◌, String, Bool, true, false, Option, none, some, List, [], ◌∷◌, ◌++◌, not, ◌&&◌, ◌||◌, ◌==◌,
  str_eq, is_some_of, is_nil, if◌then◌else◌, first, select, modify, any, collect,
}
use tasktrack.Json
use tasktrack.Json.{Dict, entry, empty}
use tasktrack.Model.Enums.{ProposalStatus, ResultState, status_eq, result_state_eq}
use tasktrack.Model.{
  Task, WorkPackage, PackageCriterion, ResultProposal, ProposalCriterion, TaskSession,
  ProjectMember, Tables,
}
use tasktrack.Query.{
  Context, Query, http, work_package_not_found, proposal_not_found, self_review, not_reviewer,
  not_designated_reviewer, pure, select_from, or_raise, require, ◌>>=◌, ◌>>◌,
}
use tasktrack.Exec.{Exec}
use tasktrack.Audit
use tasktrack.Permissions.{require_writer}
use tasktrack.Tasks.{get_task, save_task}

unfoldable pub find_proposal : ℕ → Tables → Option ResultProposal
find_proposal id t = first (λ p. p.id == id) t.proposals

unfoldable pub find_package : ℕ → Tables → Option WorkPackage
find_package id t = first (λ w. w.id == id) t.packages

-- `key in known`
unfoldable pub knows : List String → String → Bool
knows keys key = any (λ k. str_eq k key) keys

-- `_LIVE`
abbrev pub is_live : ProposalStatus → Bool
is_live ProposalStatus.withdrawn = false
is_live ProposalStatus.superseded = false
is_live _ = true

-- `candidate in statuses`
unfoldable pub has_live : ProposalStatus → ℕ → List ResultProposal → Bool
has_live candidate task_id =
    any (λ p. p.task_id == task_id && (is_live p.status && status_eq p.status candidate))

-- The loop of `_recompute_state`.
unfoldable pub derived_state : ℕ → List ResultProposal → ResultState
unfolding has_live
derived_state task_id proposals =
    if has_live ProposalStatus.accepted task_id proposals
    then ResultState.accepted
    else if has_live ProposalStatus.submitted task_id proposals
    then ResultState.proposed
    else if has_live ProposalStatus.changes_requested task_id proposals
    then ResultState.changes_requested
    else if has_live ProposalStatus.rejected task_id proposals
    then ResultState.rejected
    else if has_live ProposalStatus.historical task_id proposals
    then ResultState.historical
    else ResultState.unpresented

abbrev pub with_state : ResultState → Task → Task
with_state new task =
    if result_state_eq task.result_state new
    then task
    else record task { result_state = new; version = task.version + 1 }

-- `_recompute_state`
unfoldable pub recompute_state : Task → Tables → Tables
recompute_state task t = save_task (with_state (derived_state task.id t.proposals) task) t

abbrev of_task : Task → Option WorkPackage → Bool
of_task task none = false
of_task task (some pkg) = pkg.task_id == task.id

abbrev current_package : Task → Option ℕ → Tables → Option WorkPackage
current_package task none t = none
current_package task (some version) t =
    first (λ w. w.task_id == task.id && w.version == version) t.packages

-- `_resolve_package`
unfoldable pub resolve_package : Task → Option ℕ → Query (Option WorkPackage)
resolve_package task none = select_from (current_package task task.work_package_version)
resolve_package task (some package_id) = do
  pkg ← select_from (find_package package_id)
  require (of_task task pkg) (http 400 work_package_not_found)
  pure pkg

abbrev pub keys_of : List PackageCriterion → List String
keys_of cs = collect (λ c. c.key) cs

-- `_criteria_keys`
abbrev pub criteria_keys : Option WorkPackage → Option (List String)
criteria_keys none = none
criteria_keys (some pkg) = some (keys_of pkg.content.criteria)

-- `_required_keys`
unfoldable pub required_keys : Option WorkPackage → ResultProposal → List String
required_keys (some pkg) proposal = keys_of (select (λ c. c.required) pkg.content.criteria)
required_keys none proposal = collect (λ c. c.key) proposal.criteria

unfoldable pub save_proposal : ResultProposal → Tables → Tables
save_proposal p t = record t { proposals = modify (λ r. r.id == p.id) (λ _. p) t.proposals }

-- `_load_for_update`
unfoldable pub load_for_update : Context → ℕ → Query (ResultProposal × Task)
load_for_update ctx proposal_id = do
  found ← select_from (find_proposal proposal_id)
  proposal ← or_raise found (http 404 proposal_not_found)
  task ← get_task ctx proposal.task_id
  pure (proposal, task)

-- A designated reviewer, if set, is the only one who may review.
abbrev pub designates : Option ℕ → ℕ → Bool
designates none user_id = true
designates (some reviewer_id) user_id = reviewer_id == user_id

-- `_require_reviewer`
unfoldable pub require_reviewer : Context → Task → ResultProposal → Query (Unit {0})
require_reviewer ctx task proposal = do
  member ← require_writer ctx task.project_id
  require (not (proposal.author_id == ctx.user.id || is_some_of task.assignee_id ctx.user.id))
      (http 403 self_review)
  require member.is_reviewer (http 403 not_reviewer)
  require (designates task.reviewer_id ctx.user.id) (http 403 not_designated_reviewer)

-- `_audit`
abbrev pub result_entry :
    Context → Task → String → ℕ → String → Option Dict → Option Dict → Exec (Unit {0})
result_entry ctx task entity_type entity_id action before after = Audit.log ctx (record {
  project_id = some task.project_id;
  task_id = some task.id;
  entity_type = entity_type;
  entity_id = entity_id;
  action = action;
  before = before;
  after = after;
})

-- `get_proposal`
unfoldable pub get_proposal : Context → ℕ → Query ResultProposal
get_proposal ctx proposal_id = do
  found ← select_from (find_proposal proposal_id)
  proposal ← or_raise found (http 404 proposal_not_found)
  get_task ctx proposal.task_id
  pure proposal
