-- ===== src/Results/Submission.antt =====
-- `submit_proposal` and `withdraw_proposal` of backend/app/services/result_service.py, with
-- `provenance` of backend/app/services/session_service.py.
use Prim.Native.String.{◌++◌ as joined}
use tasktrack.Prelude.{
  ℕ, ◌+◌, String, Bool, true, false, Option, none, some, List, [], ◌∷◌, ◌++◌, not, ◌==◌, leb,
  is_some_of, is_nil, if◌then◌else◌, select, str,
}
use tasktrack.Json
use tasktrack.Json.{Json, Dict, entry, empty, opt}
use tasktrack.Model.Enums.{
  ProposalStatus, NotificationEventType, NotificationEntityType, is_submitted,
}
use tasktrack.Model.{Task, WorkPackage, ResultProposal, ProposalCriterion, TaskSession, Tables}
use tasktrack.Query.{
  Context, Query, http, not_assignee, unknown_criterion, proposal_not_found, permission_denied,
  proposal_not_supersedable, proposal_not_withdrawable, select_from, or_raise, require, ◌>>=◌, ◌>>◌,
}
use tasktrack.Query
use tasktrack.Exec
use tasktrack.Exec.{Exec, ask, write, commit}
use tasktrack.Notifications.{notify}
use tasktrack.Permissions.{require_writer}
use tasktrack.Tasks.{get_task}
use tasktrack.Results.{
  find_proposal, knows, criteria_keys, resolve_package, load_for_update, save_proposal,
  recompute_state, result_entry, get_proposal,
}

pub record ProposalCreate : Type 0 where
  pub summary : String
  pub links : List Json
  pub criteria : List ProposalCriterion
  pub checks : List Json
  pub limitations : Option String
  pub provenance : Dict
  pub work_package_id : Option ℕ
  pub supersedes_id : Option ℕ

-- The work session of the request, where it is on this task.
abbrev pub work_session_on : Task → Option TaskSession → Option TaskSession
work_session_on task none = none
work_session_on task (some w) = if w.task_id == task.id then some w else none

abbrev pinned : Option TaskSession → Option ℕ
pinned none = none
pinned (some w) = w.work_package_id

abbrev chosen_package : Option ℕ → Option TaskSession → Option ℕ
chosen_package none w = pinned w
chosen_package (some id) w = some id

-- The proposal's criteria that the package does not know; without a package any will do.
unfoldable pub unknown_criteria :
    Option (List String) → List ProposalCriterion → List ProposalCriterion
unfolding knows
unknown_criteria none cs = []
unknown_criteria (some known) cs = select (λ c. not (knows known c.key)) cs

abbrev pub is_supersedable : ProposalStatus → Bool
is_supersedable ProposalStatus.submitted = true
is_supersedable ProposalStatus.changes_requested = true
is_supersedable _ = false

-- The proposal that the new one replaces.
unfoldable pub find_previous : Task → Option ℕ → Query (Option ResultProposal)
find_previous task none = Query.pure none
find_previous task (some id) = do
  found ← select_from (find_proposal id)
  previous ← or_raise found (http 400 proposal_not_found)
  require (previous.task_id == task.id) (http 400 proposal_not_found)
  require (is_supersedable previous.status) (http 409 proposal_not_supersedable)
  Query.pure (some previous)

abbrev larger : ℕ → ℕ → ℕ
larger a b = if leb a b then b else a

-- `max(version)` over the task's proposals, 0 where there are none.
unfoldable pub last_version : ℕ → List ResultProposal → ℕ
last_version task_id [] = 0
last_version task_id (p ∷ ps) =
    let rest = last_version task_id ps in
    if p.task_id == task_id then larger p.version rest else rest

-- `{"session": …}` of a work session
abbrev pub session_provenance : TaskSession → Dict
session_provenance w =
    entry "session"
      (Json.object (
        entry "id" (Json.uuid w.id) (
          entry "machine" (opt Json.text w.machine) (
            entry "workdir" (opt Json.text w.workdir) (
              entry "client" (opt Json.text w.client)
                (entry "work_package_id" (opt Json.uuid w.work_package_id) empty))))))
      empty

abbrev with_session : Dict → Option TaskSession → Dict
with_session d none = Json.merge d empty
with_session d (some w) = Json.merge d (session_provenance w)

-- The checks of `submit_proposal`, in its order, down to the new row; they give the task, the
-- package and the proposal to supersede.
unfoldable pub checked_submission :
    Context → ℕ → ProposalCreate → Query (Task × Option WorkPackage × Option ResultProposal)
checked_submission ctx task_id dto = do
  task ← get_task ctx task_id
  require_writer ctx task.project_id
  require (is_some_of task.assignee_id ctx.user.id) (http 403 not_assignee)
  pkg ←
      resolve_package task
        (chosen_package dto.work_package_id (work_session_on task ctx.current_session))
  require (is_nil (unknown_criteria (criteria_keys pkg) dto.criteria)) (http 422 unknown_criterion)
  previous ← find_previous task dto.supersedes_id
  Query.pure (task, pkg, previous)

abbrev id_of_package : Option WorkPackage → Option ℕ
id_of_package none = none
id_of_package (some w) = some w.id

abbrev id_of_proposal : Option ResultProposal → Option ℕ
id_of_proposal none = none
id_of_proposal (some p) = some p.id

abbrev id_of_session : Option TaskSession → Option ℕ
id_of_session none = none
id_of_session (some w) = some w.id

unfoldable pub proposal_of :
    Context
    → ℕ
    → ProposalCreate
    → Task
    → Option WorkPackage
    → Option ResultProposal
    → Tables
    → ResultProposal
unfolding Json.merge
proposal_of ctx new_id dto task pkg previous t = record {
  id = new_id;
  task_id = task.id;
  version = last_version task.id t.proposals + 1;
  author_id = ctx.user.id;
  work_package_id = id_of_package pkg;
  supersedes_id = id_of_proposal previous;
  session_id = id_of_session (work_session_on task ctx.current_session);
  status = ProposalStatus.submitted;
  summary = dto.summary;
  links = dto.links;
  criteria = dto.criteria;
  checks = dto.checks;
  limitations = dto.limitations;
  provenance = with_session dto.provenance (work_session_on task ctx.current_session);
}

-- `previous.status = superseded`
abbrev pub supersede : Option ResultProposal → Tables → Tables
supersede none t = t
supersede (some p) t = save_proposal (record p { status = ProposalStatus.superseded }) t

abbrev pub created_after : ResultProposal → Dict
created_after p = entry "version" (Json.int p.version) (
    entry "work_package_id" (opt Json.uuid p.work_package_id)
      (entry "supersedes_id" (opt Json.uuid p.supersedes_id) empty))

abbrev request_message : Task → ResultProposal → String
request_message task p = joined "Ждёт проверки: " (
    joined task.key
      (joined " — " (joined task.title (joined " (версия " (joined (str p.version) ")")))))

abbrev pub notify_reviewer : Option ℕ → Task → ResultProposal → Tables → Tables
notify_reviewer none task p t = t
notify_reviewer (some reviewer_id) task p t =
    notify reviewer_id NotificationEventType.review_requested NotificationEntityType.result_proposal
      p.id (some task.id) (request_message task p) t

unfoldable pub submit_proposal : Context → ℕ → ℕ → ProposalCreate → Exec ResultProposal
unfolding Exec.◌>>=◌
submit_proposal ctx new_id task_id dto =
    Exec.◌>>=◌ (ask (checked_submission ctx task_id dto)) λ found.
      let task = found.0 in
      let previous = found.2 in
      Exec.◌>>=◌ (ask (select_from (proposal_of ctx new_id dto task found.1 previous))) λ p.
        Exec.◌>>=◌ (write (λ t. record t { proposals = t.proposals ++ p ∷ [] })) λ _.
          Exec.◌>>=◌ (write (supersede previous)) λ _.
            Exec.◌>>=◌
              (result_entry ctx task "result_proposal" p.id "created" none (some (created_after p)))
              λ _. Exec.◌>>=◌ (write (recompute_state task)) λ _.
                Exec.◌>>=◌ (write (notify_reviewer task.reviewer_id task p))
                  λ _. Exec.◌>>=◌ commit λ _. ask (get_proposal ctx p.id)

-- The checks of `withdraw_proposal`.
unfoldable pub checked_withdrawal : Context → ℕ → Query (ResultProposal × Task)
checked_withdrawal ctx proposal_id = do
  (proposal, task) ← load_for_update ctx proposal_id
  require (proposal.author_id == ctx.user.id) (http 403 permission_denied)
  require (is_submitted proposal.status) (http 409 proposal_not_withdrawable)
  Query.pure (proposal, task)

abbrev status_entry : String → Dict
status_entry status = entry "status" (Json.text status) empty

abbrev pub withdrawn : ResultProposal → ResultProposal
withdrawn p = record p { status = ProposalStatus.withdrawn }

unfoldable pub withdraw_proposal : Context → ℕ → Exec ResultProposal
unfolding Exec.◌>>=◌
withdraw_proposal ctx proposal_id = Exec.◌>>=◌ (ask (checked_withdrawal ctx proposal_id)) λ found.
    let p = found.0 in
    let task = found.1 in
    Exec.◌>>=◌ (write (save_proposal (withdrawn p))) λ _.
      Exec.◌>>=◌
        (result_entry ctx task "result_proposal" p.id "withdrawn" (some (status_entry "submitted"))
          (some (status_entry "withdrawn")))
        λ _.
          Exec.◌>>=◌ (write (recompute_state task))
            λ _. Exec.◌>>=◌ commit λ _. ask (get_proposal ctx p.id)
