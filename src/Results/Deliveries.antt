-- ===== src/Results/Deliveries.antt =====
-- Deliveries of accepted results and the recipient's acceptance of them
-- (backend/app/services/result_service.py).
pub mod Binding
pub mod Exchanges
pub mod Latest
use tasktrack.Prelude.{
  ℕ, ◌+◌, String, Bool, true, false, Option, none, some, List, [], ◌∷◌, ◌++◌, not, ◌&&◌, ◌||◌, ◌==◌,
  str_eq, ltb, is_some_of, is_some, if◌then◌else◌, first, modify,
}
use tasktrack.Json
use tasktrack.Json.{Json, Dict, entry, empty, opt}
use tasktrack.Model.Enums.{ProjectMemberRole, ProposalStatus, status_eq}
use tasktrack.Model.{Task, ResultProposal, Delivery, RecipientAcceptance, ExternalRevision, Tables}
use tasktrack.Query.{
  Context, Query, http, permission_denied, result_not_accepted, delivery_not_found,
  delivery_not_proposed, fact_not_recipient_acceptance, recipient_acceptance_not_found,
  recipient_acceptance_withdrawn, select_from, or_raise, require, ◌>>=◌, ◌>>◌,
}
use tasktrack.Query
use tasktrack.Exec
use tasktrack.Exec.{Exec, ask, write, commit}
use tasktrack.Permissions.{require_writer, require_manager, has_role}
use tasktrack.Tasks.{get_task, save_task}
use tasktrack.Packages.Bases.{find_object}
use tasktrack.Results.{result_entry}

pub record DeliveryCreate : Type 0 where
  pub target : String
  pub ref : Option String
  pub note : Option String

pub record RecipientAcceptanceCreate : Type 0 where
  pub accepted_by : String
  pub accepted_at : ℕ
  pub source : String
  pub ref : Option String
  pub note : Option String
  pub delivery_id : Option ℕ
  pub recipient : Option String
  pub usage_scope : Option String
  pub authority : Option String
  pub fact_revision_id : Option ℕ

-- The accepted proposal of the task with the highest version.
unfoldable pub latest_accepted : ℕ → List ResultProposal → Option ResultProposal
latest_accepted task_id [] = none
latest_accepted task_id (p ∷ ps) =
    let rest = latest_accepted task_id ps in
    if p.task_id == task_id && status_eq p.status ProposalStatus.accepted
    then elim rest [ none ↦ some p | some q ↦ if ltb p.version q.version then some q else some p ]
    else rest

-- `_current_delivery`: the task's last row.
unfoldable pub last_delivery : ℕ → List Delivery → Option Delivery
last_delivery task_id [] = none
last_delivery task_id (d ∷ ds) = elim (last_delivery task_id ds) [
  | some later ↦ some later
  | none ↦ if d.task_id == task_id then some d else none
]

unfoldable pub checked_delivery : Context → ℕ → Query (Task × ResultProposal)
checked_delivery ctx task_id = do
  task ← get_task ctx task_id
  member ← require_writer ctx task.project_id
  require
      (is_some_of task.assignee_id ctx.user.id || has_role (some member) ProjectMemberRole.manager)
      (http 403 permission_denied)
  accepted ← select_from (λ t. latest_accepted task.id t.proposals)
  proposal ← or_raise accepted (http 409 result_not_accepted)
  Query.pure (task, proposal)

abbrev pub new_delivery : Context → ℕ → Task → ResultProposal → DeliveryCreate → Delivery
new_delivery ctx new_id task accepted dto = record {
  id = new_id;
  task_id = task.id;
  proposal_id = accepted.id;
  work_package_id = accepted.work_package_id;
  target = dto.target;
  recipient_object_id = none;
  ref = dto.ref;
  note = dto.note;
  proposed_by = ctx.user.id;
}

-- `task.delivery`
unfoldable pub delivery_summary : Context → Delivery → ResultProposal → Dict
delivery_summary ctx d accepted = entry "delivery_id" (Json.uuid d.id) (
    entry "proposal_id" (Json.uuid accepted.id) (
      entry "proposal_version" (Json.int accepted.version) (
        entry "work_package_id" (opt Json.uuid accepted.work_package_id) (
          entry "target" (Json.text d.target) (
            entry "ref" (opt Json.text d.ref) (
              entry "note" (opt Json.text d.note) (
                entry "proposed_by" (Json.uuid ctx.user.id)
                  (entry "proposed_at" (Json.date ctx.now) empty))))))))

unfoldable pub delivered : Dict → Task → Task
delivered summary task = record task {
  delivery = some summary;
  recipient_acceptance = none;
  version = task.version + 1;
}

unfoldable pub propose_delivery : Context → ℕ → ℕ → DeliveryCreate → Exec Task
unfolding Exec.◌>>=◌
propose_delivery ctx new_id task_id dto =
    Exec.◌>>=◌ (ask (checked_delivery ctx task_id)) λ (task, accepted).
      let d = new_delivery ctx new_id task accepted dto in
      let summary = delivery_summary ctx d accepted in
      Exec.◌>>=◌ (write (λ t. record t { deliveries = t.deliveries ++ d ∷ [] })) λ _.
        Exec.◌>>=◌ (write (save_task (delivered summary task))) λ _.
          Exec.◌>>=◌
            (result_entry ctx task "delivery" new_id "proposed" task.delivery (some summary))
            λ _. Exec.◌>>=◌ commit λ _. ask (get_task ctx task.id)

unfoldable pub find_delivery : ℕ → Tables → Option Delivery
find_delivery id t = first (λ d. d.id == id) t.deliveries

unfoldable pub find_revision : ℕ → Tables → Option ExternalRevision
find_revision id t = first (λ r. r.id == id) t.revisions

-- The delivery that the request names, or the current one.
unfoldable pub named_delivery : ℕ → Option ℕ → Query Delivery
named_delivery task_id none = do
  current ← select_from (λ t. last_delivery task_id t.deliveries)
  or_raise current (http 409 delivery_not_proposed)
named_delivery task_id (some delivery_id) = do
  found ← select_from (find_delivery delivery_id)
  delivery ← or_raise found (http 404 delivery_not_found)
  require (delivery.task_id == task_id) (http 404 delivery_not_found)
  Query.pure delivery

unfoldable pub check_fact : Option ℕ → Query (Unit {0})
check_fact none = Query.pure tt
check_fact (some revision_id) = do
  known ← select_from (find_revision revision_id)
  fact ← or_raise known (http 422 fact_not_recipient_acceptance)
  found ← select_from (find_object fact.object_id)
  obj ← or_raise found (http 422 fact_not_recipient_acceptance)
  require (str_eq obj.type "recipient_acceptance") (http 422 fact_not_recipient_acceptance)

unfoldable pub checked_acceptance :
    Context → ℕ → RecipientAcceptanceCreate → Query (Task × Delivery)
checked_acceptance ctx task_id dto = do
  task ← get_task ctx task_id
  require_manager ctx task.project_id
  delivery ← named_delivery task.id dto.delivery_id
  check_fact dto.fact_revision_id
  Query.pure (task, delivery)

-- `data.recipient or delivery.target`
abbrev recipient_of : Option String → String → String
recipient_of none target = target
recipient_of (some recipient) target = if str_eq recipient "" then target else recipient

abbrev pub new_acceptance :
    Context → ℕ → Task → Delivery → RecipientAcceptanceCreate → RecipientAcceptance
new_acceptance ctx new_id task d dto = record {
  id = new_id;
  task_id = task.id;
  delivery_id = some d.id;
  proposal_id = some d.proposal_id;
  work_package_id = d.work_package_id;
  recipient = recipient_of dto.recipient d.target;
  usage_scope = dto.usage_scope;
  accepted_by = dto.accepted_by;
  accepted_at = dto.accepted_at;
  authority = dto.authority;
  source = dto.source;
  ref = dto.ref;
  note = dto.note;
  fact_revision_id = dto.fact_revision_id;
  is_withdrawn = false;
  historical = false;
  recorded_by = some ctx.user.id;
  withdrawn_at = none;
  withdrawal_reason = none;
}

-- `after`
unfoldable pub acceptance_summary : Context → RecipientAcceptance → Delivery → Dict
acceptance_summary ctx a d = entry "accepted_by" (Json.text a.accepted_by) (
    entry "accepted_at" (Json.date a.accepted_at) (
      entry "source" (Json.text a.source) (
        entry "ref" (opt Json.text a.ref) (
          entry "note" (opt Json.text a.note) (
            entry "usage_scope" (opt Json.text a.usage_scope) (
              entry "authority" (opt Json.text a.authority) (
                entry "acceptance_id" (Json.uuid a.id) (
                  entry "delivery_id" (Json.uuid d.id) (
                    entry "proposal_id" (Json.uuid d.proposal_id) (
                      entry "recipient" (Json.text a.recipient) (
                        entry "recorded_by" (Json.uuid ctx.user.id)
                          (entry "recorded_at" (Json.date ctx.now) empty))))))))))))

unfoldable pub accepted_by_recipient : Option Dict → Task → Task
accepted_by_recipient acceptance task = record task {
  recipient_acceptance = acceptance;
  version = task.version + 1;
}

abbrev pub is_current : Delivery → Option Delivery → Bool
is_current d none = false
is_current d (some current) = d.id == current.id

unfoldable pub record_recipient_acceptance : Context → ℕ → ℕ → RecipientAcceptanceCreate → Exec Task
unfolding Exec.◌>>=◌ last_delivery
record_recipient_acceptance ctx new_id task_id dto =
    Exec.◌>>=◌ (ask (checked_acceptance ctx task_id dto)) λ (task, d).
      Exec.◌>>=◌ (ask (select_from λ t. last_delivery task.id t.deliveries)) λ current.
        let a = new_acceptance ctx new_id task d dto in
        let after = acceptance_summary ctx a d in
        Exec.◌>>=◌ (write (λ t. record t { acceptances = t.acceptances ++ a ∷ [] })) λ _.
          Exec.◌>>=◌
            (write (λ t.
              if is_current d current
              then save_task (accepted_by_recipient (some after) task) t
              else t))
            λ _.
              Exec.◌>>=◌
                (result_entry ctx task "recipient_acceptance" new_id "recorded" none (some after))
                λ _. Exec.◌>>=◌ commit λ _. ask (get_task ctx task.id)

unfoldable pub find_acceptance : ℕ → Tables → Option RecipientAcceptance
find_acceptance id t = first (λ a. a.id == id) t.acceptances

unfoldable pub checked_withdrawal : Context → ℕ → Query (RecipientAcceptance × Task)
checked_withdrawal ctx acceptance_id = do
  found ← select_from (find_acceptance acceptance_id)
  acceptance ← or_raise found (http 404 recipient_acceptance_not_found)
  task ← get_task ctx acceptance.task_id
  require_manager ctx task.project_id
  require (not acceptance.is_withdrawn) (http 409 recipient_acceptance_withdrawn)
  Query.pure (acceptance, task)

abbrev pub withdrawn_acceptance : Context → String → RecipientAcceptance → RecipientAcceptance
withdrawn_acceptance ctx reason a = record a {
  is_withdrawn = true;
  withdrawn_at = some ctx.now;
  withdrawal_reason = some reason;
}

-- `d.get(k) == str(id)`
unfoldable pub names_id : Option Json → ℕ → Bool
unfolding Json.json_eq
names_id none id = false
names_id (some v) id = Json.json_eq v (Json.uuid id)

unfoldable pub summarizes : Option Dict → ℕ → Bool
unfolding names_id Json.get
summarizes none id = false
summarizes (some d) id = names_id (Json.get "acceptance_id" d) id

unfoldable pub withdraw_recipient_acceptance : Context → ℕ → String → Exec RecipientAcceptance
unfolding Exec.◌>>=◌
withdraw_recipient_acceptance ctx acceptance_id reason =
    Exec.◌>>=◌ (ask (checked_withdrawal ctx acceptance_id)) λ (a, task).
      let gone = withdrawn_acceptance ctx reason a in
      Exec.◌>>=◌
        (write
          (λ t. record t { acceptances = modify (λ r. r.id == a.id) (λ _. gone) t.acceptances }))
        λ _.
          Exec.◌>>=◌
            (write (λ t.
              if summarizes task.recipient_acceptance a.id
              then save_task (accepted_by_recipient none task) t
              else t))
            λ _.
              Exec.◌>>=◌
                (result_entry ctx task "recipient_acceptance" a.id "withdrawn" none
                  (some (entry "reason" (Json.text reason) empty)))
                λ _. Exec.◌>>=◌ commit λ _. Exec.pure gone
