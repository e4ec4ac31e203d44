-- ===== src/Workflow/Transitions.antt =====
-- `create_transition`, `update_transition` and `delete_transition` of
-- backend/app/services/workflow_service.py.
pub mod Links
pub mod Requests
pub mod Staying
use tasktrack.Prelude.{
  ℕ, String, Bool, true, false, Option, none, some, List, [], ◌∷◌, ◌++◌, not, ◌&&◌, ◌==◌, first,
  select, modify,
}
use tasktrack.Json.{Dict}
use tasktrack.Model.{Workflow, Status, Transition, Tables}
use tasktrack.Query.{
  Context, Query, select_from, or_raise, require, http, transition_not_found,
  status_not_in_workflow, ◌>>=◌, ◌>>◌,
}
use tasktrack.Query
use tasktrack.Exec
use tasktrack.Exec.{Exec, ask, write, commit}
use tasktrack.Audit
use tasktrack.Audit.{transition_snapshot}
use tasktrack.Workflow.{find_status, get_workflow_or_404, require_manager_of, managed_workflow}

pub record TransitionCreate : Type 0 where
  pub from_status_id : ℕ
  pub to_status_id : ℕ
  pub required_role : Option String
  pub required_fields : List String

-- An outer `none` is a field that the request does not set.
pub record TransitionUpdate : Type 0 where
  pub required_role : Option (Option String)
  pub required_fields : Option (Option (List String))

unfoldable pub belongs_to : ℕ → Option Status → Bool
belongs_to workflow_id none = false
belongs_to workflow_id (some s) = s.workflow_id == workflow_id

-- The checks of `create_transition`.
unfoldable pub checked_ends : Context → ℕ → TransitionCreate → Query Workflow
checked_ends ctx workflow_id dto = do
  wf ← managed_workflow ctx workflow_id
  from ← select_from (find_status dto.from_status_id)
  require (belongs_to workflow_id from) (http 400 status_not_in_workflow)
  to ← select_from (find_status dto.to_status_id)
  require (belongs_to workflow_id to) (http 400 status_not_in_workflow)
  Query.pure wf

abbrev transition_entry :
    Context → Workflow → Transition → String → Option Dict → Option Dict → Exec (Unit {0})
transition_entry ctx wf tr action before after = Audit.log ctx (record {
  project_id = wf.project_id;
  task_id = none;
  entity_type = "transition";
  entity_id = tr.id;
  action = action;
  before = before;
  after = after;
})

abbrev pub new_transition : ℕ → ℕ → TransitionCreate → Transition
new_transition new_id workflow_id dto = record {
  id = new_id;
  workflow_id = workflow_id;
  from_status_id = dto.from_status_id;
  to_status_id = dto.to_status_id;
  required_role = dto.required_role;
  required_fields = dto.required_fields;
}

unfoldable pub create_transition : Context → ℕ → ℕ → TransitionCreate → Exec Transition
unfolding Exec.◌>>=◌
create_transition ctx new_id workflow_id dto =
    Exec.◌>>=◌ (ask (checked_ends ctx workflow_id dto)) λ wf.
      let tr = new_transition new_id workflow_id dto in
      Exec.◌>>=◌ (write (λ t. record t { transitions = t.transitions ++ tr ∷ [] })) λ _.
        Exec.◌>>=◌ (transition_entry ctx wf tr "created" none (some (transition_snapshot tr)))
          λ _. Exec.◌>>=◌ commit λ _. Exec.pure tr

-- The transition, its workflow, and a manager of the workflow's project.
unfoldable pub managed_transition : Context → ℕ → Query (Transition × Workflow)
managed_transition ctx transition_id = do
  found ← select_from (λ t. first (λ tr. tr.id == transition_id) t.transitions)
  tr ← or_raise found (http 404 transition_not_found)
  wf ← get_workflow_or_404 tr.workflow_id
  require_manager_of ctx wf.project_id
  Query.pure (tr, wf)

abbrev new_role : Option (Option String) → Option String → Option String
new_role none old = old
new_role (some role) old = role

abbrev new_fields : Option (Option (List String)) → List String → List String
new_fields (some (some fields)) old = fields
new_fields _ old = old

unfoldable pub with_fields : TransitionUpdate → Transition → Transition
with_fields dto tr = record tr {
  required_role = new_role dto.required_role tr.required_role;
  required_fields = new_fields dto.required_fields tr.required_fields;
}

unfoldable pub update_transition : Context → ℕ → TransitionUpdate → Exec Transition
unfolding Exec.◌>>=◌
update_transition ctx transition_id dto =
    Exec.◌>>=◌ (ask (managed_transition ctx transition_id)) λ found.
      let tr' = with_fields dto found.0 in
      let changes = Audit.diff (transition_snapshot found.0) (transition_snapshot tr') in
      Exec.◌>>=◌
        (write
          (λ t. record t { transitions = modify (λ r. r.id == tr'.id) (λ _. tr') t.transitions }))
        λ _.
          Exec.◌>>=◌ (transition_entry ctx found.1 tr' "updated" (some changes.0) (some changes.1))
            λ _. Exec.◌>>=◌ commit λ _. Exec.pure tr'

unfoldable pub delete_transition : Context → ℕ → Exec (Unit {0})
unfolding Exec.◌>>=◌
delete_transition ctx transition_id =
    Exec.◌>>=◌ (ask (managed_transition ctx transition_id)) λ found.
      Exec.◌>>=◌
        (transition_entry ctx found.1 found.0 "deleted" (some (transition_snapshot found.0)) none)
        λ _.
          Exec.◌>>=◌
            (write (λ t. record t {
              transitions = select (λ r. not (r.id == found.0.id)) t.transitions;
            }))
            λ _. commit
