-- ===== src/Audit.antt =====
-- The writing half of backend/app/services/audit_service.py, and the snapshots of the modelled rows.
use tasktrack.Prelude.{
  ℕ, String, Bool, false, Option, none, some, List, [], ◌∷◌, ◌++◌, if◌then◌else◌,
}
use tasktrack.Json
use tasktrack.Json.{Json, Dict, empty, entry, opt}
use tasktrack.Model.Enums.{priority_text, category_text, role_text}
use tasktrack.Model.{
  Task, Status, Transition, Workflow, BoardColumn, ProjectTaskTypeConfig, ProjectMember, AuditEvent,
}
use tasktrack.Query.{Context}
use tasktrack.Exec.{Exec, write}

-- The arguments of `record` that name the changed entity.
pub record Entry : Type 0 where
  pub project_id : Option ℕ
  pub task_id : Option ℕ
  pub entity_type : String
  pub entity_id : ℕ
  pub action : String
  pub before : Option Dict
  pub after : Option Dict

abbrev pub event : Context → Entry → AuditEvent
event ctx e = record {
  xid = ctx.xid;
  actor_id = some ctx.user.id;
  project_id = e.project_id;
  task_id = e.task_id;
  session_id = ctx.task_session_id;
  entity_type = e.entity_type;
  entity_id = e.entity_id;
  action = e.action;
  reason = ctx.change_reason;
  before = e.before;
  after = e.after;
}

-- `audit_service.record`
abbrev pub log : Context → Entry → Exec (Unit {0})
log ctx e = write (λ t. record t { audit = t.audit ++ event ctx e ∷ [] })

same : Option Json → Json → Bool
unfolding Json.json_eq
same none w = false
same (some v) w = Json.json_eq v w

-- `[k for k in after if before.get(k) != after[k]]`, with the new values …
changed_after : Dict → Dict → Dict
changed_after before empty = empty
changed_after before (entry k v after) =
    let rest = changed_after before after in
    if same (Json.get k before) v then rest else entry k v rest

-- … and with the old ones.
changed_before : Dict → Dict → Dict
changed_before before empty = empty
changed_before before (entry k v after) =
    let rest = changed_before before after in
    if same (Json.get k before) v
    then rest
    else entry k (elim (Json.get k before) [ none ↦ Json.null | some w ↦ w ]) rest

unfoldable pub diff : Dict → Dict → Dict × Dict
unfolding same changed_before changed_after Json.get
diff before after = (changed_before before after, changed_after before after)

-- `snapshot(task, TASK_FIELDS)`
unfoldable pub task_snapshot : Task → Dict
task_snapshot t = entry "key" (Json.text t.key) (
    entry "title" (Json.text t.title) (
      entry "description" (opt Json.text t.description) (
        entry "priority" (Json.word (priority_text t.priority)) (
          entry "task_type_id" (Json.uuid t.task_type_id) (
            entry "workflow_id" (Json.uuid t.workflow_id) (
              entry "current_status_id" (Json.uuid t.current_status_id) (
                entry "assignee_id" (opt Json.uuid t.assignee_id) (
                  entry "reporter_id" (Json.uuid t.reporter_id) (
                    entry "parent_task_id" (opt Json.uuid t.parent_task_id) (
                      entry "start_date" (opt Json.date t.start_date) (
                        entry "due_date" (opt Json.date t.due_date) (
                          entry "duration_days" (opt Json.int t.duration_days) (
                            entry "meta" (Json.object t.meta) (
                              entry "reviewer_id" (opt Json.uuid t.reviewer_id)
                                (entry "version" (Json.int t.version) empty)))))))))))))))

-- `_snap(wf, _WF)` and the other snapshots of workflow_service.py
unfoldable pub workflow_snapshot : Workflow → Dict
workflow_snapshot w =
    entry "name" (Json.text w.name) (entry "is_default" (Json.bool w.is_default) empty)

unfoldable pub status_snapshot : Status → Dict
status_snapshot s = entry "workflow_id" (Json.uuid s.workflow_id) (
    entry "name" (Json.text s.name) (
      entry "category" (Json.word (category_text s.category)) (
        entry "is_default" (Json.bool s.is_default)
          (entry "position" (Json.int s.position) (entry "color" (opt Json.text s.color) empty)))))

abbrev texts : List String → Json.Items
texts [] = Json.Items.nil
texts (x ∷ xs) = Json.Items.cons (Json.text x) (texts xs)

unfoldable pub transition_snapshot : Transition → Dict
transition_snapshot t = entry "workflow_id" (Json.uuid t.workflow_id) (
    entry "from_status_id" (Json.uuid t.from_status_id) (
      entry "to_status_id" (Json.uuid t.to_status_id) (
        entry "required_role" (opt Json.text t.required_role)
          (entry "required_fields" (Json.array (texts t.required_fields)) empty))))

unfoldable pub column_snapshot : BoardColumn → Dict
column_snapshot c =
    entry "view_id" (Json.uuid c.view_id)
      (entry "name" (Json.text c.name) (entry "position" (Json.int c.position) empty))

unfoldable pub type_config_snapshot : ProjectTaskTypeConfig → Dict
type_config_snapshot c =
    entry "task_type_id" (Json.uuid c.task_type_id)
      (entry "workflow_id" (Json.uuid c.workflow_id) empty)

-- `snapshot(target, ("role", "is_reviewer"))` of result_service.py
unfoldable pub member_snapshot : ProjectMember → Dict
member_snapshot m =
    entry "role" (Json.word (role_text m.role))
      (entry "is_reviewer" (Json.bool m.is_reviewer) empty)
