-- ===== src/Model/Enums.antt =====
-- The enumerations of backend/app/models (project.py, task.py, workflow.py, result.py, session.py,
-- notification.py) and the texts by which the source compares some of them.
use tasktrack.Prelude.{String, Bool, true, false}

-- ProjectVisibility
pub data ProjectVisibility : Type 0 where
  public restricted : ProjectVisibility

-- ProjectMemberRole
pub data ProjectMemberRole : Type 0 where
  admin manager member viewer : ProjectMemberRole

pub data TaskPriority : Type 0 where
  low medium high critical : TaskPriority

pub data StatusCategory : Type 0 where
  initial intermediate final : StatusCategory

pub data ViewType : Type 0 where
  kanban backlog epic_tree : ViewType

pub data ProposalStatus : Type 0 where
  submitted accepted changes_requested rejected withdrawn superseded historical : ProposalStatus

pub data ReviewVerdict : Type 0 where
  accepted changes_requested rejected : ReviewVerdict

-- `Task.result_state`; `unpresented` is the text "none".
pub data ResultState : Type 0 where
  unpresented proposed changes_requested accepted rejected historical : ResultState

-- `TaskSession.role` and `.state`
pub data SessionRole : Type 0 where
  executor reviewer : SessionRole

pub data SessionState : Type 0 where
  active completed released : SessionState

pub data CriterionStatus : Type 0 where
  met not_met not_applicable : CriterionStatus

pub data NotificationEventType : Type 0 where
  task_assigned awaiting_decision revision_requested decision_made task_closed :
      NotificationEventType
  decision_reminder review_requested review_completed : NotificationEventType

pub data NotificationEntityType : Type 0 where
  task solution result_proposal : NotificationEntityType

abbrev pub is_initial : StatusCategory → Bool
is_initial initial = true
is_initial _ = false

abbrev pub is_final : StatusCategory → Bool
is_final final = true
is_final _ = false

abbrev pub is_unpresented : ResultState → Bool
is_unpresented unpresented = true
is_unpresented _ = false

abbrev pub is_active : SessionState → Bool
is_active active = true
is_active _ = false

abbrev pub is_executor : SessionRole → Bool
is_executor executor = true
is_executor _ = false

abbrev pub is_restricted : ProjectVisibility → Bool
is_restricted restricted = true
is_restricted _ = false

abbrev pub is_kanban : ViewType → Bool
is_kanban kanban = true
is_kanban _ = false

abbrev pub is_submitted : ProposalStatus → Bool
is_submitted ProposalStatus.submitted = true
is_submitted _ = false

abbrev pub is_accepted_verdict : ReviewVerdict → Bool
is_accepted_verdict ReviewVerdict.accepted = true
is_accepted_verdict _ = false

abbrev pub status_eq : ProposalStatus → ProposalStatus → Bool
status_eq ProposalStatus.submitted ProposalStatus.submitted = true
status_eq ProposalStatus.accepted ProposalStatus.accepted = true
status_eq ProposalStatus.changes_requested ProposalStatus.changes_requested = true
status_eq ProposalStatus.rejected ProposalStatus.rejected = true
status_eq ProposalStatus.withdrawn ProposalStatus.withdrawn = true
status_eq ProposalStatus.superseded ProposalStatus.superseded = true
status_eq ProposalStatus.historical ProposalStatus.historical = true
status_eq _ _ = false

abbrev pub result_state_eq : ResultState → ResultState → Bool
result_state_eq ResultState.unpresented ResultState.unpresented = true
result_state_eq ResultState.proposed ResultState.proposed = true
result_state_eq ResultState.changes_requested ResultState.changes_requested = true
result_state_eq ResultState.accepted ResultState.accepted = true
result_state_eq ResultState.rejected ResultState.rejected = true
result_state_eq ResultState.historical ResultState.historical = true
result_state_eq _ _ = false

-- The texts stored for the members of an enumeration, as an audit event shows them.
abbrev pub priority_text : TaskPriority → String
priority_text low = "low"
priority_text medium = "medium"
priority_text high = "high"
priority_text critical = "critical"

abbrev pub category_text : StatusCategory → String
category_text initial = "initial"
category_text intermediate = "intermediate"
category_text final = "final"

abbrev pub role_text : ProjectMemberRole → String
role_text admin = "admin"
role_text manager = "manager"
role_text member = "member"
role_text viewer = "viewer"

abbrev pub verdict_text : ReviewVerdict → String
verdict_text ReviewVerdict.accepted = "accepted"
verdict_text ReviewVerdict.changes_requested = "changes_requested"
verdict_text ReviewVerdict.rejected = "rejected"
