-- ===== src/Model.antt =====
-- backend/app/models: a record for the rows of each table and one for the database.
-- A UUID, a time and a date are numbers. `created_at`, `updated_at` and the columns that only the
-- database reads (`search_vector`) are left out; rows stand in the order in which they were added.
pub mod Enums
use tasktrack.Prelude.{ℕ, String, Bool, Option, List, []}
use tasktrack.Json.{Json, Dict}
use Enums.{
  ProjectVisibility, ProjectMemberRole, TaskPriority, StatusCategory, ViewType, ProposalStatus,
  ReviewVerdict, ResultState, SessionRole, SessionState, CriterionStatus, NotificationEventType,
  NotificationEntityType,
}

pub record User : Type 0 where
  pub id : ℕ
  pub is_superuser : Bool

pub record Project : Type 0 where
  pub id : ℕ
  pub name : String
  pub key : String
  pub description : Option String
  pub visibility : ProjectVisibility
  pub owner_id : ℕ
  pub is_archived : Bool
  pub deleted_at : Option ℕ
  pub version : ℕ
  pub task_seq : ℕ

pub record ProjectMember : Type 0 where
  pub project_id : ℕ
  pub user_id : ℕ
  pub role : ProjectMemberRole
  pub is_reviewer : Bool

pub record Workflow : Type 0 where
  pub id : ℕ
  pub project_id : Option ℕ
  pub name : String
  pub is_default : Bool

pub record Status : Type 0 where
  pub id : ℕ
  pub workflow_id : ℕ
  pub name : String
  pub category : StatusCategory
  pub is_default : Bool
  pub position : ℕ
  pub color : Option String

pub record Transition : Type 0 where
  pub id : ℕ
  pub workflow_id : ℕ
  pub from_status_id : ℕ
  pub to_status_id : ℕ
  pub required_role : Option String
  pub required_fields : List String

pub record ProjectTaskTypeConfig : Type 0 where
  pub id : ℕ
  pub project_id : ℕ
  pub task_type_id : ℕ
  pub workflow_id : ℕ

pub record View : Type 0 where
  pub id : ℕ
  pub project_id : ℕ
  pub name : String
  pub type : ViewType
  pub position : ℕ
  pub is_default : Bool

pub record BoardColumn : Type 0 where
  pub id : ℕ
  pub view_id : ℕ
  pub name : String
  pub position : ℕ

pub record BoardColumnStatus : Type 0 where
  pub board_column_id : ℕ
  pub status_id : ℕ

pub record TaskType : Type 0 where
  pub id : ℕ
  pub project_id : Option ℕ
  pub key : String
  pub name : String
  pub is_system : Bool
  pub meta_schema : Option Dict
  pub requires_review : Bool
  pub default_workflow_id : Option ℕ

-- An item of `WorkPackageContent.criteria`: the key is assigned on issue where it is omitted.
pub record Criterion : Type 0 where
  pub key : Option String
  pub text : String
  pub required : Bool

pub record PackageInput : Type 0 where
  pub kind : String
  pub ref : String
  pub version : Option String
  pub note : Option String

-- The draft of an assignment.
pub record WorkPackageContent : Type 0 where
  pub goal : Option String
  pub expected_result : Option String
  pub criteria : List Criterion
  pub inputs : List PackageInput
  pub constraints : List String
  pub specialization : Option String

pub record Task : Type 0 where
  pub id : ℕ
  pub project_id : ℕ
  pub workflow_id : ℕ
  pub task_type_id : ℕ
  pub reporter_id : ℕ
  pub assignee_id : Option ℕ
  pub parent_task_id : Option ℕ
  pub current_status_id : ℕ
  pub key : String
  pub title : String
  pub description : Option String
  pub priority : TaskPriority
  pub meta : Dict
  pub start_date : Option ℕ
  pub due_date : Option ℕ
  pub duration_days : Option ℕ
  pub deleted_at : Option ℕ
  pub version : ℕ
  pub work_package_draft : Option WorkPackageContent
  pub work_package_version : Option ℕ
  pub reviewer_id : Option ℕ
  pub result_state : ResultState
  pub delivery : Option Dict
  pub recipient_acceptance : Option Dict

-- An item of `WorkPackage.content["criteria"]`.
pub record PackageCriterion : Type 0 where
  pub key : String
  pub text : String
  pub required : Bool

-- An item of `WorkPackage.content["bases"]`.
pub record PinnedBasis : Type 0 where
  pub provider : String
  pub namespace : String
  pub type : String
  pub id : String
  pub revision : String
  pub role : String
  pub meaning : Option String
  pub freshness : String

-- `WorkPackage.content`; the entry "bases" is absent where there are none.
pub record PackageContent : Type 0 where
  pub goal : Option String
  pub expected_result : Option String
  pub criteria : List PackageCriterion
  pub inputs : List PackageInput
  pub constraints : List String
  pub specialization : Option String
  pub bases : List PinnedBasis

pub record WorkPackage : Type 0 where
  pub id : ℕ
  pub task_id : ℕ
  pub version : ℕ
  pub content : PackageContent
  pub digest : String
  pub issued_by : ℕ

pub record ExternalProvider : Type 0 where
  pub id : ℕ
  pub key : String

pub record ExternalObject : Type 0 where
  pub id : ℕ
  pub provider_id : ℕ
  pub namespace : String
  pub type : String
  pub ext_id : String

pub record ExternalRevision : Type 0 where
  pub id : ℕ
  pub object_id : ℕ
  pub revision : String

pub record TaskBasis : Type 0 where
  pub id : ℕ
  pub task_id : ℕ
  pub object_id : ℕ
  pub revision : String
  pub role : String
  pub meaning : Option String
  pub freshness : String
  pub created_by : ℕ

-- `WorkProposal.status`; `undecided` is "open".
pub data WorkProposalState : Type 0 where
  undecided converted linked merged deferred rejected : WorkProposalState

pub record WorkProposal : Type 0 where
  pub id : ℕ
  pub project_id : ℕ
  pub stage : String
  pub work_kind : String
  pub basis_object_id : ℕ
  pub work_scope_key : String
  pub state : WorkProposalState
  pub task_id : Option ℕ
  pub merged_into_id : Option ℕ
  pub decision_reason : Option String
  pub decided_by : Option ℕ
  pub decided_at : Option ℕ
  pub current_version : ℕ
  pub updated_since_decision : Bool

pub record WorkProposalVersion : Type 0 where
  pub id : ℕ
  pub proposal_id : ℕ
  pub version : ℕ
  pub basis_revision : String
  pub verification_plan_object_id : Option ℕ
  pub verification_plan_revision : Option String
  pub expected_output : String
  pub result_scope : Option String
  pub reason : String
  pub registered_by : ℕ

pub record Delivery : Type 0 where
  pub id : ℕ
  pub task_id : ℕ
  pub proposal_id : ℕ
  pub work_package_id : Option ℕ
  pub target : String
  pub recipient_object_id : Option ℕ
  pub ref : Option String
  pub note : Option String
  pub proposed_by : ℕ

-- `is_withdrawn` tells the status "withdrawn" from "accepted".
pub record RecipientAcceptance : Type 0 where
  pub id : ℕ
  pub task_id : ℕ
  pub delivery_id : Option ℕ
  pub proposal_id : Option ℕ
  pub work_package_id : Option ℕ
  pub recipient : String
  pub usage_scope : Option String
  pub accepted_by : String
  pub accepted_at : ℕ
  pub authority : Option String
  pub source : String
  pub ref : Option String
  pub note : Option String
  pub fact_revision_id : Option ℕ
  pub is_withdrawn : Bool
  pub historical : Bool
  pub recorded_by : Option ℕ
  pub withdrawn_at : Option ℕ
  pub withdrawal_reason : Option String

-- An item of `ResultProposal.criteria`.
pub record ProposalCriterion : Type 0 where
  pub key : String
  pub status : CriterionStatus
  pub evidence : Option String

pub record ResultProposal : Type 0 where
  pub id : ℕ
  pub task_id : ℕ
  pub version : ℕ
  pub author_id : ℕ
  pub work_package_id : Option ℕ
  pub supersedes_id : Option ℕ
  pub session_id : Option ℕ
  pub status : ProposalStatus
  pub summary : String
  pub links : List Json
  pub criteria : List ProposalCriterion
  pub checks : List Json
  pub limitations : Option String
  pub provenance : Dict

-- An item of `Review.criteria`; `is_met` tells "met" from "not_met".
pub record ReviewCriterion : Type 0 where
  pub key : String
  pub is_met : Bool
  pub note : Option String

pub record Review : Type 0 where
  pub id : ℕ
  pub proposal_id : ℕ
  pub reviewer_id : ℕ
  pub verdict : ReviewVerdict
  pub criteria : List ReviewCriterion
  pub rationale : String

pub record TaskSession : Type 0 where
  pub id : ℕ
  pub task_id : ℕ
  pub user_id : ℕ
  pub work_package_id : Option ℕ
  pub role : SessionRole
  pub state : SessionState
  pub machine : Option String
  pub workdir : Option String
  pub client : Option String
  pub last_checkpoint_at : Option ℕ
  pub ended_at : Option ℕ
  pub ended_by : Option ℕ
  pub end_reason : Option String
  pub result : Option String

pub record SessionCheckpoint : Type 0 where
  pub id : ℕ
  pub session_id : ℕ
  pub note : String
  pub payload : Dict  -- `data`

pub record Notification : Type 0 where
  pub recipient_id : ℕ
  pub event_type : NotificationEventType
  pub entity_type : NotificationEntityType
  pub entity_id : ℕ
  pub task_id : Option ℕ
  pub message : String
  pub is_read : Bool

pub record AuditEvent : Type 0 where
  pub xid : ℕ
  pub actor_id : Option ℕ
  pub project_id : Option ℕ
  pub task_id : Option ℕ
  pub session_id : Option ℕ
  pub entity_type : String
  pub entity_id : ℕ
  pub action : String
  pub reason : Option String
  pub before : Option Dict
  pub after : Option Dict

-- The response of a command, which `complete` stores with the time.
pub record Response : Type 0 where
  pub status_code : ℕ
  pub body : String
  pub media_type : Option String

pub record Outcome : Type 0 where
  pub completed_at : ℕ
  pub response : Response

-- A row without an outcome has `completed_at` and the response's columns `NULL`.
pub record IdempotencyKey : Type 0 where
  pub user_id : ℕ
  pub key : String
  pub request_hash : String
  pub xid : ℕ
  pub created_at : ℕ
  pub outcome : Option Outcome
  pub project_ids : List ℕ
  pub system : Bool

pub record Tables : Type 0 where
  pub users : List User
  pub projects : List Project
  pub members : List ProjectMember
  pub workflows : List Workflow
  pub statuses : List Status
  pub transitions : List Transition
  pub type_configs : List ProjectTaskTypeConfig
  pub views : List View
  pub columns : List BoardColumn
  pub column_statuses : List BoardColumnStatus
  pub task_types : List TaskType
  pub tasks : List Task
  pub packages : List WorkPackage
  pub proposals : List ResultProposal
  pub reviews : List Review
  pub sessions : List TaskSession
  pub checkpoints : List SessionCheckpoint
  pub notifications : List Notification
  pub providers : List ExternalProvider
  pub objects : List ExternalObject
  pub revisions : List ExternalRevision
  pub bases : List TaskBasis
  pub work_proposals : List WorkProposal
  pub work_proposal_versions : List WorkProposalVersion
  pub deliveries : List Delivery
  pub acceptances : List RecipientAcceptance
  pub keys : List IdempotencyKey
  pub audit : List AuditEvent

abbrev pub no_rows : Tables
no_rows = record {
  users = [];
  projects = [];
  members = [];
  workflows = [];
  statuses = [];
  transitions = [];
  type_configs = [];
  views = [];
  columns = [];
  column_statuses = [];
  task_types = [];
  tasks = [];
  packages = [];
  proposals = [];
  reviews = [];
  sessions = [];
  checkpoints = [];
  notifications = [];
  providers = [];
  objects = [];
  revisions = [];
  bases = [];
  work_proposals = [];
  work_proposal_versions = [];
  deliveries = [];
  acceptances = [];
  keys = [];
  audit = [];
}
