-- ===== src/Tests.antt =====
-- A small project and the operations on it, for the examples in the modules below.
pub mod Moves
pub mod Reviewing
pub mod Working
pub mod Settings
pub mod Flows
pub mod Projects
pub mod Assigning
pub mod Delivering
pub mod Retrying
pub mod Proposing
use tasktrack.Prelude.{ℕ, Option, none, some, List, [], ◌∷◌, true, false}
use tasktrack.Json.{empty}
use tasktrack.Model.Enums.{
  ProjectVisibility, ProjectMemberRole, TaskPriority, StatusCategory, ViewType, ProposalStatus,
  ResultState, SessionRole, SessionState, CriterionStatus,
}
use tasktrack.Model.{
  User, Project, ProjectMember, Workflow, Status, Transition, View, BoardColumn, TaskType, Task,
  PackageCriterion, WorkPackage, ProposalCriterion, ResultProposal, TaskSession, Tables, no_rows,
}
use tasktrack.Query.{Context}
use tasktrack.Exec.{Session}

abbrev pub site : Project
site = record {
  id = 1;
  name = "Site";
  key = "SITE";
  description = none;
  visibility = ProjectVisibility.restricted;
  owner_id = 7;
  is_archived = false;
  deleted_at = none;
  version = 1;
  task_seq = 4;
}

abbrev pub lead : ProjectMember
lead = record { project_id = 1; user_id = 7; role = ProjectMemberRole.manager; is_reviewer = true }

abbrev pub author : ProjectMember
author = record {
  project_id = 1;
  user_id = 8;
  role = ProjectMemberRole.member;
  is_reviewer = false;
}

abbrev pub flow : Workflow
flow = record { id = 2; project_id = some 1; name = "Flow"; is_default = true }

abbrev pub status_of : ℕ → StatusCategory → Status
status_of id category = record {
  id = id;
  workflow_id = 2;
  name = "S";
  category = category;
  is_default = false;
  position = id;
  color = none;
}

abbrev pub todo : Status
todo = record (status_of 20 StatusCategory.initial) { is_default = true }

abbrev pub doing : Status
doing = status_of 21 StatusCategory.intermediate

abbrev pub done : Status
done = status_of 22 StatusCategory.final

abbrev pub begin : Transition
begin = record {
  id = 40;
  workflow_id = 2;
  from_status_id = 20;
  to_status_id = 21;
  required_role = some "member";
  required_fields = [];
}

abbrev pub plain : TaskType
plain = record {
  id = 3;
  project_id = none;
  key = "task";
  name = "Task";
  is_system = true;
  meta_schema = none;
  requires_review = true;
  default_workflow_id = none;
}

abbrev pub page : Task
page = record {
  id = 100;
  project_id = 1;
  workflow_id = 2;
  task_type_id = 3;
  reporter_id = 7;
  assignee_id = some 8;
  parent_task_id = none;
  current_status_id = 20;
  key = "SITE-4";
  title = "Page";
  description = none;
  priority = TaskPriority.medium;
  meta = empty;
  start_date = none;
  due_date = none;
  duration_days = none;
  deleted_at = none;
  version = 5;
  work_package_draft = none;
  work_package_version = some 1;
  reviewer_id = none;
  result_state = ResultState.proposed;
  delivery = none;
  recipient_acceptance = none;
}

abbrev pub assignment : WorkPackage
assignment = record {
  id = 600;
  task_id = 100;
  version = 1;
  content = record {
    goal = some "Readers find the page";
    expected_result = some "A page";
    criteria = record { key = "c1"; text = "It loads"; required = true } ∷ [];
    inputs = [];
    constraints = [];
    specialization = some "web";
    bases = [];
  };
  digest = "d1";
  issued_by = 7;
}

abbrev pub draft : ResultProposal
draft = record {
  id = 500;
  task_id = 100;
  version = 1;
  author_id = 8;
  work_package_id = some 600;
  supersedes_id = none;
  session_id = none;
  status = ProposalStatus.submitted;
  summary = "Done";
  links = [];
  criteria = record { key = "c1"; status = CriterionStatus.met; evidence = none } ∷ [];
  checks = [];
  limitations = none;
  provenance = empty;
}

abbrev pub run : TaskSession
run = record {
  id = 700;
  task_id = 100;
  user_id = 8;
  work_package_id = some 600;
  role = SessionRole.executor;
  state = SessionState.active;
  machine = none;
  workdir = none;
  client = none;
  last_checkpoint_at = none;
  ended_at = none;
  ended_by = none;
  end_reason = none;
  result = none;
}

abbrev user : ℕ → User
user id = record { id = id; is_superuser = false }

abbrev pub world : Tables
world = record no_rows {
  users = user 7 ∷ user 8 ∷ user 9 ∷ [];
  projects = site ∷ [];
  members = lead ∷ author ∷ [];
  workflows = flow ∷ [];
  statuses = todo ∷ doing ∷ done ∷ [];
  transitions = begin ∷ [];
  task_types = plain ∷ [];
  tasks = page ∷ [];
  packages = assignment ∷ [];
  proposals = draft ∷ [];
}

-- The same, with the author at work.
abbrev pub working : Tables
working = record world { sessions = run ∷ [] }

abbrev pub opened : Tables → Session
opened t = record { committed = t; tables = t; bus = [] }

abbrev pub request_of : ℕ → Context
request_of user_id = record {
  user = record { id = user_id; is_superuser = false };
  now = 1000;
  xid = 1;
  next_xid = 2;
  change_reason = none;
  task_session_id = none;
  current_session = none;
  schema_errors = λ schema meta. [];
  digest = λ c. "d";
  not_ready = λ t task. [];
}
