-- ===== src/Projects.antt =====
-- backend/app/services/project_service.py: projects and their members (`get_project` stands in
-- Permissions).
pub mod Members
pub mod Opening
use tasktrack.Prelude.{
  ℕ, ◌+◌, String, Bool, true, false, Option, none, some, List, [], ◌∷◌, ◌++◌, not, ◌&&◌, ◌||◌, ◌==◌,
  str_eq, is_some, first, select, modify, any,
}
use tasktrack.Json.{Json, Dict, entry, empty, opt}
use tasktrack.Model.Enums.{
  ProjectVisibility, ProjectMemberRole, StatusCategory, ViewType, role_text,
}
use tasktrack.Model.{Project, ProjectMember, Workflow, Status, Transition, View, Tables}
use tasktrack.Query.{
  integrity_error, Context, Query, http, permission_denied, duplicate_project_key,
  project_version_conflict, project_member_already_exists, project_member_not_found, select_from,
  or_raise, require, ◌>>=◌, ◌>>◌,
}
use tasktrack.Query
use tasktrack.References.{is_user}
use tasktrack.Exec
use tasktrack.Exec.{Exec, ask, write, commit}
use tasktrack.Audit
use tasktrack.Permissions.{find_member, get_member, get_project}

pub record ProjectCreate : Type 0 where
  pub name : String
  pub key : String
  pub description : Option String
  pub visibility : ProjectVisibility

pub record ProjectUpdate : Type 0 where
  pub name : Option String
  pub description : Option String
  pub visibility : Option ProjectVisibility
  pub version : ℕ

pub record ProjectMemberAdd : Type 0 where
  pub user_id : ℕ
  pub role : ProjectMemberRole

-- The primary keys of the rows that `create_project` adds.
pub record NewIds : Type 0 where
  pub project : ℕ
  pub workflow : ℕ
  pub todo : ℕ
  pub inprog : ℕ
  pub review : ℕ
  pub done : ℕ
  pub begins : ℕ
  pub hands_in : ℕ
  pub ends : ℕ
  pub skips : ℕ
  pub resets : ℕ
  pub returns : ℕ
  pub board : ℕ
  pub backlog : ℕ

abbrev visibility_text : ProjectVisibility → String
visibility_text ProjectVisibility.public = "public"
visibility_text ProjectVisibility.restricted = "restricted"

-- `_PROJECT_FIELDS`
unfoldable pub project_snapshot : Project → Dict
project_snapshot p = entry "name" (Json.text p.name) (
    entry "description" (opt Json.text p.description) (
      entry "visibility" (Json.word (visibility_text p.visibility))
        (entry "version" (Json.int p.version) empty)))

-- `_MEMBER_FIELDS`
unfoldable pub membership_snapshot : ProjectMember → Dict
membership_snapshot m =
    entry "user_id" (Json.uuid m.user_id) (entry "role" (Json.word (role_text m.role)) empty)

-- `_audit`
abbrev project_entry :
    Context → ℕ → String → ℕ → String → Option Dict → Option Dict → Exec (Unit {0})
project_entry ctx project_id entity_type entity_id action before after = Audit.log ctx (record {
  project_id = some project_id;
  task_id = none;
  entity_type = entity_type;
  entity_id = entity_id;
  action = action;
  before = before;
  after = after;
})

abbrev pub new_project : Context → NewIds → ProjectCreate → Project
new_project ctx ids dto = record {
  id = ids.project;
  name = dto.name;
  key = dto.key;
  description = dto.description;
  visibility = dto.visibility;
  owner_id = ctx.user.id;
  is_archived = false;
  deleted_at = none;
  version = 1;
  task_seq = 0;
}

abbrev pub owner : Context → NewIds → ProjectMember
owner ctx ids = record {
  project_id = ids.project;
  user_id = ctx.user.id;
  role = ProjectMemberRole.admin;
  is_reviewer = false;
}

abbrev pub basic : NewIds → Workflow
basic ids = record {
  id = ids.workflow;
  project_id = some ids.project;
  name = "Basic";
  is_default = true;
}

abbrev status_row : ℕ → ℕ → String → StatusCategory → Bool → ℕ → Status
status_row workflow_id id name category is_default position = record {
  id = id;
  workflow_id = workflow_id;
  name = name;
  category = category;
  is_default = is_default;
  position = position;
  color = none;
}

abbrev pub todo : NewIds → Status
todo ids = status_row ids.workflow ids.todo "To Do" StatusCategory.initial true 0

abbrev pub basic_statuses : NewIds → List Status
basic_statuses ids =
    todo ids
    ∷ status_row ids.workflow ids.inprog "In Progress" StatusCategory.intermediate false 1
    ∷ status_row ids.workflow ids.review "Review" StatusCategory.intermediate false 2
    ∷ status_row ids.workflow ids.done "Done" StatusCategory.final false 3
    ∷ []

abbrev transition_row : ℕ → ℕ → ℕ → ℕ → Transition
transition_row workflow_id id from to = record {
  id = id;
  workflow_id = workflow_id;
  from_status_id = from;
  to_status_id = to;
  required_role = none;
  required_fields = [];
}

abbrev pub basic_transitions : NewIds → List Transition
basic_transitions ids =
    transition_row ids.workflow ids.begins ids.todo ids.inprog
    ∷ transition_row ids.workflow ids.hands_in ids.inprog ids.review
    ∷ transition_row ids.workflow ids.ends ids.review ids.done
    ∷ transition_row ids.workflow ids.skips ids.todo ids.done
    ∷ transition_row ids.workflow ids.resets ids.inprog ids.todo
    ∷ transition_row ids.workflow ids.returns ids.review ids.inprog
    ∷ []

abbrev view_row : NewIds → ℕ → String → ViewType → ℕ → Bool → View
view_row ids id name type position is_default = record {
  id = id;
  project_id = ids.project;
  name = name;
  type = type;
  position = position;
  is_default = is_default;
}

abbrev pub basic_views : NewIds → List View
basic_views ids =
    view_row ids ids.board "Board" ViewType.kanban 0 true
    ∷ view_row ids ids.backlog "Backlog" ViewType.backlog 1 false
    ∷ []

-- The unique index on `projects.key`.
unfoldable pub is_taken : String → Tables → Bool
is_taken key t = any (λ p. str_eq p.key key) t.projects

abbrev creation_after : Context → Project → Dict
creation_after ctx p = entry "key" (Json.text p.key) (
    entry "name" (Json.text p.name) (
      entry "description" (opt Json.text p.description) (
        entry "visibility" (Json.word (visibility_text p.visibility))
          (entry "version" (Json.int p.version) (entry "owner_id" (Json.uuid ctx.user.id) empty)))))

-- The rows of a new project.
unfoldable pub open_project : Context → NewIds → ProjectCreate → Tables → Tables
open_project ctx ids dto t = record t {
  projects = t.projects ++ new_project ctx ids dto ∷ [];
  members = t.members ++ owner ctx ids ∷ [];
  workflows = t.workflows ++ basic ids ∷ [];
  statuses = t.statuses ++ basic_statuses ids;
  transitions = t.transitions ++ basic_transitions ids;
  views = t.views ++ basic_views ids;
}

-- A key that is taken makes the first flush fail, and the transaction is rolled back.
unfoldable pub create_project : Context → NewIds → ProjectCreate → Exec Project
unfolding Exec.◌>>=◌ is_taken
create_project ctx ids dto s = elim (is_taken dto.key s.tables) [
  | true ↦ Exec.raise (http 409 duplicate_project_key) (record s { tables = s.committed })
  | false ↦
      Exec.◌>>=◌ (write (open_project ctx ids dto))
        (λ _.
          Exec.◌>>=◌
            (project_entry ctx ids.project "project" ids.project "created" none
              (some (creation_after ctx (new_project ctx ids dto))))
            λ _. Exec.◌>>=◌ commit λ _. Exec.pure (new_project ctx ids dto))
        s
]

abbrev is_manager : Option ProjectMember → Bool
is_manager none = false
is_manager (some m) = elim m.role [
  | ProjectMemberRole.admin ↦ true
  | ProjectMemberRole.manager ↦ true
  | _ ↦ false
]

abbrev is_admin : Option ProjectMember → Bool
is_admin none = false
is_admin (some m) = elim m.role [ ProjectMemberRole.admin ↦ true | _ ↦ false ]

-- A project that the user reads and, by the test on the membership, may change.
unfoldable pub project_for : (Option ProjectMember → Bool) → Context → ℕ → Query Project
project_for may ctx project_id = do
  project ← get_project ctx project_id
  member ← get_member project_id ctx.user.id
  require (may member) (http 403 permission_denied)
  Query.pure project

unfoldable pub save_project : Project → Tables → Tables
save_project p t = record t { projects = modify (λ r. r.id == p.id) (λ _. p) t.projects }

unfoldable pub checked_project : Context → ℕ → ProjectUpdate → Query Project
checked_project ctx project_id dto = do
  project ← project_for is_manager ctx project_id
  require (dto.version == project.version) (http 409 project_version_conflict)
  Query.pure project

abbrev or_old {ℓ} : {A : Type ℓ} → Option A → A → A
or_old none old = old
or_old (some new) old = new

unfoldable pub updated : ProjectUpdate → Project → Project
updated dto p = record p {
  name = or_old dto.name p.name;
  description = elim dto.description [ none ↦ p.description | some d ↦ some d ];
  visibility = or_old dto.visibility p.visibility;
  version = p.version + 1;
}

unfoldable pub update_project : Context → ℕ → ProjectUpdate → Exec Project
unfolding Exec.◌>>=◌
update_project ctx project_id dto = Exec.◌>>=◌ (ask (checked_project ctx project_id dto)) λ p.
    let changes = Audit.diff (project_snapshot p) (project_snapshot (updated dto p)) in
    Exec.◌>>=◌ (write (save_project (updated dto p))) λ _.
      Exec.◌>>=◌ (project_entry ctx p.id "project" p.id "updated" (some changes.0) (some changes.1))
        λ _. Exec.◌>>=◌ commit λ _. Exec.pure (updated dto p)

abbrev archived_entry : Bool → Dict
archived_entry b = entry "is_archived" (Json.bool b) empty

unfoldable pub archive_project : Context → ℕ → Exec Project
unfolding Exec.◌>>=◌
archive_project ctx project_id = Exec.◌>>=◌ (ask (project_for is_admin ctx project_id)) λ p.
    Exec.◌>>=◌ (write (save_project (record p { is_archived = true }))) λ _.
      Exec.◌>>=◌
        (project_entry ctx p.id "project" p.id "archived" (some (archived_entry false))
          (some (archived_entry true)))
        λ _. Exec.◌>>=◌ commit λ _. Exec.pure (record p { is_archived = true })

abbrev pub new_member : ℕ → ProjectMemberAdd → ProjectMember
new_member project_id dto = record {
  project_id = project_id;
  user_id = dto.user_id;
  role = dto.role;
  is_reviewer = false;
}

-- The checks of `add_member`, with the foreign key of the new row.
unfoldable pub checked_addition : Context → ℕ → ProjectMemberAdd → Query (Unit {0})
checked_addition ctx project_id dto = do
  project_for is_manager ctx project_id
  present ← get_member project_id dto.user_id
  require (not (is_some present)) (http 409 project_member_already_exists)
  known ← select_from (is_user dto.user_id)
  require known integrity_error

unfoldable pub add_member : Context → ℕ → ProjectMemberAdd → Exec ProjectMember
unfolding Exec.◌>>=◌
add_member ctx project_id dto = Exec.◌>>=◌ (ask (checked_addition ctx project_id dto)) λ _.
    let m = new_member project_id dto in
    Exec.◌>>=◌ (write (λ t. record t { members = t.members ++ m ∷ [] })) λ _.
      Exec.◌>>=◌
        (project_entry ctx project_id "project_member" dto.user_id "created" none
          (some (membership_snapshot m)))
        λ _. Exec.◌>>=◌ commit λ _. Exec.pure m

unfoldable pub checked_removal : Context → ℕ → ℕ → Query ProjectMember
checked_removal ctx project_id user_id = do
  project_for is_manager ctx project_id
  target ← get_member project_id user_id
  or_raise target (http 404 project_member_not_found)

unfoldable pub without_member : ℕ → ℕ → Tables → Tables
without_member project_id user_id t = record t {
  members = select (λ m. not (m.project_id == project_id && m.user_id == user_id)) t.members;
}

unfoldable pub remove_member : Context → ℕ → ℕ → Exec (Unit {0})
unfolding Exec.◌>>=◌
remove_member ctx project_id user_id =
    Exec.◌>>=◌ (ask (checked_removal ctx project_id user_id)) λ target.
      Exec.◌>>=◌
        (project_entry ctx project_id "project_member" user_id "deleted"
          (some (membership_snapshot target)) none)
        λ _. Exec.◌>>=◌ (write (without_member project_id user_id)) λ _. commit
