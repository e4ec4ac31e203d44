-- ===== src/Tests/Projects.antt =====
-- Examples of projects.
use tasktrack.Prelude.{ℕ, ◌≡◌, ◌≤◌, ◌==◌, refl, none, some, [], ◌∷◌, count, arith}
use tasktrack.Json.{empty}
use tasktrack.Model.Enums.{ProjectVisibility, ProjectMemberRole, TaskPriority}
use tasktrack.Query.{ok, err, http, project_not_found}
use tasktrack.Exec.{Session}
use tasktrack.Permissions.{find_project, get_project}
use tasktrack.Tasks.Creation.{TaskCreate}
use tasktrack.Projects.{ProjectCreate, ProjectMemberAdd, NewIds, add_member, remove_member}
use tasktrack.Projects.Members.{
  HasOneMembership, add_member-HasOneMembership, removed_member_cannot_read,
}
use tasktrack.Tests.{site, world, opened, request_of}

members_are_keyed : HasOneMembership world
unfolding HasOneMembership count
members_are_keyed project_id user_id = ground arith

abbrev newcomer : ProjectMemberAdd
newcomer = record { user_id = 9; role = ProjectMemberRole.viewer }

add_member-HasOneMembership_example :
    HasOneMembership (add_member (request_of 7) 1 newcomer (opened world)).1.tables
add_member-HasOneMembership_example =
    add_member-HasOneMembership (request_of 7) 1 newcomer (opened world) members_are_keyed

abbrev after_removal : Session
after_removal = (remove_member (request_of 7) 1 8 (opened world)).1

removal_succeeds : remove_member (request_of 7) 1 8 (opened world) ≡ (ok tt, after_removal)
unfolding remove_member tasktrack.Projects.checked_removal tasktrack.Query.◌>>=◌
    tasktrack.Projects.project_for tasktrack.Permissions.get_project tasktrack.Prelude.first
removal_succeeds = refl

site_found : find_project 1 world ≡ some site
unfolding find_project tasktrack.Prelude.first
site_found = refl

removed_member_cannot_read_example :
    get_project (request_of 8) 1 after_removal.committed ≡ err (http 404 project_not_found)
removed_member_cannot_read_example =
    removed_member_cannot_read (request_of 7) (request_of 8) 1 8 (opened world) after_removal site
      site_found refl removal_succeeds refl

abbrev shop : ProjectCreate
shop = record {
  name = "Shop";
  key = "SHOP";
  description = none;
  visibility = ProjectVisibility.public;
}

abbrev ids : NewIds
ids = record {
  project = 11;
  workflow = 12;
  todo = 13;
  inprog = 14;
  review = 15;
  done = 16;
  begins = 17;
  hands_in = 18;
  ends = 19;
  skips = 20;
  resets = 21;
  returns = 22;
  board = 23;
  backlog = 24;
}

abbrev order : TaskCreate
order = record {
  title = "Till";
  description = none;
  task_type_key = "task";
  priority = TaskPriority.high;
  workflow_id = none;
  assignee_id = none;
  parent_task_id = none;
  start_date = none;
  due_date = none;
  duration_days = none;
  meta = empty;
}
