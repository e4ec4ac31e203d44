-- ===== src/Tests/Settings.antt =====
-- Examples of statuses, boards and events.
use tasktrack.Prelude.{
  collect, ℕ, ◌==◌, ◌≡◌, ◌≤◌, refl, none, some, [], ◌∷◌, true, false, All, count, any, collect,
  if◌then◌else◌, arith,
}
use tasktrack.Model.Enums.{ProjectMemberRole, StatusCategory, ViewType}
use tasktrack.Model.{BoardColumn, Tables}
use tasktrack.Query.{ok, err, integrity_error, http, project_not_found}
use tasktrack.Exec.{Session}
use tasktrack.Bus.{Event, EventBus, publish}
use tasktrack.Bus.Queues.{received, IsBounded, publish-IsBounded}
use tasktrack.Permissions.{require_role, find_member}
use tasktrack.Permissions.Laws.{can_read, ranked, require_role_lem}
use tasktrack.Tasks.{find_task}
use tasktrack.Tests.{page, world, opened, request_of}
use tasktrack.Workflow.{managed_status}
use tasktrack.Workflow.Boards.{statuses_of, kanban_boards, map_workflow_to_boards}
use tasktrack.Workflow.Boards.Mapping.{IsShown, map_workflow_to_boards-shows}
use tasktrack.Tasks.Updates.{delete_task}
use tasktrack.Workflow.Statuses.{
  StatusCreate, StatusUpdate, create_status, update_status, delete_status, migrate_status,
  count_tasks_in_status, is_referenced,
}
use tasktrack.Workflow.Statuses.Defaults.{IsSound, defaults, misplaced}
use tasktrack.Workflow.Statuses.Requests.{Request, handle, IsFresh, handle-IsSound}
use tasktrack.Workflow.Statuses.Retained.{deleted_task_keeps_status}
use tasktrack.Workflow.Statuses.Removal.{
  IsGone, migrated, delete_status-IsGone, migrate_status-migrated,
}

statuses-IsSound : IsSound world.statuses
unfolding defaults misplaced count
statuses-IsSound = record {
  one_default = λ w. ground arith;
  initial_default = refl;
  unique_ids = λ i. ground arith;
}

abbrev inbox : StatusCreate
inbox = record {
  name = "Inbox";
  category = StatusCategory.initial;
  is_default = true;
  position = 0;
  color = none;
}

is_new : count (λ r. r.id == 23) world.statuses ≡ 0
unfolding count
is_new = refl

inbox-IsFresh : IsFresh (Request.create 23 2 inbox) world
unfolding IsFresh
inbox-IsFresh = is_new

handle-IsSound_example :
    IsSound (handle (request_of 7) (Request.create 23 2 inbox) (opened world)).tables.statuses
handle-IsSound_example =
    handle-IsSound (request_of 7) (Request.create 23 2 inbox) (opened world) inbox-IsFresh
      statuses-IsSound

abbrev after_deletion : Session
after_deletion = (delete_status (request_of 7) 22 (opened world)).1

deletion_succeeds : delete_status (request_of 7) 22 (opened world) ≡ (ok tt, after_deletion)
unfolding delete_status managed_status tasktrack.Prelude.first tasktrack.Workflow.require_manager_of
    tasktrack.Permissions.require_manager count_tasks_in_status count is_referenced any
deletion_succeeds = refl

delete_status-IsGone_example : IsGone 22 after_deletion.committed
delete_status-IsGone_example =
    delete_status-IsGone (request_of 7) 22 (opened world) after_deletion deletion_succeeds

abbrev after_migration : Session
after_migration = (migrate_status (request_of 7) 20 21 (opened world)).1

migration_succeeds : migrate_status (request_of 7) 20 21 (opened world) ≡ (ok tt, after_migration)
unfolding migrate_status managed_status tasktrack.Prelude.first
    tasktrack.Workflow.require_manager_of tasktrack.Permissions.require_manager is_referenced any
    tasktrack.Workflow.Statuses.move_tasks tasktrack.Prelude.modify
migration_succeeds = refl

page_found : find_task 100 world ≡ some page
unfolding find_task tasktrack.Prelude.first
page_found = refl

migrate_status-migrated_example :
    find_task 100 after_migration.committed ≡ some (migrated 20 21 page)
migrate_status-migrated_example =
    migrate_status-migrated (request_of 7) 20 21 100 (opened world) after_migration page
      migration_succeeds page_found

abbrev without_page : Session
without_page = (delete_task (request_of 8) 100 (opened world)).1

page_deleted : delete_task (request_of 8) 100 (opened world) ≡ (ok tt, without_page)
unfolding delete_task tasktrack.Tasks.Updates.checked_delete tasktrack.Query.◌>>=◌
    tasktrack.Tasks.get_task tasktrack.Prelude.first tasktrack.Permissions.require_project_access
    tasktrack.Permissions.require_writer
page_deleted = refl

deleted_task_keeps_status_example :
    ¬ ((delete_status (request_of 7) 20 (opened without_page.committed)).0 ≡ ok tt)
deleted_task_keeps_status_example =
    deleted_task_keeps_status (request_of 8) (request_of 7) 100 (opened world) without_page
      (opened without_page.committed) page page_found page_deleted refl

abbrev column : ℕ → BoardColumn
column id = record { id = id; view_id = 30; name = "C"; position = id }

abbrev boarded : Tables
boarded = record world {
  views =
      record {
        id = 30;
        project_id = 1;
        name = "Board";
        type = ViewType.kanban;
        position = 0;
        is_default = true;
      }
      ∷ [];
  columns = column 31 ∷ column 32 ∷ [];
}

status_there : any (λ s. s.id == 21) (statuses_of 2 boarded) ≡ true
unfolding any statuses_of
status_there = refl

map_workflow_to_boards-shows_example :
    All (IsShown 21 (map_workflow_to_boards 1 2 boarded)) (kanban_boards 1 boarded)
map_workflow_to_boards-shows_example = map_workflow_to_boards-shows 1 2 21 boarded status_there

abbrev news : Event
news = record { type = "task.created"; project_id = 1; task_id = 100; task = some page }

abbrev readers : EventBus
readers = record { id = 1; project_id = 1; queue = [] } ∷ []

readers-IsBounded : IsBounded readers
unfolding IsBounded
readers-IsBounded = (ground arith, tt)

publish-IsBounded_example :
    (collect (λ q. q.queue) (publish 1 news readers) ≡ collect (received 1 news) readers)
    × IsBounded (publish 1 news readers)
publish-IsBounded_example = publish-IsBounded 1 news readers readers-IsBounded

require_role_lem_example : require_role (request_of 8) 1 ProjectMemberRole.manager world ≡ (
    if can_read 8 1 world
    then ranked (find_member 1 8 world) ProjectMemberRole.manager
    else err (http 404 project_not_found))
require_role_lem_example = require_role_lem (request_of 8) 1 ProjectMemberRole.manager world
