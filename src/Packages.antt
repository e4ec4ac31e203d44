-- ===== src/Packages.antt =====
-- backend/app/services/work_package_service.py: the assignment of a task, an editable draft and issued
-- versions that do not change.
pub mod Content
pub mod Bases
pub mod Equality
pub mod Keys
pub mod Normal
pub mod Issuing
use tasktrack.Prelude.{
  ℕ, ◌+◌, String, Bool, true, false, Option, none, some, List, [], ◌∷◌, ◌++◌, not, ◌&&◌, ◌||◌, ◌==◌,
  is_some, is_nil, first,
}
use tasktrack.Json.{Json, Dict, entry, empty}
use tasktrack.Model.Enums.{ProjectMemberRole}
use tasktrack.Model.{
  Project, Task, WorkPackageContent, PackageContent, PinnedBasis, WorkPackage, Tables,
}
use tasktrack.Query.{
  Context, Query, http, permission_denied, work_package_not_found, work_package_incomplete,
  work_package_unchanged, attribute_error, integrity_error, select_from, or_raise, require, ◌>>=◌,
  ◌>>◌,
}
use tasktrack.Query
use tasktrack.Exec
use tasktrack.Exec.{Exec, ask, write, commit}
use tasktrack.Audit
use tasktrack.Permissions.{require_writer, has_role, find_project}
use tasktrack.Tasks.{find_task, get_task, save_task}
use Content.{normalize, missing_fields, draft_document}
use Bases.{pinned_bases}
use Equality.{content_eq}

-- `with_bases`
unfoldable pub with_bases : Task → PackageContent → Query PackageContent
with_bases task content = do
  bases ← pinned_bases task.id
  Query.pure (record content { bases = bases })

-- `current_package`
unfoldable pub current_package : Task → Tables → Option WorkPackage
current_package task t = elim task.work_package_version [
  | none ↦ none
  | some version ↦ first (λ w. w.task_id == task.id && w.version == version) t.packages
]

-- `WorkPackageState.state`
pub data PackageState : Type 0 where
  none_yet draft_only issued draft_changed : PackageState

-- `get_state` is given with `draft` and `current`, as in its answer.
pub record StateOfPackage : Type 0 where
  pub state : PackageState
  pub draft : Option WorkPackageContent
  pub current : Option WorkPackage

-- The content that an issue would store now.
unfoldable pub expected_content : Task → WorkPackage → Query PackageContent
expected_content task current = elim task.work_package_draft [
  | none ↦ with_bases task current.content
  | some draft ↦ with_bases task (normalize draft)
]

abbrev pub state_if : Bool → PackageState
state_if true = PackageState.issued
state_if false = PackageState.draft_changed

abbrev pub unissued : Option WorkPackageContent → PackageState
unissued none = PackageState.none_yet
unissued (some draft) = PackageState.draft_only

unfoldable pub state_of : Task → Query StateOfPackage
unfolding content_eq
state_of task t = elim (current_package task t) [
  | none ↦
      Query.pure
        (record {
          state = unissued task.work_package_draft;
          draft = task.work_package_draft;
          current = none;
        })
        t
  | some current ↦
      (expected_content task current >>= λ expected. Query.pure (record {
        state = state_if (content_eq expected current.content);
        draft = task.work_package_draft;
        current = some current;
      }))
        t
]

unfoldable pub get_state : Context → ℕ → Query StateOfPackage
get_state ctx task_id = do task ← get_task ctx task_id; state_of task

-- `_require_editor`
unfoldable pub require_editor : Context → Task → Query (Unit {0})
require_editor ctx task = do
  member ← require_writer ctx task.project_id
  require (task.reporter_id == ctx.user.id || has_role (some member) ProjectMemberRole.manager)
      (http 403 permission_denied)

unfoldable pub edited_task : Context → ℕ → Query Task
edited_task ctx task_id = do task ← get_task ctx task_id; require_editor ctx task; Query.pure task

abbrev pub package_entry :
    Context → Task → String → ℕ → String → Option Dict → Option Dict → Exec (Unit {0})
package_entry ctx task entity_type entity_id action before after = Audit.log ctx (record {
  project_id = some task.project_id;
  task_id = some task.id;
  entity_type = entity_type;
  entity_id = entity_id;
  action = action;
  before = before;
  after = after;
})

unfoldable pub with_draft : WorkPackageContent → Task → Task
with_draft content task = record task { work_package_draft = some content }

abbrev pub drafted : Option WorkPackageContent → Option Dict
unfolding draft_document
drafted none = none
drafted (some content) = some (draft_document content)

unfoldable pub save_draft : Context → ℕ → WorkPackageContent → Exec StateOfPackage
unfolding Exec.◌>>=◌
save_draft ctx task_id content = Exec.◌>>=◌ (ask (edited_task ctx task_id)) λ task.
    Exec.◌>>=◌ (write (save_task (with_draft content task))) λ _.
      Exec.◌>>=◌
        (package_entry ctx task "work_package_draft" task.id "updated"
          (drafted task.work_package_draft) (drafted (some content)))
        λ _. Exec.◌>>=◌ commit λ _. ask (get_state ctx task_id)

abbrev pub version_of : Option ℕ → ℕ
version_of none = 0
version_of (some version) = version

abbrev pub is_unchanged : Option WorkPackage → PackageContent → Bool
is_unchanged none content = false
is_unchanged (some current) content = content_eq current.content content

-- The draft's content, if it is complete.
unfoldable pub complete_content : Task → Query PackageContent
complete_content task = elim task.work_package_draft [
  | none ↦ Query.raise (
      http 422
        (work_package_incomplete ("goal" ∷ "expected_result" ∷ "specialization" ∷ "criteria" ∷ [])))
  | some draft ↦ do
    let content = normalize draft
    require (is_nil (missing_fields content))
        (http 422 (work_package_incomplete (missing_fields content)))
    Query.pure content
]

-- The unique constraint on `task_id` and `version`.
abbrev pub is_issued : Task → ℕ → Tables → Bool
is_issued task version t =
    is_some (first (λ w. w.task_id == task.id && w.version == version) t.packages)

unfoldable pub checked_issue : Context → ℕ → Query (Task × PackageContent)
checked_issue ctx task_id = do
  task ← edited_task ctx task_id
  draft ← complete_content task
  content ← with_bases task draft
  current ← select_from (current_package task)
  require (not (is_unchanged current content)) (http 409 work_package_unchanged)
  clash ← select_from (is_issued task (version_of task.work_package_version + 1))
  require (not clash) integrity_error
  Query.pure (task, content)

abbrev pub new_package : Context → ℕ → Task → PackageContent → WorkPackage
new_package ctx new_id task content = record {
  id = new_id;
  task_id = task.id;
  version = version_of task.work_package_version + 1;
  content = content;
  digest = ctx.digest content;
  issued_by = ctx.user.id;
}

unfoldable pub reissued : Task → Task
reissued task = record task {
  work_package_version = some (version_of task.work_package_version + 1);
  version = task.version + 1;
}

unfoldable pub issue : Context → ℕ → ℕ → Exec WorkPackage
unfolding Exec.◌>>=◌
issue ctx new_id task_id = Exec.◌>>=◌ (ask (checked_issue ctx task_id)) λ (task, content).
    let issued_now = new_package ctx new_id task content in
    Exec.◌>>=◌ (write (λ t. record t { packages = t.packages ++ issued_now ∷ [] })) λ _.
      Exec.◌>>=◌ (write (save_task (reissued task))) λ _.
        Exec.◌>>=◌
          (package_entry ctx task "work_package" new_id "issued" none (
            some (
              entry "version" (Json.int issued_now.version)
                (entry "digest" (Json.text issued_now.digest) empty))))
          λ _. Exec.◌>>=◌ commit λ _. Exec.pure issued_now

unfoldable pub find_package : ℕ → Tables → Option WorkPackage
find_package id t = first (λ w. w.id == id) t.packages

-- `get_package`
unfoldable pub get_package : Context → ℕ → Query WorkPackage
get_package ctx package_id = do
  found ← select_from (find_package package_id)
  pkg ← or_raise found (http 404 work_package_not_found)
  get_task ctx pkg.task_id
  Query.pure pkg

-- What `export` answers, less the time of issue.
pub record PackageExport : Type 0 where
  pub id : ℕ
  pub version : ℕ
  pub digest : String
  pub issued_by : ℕ
  pub project_id : ℕ
  pub project_key : String
  pub task_id : ℕ
  pub task_key : String
  pub task_title : String
  pub content : PackageContent

unfoldable pub export : Context → ℕ → Query PackageExport
unfolding get_package
export ctx package_id = do
  pkg ← get_package ctx package_id
  known ← select_from (find_task pkg.task_id)
  task ← or_raise known attribute_error
  found ← select_from (find_project task.project_id)
  project ← or_raise found attribute_error
  Query.pure (record {
    id = pkg.id;
    version = pkg.version;
    digest = pkg.digest;
    issued_by = pkg.issued_by;
    project_id = project.id;
    project_key = project.key;
    task_id = task.id;
    task_key = task.key;
    task_title = task.title;
    content = pkg.content;
  })
