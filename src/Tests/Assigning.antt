-- ===== src/Tests/Assigning.antt =====
-- Examples of assignments and of commands with a key.
use tasktrack.Prelude.{
  ℕ, String, Option, ◌≡◌, ◌≤◌, ◌+◌, refl, none, some, List, [], ◌∷◌, true, false, Bool, is_some,
  length, arith,
}
use tasktrack.Model.{Criterion, WorkPackageContent, WorkPackage, Task, Tables}
use tasktrack.Query.{Context, ok, err, http, work_package_unchanged}
use tasktrack.Exec.{Session}
use tasktrack.Tasks.{find_task}
use tasktrack.Packages.Content.{knows, criterion_key, free_number, given_keys, normalize}
use tasktrack.Packages.Keys.{AreDistinct, keys, free_number-free}
use tasktrack.Packages.Normal.{normalize-AreDistinct}
use tasktrack.Packages.{PackageState, version_of, with_bases, get_state, new_package, issue}
use tasktrack.Packages.Issuing.{issue-get_state, issue_again_refused}
use tasktrack.Tests.{page, world, opened, request_of}

abbrev pub criterion : Option String → String → Criterion
criterion key text = record { key = key; text = text; required = true }

abbrev pub plan : WorkPackageContent
plan = record {
  goal = some "Readers pay";
  expected_result = some "A till";
  criteria =
      criterion (some "c2") "It adds" ∷ criterion none "It prints" ∷ criterion none "It opens" ∷ [];
  inputs = [];
  constraints = [];
  specialization = some "web";
}

plan_is_distinct : AreDistinct (given_keys plan.criteria)
unfolding AreDistinct given_keys tasktrack.Packages.Content.knows tasktrack.Prelude.any
plan_is_distinct = (refl, tt)

normalize-AreDistinct_example : AreDistinct (keys (normalize plan).criteria)
normalize-AreDistinct_example = normalize-AreDistinct plan plan_is_distinct

free_number-free_example :
    knows ("c1" ∷ "c2" ∷ []) (criterion_key (free_number 3 1 ("c1" ∷ "c2" ∷ []))) ≡ false
free_number-free_example = free_number-free 1 ("c1" ∷ "c2" ∷ [])

abbrev pub planned : Tables
planned = record world { tasks = record page { work_package_draft = some plan } ∷ [] }

abbrev after_issue : Session
after_issue = (issue (request_of 7) 601 100 (opened planned)).1

abbrev pub issued_plan : WorkPackage
issued_plan = new_package (request_of 7) 601 page (normalize plan)

issue_succeeds : issue (request_of 7) 601 100 (opened planned) ≡ (ok issued_plan, after_issue)
unfolding issue tasktrack.Packages.checked_issue tasktrack.Query.◌>>=◌
    tasktrack.Packages.edited_task tasktrack.Tasks.get_task tasktrack.Prelude.first
    tasktrack.Permissions.require_project_access tasktrack.Packages.require_editor
    tasktrack.Permissions.require_writer tasktrack.Packages.complete_content
    tasktrack.Packages.Content.missing_fields tasktrack.Packages.with_bases
    tasktrack.Packages.Bases.pinned_bases tasktrack.Packages.Bases.pin_all
    tasktrack.Packages.Bases.bases_of tasktrack.Prelude.select
    tasktrack.Packages.Content.is_unfilled tasktrack.Packages.Equality.content_eq
    tasktrack.Packages.current_package tasktrack.Permissions.find_member
    tasktrack.Permissions.find_project tasktrack.Permissions.get_project
    tasktrack.Permissions.has_role tasktrack.Permissions.rank tasktrack.Permissions.require_role
    tasktrack.Packages.Content.normalize
issue_succeeds = refl

issue-get_state_example :
    (task : Task) × (draft : WorkPackageContent) × (find_task 100 planned ≡ some task)
    × (issued_plan.version ≡ version_of task.work_package_version + 1)
    × (with_bases task (normalize draft) planned ≡ ok issued_plan.content)
    × (get_state (request_of 7) 100 after_issue.committed
        ≡ ok (record {
          state = PackageState.issued;
          draft = some draft;
          current = some issued_plan;
        }))
issue-get_state_example =
    issue-get_state (request_of 7) 601 100 (opened planned) after_issue issued_plan issue_succeeds

issue_again_refused_example :
    issue (request_of 7) 602 100 (opened after_issue.committed)
    ≡ (err (http 409 work_package_unchanged), opened after_issue.committed)
issue_again_refused_example =
    issue_again_refused (request_of 7) 601 602 100 (opened planned) after_issue
      (opened after_issue.committed) issued_plan issue_succeeds refl
