-- ===== src/Reviewers.antt =====
-- The reviewer profile: `update_member` and `validate_designated_reviewer` of
-- backend/app/services/result_service.py.
use tasktrack.Prelude.{ℕ, Bool, false, Option, none, some, not, ◌&&◌, ◌==◌, is_some_of, modify}
use tasktrack.Model.Enums.{ProjectMemberRole}
use tasktrack.Model.{Task, ProjectMember, Tables}
use tasktrack.Query.{
  Context, Query, http, project_member_not_found, not_reviewer, self_review, select_from, or_raise,
  require, ◌>>=◌, ◌>>◌,
}
use tasktrack.Query
use tasktrack.Exec
use tasktrack.Exec.{Exec, ask, write, commit}
use tasktrack.Audit
use tasktrack.Audit.{member_snapshot}
use tasktrack.Permissions.{get_member, require_manager}

abbrev has_profile : Option ProjectMember → Bool
has_profile none = false
has_profile (some m) = m.is_reviewer

abbrev check_designated : Task → Option ℕ → Query (Unit {0})
check_designated task none = Query.pure tt
check_designated task (some reviewer_id) = do
  member ← get_member task.project_id reviewer_id
  require (has_profile member) (http 400 not_reviewer)
  require (not (is_some_of task.assignee_id reviewer_id)) (http 400 self_review)

unfoldable pub validate_designated_reviewer : Context → Task → Option ℕ → Query (Unit {0})
unfolding ◌>>=◌
validate_designated_reviewer ctx task reviewer_id = do
  require_manager ctx task.project_id
  check_designated task reviewer_id

pub record MemberUpdate : Type 0 where
  pub role : Option ProjectMemberRole
  pub is_reviewer : Option Bool

abbrev or_old {ℓ} : {A : Type ℓ} → Option A → A → A
or_old none old = old
or_old (some new) old = new

unfoldable pub save_member : ProjectMember → Tables → Tables
save_member m t = record t {
  members = modify (λ r. r.project_id == m.project_id && r.user_id == m.user_id) (λ _. m) t.members;
}

unfoldable pub managed_member : Context → ℕ → ℕ → Query ProjectMember
unfolding ◌>>=◌
managed_member ctx project_id user_id = do
  require_manager ctx project_id
  found ← get_member project_id user_id
  or_raise found (http 404 project_member_not_found)

unfoldable pub update_member : Context → ℕ → ℕ → MemberUpdate → Exec ProjectMember
unfolding Exec.◌>>=◌
update_member ctx project_id user_id dto =
    Exec.◌>>=◌ (ask (managed_member ctx project_id user_id)) λ old.
      let target : ProjectMember = record old {
        role = or_old dto.role old.role;
        is_reviewer = or_old dto.is_reviewer old.is_reviewer;
      } in
      let changes = Audit.diff (member_snapshot old) (member_snapshot target) in
      Exec.◌>>=◌ (write (save_member target)) λ _.
        Exec.◌>>=◌
          (Audit.log ctx (record {
            project_id = some project_id;
            task_id = none;
            entity_type = "project_member";
            entity_id = user_id;
            action = "updated";
            before = some changes.0;
            after = some changes.1;
          }))
          λ _. Exec.◌>>=◌ commit λ _. Exec.pure target
