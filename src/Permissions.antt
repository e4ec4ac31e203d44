-- ===== src/Permissions.antt =====
-- backend/app/services/permissions.py, with `get_project` of project_service.py, on which it stands.
pub mod Laws
use tasktrack.Prelude.{
  ℕ, ◌≤◌, Bool, true, false, Option, none, some, ◌&&◌, not, leb, ◌==◌, first, is_some,
}
use tasktrack.Model.Enums.{ProjectMemberRole, is_restricted}
use tasktrack.Model.{Project, ProjectMember, Tables}
use tasktrack.Query.{
  Context, Query, http, project_not_found, permission_denied, pure, select_from, or_raise, require,
  ◌>>=◌, ◌>>◌,
}

unfoldable pub find_member : ℕ → ℕ → Tables → Option ProjectMember
find_member project_id user_id t =
    first (λ m. m.project_id == project_id && m.user_id == user_id) t.members

abbrev pub get_member : ℕ → ℕ → Query (Option ProjectMember)
get_member project_id user_id = select_from (find_member project_id user_id)

unfoldable pub find_project : ℕ → Tables → Option Project
find_project id t = first (λ p. p.id == id) t.projects

unfoldable pub get_project : Context → ℕ → Query Project
unfolding ◌>>=◌ find_project find_member
get_project ctx project_id = do
  found ← select_from (find_project project_id)
  project ← or_raise found (http 404 project_not_found)
  require (not (is_some project.deleted_at)) (http 404 project_not_found)
  member ← get_member project_id ctx.user.id
  require (not (is_restricted project.visibility && not (is_some member)))
      (http 404 project_not_found)
  pure project

unfoldable pub require_project_access : Context → ℕ → Query (Unit {0})
unfolding get_project
require_project_access ctx project_id = get_project ctx project_id >> pure tt

unfoldable pub rank : ProjectMemberRole → ℕ
rank ProjectMemberRole.viewer = 0
rank ProjectMemberRole.member = 1
rank ProjectMemberRole.manager = 2
rank ProjectMemberRole.admin = 3

unfoldable pub has_role : Option ProjectMember → ProjectMemberRole → Bool
unfolding rank
has_role none minimum = false
has_role (some member) minimum = leb (rank minimum) (rank member.role)

-- The member that `has_role` accepts is not `None`.
unfoldable pub require_role : Context → ℕ → ProjectMemberRole → Query ProjectMember
unfolding require_project_access has_role
require_role ctx project_id minimum = do
  require_project_access ctx project_id
  member ← get_member project_id ctx.user.id
  require (has_role member minimum) (http 403 permission_denied)
  or_raise member (http 403 permission_denied)

unfoldable pub require_writer : Context → ℕ → Query ProjectMember
unfolding require_role
require_writer ctx project_id = require_role ctx project_id ProjectMemberRole.member

unfoldable pub require_manager : Context → ℕ → Query ProjectMember
unfolding require_role
require_manager ctx project_id = require_role ctx project_id ProjectMemberRole.manager
