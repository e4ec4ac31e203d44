-- ===== src/Permissions/Laws.antt =====
-- The closed forms of the access checks of backend/app/services/permissions.py.
use tasktrack.Prelude.{
  ℕ, ◌≤◌, ◌≡◌, Bool, true, false, Option, none, some, ◌&&◌, ◌||◌, not, is_some, leb, arith,
  if◌then◌else◌,
}
use tasktrack.Model.Enums.{ProjectMemberRole, is_restricted}
use tasktrack.Model.{Project, ProjectMember, Tables}
use tasktrack.Query.{Context, Result, ok, err, http, project_not_found, permission_denied}
use tasktrack.Permissions.{rank, find_member, find_project, has_role, require_role}

abbrev pub readable : Option Project → Option ProjectMember → Bool
readable none m = false
readable (some p) m = not (is_some p.deleted_at) && (not (is_restricted p.visibility) || is_some m)

-- The project is there, is not deleted, and is public or has the user as a member.
unfoldable pub can_read : ℕ → ℕ → Tables → Bool
can_read user_id project_id t =
    readable (find_project project_id t) (find_member project_id user_id t)

abbrev pub ranked : Option ProjectMember → ProjectMemberRole → Result ProjectMember
ranked none minimum = err (http 403 permission_denied)
ranked (some m) minimum =
    if leb (rank minimum) (rank m.role) then ok m else err (http 403 permission_denied)

-- `require_role` answers 404 to whoever cannot read the project, 403 to a reader who is not a member
-- or is below the minimum role, and gives the member otherwise.
pub require_role_lem :
    (ctx : Context) (project_id : ℕ) (minimum : ProjectMemberRole) (t : Tables)
    → require_role ctx project_id minimum t ≡ (
        if can_read ctx.user.id project_id t
        then ranked (find_member project_id ctx.user.id t) minimum
        else err (http 404 project_not_found))
unfolding require_role can_read rank
require_role_lem ctx project_id minimum t = ground arith

-- More is asked, fewer pass.
pub has_role_mono :
    (m : Option ProjectMember) (low high : ProjectMemberRole)
    → rank low ≤ rank high
    → has_role m high ≡ true
    → has_role m low ≡ true
unfolding has_role
has_role_mono none low high le h = h
has_role_mono (some m) low high le h = ground arith
