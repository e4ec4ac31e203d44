-- ===== src/Projects/Members.antt =====
-- Who is a member (backend/app/services/project_service.py).
use tasktrack.Prelude.{
  ℕ, ◌≡◌, refl, sym, ap, ◌∙◌, subst, ◌≤◌, inl, inr, Bool, Bool-cases, true, not, ◌&&◌, none, some,
  List, [], ◌∷◌, ◌++◌, ◌==◌, arith, first, select, count, count-append, count-none,
}
use tasktrack.Model.Enums.{is_restricted}
use tasktrack.Model.{Project, ProjectMember, Tables}
use tasktrack.Query.{Context, Error, ok, err, http, project_not_found, Result-cases, ◌>>=◌}
use tasktrack.Exec.{Session}
use tasktrack.Permissions.{find_member, find_project, get_project}
use tasktrack.Projects.{
  ProjectMemberAdd, checked_addition, new_member, add_member, checked_removal, without_member,
  remove_member,
}

-- The primary key of `project_members`.
unfoldable pub HasOneMembership : Tables → Type 0
HasOneMembership t =
    (project_id user_id : ℕ)
    → count (λ m. m.project_id == project_id && m.user_id == user_id) t.members ≤ 1

checked_addition-ok :
    (ctx : Context) (project_id : ℕ) (dto : ProjectMemberAdd) (t : Tables)
    → checked_addition ctx project_id dto t ≡ ok tt
    → find_member project_id dto.user_id t ≡ none
unfolding checked_addition ◌>>=◌
checked_addition-ok ctx project_id dto t h = ground arith

add_member_refused :
    (ctx : Context) (project_id : ℕ) (dto : ProjectMemberAdd) (s : Session) {e : Error}
    → checked_addition ctx project_id dto s.tables ≡ err e
    → add_member ctx project_id dto s ≡ (err e, s)
unfolding add_member
add_member_refused ctx project_id dto s h = ground arith

add_member_effect :
    (ctx : Context) (project_id : ℕ) (dto : ProjectMemberAdd) (s : Session)
    → checked_addition ctx project_id dto s.tables ≡ ok tt
    → (add_member ctx project_id dto s).1.tables.members
      ≡ s.tables.members ++ new_member project_id dto ∷ []
unfolding add_member
add_member_effect ctx project_id dto s h = ground arith

same_member :
    (m : ProjectMember) (p u : ℕ)
    → (m.project_id == p && m.user_id == u) ≡ true
    → (m.project_id ≡ p) × (m.user_id ≡ u)
same_member m p u h = (ground arith, ground arith)

added-HasOneMembership :
    (m : ProjectMember) (t u : Tables)
    → u.members ≡ t.members ++ m ∷ []
    → find_member m.project_id m.user_id t ≡ none
    → HasOneMembership t
    → HasOneMembership u
unfolding HasOneMembership find_member count
added-HasOneMembership m t u same absent one p q =
    let counted = count-append (λ r. r.project_id == p && r.user_id == q) t.members (m ∷ []) in
    elim (Bool-cases (m.project_id == p && m.user_id == q)) [
      | inr other ↦ ground (arith, same, other, one p q, counted)
      | inl own ↦
          let (at_p, at_q) = same_member m p q own in
          let here : count (λ r. r.project_id == p && r.user_id == q) t.members ≡ 0 =
            count-none (λ r. r.project_id == p && r.user_id == q) t.members
              (subst (λ k. first (λ r. r.project_id == p && r.user_id == k) t.members ≡ none) at_q
                (subst
                  (λ k. first (λ r. r.project_id == k && r.user_id == m.user_id) t.members ≡ none)
                  at_p absent)) in
          ground (arith, same, own, here, counted)
    ]

-- Whether it succeeds or raises, `add_member` keeps at most one membership of each user in each
-- project.
pub add_member-HasOneMembership :
    (ctx : Context) (project_id : ℕ) (dto : ProjectMemberAdd) (s : Session)
    → HasOneMembership s.tables
    → HasOneMembership (add_member ctx project_id dto s).1.tables
add_member-HasOneMembership ctx project_id dto s one =
    elim (Result-cases (checked_addition ctx project_id dto s.tables)) [
      | inr (e, failed) ↦
          subst (λ r. HasOneMembership r.1.tables)
            (sym (add_member_refused ctx project_id dto s failed)) one
      | inl (tt, passed) ↦
          added-HasOneMembership (new_member project_id dto) s.tables
            (add_member ctx project_id dto s).1.tables
            (add_member_effect ctx project_id dto s passed)
            (checked_addition-ok ctx project_id dto s.tables passed) one
    ]

remove_member_refused :
    (ctx : Context) (project_id user_id : ℕ) (s : Session) {e : Error}
    → checked_removal ctx project_id user_id s.tables ≡ err e
    → remove_member ctx project_id user_id s ≡ (err e, s)
unfolding remove_member
remove_member_refused ctx project_id user_id s h = ground arith

remove_member_effect :
    (ctx : Context) (project_id user_id : ℕ) (s : Session) (m : ProjectMember)
    → checked_removal ctx project_id user_id s.tables ≡ ok m
    → let u = (remove_member ctx project_id user_id s).1.committed in
      (u.members ≡ (without_member project_id user_id s.tables).members)
      × (u.projects ≡ s.tables.projects)
unfolding remove_member without_member
remove_member_effect ctx project_id user_id s m h = ground arith

select_out {ℓ} :
    {A : Type ℓ} (p : A → Bool) (l : List A) → first p (select (λ a. not (p a)) l) ≡ none
unfolding first select
select_out p [] = refl
select_out p (x ∷ xs) = ground (arith, select_out p xs)

without-find_member :
    (project_id user_id : ℕ) (t u : Tables)
    → u.members ≡ (without_member project_id user_id t).members
    → find_member project_id user_id u ≡ none
unfolding find_member without_member
without-find_member project_id user_id t u same =
    ap (first λ m. m.project_id == project_id && m.user_id == user_id) same
    ∙ select_out (λ m. m.project_id == project_id && m.user_id == user_id) t.members

hidden :
    (project_id user_id : ℕ) (t u : Tables) (p : Project)
    → find_member project_id user_id u ≡ none
    → u.projects ≡ t.projects
    → find_project project_id t ≡ some p
    → is_restricted p.visibility ≡ true
    → (ctx : Context) → ctx.user.id ≡ user_id
    → get_project ctx project_id u ≡ err (http 404 project_not_found)
unfolding get_project find_project ◌>>=◌
hidden project_id user_id t u p absent same found restricted ctx own = ground arith

-- Whoever is removed from a restricted project can no longer read it: their next request for it is
-- told that there is no such project.
pub removed_member_cannot_read :
    (ctx ctx' : Context) (project_id user_id : ℕ) (s s' : Session) (p : Project)
    → find_project project_id s.tables ≡ some p
    → is_restricted p.visibility ≡ true
    → remove_member ctx project_id user_id s ≡ (ok tt, s')
    → ctx'.user.id ≡ user_id
    → get_project ctx' project_id s'.committed ≡ err (http 404 project_not_found)
removed_member_cannot_read ctx ctx' project_id user_id s s' p found restricted h own =
    elim (Result-cases (checked_removal ctx project_id user_id s.tables)) [
      | inr (e, failed) ↦
          absurd (ground (arith, remove_member_refused ctx project_id user_id s failed))
      | inl (m, passed) ↦
          let (members, projects) = remove_member_effect ctx project_id user_id s m passed in
          let after = (remove_member ctx project_id user_id s).1.committed in
          subst (λ v. get_project ctx' project_id v.committed ≡ err (http 404 project_not_found))
            (ap (λ r. r.1) h)
            (hidden project_id user_id s.tables after p
              (without-find_member project_id user_id s.tables after members) projects found
              restricted ctx' own)
    ]
