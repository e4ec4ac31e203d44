-- ===== src/Packages/Issuing.antt =====
-- Issued assignments (backend/app/services/work_package_service.py).
use tasktrack.Prelude.{
  ℕ, ◌+◌, ◌≡◌, refl, sym, ap, ◌∙◌, subst, inl, inr, Option-cases, none, some, List, [], ◌∷◌, ◌++◌,
  ◌&&◌, ◌==◌, arith, first, first-append_none, ==_refl,
}
use tasktrack.Model.{Task, TaskBasis, WorkPackageContent, PackageContent, WorkPackage, Tables}
use tasktrack.Query.{Context, Error, ok, err, Result-cases, http, work_package_unchanged, ◌>>=◌}
use tasktrack.Exec.{Session}
use tasktrack.Permissions.{
  find_member, find_project, get_project, require_project_access, require_role, require_writer,
}
use tasktrack.Tasks.{find_task, find_task-save_task, get_task, save_task}
use tasktrack.Packages.Content.{normalize}
use tasktrack.Packages.Bases.{find_object, find_provider, bases_of, pin_all, pinned_bases}
use tasktrack.Packages.Equality.{content_eq_refl}
use tasktrack.Packages.{
  with_bases, current_package, PackageState, state_of, expected_content, get_state, require_editor,
  edited_task, version_of, complete_content, checked_issue, new_package, reissued, issue,
}

-- What an issue has found.
record IsIssuable (ctx : Context) (task_id : ℕ) (t : Tables) (task : Task)
    (content : PackageContent) : Type 0 where
  draft : WorkPackageContent
  drafted : task.work_package_draft ≡ some draft
  found : find_task task_id t ≡ some task
  kept : task.deleted_at ≡ none
  reads : require_project_access ctx task.project_id t ≡ ok tt
  edits : require_editor ctx task t ≡ ok tt
  complete : complete_content task t ≡ ok (normalize draft)
  based : with_bases task (normalize draft) t ≡ ok content
  new :
      first
        (λ w. w.task_id == task.id && w.version == version_of task.work_package_version + 1)
        t.packages
      ≡ none

edited_task-ok :
    (ctx : Context) (task_id : ℕ) (t : Tables) (task : Task)
    → edited_task ctx task_id t ≡ ok task
    → (find_task task_id t ≡ some task)
      × (task.deleted_at ≡ none)
      × (require_project_access ctx task.project_id t ≡ ok tt)
      × (require_editor ctx task t ≡ ok tt)
unfolding edited_task get_task ◌>>=◌
edited_task-ok ctx task_id t task h = ground arith

complete_content-ok :
    (task : Task) (t : Tables) (content : PackageContent)
    → complete_content task t ≡ ok content
    → (draft : WorkPackageContent) × (task.work_package_draft ≡ some draft)
      × (content ≡ normalize draft)
unfolding complete_content ◌>>=◌
complete_content-ok task t content h = elim (Option-cases task.work_package_draft) [
  | inl nothing ↦ absurd (ground (arith, nothing))
  | inr (draft, some_draft) ↦ (draft, some_draft, ground (arith, some_draft))
]

checked_issue-ok :
    (ctx : Context) (task_id : ℕ) (t : Tables) (task : Task) (content : PackageContent)
    → checked_issue ctx task_id t ≡ ok (task, content)
    → (plain : PackageContent) × (edited_task ctx task_id t ≡ ok task)
      × (complete_content task t ≡ ok plain)
      × (with_bases task plain t ≡ ok content)
      × (first
            (λ w. w.task_id == task.id && w.version == version_of task.work_package_version + 1)
            t.packages
          ≡ none)
unfolding checked_issue ◌>>=◌
checked_issue-ok ctx task_id t task content h = elim (Result-cases (edited_task ctx task_id t)) [
  | inr (e, failed) ↦ absurd (ground (arith, failed))
  | inl (found, edited) ↦ elim (Result-cases (complete_content found t)) [
    | inr (e, failed) ↦ absurd (ground (arith, edited, failed))
    | inl (plain, complete) ↦ (
      plain,
      ground (arith, edited, complete),
      ground (arith, edited, complete),
      ground (arith, edited, complete),
      ground (arith, edited, complete),
    )
  ]
]

issue_refused :
    (ctx : Context) (new_id task_id : ℕ) (s : Session) {e : Error}
    → checked_issue ctx task_id s.tables ≡ err e
    → issue ctx new_id task_id s ≡ (err e, s)
unfolding issue
issue_refused ctx new_id task_id s h = ground arith

issue_effect :
    (ctx : Context) (new_id task_id : ℕ) (s : Session) (task : Task) (content : PackageContent)
    → checked_issue ctx task_id s.tables ≡ ok (task, content)
    → let r = issue ctx new_id task_id s in
      let u = r.1.committed in
      (r.0 ≡ ok (new_package ctx new_id task content))
      × (u.tasks ≡ (save_task (reissued task) s.tables).tasks)
      × (u.packages ≡ s.tables.packages ++ new_package ctx new_id task content ∷ [])
      × (u.projects ≡ s.tables.projects)
      × (u.members ≡ s.tables.members)
      × (u.bases ≡ s.tables.bases)
      × (u.objects ≡ s.tables.objects)
      × (u.providers ≡ s.tables.providers)
unfolding issue save_task
issue_effect ctx new_id task_id s task content h = ground arith

pin_all-kept :
    (bs : List TaskBasis) (t u : Tables)
    → u.objects ≡ t.objects
    → u.providers ≡ t.providers
    → pin_all bs u ≡ pin_all bs t
unfolding pin_all find_object find_provider ◌>>=◌
pin_all-kept [] t u objects providers = refl
pin_all-kept (b ∷ bs) t u objects providers =
    ground (arith, objects, providers, pin_all-kept bs t u objects providers)

with_bases-kept :
    (task : Task) (content : PackageContent) (t u : Tables)
    → u.bases ≡ t.bases
    → u.objects ≡ t.objects
    → u.providers ≡ t.providers
    → with_bases (reissued task) content u ≡ with_bases task content t
unfolding with_bases pinned_bases bases_of reissued ◌>>=◌
with_bases-kept task content t u bases objects providers =
    ground (arith, bases, pin_all-kept (bases_of task.id t) t u objects providers)

access-kept :
    (ctx : Context) (task : Task) (t u : Tables)
    → u.projects ≡ t.projects
    → u.members ≡ t.members
    → (require_project_access ctx task.project_id u ≡ require_project_access ctx task.project_id t)
      × (require_editor ctx (reissued task) u ≡ require_editor ctx task t)
unfolding require_editor require_writer require_role require_project_access get_project find_project
    find_member reissued ◌>>=◌
access-kept ctx task t u projects members = ground (arith, projects, members)

-- What is stored after an issue.
record HasIssued (ctx : Context) (task_id : ℕ) (u : Tables) (task : Task)
    (draft : WorkPackageContent) (pkg : WorkPackage) : Type 0 where
  stored : find_task task_id u ≡ some (reissued task)
  drafted : task.work_package_draft ≡ some draft
  kept : task.deleted_at ≡ none
  reads : require_project_access ctx task.project_id u ≡ ok tt
  edits : require_editor ctx (reissued task) u ≡ ok tt
  complete : complete_content (reissued task) u ≡ ok (normalize draft)
  based : with_bases (reissued task) (normalize draft) u ≡ ok pkg.content
  current : current_package (reissued task) u ≡ some pkg

issue-HasIssued :
    (ctx : Context) (new_id task_id : ℕ) (s : Session) (task : Task) (content : PackageContent)
    → checked_issue ctx task_id s.tables ≡ ok (task, content)
    → (draft : WorkPackageContent) × HasIssued ctx task_id
        (issue ctx new_id task_id s).1.committed
        task
        draft
        (new_package ctx new_id task content)
unfolding find_task current_package first complete_content reissued ◌>>=◌
issue-HasIssued ctx new_id task_id s task content h =
    let u = (issue ctx new_id task_id s).1.committed in
    let pkg = new_package ctx new_id task content in
    let (plain, edited, complete, based, new) =
      checked_issue-ok ctx task_id s.tables task content h in
    let (found, kept, reads, edits) = edited_task-ok ctx task_id s.tables task edited in
    let (draft, drafted, normal) = complete_content-ok task s.tables plain complete in
    let (_, tasks, packages, projects, members, bases, objects, providers) =
      issue_effect ctx new_id task_id s task content h in
    let (same_reads, same_edits) = access-kept ctx task s.tables u projects members in
    (
      draft,
      record {
        stored =
            ap (first λ r. r.id == task_id) tasks
            ∙ find_task-save_task task_id (reissued task) s.tables found refl;
        drafted = drafted;
        kept = kept;
        reads = same_reads ∙ reads;
        edits = same_edits ∙ edits;
        complete = ground (arith, drafted, complete, normal);
        based =
            with_bases-kept task (normalize draft) s.tables u bases objects providers
            ∙ subst (λ c. with_bases task c s.tables ≡ ok content) normal based;
        current =
            ap (first λ w. w.task_id == task.id && w.version == pkg.version) packages
            ∙ first-append_none (λ w. w.task_id == task.id && w.version == pkg.version)
                s.tables.packages (pkg ∷ []) new
            ∙ ground (arith, ==_refl task.id, ==_refl pkg.version);
      },
    )

issued_state :
    (ctx : Context) (task_id : ℕ) (u : Tables) (task : Task) (draft : WorkPackageContent)
    (pkg : WorkPackage)
    → HasIssued ctx task_id u task draft pkg
    → get_state ctx task_id u
      ≡ ok (record { state = PackageState.issued; draft = some draft; current = some pkg })
unfolding get_state get_task state_of expected_content ◌>>=◌ reissued
issued_state ctx task_id u task draft pkg h =
    ground
      (arith, h.stored, h.drafted, h.kept, h.reads, h.based, h.current, content_eq_refl pkg.content)

edited_again :
    (ctx : Context) (task_id : ℕ) (u : Tables) (task : Task) (draft : WorkPackageContent)
    (pkg : WorkPackage)
    → HasIssued ctx task_id u task draft pkg
    → edited_task ctx task_id u ≡ ok (reissued task)
unfolding edited_task get_task ◌>>=◌ reissued
edited_again ctx task_id u task draft pkg h = ground (arith, h.stored, h.kept, h.reads, h.edits)

unchanged_refused :
    (ctx : Context) (task_id : ℕ) (u : Tables) (task : Task) (draft : WorkPackageContent)
    (pkg : WorkPackage)
    → HasIssued ctx task_id u task draft pkg
    → checked_issue ctx task_id u ≡ err (http 409 work_package_unchanged)
unfolding checked_issue ◌>>=◌
unchanged_refused ctx task_id u task draft pkg h = ground (
  arith,
  edited_again ctx task_id u task draft pkg h,
  h.complete,
  h.based,
  h.current,
  content_eq_refl pkg.content,
)

ok-eq : {A : Type 0} {a b : A} → ok a ≡ ok b → a ≡ b
ok-eq h = ground arith

-- A version that was issued is at once the current one: the state says that it is issued, with the
-- draft it came from, its content is that draft normalized with the pinned bases, and its number is
-- one more than the last.
pub issue-get_state :
    (ctx : Context) (new_id task_id : ℕ) (s s' : Session) (pkg : WorkPackage)
    → issue ctx new_id task_id s ≡ (ok pkg, s')
    → (task : Task) × (draft : WorkPackageContent) × (find_task task_id s.tables ≡ some task)
      × (pkg.version ≡ version_of task.work_package_version + 1)
      × (with_bases task (normalize draft) s.tables ≡ ok pkg.content)
      × (get_state ctx task_id s'.committed
          ≡ ok (record { state = PackageState.issued; draft = some draft; current = some pkg }))
issue-get_state ctx new_id task_id s s' pkg h =
    elim (Result-cases (checked_issue ctx task_id s.tables)) [
      | inr (e, failed) ↦ absurd (ground (arith, issue_refused ctx new_id task_id s failed))
      | inl ((task, content), passed) ↦
          let after = (issue ctx new_id task_id s).1.committed in
          let made = new_package ctx new_id task content in
          let (draft, issued) = issue-HasIssued ctx new_id task_id s task content passed in
          let (plain, edited, complete, based, _) =
            checked_issue-ok ctx task_id s.tables task content passed in
          let answer = (issue_effect ctx new_id task_id s task content passed).0 in
          let same : made ≡ pkg = ok-eq (sym answer ∙ ap (λ r. r.0) h) in
          let (own, drafted, normal) = complete_content-ok task s.tables plain complete in
          let same_draft : draft ≡ own = ground (arith, drafted, issued.drafted) in
          (
            task,
            own,
            (edited_task-ok ctx task_id s.tables task edited).0,
            sym (ap (λ p. p.version) same),
            subst (λ p. with_bases task (normalize own) s.tables ≡ ok p.content) same
                (subst (λ c. with_bases task c s.tables ≡ ok content) normal based),
            subst
                (λ p.
                  get_state ctx task_id s'.committed
                  ≡ ok (record { state = PackageState.issued; draft = some own; current = some p }))
                same
                (subst
                  (λ t.
                    get_state ctx task_id t
                    ≡ ok (record {
                      state = PackageState.issued;
                      draft = some own;
                      current = some made;
                    }))
                  (ap (λ r. r.1.committed) h)
                  (subst
                    (λ d.
                      get_state ctx task_id after
                      ≡ ok (record {
                        state = PackageState.issued;
                        draft = some d;
                        current = some made;
                      }))
                    same_draft (issued_state ctx task_id after task draft made issued))),
          )
    ]

-- A version is not issued twice: after an issue, the same editor's next issue with nothing changed in
-- between is refused as unchanged, and changes nothing.
pub issue_again_refused :
    (ctx : Context) (id₁ id₂ task_id : ℕ) (s s' s₂ : Session) (pkg : WorkPackage)
    → issue ctx id₁ task_id s ≡ (ok pkg, s')
    → s₂.tables ≡ s'.committed
    → issue ctx id₂ task_id s₂ ≡ (err (http 409 work_package_unchanged), s₂)
issue_again_refused ctx id₁ id₂ task_id s s' s₂ pkg h seen =
    elim (Result-cases (checked_issue ctx task_id s.tables)) [
      | inr (e, failed) ↦ absurd (ground (arith, issue_refused ctx id₁ task_id s failed))
      | inl ((task, content), passed) ↦
          let (draft, issued) = issue-HasIssued ctx id₁ task_id s task content passed in
          issue_refused ctx id₂ task_id s₂ (
            subst (λ t. checked_issue ctx task_id t ≡ err (http 409 work_package_unchanged))
              (sym (seen ∙ sym (ap (λ r. r.1.committed) h)))
              (unchanged_refused ctx task_id (issue ctx id₁ task_id s).1.committed task draft
                (new_package ctx id₁ task content) issued))
    ]
