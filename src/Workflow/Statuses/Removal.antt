-- ===== src/Workflow/Statuses/Removal.antt =====
-- `delete_status` and `migrate_status` of backend/app/services/workflow_service.py.
use tasktrack.Prelude.{
  ℕ, ◌≡◌, refl, sym, ap, ◌∙◌, subst, ◌⊎◌, inl, inr, Bool-cases, Bool, true, false, not, ◌&&◌, ◌||◌,
  none, some, List, [], ◌∷◌, ◌==◌, arith, is_some, first, select, any, if◌then◌else◌, ==→≡,
  first_sound, first-modify_unseen,
}
use tasktrack.Model.{Status, Task, Workflow, Tables}
use tasktrack.Query.{Context, Error, ok, err, Result-cases, ◌>>=◌, integrity_error}
use tasktrack.Exec.{Session}
use tasktrack.Tasks.{find_task}
use tasktrack.Workflow.{find_status, managed_status, get_status_or_404}
use tasktrack.Workflow.Statuses.{
  is_referenced, without_status, delete_status_with_transitions, delete_status, move_tasks,
  migrate_status,
}

-- A status of which nothing is left.
pub record IsGone (id : ℕ) (t : Tables) : Type 0 where
  pub no_task : is_referenced id t ≡ false
  pub no_row : find_status id t ≡ none
  pub no_transition :
      any (λ tr. tr.from_status_id == id || tr.to_status_id == id) t.transitions ≡ false
  pub on_no_board : any (λ m. m.status_id == id) t.column_statuses ≡ false

select_out {ℓ} :
    {A : Type ℓ} (p : A → Bool) (l : List A)
    → (first p (select (λ a. not (p a)) l) ≡ none) × (any p (select (λ a. not (p a)) l) ≡ false)
unfolding first select any
select_out p [] = (refl, refl)
select_out p (x ∷ xs) = ground (arith, select_out p xs)

without_status-IsGone :
    (id : ℕ) (t : Tables) → is_referenced id t ≡ false → IsGone id (without_status id t)
unfolding without_status is_referenced find_status
without_status-IsGone id t free = record {
  no_task = free;
  no_row = (select_out (λ s. s.id == id) t.statuses).0;
  no_transition =
      (select_out (λ tr. tr.from_status_id == id || tr.to_status_id == id) t.transitions).1;
  on_no_board = (select_out (λ m. m.status_id == id) t.column_statuses).1;
}

removal :
    (s : Status) (σ : Session)
    → ((is_referenced s.id σ.tables ≡ true)
        × (delete_status_with_transitions s σ ≡ (err integrity_error, σ)))
      ⊎ ((is_referenced s.id σ.tables ≡ false)
          × ((delete_status_with_transitions s σ).0 ≡ ok tt)
          × ((delete_status_with_transitions s σ).1.committed ≡ without_status s.id σ.tables))
unfolding delete_status_with_transitions
removal s σ = elim (Bool-cases (is_referenced s.id σ.tables)) [
  | inl h ↦ inl (h, ground arith)
  | inr h ↦ inr (h, ground arith, ground arith)
]

pub managed_status-ok :
    (ctx : Context) (id : ℕ) (t : Tables) (s : Status) (wf : Workflow)
    → managed_status ctx id t ≡ ok (s, wf)
    → s.id ≡ id
unfolding managed_status ◌>>=◌ get_status_or_404 find_status
managed_status-ok ctx id t s wf h =
    let found : first (λ r. r.id == id) t.statuses ≡ some s = ground arith in
    ==→≡ s.id id (first_sound (λ r. r.id == id) t.statuses found)

pub delete_status_refused :
    (ctx : Context) (id : ℕ) (s : Session) {e : Error}
    → managed_status ctx id s.tables ≡ err e
    → delete_status ctx id s ≡ (err e, s)
unfolding delete_status
delete_status_refused ctx id s h = ground arith

-- What a passed `delete_status` has met.
pub delete_status-ok :
    (ctx : Context) (id : ℕ) (σ : Session) (s : Status) (wf : Workflow)
    → managed_status ctx id σ.tables ≡ ok (s, wf)
    → (delete_status ctx id σ).0 ≡ ok tt
    → (is_referenced s.id σ.tables ≡ false)
      × ((delete_status ctx id σ).1.committed.tasks ≡ σ.tables.tasks)
      × ((delete_status ctx id σ).1.committed.statuses ≡ (without_status s.id σ.tables).statuses)
      × ((delete_status ctx id σ).1.committed.transitions
          ≡ (without_status s.id σ.tables).transitions)
      × ((delete_status ctx id σ).1.committed.column_statuses
          ≡ (without_status s.id σ.tables).column_statuses)
unfolding delete_status delete_status_with_transitions is_referenced without_status
delete_status-ok ctx id σ s wf h done = ground arith

-- What `IsGone` reads.
IsGone-same :
    (id : ℕ) (t u : Tables)
    → u.tasks ≡ t.tasks
    → u.statuses ≡ t.statuses
    → u.transitions ≡ t.transitions
    → u.column_statuses ≡ t.column_statuses
    → IsGone id t
    → IsGone id u
unfolding is_referenced find_status
IsGone-same id t u tasks statuses transitions columns gone = record {
  no_task = ap (any λ task. task.current_status_id == id) tasks ∙ gone.no_task;
  no_row = ap (first λ s. s.id == id) statuses ∙ gone.no_row;
  no_transition =
      ap (any λ tr. tr.from_status_id == id || tr.to_status_id == id) transitions
      ∙ gone.no_transition;
  on_no_board = ap (any λ m. m.status_id == id) columns ∙ gone.on_no_board;
}

without_status-tasks : (id : ℕ) (t : Tables) → (without_status id t).tasks ≡ t.tasks
unfolding without_status
without_status-tasks id t = refl

-- A deleted status leaves nothing behind: no row, no task that names it, no transition from or to
-- it, and no place on a board.
pub delete_status-IsGone :
    (ctx : Context) (id : ℕ) (s s' : Session)
    → delete_status ctx id s ≡ (ok tt, s')
    → IsGone id s'.committed
delete_status-IsGone ctx id σ σ' h = elim (Result-cases (managed_status ctx id σ.tables)) [
  | inr (e, failed) ↦ absurd (ground (arith, delete_status_refused ctx id σ failed))
  | inl ((s, wf), passed) ↦
      let own = managed_status-ok ctx id σ.tables s wf passed in
      let (free, tasks, statuses, transitions, columns) =
        delete_status-ok ctx id σ s wf passed (ap (λ r. r.0) h) in
      let after = (delete_status ctx id σ).1.committed in
      subst (λ v. IsGone id v.committed) (ap (λ r. r.1) h)
        (subst (λ k. IsGone k after) own
          (IsGone-same s.id (without_status s.id σ.tables) after
            (tasks ∙ sym (without_status-tasks s.id σ.tables)) statuses transitions columns
            (without_status-IsGone s.id σ.tables free)))
]

migrate_status_refused :
    (ctx : Context) (id target : ℕ) (s : Session) {e : Error}
    → managed_status ctx id s.tables ≡ err e
    → migrate_status ctx id target s ≡ (err e, s)
unfolding migrate_status
migrate_status_refused ctx id target s h = ground arith

-- What a passed `migrate_status` has met.
migrate_status-ok :
    (ctx : Context) (id target : ℕ) (σ : Session) (s : Status) (wf : Workflow)
    → managed_status ctx id σ.tables ≡ ok (s, wf)
    → (migrate_status ctx id target σ).0 ≡ ok tt
    → let t = record σ.tables { tasks = move_tasks id target σ.tables.tasks } in
      let after = (migrate_status ctx id target σ).1.committed in
      (is_referenced s.id t ≡ false)
      × (after.tasks ≡ t.tasks)
      × (after.statuses ≡ (without_status s.id t).statuses)
      × (after.transitions ≡ (without_status s.id t).transitions)
      × (after.column_statuses ≡ (without_status s.id t).column_statuses)
unfolding migrate_status delete_status_with_transitions is_referenced without_status
migrate_status-ok ctx id target σ s wf h done = ground arith

-- Where `migrate_status` leaves a task.
unfoldable pub migrated : ℕ → ℕ → Task → Task
migrated id target task =
    if task.current_status_id == id && not (is_some task.deleted_at)
    then record task { current_status_id = target }
    else task

migrated_task :
    (id target k : ℕ) (t u : Tables) {task : Task}
    → u.tasks ≡ move_tasks id target t.tasks
    → find_task k t ≡ some task
    → find_task k u ≡ some (migrated id target task)
unfolding find_task move_tasks migrated
migrated_task id target k t u {task} same found = ground (
  arith,
  same,
  found,
  first-modify_unseen (λ r. r.id == k)
      (λ r. r.current_status_id == id && not (is_some r.deleted_at))
      (λ r. record r { current_status_id = target }) t.tasks (λ x. refl),
)

-- A migrated status leaves nothing behind: no row, no task that names it, no transition from or to
-- it, and no place on a board.
pub migrate_status-IsGone :
    (ctx : Context) (id target : ℕ) (s s' : Session)
    → migrate_status ctx id target s ≡ (ok tt, s')
    → IsGone id s'.committed
migrate_status-IsGone ctx id target σ σ' h = elim (Result-cases (managed_status ctx id σ.tables)) [
  | inr (e, failed) ↦ absurd (ground (arith, migrate_status_refused ctx id target σ failed))
  | inl ((s, wf), passed) ↦
      let own = managed_status-ok ctx id σ.tables s wf passed in
      let t : Tables = record σ.tables { tasks = move_tasks id target σ.tables.tasks } in
      let (free, tasks, statuses, transitions, columns) =
        migrate_status-ok ctx id target σ s wf passed (ap (λ r. r.0) h) in
      let after = (migrate_status ctx id target σ).1.committed in
      let gone =
        IsGone-same s.id (without_status s.id t) after (tasks ∙ sym (without_status-tasks s.id t))
          statuses transitions columns (without_status-IsGone s.id t free) in
      subst (λ v. IsGone id v.committed) (ap (λ r. r.1) h) (subst (λ k. IsGone k after) own gone)
]

-- A migration moves a task of the status that is not deleted to the target, and leaves any other
-- task as it was.
pub migrate_status-migrated :
    (ctx : Context) (id target k : ℕ) (s s' : Session) (task : Task)
    → migrate_status ctx id target s ≡ (ok tt, s')
    → find_task k s.tables ≡ some task
    → find_task k s'.committed ≡ some (migrated id target task)
migrate_status-migrated ctx id target k σ σ' task h found =
    elim (Result-cases (managed_status ctx id σ.tables)) [
      | inr (e, failed) ↦ absurd (ground (arith, migrate_status_refused ctx id target σ failed))
      | inl ((s, wf), passed) ↦
          let (_, tasks, _, _, _) =
            migrate_status-ok ctx id target σ s wf passed (ap (λ r. r.0) h) in
          ap (λ r. find_task k r.1.committed) (sym h)
          ∙ migrated_task id target k σ.tables (migrate_status ctx id target σ).1.committed tasks
              found
    ]
