-- ===== src/Workflow/Statuses/Retained.antt =====
-- Statuses that deleted tasks still name (backend/app/services/workflow_service.py and
-- task_service.py).
use tasktrack.Prelude.{
  ℕ, ◌≡◌, refl, sym, ap, ◌∙◌, subst, inl, inr, Bool, true, false, some, List, [], ◌∷◌, ◌==◌, arith,
  first, any, ==_refl,
}
use tasktrack.Model.{Task, Tables}
use tasktrack.Query.{Context, Error, ok, err, Result-cases, ◌>>=◌}
use tasktrack.Exec.{Session}
use tasktrack.Tasks.{find_task, get_task, get_task-ok, save_task, find_task-save_task}
use tasktrack.Tasks.Updates.{checked_delete, delete_task}
use tasktrack.Workflow.{managed_status}
use tasktrack.Workflow.Statuses.{is_referenced, delete_status}
use tasktrack.Workflow.Statuses.Removal.{managed_status-ok, delete_status_refused, delete_status-ok}

first→any {ℓ} :
    {A : Type ℓ} (p q : A → Bool) (l : List A) {a : A}
    → first p l ≡ some a
    → q a ≡ true
    → any q l ≡ true
unfolding first any
first→any p q [] found here = absurd (ground arith)
first→any p q (x ∷ xs) {a} found here = ground (arith, first→any p q xs {a = a})

checked_delete-ok :
    (ctx : Context) (task_id : ℕ) (t : Tables) (task : Task)
    → checked_delete ctx task_id t ≡ ok task
    → get_task ctx task_id t ≡ ok task
unfolding checked_delete ◌>>=◌
checked_delete-ok ctx task_id t task h = ground arith

delete_task_tasks :
    (ctx : Context) (task_id : ℕ) (s : Session) (task : Task)
    → checked_delete ctx task_id s.tables ≡ ok task
    → (delete_task ctx task_id s).1.committed.tasks
      ≡ (save_task (record task { deleted_at = some ctx.now }) s.tables).tasks
unfolding delete_task save_task
delete_task_tasks ctx task_id s task h = ground (arith, h)

delete_task_refused :
    (ctx : Context) (task_id : ℕ) (s : Session) {e : Error}
    → checked_delete ctx task_id s.tables ≡ err e
    → delete_task ctx task_id s ≡ (err e, s)
unfolding delete_task
delete_task_refused ctx task_id s h = ground (arith, h)

some-eq : {A : Type 0} {a b : A} → some a ≡ some b → a ≡ b
some-eq h = ground arith

delete_task-names :
    (ctx : Context) (task_id : ℕ) (s s' : Session) (task : Task)
    → find_task task_id s.tables ≡ some task
    → delete_task ctx task_id s ≡ (ok tt, s')
    → is_referenced task.current_status_id s'.committed ≡ true
unfolding is_referenced find_task
delete_task-names ctx task_id s s' task there h =
    elim (Result-cases (checked_delete ctx task_id s.tables)) [
      | inr (e, failed) ↦ absurd (ground (arith, h, delete_task_refused ctx task_id s failed))
      | inl (row, passed) ↦
          let (found, _, _) =
            get_task-ok ctx task_id s.tables (checked_delete-ok ctx task_id s.tables row passed) in
          let row' = record row { deleted_at = some ctx.now } in
          let tasks : s'.committed.tasks ≡ (save_task row' s.tables).tasks =
            ap (λ r. r.1.committed.tasks) (sym h) ∙ delete_task_tasks ctx task_id s row passed in
          let same : row ≡ task = some-eq (sym found ∙ there) in
          let stored = find_task-save_task task_id row' s.tables found refl in
          ap (any λ k. k.current_status_id == task.current_status_id) tasks
          ∙ first→any (λ k. k.id == task_id) (λ k. k.current_status_id == task.current_status_id)
              (save_task row' s.tables).tasks stored
              (subst (λ k. (row.current_status_id == k.current_status_id) ≡ true) same
                (==_refl row.current_status_id))
    ]

-- A status that a task was in when it was deleted cannot be deleted afterwards: whoever asks for it,
-- the answer is an error, since the deleted task's row names the status still.
pub deleted_task_keeps_status :
    (ctx ctx' : Context) (task_id : ℕ) (s s₁ s₂ : Session) (task : Task)
    → find_task task_id s.tables ≡ some task
    → delete_task ctx task_id s ≡ (ok tt, s₁)
    → s₂.tables ≡ s₁.committed
    → ¬ ((delete_status ctx' task.current_status_id s₂).0 ≡ ok tt)
deleted_task_keeps_status ctx ctx' task_id s s₁ s₂ task there h seen done =
    let id = task.current_status_id in
    let named : is_referenced id s₂.tables ≡ true =
      ap (is_referenced id) seen ∙ delete_task-names ctx task_id s s₁ task there h in
    elim (Result-cases (managed_status ctx' id s₂.tables)) [
      | inr (e, failed) ↦ absurd (ground (arith, delete_status_refused ctx' id s₂ failed, done))
      | inl ((status, wf), passed) ↦
          let own = managed_status-ok ctx' id s₂.tables status wf passed in
          let free = (delete_status-ok ctx' id s₂ status wf passed done).0 in
          let free' = subst (λ k. is_referenced k s₂.tables ≡ false) own free in
          absurd (ground (arith, named, free'))
    ]
