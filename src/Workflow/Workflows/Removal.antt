-- ===== src/Workflow/Workflows/Removal.antt =====
-- `delete_workflow` of backend/app/services/workflow_service.py.
use tasktrack.Prelude.{
  ℕ, ◌≡◌, refl, sym, ap, ◌∙◌, subst, inl, inr, Bool, true, false, not, none, some, List, [], ◌∷◌,
  ◌==◌, leb, arith, first, select, modify, any, count, ==→≡, first_sound, is_some_of,
}
use tasktrack.Model.{Workflow, Tables}
use tasktrack.Query.{Context, Error, ok, err, Result-cases, ◌>>=◌}
use tasktrack.Exec.{Session}
use tasktrack.Workflow.{find_workflow, get_workflow_or_404, managed_workflow}
use tasktrack.Workflow.Workflows.{
  count_tasks, is_cut, without_default, without_workflow, delete_workflow,
}

-- A workflow of which nothing is left.
pub record IsRemoved (id : ℕ) (t : Tables) : Type 0 where
  pub no_row : find_workflow id t ≡ none
  pub no_task : any (λ task. task.workflow_id == id) t.tasks ≡ false
  pub no_status : any (λ s. s.workflow_id == id) t.statuses ≡ false
  pub no_transition : any (λ tr. tr.workflow_id == id) t.transitions ≡ false
  pub no_config : any (λ c. c.workflow_id == id) t.type_configs ≡ false
  pub no_type : any (λ ty. is_some_of ty.default_workflow_id id) t.task_types ≡ false

select_out {ℓ} :
    {A : Type ℓ} (p q : A → Bool) (l : List A)
    → ((a : A) → p a ≡ true → q a ≡ true)
    → (first p (select (λ a. not (q a)) l) ≡ none) × (any p (select (λ a. not (q a)) l) ≡ false)
unfolding first select any
select_out p q [] within = (refl, refl)
select_out p q (x ∷ xs) within = ground (arith, within x, select_out p q xs within)

modify_out {ℓ} :
    {A : Type ℓ} (p : A → Bool) (f : A → A) (l : List A)
    → ((a : A) → p (f a) ≡ false)
    → any p (modify p f l) ≡ false
unfolding modify any
modify_out p f [] out = refl
modify_out p f (x ∷ xs) out = ground (arith, out x, modify_out p f xs out)

count→any {ℓ} :
    {A : Type ℓ} (p : A → Bool) (l : List A) → leb (count p l) 0 ≡ true → any p l ≡ false
unfolding count any
count→any p [] none_of = refl
count→any p (x ∷ xs) none_of = ground (arith, count→any p xs)

without_workflow-IsRemoved :
    (id : ℕ) (t : Tables) → leb (count_tasks id t) 0 ≡ true → IsRemoved id (without_workflow id t)
unfolding without_workflow find_workflow count_tasks is_cut without_default
without_workflow-IsRemoved id t free = record {
  no_row = (select_out (λ w. w.id == id) (λ w. w.id == id) t.workflows (λ w h. h)).0;
  no_task = count→any (λ task. task.workflow_id == id) t.tasks free;
  no_status =
      (select_out (λ s. s.workflow_id == id) (λ s. s.workflow_id == id) t.statuses (λ s h. h)).1;
  no_transition =
      (select_out (λ tr. tr.workflow_id == id) (is_cut id t.statuses) t.transitions
        (λ tr h. ground arith)).1;
  no_config =
      (select_out (λ c. c.workflow_id == id) (λ c. c.workflow_id == id) t.type_configs
        (λ c h. h)).1;
  no_type =
      modify_out (λ ty. is_some_of ty.default_workflow_id id) without_default t.task_types
        (λ ty. refl);
}

-- What a passed `delete_workflow` has met, and what it stores.
delete_workflow-ok :
    (ctx : Context) (id : ℕ) (s : Session) (wf : Workflow)
    → managed_workflow ctx id s.tables ≡ ok wf
    → (delete_workflow ctx id s).0 ≡ ok tt
    → (wf.is_default ≡ false)
      × (leb (count_tasks id s.tables) 0 ≡ true)
      × ((delete_workflow ctx id s).1.committed
          ≡ without_workflow wf.id
              (record s.tables { audit = (delete_workflow ctx id s).1.committed.audit }))
unfolding delete_workflow without_workflow
delete_workflow-ok ctx id s wf h done = ground arith

delete_workflow_refused :
    (ctx : Context) (id : ℕ) (s : Session) {e : Error}
    → managed_workflow ctx id s.tables ≡ err e
    → delete_workflow ctx id s ≡ (err e, s)
unfolding delete_workflow
delete_workflow_refused ctx id s h = ground arith

managed_workflow-ok :
    (ctx : Context) (id : ℕ) (t : Tables) (wf : Workflow)
    → managed_workflow ctx id t ≡ ok wf
    → wf.id ≡ id
unfolding managed_workflow ◌>>=◌ get_workflow_or_404 find_workflow
managed_workflow-ok ctx id t wf h =
    let found : first (λ w. w.id == id) t.workflows ≡ some wf = ground arith in
    ==→≡ wf.id id (first_sound (λ w. w.id == id) t.workflows found)

-- Whoever deletes a workflow deletes one that was not its project's default and that no task was
-- on, and leaves nothing behind: no row, no task, no status, no transition, no configuration of a
-- task type and no task type that names it. The tasks are as before.
pub delete_workflow-IsRemoved :
    (ctx : Context) (id : ℕ) (s s' : Session)
    → delete_workflow ctx id s ≡ (ok tt, s')
    → (wf : Workflow) × (managed_workflow ctx id s.tables ≡ ok wf)
      × (wf.is_default ≡ false)
      × (s'.committed.tasks ≡ s.tables.tasks)
      × IsRemoved id s'.committed
unfolding without_workflow count_tasks
delete_workflow-IsRemoved ctx id s s' h = elim (Result-cases (managed_workflow ctx id s.tables)) [
  | inr (e, failed) ↦ absurd (ground (arith, delete_workflow_refused ctx id s failed))
  | inl (wf, passed) ↦
      let own = managed_workflow-ok ctx id s.tables wf passed in
      let (basic, free, commits) = delete_workflow-ok ctx id s wf passed (ap (λ r. r.0) h) in
      let logged : Tables = record s.tables {
        audit = (delete_workflow ctx id s).1.committed.audit;
      } in
      let stored : s'.committed ≡ without_workflow id logged =
        ap (λ r. r.1.committed) (sym h) ∙ commits ∙ ap (λ k. without_workflow k logged) own in
      (
        wf,
        passed,
        basic,
        ap (λ t. t.tasks) stored,
        subst (IsRemoved id) (sym stored) (without_workflow-IsRemoved id logged free),
      )
]
