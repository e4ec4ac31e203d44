-- ===== src/WorkProposals/Decided.antt =====
-- What a decision on a work proposal changes (backend/app/services/work_proposal_service.py).
use tasktrack.Prelude.{ℕ, ◌≡◌, refl, sym, ◌∙◌, subst, inl, inr, List, arith}
use tasktrack.Model.{Project, TaskType, Status, ExternalObject, WorkProposal, WorkProposalVersion}
use tasktrack.Query.{Context, Query, Result, ok, err, Result-cases}
use tasktrack.Exec
use tasktrack.Exec.{Session, Server, Exec, serve}
use tasktrack.Workflow.Boards.{map_workflow_to_boards}
use tasktrack.Notifications.{notify_task_assigned}
use tasktrack.Tasks.Creation.{
  TaskCreate, checked_creation, create_task, next_number, show_process, notify_if_assigned,
}
use tasktrack.Tasks.Creation.Numbering.{create_task_refused}
use tasktrack.WorkProposals.{
  Action, WorkProposalDecide, conversion_order, with_cause, cause_material, cause_basis, convert,
  link_to, merge_into, linked_task, merge_target, act,
}

-- The transaction sees these work proposals, and these are stored.
pub record Holds (w : List WorkProposal) (s : Session) : Type 0 where
  pub seen : s.tables.work_proposals ≡ w
  pub stored : s.committed.work_proposals ≡ w

abbrev pub Answers : {A : Type 0} → (A → Type 0) → Result A → Type 0
Answers Q (ok a) = Q a
Answers Q (err e) = Unit

-- An action that leaves the work proposals alone, with what it answers.
unfoldable pub Keeps : {A : Type 0} → List WorkProposal → (A → Type 0) → Exec A → Type 0
Keeps w Q m = (s : Session) → Holds w s → Holds w (m s).1 × Answers Q (m s).0

Keeps-continue :
    {A B : Type 0} (w : List WorkProposal) (P : A → Type 0) (Q : B → Type 0) (f : A → Exec B)
    (r : Result A) (s : Session)
    → ((a : A) → P a → Keeps w Q (f a))
    → Holds w s × Answers P r
    → Holds w (Exec.continue r f s).1 × Answers Q (Exec.continue r f s).0
unfolding Keeps
Keeps-continue w P Q f (ok a) s keeps (held, answer) = keeps a answer s held
Keeps-continue w P Q f (err e) s keeps (held, answer) = (held, tt)

Keeps-bind :
    {A B : Type 0} (w : List WorkProposal) (P : A → Type 0) (Q : B → Type 0) (m : Exec A)
    (f : A → Exec B)
    → Keeps w P m
    → ((a : A) → P a → Keeps w Q (f a))
    → Keeps w Q (Exec.◌>>=◌ m f)
unfolding Keeps Exec.◌>>=◌
Keeps-bind w P Q m f head tail s h = Keeps-continue w P Q f (m s).0 (m s).1 tail (head s h)

abbrev Any : {A : Type 0} → A → Type 0
Any a = Unit

Answers-Any : {A : Type 0} (r : Result A) → Answers Any r
Answers-Any (ok a) = tt
Answers-Any (err e) = tt

Keeps-ask : {A : Type 0} (w : List WorkProposal) (q : Query A) → Keeps w Any (Exec.ask q)
unfolding Keeps
Keeps-ask w q s h = (h, Answers-Any (q s.tables))

pub create_task-work_proposals :
    (ctx : Context) (new_id project_id : ℕ) (dto : TaskCreate) (s : Session) (project : Project)
    (task_type : TaskType) (workflow_id : ℕ) (status : Status)
    → checked_creation ctx project_id dto s.tables ≡ ok (project, task_type, workflow_id, status)
    → let r = create_task ctx new_id project_id dto s in
      (r.1.tables.work_proposals ≡ s.tables.work_proposals)
      × (r.1.committed.work_proposals ≡ s.tables.work_proposals)
      × (r.1.committed.members ≡ s.tables.members)
unfolding create_task next_number show_process map_workflow_to_boards notify_if_assigned
    notify_task_assigned
create_task-work_proposals ctx new_id project_id dto s project task_type workflow_id status h =
    ground arith

create_task-Keeps :
    (w : List WorkProposal) (ctx : Context) (new_id project_id : ℕ) (dto : TaskCreate)
    → Keeps w Any (create_task ctx new_id project_id dto)
unfolding Keeps
create_task-Keeps w ctx new_id project_id dto s h =
    elim (Result-cases (checked_creation ctx project_id dto s.tables)) [
      | inr (e, failed) ↦
          subst (λ r. Holds w r.1 × Answers Any r.0)
            (sym (create_task_refused ctx new_id project_id dto s failed)) (h, tt)
      | inl ((project, task_type, workflow_id, status), passed) ↦
          let (seen, stored, _) =
            create_task-work_proposals ctx new_id project_id dto s project task_type workflow_id
              status passed in
          (
            record { seen = seen ∙ h.seen; stored = stored ∙ h.seen },
            Answers-Any (create_task ctx new_id project_id dto s).0,
          )
    ]

with_cause-Keeps :
    (w : List WorkProposal) (ctx : Context) (new_id task_id : ℕ) (p : WorkProposal)
    (basis : ExternalObject) (version : WorkProposalVersion)
    → Keeps w Any (Exec.write (with_cause ctx new_id task_id p basis version))
unfolding Keeps with_cause
with_cause-Keeps w ctx new_id task_id p basis version s h =
    (record { seen = ground (arith, h.seen); stored = h.stored }, tt)

cause_basis-Keeps :
    (w : List WorkProposal) (ctx : Context) (new_id task_id : ℕ) (p : WorkProposal)
    → Keeps w Any (cause_basis ctx new_id task_id p)
unfolding cause_basis
cause_basis-Keeps w ctx new_id task_id p =
    Keeps-bind w Any Any (Exec.ask (cause_material p)) _ (Keeps-ask w (cause_material p))
      (λ (basis, version) _. with_cause-Keeps w ctx new_id task_id p basis version)

-- Whatever the decision, it is about the proposal it was asked for, which it has not saved yet.
pub act-Keeps :
    (w : List WorkProposal) (ctx : Context) (new_id basis_id : ℕ) (dto : WorkProposalDecide)
    (p : WorkProposal) (action : Action)
    → Keeps w (λ q. q.id ≡ p.id) (act ctx new_id basis_id dto p action)
unfolding act convert link_to merge_into Keeps
act-Keeps w ctx new_id basis_id dto p Action.create_task =
    Keeps-bind w Any (λ q. q.id ≡ p.id) (Exec.ask (conversion_order dto p)) _
      (Keeps-ask w (conversion_order dto p))
      (λ order _.
        Keeps-bind w Any (λ q. q.id ≡ p.id) (create_task ctx new_id p.project_id order) _
          (create_task-Keeps w ctx new_id p.project_id order)
          (λ task _.
            Keeps-bind w Any (λ q. q.id ≡ p.id) (cause_basis ctx basis_id task.id p) _
              (cause_basis-Keeps w ctx basis_id task.id p) (λ _ _ s h. (h, refl))))
act-Keeps w ctx new_id basis_id dto p Action.link =
    Keeps-bind w Any (λ q. q.id ≡ p.id) (Exec.ask (linked_task ctx dto.task_id p)) _
      (Keeps-ask w (linked_task ctx dto.task_id p))
      (λ task _.
        Keeps-bind w Any (λ q. q.id ≡ p.id) (cause_basis ctx basis_id task.id p) _
          (cause_basis-Keeps w ctx basis_id task.id p) (λ _ _ s h. (h, refl)))
act-Keeps w ctx new_id basis_id dto p Action.merge =
    Keeps-bind w Any (λ q. q.id ≡ p.id) (Exec.ask (merge_target ctx dto.merge_into_id p)) _
      (Keeps-ask w (merge_target ctx dto.merge_into_id p)) (λ target _ s h. (h, refl))
act-Keeps w ctx new_id basis_id dto p Action.defer = λ s h. (h, refl)
act-Keeps w ctx new_id basis_id dto p Action.reject = λ s h. (h, refl)
