-- ===== src/Results/States.antt =====
-- `Task.result_state` after the operations on proposals
-- (backend/app/services/result_service.py).
use tasktrack.Prelude.{
  ℕ, ◌≡◌, refl, sym, ap, ◌∙◌, subst, ◌≢◌, ◌≤◌, inl, inr, false, ◌&&◌, some, ◌==◌, arith, first,
  count, first_sound, ==→≡,
}
use tasktrack.Model.Enums.{ProposalStatus, status_eq}
use tasktrack.Model.{Task, ResultProposal, Tables}
use tasktrack.Query.{Context, Error, ok, err, Result-cases, ◌>>=◌}
use tasktrack.Exec.{Session}
use tasktrack.Tasks.{find_task, get_task-ok, save_task}
use tasktrack.Results.{
  find_proposal, derived_state, has_live, is_live, save_proposal, recompute_state, load_for_update,
}
use tasktrack.Results.Derived.{
  IsDerived, IsDerived-found, found-IsDerived, any-replace, recompute_state-IsDerived,
}
use tasktrack.Results.Lifecycle.{load_for_update-ok, checked_review-ok, review_proposal_refused}
use tasktrack.Results.Reviews.{ReviewCreate, review_proposal, checked_review, reviewed}
use tasktrack.Results.Submission.{withdraw_proposal, checked_withdrawal, withdrawn}

-- The primary key of `result_proposals`.
unfoldable pub HasUniqueProposals : Tables → Type 0
HasUniqueProposals t = (id : ℕ) → count (λ p. p.id == id) t.proposals ≤ 1

pub sees :
    (c : ProposalStatus) (other : ℕ) (p : ResultProposal)
    → other ≢ p.task_id
    → (p.task_id == other && (is_live p.status && status_eq p.status c)) ≡ false
sees c other p ne = ground arith

-- Another version of a task's proposal is nothing to the other tasks.
pub save_proposal-has_live :
    (p' : ResultProposal) (t : Tables) {p : ResultProposal}
    → find_proposal p.id t ≡ some p
    → HasUniqueProposals t
    → p'.id ≡ p.id
    → p'.task_id ≡ p.task_id
    → (other : ℕ) (c : ProposalStatus) → other ≢ p.task_id
    → has_live c other (save_proposal p' t).proposals ≡ has_live c other t.proposals
unfolding has_live save_proposal HasUniqueProposals find_proposal
save_proposal-has_live p' t {p} found unique same_id same_task other c ne =
    any-replace (λ r. r.task_id == other && (is_live r.status && status_eq r.status c))
      (λ r. r.id == p'.id) p' t.proposals {a = p}
      (subst (λ k. first (λ r. r.id == k) t.proposals ≡ some p) (sym same_id) found) (unique p'.id)
      (sees c other p' (λ e. ne (e ∙ same_task)) ∙ sym (sees c other p ne))

-- A proposal that was read by its id has it.
pub find_proposal-own :
    (id : ℕ) (t : Tables) {p : ResultProposal}
    → find_proposal id t ≡ some p
    → find_proposal p.id t ≡ some p
unfolding find_proposal
find_proposal-own id t {p} found =
    subst (λ k. first (λ r. r.id == k) t.proposals ≡ some p)
      (sym (==→≡ p.id id (first_sound (λ r. r.id == id) t.proposals found))) found

pub find_task-id : (id : ℕ) (t : Tables) {task : Task} → find_task id t ≡ some task → task.id ≡ id
unfolding find_task
find_task-id id t {task} found = ==→≡ task.id id (first_sound (λ r. r.id == id) t.tasks found)

-- Deciding on a proposal of the task, and recomputing the task.
decided-IsDerived :
    (id k : ℕ) (ctx : Context) (t : Tables) (p p' : ResultProposal) (task : Task)
    → load_for_update ctx id t ≡ ok (p, task)
    → HasUniqueProposals t
    → p'.id ≡ p.id
    → p'.task_id ≡ p.task_id
    → IsDerived k t
    → IsDerived k (recompute_state task (save_proposal p' t))
decided-IsDerived id k ctx t p p' task loaded unique same_id same_task derived =
    let (found, got) = load_for_update-ok ctx id t p task loaded in
    let there = (get_task-ok ctx p.task_id t got).0 in
    let owner : task.id ≡ p.task_id = find_task-id p.task_id t there in
    recompute_state-IsDerived task t (save_proposal p' t) k
      (subst (λ n. find_task n t ≡ some task) (sym owner) there) (unfold save_proposal in refl)
      (λ other c ne.
        save_proposal-has_live p' t {p = p} (find_proposal-own id t found) unique same_id same_task
          other c (λ e. ne (e ∙ sym owner)))
      derived

-- What `IsDerived` reads.
pub IsDerived-same :
    (k : ℕ) (t u : Tables)
    → u.tasks ≡ t.tasks
    → u.proposals ≡ t.proposals
    → IsDerived k t
    → IsDerived k u
unfolding find_task
IsDerived-same k t u tasks proposals derived = found-IsDerived k u λ task found.
    IsDerived-found k t derived (sym (ap (first λ r. r.id == k) tasks) ∙ found)
    ∙ ap (derived_state k) (sym proposals)

review_proposal_tables :
    (ctx : Context) (new_id id : ℕ) (dto : ReviewCreate) (s : Session) (proposal : ResultProposal)
    (task : Task)
    → checked_review ctx id dto s.tables ≡ ok (proposal, task)
    → let t' = recompute_state task (save_proposal (reviewed dto proposal) s.tables) in
      let r = review_proposal ctx new_id id dto s in
      (r.1.tables.tasks ≡ t'.tasks) × (r.1.tables.proposals ≡ t'.proposals)
unfolding review_proposal save_proposal recompute_state save_task
review_proposal_tables ctx new_id id dto s proposal task h = ground arith

-- A review, whatever its answer, keeps each task's state derived from its proposals.
pub review_proposal-IsDerived :
    (ctx : Context) (new_id id k : ℕ) (dto : ReviewCreate) (s : Session)
    → HasUniqueProposals s.tables
    → IsDerived k s.tables
    → IsDerived k (review_proposal ctx new_id id dto s).1.tables
review_proposal-IsDerived ctx new_id id k dto s unique derived =
    elim (Result-cases (checked_review ctx id dto s.tables)) [
      | inr (e, failed) ↦
          subst (λ r. IsDerived k r.1.tables)
            (sym (review_proposal_refused ctx new_id id dto s failed)) derived
      | inl ((proposal, task), passed) ↦
          let (tasks, proposals) =
            review_proposal_tables ctx new_id id dto s proposal task passed in
          let loaded = (checked_review-ok ctx id dto s.tables proposal task passed).0 in
          IsDerived-same k (recompute_state task (save_proposal (reviewed dto proposal) s.tables))
            (review_proposal ctx new_id id dto s).1.tables tasks proposals
            (decided-IsDerived id k ctx s.tables proposal (reviewed dto proposal) task loaded unique
              refl refl derived)
    ]

checked_withdrawal-ok :
    (ctx : Context) (id : ℕ) (t : Tables) (p : ResultProposal) (task : Task)
    → checked_withdrawal ctx id t ≡ ok (p, task)
    → load_for_update ctx id t ≡ ok (p, task)
unfolding checked_withdrawal ◌>>=◌
checked_withdrawal-ok ctx id t p task h = ground arith

withdraw_proposal_refused :
    (ctx : Context) (id : ℕ) (s : Session) {e : Error}
    → checked_withdrawal ctx id s.tables ≡ err e
    → withdraw_proposal ctx id s ≡ (err e, s)
unfolding withdraw_proposal
withdraw_proposal_refused ctx id s h = ground arith

withdraw_proposal_tables :
    (ctx : Context) (id : ℕ) (s : Session) (p : ResultProposal) (task : Task)
    → checked_withdrawal ctx id s.tables ≡ ok (p, task)
    → let t' = recompute_state task (save_proposal (withdrawn p) s.tables) in
      let r = withdraw_proposal ctx id s in
      (r.1.tables.tasks ≡ t'.tasks) × (r.1.tables.proposals ≡ t'.proposals)
unfolding withdraw_proposal save_proposal recompute_state save_task
withdraw_proposal_tables ctx id s p task h = ground arith

-- A withdrawal, whatever its answer, keeps each task's state derived from its proposals.
pub withdraw_proposal-IsDerived :
    (ctx : Context) (id k : ℕ) (s : Session)
    → HasUniqueProposals s.tables
    → IsDerived k s.tables
    → IsDerived k (withdraw_proposal ctx id s).1.tables
withdraw_proposal-IsDerived ctx id k s unique derived =
    elim (Result-cases (checked_withdrawal ctx id s.tables)) [
      | inr (e, failed) ↦
          subst (λ r. IsDerived k r.1.tables) (sym (withdraw_proposal_refused ctx id s failed))
            derived
      | inl ((p, task), passed) ↦
          let (tasks, proposals) = withdraw_proposal_tables ctx id s p task passed in
          IsDerived-same k (recompute_state task (save_proposal (withdrawn p) s.tables))
            (withdraw_proposal ctx id s).1.tables tasks proposals
            (decided-IsDerived id k ctx s.tables p (withdrawn p) task
              (checked_withdrawal-ok ctx id s.tables p task passed) unique refl refl derived)
    ]
