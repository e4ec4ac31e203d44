-- ===== src/Results/Versions.antt =====
-- What `submit_proposal` adds (backend/app/services/result_service.py).
use tasktrack.Prelude.{
  ℕ, ◌≡◌, refl, sym, ap, ◌∙◌, subst, ◌≤◌, ◌<◌, inl, inr, true, Option, none, some, List, [], ◌∷◌,
  ◌==◌, arith, is_some_of, first, All,
}
use tasktrack.Model.Enums.{ProposalStatus}
use tasktrack.Model.{Task, ResultProposal, WorkPackage, Tables}
use tasktrack.Query.{Context, ok, Result-cases, ◌>>=◌}
use tasktrack.Exec.{Session}
use tasktrack.Tasks.{get_task, save_task}
use tasktrack.Results.{find_proposal, recompute_state, get_proposal}
use tasktrack.Results.Derived.{some-eq}
use tasktrack.Results.Submission.{
  ProposalCreate, submit_proposal, checked_submission, proposal_of, find_previous, is_supersedable,
  last_version,
}
use tasktrack.Results.Superseding.{
  checked_submission-ok, submit_proposal_refused, submitted, submit_proposal_tables, superseded,
  submitted-new, submitted-old, previous-facts,
}

-- The versions that a task has used are at most the last.
last_version-All :
    (task_id : ℕ) (ps : List ResultProposal) (n : ℕ)
    → last_version task_id ps ≤ n
    → All (λ q. q.task_id ≡ task_id → q.version ≤ n) ps
unfolding last_version
last_version-All task_id [] n h = tt
last_version-All task_id (p ∷ ps) n h =
    (λ e. ground (arith, e), last_version-All task_id ps n (ground arith))

-- What a successful `submit_proposal` has found and done.
pub record HasSubmitted (ctx : Context) (id : ℕ) (dto : ProposalCreate) (s s' : Session)
    (p : ResultProposal) : Type 0 where
  pub task : Task
  pub previous : Option ResultProposal
  pub got : get_task ctx id s.tables ≡ ok task
  pub by_assignee : is_some_of task.assignee_id ctx.user.id ≡ true
  pub owner : (p.task_id ≡ task.id) × (p.author_id ≡ ctx.user.id)
  pub pending : p.status ≡ ProposalStatus.submitted
  pub stored : find_proposal p.id s'.committed ≡ some p
  pub newest : All (λ q. q.task_id ≡ task.id → q.version < p.version) s.tables.proposals
  pub chosen : find_previous task dto.supersedes_id s.tables ≡ ok previous
  pub replaced :
      (old : ResultProposal)
      → previous ≡ some old
      → (is_supersedable old.status ≡ true)
        × (find_proposal old.id s'.committed ≡ some (superseded old))

get_proposal-ok :
    (ctx : Context) (id : ℕ) (t : Tables) (p : ResultProposal)
    → get_proposal ctx id t ≡ ok p
    → find_proposal id t ≡ some p
unfolding get_proposal ◌>>=◌
get_proposal-ok ctx id t p h = ground arith

below :
    {P Q : ResultProposal → Type 0} (ps : List ResultProposal)
    → ((q : ResultProposal) → P q → Q q)
    → All P ps
    → All Q ps
below [] f h = tt
below (x ∷ xs) f (h, hs) = (f x h, below xs f hs)

same_proposals :
    (id : ℕ) (t u : Tables) → t.proposals ≡ u.proposals → find_proposal id t ≡ find_proposal id u
unfolding find_proposal
same_proposals id t u same = ap (first λ r. r.id == id) same

recompute_state-proposals :
    (task : Task) (t : Tables) → (recompute_state task t).proposals ≡ t.proposals
unfolding recompute_state save_task
recompute_state-proposals task t = refl

-- After the checks, the row is there whatever the answer.
submission_stores :
    (ctx : Context) (new_id id : ℕ) (dto : ProposalCreate) (s : Session) (task : Task)
    (pkg : Option WorkPackage) (previous : Option ResultProposal)
    → find_proposal new_id s.tables ≡ none
    → checked_submission ctx id dto s.tables ≡ ok (task, pkg, previous)
    → HasSubmitted ctx id dto s
        (submit_proposal ctx new_id id dto s).1
        (proposal_of ctx new_id dto task pkg previous s.tables)
unfolding proposal_of
submission_stores ctx new_id id dto s task pkg previous fresh passed =
    let p = proposal_of ctx new_id dto task pkg previous s.tables in
    let r = submit_proposal ctx new_id id dto s in
    let u = submitted p previous s.tables in
    let (_, proposals, commits, _) =
      submit_proposal_tables ctx new_id id dto s task pkg previous passed in
    let (got, by_assignee, chosen) =
      checked_submission-ok ctx id dto s.tables task pkg previous passed in
    let facts = previous-facts task dto.supersedes_id s.tables previous chosen in
    let reads = λ (k : ℕ).
      ap (λ t. find_proposal k t) commits
      ∙ same_proposals k r.1.tables u (proposals ∙ recompute_state-proposals task u) in
    record {
      task = task;
      previous = previous;
      got = got;
      by_assignee = by_assignee;
      owner = (refl, refl);
      pending = refl;
      stored = reads new_id ∙ submitted-new p previous s.tables fresh (λ old e. (facts old e).0);
      newest =
          below s.tables.proposals (λ q le own. ground (arith, le own))
            (last_version-All task.id s.tables.proposals (last_version task.id s.tables.proposals)
              (omega arith));
      chosen = chosen;
      replaced = λ old e.
          let (found, _, replaceable) = facts old e in
          (
            replaceable,
            reads old.id
                ∙ ap (λ o. find_proposal old.id (submitted p o s.tables)) e
                ∙ submitted-old p old s.tables found,
          );
    }

-- A submission comes from the task's assignee; its proposal is stored as submitted, with a version
-- above every version the task has, and the proposal it supersedes was open and is closed.
pub submit_proposal-HasSubmitted :
    (ctx : Context) (new_id id : ℕ) (dto : ProposalCreate) (s s' : Session) (p : ResultProposal)
    → find_proposal new_id s.tables ≡ none
    → submit_proposal ctx new_id id dto s ≡ (ok p, s')
    → HasSubmitted ctx id dto s s' p
unfolding proposal_of
submit_proposal-HasSubmitted ctx new_id id dto s s' p fresh h =
    elim (Result-cases (checked_submission ctx id dto s.tables)) [
      | inr (e, failed) ↦
          absurd (ground (arith, submit_proposal_refused ctx new_id id dto s failed))
      | inl ((task, pkg, previous), passed) ↦
          let p₀ = proposal_of ctx new_id dto task pkg previous s.tables in
          let r = submit_proposal ctx new_id id dto s in
          let done = submission_stores ctx new_id id dto s task pkg previous fresh passed in
          let (_, _, commits, answer) =
            submit_proposal_tables ctx new_id id dto s task pkg previous passed in
          let read : find_proposal new_id r.1.committed ≡ some p =
            ap (λ t. find_proposal new_id t) commits
            ∙ get_proposal-ok ctx new_id r.1.tables p (sym answer ∙ ap (λ x. x.0) h) in
          let same : p₀ ≡ p = some-eq (sym done.stored ∙ read) in
          subst (λ q. HasSubmitted ctx id dto s s' q) same
            (subst (λ v. HasSubmitted ctx id dto s v p₀) (ap (λ x. x.1) h) done)
    ]
