-- ===== src/Results/Superseding.antt =====
-- `submit_proposal` and the proposal that it replaces (backend/app/services/result_service.py).
use tasktrack.Prelude.{
  ℕ, ◌≡◌, refl, sym, ap, ◌∙◌, subst, ◌≢◌, inl, inr, true, ◌&&◌, Option, none, some, [], ◌∷◌, ◌++◌,
  ◌==◌, arith, is_some_of, first, count, any, count-none, Bool-cases, count-append, any-append,
  first-append, first-append_none, first-modify_other, first-modify_self, ==→≡, ==_refl,
}
use tasktrack.Model.Enums.{ProposalStatus, status_eq}
use tasktrack.Model.{Task, ResultProposal, WorkPackage, Tables}
use tasktrack.Query.{Context, Error, ok, err, Result-cases, ◌>>=◌}
use tasktrack.Exec.{Session}
use tasktrack.Tasks.{find_task, get_task, get_task-ok, save_task}
use tasktrack.Results.{
  find_proposal, has_live, is_live, save_proposal, recompute_state, get_proposal,
}
use tasktrack.Results.Derived.{IsDerived, recompute_state-IsDerived}
use tasktrack.Results.States.{
  HasUniqueProposals, save_proposal-has_live, sees, find_proposal-own, find_task-id, IsDerived-same,
}
use tasktrack.Results.Submission.{
  ProposalCreate, submit_proposal, checked_submission, proposal_of, supersede, find_previous,
  is_supersedable,
}

pub checked_submission-ok :
    (ctx : Context) (id : ℕ) (dto : ProposalCreate) (t : Tables) (task : Task)
    (pkg : Option WorkPackage) (previous : Option ResultProposal)
    → checked_submission ctx id dto t ≡ ok (task, pkg, previous)
    → (get_task ctx id t ≡ ok task)
      × (is_some_of task.assignee_id ctx.user.id ≡ true)
      × (find_previous task dto.supersedes_id t ≡ ok previous)
unfolding checked_submission ◌>>=◌
checked_submission-ok ctx id dto t task pkg previous h = ground arith

pub submit_proposal_refused :
    (ctx : Context) (new_id id : ℕ) (dto : ProposalCreate) (s : Session) {e : Error}
    → checked_submission ctx id dto s.tables ≡ err e
    → submit_proposal ctx new_id id dto s ≡ (err e, s)
unfolding submit_proposal
submit_proposal_refused ctx new_id id dto s h = ground arith

-- The tables with the new proposal, and with the old one superseded.
unfoldable pub submitted : ResultProposal → Option ResultProposal → Tables → Tables
submitted p previous t = supersede previous (record t { proposals = t.proposals ++ p ∷ [] })

pub submit_proposal_tables :
    (ctx : Context) (new_id id : ℕ) (dto : ProposalCreate) (s : Session) (task : Task)
    (pkg : Option WorkPackage) (previous : Option ResultProposal)
    → checked_submission ctx id dto s.tables ≡ ok (task, pkg, previous)
    → let p = proposal_of ctx new_id dto task pkg previous s.tables in
      let t' = recompute_state task (submitted p previous s.tables) in
      let r = submit_proposal ctx new_id id dto s in
      (r.1.tables.tasks ≡ t'.tasks)
      × (r.1.tables.proposals ≡ t'.proposals)
      × (r.1.committed ≡ r.1.tables)
      × (r.0 ≡ get_proposal ctx new_id r.1.tables)
unfolding submit_proposal submitted save_proposal recompute_state save_task proposal_of
submit_proposal_tables ctx new_id id dto s task pkg previous h = ground arith

find_previous-ok :
    (task : Task) (supersedes_id : Option ℕ) (t : Tables) (old : ResultProposal)
    → find_previous task supersedes_id t ≡ ok (some old)
    → (find_proposal old.id t ≡ some old)
      × (old.task_id ≡ task.id)
      × (is_supersedable old.status ≡ true)
unfolding find_previous ◌>>=◌
find_previous-ok task none t old h = absurd (ground arith)
find_previous-ok task (some id) t old h =
    let found : find_proposal id t ≡ some old = ground arith in
    (find_proposal-own id t found, ground (arith, ==→≡ old.task_id task.id), ground arith)

-- The new row, read by its new id.
fresh_row :
    (p : ResultProposal) (t : Tables)
    → find_proposal p.id t ≡ none
    → first (λ r. r.id == p.id) (t.proposals ++ p ∷ []) ≡ some p
unfolding find_proposal first
fresh_row p t fresh =
    ground (arith, ==_refl p.id, first-append_none (λ r. r.id == p.id) t.proposals (p ∷ []))

-- A row that is there does not have a fresh id.
old_is_not_fresh :
    (new_id : ℕ) (t : Tables) (old : ResultProposal)
    → find_proposal new_id t ≡ none
    → find_proposal old.id t ≡ some old
    → old.id ≢ new_id
old_is_not_fresh new_id t old fresh found e =
    ground (arith, fresh, subst (λ k. find_proposal k t ≡ some old) e found)

unfoldable pub superseded : ResultProposal → ResultProposal
superseded old = record old { status = ProposalStatus.superseded }

pub submitted-new :
    (p : ResultProposal) (previous : Option ResultProposal) (t : Tables)
    → find_proposal p.id t ≡ none
    → ((old : ResultProposal) → previous ≡ some old → find_proposal old.id t ≡ some old)
    → find_proposal p.id (submitted p previous t) ≡ some p
unfolding submitted find_proposal save_proposal
submitted-new p none t fresh there = fresh_row p t fresh
submitted-new p (some old) t fresh there =
    let ne = old_is_not_fresh p.id t old fresh (there old refl) in
    first-modify_other (λ r. r.id == p.id) (λ r. r.id == old.id)
      (λ _. record old { status = ProposalStatus.superseded }) (t.proposals ++ p ∷ [])
      (λ x h. (ground (arith, ne), ground (arith, ne)))
    ∙ fresh_row p t fresh

pub submitted-old :
    (p old : ResultProposal) (t : Tables)
    → find_proposal old.id t ≡ some old
    → find_proposal old.id (submitted p (some old) t) ≡ some (superseded old)
unfolding submitted find_proposal save_proposal superseded
submitted-old p old t there =
    first-modify_self (λ r. r.id == old.id) (record old { status = ProposalStatus.superseded })
      (t.proposals ++ p ∷ []) (first-append (λ r. r.id == old.id) t.proposals (p ∷ []) there)
      (==_refl old.id)

abbrev added : ResultProposal → Tables → Tables
added p t = record t { proposals = t.proposals ++ p ∷ [] }

added-HasUniqueProposals :
    (p : ResultProposal) (t : Tables)
    → HasUniqueProposals t
    → find_proposal p.id t ≡ none
    → HasUniqueProposals (added p t)
unfolding HasUniqueProposals count find_proposal
added-HasUniqueProposals p t unique fresh id =
    let none_yet = count-none (λ r. r.id == p.id) t.proposals fresh in
    elim (Bool-cases (p.id == id)) [
      | inl same ↦
          let here =
            subst (λ k. count (λ r. r.id == k) t.proposals ≡ 0) (==→≡ p.id id same) none_yet in
          ground (arith, here, same, count-append (λ r. r.id == id) t.proposals (p ∷ []))
      | inr other ↦
          ground (arith, other, unique id, count-append (λ r. r.id == id) t.proposals (p ∷ []))
    ]

added-has_live :
    (p : ResultProposal) (t : Tables) (other : ℕ) (c : ProposalStatus)
    → other ≢ p.task_id
    → has_live c other (added p t).proposals ≡ has_live c other t.proposals
unfolding has_live any
added-has_live p t other c ne = ground (
  arith,
  sees c other p ne,
  any-append (λ r. r.task_id == other && (is_live r.status && status_eq r.status c)) t.proposals
      (p ∷ []),
)

submitted-has_live :
    (p : ResultProposal) (previous : Option ResultProposal) (t : Tables)
    → HasUniqueProposals t
    → find_proposal p.id t ≡ none
    → ((old : ResultProposal)
        → previous ≡ some old
        → (find_proposal old.id t ≡ some old) × (old.task_id ≡ p.task_id))
    → (other : ℕ) (c : ProposalStatus) → other ≢ p.task_id
    → has_live c other (submitted p previous t).proposals ≡ has_live c other t.proposals
unfolding submitted
submitted-has_live p none t unique fresh there other c ne = added-has_live p t other c ne
submitted-has_live p (some old) t unique fresh there other c ne =
    let (found, owner) = there old refl in
    save_proposal-has_live (record old { status = ProposalStatus.superseded }) (added p t) {p = old}
      (unfold find_proposal in
        first-append (λ r. r.id == old.id) t.proposals (p ∷ []) (unfold find_proposal in found))
      (added-HasUniqueProposals p t unique fresh) refl refl other c (λ e. ne (e ∙ owner))
    ∙ added-has_live p t other c ne

submitted-tasks :
    (p : ResultProposal) (previous : Option ResultProposal) (t : Tables)
    → (submitted p previous t).tasks ≡ t.tasks
unfolding submitted save_proposal
submitted-tasks p none t = refl
submitted-tasks p (some old) t = refl

-- What the chosen proposal to supersede is.
pub previous-facts :
    (task : Task) (supersedes_id : Option ℕ) (t : Tables) (previous : Option ResultProposal)
    → find_previous task supersedes_id t ≡ ok previous
    → (old : ResultProposal) → previous ≡ some old
    → (find_proposal old.id t ≡ some old)
      × (old.task_id ≡ task.id)
      × (is_supersedable old.status ≡ true)
previous-facts task supersedes_id t previous chosen old e =
    find_previous-ok task supersedes_id t old (chosen ∙ ap (λ o. ok o) e)

-- A submission whose row has a new id, whatever its answer, keeps each task's state derived from its
-- proposals.
pub submit_proposal-IsDerived :
    (ctx : Context) (new_id id k : ℕ) (dto : ProposalCreate) (s : Session)
    → find_proposal new_id s.tables ≡ none
    → HasUniqueProposals s.tables
    → IsDerived k s.tables
    → IsDerived k (submit_proposal ctx new_id id dto s).1.tables
unfolding proposal_of
submit_proposal-IsDerived ctx new_id id k dto s fresh unique derived =
    elim (Result-cases (checked_submission ctx id dto s.tables)) [
      | inr (e, failed) ↦
          subst (λ r. IsDerived k r.1.tables)
            (sym (submit_proposal_refused ctx new_id id dto s failed)) derived
      | inl ((task, pkg, previous), passed) ↦
          let p = proposal_of ctx new_id dto task pkg previous s.tables in
          let (tasks, proposals, _, _) =
            submit_proposal_tables ctx new_id id dto s task pkg previous passed in
          let (got, _, chosen) =
            checked_submission-ok ctx id dto s.tables task pkg previous passed in
          let facts = previous-facts task dto.supersedes_id s.tables previous chosen in
          IsDerived-same k (recompute_state task (submitted p previous s.tables))
            (submit_proposal ctx new_id id dto s).1.tables tasks proposals
            (recompute_state-IsDerived task s.tables (submitted p previous s.tables) k
              (subst (λ n. find_task n s.tables ≡ some task)
                (sym (find_task-id id s.tables (get_task-ok ctx id s.tables got).0))
                (get_task-ok ctx id s.tables got).0)
              (submitted-tasks p previous s.tables)
              (submitted-has_live p previous s.tables unique fresh
                λ old e. let (found, owner, _) = facts old e in (found, owner))
              derived)
    ]
