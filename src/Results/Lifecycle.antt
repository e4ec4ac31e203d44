-- ===== src/Results/Lifecycle.antt =====
-- What a review does (backend/app/services/result_service.py).
use tasktrack.Prelude.{
  ℕ, ◌≡◌, refl, ap, ◌∙◌, inl, inr, true, false, not, ◌||◌, some, [], ◌∷◌, ◌++◌, ◌==◌, arith, is_nil,
  is_some_of, first, first_sound, first-modify_self, ==→≡,
}
use tasktrack.Model.Enums.{is_submitted, is_accepted_verdict}
use tasktrack.Model.{Task, ProjectMember, ResultProposal, Review, Tables}
use tasktrack.Query.{Context, Error, ok, err, Result-cases, ◌>>=◌}
use tasktrack.Exec.{Session}
use tasktrack.Permissions.{require_writer}
use tasktrack.Tasks.{get_task, save_task}
use tasktrack.Results.{
  find_proposal, designates, require_reviewer, load_for_update, save_proposal, recompute_state,
}
use tasktrack.Results.Reviews.{
  ReviewCreate, review_proposal, checked_review, missing_keys, package_of, review_of, reviewed,
  verdict_status,
}

-- What a review of `proposal` of `task` by `member` has to meet.
pub record IsReviewable (ctx : Context) (dto : ReviewCreate) (proposal : ResultProposal)
    (task : Task) (member : ProjectMember) (t : Tables) : Type 0 where
  pub writer : require_writer ctx task.project_id t ≡ ok member
  pub profile : member.is_reviewer ≡ true
  pub not_author : (proposal.author_id == ctx.user.id) ≡ false
  pub not_assignee : is_some_of task.assignee_id ctx.user.id ≡ false
  pub designated : designates task.reviewer_id ctx.user.id ≡ true
  pub pending : is_submitted proposal.status ≡ true
  pub required_met :
      is_accepted_verdict dto.verdict ≡ true
      → is_nil (missing_keys (package_of proposal t) proposal dto) ≡ true

require_reviewer-ok :
    (ctx : Context) (task : Task) (proposal : ResultProposal) (t : Tables)
    → require_reviewer ctx task proposal t ≡ ok tt
    → (member : ProjectMember) × (require_writer ctx task.project_id t ≡ ok member)
      × (member.is_reviewer ≡ true)
      × ((proposal.author_id == ctx.user.id) ≡ false)
      × (is_some_of task.assignee_id ctx.user.id ≡ false)
      × (designates task.reviewer_id ctx.user.id ≡ true)
unfolding require_reviewer ◌>>=◌
require_reviewer-ok ctx task proposal t h =
    elim (Result-cases (require_writer ctx task.project_id t)) [
      | inr (e, failed) ↦ absurd (ground (arith, failed))
      | inl (member, passed) ↦ (
        member,
        passed,
        ground (arith, passed),
        ground (arith, passed),
        ground (arith, passed),
        ground (arith, passed),
      )
    ]

pub load_for_update-ok :
    (ctx : Context) (id : ℕ) (t : Tables) (proposal : ResultProposal) (task : Task)
    → load_for_update ctx id t ≡ ok (proposal, task)
    → (find_proposal id t ≡ some proposal) × (get_task ctx proposal.task_id t ≡ ok task)
unfolding load_for_update ◌>>=◌
load_for_update-ok ctx id t proposal task h = ground arith

pub checked_review-ok :
    (ctx : Context) (id : ℕ) (dto : ReviewCreate) (t : Tables) (proposal : ResultProposal)
    (task : Task)
    → checked_review ctx id dto t ≡ ok (proposal, task)
    → (load_for_update ctx id t ≡ ok (proposal, task))
      × (require_reviewer ctx task proposal t ≡ ok tt)
      × (is_submitted proposal.status ≡ true)
      × ((not (is_accepted_verdict dto.verdict)
            || is_nil (missing_keys (package_of proposal t) proposal dto))
          ≡ true)
unfolding checked_review ◌>>=◌
checked_review-ok ctx id dto t proposal task h = ground arith

pub review_proposal_refused :
    (ctx : Context) (new_id id : ℕ) (dto : ReviewCreate) (s : Session) {e : Error}
    → checked_review ctx id dto s.tables ≡ err e
    → review_proposal ctx new_id id dto s ≡ (err e, s)
unfolding review_proposal
review_proposal_refused ctx new_id id dto s h = ground arith

review_proposal_effect :
    (ctx : Context) (new_id id : ℕ) (dto : ReviewCreate) (s : Session) (proposal : ResultProposal)
    (task : Task)
    → checked_review ctx id dto s.tables ≡ ok (proposal, task)
    → let t' = recompute_state task (save_proposal (reviewed dto proposal) s.tables) in
      let r = review_proposal ctx new_id id dto s in
      (r.0 ≡ ok (review_of ctx new_id dto proposal))
      × (r.1.committed.proposals ≡ t'.proposals)
      × (r.1.committed.tasks ≡ t'.tasks)
      × (r.1.committed.reviews ≡ s.tables.reviews ++ review_of ctx new_id dto proposal ∷ [])
unfolding review_proposal save_proposal recompute_state save_task
review_proposal_effect ctx new_id id dto s proposal task h = ground arith

-- What a successful `review_proposal` has found and done.
pub record HasReviewed (ctx : Context) (new_id id : ℕ) (dto : ReviewCreate) (s s' : Session)
    (review : Review) : Type 0 where
  pub proposal : ResultProposal
  pub task : Task
  pub member : ProjectMember
  pub found : find_proposal id s.tables ≡ some proposal
  pub got : get_task ctx proposal.task_id s.tables ≡ ok task
  pub reviewable : IsReviewable ctx dto proposal task member s.tables
  pub added : s'.committed.reviews ≡ s.tables.reviews ++ review ∷ []
  pub result : review ≡ review_of ctx new_id dto proposal
  pub stored :
      find_proposal id s'.committed ≡ some (record proposal { status = verdict_status dto.verdict })

find_proposal-save_proposal :
    (id : ℕ) (p' : ResultProposal) (t : Tables) {p : ResultProposal}
    → find_proposal id t ≡ some p
    → p'.id ≡ p.id
    → find_proposal id (save_proposal p' t) ≡ some p'
unfolding find_proposal save_proposal
find_proposal-save_proposal id p' t {p} found same =
    let here : p'.id ≡ id = same ∙ ==→≡ p.id id (first_sound (λ r. r.id == id) t.proposals found) in
    ground (
      arith,
      here,
      first-modify_self (λ r. r.id == id) p' t.proposals {a = p},
      first-modify_self (λ r. r.id == p'.id) p' t.proposals {a = p},
    )

same_proposal :
    (id : ℕ) (t u : Tables) → u.proposals ≡ t.proposals → find_proposal id u ≡ find_proposal id t
unfolding find_proposal
same_proposal id t u same = ap (first λ r. r.id == id) same

-- A review comes from a writer with the reviewer profile who is neither the proposal's author nor
-- the task's assignee, and is the designated reviewer where there is one; it decides a submitted
-- proposal, accepts only with every required criterion met, and the proposal takes its verdict.
pub review_proposal-HasReviewed :
    (ctx : Context) (new_id id : ℕ) (dto : ReviewCreate) (s s' : Session) (review : Review)
    → review_proposal ctx new_id id dto s ≡ (ok review, s')
    → HasReviewed ctx new_id id dto s s' review
unfolding recompute_state save_task
review_proposal-HasReviewed ctx new_id id dto s s' review h =
    elim (Result-cases (checked_review ctx id dto s.tables)) [
      | inr (e, failed) ↦
          absurd (ground (arith, review_proposal_refused ctx new_id id dto s failed))
      | inl ((proposal, task), passed) ↦
          let (loaded, independent, pending, met) =
            checked_review-ok ctx id dto s.tables proposal task passed in
          let (found, got) = load_for_update-ok ctx id s.tables proposal task loaded in
          let (member, writer, profile, author, assignee, chosen) =
            require_reviewer-ok ctx task proposal s.tables independent in
          let (answer, proposals, tasks, reviews) =
            review_proposal_effect ctx new_id id dto s proposal task passed in
          let kept =
            same_proposal id (save_proposal (reviewed dto proposal) s.tables)
              (review_proposal ctx new_id id dto s).1.committed proposals in
          let stored = find_proposal-save_proposal id (reviewed dto proposal) s.tables found refl in
          record {
            proposal = proposal;
            task = task;
            member = member;
            found = found;
            got = got;
            reviewable = record {
              writer = writer;
              profile = profile;
              not_author = author;
              not_assignee = assignee;
              designated = chosen;
              pending = pending;
              required_met = λ accepts. ground (arith, met, accepts);
            };
            added = ground (arith, answer, reviews);
            result = ground (arith, answer);
            stored = ground (arith, kept, stored);
          }
    ]
