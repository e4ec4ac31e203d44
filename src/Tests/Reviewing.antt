-- ===== src/Tests/Reviewing.antt =====
-- Examples of proposals and reviews.
use tasktrack.Prelude.{ℕ, ◌≡◌, ◌≤◌, refl, none, some, true, false, [], ◌∷◌, All, count, arith}
use tasktrack.Json.{empty}
use tasktrack.Model.Enums.{ReviewVerdict, CriterionStatus}
use tasktrack.Model.{ResultProposal, Review}
use tasktrack.Query.{ok}
use tasktrack.Exec.{Session}
use tasktrack.Tests.{page, draft, assignment, world, opened, request_of}
use tasktrack.Results.{find_proposal, knows, required_keys}
use tasktrack.Results.Acceptance.{MeetsRequired, accepting_review-MeetsRequired}
use tasktrack.Results.Derived.{IsDerived}
use tasktrack.Results.Lifecycle.{HasReviewed, review_proposal-HasReviewed}
use tasktrack.Results.Reviews.{ReviewCreate, review_proposal, review_of, met_keys, package_of}
use tasktrack.Results.Requests.{Request, handle, IsFresh, handle-IsDerived}
use tasktrack.Results.States.{HasUniqueProposals}
use tasktrack.Results.Submission.{ProposalCreate, submit_proposal, proposal_of, withdraw_proposal}
use tasktrack.Results.Versions.{HasSubmitted, submit_proposal-HasSubmitted}

abbrev approval : ReviewCreate
approval = record {
  verdict = ReviewVerdict.accepted;
  rationale = "Checked";
  criteria = record { key = "c1"; is_met = true; note = none } ∷ [];
}

abbrev approved : Review
approved = review_of (request_of 7) 900 approval draft

abbrev after_review : Session
after_review = (review_proposal (request_of 7) 900 500 approval (opened world)).1

review_succeeds :
    review_proposal (request_of 7) 900 500 approval (opened world) ≡ (ok approved, after_review)
unfolding review_proposal tasktrack.Query.◌>>=◌ tasktrack.Tasks.get_task tasktrack.Tasks.find_task
    tasktrack.Prelude.first tasktrack.Prelude.select tasktrack.Prelude.any tasktrack.Prelude.collect
    tasktrack.Prelude.modify tasktrack.Permissions.require_project_access
    tasktrack.Permissions.get_project tasktrack.Permissions.find_project
    tasktrack.Permissions.find_member tasktrack.Permissions.has_role tasktrack.Permissions.rank
    tasktrack.Permissions.require_role tasktrack.Permissions.require_writer
    tasktrack.Results.recompute_state tasktrack.Tasks.save_task tasktrack.Results.save_proposal
    tasktrack.Results.derived_state tasktrack.Results.find_package tasktrack.Results.has_live knows
    find_proposal tasktrack.Results.get_proposal tasktrack.Results.Reviews.checked_review
    tasktrack.Results.load_for_update tasktrack.Results.require_reviewer
    tasktrack.Results.Reviews.unknown_keys tasktrack.Results.Reviews.missing_keys met_keys
    required_keys
review_succeeds = refl

review_proposal-HasReviewed_example :
    HasReviewed (request_of 7) 900 500 approval (opened world) after_review approved
review_proposal-HasReviewed_example =
    review_proposal-HasReviewed (request_of 7) 900 500 approval (opened world) after_review approved
      review_succeeds

accepting_review-MeetsRequired_example :
    (p : ResultProposal) × (find_proposal 500 world ≡ some p) × MeetsRequired approved p world
accepting_review-MeetsRequired_example =
    accepting_review-MeetsRequired (request_of 7) 900 500 approval (opened world) after_review
      approved review_succeeds refl

world-IsDerived : IsDerived 100 world
unfolding IsDerived tasktrack.Tasks.find_task tasktrack.Prelude.first
    tasktrack.Results.derived_state tasktrack.Prelude.any
world-IsDerived = refl

world_is_keyed : HasUniqueProposals world
unfolding HasUniqueProposals count
world_is_keyed id = ground arith

abbrev correction : ProposalCreate
correction = record {
  summary = "Again";
  links = [];
  criteria = record { key = "c1"; status = CriterionStatus.met; evidence = none } ∷ [];
  checks = [];
  limitations = none;
  provenance = empty;
  work_package_id = none;
  supersedes_id = some 500;
}

abbrev corrected : ResultProposal
corrected = proposal_of (request_of 8) 501 correction page (some assignment) (some draft) world

abbrev after_submission : Session
after_submission = (submit_proposal (request_of 8) 501 100 correction (opened world)).1

submission_succeeds :
    submit_proposal (request_of 8) 501 100 correction (opened world)
    ≡ (ok corrected, after_submission)
unfolding submit_proposal tasktrack.Query.◌>>=◌ tasktrack.Tasks.get_task tasktrack.Tasks.find_task
    tasktrack.Prelude.first tasktrack.Prelude.select tasktrack.Prelude.any tasktrack.Prelude.collect
    tasktrack.Prelude.modify tasktrack.Permissions.require_project_access
    tasktrack.Permissions.get_project tasktrack.Permissions.find_project
    tasktrack.Permissions.find_member tasktrack.Permissions.has_role tasktrack.Permissions.rank
    tasktrack.Permissions.require_role tasktrack.Permissions.require_writer
    tasktrack.Results.recompute_state tasktrack.Tasks.save_task tasktrack.Results.save_proposal
    tasktrack.Results.derived_state tasktrack.Results.find_package tasktrack.Results.has_live knows
    find_proposal tasktrack.Results.get_proposal tasktrack.Results.Submission.checked_submission
    tasktrack.Results.resolve_package tasktrack.Results.Submission.unknown_criteria
    tasktrack.Results.Submission.find_previous tasktrack.Results.Submission.last_version proposal_of
    tasktrack.Json.merge
submission_succeeds = refl

is_new : find_proposal 501 world ≡ none
unfolding find_proposal tasktrack.Prelude.first
is_new = refl

submit_proposal-HasSubmitted_example :
    HasSubmitted (request_of 8) 100 correction (opened world) after_submission corrected
submit_proposal-HasSubmitted_example =
    submit_proposal-HasSubmitted (request_of 8) 501 100 correction (opened world) after_submission
      corrected is_new submission_succeeds

submission-IsFresh : IsFresh (Request.submit 501 100 correction) world
unfolding IsFresh
submission-IsFresh = is_new

handle-IsDerived_example :
    IsDerived 100 (handle (request_of 8) (Request.submit 501 100 correction) (opened world)).tables
handle-IsDerived_example =
    handle-IsDerived (request_of 8) (Request.submit 501 100 correction) 100 (opened world)
      world_is_keyed submission-IsFresh world-IsDerived
