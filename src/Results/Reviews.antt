-- ===== src/Results/Reviews.antt =====
-- `review_proposal` of backend/app/services/result_service.py.
use Prim.Native.String.{◌++◌ as joined}
use tasktrack.Prelude.{
  ℕ, String, Option, none, some, List, [], ◌∷◌, ◌++◌, not, ◌||◌, str, is_nil, select, collect,
}
use tasktrack.Json.{Json, Dict, entry, empty}
use tasktrack.Model.Enums.{
  ReviewVerdict, ProposalStatus, NotificationEventType, NotificationEntityType, is_submitted,
  is_accepted_verdict, verdict_text,
}
use tasktrack.Model.{Task, WorkPackage, ResultProposal, Review, ReviewCriterion, Tables}
use tasktrack.Query.{
  Context, Query, http, proposal_not_reviewable, unknown_criterion, criteria_not_met, select_from,
  require, ◌>>=◌, ◌>>◌,
}
use tasktrack.Query
use tasktrack.Exec
use tasktrack.Exec.{Exec, ask, write, commit}
use tasktrack.Notifications.{notify}
use tasktrack.Results.{
  find_package, knows, criteria_keys, required_keys, load_for_update, require_reviewer,
  save_proposal, recompute_state, result_entry,
}

pub record ReviewCreate : Type 0 where
  pub verdict : ReviewVerdict
  pub rationale : String
  pub criteria : List ReviewCriterion

-- `_VERDICT_STATUS`
abbrev pub verdict_status : ReviewVerdict → ProposalStatus
verdict_status ReviewVerdict.accepted = ProposalStatus.accepted
verdict_status ReviewVerdict.changes_requested = ProposalStatus.changes_requested
verdict_status ReviewVerdict.rejected = ProposalStatus.rejected

-- `_VERDICT_TEXT`
abbrev pub verdict_message : ReviewVerdict → String
verdict_message ReviewVerdict.accepted = "принято"
verdict_message ReviewVerdict.changes_requested = "на доработку"
verdict_message ReviewVerdict.rejected = "отклонено"

abbrev pub package_of : ResultProposal → Tables → Option WorkPackage
package_of proposal t = elim proposal.work_package_id [ none ↦ none | some id ↦ find_package id t ]

-- `_criteria_keys(package) or {…}`: a package without criteria leaves the proposal's own.
abbrev pub known_keys : Option (List String) → ResultProposal → List String
known_keys none proposal = collect (λ c. c.key) proposal.criteria
known_keys (some []) proposal = collect (λ c. c.key) proposal.criteria
known_keys (some keys) proposal = keys

unfoldable pub unknown_keys : List String → List ReviewCriterion → List ReviewCriterion
unfolding knows
unknown_keys known cs = select (λ c. not (knows known c.key)) cs

-- The keys of the criteria that the review marks "met".
unfoldable pub met_keys : List ReviewCriterion → List String
met_keys cs = collect (λ c. c.key) (select (λ c. c.is_met) cs)

unfoldable pub missing_keys : Option WorkPackage → ResultProposal → ReviewCreate → List String
unfolding required_keys knows met_keys
missing_keys pkg proposal dto =
    select (λ k. not (knows (met_keys dto.criteria) k)) (required_keys pkg proposal)

-- The checks of `review_proposal`, in its order, down to the new row.
unfoldable pub checked_review : Context → ℕ → ReviewCreate → Query (ResultProposal × Task)
checked_review ctx proposal_id dto = do
  (proposal, task) ← load_for_update ctx proposal_id
  require_reviewer ctx task proposal
  require (is_submitted proposal.status) (http 409 proposal_not_reviewable)
  pkg ← select_from (package_of proposal)
  require (is_nil (unknown_keys (known_keys (criteria_keys pkg) proposal) dto.criteria))
      (http 422 unknown_criterion)
  require (not (is_accepted_verdict dto.verdict) || is_nil (missing_keys pkg proposal dto))
      (http 422 (criteria_not_met (missing_keys pkg proposal dto)))
  Query.pure (proposal, task)

abbrev pub review_of : Context → ℕ → ReviewCreate → ResultProposal → Review
review_of ctx new_id dto proposal = record {
  id = new_id;
  proposal_id = proposal.id;
  reviewer_id = ctx.user.id;
  verdict = dto.verdict;
  criteria = dto.criteria;
  rationale = dto.rationale;
}

-- The proposal, once reviewed.
abbrev pub reviewed : ReviewCreate → ResultProposal → ResultProposal
reviewed dto proposal = record proposal { status = verdict_status dto.verdict }

abbrev created_after : ReviewCreate → ResultProposal → Dict
created_after dto proposal = entry "proposal_id" (Json.uuid proposal.id) (
    entry "proposal_version" (Json.int proposal.version) (
      entry "verdict" (Json.text (verdict_text dto.verdict))
        (entry "rationale" (Json.text dto.rationale) empty)))

abbrev completed_message : Task → ResultProposal → ReviewCreate → String
completed_message task proposal dto = joined "Проверка " (
    joined task.key (
      joined " (версия "
        (joined (str proposal.version) (joined "): " (verdict_message dto.verdict)))))

abbrev notify_author : Task → ResultProposal → ReviewCreate → Tables → Tables
notify_author task proposal dto =
    notify proposal.author_id NotificationEventType.review_completed
      NotificationEntityType.result_proposal proposal.id (some task.id)
      (completed_message task proposal dto)

unfoldable pub review_proposal : Context → ℕ → ℕ → ReviewCreate → Exec Review
unfolding Exec.◌>>=◌
review_proposal ctx new_id proposal_id dto =
    Exec.◌>>=◌ (ask (checked_review ctx proposal_id dto)) λ found.
      let proposal = found.0 in
      let task = found.1 in
      let review = review_of ctx new_id dto proposal in
      Exec.◌>>=◌ (write (λ t. record t { reviews = t.reviews ++ review ∷ [] })) λ _.
        Exec.◌>>=◌ (write (save_proposal (reviewed dto proposal))) λ _.
          Exec.◌>>=◌
            (result_entry ctx task "review" review.id "created" none
              (some (created_after dto proposal)))
            λ _. Exec.◌>>=◌ (write (recompute_state task)) λ _.
              Exec.◌>>=◌ (write (notify_author task proposal dto))
                λ _. Exec.◌>>=◌ commit λ _. Exec.pure review
