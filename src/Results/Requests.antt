-- ===== src/Results/Requests.antt =====
-- Requests on proposals (backend/app/services/result_service.py).
use tasktrack.Prelude.{ℕ, ◌≡◌, none}
use tasktrack.Model.{Tables}
use tasktrack.Query.{Context}
use tasktrack.Exec.{Session}
use tasktrack.Results.{find_proposal}
use tasktrack.Results.Derived.{IsDerived}
use tasktrack.Results.Reviews.{ReviewCreate, review_proposal}
use tasktrack.Results.States.{
  HasUniqueProposals, review_proposal-IsDerived, withdraw_proposal-IsDerived,
}
use tasktrack.Results.Submission.{ProposalCreate, submit_proposal, withdraw_proposal}
use tasktrack.Results.Superseding.{submit_proposal-IsDerived}

-- The requests that change proposals; a new row comes with its id.
pub data Request : Type 0 where
  submit : ℕ → ℕ → ProposalCreate → Request
  review : ℕ → ℕ → ReviewCreate → Request
  withdraw : ℕ → Request

-- The session after a request, answered or refused.
unfoldable pub handle : Context → Request → Session → Session
handle ctx (submit new_id task_id dto) s = (submit_proposal ctx new_id task_id dto s).1
handle ctx (review new_id id dto) s = (review_proposal ctx new_id id dto s).1
handle ctx (withdraw id) s = (withdraw_proposal ctx id s).1

-- The id of a new proposal is new.
unfoldable pub IsFresh : Request → Tables → Type 0
IsFresh (submit new_id task_id dto) t = find_proposal new_id t ≡ none
IsFresh _ t = Unit {0}

-- A submission, a review or a withdrawal, answered or refused, keeps the state that any task shows
-- equal to the one that its proposals give it, where the ids of proposals are unique and a new one is
-- new.
pub handle-IsDerived :
    (ctx : Context) (r : Request) (k : ℕ) (s : Session)
    → HasUniqueProposals s.tables
    → IsFresh r s.tables
    → IsDerived k s.tables
    → IsDerived k (handle ctx r s).tables
unfolding handle IsFresh
handle-IsDerived ctx (Request.submit new_id task_id dto) k s unique fresh h =
    submit_proposal-IsDerived ctx new_id task_id k dto s fresh unique h
handle-IsDerived ctx (Request.review new_id id dto) k s unique fresh h =
    review_proposal-IsDerived ctx new_id id k dto s unique h
handle-IsDerived ctx (Request.withdraw id) k s unique fresh h =
    withdraw_proposal-IsDerived ctx id k s unique h
