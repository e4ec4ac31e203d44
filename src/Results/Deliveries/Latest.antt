-- ===== src/Results/Deliveries/Latest.antt =====
-- Which proposal is delivered (backend/app/services/result_service.py).
use tasktrack.Prelude.{ℕ, ◌≡◌, Bool, true, false, ◌&&◌, none, some, [], ◌∷◌, ◌++◌, ◌==◌, ltb, any}
use tasktrack.Model.Enums.{ProposalStatus, status_eq}
use tasktrack.Model.{Task, ResultProposal, Delivery, Tables}
use tasktrack.Tasks.{find_task}
use tasktrack.Results.Deliveries.{last_delivery}

abbrev pub is_accepted : ℕ → ResultProposal → Bool
is_accepted task_id p = p.task_id == task_id && status_eq p.status ProposalStatus.accepted

abbrev pub outranks : ℕ → ℕ → ResultProposal → Bool
outranks task_id version q = is_accepted task_id q && ltb version q.version

-- What a successful `propose_delivery` has delivered and stored.
pub record HasDelivered (new_id task_id : ℕ) (t u : Tables) : Type 0 where
  pub proposal : ResultProposal
  pub delivery : Delivery
  pub task : Task
  pub stored : any (λ q. q.id == proposal.id) t.proposals ≡ true
  pub of_task : proposal.task_id ≡ task_id
  pub accepted : proposal.status ≡ ProposalStatus.accepted
  pub highest :
      any
        (λ q.
          (q.task_id == task_id && status_eq q.status ProposalStatus.accepted)
          && ltb proposal.version q.version)
        t.proposals
      ≡ false
  pub named : delivery.id ≡ new_id
  pub for_task : delivery.task_id ≡ task_id
  pub of_proposal : delivery.proposal_id ≡ proposal.id
  pub of_package : delivery.work_package_id ≡ proposal.work_package_id
  pub added : u.deliveries ≡ t.deliveries ++ delivery ∷ []
  pub current : last_delivery task_id u.deliveries ≡ some delivery
  pub shown : find_task task_id u ≡ some task
  pub awaits : task.recipient_acceptance ≡ none
