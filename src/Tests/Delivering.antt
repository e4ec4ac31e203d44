-- ===== src/Tests/Delivering.antt =====
-- Examples of deliveries and of requests on proposals.
use tasktrack.Prelude.{ℕ, refl, none, some, List, [], ◌∷◌}
use tasktrack.Model.Enums.{ProposalStatus}
use tasktrack.Model.{Task, Tables}
use tasktrack.Query.{Context}
use tasktrack.Exec.{Session, Server}
use tasktrack.Results.Deliveries.{
  DeliveryCreate, RecipientAcceptanceCreate, delivered, delivery_summary, new_delivery,
  propose_delivery, last_delivery,
}
use tasktrack.Results.Deliveries.Binding.{is_bound, IsBound}
use tasktrack.Results.Deliveries.Exchanges.{Request, run, run-IsBound}
use tasktrack.Tests.{page, draft, world, opened, request_of}

abbrev finished : Tables
finished = record world { proposals = record draft { status = ProposalStatus.accepted } ∷ [] }

abbrev parcel : DeliveryCreate
parcel = record { target = "Office"; ref = none; note = none }

abbrev after_delivery : Session
after_delivery = (propose_delivery (request_of 8) 950 100 parcel (opened finished)).1

abbrev shown_page : Task
shown_page =
    delivered
      (delivery_summary (request_of 8) (new_delivery (request_of 8) 950 page draft parcel) draft)
      page

abbrev receipt : RecipientAcceptanceCreate
receipt = record {
  accepted_by = "Clerk";
  accepted_at = 900;
  source = "letter";
  ref = none;
  note = none;
  delivery_id = none;
  recipient = none;
  usage_scope = none;
  authority = none;
  fact_revision_id = none;
}

abbrev exchange : List (Context × Request)
exchange =
    (request_of 8, Request.propose 950 100 parcel)
    ∷ (request_of 7, Request.accept 960 100 receipt)
    ∷ (request_of 7, Request.withdraw 960 "Mistaken")
    ∷ (request_of 8, Request.propose 951 100 parcel)
    ∷ []

abbrev office : Server
office = record { tables = finished; bus = [] }

finished-IsBound : IsBound finished
unfolding IsBound is_bound
finished-IsBound = (refl, tt)

run-IsBound_example : IsBound (run exchange office).tables
run-IsBound_example = run-IsBound exchange office finished-IsBound
