-- ===== src/Results/Deliveries/Exchanges.antt =====
-- Requests on deliveries, one after the other (backend/app/services/result_service.py).
use tasktrack.Prelude.{
  ℕ, String, ◌≡◌, refl, sym, subst, inl, inr, Bool-cases, Option-cases, true, none, some, List, [],
  ◌∷◌, ◌++◌, arith, if◌then◌else◌,
}
use tasktrack.Json
use tasktrack.Json.{Dict}
use tasktrack.Model.{Task, ResultProposal, Delivery, RecipientAcceptance}
use tasktrack.Query.{Context, Error, ok, err, Result-cases}
use tasktrack.Exec.{Session, Server, serve}
use tasktrack.Tasks.{save_task}
use tasktrack.Results.Deliveries.{
  DeliveryCreate, RecipientAcceptanceCreate, last_delivery, checked_delivery, new_delivery,
  delivery_summary, delivered, propose_delivery, checked_acceptance, new_acceptance,
  acceptance_summary, accepted_by_recipient, is_current, record_recipient_acceptance, names_id,
  summarizes, checked_withdrawal, withdraw_recipient_acceptance,
}
use tasktrack.Results.Deliveries.Binding.{
  is_bound, IsBound, saved-IsBound, kept-IsBound, delivered-IsBound,
}

opened : Server → Session
opened srv = record { committed = srv.tables; tables = srv.tables; bus = srv.bus }

pub propose_refused :
    (ctx : Context) (new_id task_id : ℕ) (dto : DeliveryCreate) (s : Session) {e : Error}
    → checked_delivery ctx task_id s.tables ≡ err e
    → propose_delivery ctx new_id task_id dto s ≡ (err e, s)
unfolding propose_delivery
propose_refused ctx new_id task_id dto s h = ground arith

pub propose_effect :
    (ctx : Context) (new_id task_id : ℕ) (dto : DeliveryCreate) (s : Session) (task : Task)
    (accepted : ResultProposal)
    → checked_delivery ctx task_id s.tables ≡ ok (task, accepted)
    → let d = new_delivery ctx new_id task accepted dto in
      let u = (propose_delivery ctx new_id task_id dto s).1.committed in
      (u.deliveries ≡ s.tables.deliveries ++ d ∷ [])
      × (u.tasks ≡ (save_task (delivered (delivery_summary ctx d accepted) task) s.tables).tasks)
unfolding propose_delivery save_task
propose_effect ctx new_id task_id dto s task accepted h = ground arith

record_refused :
    (ctx : Context) (new_id task_id : ℕ) (dto : RecipientAcceptanceCreate) (s : Session) {e : Error}
    → checked_acceptance ctx task_id dto s.tables ≡ err e
    → record_recipient_acceptance ctx new_id task_id dto s ≡ (err e, s)
unfolding record_recipient_acceptance
record_refused ctx new_id task_id dto s h = ground arith

record_effect :
    (ctx : Context) (new_id task_id : ℕ) (dto : RecipientAcceptanceCreate) (s : Session)
    (task : Task) (d : Delivery)
    → checked_acceptance ctx task_id dto s.tables ≡ ok (task, d)
    → let a = new_acceptance ctx new_id task d dto in
      let u = (record_recipient_acceptance ctx new_id task_id dto s).1.committed in
      (u.deliveries ≡ s.tables.deliveries)
      × (u.tasks ≡ (
          if is_current d (last_delivery task.id s.tables.deliveries)
          then (save_task
              (accepted_by_recipient (some (acceptance_summary ctx a d)) task)
              s.tables).tasks
          else s.tables.tasks))
unfolding record_recipient_acceptance save_task
record_effect ctx new_id task_id dto s task d h = ground arith

withdraw_refused :
    (ctx : Context) (id : ℕ) (reason : String) (s : Session) {e : Error}
    → checked_withdrawal ctx id s.tables ≡ err e
    → withdraw_recipient_acceptance ctx id reason s ≡ (err e, s)
unfolding withdraw_recipient_acceptance
withdraw_refused ctx id reason s h = ground arith

withdraw_effect :
    (ctx : Context) (id : ℕ) (reason : String) (s : Session) (a : RecipientAcceptance) (task : Task)
    → checked_withdrawal ctx id s.tables ≡ ok (a, task)
    → let u = (withdraw_recipient_acceptance ctx id reason s).1.committed in
      (u.deliveries ≡ s.tables.deliveries)
      × (u.tasks ≡ (
          if summarizes task.recipient_acceptance a.id
          then (save_task (accepted_by_recipient none task) s.tables).tasks
          else s.tables.tasks))
unfolding withdraw_recipient_acceptance save_task
withdraw_effect ctx id reason s a task h = ground arith

-- The requests on deliveries; a new row comes with its id.
pub data Request : Type 0 where
  propose : ℕ → ℕ → DeliveryCreate → Request
  accept : ℕ → ℕ → RecipientAcceptanceCreate → Request
  withdraw : ℕ → String → Request

-- What a request leaves on the server.
unfoldable pub handle : Context → Request → Server → Server
handle ctx (propose new_id task_id dto) srv =
    (serve (propose_delivery ctx new_id task_id dto) srv).1
handle ctx (accept new_id task_id dto) srv =
    (serve (record_recipient_acceptance ctx new_id task_id dto) srv).1
handle ctx (withdraw id reason) srv = (serve (withdraw_recipient_acceptance ctx id reason) srv).1

-- Requests by anybody, in their order.
unfoldable pub run : List (Context × Request) → Server → Server
run [] srv = srv
run ((ctx, r) ∷ rs) srv = run rs (handle ctx r srv)

propose-IsBound :
    (ctx : Context) (new_id task_id : ℕ) (dto : DeliveryCreate) (srv : Server)
    → IsBound srv.tables
    → IsBound (propose_delivery ctx new_id task_id dto (opened srv)).1.committed
unfolding opened delivered
propose-IsBound ctx new_id task_id dto srv h =
    elim (Result-cases (checked_delivery ctx task_id srv.tables)) [
      | inr (e, failed) ↦
          subst (λ r. IsBound r.1.committed)
            (sym (propose_refused ctx new_id task_id dto (opened srv) failed)) h
      | inl ((task, accepted), passed) ↦
          let d = new_delivery ctx new_id task accepted dto in
          let (deliveries, tasks) =
            propose_effect ctx new_id task_id dto (opened srv) task accepted passed in
          delivered-IsBound d (delivered (delivery_summary ctx d accepted) task) srv.tables
            (propose_delivery ctx new_id task_id dto (opened srv)).1.committed tasks deliveries refl
            refl h
    ]

-- What is shown of an acceptance of the current delivery names it.
current_bound :
    (ctx : Context) (a : RecipientAcceptance) (task : Task) (d : Delivery) (ds : List Delivery)
    → is_current d (last_delivery task.id ds) ≡ true
    → is_bound ds (accepted_by_recipient (some (acceptance_summary ctx a d)) task) ≡ true
unfolding is_bound accepted_by_recipient acceptance_summary names_id Json.get Json.json_eq
current_bound ctx a task d ds current = elim (Option-cases (last_delivery task.id ds)) [
  | inl nothing ↦ absurd (ground (arith, current, nothing))
  | inr (last, there) ↦ ground (arith, current, there)
]

accept-IsBound :
    (ctx : Context) (new_id task_id : ℕ) (dto : RecipientAcceptanceCreate) (srv : Server)
    → IsBound srv.tables
    → IsBound (record_recipient_acceptance ctx new_id task_id dto (opened srv)).1.committed
unfolding opened accepted_by_recipient
accept-IsBound ctx new_id task_id dto srv h =
    elim (Result-cases (checked_acceptance ctx task_id dto srv.tables)) [
      | inr (e, failed) ↦
          subst (λ r. IsBound r.1.committed)
            (sym (record_refused ctx new_id task_id dto (opened srv) failed)) h
      | inl ((task, d), passed) ↦
          let u = (record_recipient_acceptance ctx new_id task_id dto (opened srv)).1.committed in
          let a = new_acceptance ctx new_id task d dto in
          let row = accepted_by_recipient (some (acceptance_summary ctx a d)) task in
          let (deliveries, tasks) =
            record_effect ctx new_id task_id dto (opened srv) task d passed in
          elim (Bool-cases (is_current d (last_delivery task.id srv.tables.deliveries))) [
            | inl current ↦
                saved-IsBound row srv.tables u (ground (arith, tasks, current)) deliveries
                  (current_bound ctx a task d srv.tables.deliveries current) h
            | inr older ↦ kept-IsBound srv.tables u (ground (arith, tasks, older)) deliveries h
          ]
    ]

withdraw-IsBound :
    (ctx : Context) (id : ℕ) (reason : String) (srv : Server)
    → IsBound srv.tables
    → IsBound (withdraw_recipient_acceptance ctx id reason (opened srv)).1.committed
unfolding opened accepted_by_recipient is_bound
withdraw-IsBound ctx id reason srv h = elim (Result-cases (checked_withdrawal ctx id srv.tables)) [
  | inr (e, failed) ↦
      subst (λ r. IsBound r.1.committed) (sym (withdraw_refused ctx id reason (opened srv) failed))
        h
  | inl ((a, task), passed) ↦
      let u = (withdraw_recipient_acceptance ctx id reason (opened srv)).1.committed in
      let (deliveries, tasks) = withdraw_effect ctx id reason (opened srv) a task passed in
      elim (Bool-cases (summarizes task.recipient_acceptance a.id)) [
        | inl shown ↦
            saved-IsBound (accepted_by_recipient none task) srv.tables u
              (ground (arith, tasks, shown)) deliveries refl h
        | inr hidden ↦ kept-IsBound srv.tables u (ground (arith, tasks, hidden)) deliveries h
      ]
]

-- A recipient's acceptance never carries over to another delivery: whatever deliveries are proposed
-- and whatever acceptances recorded and withdrawn, by anybody and in any order, the acceptance that a
-- task shows names the task's current delivery, where that held at the start.
pub run-IsBound :
    (requests : List (Context × Request)) (srv : Server)
    → IsBound srv.tables
    → IsBound (run requests srv).tables
unfolding run handle serve opened
run-IsBound [] srv h = h
run-IsBound ((ctx, Request.propose new_id task_id dto) ∷ rs) srv h =
    run-IsBound rs (handle ctx (Request.propose new_id task_id dto) srv)
      (propose-IsBound ctx new_id task_id dto srv h)
run-IsBound ((ctx, Request.accept new_id task_id dto) ∷ rs) srv h =
    run-IsBound rs (handle ctx (Request.accept new_id task_id dto) srv)
      (accept-IsBound ctx new_id task_id dto srv h)
run-IsBound ((ctx, Request.withdraw id reason) ∷ rs) srv h =
    run-IsBound rs (handle ctx (Request.withdraw id reason) srv)
      (withdraw-IsBound ctx id reason srv h)
