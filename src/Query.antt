-- ===== src/Query.antt =====
-- What a request is told and what it may ask of the database: exceptions, the request's context, and
-- queries, which read the tables, may raise, and change nothing.
use tasktrack.Prelude.{
  ℕ, String, ◌≡◌, refl, ◌⊎◌, inl, inr, arith, Bool, true, false, Option, none, some, List,
}
use tasktrack.Json.{Dict}
use tasktrack.Model.{User, PackageContent, Task, TaskSession, Tables}

-- The `code` of an exception's detail, with what else the detail says.
pub data Code : Type 0 where
  project_not_found duplicate_project_key task_not_found permission_denied : Code
  version_conflict : ℕ → Code
  project_version_conflict : Code
  project_member_already_exists project_member_not_found : Code
  workflow_not_found workflow_is_default workflow_has_tasks no_default_workflow : Code
  workflow_no_default_status workflow_transition_not_allowed workflow_not_accessible : Code
  status_not_found status_default_must_be_initial status_has_active_tasks : Code
  status_workflow_mismatch status_not_in_workflow status_already_mapped : Code
  transition_not_found view_not_found view_is_default board_column_not_found : Code
  task_type_not_found meta_invalid task_blocked_by_subtasks : Code
  transition_role_required : String → Code
  transition_fields_required : List String → Code
  result_not_reviewed task_not_ready : Code
  not_assignee unknown_criterion proposal_not_found proposal_not_supersedable : Code
  proposal_not_withdrawable proposal_not_reviewable self_review not_reviewer : Code
  not_designated_reviewer work_package_not_found : Code
  criteria_not_met : List String → Code
  session_active session_not_active session_not_found : Code
  work_package_incomplete : List String → Code
  work_package_unchanged : Code
  result_not_accepted delivery_not_found delivery_not_proposed : Code
  fact_not_recipient_acceptance : Code
  recipient_acceptance_not_found recipient_acceptance_withdrawn : Code
  work_proposal_not_found work_proposal_already_decided reason_required : Code
  task_id_required task_of_other_project : Code
  merge_target_required merge_target_of_other_project : Code
  idempotency_key_invalid idempotency_key_reused : Code
  idempotency_outcome_unknown idempotency_in_progress : Code

-- `HTTPException(status, {"code": …})`, an error of the database, or the error of an attribute of
-- `None`.
pub data Error : Type 0 where
  http : ℕ → Code → Error
  integrity_error attribute_error : Error

pub data Result (A : Type 0) : Type 0 where
  ok : A → Result A
  err : Error → Result A

pub Result-cases :
    {A : Type 0} (r : Result A) → ((a : A) × (r ≡ ok a)) ⊎ ((e : Error) × (r ≡ err e))
Result-cases (ok a) = inl (a, refl)
Result-cases (err e) = inr (e, refl)

-- The request: `get_current_user`, the context variables of audit_service.py and
-- session_service.py, the clock, the numbers of the transaction in
-- which it first writes and of the one that follows a commit, and what other code computes: `schema_errors` is jsonschema's,
-- `digest` the SHA-256 of a content's canonical JSON, `not_ready` is what
-- portfolio_service.readiness finds missing.
pub record Context : Type 0 where
  pub user : User
  pub now : ℕ
  pub xid : ℕ
  pub next_xid : ℕ
  pub change_reason : Option String
  pub task_session_id : Option ℕ
  pub current_session : Option TaskSession
  pub schema_errors : Dict → Dict → List String
  pub digest : PackageContent → String
  pub not_ready : Tables → Task → List String

abbrev pub Query : Type 0 → Type 0
Query A = Tables → Result A

module _ {A : Type 0} where
  abbrev pub pure : A → Query A
  pure a t = ok a

  abbrev pub raise : Error → Query A
  raise e t = err e

  -- A `SELECT`.
  abbrev pub select_from : (Tables → A) → Query A
  select_from f t = ok (f t)

  abbrev pub or_raise : Option A → Error → Query A
  or_raise none e t = err e
  or_raise (some a) e t = ok a

-- `if not condition: raise`
abbrev pub require : Bool → Error → Query (Unit {0})
require true e t = ok tt
require false e t = err e

infixl 10 ◌>>=◌ ◌>>◌
unfoldable pub ◌>>=◌ : {A B : Type 0} → Query A → (A → Query B) → Query B
◌>>=◌ q f t = elim (q t) [ ok a ↦ f a t | err e ↦ err e ]

abbrev pub ◌>>◌ : {A B : Type 0} → Query A → Query B → Query B
q >> r = q >>= λ _. r

-- A block that returns has got past its first step.
pub >>=-eq-ok :
    {A B : Type 0} (q : Query A) (f : A → Query B) {t : Tables} {b : B}
    → (q >>= f) t ≡ ok b
    → (a : A) × (q t ≡ ok a) × (f a t ≡ ok b)
unfolding ◌>>=◌
>>=-eq-ok q f {t} h = elim (Result-cases (q t)) [
  | inl (a, e) ↦ (a, e, ground arith)
  | inr (e, failed) ↦ absurd (ground arith)
]
