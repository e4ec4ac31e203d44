-- ===== src/Tasks/Rules.antt =====
-- The rules of a status change (backend/app/services/task_service.py), and that its checks decide them.
use tasktrack.Prelude.{
  ℕ, ◌≤◌, ◌≡◌, refl, sym, subst, eq_iff, ◌⊎◌, inl, inr, String, Bool-cases, Option-cases, true,
  false, not, ◌&&◌, Option, none, some, List, [], ◌∷◌, ==_refl, str_eq, is_nil, is_some, is_some_of,
  All, any, select, arith,
}
use tasktrack.Json
use tasktrack.Json.{Dict}
use tasktrack.Model.Enums.{ProjectMemberRole, ResultState, is_initial, is_final, is_unpresented}
use tasktrack.Model.{Task, TaskType, Status, ProjectMember, Tables}
use tasktrack.Query.{Context, ok, ◌>>=◌}
use tasktrack.Permissions.{rank, has_role}
use tasktrack.Workflow.{find_status, find_task_type}
use tasktrack.Tasks.{
  role_of_text, check_transition_role, may_move, missing_fields, is_reviewed,
  check_review_before_final, check_ready_to_start, has_pending_subtask,
  check_decision_task_unblocked,
}

-- The role that a transition asks for: none, the empty text, or a role that the member reaches.
pub data IsRoleMet : Option String → ProjectMember → Type 0 where
  unasked : (member : ProjectMember) → IsRoleMet none member
  empty : (member : ProjectMember) → IsRoleMet (some "") member
  reached :
      (text : String) (role : ProjectMemberRole) (member : ProjectMember)
      → role_of_text text ≡ some role
      → rank role ≤ rank member.role
      → IsRoleMet (some text) member

-- A type that asks for a review reaches a final status only with an accepted or rejected result.
pub record IsReviewed (task : Task) (status_id : ℕ) (t : Tables) : Type 0 where
  pub met :
      (ty : TaskType) (target : Status)
      → find_task_type task.task_type_id t ≡ some ty
      → ty.requires_review ≡ true
      → find_status status_id t ≡ some target
      → is_final target.category ≡ true
      → (task.result_state ≡ ResultState.accepted) ⊎ (task.result_state ≡ ResultState.rejected)

-- A task leaves the initial statuses only when nothing is missing.
pub record IsReady (ctx : Context) (task : Task) (status_id : ℕ) (t : Tables) : Type 0 where
  pub met :
      (current target : Status)
      → find_status task.current_status_id t ≡ some current
      → is_initial current.category ≡ true
      → find_status status_id t ≡ some target
      → is_initial target.category ≡ false
      → is_nil (ctx.not_ready t task) ≡ true

-- A decision waits for the results of its subtasks.
pub record IsUnblocked (task : Task) (t : Tables) : Type 0 where
  pub met :
      (ty : TaskType)
      → find_task_type task.task_type_id t ≡ some ty
      → str_eq ty.key "decision" ≡ true
      → any
          (λ sub.
            is_some_of sub.parent_task_id task.id
            && (not (is_some sub.deleted_at) && is_unpresented sub.result_state))
          t.tasks
        ≡ false

reviewed_cases :
    (r : ResultState)
    → is_reviewed r ≡ true
    → (r ≡ ResultState.accepted) ⊎ (r ≡ ResultState.rejected)
reviewed_cases ResultState.accepted h = inl refl
reviewed_cases ResultState.rejected h = inr refl
reviewed_cases ResultState.unpresented h = absurd (ground arith)
reviewed_cases ResultState.proposed h = absurd (ground arith)
reviewed_cases ResultState.changes_requested h = absurd (ground arith)
reviewed_cases ResultState.historical h = absurd (ground arith)

pub review_sound :
    (task : Task) (status_id : ℕ) (t : Tables)
    → check_review_before_final task status_id t ≡ ok tt
    → IsReviewed task status_id t
unfolding check_review_before_final ◌>>=◌
review_sound task status_id t h = record {
  met = λ ty target typed asks there final. reviewed_cases task.result_state (ground arith);
}

pub review_complete :
    (task : Task) (status_id : ℕ) (t : Tables)
    → IsReviewed task status_id t
    → check_review_before_final task status_id t ≡ ok tt
unfolding check_review_before_final ◌>>=◌
review_complete task status_id t rule = elim (Option-cases (find_task_type task.task_type_id t)) [
  | inl untyped ↦ ground arith
  | inr (ty, typed) ↦ elim (Option-cases (find_status status_id t)) [
    | inl nowhere ↦ ground arith
    | inr (target, there) ↦ elim (Bool-cases (ty.requires_review && is_final target.category)) [
      | inr free ↦ ground arith
      | inl both ↦
          elim (rule.met ty target typed (ground (arith, both)) there (ground (arith, both))) [
            | inl taken ↦ ground (arith, typed, there, taken)
            | inr refused ↦ ground (arith, typed, there, refused)
          ]
    ]
  ]
]

pub IsReady-sound :
    (ctx : Context) (task : Task) (status_id : ℕ) (t : Tables)
    → check_ready_to_start ctx task status_id t ≡ ok tt
    → IsReady ctx task status_id t
unfolding check_ready_to_start ◌>>=◌
IsReady-sound ctx task status_id t h = record {
  met = λ current target here starts there leaves. ground arith;
}

pub ready_complete :
    (ctx : Context) (task : Task) (status_id : ℕ) (t : Tables)
    → IsReady ctx task status_id t
    → check_ready_to_start ctx task status_id t ≡ ok tt
unfolding check_ready_to_start ◌>>=◌
ready_complete ctx task status_id t rule =
    elim (Option-cases (find_status task.current_status_id t)) [
      | inl nowhere ↦ ground arith
      | inr (current, here) ↦ elim (Option-cases (find_status status_id t)) [
        | inl nowhere ↦ ground (arith, here)
        | inr (target, there) ↦
            elim (Bool-cases (is_initial current.category && not (is_initial target.category))) [
              | inr stays ↦ ground (arith, here, there)
              | inl leaves ↦
                  let met =
                    rule.met current target here (ground (arith, leaves)) there
                      (ground (arith, leaves)) in
                  ground (arith, here, there, met)
            ]
      ]
    ]

pub IsUnblocked-sound :
    (task : Task) (t : Tables) → check_decision_task_unblocked task t ≡ ok tt → IsUnblocked task t
unfolding check_decision_task_unblocked has_pending_subtask ◌>>=◌
IsUnblocked-sound task t h = record { met = λ ty typed decides. ground arith }

pub unblocked_complete :
    (task : Task) (t : Tables) → IsUnblocked task t → check_decision_task_unblocked task t ≡ ok tt
unfolding check_decision_task_unblocked has_pending_subtask ◌>>=◌
unblocked_complete task t rule = elim (Option-cases (find_task_type task.task_type_id t)) [
  | inl untyped ↦ ground arith
  | inr (ty, typed) ↦ elim (Bool-cases (str_eq ty.key "decision")) [
    | inr other ↦ ground (arith, typed)
    | inl decides ↦ ground (arith, typed, rule.met ty typed decides)
  ]
]

pub role_sound :
    (asked : Option String) (member : ProjectMember) (t : Tables)
    → check_transition_role asked member t ≡ ok tt
    → IsRoleMet asked member
unfolding check_transition_role has_role
role_sound none member t h = IsRoleMet.unasked member
role_sound (some text) member t h = elim (Bool-cases (str_eq text "")) [
  | inl blank ↦
      subst (λ s. IsRoleMet (some s) member) (sym ((eq_iff text "").0 blank))
        (IsRoleMet.empty member)
  | inr asked ↦ elim (Option-cases (role_of_text text)) [
    | inl unknown ↦ absurd (ground arith)
    | inr (role, known) ↦ IsRoleMet.reached text role member known (ground arith)
  ]
]

pub role_complete :
    (asked : Option String) (member : ProjectMember) (t : Tables)
    → IsRoleMet asked member
    → check_transition_role asked member t ≡ ok tt
unfolding check_transition_role has_role
role_complete none member t (IsRoleMet.unasked _) = refl
role_complete (some text) member t (IsRoleMet.empty _) = refl
role_complete (some text) member t (IsRoleMet.reached _ role _ known high) = ground arith

pub filled_sound :
    (required : List String) (meta : Dict)
    → is_nil (missing_fields required meta) ≡ true
    → All (λ f. Json.is_blank (Json.get f meta) ≡ false) required
unfolding missing_fields select
filled_sound [] meta h = tt
filled_sound (f ∷ fs) meta h = (ground arith, filled_sound fs meta (ground arith))

pub filled_complete :
    (required : List String) (meta : Dict)
    → All (λ f. Json.is_blank (Json.get f meta) ≡ false) required
    → is_nil (missing_fields required meta) ≡ true
unfolding missing_fields select
filled_complete [] meta h = refl
filled_complete (f ∷ fs) meta (here, rest) = ground (arith, here, filled_complete fs meta rest)

is_some_of-≡ : (o : Option ℕ) (id : ℕ) → is_some_of o id ≡ true → o ≡ some id
is_some_of-≡ none id h = absurd (ground arith)
is_some_of-≡ (some a) id h = ground arith

pub mover_sound :
    (ctx : Context) (task : Task) (member : ProjectMember)
    → may_move ctx task member ≡ true
    → (task.assignee_id ≡ some ctx.user.id) ⊎ (2 ≤ rank member.role)
unfolding may_move has_role rank
mover_sound ctx task member h = elim (Bool-cases (is_some_of task.assignee_id ctx.user.id)) [
  | inl own ↦ inl (is_some_of-≡ task.assignee_id ctx.user.id own)
  | inr other ↦ inr (ground arith)
]

pub mover_complete :
    (ctx : Context) (task : Task) (member : ProjectMember)
    → (task.assignee_id ≡ some ctx.user.id) ⊎ (2 ≤ rank member.role)
    → may_move ctx task member ≡ true
unfolding may_move has_role rank
mover_complete ctx task member (inl own) = ground (arith, own, ==_refl ctx.user.id)
mover_complete ctx task member (inr manages) = ground arith
