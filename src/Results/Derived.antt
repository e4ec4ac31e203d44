-- ===== src/Results/Derived.antt =====
-- `_recompute_state` of backend/app/services/result_service.py.
use tasktrack.Prelude.{
  Option, Option-cases, none, some, ℕ, ◌≡◌, refl, sym, ap, ◌∙◌, subst, ◌≢◌, ◌≤◌, inl, inr, Bool,
  true, false, some, List, [], ◌∷◌, ◌==◌, arith, first, modify, count, any, modify_none,
  first-modify_other, ==→≡, ==_refl, Bool-cases,
}
use tasktrack.Model.Enums.{ProposalStatus, ResultState, result_state_eq}
use tasktrack.Model.{Task, ResultProposal, Tables}
use tasktrack.Tasks.{find_task, save_task, find_task-save_task}
use tasktrack.Results.{has_live, derived_state, recompute_state, with_state}

abbrev Shows : Option Task → ResultState → Type 0
Shows none state = Unit
Shows (some task) state = task.result_state ≡ state

-- The task with this id, if there is one, shows what its proposals say.
unfoldable pub IsDerived : ℕ → Tables → Type 0
IsDerived id t = Shows (find_task id t) (derived_state id t.proposals)

pub IsDerived-found :
    (id : ℕ) (t : Tables) {task : Task}
    → IsDerived id t
    → find_task id t ≡ some task
    → task.result_state ≡ derived_state id t.proposals
unfolding IsDerived
IsDerived-found id t derived found =
    subst (λ o. Shows o (derived_state id t.proposals)) found derived

pub found-IsDerived :
    (id : ℕ) (t : Tables)
    → ((task : Task)
        → find_task id t ≡ some task
        → task.result_state ≡ derived_state id t.proposals)
    → IsDerived id t
unfolding IsDerived
found-IsDerived id t f = elim (Option-cases (find_task id t)) [
  | inl e ↦ subst (λ o. Shows o (derived_state id t.proposals)) (sym e) tt
  | inr (task, e) ↦ subst (λ o. Shows o (derived_state id t.proposals)) (sym e) (f task e)
]

result_state_eq_sound : (a b : ResultState) → result_state_eq a b ≡ true → a ≡ b
result_state_eq_sound a b h = ground arith

pub with_state_shows : (new : ResultState) (task : Task) → (with_state new task).result_state ≡ new
with_state_shows new task = ground (arith, result_state_eq_sound task.result_state new)

pub with_state_id : (new : ResultState) (task : Task) → (with_state new task).id ≡ task.id
with_state_id new task = ground arith

-- Proposals of which a task sees the same statuses give it the same state.
pub derived_state_same :
    (id : ℕ) (ps qs : List ResultProposal)
    → ((c : ProposalStatus) → has_live c id ps ≡ has_live c id qs)
    → derived_state id ps ≡ derived_state id qs
unfolding derived_state
derived_state_same id ps qs same = ground (
  arith,
  same ProposalStatus.accepted,
  same ProposalStatus.submitted,
  same ProposalStatus.changes_requested,
  same ProposalStatus.rejected,
  same ProposalStatus.historical,
)

-- Replacing the one selected row by another that meets the same condition.
pub any-replace {ℓ} :
    {A : Type ℓ} (q p : A → Bool) (b : A) (l : List A) {a : A}
    → first p l ≡ some a
    → count p l ≤ 1
    → q b ≡ q a
    → any q (modify p (λ _. b) l) ≡ any q l
unfolding first modify count any
any-replace q p b [] h one same = refl
any-replace q p b (x ∷ xs) {a} h one same =
    ground (arith, any-replace q p b xs {a = a}, modify_none p (λ _. b) xs)

apart : (a b c : ℕ) → a ≢ b → (c == b) ≡ true → (c == a) ≡ false
apart a b c ne h = ground arith

-- Saving a task leaves the others.
pub find_task-save_task_other :
    (id : ℕ) (task' : Task) (t : Tables)
    → id ≢ task'.id
    → find_task id (save_task task' t) ≡ find_task id t
unfolding find_task save_task
find_task-save_task_other id task' t ne =
    first-modify_other (λ r. r.id == id) (λ r. r.id == task'.id) (λ _. task') t.tasks
      λ x h. (apart id task'.id x.id ne h, apart id task'.id task'.id ne (==_refl task'.id))

same_found : (id : ℕ) (t u : Tables) → u.tasks ≡ t.tasks → find_task id u ≡ find_task id t
unfolding find_task
same_found id t u same = ap (first λ r. r.id == id) same

pub some-eq {ℓ} : {A : Type ℓ} {a b : A} → some a ≡ some b → a ≡ b
some-eq h = ground arith

-- Recomputing the task whose proposals a step changes keeps every task's state derived.
pub recompute_state-IsDerived :
    (task : Task) (t u : Tables) (id : ℕ)
    → find_task task.id t ≡ some task
    → u.tasks ≡ t.tasks
    → ((other : ℕ) (c : ProposalStatus)
        → other ≢ task.id
        → has_live c other u.proposals ≡ has_live c other t.proposals)
    → IsDerived id t
    → IsDerived id (recompute_state task u)
unfolding recompute_state save_task
recompute_state-IsDerived task t u id here same_tasks others known =
    found-IsDerived id (recompute_state task u) λ shown found.
      let task' = with_state (derived_state task.id u.proposals) task in
      let same_id : task'.id ≡ task.id = with_state_id (derived_state task.id u.proposals) task in
      elim (Bool-cases (id == task.id)) [
        | inl self ↦
            let at : id ≡ task.id = ==→≡ id task.id self in
            let here' : find_task task.id u ≡ some task =
              same_found task.id t u same_tasks ∙ here in
            let stored : find_task id (save_task task' u) ≡ some task' =
              subst (λ k. find_task k (save_task task' u) ≡ some task') (sym at)
                (find_task-save_task task.id task' u here' same_id) in
            ap (λ r. r.result_state) (sym (some-eq (sym stored ∙ found)))
            ∙ with_state_shows (derived_state task.id u.proposals) task
            ∙ ap (λ k. derived_state k u.proposals) (sym at)
        | inr other ↦
            let ne : id ≢ task.id = λ e. absurd (ground (arith, e)) in
            let ne' : id ≢ task'.id = λ e. ne (e ∙ same_id) in
            let before : find_task id t ≡ some shown =
              sym (find_task-save_task_other id task' u ne' ∙ same_found id t u same_tasks)
              ∙ found in
            IsDerived-found id t known before
            ∙ sym (derived_state_same id u.proposals t.proposals λ c. others id c ne)
      ]
