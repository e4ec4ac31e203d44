-- ===== src/Sessions/Exclusive.antt =====
-- The active executors of a task (backend/app/services/session_service.py and the index of
-- backend/app/models/session.py).
use tasktrack.Prelude.{
  ℕ, ◌≡◌, sym, subst, ◌≤◌, inl, inr, true, false, ◌&&◌, Option, none, some, [], ◌∷◌, ◌++◌, ◌==◌,
  ltb, arith, is_some_of, first, count, count-append, count-none, count-replace, ==→≡, Bool-cases,
}
use tasktrack.Model.Enums.{is_executor}
use tasktrack.Model.{Task, TaskSession, Tables}
use tasktrack.Query.{Context, Error, ok, err, Result-cases, ◌>>=◌}
use tasktrack.Exec.{Session}
use tasktrack.Tasks.{get_task}
use tasktrack.Sessions.{
  SessionCreate, find_session, executes, active_executor, checked_claim, started, violates_index,
  insert_session, claim, save_session,
}

-- What the partial unique index asks of the table.
unfoldable pub HasOneExecutor : Tables → Type 0
HasOneExecutor t = (task_id : ℕ) → count (executes task_id) t.sessions ≤ 1

-- The primary key of `task_sessions`.
unfoldable pub HasUniqueSessions : Tables → Type 0
HasUniqueSessions t = (id : ℕ) → count (λ w. w.id == id) t.sessions ≤ 1

-- A claim as executor comes from the assignee, where nobody executes.
checked_claim-ok :
    (ctx : Context) (id : ℕ) (dto : SessionCreate) (t : Tables) (task : Task) (pkg : Option ℕ)
    → checked_claim ctx id dto t ≡ ok (task, pkg)
    → (get_task ctx id t ≡ ok task)
      × (is_executor dto.role ≡ true
          → (is_some_of task.assignee_id ctx.user.id ≡ true) × (active_executor task.id t ≡ none))
unfolding checked_claim ◌>>=◌
checked_claim-ok ctx id dto t task pkg h = (ground arith, λ e. ground arith)

-- The index never refuses what the checks of `claim` let through: its branch is a backstop.
pub claim_passes_index :
    (ctx : Context) (new_id id : ℕ) (dto : SessionCreate) (t : Tables) (task : Task)
    (pkg : Option ℕ)
    → checked_claim ctx id dto t ≡ ok (task, pkg)
    → violates_index (started ctx new_id dto task pkg) t ≡ false
unfolding violates_index executes active_executor
claim_passes_index ctx new_id id dto t task pkg h =
    let (_, alone) = checked_claim-ok ctx id dto t task pkg h in
    elim (Bool-cases (is_executor dto.role)) [
      | inr reviews ↦ ground (arith, reviews)
      | inl claims ↦
          let none_counted = count-none (executes task.id) t.sessions (alone claims).1 in
          ground (arith, claims, none_counted)
    ]

pub claim_effect :
    (ctx : Context) (new_id id : ℕ) (dto : SessionCreate) (s : Session) (task : Task)
    (pkg : Option ℕ)
    → checked_claim ctx id dto s.tables ≡ ok (task, pkg)
    → violates_index (started ctx new_id dto task pkg) s.tables ≡ false
    → let r = claim ctx new_id id dto s in
      (r.1.tables.sessions ≡ s.tables.sessions ++ started ctx new_id dto task pkg ∷ [])
      × (r.1.committed ≡ r.1.tables)
unfolding claim insert_session
claim_effect ctx new_id id dto s task pkg h legal = ground arith

pub claim_refused :
    (ctx : Context) (new_id id : ℕ) (dto : SessionCreate) (s : Session) {e : Error}
    → checked_claim ctx id dto s.tables ≡ err e
    → claim ctx new_id id dto s ≡ (err e, s)
unfolding claim
claim_refused ctx new_id id dto s h = ground arith

-- A row that the index lets in.
added-HasOneExecutor :
    (w : TaskSession) (t u : Tables)
    → u.sessions ≡ t.sessions ++ w ∷ []
    → violates_index w t ≡ false
    → HasOneExecutor t
    → HasOneExecutor u
unfolding HasOneExecutor violates_index executes count
added-HasOneExecutor w t u same legal one k = elim (Bool-cases (w.task_id == k)) [
  | inr other ↦ ground (arith, same, other, one k, count-append (executes k) t.sessions (w ∷ []))
  | inl self ↦
      let at = ==→≡ w.task_id k self in
      let legal' : (executes k w && ltb 0 (count (executes k) t.sessions)) ≡ false =
        subst (λ n. (executes n w && ltb 0 (count (executes n) t.sessions)) ≡ false) at legal in
      ground (arith, same, self, one k, legal', count-append (executes k) t.sessions (w ∷ []))
]

-- A claim, whatever its answer, leaves each task with at most one active executor.
pub claim-HasOneExecutor :
    (ctx : Context) (new_id id : ℕ) (dto : SessionCreate) (s : Session)
    → HasOneExecutor s.tables
    → HasOneExecutor (claim ctx new_id id dto s).1.tables
claim-HasOneExecutor ctx new_id id dto s one =
    elim (Result-cases (checked_claim ctx id dto s.tables)) [
      | inr (e, failed) ↦
          subst (λ r. HasOneExecutor r.1.tables) (sym (claim_refused ctx new_id id dto s failed))
            one
      | inl ((task, pkg), passed) ↦
          let legal = claim_passes_index ctx new_id id dto s.tables task pkg passed in
          added-HasOneExecutor (started ctx new_id dto task pkg) s.tables
            (claim ctx new_id id dto s).1.tables
            (claim_effect ctx new_id id dto s task pkg passed legal).0 legal one
    ]

-- Replacing a session by one that executes no more than it did.
pub saved-HasOneExecutor :
    (w w' : TaskSession) (t u : Tables)
    → find_session w.id t ≡ some w
    → HasUniqueSessions t
    → w'.id ≡ w.id
    → ((k : ℕ) → executes k w' ≡ true → executes k w ≡ true)
    → u.sessions ≡ (save_session w' t).sessions
    → HasOneExecutor t
    → HasOneExecutor u
unfolding HasOneExecutor HasUniqueSessions find_session save_session
saved-HasOneExecutor w w' t u found unique same_id less same one k =
    let there = subst (λ n. first (λ r. r.id == n) t.sessions ≡ some w) (sym same_id) found in
    ground (
      arith,
      same,
      one k,
      less k,
      count-replace (executes k) (λ r. r.id == w'.id) w' t.sessions {a = w} there (unique w'.id),
    )
