-- ===== src/WorkProposals/Standing.antt =====
-- Decisions that stand, and one that is not yet stored
-- (backend/app/services/work_proposal_service.py).
use tasktrack.Prelude.{
  ℕ, ◌+◌, ◌≡◌, refl, sym, ap, ◌∙◌, subst, ◌⊎◌, inl, inr, Bool-cases, true, false, some, List, [],
  ◌∷◌, ◌++◌, ◌==◌, arith, any, first, modify, first_sound, first-modify_other, ==→≡, ==_refl,
}
use tasktrack.Model.{Project, Task, WorkProposal, WorkProposalState, Tables}
use tasktrack.Query.{Context, Error, ok, err, Result-cases, ◌>>=◌}
use tasktrack.Exec
use tasktrack.Exec.{Session, Server, Exec, write, commit, serve}
use tasktrack.Permissions.{
  find_member, find_project, get_project, require_project_access, require_role, require_manager,
}
use tasktrack.Tasks.Creation.{TaskCreate, checked_creation, create_task, new_task}
use tasktrack.Tasks.Creation.Numbering.{
  checked_creation-ok, next_number-find_project, create_task_refused, create_task_effect,
}
use tasktrack.WorkProposals.{
  WorkProposalDecide, find_work_proposal, load_work_proposal, is_final, checked_decision,
  conversion_order, Action, act, convert, cause_basis, decision_entry, after_act, decided,
  save_work_proposal, decide,
}
use tasktrack.WorkProposals.Decided.{Holds, Answers, Keeps, act-Keeps, create_task-work_proposals}

opened : Server → Session
opened srv = record { committed = srv.tables; tables = srv.tables; bus = srv.bus }

checked_decision-ok :
    (ctx : Context) (id : ℕ) (dto : WorkProposalDecide) (t : Tables) (p : WorkProposal)
    → checked_decision ctx id dto t ≡ ok p
    → (find_work_proposal id t ≡ some p) × (is_final p.state ≡ false)
unfolding checked_decision load_work_proposal ◌>>=◌
checked_decision-ok ctx id dto t p h = ground arith

decide_refused :
    (ctx : Context) (new_id basis_id id : ℕ) (dto : WorkProposalDecide) (s : Session) {e : Error}
    → checked_decision ctx id dto s.tables ≡ err e
    → decide ctx new_id basis_id id dto s ≡ (err e, s)
unfolding decide
decide_refused ctx new_id basis_id id dto s h = ground arith

-- Where a branch fails, nothing is saved; else the decided proposal is.
decide_stores :
    (ctx : Context) (new_id basis_id id : ℕ) (dto : WorkProposalDecide) (s : Session)
    (p : WorkProposal) (w : List WorkProposal)
    → checked_decision ctx id dto s.tables ≡ ok p
    → Holds w s
    → ((decide ctx new_id basis_id id dto s).1.committed.work_proposals ≡ w)
      ⊎ ((q : WorkProposal) × (q.id ≡ p.id)
          × ((decide ctx new_id basis_id id dto s).1.committed.work_proposals
              ≡ modify (λ r. r.id == q.id) (λ _. q) w))
unfolding decide Keeps save_work_proposal
decide_stores ctx new_id basis_id id dto s p w h holds =
    let (held, answer) = act-Keeps w ctx new_id basis_id dto p dto.action s holds in
    elim (Result-cases (act ctx new_id basis_id dto p dto.action s).0) [
      | inr (e, failed) ↦ inl (ground (arith, h, failed, held.stored))
      | inl (q, done) ↦ inr (
        decided ctx dto q,
        subst (Answers (λ a. a.id ≡ p.id)) done answer,
        ground (arith, h, done, held.seen),
      )
    ]

-- A decision on a proposal, with the ids of the rows that it may add.
pub record Decision : Type 0 where
  pub ctx : Context
  pub new_id : ℕ
  pub basis_id : ℕ
  pub proposal_id : ℕ
  pub dto : WorkProposalDecide

-- What a decision, taken or refused, leaves on the server.
unfoldable pub handle : Decision → Server → Server
handle d srv = (serve (decide d.ctx d.new_id d.basis_id d.proposal_id d.dto) srv).1

-- Decisions by anybody, in their order.
unfoldable pub run : List Decision → Server → Server
run [] srv = srv
run (d ∷ ds) srv = run ds (handle d srv)

ok-eq : {A : Type 0} {a b : A} → ok a ≡ ok b → a ≡ b
ok-eq h = ground arith

some-eq : {A : Type 0} {a b : A} → some a ≡ some b → a ≡ b
some-eq h = ground arith

apart : (a b c : ℕ) → (a == b) ≡ false → (c == b) ≡ true → (c == a) ≡ false
apart a b c ne h = ground arith

other_kept :
    (id : ℕ) (q : WorkProposal) (w : List WorkProposal)
    → (id == q.id) ≡ false
    → first (λ r. r.id == id) (modify (λ r. r.id == q.id) (λ _. q) w) ≡ first (λ r. r.id == id) w
other_kept id q w ne =
    first-modify_other (λ r. r.id == id) (λ r. r.id == q.id) (λ _. q) w
      λ x h. (apart id q.id x.id ne h, apart id q.id q.id ne (==_refl q.id))

decided_stays :
    (ctx : Context) (new_id basis_id id' id : ℕ) (dto : WorkProposalDecide) (srv : Server)
    (p : WorkProposal)
    → find_work_proposal id srv.tables ≡ some p
    → is_final p.state ≡ true
    → find_work_proposal id (decide ctx new_id basis_id id' dto (opened srv)).1.committed ≡ some p
unfolding find_work_proposal opened
decided_stays ctx new_id basis_id id' id dto srv p there final =
    elim (Result-cases (checked_decision ctx id' dto srv.tables)) [
      | inr (e, failed) ↦
          subst (λ r. find_work_proposal id r.1.committed ≡ some p)
            (sym (decide_refused ctx new_id basis_id id' dto (opened srv) failed)) there
      | inl (p', passed) ↦
          let w = srv.tables.work_proposals in
          let (found, undecided) = checked_decision-ok ctx id' dto srv.tables p' passed in
          let own : p'.id ≡ id' = ==→≡ p'.id id' (first_sound (λ r. r.id == id') w found) in
          elim (decide_stores ctx new_id basis_id id' dto (opened srv) p' w passed
            (record { seen = refl; stored = refl })) [
              | inl same ↦ ap (first λ r. r.id == id) same ∙ there
              | inr (q, at, stored) ↦ elim (Bool-cases (id == q.id)) [
                | inr ne ↦ ap (first λ r. r.id == id) stored ∙ other_kept id q w ne ∙ there
                | inl self ↦
                    let same : id ≡ id' = ==→≡ id q.id self ∙ at ∙ own in
                    let again = subst (λ n. first (λ r. r.id == n) w ≡ some p) same there in
                    let equal : p ≡ p' = some-eq (sym again ∙ found) in
                    absurd (
                      let now = subst (λ k. is_final k.state ≡ true) equal final in
                      ground (arith, now, undecided))
              ]
            ]
    ]

-- A final decision stands: whatever decisions are asked for afterwards, by anybody and in any order, a
-- proposal that was converted, linked, merged or rejected stays as it is, row for row.
pub run-decided :
    (decisions : List Decision) (id : ℕ) (srv : Server) (p : WorkProposal)
    → find_work_proposal id srv.tables ≡ some p
    → is_final p.state ≡ true
    → find_work_proposal id (run decisions srv).tables ≡ some p
unfolding run handle serve opened
run-decided [] id srv p there final = there
run-decided (d ∷ ds) id srv p there final =
    run-decided ds id (handle d srv) p
      (decided_stays d.ctx d.new_id d.basis_id d.proposal_id id d.dto srv p there final) final

task_stored : (task : Task) (l : List Task) → any (λ r. r.id == task.id) (l ++ task ∷ []) ≡ true
unfolding any
task_stored task [] = ground (arith, ==_refl task.id)
task_stored task (x ∷ xs) = ground (arith, task_stored task xs)

-- A decision's checks read of a project no more than its visibility and whether it is deleted.
checks_kept :
    (ctx : Context) (id : ℕ) (dto : WorkProposalDecide) (t u : Tables) (p : WorkProposal)
    (project : Project)
    → find_work_proposal id t ≡ some p
    → find_work_proposal id u ≡ some p
    → find_project p.project_id t ≡ some project
    → find_project p.project_id u ≡ some (record project { task_seq = project.task_seq + 1 })
    → u.members ≡ t.members
    → checked_decision ctx id dto u ≡ checked_decision ctx id dto t
unfolding checked_decision load_work_proposal require_project_access require_manager require_role
    get_project find_member ◌>>=◌
checks_kept ctx id dto t u p project there here before after members =
    ground (arith, there, here, before, after, members)

-- What `decide` does once its call of `create_task` has returned.
unfoldable pub finish_conversion :
    Context → ℕ → WorkProposalDecide → WorkProposal → Task → Exec WorkProposal
unfolding Exec.◌>>=◌
finish_conversion ctx basis_id dto p task =
    let q =
      decided ctx dto (record p { task_id = some task.id; state = WorkProposalState.converted }) in
    Exec.◌>>=◌ (cause_basis ctx basis_id task.id p) λ _.
      Exec.◌>>=◌ (write (save_work_proposal q)) λ _.
        Exec.◌>>=◌ (decision_entry (after_act ctx Action.create_task) dto q)
          λ _. Exec.◌>>=◌ commit λ _. Exec.pure q

decide-converts :
    (ctx : Context) (new_id basis_id id : ℕ) (dto : WorkProposalDecide) (s s' : Session)
    (p : WorkProposal) (order : TaskCreate) (task : Task)
    → dto.action ≡ Action.create_task
    → checked_decision ctx id dto s.tables ≡ ok p
    → conversion_order dto p s.tables ≡ ok order
    → create_task ctx new_id p.project_id order s ≡ (ok task, s')
    → decide ctx new_id basis_id id dto s ≡ finish_conversion ctx basis_id dto p task s'
unfolding decide act convert finish_conversion Exec.◌>>=◌
decide-converts ctx new_id basis_id id dto s s' p order task asks passed ordered made =
    ground (arith, asks, passed, ordered, made)

-- The task of a conversion is stored before the decision is: a decision that converts a proposal is
-- `create_task` followed by the rest of the decision, and between the two what is committed has the
-- new task and the proposal as it was, and any other decision on it that passed its checks before
-- passes them again.
pub convert_stores_task_first :
    (ctx ctx' : Context) (new_id basis_id id : ℕ) (dto dto' : WorkProposalDecide) (s s' : Session)
    (p : WorkProposal) (order : TaskCreate) (task : Task)
    → dto.action ≡ Action.create_task
    → checked_decision ctx id dto s.tables ≡ ok p
    → conversion_order dto p s.tables ≡ ok order
    → create_task ctx new_id p.project_id order s ≡ (ok task, s')
    → checked_decision ctx' id dto' s.tables ≡ ok p
    → (decide ctx new_id basis_id id dto s ≡ finish_conversion ctx basis_id dto p task s')
      × (any (λ r. r.id == task.id) s'.committed.tasks ≡ true)
      × (find_work_proposal id s'.committed ≡ some p)
      × (checked_decision ctx' id dto' s'.committed ≡ ok p)
unfolding find_work_proposal
convert_stores_task_first ctx ctx' new_id basis_id id dto dto' s s' p order task asks passed ordered
      made also =
    elim (Result-cases (checked_creation ctx p.project_id order s.tables)) [
      | inr (e, failed) ↦
          absurd (ground (arith, create_task_refused ctx new_id p.project_id order s failed))
      | inl ((project, task_type, workflow_id, status), created) ↦
          let u = (create_task ctx new_id p.project_id order s).1.committed in
          let (found, _) = checked_decision-ok ctx id dto s.tables p passed in
          let form = new_task ctx new_id order project task_type workflow_id status in
          let (answer, tasks, projects) =
            create_task_effect ctx new_id p.project_id order s project task_type workflow_id status
              created in
          let (_, proposals, members) =
            create_task-work_proposals ctx new_id p.project_id order s project task_type workflow_id
              status created in
          let (before, _, _) =
            checked_creation-ok ctx p.project_id order s.tables project task_type workflow_id status
              created in
          let after = next_number-find_project p.project_id s.tables u projects before in
          let here = ap (first λ r. r.id == id) proposals ∙ found in
          let stored = ap (any λ r. r.id == form.id) tasks ∙ task_stored form s.tables.tasks in
          let same : form ≡ task = ok-eq (sym answer ∙ ap (λ r. r.0) made) in
          let (task_there, kept, again) =
            subst
              (λ v.
                (any (λ r. r.id == task.id) v.committed.tasks ≡ true)
                × (find_work_proposal id v.committed ≡ some p)
                × (checked_decision ctx' id dto' v.committed ≡ ok p))
              (ap (λ r. r.1) made)
              (
                subst (λ k. any (λ r. r.id == k.id) u.tasks ≡ true) same stored,
                here,
                checks_kept ctx' id dto' s.tables u p project found here before after members
                    ∙ also,
              ) in
          (
            decide-converts ctx new_id basis_id id dto s s' p order task asks passed ordered made,
            task_there,
            kept,
            again,
          )
    ]
