-- ===== src/Workflow/Transitions/Requests.antt =====
-- Requests on transitions, one after the other (backend/app/services/workflow_service.py).
use tasktrack.Prelude.{ℕ, List, [], ◌∷◌}
use tasktrack.Query.{Context}
use tasktrack.Exec.{Session}
use tasktrack.Workflow.Transitions.{
  TransitionCreate, TransitionUpdate, create_transition, update_transition, delete_transition,
}
use tasktrack.Workflow.Transitions.Links.{
  IsLinked, create_transition-IsLinked, update_transition-IsLinked, delete_transition-IsLinked,
}

pub data Request : Type 0 where
  create : ℕ → ℕ → TransitionCreate → Request
  update : ℕ → TransitionUpdate → Request
  delete : ℕ → Request

unfoldable pub handle : Context → Request → Session → Session
handle ctx (create new_id workflow_id dto) s = (create_transition ctx new_id workflow_id dto s).1
handle ctx (update id dto) s = (update_transition ctx id dto s).1
handle ctx (delete id) s = (delete_transition ctx id s).1

-- Requests by anybody, in their order.
unfoldable pub run : List (Context × Request) → Session → Session
run [] s = s
run ((ctx, r) ∷ rs) s = run rs (handle ctx r s)

handle-IsLinked :
    (ctx : Context) (r : Request) (s : Session)
    → IsLinked s.tables
    → IsLinked (handle ctx r s).tables
unfolding handle
handle-IsLinked ctx (Request.create new_id workflow_id dto) s h =
    create_transition-IsLinked ctx new_id workflow_id dto s h
handle-IsLinked ctx (Request.update id dto) s h = update_transition-IsLinked ctx id dto s h
handle-IsLinked ctx (Request.delete id) s h = delete_transition-IsLinked ctx id s h

-- Whatever transitions are created, updated and deleted, by anybody and in any order, every transition
-- stays between statuses of its own workflow, where that held at the start.
pub run-IsLinked :
    (requests : List (Context × Request)) (s : Session)
    → IsLinked s.tables
    → IsLinked (run requests s).tables
unfolding run
run-IsLinked [] s h = h
run-IsLinked ((ctx, r) ∷ rs) s h = run-IsLinked rs (handle ctx r s) (handle-IsLinked ctx r s h)
