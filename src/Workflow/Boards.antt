-- ===== src/Workflow/Boards.antt =====
-- The boards: `map_workflow_to_boards`, `add_status_to_column`, `remove_status_from_column`.
pub mod Mapping
use tasktrack.Prelude.{
  ℕ, zero, suc, ◌+◌, ◌-◌, String, Bool, true, false, Option, none, some, List, [], ◌∷◌, ◌++◌, not,
  ◌&&◌, ◌==◌, leb, ltb, if◌then◌else◌, is_nil, is_some, first, select, any, collect, length,
}
use tasktrack.Json
use tasktrack.Json.{entry, empty}
use tasktrack.Model.Enums.{StatusCategory, is_kanban}
use tasktrack.Model.{View, BoardColumn, BoardColumnStatus, Status, Tables}
use tasktrack.Query.{
  Context, Query, select_from, or_raise, http, board_column_not_found, view_not_found,
  status_already_mapped,
}
use tasktrack.Query
use tasktrack.Exec.{Exec, pure, ask, require, write, commit, ◌>>=◌, ◌>>◌}
use tasktrack.Audit
use tasktrack.Permissions.{require_manager}

module _ {ℓ} {A : Type ℓ} (key : A → ℕ) where
  insert_by : A → List A → List A
  insert_by x [] = x ∷ []
  insert_by x (y ∷ ys) = if leb (key x) (key y) then x ∷ y ∷ ys else y ∷ insert_by x ys

  -- `ORDER BY key`
  unfoldable pub order_by : List A → List A
  unfolding insert_by
  order_by [] = []
  order_by (x ∷ xs) = insert_by x (order_by xs)

unfoldable pub columns_of : ℕ → Tables → List BoardColumn
unfolding select order_by
columns_of view_id t = order_by (λ c. c.position) (select (λ c. c.view_id == view_id) t.columns)

-- A status is on one of the columns.
unfoldable pub is_mapped : List BoardColumn → ℕ → List BoardColumnStatus → Bool
unfolding any
is_mapped columns status_id rows =
    any (λ m. m.status_id == status_id && any (λ c. c.id == m.board_column_id) columns) rows

-- `columns[-1]`, `columns[1:-1]` and `columns[i]`, of columns that begin with `c`
unfoldable pub last_of : BoardColumn → List BoardColumn → BoardColumn
last_of c [] = c
last_of c (d ∷ ds) = last_of d ds

abbrev but_last : List BoardColumn → List BoardColumn
but_last [] = []
but_last (c ∷ []) = []
but_last (c ∷ d ∷ ds) = c ∷ but_last (d ∷ ds)

abbrev at_or_last : BoardColumn → List BoardColumn → ℕ → BoardColumn
at_or_last c ds zero = c
at_or_last c [] (suc i) = c
at_or_last c (d ∷ ds) (suc i) = at_or_last d ds i

abbrev pick : BoardColumn → List BoardColumn → ℕ → BoardColumn
pick c [] i = c
pick c (d ∷ ds) i = at_or_last d ds i

-- `middle[min(intermediate, len(middle) - 1)]` for `middle = columns[1:-1] or columns[:1]`
unfoldable pub middle_at : BoardColumn → List BoardColumn → ℕ → BoardColumn
middle_at c rest intermediate = pick c (but_last rest) intermediate

-- The column for a status, and the counter of intermediate statuses after it.
unfoldable pub column_for : BoardColumn → List BoardColumn → StatusCategory → ℕ → BoardColumn × ℕ
unfolding last_of middle_at
column_for c rest StatusCategory.initial i = (c, i)
column_for c rest StatusCategory.final i = (last_of c rest, i)
column_for c rest StatusCategory.intermediate i = (middle_at c rest i, i + 1)

-- The inner loop: the rows added for the statuses of one board; `mapped` was read before it.
unfoldable pub new_rows :
    BoardColumn → List BoardColumn → (ℕ → Bool) → ℕ → List Status → List BoardColumnStatus
unfolding column_for
new_rows c rest mapped i [] = []
new_rows c rest mapped i (st ∷ sts) =
    let (column, j) = column_for c rest st.category i in
    let later = new_rows c rest mapped j sts in
    if mapped st.id
    then later
    else record { board_column_id = column.id; status_id = st.id } ∷ later

-- One turn of the outer loop.
unfoldable pub map_board :
    List Status → List BoardColumn → List BoardColumnStatus → List BoardColumnStatus
unfolding is_mapped new_rows
map_board statuses [] rows = rows
map_board statuses (c ∷ rest) rows =
    rows ++ new_rows c rest (λ id. is_mapped (c ∷ rest) id rows) 0 statuses

unfoldable pub map_boards :
    List Status → List (List BoardColumn) → List BoardColumnStatus → List BoardColumnStatus
unfolding map_board
map_boards statuses [] rows = rows
map_boards statuses (columns ∷ boards) rows =
    map_boards statuses boards (map_board statuses columns rows)

-- The statuses to show and the project's Kanban boards.
unfoldable pub statuses_of : ℕ → Tables → List Status
unfolding select order_by
statuses_of workflow_id t =
    order_by (λ s. s.position) (select (λ s. s.workflow_id == workflow_id) t.statuses)

unfoldable pub kanban_boards : ℕ → Tables → List (List BoardColumn)
unfolding select collect columns_of
kanban_boards project_id t =
    collect (λ v. columns_of v.id t)
      (select (λ v. v.project_id == project_id && is_kanban v.type) t.views)

unfoldable pub map_workflow_to_boards : ℕ → ℕ → Tables → Tables
unfolding map_boards statuses_of kanban_boards
map_workflow_to_boards project_id workflow_id t = record t {
  column_statuses =
      map_boards (statuses_of workflow_id t) (kanban_boards project_id t) t.column_statuses;
}

unfoldable pub find_column : ℕ → Tables → Option BoardColumn
find_column id t = first (λ c. c.id == id) t.columns

-- The column, its view, and a manager of the view's project. The view of a column is there (foreign
-- key).
unfoldable pub managed_column : Context → ℕ → Query (BoardColumn × View)
unfolding Query.◌>>=◌ find_column
managed_column ctx column_id = Query.◌>>=◌ (select_from (find_column column_id)) λ found.
    Query.◌>>=◌ (or_raise found (http 404 board_column_not_found)) λ col.
      Query.◌>>=◌ (select_from (λ t. first (λ v. v.id == col.view_id) t.views)) λ view.
        Query.◌>>=◌ (or_raise view (http 404 view_not_found))
          λ v. Query.◌>>=◌ (require_manager ctx v.project_id) λ _. Query.pure (col, v)

abbrev column_entry :
    Context → View → ℕ → String → Option Json.Dict → Option Json.Dict → Exec (Unit {0})
column_entry ctx v column_id action before after = Audit.log ctx (record {
  project_id = some v.project_id;
  task_id = none;
  entity_type = "board_column";
  entity_id = column_id;
  action = action;
  before = before;
  after = after;
})

unfoldable pub add_status_to_column : Context → ℕ → ℕ → Exec BoardColumn
unfolding ◌>>=◌ is_mapped
add_status_to_column ctx column_id status_id = do
  (col, v) ← ask (managed_column ctx column_id)
  existing ← ask (
      select_from (λ t.
        is_mapped (select (λ c. c.view_id == col.view_id) t.columns) status_id t.column_statuses))
  require (not existing) (http 409 status_already_mapped)
  write (λ t. record t {
    column_statuses =
        t.column_statuses ++ record { board_column_id = column_id; status_id = status_id } ∷ [];
  })
  column_entry ctx v column_id "status_added" none
      (some (entry "status_id" (Json.uuid status_id) empty))
  commit
  pure col

abbrev remove_mapping : Context → View → ℕ → ℕ → Bool → Exec (Unit {0})
remove_mapping ctx v column_id status_id false = pure tt
remove_mapping ctx v column_id status_id true = do
  column_entry ctx v column_id "status_removed"
      (some (entry "status_id" (Json.uuid status_id) empty)) none
  write (λ t. record t {
    column_statuses =
        select (λ m. not (m.board_column_id == column_id && m.status_id == status_id))
          t.column_statuses;
  })
  commit

unfoldable pub remove_status_from_column : Context → ℕ → ℕ → Exec (Unit {0})
unfolding ◌>>=◌
remove_status_from_column ctx column_id status_id = do
  (col, v) ← ask (managed_column ctx column_id)
  mapping ← ask (
      select_from (λ t.
        any (λ m. m.board_column_id == column_id && m.status_id == status_id) t.column_statuses))
  remove_mapping ctx v column_id status_id mapping
