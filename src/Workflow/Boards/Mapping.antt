-- ===== src/Workflow/Boards/Mapping.antt =====
-- `map_workflow_to_boards`: where the statuses of a workflow go on each board.
use tasktrack.Prelude.{
  Bool-cases, inl, inr, ◌⊎◌, ℕ, zero, suc, ◌≡◌, refl, Bool, true, false, List, [], ◌∷◌, ◌++◌, ◌||◌,
  ◌==◌, arith, is_nil, any, any-append, All,
}
use tasktrack.Model.Enums.{StatusCategory, initial, intermediate, final}
use tasktrack.Model.{BoardColumn, BoardColumnStatus, Status, Tables}
use tasktrack.Workflow.Boards.{
  is_mapped, last_of, but_last, at_or_last, pick, column_for, new_rows, map_board, map_boards,
  statuses_of, kanban_boards, map_workflow_to_boards,
}

abbrev is_on : List BoardColumn → BoardColumn → Bool
is_on columns column = any (λ c. c.id == column.id) columns

is_on-last_of :
    (c : BoardColumn) (rest : List BoardColumn) → is_on (c ∷ rest) (last_of c rest) ≡ true
unfolding any last_of
is_on-last_of c [] = ground arith
is_on-last_of c (d ∷ ds) = ground (arith, is_on-last_of d ds)

is_on-at_or_last :
    (d : BoardColumn) (ds : List BoardColumn) (i : ℕ) → is_on (d ∷ ds) (at_or_last d ds i) ≡ true
unfolding any
is_on-at_or_last d ds zero = ground arith
is_on-at_or_last d [] (suc i) = ground arith
is_on-at_or_last d (e ∷ es) (suc i) = ground (arith, is_on-at_or_last e es i)

is_on-but_last :
    (columns : List BoardColumn) (x : BoardColumn)
    → is_on (but_last columns) x ≡ true
    → is_on columns x ≡ true
unfolding any
is_on-but_last [] x h = h
is_on-but_last (c ∷ []) x h = cc
is_on-but_last (c ∷ d ∷ ds) x h = ground (arith, is_on-but_last (d ∷ ds) x)

is_on-pick :
    (c : BoardColumn) (rest middle : List BoardColumn) (i : ℕ)
    → ((x : BoardColumn) → is_on middle x ≡ true → is_on rest x ≡ true)
    → is_on (c ∷ rest) (pick c middle i) ≡ true
unfolding any
is_on-pick c rest [] i within = ground arith
is_on-pick c rest (d ∷ ds) i within =
    ground (arith, within (at_or_last d ds i) (is_on-at_or_last d ds i))

is_on-column_for :
    (c : BoardColumn) (rest : List BoardColumn) (category : StatusCategory) (i : ℕ)
    → is_on (c ∷ rest) (column_for c rest category i).0 ≡ true
unfolding column_for
is_on-column_for c rest initial i = unfold any in ground arith
is_on-column_for c rest final i = is_on-last_of c rest
is_on-column_for c rest intermediate i = is_on-pick c rest (but_last rest) i (is_on-but_last rest)

-- The inner loop maps each status that was not on the board.
is_mapped-new_rows :
    (c : BoardColumn) (rest : List BoardColumn) (mapped : ℕ → Bool) (i id : ℕ)
    (statuses : List Status)
    → mapped id ≡ false
    → any (λ s. s.id == id) statuses ≡ true
    → is_mapped (c ∷ rest) id (new_rows c rest mapped i statuses) ≡ true
unfolding is_mapped new_rows any
is_mapped-new_rows c rest mapped i id [] free there = cc
is_mapped-new_rows c rest mapped i id (st ∷ sts) free there = ground (
  arith,
  is_on-column_for c rest st.category i,
  is_mapped-new_rows c rest mapped (column_for c rest st.category i).1 id sts,
)

is_mapped-append :
    (columns : List BoardColumn) (id : ℕ) (rows more : List BoardColumnStatus)
    → is_mapped columns id (rows ++ more) ≡ (is_mapped columns id rows || is_mapped columns id more)
unfolding is_mapped
is_mapped-append columns id rows more = any-append _ rows more

-- One board: a status of the list that has columns to go to is on it afterwards.
is_mapped-map_board :
    (c : BoardColumn) (rest : List BoardColumn) (id : ℕ) (statuses : List Status)
    (rows : List BoardColumnStatus)
    → any (λ s. s.id == id) statuses ≡ true
    → is_mapped (c ∷ rest) id (map_board statuses (c ∷ rest) rows) ≡ true
unfolding map_board
is_mapped-map_board c rest id statuses rows there =
    let mapped = λ (j : ℕ). is_mapped (c ∷ rest) j rows in
    elim (Bool-cases (mapped id)) [
      | inl old ↦ rw is_mapped-append (rw old)
      | inr new ↦
          rw is_mapped-append
            (ground (arith, is_mapped-new_rows c rest mapped 0 id statuses new there))
    ]

-- Boards that come later only add rows.
is_mapped-map_boards :
    (columns : List BoardColumn) (id : ℕ) (statuses : List Status)
    (boards : List (List BoardColumn)) (rows : List BoardColumnStatus)
    → is_mapped columns id rows ≡ true
    → is_mapped columns id (map_boards statuses boards rows) ≡ true
unfolding map_boards map_board
is_mapped-map_boards columns id statuses [] rows h = h
is_mapped-map_boards columns id statuses ([] ∷ boards) rows h =
    is_mapped-map_boards columns id statuses boards rows h
is_mapped-map_boards columns id statuses ((c ∷ rest) ∷ boards) rows h =
    is_mapped-map_boards columns id statuses boards _ (rw is_mapped-append (rw h))

abbrev pub IsShown : ℕ → Tables → List BoardColumn → Type 0
IsShown id t columns = (is_nil columns ≡ true) ⊎ (is_mapped columns id t.column_statuses ≡ true)

shown_on-All :
    (id : ℕ) (statuses : List Status) (boards : List (List BoardColumn))
    (rows : List BoardColumnStatus)
    → any (λ s. s.id == id) statuses ≡ true
    → All
        (λ columns.
          (is_nil columns ≡ true) ⊎ (is_mapped columns id (map_boards statuses boards rows) ≡ true))
        boards
unfolding map_boards map_board
shown_on-All id statuses [] rows there = tt
shown_on-All id statuses ([] ∷ boards) rows there =
    (inl refl, shown_on-All id statuses boards rows there)
shown_on-All id statuses ((c ∷ rest) ∷ boards) rows there = (
  inr (
      is_mapped-map_boards (c ∷ rest) id statuses boards (map_board statuses (c ∷ rest) rows)
        (is_mapped-map_board c rest id statuses rows there)),
  shown_on-All id statuses boards (map_board statuses (c ∷ rest) rows) there,
)

-- After the mapping each status of the workflow is on every Kanban board of the project that has
-- columns.
pub map_workflow_to_boards-shows :
    (project_id workflow_id id : ℕ) (t : Tables)
    → any (λ s. s.id == id) (statuses_of workflow_id t) ≡ true
    → All
        (IsShown id (map_workflow_to_boards project_id workflow_id t))
        (kanban_boards project_id t)
unfolding map_workflow_to_boards
map_workflow_to_boards-shows project_id workflow_id id t there =
    shown_on-All id (statuses_of workflow_id t) (kanban_boards project_id t) t.column_statuses there
