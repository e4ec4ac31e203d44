-- ===== src/Results/Deliveries/Binding.antt =====
-- To which delivery a recipient's acceptance belongs (backend/app/services/result_service.py).
use tasktrack.Prelude.{
  ℕ, ◌≡◌, sym, subst, inl, inr, Bool, Bool-cases, true, false, none, some, List, [], ◌∷◌, ◌++◌,
  ◌==◌, arith, All, modify,
}
use tasktrack.Json
use tasktrack.Json.{Dict}
use tasktrack.Model.{Task, Delivery, Tables}
use tasktrack.Tasks.{save_task}
use tasktrack.Results.Deliveries.{last_delivery, names_id}

-- The acceptance that the task shows, if any, names the task's current delivery.
unfoldable pub is_bound : List Delivery → Task → Bool
is_bound deliveries task = elim task.recipient_acceptance [
  | none ↦ true
  | some shown ↦ elim (last_delivery task.id deliveries) [
    | none ↦ false
    | some current ↦ names_id (Json.get "delivery_id" shown) current.id
  ]
]

unfoldable pub IsBound : Tables → Type 0
IsBound t = All (λ task. is_bound t.deliveries task ≡ true) t.tasks

All-modify :
    {A : Type 0} (p q q' : A → Bool) (b : A) (l : List A)
    → ((a : A) → p a ≡ false → q a ≡ true → q' a ≡ true)
    → q' b ≡ true
    → All (λ a. q a ≡ true) l
    → All (λ a. q' a ≡ true) (modify p (λ _. b) l)
unfolding modify
All-modify p q q' b [] kept new all = tt
All-modify p q q' b (x ∷ xs) kept new (here, rest) = (
  elim (Bool-cases (p x)) [
    | inl chosen ↦ ground (arith, chosen, new)
    | inr other ↦ ground (arith, other, kept x other here)
  ],
  All-modify p q q' b xs kept new rest,
)

last_delivery-other :
    (id : ℕ) (d : Delivery) (ds : List Delivery)
    → (d.task_id == id) ≡ false
    → last_delivery id (ds ++ d ∷ []) ≡ last_delivery id ds
unfolding last_delivery
last_delivery-other id d [] other = ground (arith, other)
last_delivery-other id d (e ∷ es) other = ground (arith, last_delivery-other id d es other)

==_sym_false : (a b : ℕ) → (a == b) ≡ false → (b == a) ≡ false
==_sym_false a b h = ground arith

-- A saved row that is bound keeps the tables bound.
pub saved-IsBound :
    (task : Task) (t u : Tables)
    → u.tasks ≡ (save_task task t).tasks
    → u.deliveries ≡ t.deliveries
    → is_bound t.deliveries task ≡ true
    → IsBound t
    → IsBound u
unfolding IsBound save_task
saved-IsBound task t u tasks deliveries bound all =
    let saved =
      All-modify (λ r. r.id == task.id) (is_bound t.deliveries) (is_bound t.deliveries) task t.tasks
        (λ a other h. h) bound all in
    subst (λ ds. All (λ k. is_bound ds k ≡ true) u.tasks) (sym deliveries)
      (subst (λ ts. All (λ k. is_bound t.deliveries k ≡ true) ts) (sym tasks) saved)

pub kept-IsBound :
    (t u : Tables) → u.tasks ≡ t.tasks → u.deliveries ≡ t.deliveries → IsBound t → IsBound u
unfolding IsBound
kept-IsBound t u tasks deliveries all =
    subst (λ ds. All (λ k. is_bound ds k ≡ true) u.tasks) (sym deliveries)
      (subst (λ ts. All (λ k. is_bound t.deliveries k ≡ true) ts) (sym tasks) all)

-- A new delivery takes the acceptance of the one before off its task.
pub delivered-IsBound :
    (d : Delivery) (task : Task) (t u : Tables)
    → u.tasks ≡ (save_task task t).tasks
    → u.deliveries ≡ t.deliveries ++ d ∷ []
    → task.recipient_acceptance ≡ none
    → d.task_id ≡ task.id
    → IsBound t
    → IsBound u
unfolding IsBound save_task is_bound
delivered-IsBound d task t u tasks deliveries cleared own all =
    let ds = t.deliveries ++ d ∷ [] in
    let saved =
      All-modify (λ r. r.id == task.id) (is_bound t.deliveries) (is_bound ds) task t.tasks
        (λ a other h. ground (
          arith,
          h,
          last_delivery-other a.id d t.deliveries
              (subst (λ n. (n == a.id) ≡ false) (sym own) (==_sym_false a.id task.id other)),
        ))
        (ground (arith, cleared)) all in
    subst (λ l. All (λ k. is_bound l k ≡ true) u.tasks) (sym deliveries)
      (subst (λ ts. All (λ k. is_bound ds k ≡ true) ts) (sym tasks) saved)
