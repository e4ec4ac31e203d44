-- ===== src/Prelude/Rows.antt =====
-- A table is a list of rows: `SELECT … LIMIT 1`, `UPDATE … WHERE`, `DELETE … WHERE` and counts.
use Prim.Native.Nat.{ℕ, suc, ◌+◌, ◌≤◌}
use mathlib.Core.Path.{◌≡◌, refl}
use mathlib.Core.Bool.{Bool, true, false, ◌||◌}
use mathlib.Core.Option.{Option, none, some}
use mathlib.Core.Option
use mathlib.Core.List.{List, [], ◌∷◌, ◌++◌}
use native.Mathlib.Omega.{arith}
use tasktrack.Prelude.Tests.{if◌then◌else◌}

module _ {ℓ} {A : Type ℓ} where
  abbrev pub length : List A → ℕ
  length [] = 0
  length (x ∷ xs) = suc (length xs)

  -- The first row that the condition selects.
  unfoldable pub first : (A → Bool) → List A → Option A
  first p [] = none
  first p (x ∷ xs) = if p x then some x else first p xs

  -- Every row that the condition selects.
  unfoldable pub select : (A → Bool) → List A → List A
  select p [] = []
  select p (x ∷ xs) = let rest = select p xs in if p x then x ∷ rest else rest

  -- The rows that the condition selects are changed by `f`.
  unfoldable pub modify : (A → Bool) → (A → A) → List A → List A
  modify p f [] = []
  modify p f (x ∷ xs) = (if p x then f x else x) ∷ modify p f xs

  unfoldable pub any : (A → Bool) → List A → Bool
  any p [] = false
  any p (x ∷ xs) = p x || any p xs

  unfoldable pub count : (A → Bool) → List A → ℕ
  count p [] = 0
  count p (x ∷ xs) = (if p x then 1 else 0) + count p xs

  abbrev pub All {κ} : (A → Type κ) → List A → Type κ
  All P [] = Unit
  All P (x ∷ xs) = P x × All P xs

-- The columns that a query returns.
unfoldable pub collect {ℓ κ} : {A : Type ℓ} {B : Type κ} → (A → B) → List A → List B
collect f [] = []
collect f (x ∷ xs) = f x ∷ collect f xs

module _ {ℓ} {A : Type ℓ} where
  -- A selected row meets the condition.
  pub first_sound : (p : A → Bool) (l : List A) {a : A} → first p l ≡ some a → p a ≡ true
  unfolding first
  first_sound p [] h = ground arith
  first_sound p (x ∷ xs) {a} h = ground (arith, first_sound p xs {a = a})

  -- What is written where the condition holds, and still meets it, is what is read.
  pub first-modify :
      (p : A → Bool) (f : A → A) (l : List A)
      → ((x : A) → p x ≡ true → p (f x) ≡ true)
      → first p (modify p f l) ≡ Option.map f (first p l)
  unfolding first modify
  first-modify p f [] keeps = refl
  first-modify p f (x ∷ xs) keeps = ground (arith, keeps x, first-modify p f xs keeps)

  -- A change that the query's condition does not see.
  pub first-modify_unseen :
      (p q : A → Bool) (f : A → A) (l : List A)
      → ((x : A) → p (f x) ≡ p x)
      → first p (modify q f l) ≡ Option.map (λ x. if q x then f x else x) (first p l)
  unfolding first modify
  first-modify_unseen p q f [] same = refl
  first-modify_unseen p q f (x ∷ xs) same =
      ground (arith, same x, first-modify_unseen p q f xs same)

  -- A query that the change cannot affect reads what it read.
  pub first-modify_other :
      (q p : A → Bool) (f : A → A) (l : List A)
      → ((x : A) → p x ≡ true → (q x ≡ false) × (q (f x) ≡ false))
      → first q (modify p f l) ≡ first q l
  unfolding first modify
  first-modify_other q p f [] apart = refl
  first-modify_other q p f (x ∷ xs) apart =
      ground (arith, apart x, first-modify_other q p f xs apart)

  pub count-modify :
      (q p : A → Bool) (f : A → A) (l : List A)
      → ((x : A) → q (f x) ≡ q x)
      → count q (modify p f l) ≡ count q l
  unfolding count modify
  count-modify q p f [] same = refl
  count-modify q p f (x ∷ xs) same = ground (arith, same x, count-modify q p f xs same)

  pub count-append : (p : A → Bool) (l r : List A) → count p (l ++ r) ≡ count p l + count p r
  unfolding count
  count-append p [] r = omega arith
  count-append p (x ∷ xs) r = omega (arith, count-append p xs r)

  pub length-append : (l r : List A) → length (l ++ r) ≡ length l + length r
  length-append [] r = omega arith
  length-append (x ∷ xs) r = omega (arith, length-append xs r)

  pub modify_none : (p : A → Bool) (f : A → A) (l : List A) → count p l ≡ 0 → modify p f l ≡ l
  unfolding modify count
  modify_none p f [] h = refl
  modify_none p f (x ∷ xs) h = ground (arith, modify_none p f xs)

  -- Replacing the first selected row by `b`, where only one is selected.
  pub count-replace :
      (q p : A → Bool) (b : A) (l : List A) {a : A}
      → first p l ≡ some a
      → count p l ≤ 1
      → count q (modify p (λ _. b) l) + (if q a then 1 else 0) ≡ count q l + (if q b then 1 else 0)
  unfolding first modify count
  count-replace q p b [] h one = ground arith
  count-replace q p b (x ∷ xs) {a} h one =
      ground (arith, count-replace q p b xs {a = a}, modify_none p (λ _. b) xs)

  -- A row that is read is counted.
  pub count-first :
      (q p : A → Bool) (l : List A) {a : A} → first p l ≡ some a → q a ≡ true → 1 ≤ count q l
  unfolding first count
  count-first q p [] h t = ground arith
  count-first q p (x ∷ xs) {a} h t = ground (arith, count-first q p xs {a = a})

  pub any-append : (p : A → Bool) (l r : List A) → any p (l ++ r) ≡ (any p l || any p r)
  unfolding any
  any-append p [] r = refl
  any-append p (x ∷ xs) r = ground (arith, any-append p xs r)

  pub any-first : (p : A → Bool) (l : List A) {a : A} → first p l ≡ some a → any p l ≡ true
  unfolding first any
  any-first p [] h = ground arith
  any-first p (x ∷ xs) {a} h = ground (arith, any-first p xs {a = a})

  -- What was written over the row that a query reads is read.
  pub first-modify_self :
      (p : A → Bool) (b : A) (l : List A) {a : A}
      → first p l ≡ some a
      → p b ≡ true
      → first p (modify p (λ _. b) l) ≡ some b
  unfolding first modify
  first-modify_self p b [] h t = ground arith
  first-modify_self p b (x ∷ xs) {a} h t = ground (arith, first-modify_self p b xs {a = a})

  -- A row that is there is read before the rows added after it …
  pub first-append :
      (p : A → Bool) (l r : List A) {a : A} → first p l ≡ some a → first p (l ++ r) ≡ some a
  unfolding first
  first-append p [] r h = ground arith
  first-append p (x ∷ xs) r {a} h = ground (arith, first-append p xs r {a = a})

  -- … which are read where there is none.
  pub first-append_none :
      (p : A → Bool) (l r : List A) → first p l ≡ none → first p (l ++ r) ≡ first p r
  unfolding first
  first-append_none p [] r h = refl
  first-append_none p (x ∷ xs) r h = ground (arith, first-append_none p xs r)

  pub count-none : (p : A → Bool) (l : List A) → first p l ≡ none → count p l ≡ 0
  unfolding first count
  count-none p [] h = refl
  count-none p (x ∷ xs) h = ground (arith, count-none p xs)
