-- ===== src/Packages/Keys.antt =====
-- The keys that `normalize` gives to criteria (backend/app/services/work_package_service.py).
use Prim.Native.String.{String}
use tasktrack.Prelude.{
  ℕ, zero, suc, ◌≡◌, ◌≢◌, ◌≤◌, ◌<◌, sym, ap, ◌∙◌, inl, inr, Bool-cases, true, false, List, [], ◌∷◌,
  not, str_eq, eq_iff, arith, length, select, any, collect, str-injective,
}
use tasktrack.Model.{PackageCriterion}
use tasktrack.Packages.Content.{knows, criterion_key, free_number}

-- No text stands twice.
unfoldable pub AreDistinct : List String → Type 0
AreDistinct [] = Unit
AreDistinct (k ∷ ks) = (knows ks k ≡ false) × AreDistinct ks

abbrev pub keys : List PackageCriterion → List String
keys cs = collect (λ c. c.key) cs

without : String → List String → List String
without key l = select (λ k. not (str_eq k key)) l

length-without : (key : String) (l : List String) → length (without key l) ≤ length l
unfolding without select
length-without key [] = omega arith
length-without key (k ∷ ks) = ground (arith, length-without key ks)

shorter-without :
    (key : String) (l : List String) → knows l key ≡ true → length (without key l) < length l
unfolding without select knows any
shorter-without key [] h = ground arith
shorter-without key (k ∷ ks) h = ground (arith, length-without key ks, shorter-without key ks)

pub str_eq→≡ : (k j : String) → str_eq k j ≡ true → k ≡ j
str_eq→≡ k j h = (eq_iff k j).0 h

knows-without :
    (key k : String) (l : List String) → key ≢ k → knows l k ≡ true → knows (without key l) k ≡ true
unfolding without select knows any
knows-without key k [] other h = ground arith
knows-without key k (j ∷ js) other h = elim (Bool-cases (str_eq j key)) [
  | inr kept ↦ ground (arith, kept, knows-without key k js)
  | inl dropped ↦ elim (Bool-cases (str_eq j k)) [
    | inl same ↦ absurd (other (sym (str_eq→≡ j key dropped) ∙ str_eq→≡ j k same))
    | inr apart ↦ ground (arith, dropped, apart, knows-without key k js)
  ]
]

criterion_key-injective : (m n : ℕ) → criterion_key m ≡ criterion_key n → m ≡ n
unfolding criterion_key
criterion_key-injective m n h =
    str-injective m n (ap (λ s. elim s [ String.[] ↦ "" | String.◌∷◌ c r ↦ r ]) h)

-- `l` holds every key of `taken` from number `n` on.
Covers : ℕ → List String → List String → Type 0
Covers n l taken =
    (m : ℕ) → n ≤ m → knows taken (criterion_key m) ≡ true → knows l (criterion_key m) ≡ true

-- Running out of fuel takes as many keys as there is fuel.
fuel_spent :
    (fuel n : ℕ) (l taken : List String)
    → Covers n l taken
    → knows taken (criterion_key (free_number fuel n taken)) ≡ true
    → fuel ≤ length l
unfolding free_number Covers
fuel_spent zero n l taken covers h = omega arith
fuel_spent (suc fuel) n l taken covers h = elim (Bool-cases (knows taken (criterion_key n))) [
  | inr free ↦ absurd (ground arith)
  | inl held ↦
      let here = covers n (omega arith) held in
      let rest =
        fuel_spent fuel (suc n) (without (criterion_key n) l) taken
          (λ m later k.
            knows-without (criterion_key n) (criterion_key m) l
              (λ same. absurd (let e = criterion_key-injective n m same in omega arith))
              (covers m (omega arith) k))
          (ground arith) in
      let less = shorter-without (criterion_key n) l here in omega arith
]

-- The loop finds a key that is not taken: fuel for one round more than there are keys is enough.
pub free_number-free :
    (n : ℕ) (taken : List String)
    → knows taken (criterion_key (free_number (suc (length taken)) n taken)) ≡ false
unfolding Covers
free_number-free n taken =
    elim (Bool-cases (knows taken (criterion_key (free_number (suc (length taken)) n taken)))) [
      | inr free ↦ free
      | inl held ↦
          let spent = fuel_spent (suc (length taken)) n taken taken (λ m later k. k) held in
          absurd (omega arith)
    ]
