-- ===== src/Json.antt =====
-- The JSON documents of JSONB columns and of audit events (backend/app/services/audit_service.py):
-- a `dict` keeps its keys in order of insertion. `uuid`, `date` and `word` are the texts that
-- `_jsonable` makes of a UUID, of a date or time and of an enumeration's value.
use tasktrack.Prelude.{
  ℕ, String, Bool, true, false, ◌&&◌, Option, none, some, str_eq, ◌==◌, not, if◌then◌else◌,
}

mutual
  pub data Json : Type 0 where
    null : Json
    bool : Bool → Json
    int : ℕ → Json
    -- any other number, by its text
    number : String → Json
    text word : String → Json
    uuid date : ℕ → Json
    array : Items → Json
    object : Dict → Json

  pub data Items : Type 0 where
    nil : Items
    cons : Json → Items → Items

  pub data Dict : Type 0 where
    empty : Dict
    entry : String → Json → Dict → Dict

-- `d.get(k)`
unfoldable pub get : String → Dict → Option Json
get k empty = none
get k (entry j v d) = if str_eq j k then some v else get k d

-- `d[k] = v`: an existing key keeps its place.
unfoldable pub put : String → Json → Dict → Dict
put k v empty = entry k v empty
put k v (entry j w d) = if str_eq j k then entry j v d else entry j w (put k v d)

-- `{**a, **b}`
unfoldable pub merge : Dict → Dict → Dict
unfolding put
merge a empty = a
merge a (entry k v b) = merge (put k v a) b

unfoldable pub size : Dict → ℕ
size empty = 0
size (entry k v d) = ℕ.suc (size d)

-- `==` of Python on these documents: two dicts are equal whatever the order of their keys.
unfoldable mutual
  unfolding get size

  pub json_eq : Json → Json → Bool
  json_eq null null = true
  json_eq (bool a) (bool b) = if a then b else not b
  json_eq (int a) (int b) = a == b
  json_eq (number a) (number b) = str_eq a b
  json_eq (text a) (text b) = str_eq a b
  json_eq (word a) (word b) = str_eq a b
  json_eq (uuid a) (uuid b) = a == b
  json_eq (date a) (date b) = a == b
  json_eq (array a) (array b) = items_eq a b
  json_eq (object a) (object b) = size a == size b && within a b
  json_eq _ _ = false

  pub items_eq : Items → Items → Bool
  items_eq nil nil = true
  items_eq (cons x xs) (cons y ys) = json_eq x y && items_eq xs ys
  items_eq _ _ = false

  pub within : Dict → Dict → Bool
  within empty b = true
  within (entry k v a) b = elim (get k b) [ none ↦ false | some w ↦ json_eq v w ] && within a b

-- `value in (None, "", [], {})` for `value = d.get(k)`
unfoldable pub is_blank : Option Json → Bool
is_blank none = true
is_blank (some null) = true
is_blank (some (text s)) = str_eq s ""
is_blank (some (array nil)) = true
is_blank (some (object empty)) = true
is_blank (some _) = false

abbrev pub opt {ℓ} : {A : Type ℓ} → (A → Json) → Option A → Json
opt f none = null
opt f (some a) = f a
