-- ===== src/Packages/Content.antt =====
-- The content of an assignment: `normalize`, `missing_fields` and the keys of criteria
-- (backend/app/services/work_package_service.py).
use Prim.Native.Char.{code}
use Prim.Native.String.{String}
use tasktrack.Prelude.{
  ℕ, zero, suc, Bool, true, Option, none, some, List, [], ◌∷◌, ◌++◌, ◌&&◌, ◌||◌, ◌==◌, leb, str_eq,
  is_nil, if◌then◌else◌, length, any, str,
}
use tasktrack.Json
use tasktrack.Json.{Items, nil, cons, Dict, empty, entry, opt}
use tasktrack.Model.{Criterion, PackageInput, WorkPackageContent, PackageCriterion, PackageContent}

-- `key in taken`
unfoldable pub knows : List String → String → Bool
knows keys key = any (λ k. str_eq k key) keys

-- `f"c{n}"`
unfoldable pub criterion_key : ℕ → String
criterion_key n = String.◌∷◌ "c" (str n)

-- `while f"c{n}" in taken: n += 1`, on fuel
unfoldable pub free_number : ℕ → ℕ → List String → ℕ
unfolding knows criterion_key
free_number zero n taken = n
free_number (suc fuel) n taken =
    let next = free_number fuel (suc n) taken in if knows taken (criterion_key n) then next else n

-- `{c["key"] for c in data["criteria"] if c["key"]}`; the pattern of a key admits no empty text.
unfoldable pub given_keys : List Criterion → List String
given_keys [] = []
given_keys (c ∷ cs) = elim c.key [ none ↦ given_keys cs | some k ↦ k ∷ given_keys cs ]

abbrev pub with_key : String → Criterion → PackageCriterion
with_key key c = record { key = key; text = c.text; required = c.required }

-- The loop of `normalize` over the criteria, which has reached `n`.
unfoldable pub keyed : ℕ → List String → List Criterion → List PackageCriterion
unfolding free_number criterion_key
keyed n taken [] = []
keyed n taken (c ∷ cs) = elim c.key [
  | some key ↦ with_key key c ∷ keyed n taken cs
  | none ↦
      let m = free_number (suc (length taken)) (suc n) taken in
      with_key (criterion_key m) c ∷ keyed m (criterion_key m ∷ taken) cs
]

unfoldable pub normalize : WorkPackageContent → PackageContent
unfolding keyed given_keys
normalize draft = record {
  goal = draft.goal;
  expected_result = draft.expected_result;
  criteria = keyed 0 (given_keys draft.criteria) draft.criteria;
  inputs = draft.inputs;
  constraints = draft.constraints;
  specialization = draft.specialization;
  bases = [];
}

-- The characters that `str.strip` takes off.
abbrev is_space : ℕ → Bool
is_space c =
    (leb 9 c && leb c 13)
    || ((leb 28 c && leb c 32)
        || (c == 133
            || (c == 160
                || (c == 5760
                    || ((leb 8192 c && leb c 8202)
                        || (c == 8232
                            || (c == 8233 || (c == 8239 || (c == 8287 || c == 12288)))))))))

-- `not s.strip()`
is_blank_text : String → Bool
is_blank_text String.[] = true
is_blank_text (String.◌∷◌ c s) = is_space (code c) && is_blank_text s

-- `not (content.get(f) or "").strip()`
unfoldable pub is_unfilled : Option String → Bool
unfolding is_blank_text
is_unfilled none = true
is_unfilled (some s) = is_blank_text s

abbrev listed_if : Bool → String → List String
listed_if b name = if b then name ∷ [] else []

unfoldable pub missing_fields : PackageContent → List String
unfolding is_unfilled
missing_fields content =
    listed_if (is_unfilled content.goal) "goal"
    ++ listed_if (is_unfilled content.expected_result) "expected_result"
    ++ listed_if (is_unfilled content.specialization) "specialization"
    ++ listed_if (is_nil content.criteria) "criteria"

texts : List String → Items
texts [] = nil
texts (s ∷ ss) = cons (Json.text s) (texts ss)

criteria_document : List Criterion → Items
criteria_document [] = nil
criteria_document (c ∷ cs) =
    cons
      (Json.object (
        entry "key" (opt Json.text c.key)
          (entry "text" (Json.text c.text) (entry "required" (Json.bool c.required) empty))))
      (criteria_document cs)

inputs_document : List PackageInput → Items
inputs_document [] = nil
inputs_document (i ∷ is) =
    cons
      (Json.object (
        entry "kind" (Json.text i.kind) (
          entry "ref" (Json.text i.ref) (
            entry "version" (opt Json.text i.version)
              (entry "note" (opt Json.text i.note) empty)))))
      (inputs_document is)

-- `content.model_dump()`
unfoldable pub draft_document : WorkPackageContent → Dict
unfolding texts criteria_document inputs_document
draft_document d = entry "goal" (opt Json.text d.goal) (
    entry "expected_result" (opt Json.text d.expected_result) (
      entry "criteria" (Json.array (criteria_document d.criteria)) (
        entry "inputs" (Json.array (inputs_document d.inputs)) (
          entry "constraints" (Json.array (texts d.constraints))
            (entry "specialization" (opt Json.text d.specialization) empty)))))
